-- ===== src/Prelude/Sorted.antt =====
-- Lists of times in the order in which they were recorded.
use Prim.Native.Nat.{ℕ, ◌≤◌}
use mathlib.Core.Bool.{Bool}
use mathlib.Core.List.{List, [], ◌∷◌, ◌++◌}
use native.Mathlib.Omega.{arith}
use intact.Prelude.Lists.{All, keep, All-append, All-keep}

-- No element is later than one behind it.
abbrev pub IsSorted : List ℕ → Type 0
IsSorted [] = Unit
IsSorted (t ∷ ts) = All (λ u. t ≤ u) ts × IsSorted ts

pub IsSorted-append :
    (ts : List ℕ) (now : ℕ) → IsSorted ts → All (λ t. t ≤ now) ts → IsSorted (ts ++ now ∷ [])
IsSorted-append [] now s h = (tt, tt)
IsSorted-append (t ∷ ts) now s h =
    (All-append (λ u. t ≤ u) ts (now ∷ []) s.0 (h.0, tt), IsSorted-append ts now s.1 h.1)

pub IsSorted-keep : (p : ℕ → Bool) (ts : List ℕ) → IsSorted ts → IsSorted (keep p ts)
IsSorted-keep p [] s = tt
IsSorted-keep p (t ∷ ts) s = ground (arith, All-keep (λ u. t ≤ u) p ts s.0, IsSorted-keep p ts s.1)

pub All-le_trans : (ts : List ℕ) (a b : ℕ) → a ≤ b → All (λ t. t ≤ a) ts → All (λ t. t ≤ b) ts
All-le_trans [] a b h k = tt
All-le_trans (t ∷ ts) a b h k = (omega arith, All-le_trans ts a b h k.1)
