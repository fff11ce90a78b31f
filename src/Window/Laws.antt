-- ===== src/Window/Laws.antt =====
-- `trim_window` against the filter that it computes on a list in order.
use intact.Prelude.{
  ℕ, ◌+◌, ◌≤◌, ◌<◌, List, [], ◌∷◌, ◌≡◌, refl, arith, length, get_elem?, keep, All, All-get_elem?,
  IsSorted, zero, suc, some,
}
use intact.Window.{live, trim_window}

-- What is not older than a live time is live.
keep-live-All :
    (win now t : ℕ) (ts : List ℕ)
    → All (λ u. t ≤ u) ts
    → now < t + win
    → keep (live win now) ts ≡ ts
keep-live-All win now t [] h l = refl
keep-live-All win now t (u ∷ ts) h l = ground (arith, keep-live-All win now t ts h.1 l)

-- On times in order the loop is the filter.
pub trim_window-eq-keep :
    (win now : ℕ) (ts : List ℕ) → IsSorted ts → trim_window ts now win ≡ keep (live win now) ts
unfolding trim_window
trim_window-eq-keep win now [] s = refl
trim_window-eq-keep win now (t ∷ ts) s =
    ground (arith, trim_window-eq-keep win now ts s.1, keep-live-All win now t ts s.0)

-- What has left the window stays out of it.
pub keep-keep-live :
    (win now later : ℕ) (ts : List ℕ)
    → now ≤ later
    → keep (live win later) (keep (live win now) ts) ≡ keep (live win later) ts
keep-keep-live win now later [] h = refl
keep-keep-live win now later (t ∷ ts) h = ground (arith, keep-keep-live win now later ts h)

pub length-trim_window-le :
    (ts : List ℕ) (now win : ℕ) → length (trim_window ts now win) ≤ length ts
unfolding trim_window
length-trim_window-le [] now win = omega arith
length-trim_window-le (t ∷ ts) now win = ground (arith, length-trim_window-le ts now win)

pub All-trim_window :
    (P : ℕ → Type 0) (ts : List ℕ) (now win : ℕ) → All P ts → All P (trim_window ts now win)
unfolding trim_window
All-trim_window P [] now win h = tt
All-trim_window P (t ∷ ts) now win h = ground (arith, All-trim_window P ts now win h.1)

pub IsSorted-trim_window :
    (ts : List ℕ) (now win : ℕ) → IsSorted ts → IsSorted (trim_window ts now win)
unfolding trim_window
IsSorted-trim_window [] now win s = tt
IsSorted-trim_window (t ∷ ts) now win s = ground (arith, IsSorted-trim_window ts now win s.1)

-- The first time that the loop leaves is inside the window.
pub trim_window-head_live :
    (ts : List ℕ) (now win t : ℕ) (rest : List ℕ)
    → trim_window ts now win ≡ t ∷ rest
    → now < t + win
unfolding trim_window
trim_window-head_live [] now win t rest e = cc
trim_window-head_live (u ∷ ts) now win t rest e =
    ground (arith, trim_window-head_live ts now win t rest)

All-later :
    (now win t : ℕ) (ts : List ℕ)
    → All (λ u. t ≤ u) ts
    → now < t + win
    → All (λ u. now < u + win) ts
All-later now win t [] h l = tt
All-later now win t (u ∷ ts) h l = (omega arith, All-later now win t ts h.1 l)

-- Once the time at index `i` has left the window, so have those before it.
pub length-trim_window-lt :
    (ts : List ℕ) (i win now t : ℕ)
    → IsSorted ts
    → get_elem? ts i ≡ some t
    → t + win ≤ now
    → length (trim_window ts now win) + i < length ts
unfolding trim_window
length-trim_window-lt [] i win now t s e h = cc
length-trim_window-lt (u ∷ ts) zero win now t s e h =
    ground (arith, length-trim_window-le ts now win)
length-trim_window-lt (u ∷ ts) (suc i) win now t s e h =
    ground
      (arith, All-get_elem? (λ v. u ≤ v) ts i t s.0 e, length-trim_window-lt ts i win now t s.1 e h)

-- While the time at index `i` is inside the window, so are those behind it.
pub length-le-trim_window :
    (ts : List ℕ) (i win now t : ℕ)
    → get_elem? ts i ≡ some t
    → now < t + win
    → length ts ≤ length (trim_window ts now win) + i
unfolding trim_window
length-le-trim_window [] i win now t e h = cc
length-le-trim_window (u ∷ ts) zero win now t e h = ground arith
length-le-trim_window (u ∷ ts) (suc i) win now t e h =
    ground (arith, length-le-trim_window ts i win now t e h)

-- What the loop leaves of times in order is inside the window.
pub All-live_trim_window :
    (ts : List ℕ) (now win : ℕ) → IsSorted ts → All (λ t. now < t + win) (trim_window ts now win)
unfolding trim_window
All-live_trim_window [] now win s = tt
All-live_trim_window (t ∷ ts) now win s =
    ground (arith, All-live_trim_window ts now win s.1, All-later now win t ts s.0)
