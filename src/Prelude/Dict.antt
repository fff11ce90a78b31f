-- ===== src/Prelude/Dict.antt =====
-- Go's maps with string keys, as association lists. A theorem that does not depend on the order of
-- a range over a map is stated for every list of entries.
use Prim.Native.String.{String}
use Prim.Native.Nat.{suc, ◌≤◌}
use mathlib.Core.Path.{◌≡◌, refl, subst}
use mathlib.Core.Logic.{◌⊎◌, inl, inr}
use mathlib.Core.List.{List, [], ◌∷◌}
use mathlib.Core.Option.{Option, none, some}
use native.Mathlib.Omega.{arith}
use text.Mathlib.Text.{◌==◌}
use text.Mathlib.TextEquality.{eq_iff}
use mathlib.Core.Bool.{Bool, false}
use intact.Prelude.Tests.{if◌then◌else◌, Bool-cases}
use intact.Prelude.Lists.{length, keep, All, All-keep}

abbrev pub Dict {ℓ} : Type ℓ → Type ℓ
Dict V = List (String × V)

module _ {ℓ} {V : Type ℓ} where
  -- v, ok := m[key]
  unfoldable pub lookup : String → Dict V → Option V
  lookup key [] = none
  lookup key (entry ∷ m) = let rest = lookup key m in if entry.0 == key then some entry.1 else rest

  -- m[key] = value; an entry of the key is replaced where it stands
  unfoldable pub insert : String → V → Dict V → Dict V
  insert key value [] = (key, value) ∷ []
  insert key value (entry ∷ m) =
      let rest = insert key value m in if entry.0 == key then (key, value) ∷ m else entry ∷ rest

  -- delete(m, key)
  unfoldable pub delete : String → Dict V → Dict V
  delete key [] = []
  delete key (entry ∷ m) = let rest = delete key m in if entry.0 == key then rest else entry ∷ rest

  pub lookup-insert :
      (m : Dict V) (key : String) (value : V) (other : String)
      → lookup other (insert key value m) ≡ (if key == other then some value else lookup other m)
  unfolding lookup insert
  lookup-insert [] key value other = refl
  lookup-insert (entry ∷ m) key value other =
      let ih = lookup-insert m key value other in
      ground (arith, ih, eq_iff entry.0 other, eq_iff entry.0 key, eq_iff key other)

  pub lookup-delete :
      (m : Dict V) (key other : String)
      → lookup other (delete key m) ≡ (if key == other then none else lookup other m)
  unfolding lookup delete
  lookup-delete [] key other = ground arith
  lookup-delete (entry ∷ m) key other =
      let ih = lookup-delete m key other in
      ground (arith, ih, eq_iff key other, eq_iff entry.0 other, eq_iff entry.0 key)

pub ruleset dict_laws = (lookup-insert, lookup-delete)

-- m[k] of a map of lists: a missing key reads as the nil slice.
abbrev pub or_nil {ℓ} : {A : Type ℓ} → Option (List A) → List A
or_nil none = []
or_nil (some xs) = xs

-- The entries of a Go map have different keys.
abbrev pub IsDistinct {ℓ} : {V : Type ℓ} → Dict V → Type 0
IsDistinct [] = Unit
IsDistinct (entry ∷ m) = All (λ other. (other.0 == entry.0) ≡ false) m × IsDistinct m

module _ {ℓ} {V : Type ℓ} where
  All-insert :
      (P : String → Type 0) (key : String) (value : V) (m : Dict V)
      → P key
      → All (λ e. P e.0) m
      → All (λ e. P e.0) (insert key value m)
  unfolding insert
  All-insert P key value [] p h = (p, tt)
  All-insert P key value (entry ∷ m) p h = ground (arith, All-insert P key value m p h.1)

  pub insert-IsDistinct :
      (key : String) (value : V) (m : Dict V) → IsDistinct m → IsDistinct (insert key value m)
  unfolding insert
  insert-IsDistinct key value [] h = (tt, tt)
  insert-IsDistinct key value (entry ∷ m) h = elim (Bool-cases (entry.0 == key)) [
    | inl same ↦ rw same (
      subst (λ k. All (λ other. (other.0 == k) ≡ false) m) ((eq_iff entry.0 key).0 same) h.0,
      h.1,
    )
    | inr differ ↦ rw differ (
      All-insert (λ k. (k == entry.0) ≡ false) key value m
          (ground (arith, eq_iff key entry.0, eq_iff entry.0 key)) h.0,
      insert-IsDistinct key value m h.1,
    )
  ]

  pub keep-IsDistinct : (p : String × V → Bool) (m : Dict V) → IsDistinct m → IsDistinct (keep p m)
  keep-IsDistinct p [] h = tt
  keep-IsDistinct p (entry ∷ m) h =
      ground
        (arith, All-keep (λ other. (other.0 == entry.0) ≡ false) p m h.0, keep-IsDistinct p m h.1)

  All-delete :
      (P : String × V → Type 0) (key : String) (m : Dict V) → All P m → All P (delete key m)
  unfolding delete
  All-delete P key [] h = tt
  All-delete P key (entry ∷ m) h = ground (arith, All-delete P key m h.1)

  pub delete-IsDistinct : (key : String) (m : Dict V) → IsDistinct m → IsDistinct (delete key m)
  unfolding delete
  delete-IsDistinct key [] h = tt
  delete-IsDistinct key (entry ∷ m) h = ground (
    arith,
    All-delete (λ other. (other.0 == entry.0) ≡ false) key m h.0,
    delete-IsDistinct key m h.1,
  )

  lookup_absent :
      (key : String) (m : Dict V) → All (λ other. (other.0 == key) ≡ false) m → lookup key m ≡ none
  unfolding lookup
  lookup_absent key [] h = refl
  lookup_absent key (entry ∷ m) h = ground (arith, lookup_absent key m h.1)

  -- Where keys are different, an entry that is not kept hides no other.
  pub lookup-keep :
      (p : String × V → Bool) (key : String) (m : Dict V)
      → IsDistinct m
      → (lookup key (keep p m) ≡ none) ⊎ (lookup key (keep p m) ≡ lookup key m)
  unfolding lookup
  lookup-keep p key [] h = inl refl
  lookup-keep p key (entry ∷ m) h = elim (Bool-cases (entry.0 == key)) [
    | inl same ↦
        let absent : All (λ other. (other.0 == key) ≡ false) m =
          subst (λ k. All (λ other. (other.0 == k) ≡ false) m) ((eq_iff entry.0 key).0 same) h.0 in
        ground (
          arith,
          lookup_absent key (keep p m) (All-keep (λ other. (other.0 == key) ≡ false) p m absent),
        )
    | inr differ ↦ ground (arith, lookup-keep p key m h.1)
  ]

  pub length-insert-le :
      (key : String) (value : V) (m : Dict V) → length (insert key value m) ≤ suc (length m)
  unfolding insert
  length-insert-le key value [] = omega arith
  length-insert-le key value (entry ∷ m) = ground (arith, length-insert-le key value m)

  pub length-insert_known :
      (key : String) (value : V) (m : Dict V) (old : V)
      → lookup key m ≡ some old
      → length (insert key value m) ≡ length m
  unfolding insert lookup
  length-insert_known key value [] old h = cc
  length-insert_known key value (entry ∷ m) old h =
      ground (arith, length-insert_known key value m old)

  pub length-delete-le : (key : String) (m : Dict V) → length (delete key m) ≤ length m
  unfolding delete
  length-delete-le key [] = omega arith
  length-delete-le key (entry ∷ m) = ground (arith, length-delete-le key m)
