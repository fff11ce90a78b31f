-- ===== src/Variants/Turned.antt =====
-- The turns that `attemptsFor` of internal/httpapi/variants.go takes.
use mathlib.Core.List.{append_assoc}
use native.Mathlib.Nat.{mod-eq_of_lt, add-mod_left}
use intact.Prelude.{
  ℕ, zero, suc, ◌+◌, ◌-◌, ◌%◌, ◌≤◌, ◌<◌, ◌≡◌, refl, ap, sym, ◌∙◌, arith, List, [], ◌∷◌, ◌++◌,
  length, get_elem?, take, drop,
}
use intact.Rotation.{Connection, turned}
use intact.Variants.Attempts.{present, in_turn}

take-nil : (k : ℕ) → ◌≡◌ {A = List Connection} (take k []) []
take-nil zero = refl
take-nil (suc k) = refl

drop-nil : (k : ℕ) → ◌≡◌ {A = List Connection} (drop k []) []
drop-nil zero = refl
drop-nil (suc k) = refl

take_all : (xs : List Connection) → take (length xs) xs ≡ xs
take_all [] = refl
take_all (x ∷ xs) = ap (λ ys. x ∷ ys) (take_all xs)

one_further : (i : ℕ) → suc (i + 1) ≡ suc i + 1
one_further i = omega arith

one_less : (n i : ℕ) → suc n - suc i ≡ n - i
one_less n i = omega arith

less_none : (n : ℕ) → n - 0 ≡ n
less_none n = omega arith

take_next :
    (xs : List Connection) (i k : ℕ)
    → take (suc k) (drop i xs) ≡ present (get_elem? xs i) ++ take k (drop (i + 1) xs)
take_next [] zero k = sym (take-nil k)
take_next [] (suc i) k = rw (drop-nil (suc i + 1), take-nil k) refl
take_next (x ∷ xs) zero k = refl
take_next (x ∷ xs) (suc i) k =
    take_next xs i k
    ∙ ap (λ j. present (get_elem? xs i) ++ take k (drop j (x ∷ xs))) (one_further i)

take_rest : (xs : List Connection) (i : ℕ) → take (length xs - i) (drop i xs) ≡ drop i xs
take_rest [] zero = take-nil (0 - 0)
take_rest [] (suc i) = take-nil (0 - suc i)
take_rest (x ∷ xs) zero =
    ap (λ k. take k (x ∷ xs)) (less_none (length (x ∷ xs))) ∙ take_all (x ∷ xs)
take_rest (x ∷ xs) (suc i) = ap (λ k. take k (drop i xs)) (one_less (length xs) i) ∙ take_rest xs i

module _ (targets : List Connection) where
  in_turn_inside :
      (i k : ℕ) → i + k ≤ length targets → in_turn targets i k ≡ take k (drop i targets)
  unfolding in_turn
  in_turn_inside i zero h = refl
  in_turn_inside i (suc k) h =
      rw
        (
          mod-eq_of_lt {n = i} {m = length targets} (omega arith),
          in_turn_inside (i + 1) k (omega arith),
        )
        (sym (take_next targets i k))

  one_more : (j : ℕ) → length targets + j + 1 ≡ length targets + (j + 1)
  one_more j = omega arith

  in_turn_again : (j k : ℕ) → in_turn targets (length targets + j) k ≡ in_turn targets j k
  unfolding in_turn
  in_turn_again j zero = refl
  in_turn_again j (suc k) =
      let later : in_turn targets (length targets + j + 1) k ≡ in_turn targets (j + 1) k =
        ap (λ i. in_turn targets i k) (one_more j) ∙ in_turn_again (j + 1) k in
      rw (add-mod_left (length targets) j, later) refl

  no_more : (i : ℕ) → i ≡ i + 0
  no_more i = omega arith

  moved : (i a : ℕ) → i + 1 + a ≡ i + suc a
  moved i a = omega arith

  in_turn_split :
      (i a b n : ℕ)
      → n ≡ a + b
      → in_turn targets i n ≡ in_turn targets i a ++ in_turn targets (i + a) b
  unfolding in_turn
  in_turn_split i zero b n e =
      let same : n ≡ b = omega arith in
      ap (λ k. in_turn targets i k) same ∙ ap (λ j. in_turn targets j b) (no_more i)
  in_turn_split i (suc a) b zero e = absurd (omega arith)
  in_turn_split i (suc a) b (suc n) e =
      let first = present (get_elem? targets (i % length targets)) in
      ap (λ xs. first ++ xs) (in_turn_split (i + 1) a b n (omega arith))
      ∙ sym (append_assoc first (in_turn targets (i + 1) a) (in_turn targets (i + 1 + a) b))
      ∙ ap (λ j. (first ++ in_turn targets (i + 1) a) ++ in_turn targets j b) (moved i a)

  pub in_turn-turned :
      (start : ℕ)
      → start < length targets
      → in_turn targets start (length targets) ≡ turned targets start
  in_turn-turned start h =
      let n = length targets in
      let round : start + (n - start) ≡ n + 0 = omega arith in
      in_turn_split start (n - start) start n (omega arith)
      ∙ ap (λ i. in_turn targets start (n - start) ++ in_turn targets i start) round
      ∙ rw
          (
            in_turn_again 0 start,
            in_turn_inside start (n - start) (omega arith),
            in_turn_inside 0 start (omega arith),
            take_rest targets start,
          )
          refl
