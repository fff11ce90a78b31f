-- ===== src/Contract/Match.antt =====
-- The marks that `pass` makes: one to one, and none left to make.
use mathlib.Core.Path.{subst}
use intact.Prelude.{
  ℕ, suc, ◌+◌, ◌≡◌, ◌⊎◌, inl, inr, refl, ap, sym, ◌∙◌, arith, Bool, true, false, not, ◌&&◌, List,
  [], ◌∷◌, length, keep, All, Bool-cases,
}
use intact.Contract.{Leaf, Marked, take_match, pass}

abbrev pub count_marks : List Marked → ℕ
count_marks ms = length (keep (λ m. m.1) ms)

-- No unmatched output matches a leaf, and no unmatched input has an unmatched output that matches.
abbrev pub HasNoMatch : (Leaf → Leaf → Bool) → List Marked → Leaf → Type 0
HasNoMatch match outs a = All (λ b. b.1 ≡ false → match a b.0 ≡ false) outs

abbrev pub IsSettled : List Marked → List Marked → (Leaf → Leaf → Bool) → Type 0
IsSettled ins outs match = All (λ a. a.1 ≡ false → HasNoMatch match outs a.0) ins

-- The same leaves, with as many marks or more.
abbrev pub Grows : List Marked → List Marked → Type 0
Grows [] [] = Unit
Grows [] (n ∷ ns) = ⊥
Grows (m ∷ ms) [] = ⊥
Grows (m ∷ ms) (n ∷ ns) = (m.0 ≡ n.0) × (m.1 ≡ true → n.1 ≡ true) × Grows ms ns

pub Grows-refl : (ms : List Marked) → Grows ms ms
Grows-refl [] = tt
Grows-refl (m ∷ ms) = (refl, λ h. h, Grows-refl ms)

pub Grows-trans : (ks ms ns : List Marked) → Grows ks ms → Grows ms ns → Grows ks ns
Grows-trans [] [] [] g h = tt
Grows-trans [] [] (n ∷ ns) g h = absurd h
Grows-trans [] (m ∷ ms) ns g h = absurd g
Grows-trans (k ∷ ks) [] ns g h = absurd g
Grows-trans (k ∷ ks) (m ∷ ms) [] g h = absurd h
Grows-trans (k ∷ ks) (m ∷ ms) (n ∷ ns) (e, f, g) (e', f', h) =
    (e ∙ e', λ x. f' (f x), Grows-trans ks ms ns g h)

module _ (match : Leaf → Leaf → Bool) where
  -- One mark more where a match is found, and otherwise no match.
  take_match-marks :
      (a : Leaf) (outs : List Marked)
      → Grows outs (take_match match a outs).0
        × (((take_match match a outs).1 ≡ true)
              × (count_marks (take_match match a outs).0 ≡ suc (count_marks outs))
            ⊎ ((take_match match a outs).1 ≡ false)
              × ((take_match match a outs).0 ≡ outs)
              × HasNoMatch match outs a)
  unfolding take_match
  take_match-marks a [] = (tt, inr (refl, refl, tt))
  take_match-marks a (b ∷ outs) = elim (Bool-cases (not b.1 && match a b.0)) [
    | inl takes ↦ rw takes ((refl, λ h. refl, Grows-refl outs), inl (refl, ground arith))
    | inr passes_by ↦
        let (grown, result) = take_match-marks a outs in
        rw passes_by (
          (refl, λ h. h, grown),
          elim result [
            | inl (found, more) ↦ inl (
              found,
              elim (Bool-cases b.1) [
                | inl marked ↦ rw marked (ap suc more)
                | inr unmarked ↦ rw unmarked more
              ],
            )
            | inr (lost, same, no_match) ↦
                inr (lost, ap (λ ms. b ∷ ms) same, (λ h. ground (arith, h, passes_by), no_match))
          ],
        )
  ]

  HasNoMatch-Grows :
      (a : Leaf) (ms ns : List Marked) → Grows ms ns → HasNoMatch match ms a → HasNoMatch match ns a
  HasNoMatch-Grows a [] [] g h = tt
  HasNoMatch-Grows a [] (n ∷ ns) g h = absurd g
  HasNoMatch-Grows a (m ∷ ms) [] g h = absurd g
  HasNoMatch-Grows a (m ∷ ms) (n ∷ ns) (same, more, g) h = (
    λ unmarked. elim (Bool-cases m.1) [
      | inl marked ↦ absurd (ground (arith, more marked, unmarked))
      | inr free ↦ sym (ap (match a) same) ∙ h.0 free
    ],
    HasNoMatch-Grows a ms ns g h.1,
  )

  pub IsSettled-outs :
      (ins ms ns : List Marked) → Grows ms ns → IsSettled ins ms match → IsSettled ins ns match
  IsSettled-outs [] ms ns g s = tt
  IsSettled-outs (a ∷ ins) ms ns g s =
      (λ free. HasNoMatch-Grows a.0 ms ns g (s.0 free), IsSettled-outs ins ms ns g s.1)

  pub IsSettled-ins :
      (outs ins ins' : List Marked)
      → Grows ins ins'
      → IsSettled ins outs match
      → IsSettled ins' outs match
  IsSettled-ins outs [] [] g s = tt
  IsSettled-ins outs [] (n ∷ ns) g s = absurd g
  IsSettled-ins outs (m ∷ ms) [] g s = absurd g
  IsSettled-ins outs (m ∷ ms) (n ∷ ns) (same, more, g) s = (
    λ unmarked. elim (Bool-cases m.1) [
      | inl marked ↦ absurd (ground (arith, more marked, unmarked))
      | inr free ↦ subst (λ l. HasNoMatch match outs l) same (s.0 free)
    ],
    IsSettled-ins outs ms ns g s.1,
  )

  -- What a pass does: marks are only added, as many on each side, and it settles its rule.
  abbrev pub AddsMarks : List Marked → List Marked → List Marked × List Marked → Type 0
  AddsMarks ins outs after =
      Grows ins after.0
      × Grows outs after.1
      × (count_marks after.0 + count_marks outs ≡ count_marks ins + count_marks after.1)
      × IsSettled after.0 after.1 match

  pass_over :
      (a : Marked) (ins outs : List Marked)
      → a.1 ≡ true
      → pass match (a ∷ ins) outs ≡ ((a.0, true) ∷ (pass match ins outs).0, (pass match ins outs).1)
  unfolding pass
  pass_over a ins outs h = rw h refl

  pass_on :
      (a : Marked) (ins outs outs' : List Marked) (found : Bool)
      → a.1 ≡ false
      → take_match match a.0 outs ≡ (outs', found)
      → pass match (a ∷ ins) outs
        ≡ ((a.0, found) ∷ (pass match ins outs').0, (pass match ins outs').1)
  unfolding pass
  pass_on a ins outs outs' found h e = rw (h, e) refl

  pass_none : (outs : List Marked) → AddsMarks [] outs (pass match [] outs)
  unfolding pass
  pass_none outs = (tt, Grows-refl outs, omega arith, tt)

  pub pass-AddsMarks : (ins outs : List Marked) → AddsMarks ins outs (pass match ins outs)
  pass-AddsMarks [] outs = pass_none outs
  pass-AddsMarks (a ∷ ins) outs = elim (Bool-cases a.1) [
    | inl marked ↦
        let (grown_ins, grown_outs, counts, settled) = pass-AddsMarks ins outs in
        subst (AddsMarks (a ∷ ins) outs) (sym (pass_over a ins outs marked))
          ((refl, λ h. refl, grown_ins), grown_outs, rw marked (omega arith), (λ free. cc, settled))
    | inr free ↦
        let after = (take_match match a.0 outs).0 in
        let (grown_ins, grown_outs, counts, settled) = pass-AddsMarks ins after in
        let (grown, result) = take_match-marks a.0 outs in
        let all_grown = Grows-trans outs after (pass match ins after).1 grown grown_outs in
        elim result [
          | inl (found, more) ↦
              let taken : take_match match a.0 outs ≡ (after, true) = ap (λ f. (after, f)) found in
              subst (AddsMarks (a ∷ ins) outs) (sym (pass_on a ins outs after true free taken)) (
                (refl, λ h. refl, grown_ins),
                all_grown,
                rw free (omega arith),
                (λ unmarked. cc, settled),
              )
          | inr (lost, same, no_match) ↦
              let missed : take_match match a.0 outs ≡ (after, false) = ap (λ f. (after, f)) lost in
              subst (AddsMarks (a ∷ ins) outs) (sym (pass_on a ins outs after false free missed)) (
                (refl, λ h. absurd (ground (arith, h, free)), grown_ins),
                all_grown,
                rw free (omega (arith, ap count_marks same)),
                (λ unmarked. HasNoMatch-Grows a.0 outs _ all_grown no_match, settled),
              )
        ]
  ]
