-- ===== src/Findings/Order.antt =====
-- `CompareVersions` orders the versions, and the loop of `ResolveFinding` finds the greatest.
use Prim.Native.Char.{code}
use Prim.Native.String.{[] as empty, ◌∷◌ as cons_char}
use intact.Prelude.{
  ℕ, ◌^◌, String, str_eq, eq_iff, eq_refl, true, false, ◌≡◌, refl, sym, ap, ◌∙◌, List, [], ◌∷◌, inl,
  inr, arith, ltb, Bool-cases,
}
use mathlib.Core.Path.{subst}
use intact.Prelude.Text.{split_dots}
use intact.Findings.Versions.{
  Compared, equal, is_greater, compare_nat, compare_segments, compare_strings, version_parts,
  segments, compare_versions, is_newer,
}

-- The tie of the heads is broken by `k`.
compare_nat_trans :
    (a b c : ℕ) (k1 k2 k3 : Compared)
    → is_greater (compare_nat a b k1) ≡ false
    → is_greater (compare_nat b c k2) ≡ false
    → (is_greater k1 ≡ false → is_greater k2 ≡ false → is_greater k3 ≡ false)
    → is_greater (compare_nat a c k3) ≡ false
compare_nat_trans a b c k1 k2 k3 h1 h2 tie = ground (arith, h1, h2, tie)

compare_nat_asym :
    (a b : ℕ) (k1 k2 : Compared)
    → is_greater (compare_nat a b k1) ≡ true
    → (is_greater k1 ≡ true → is_greater k2 ≡ false)
    → is_greater (compare_nat b a k2) ≡ false
compare_nat_asym a b k1 k2 h tie = ground (arith, h, tie)

compare_nat-same : (a : ℕ) (k : Compared) → compare_nat a a k ≡ k
compare_nat-same a k = let not_less : ltb a a ≡ false = ground arith in rw not_less refl

missing : (a : ℕ) (k : Compared) → is_greater k ≡ false → is_greater (compare_nat a a k) ≡ false
missing a k h = ap is_greater (compare_nat-same a k) ∙ h

compare_segments_trans :
    (a b c : List ℕ) (k1 k2 k3 : Compared)
    → (is_greater k1 ≡ false → is_greater k2 ≡ false → is_greater k3 ≡ false)
    → is_greater (compare_segments a b k1) ≡ false
    → is_greater (compare_segments b c k2) ≡ false
    → is_greater (compare_segments a c k3) ≡ false
unfolding compare_segments
compare_segments_trans [] [] [] k1 k2 k3 tie h1 h2 = tie h1 h2
compare_segments_trans [] [] (z ∷ c) k1 k2 k3 tie h1 h2 =
    compare_nat_trans (2 ^ 63) (2 ^ 63) z k1 (compare_segments [] c k2) (compare_segments [] c k3)
      (missing (2 ^ 63) k1 h1) h2 (λ e f. compare_segments_trans [] [] c k1 k2 k3 tie e f)
compare_segments_trans [] (y ∷ b) [] k1 k2 k3 tie h1 h2 =
    subst (λ x. is_greater x ≡ false) (compare_nat-same (2 ^ 63) k3)
      (compare_nat_trans (2 ^ 63) y (2 ^ 63) (compare_segments [] b k1) (compare_segments b [] k2)
        k3 h1 h2 (compare_segments_trans [] b [] k1 k2 k3 tie))
compare_segments_trans [] (y ∷ b) (z ∷ c) k1 k2 k3 tie h1 h2 =
    compare_nat_trans (2 ^ 63) y z (compare_segments [] b k1) (compare_segments b c k2)
      (compare_segments [] c k3) h1 h2 (compare_segments_trans [] b c k1 k2 k3 tie)
compare_segments_trans (x ∷ a) [] [] k1 k2 k3 tie h1 h2 =
    compare_nat_trans x (2 ^ 63) (2 ^ 63) (compare_segments a [] k1) k2 (compare_segments a [] k3)
      h1 (missing (2 ^ 63) k2 h2) (λ e f. compare_segments_trans a [] [] k1 k2 k3 tie e f)
compare_segments_trans (x ∷ a) [] (z ∷ c) k1 k2 k3 tie h1 h2 =
    compare_nat_trans x (2 ^ 63) z (compare_segments a [] k1) (compare_segments [] c k2)
      (compare_segments a c k3) h1 h2 (compare_segments_trans a [] c k1 k2 k3 tie)
compare_segments_trans (x ∷ a) (y ∷ b) [] k1 k2 k3 tie h1 h2 =
    compare_nat_trans x y (2 ^ 63) (compare_segments a b k1) (compare_segments b [] k2)
      (compare_segments a [] k3) h1 h2 (compare_segments_trans a b [] k1 k2 k3 tie)
compare_segments_trans (x ∷ a) (y ∷ b) (z ∷ c) k1 k2 k3 tie h1 h2 =
    compare_nat_trans x y z (compare_segments a b k1) (compare_segments b c k2)
      (compare_segments a c k3) h1 h2 (compare_segments_trans a b c k1 k2 k3 tie)

compare_segments_asym :
    (a b : List ℕ) (k1 k2 : Compared)
    → (is_greater k1 ≡ true → is_greater k2 ≡ false)
    → is_greater (compare_segments a b k1) ≡ true
    → is_greater (compare_segments b a k2) ≡ false
unfolding compare_segments
compare_segments_asym [] [] k1 k2 tie h = tie h
compare_segments_asym [] (y ∷ b) k1 k2 tie h =
    compare_nat_asym (2 ^ 63) y (compare_segments [] b k1) (compare_segments b [] k2) h
      (compare_segments_asym [] b k1 k2 tie)
compare_segments_asym (x ∷ a) [] k1 k2 tie h =
    compare_nat_asym x (2 ^ 63) (compare_segments a [] k1) (compare_segments [] a k2) h
      (compare_segments_asym a [] k1 k2 tie)
compare_segments_asym (x ∷ a) (y ∷ b) k1 k2 tie h =
    compare_nat_asym x y (compare_segments a b k1) (compare_segments b a k2) h
      (compare_segments_asym a b k1 k2 tie)

compare_segments-same : (a : List ℕ) (k : Compared) → compare_segments a a k ≡ k
unfolding compare_segments
compare_segments-same [] k = refl
compare_segments-same (x ∷ a) k =
    compare_nat-same x (compare_segments a a k) ∙ compare_segments-same a k

compare_strings_trans :
    (s t u : String)
    → is_greater (compare_strings s t) ≡ false
    → is_greater (compare_strings t u) ≡ false
    → is_greater (compare_strings s u) ≡ false
unfolding compare_strings
compare_strings_trans empty t empty h1 h2 = refl
compare_strings_trans empty t (cons_char e u) h1 h2 = refl
compare_strings_trans (cons_char c s) empty u h1 h2 = cc
compare_strings_trans (cons_char c s) (cons_char d t) empty h1 h2 = cc
compare_strings_trans (cons_char c s) (cons_char d t) (cons_char e u) h1 h2 =
    compare_nat_trans (code c) (code d) (code e) (compare_strings s t) (compare_strings t u)
      (compare_strings s u) h1 h2 (compare_strings_trans s t u)

compare_strings_asym :
    (s t : String)
    → is_greater (compare_strings s t) ≡ true
    → is_greater (compare_strings t s) ≡ false
unfolding compare_strings
compare_strings_asym empty empty h = cc
compare_strings_asym empty (cons_char d t) h = cc
compare_strings_asym (cons_char c s) empty h = refl
compare_strings_asym (cons_char c s) (cons_char d t) h =
    compare_nat_asym (code c) (code d) (compare_strings s t) (compare_strings t s) h
      (compare_strings_asym s t)

compare_strings-same : (s : String) → compare_strings s s ≡ equal
unfolding compare_strings
compare_strings-same empty = refl
compare_strings-same (cons_char c s) =
    compare_nat-same (code c) (compare_strings s s) ∙ compare_strings-same s

-- The comparison without its first test
abbrev compare_parts : String × String → String × String → Compared
compare_parts (version1, time1) (version2, time2) =
    compare_segments (segments (split_dots version1)) (segments (split_dots version2))
      (compare_strings time1 time2)

compare_versions_lem :
    (a b : String) → compare_versions a b ≡ compare_parts (version_parts a) (version_parts b)
unfolding compare_versions
compare_versions_lem a b = elim (Bool-cases (str_eq a b)) [
  | inr apart ↦ rw apart refl
  | inl same ↦
      let e = (eq_iff a b).0 same in
      let parts = version_parts a in
      rw same (
        sym (
          ap (λ x. compare_parts parts (version_parts x)) (sym e)
          ∙ compare_segments-same (segments (split_dots parts.0)) (compare_strings parts.1 parts.1)
          ∙ compare_strings-same parts.1))
]

newer_parts :
    (a b : String) → is_newer a b ≡ is_greater (compare_parts (version_parts a) (version_parts b))
unfolding is_newer
newer_parts a b = ap is_greater (compare_versions_lem a b)

pub is_newer_trans :
    (a b c : String) → is_newer a b ≡ false → is_newer b c ≡ false → is_newer a c ≡ false
is_newer_trans a b c h1 h2 =
    let (va, ta) = version_parts a in
    let (vb, tb) = version_parts b in
    let (vc, tc) = version_parts c in
    newer_parts a c
    ∙ compare_segments_trans (segments (split_dots va)) (segments (split_dots vb))
        (segments (split_dots vc)) (compare_strings ta tb) (compare_strings tb tc)
        (compare_strings ta tc) (compare_strings_trans ta tb tc) (sym (newer_parts a b) ∙ h1)
        (sym (newer_parts b c) ∙ h2)

pub is_newer_asym : (a b : String) → is_newer a b ≡ true → is_newer b a ≡ false
is_newer_asym a b h =
    let (va, ta) = version_parts a in
    let (vb, tb) = version_parts b in
    newer_parts b a
    ∙ compare_segments_asym (segments (split_dots va)) (segments (split_dots vb))
        (compare_strings ta tb) (compare_strings tb ta) (compare_strings_asym ta tb)
        (sym (newer_parts a b) ∙ h)

pub is_newer_irrefl : (a : String) → is_newer a a ≡ false
unfolding is_newer compare_versions
is_newer_irrefl a = rw (eq_refl a) refl
