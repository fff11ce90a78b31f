-- ===== src/Findings/Versions.antt =====
-- internal/contract/diff.go: `CompareVersions`.
-- A native int is one of 64 bits. An int is given moved up by 2 ^ 63, so that it is never negative:
-- `strconv.Atoi` of a text, with the value that it returns beside an error.
use Prim.Native.Char.{code}
use Prim.Native.String.{[] as empty, ◌∷◌ as cons_char}
use intact.Prelude.{
  ℕ, ◌+◌, ◌-◌, ◌*◌, ◌^◌, String, str_eq, Bool, true, false, ◌||◌, Option, none, some, List, [], ◌∷◌,
  ltb, leb, ◌==◌, if◌then◌else◌,
}
use intact.Prelude.Text.{cut_code, split_dots}

-- strconv.ParseUint(s, 10, 64) of what follows the number `n`: 0 for a character that is no digit, and
-- the greatest number once it is passed.
unfoldable pub scan_uint : String → ℕ → ℕ
scan_uint empty n = n
scan_uint (cons_char c s) n =
    let more = n * 10 + (code c - 48) in
    let rest = scan_uint s more in
    if ltb (code c) 48 || ltb 57 (code c)
    then 0
    else if ltb (2 ^ 64 - 1) more
    then 2 ^ 64 - 1
    else rest

abbrev moved_up : Bool → ℕ → ℕ
moved_up true n = 2 ^ 63 - n
moved_up false n = if leb (2 ^ 63) n then 2 ^ 63 + (2 ^ 63 - 1) else 2 ^ 63 + n

unfoldable pub atoi : String → ℕ
unfolding scan_uint
atoi empty = 2 ^ 63
atoi (cons_char c s) =
    if code c == 45
    then moved_up true (scan_uint s 0)
    else if code c == 43
    then moved_up false (scan_uint s 0)
    else moved_up false (scan_uint (cons_char c s) 0)

-- The sign of `CompareVersions`
pub data Compared : Type 0 where
  less : Compared
  equal : Compared
  greater : Compared

abbrev pub compare_nat : ℕ → ℕ → Compared → Compared
compare_nat a b equally = if ltb b a then greater else if ltb a b then less else equally

-- The loop over the segments; a missing one is 0.
unfoldable pub compare_segments : List ℕ → List ℕ → Compared → Compared
compare_segments [] [] equally = equally
compare_segments [] (b ∷ bs) equally = compare_nat (2 ^ 63) b (compare_segments [] bs equally)
compare_segments (a ∷ as') [] equally = compare_nat a (2 ^ 63) (compare_segments as' [] equally)
compare_segments (a ∷ as') (b ∷ bs) equally = compare_nat a b (compare_segments as' bs equally)

-- The order of two strings
unfoldable pub compare_strings : String → String → Compared
compare_strings empty empty = equal
compare_strings empty (cons_char d t) = less
compare_strings (cons_char c s) empty = greater
compare_strings (cons_char c s) (cons_char d t) =
    compare_nat (code c) (code d) (compare_strings s t)

-- strings.SplitN(v, "+", 2): the version, and the time or ""
abbrev parts_or : String → Option (String × String) → String × String
parts_or v none = (v, "")
parts_or v (some (version, time)) = (version, time)

unfoldable pub version_parts : String → String × String
unfolding cut_code
version_parts v = parts_or v (cut_code 43 v)

unfoldable pub segments : List String → List ℕ
unfolding atoi
segments [] = []
segments (s ∷ parts) = atoi s ∷ segments parts

unfoldable pub compare_versions : String → String → Compared
unfolding compare_segments compare_strings version_parts segments split_dots
compare_versions v1 v2 =
    let (version1, time1) = version_parts v1 in
    let (version2, time2) = version_parts v2 in
    if str_eq v1 v2
    then equal
    else compare_segments (segments (split_dots version1)) (segments (split_dots version2))
        (compare_strings time1 time2)

abbrev pub is_greater : Compared → Bool
is_greater less = false
is_greater equal = false
is_greater greater = true

unfoldable pub is_newer : String → String → Bool
unfolding compare_versions
is_newer v1 v2 = is_greater (compare_versions v1 v2)
