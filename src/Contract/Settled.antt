-- ===== src/Contract/Settled.antt =====
-- What the five passes of `Diff` leave.
use mathlib.Core.List.{map}
use intact.Prelude.{◌+◌, String, ◌≡◌, refl, arith, Bool, List, [], ◌∷◌, All}
use intact.Contract.{Leaf, ShapeRecord, Mapping, Marked, pass, passes, rules}
use intact.Contract.Diff.{in_leaves, out_leaves, mapping_map, unmatched, matched}
use intact.Contract.Match.{
  count_marks, IsSettled, IsSettled-ins, IsSettled-outs, Grows, Grows-refl, Grows-trans,
  pass-AddsMarks,
}

passes-AddsMarks :
    (matches : List (Leaf → Leaf → Bool)) (ins outs : List Marked)
    → Grows ins (passes matches ins outs).0
      × Grows outs (passes matches ins outs).1
      × (count_marks (passes matches ins outs).0 + count_marks outs
          ≡ count_marks ins + count_marks (passes matches ins outs).1)
      × All (IsSettled (passes matches ins outs).0 (passes matches ins outs).1) matches
unfolding passes
passes-AddsMarks [] ins outs = (Grows-refl ins, Grows-refl outs, omega arith, tt)
passes-AddsMarks (match ∷ matches) ins outs =
    let first = pass match ins outs in
    let (ins_grow, outs_grow, counts, settled) = pass-AddsMarks match ins outs in
    let (ins_later, outs_later, later, others) = passes-AddsMarks matches first.0 first.1 in
    let after = passes matches first.0 first.1 in
    (
      Grows-trans ins first.0 after.0 ins_grow ins_later,
      Grows-trans outs first.1 after.1 outs_grow outs_later,
      omega arith,
      (
        IsSettled-outs match after.0 first.1 after.1 outs_later
            (IsSettled-ins match first.1 first.0 after.0 ins_later settled),
        others,
      ),
    )

count_marks-unmatched : (leaves : List Leaf) → count_marks (map unmatched leaves) ≡ 0
count_marks-unmatched [] = refl
count_marks-unmatched (leaf ∷ leaves) = count_marks-unmatched leaves

-- Marks on the leaves of the two sides.
pub record IsMatching (ins outs : List Leaf) (matches : List (Leaf → Leaf → Bool))
    (marks : List Marked × List Marked) : Type 0 where
  pub same_ins : Grows (map unmatched ins) marks.0
  pub same_outs : Grows (map unmatched outs) marks.1
  pub one_to_one : count_marks marks.0 ≡ count_marks marks.1
  pub none_left : All (IsSettled marks.0 marks.1) matches

-- `Diff` marks as many leaves of the output as of the input, and when it is done no unmatched leaf
-- of the input matches an unmatched leaf of the output by any of its five rules.
pub matched-IsMatching :
    (lower : String → String) (rec out : ShapeRecord) (mappings : List Mapping)
    (noise : List String)
    → IsMatching
        (in_leaves lower noise rec)
        (out_leaves out)
        (rules (mapping_map mappings []))
        (matched lower rec out mappings noise)
unfolding matched
matched-IsMatching lower rec out mappings noise =
    let ins = in_leaves lower noise rec in
    let outs = out_leaves out in
    let (same_ins, same_outs, counts, settled) =
      passes-AddsMarks (rules (mapping_map mappings [])) (map unmatched ins) (map unmatched outs) in
    record {
      same_ins = same_ins;
      same_outs = same_outs;
      one_to_one = omega (arith, count_marks-unmatched ins, count_marks-unmatched outs);
      none_left = settled;
    }
