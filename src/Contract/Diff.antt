-- ===== src/Contract/Diff.antt =====
-- internal/contract/diff.go: Diff, from the leaves to the candidates.
use mathlib.Core.List.{map}
use intact.Prelude.{
  ℕ, String, str_append, str_eq, Bool, false, not, ◌&&◌, ◌||◌, List, [], ◌∷◌, ◌++◌, keep, length,
  ltb, leb, if◌then◌else◌,
}
use intact.Prelude.Dict.{Dict, insert}
use intact.Prelude.Text.{trim_suffix, split_dots}
use intact.Contract.{
  Leaf, ShapeRecord, Mapping, static_noise_list, renamed_segment, Marked, rules, passes,
}

pub record Candidate : Type 0 where
  pub path : String
  pub type : String
  pub len : ℕ
  pub hash : String
  pub enum : String
  pub model : String
  pub client_format : String
  pub direction : String

unfoldable pub leaves_of : ShapeRecord → List Leaf
leaves_of [] = []
leaves_of (leaves ∷ records) = leaves ++ leaves_of records

abbrev pub is_cut : Leaf → Bool
is_cut leaf = str_eq leaf.type "cut"

-- The loop over the output's records.
unfoldable pub cut_parents : ShapeRecord → List String
unfolding leaves_of trim_suffix
cut_parents out =
    map (λ (leaf : Leaf). trim_suffix "." (trim_suffix "{cut}" leaf.path))
      (keep is_cut (leaves_of out))

unfoldable pub out_leaves : ShapeRecord → List Leaf
unfolding leaves_of
out_leaves out = keep (λ leaf. not (is_cut leaf)) (leaves_of out)

unfoldable pub mapping_map : List Mapping → Dict String → Dict String
mapping_map [] m = m
mapping_map (mapping ∷ mappings) m =
    mapping_map mappings (insert mapping.in_path mapping.out_path m)

-- noiseMap[lower(name)]
unfoldable pub is_noise : (String → String) → List String → String → Bool
is_noise lower [] name = false
is_noise lower (noise ∷ rest) name = str_eq (lower noise) (lower name) || is_noise lower rest name

abbrev pub last_or_empty : List String → String
last_or_empty [] = ""
last_or_empty (s ∷ []) = s
last_or_empty (s ∷ t ∷ ss) = last_or_empty (t ∷ ss)

-- The loop over the input's records.
unfoldable pub in_leaves : (String → String) → List String → ShapeRecord → List Leaf
unfolding leaves_of is_noise trim_suffix split_dots
in_leaves lower noise rec =
    keep
      (λ leaf.
        not (is_cut leaf || str_eq leaf.type "invalid")
        && not (
            is_noise lower (static_noise_list ++ noise)
              (trim_suffix "[]" (last_or_empty (split_dots leaf.path)))))
      (leaves_of rec)

-- `cutAt`
unfoldable pub cut_at_prefix : String → List String → String → Bool
unfolding renamed_segment
cut_at_prefix prefix [] c = str_eq prefix c || renamed_segment prefix c
cut_at_prefix prefix (s ∷ ss) c =
    (str_eq prefix c || renamed_segment prefix c)
    || cut_at_prefix (str_append prefix (str_append "." s)) ss c

abbrev pub cut_at_segs : List String → String → Bool
cut_at_segs [] c = false
cut_at_segs (s ∷ ss) c = cut_at_prefix s ss c

unfoldable pub cut_at : String → List String → Bool
unfolding cut_at_prefix split_dots
cut_at path [] = false
cut_at path (c ∷ cs) = str_eq c "" || cut_at_segs (split_dots path) c || cut_at path cs

abbrev pub unmatched : Leaf → Marked
unmatched leaf = (leaf, false)

-- The marks after the five calls of `pass`.
unfoldable pub matched :
    (String → String)
    → ShapeRecord
    → ShapeRecord
    → List Mapping
    → List String
    → List Marked × List Marked
unfolding rules passes in_leaves out_leaves mapping_map
matched lower rec out mappings noise =
    passes (rules (mapping_map mappings [])) (map unmatched (in_leaves lower noise rec))
      (map unmatched (out_leaves out))

unfoldable pub is_candidate : List String → Marked → Bool
unfolding cut_at
is_candidate cut_under a = not (
    a.1
    || str_eq a.0.type "array"
    || str_eq a.0.type "object"
    || str_eq a.0.type "null"
    || cut_at a.0.path cut_under)

abbrev pub is_free : Marked → Bool
is_free b = not b.1 && not (str_eq b.0.path "") && not (str_eq b.0.type "invalid")

-- The candidate of a leaf
abbrev pub candidate_of : String → String → String → Marked → Candidate
candidate_of model client_format direction a = record {
  path = a.0.path;
  type = a.0.type;
  len = a.0.len;
  hash = a.0.hash;
  enum = a.0.enum;
  model = model;
  client_format = client_format;
  direction = direction;
}

-- The loop over the input's leaves, which appends while there are fewer than 200
abbrev add_candidate : (Marked → Candidate) → List String → List Candidate → Marked → List Candidate
add_candidate make cut_under candidates a =
    if not (is_candidate cut_under a)
    then candidates
    else if ltb (length candidates) 200
    then candidates ++ make a ∷ []
    else candidates

unfoldable pub add_candidates :
    (Marked → Candidate) → List String → List Candidate → List Marked → List Candidate
unfolding is_candidate
add_candidates make cut_under candidates [] = candidates
add_candidates make cut_under candidates (a ∷ ins) =
    add_candidates make cut_under (add_candidate make cut_under candidates a) ins

-- The loop over the output's leaves, which stops at the twentieth path
abbrev add_path : List String → Marked → List String
add_path paths b = if is_free b then paths ++ b.0.path ∷ [] else paths

unfoldable pub add_paths : List String → List Marked → List String
add_paths paths [] = paths
add_paths paths (b ∷ outs) =
    let after = add_path paths b in
    let rest = add_paths after outs in if is_free b && leb 20 (length after) then after else rest

unfoldable pub diff :
    (String → String)
    → ShapeRecord
    → ShapeRecord
    → List Mapping
    → List String
    → String
    → String
    → String
    → List Candidate × List String
unfolding matched cut_parents add_candidates add_paths
diff lower rec out mappings noise model client_format direction =
    let (ins, outs) = matched lower rec out mappings noise in
    (
      add_candidates (candidate_of model client_format direction) (cut_parents out) [] ins,
      add_paths [] outs,
    )
