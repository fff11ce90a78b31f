-- ===== src/Contract.antt =====
-- internal/contract/diff.go: which fields of a request or an answer have no counterpart on the other
-- side. strings.ToLower is the argument `lower`.
pub mod Diff
pub mod Match
pub mod Settled
pub mod Bounded
mod Tests
use intact.Prelude.{
  ℕ, zero, suc, ◌+◌, ◌-◌, String, str_eq, Bool, true, false, not, ◌&&◌, ◌||◌, Option, none, some,
  List, [], ◌∷◌, ◌++◌, ltb, leb, ◌==◌, length, keep, take, if◌then◌else◌,
}
use intact.Prelude.Dict.{Dict, lookup, insert}
use intact.Prelude.Text.{trim_suffix, split_dots}

-- The field `Deltas` is read by no function of the file.
pub record Leaf : Type 0 where
  pub path : String
  pub type : String
  pub len : ℕ
  pub hash : String
  pub enum : String

-- The leaves of each record of a `ShapeRecord`.
abbrev pub ShapeRecord : Type 0
ShapeRecord = List (List Leaf)

pub record Mapping : Type 0 where
  pub in_path : String
  pub out_path : String

abbrev pub static_noise_list : List String
static_noise_list = "id" ∷ "created" ∷ "system_fingerprint" ∷ "date" ∷ "x-request-id" ∷ []

-- `renamedSegment`: the segments that two paths share at the start, of at most `n`.
unfoldable pub shared : ℕ → List String → List String → ℕ
shared zero a b = 0
shared (suc n) [] b = 0
shared (suc n) (x ∷ a) [] = 0
shared (suc n) (x ∷ a) (y ∷ b) = let rest = shared n a b in if str_eq x y then suc rest else 0

unfoldable pub reverse : List String → List String → List String
reverse [] back = back
reverse (x ∷ xs) back = reverse xs (x ∷ back)

abbrev pub smaller : ℕ → ℕ → ℕ
smaller a b = if ltb a b then a else b

unfoldable pub renamed : List String → List String → Bool
unfolding shared reverse
renamed a b =
    let p = shared (smaller (length a) (length b)) a b in
    let s = shared (smaller (length a - p) (length b - p)) (reverse a []) (reverse b []) in
    let mid_in = length a - p - s in
    let mid_out = length b - p - s in
    leb 1 s && (leb 1 p || leb 2 s) && mid_in == 1 && leb 1 mid_out && leb mid_out 2

unfoldable pub renamed_segment : String → String → Bool
unfolding renamed split_dots
renamed_segment a b = renamed (split_dots a) (split_dots b)

-- `sameValue`
abbrev pub same_value : Leaf → Leaf → Bool
same_value a b =
    if str_eq b.type "null" && not (str_eq a.type "null")
    then false
    else (str_eq a.enum "" && str_eq b.enum "") || str_eq a.enum b.enum

-- `inMatched` and `outMatched`: a leaf with its mark.
abbrev pub Marked : Type 0
Marked = Leaf × Bool

-- The inner loop of `pass`: the first unmatched output that matches.
unfoldable pub take_match : (Leaf → Leaf → Bool) → Leaf → List Marked → List Marked × Bool
take_match match a [] = ([], false)
take_match match a (b ∷ outs) =
    let (rest, found) = take_match match a outs in
    if not b.1 && match a b.0 then ((b.0, true) ∷ outs, true) else (b ∷ rest, found)

unfoldable pub pass : (Leaf → Leaf → Bool) → List Marked → List Marked → List Marked × List Marked
unfolding take_match
pass match [] outs = ([], outs)
pass match (a ∷ ins) outs =
    let (after, found) = if a.1 then (outs, true) else take_match match a.0 outs in
    let (ins', outs') = pass match ins after in ((a.0, found) ∷ ins', outs')

-- The five calls of `pass`, from the strictest.
abbrev pub maps_to : Option String → String → Bool
maps_to none path = false
maps_to (some out) path = str_eq path out

unfoldable pub rules : Dict String → List (Leaf → Leaf → Bool)
unfolding renamed_segment lookup
rules mapping =
    (λ a b. str_eq b.path a.path && same_value a b)
    ∷ (λ a b. maps_to (lookup a.path mapping) b.path && same_value a b)
    ∷ (λ a b. leb 8 a.len && not (str_eq a.hash "") && leb 8 b.len && str_eq b.hash a.hash)
    ∷ (λ a b. str_eq a.type b.type && same_value a b && renamed_segment a.path b.path)
    ∷ (λ a b. not (str_eq a.enum "") && str_eq b.enum a.enum)
    ∷ []

unfoldable pub passes :
    List (Leaf → Leaf → Bool) → List Marked → List Marked → List Marked × List Marked
unfolding pass
passes [] ins outs = (ins, outs)
passes (match ∷ matches) ins outs =
    let (ins', outs') = pass match ins outs in passes matches ins' outs'
