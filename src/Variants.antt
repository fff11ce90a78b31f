-- ===== src/Variants.antt =====
-- internal/httpapi/variants.go: the models that a provider lists once per thinking level, and the
-- tries of a request. The catalogue that holds the groups is an argument, and so is what effortOf
-- reads of a body.
pub mod Attempts
pub mod Groups
pub mod Listed
pub mod Turned
pub mod Order
pub mod Pick
mod Tests
use Prim.Native.Char.{Char}
use Prim.Native.String.{[] as empty, ◌∷◌ as cons_char}
use intact.Prelude.{
  ℕ, zero, suc, ◌+◌, ◌-◌, ◌%◌, String, str_append, str_eq, Bool, true, false, not, ◌&&◌, ◌||◌,
  Option, none, some, List, [], ◌∷◌, ◌++◌, ltb, leb, ◌==◌, length, get_elem?, if◌then◌else◌,
}
use intact.Prelude.Text.{cut_suffix}
use intact.Prelude.Dict.{Dict, lookup, insert, delete}
use intact.Rotation.{Connection}
use intact.Affinity.{Attempt}

abbrev pub variant_suffixes : List String
variant_suffixes = "extra-low" ∷ "tiered" ∷ "medium" ∷ "high" ∷ "low" ∷ []

-- `variantRank`
unfoldable pub variant_rank : String → Option ℕ
variant_rank level =
    if str_eq level "extra-low"
    then some 0
    else if str_eq level "low"
    then some 1
    else if str_eq level "medium"
    then some 2
    else if str_eq level "high"
    then some 3
    else none

pub record VariantSet : Type 0 where
  pub ids : Dict String
  pub def : String

split_at_suffix : String → String × String → Option String → String × String
split_at_suffix s later none = later
split_at_suffix s later (some b) = if str_eq b "" then later else (b, s)

-- `splitVariant`: the base and the level, from the suffixes that are left to try.
unfoldable pub split_with : List String → String → String × String
unfolding cut_suffix split_at_suffix
split_with [] id = (id, "")
split_with (s ∷ ss) id =
    let later = split_with ss id in split_at_suffix s later (cut_suffix (str_append "-" s) id)

unfoldable pub split_variant : String → String × String
unfolding split_with
split_variant id = split_with variant_suffixes id

abbrev pub or_empty : Option String → String
or_empty none = ""
or_empty (some s) = s

-- v.ids[level]
abbrev pub id_of : VariantSet → String → String
id_of v level = or_empty (lookup level v.ids)

-- The first loop of `groupVariants`.
abbrev pub or_new : Option VariantSet → VariantSet
or_new none = record { ids = []; def = "" }
or_new (some g) = g

unfoldable pub add_id : Dict VariantSet → String → Dict VariantSet
unfolding split_variant
add_id groups id =
    let (base, level) = split_variant id in
    let g = or_new (lookup base groups) in
    insert base (record g { ids = insert level id g.ids }) groups

unfoldable pub add_ids : Dict VariantSet → List String → Dict VariantSet
unfolding add_id
add_ids groups [] = groups
add_ids groups (id ∷ ids) = add_ids (add_id groups id) ids

-- The loop for the highest level; `best` is none for -1.
abbrev pub above : Option ℕ → ℕ → Bool
above none r = true
above (some b) r = ltb b r

abbrev pub higher : Option ℕ × String → String → Option ℕ → Option ℕ × String
higher best level none = best
higher best level (some r) = if above best.0 r then (some r, level) else best

unfoldable pub highest : Dict String → Option ℕ × String → Option ℕ × String
highest [] best = best
highest (entry ∷ ids) best = highest ids (higher best entry.0 (variant_rank entry.0))

unfoldable pub default_of : Dict String → String → String
unfolding highest
default_of ids def =
    if not (str_eq (or_empty (lookup "" ids)) "")
    then ""
    else if not (str_eq (or_empty (lookup "tiered" ids)) "")
    then "tiered"
    else (highest ids (none, def)).1

-- The second loop: the groups with their defaults, but no plain model.
abbrev pub is_plain : VariantSet → Bool
is_plain g = length g.ids == 1 && str_eq g.def ""

unfoldable pub set_defaults : Dict VariantSet → Dict VariantSet
unfolding default_of
set_defaults [] = []
set_defaults (entry ∷ groups) =
    let g = record entry.1 { def = default_of entry.1.ids entry.1.def } in
    let rest = set_defaults groups in if is_plain g then rest else (entry.0, g) ∷ rest

unfoldable pub group_variants : List String → Dict VariantSet
unfolding add_ids set_defaults
group_variants ids = set_defaults (add_ids [] ids)

-- `pick`
abbrev pub asks_default : String → Bool
asks_default effort =
    str_eq effort "" || str_eq effort "none" || str_eq effort "auto" || str_eq effort "default"

abbrev pub named_effort : String → String
named_effort effort =
    if str_eq effort "minimal"
    then "extra-low"
    else if str_eq effort "xhigh" || str_eq effort "max"
    then "high"
    else effort

abbrev pub distance : ℕ → ℕ → ℕ
distance r want = if ltb r want then want - r else r - want

-- variantRank[best]: a missing level reads as 0.
abbrev pub or_zero : Option ℕ → ℕ
or_zero none = 0
or_zero (some r) = r

abbrev pub nearer : ℕ → String × ℕ → String → Option ℕ → String × ℕ
nearer want best level none = best
nearer want best level (some r) =
    if ltb (distance r want) best.1
      || (distance r want == best.1 && ltb (or_zero (variant_rank best.0)) r)
    then (level, distance r want)
    else best

unfoldable pub nearest : ℕ → Dict String → String × ℕ → String × ℕ
nearest want [] best = best
nearest want (entry ∷ ids) best = nearest want ids (nearer want best entry.0 (variant_rank entry.0))

unfoldable pub pick_nearest : VariantSet → Option ℕ → String
unfolding nearest
pick_nearest v none = id_of v v.def
pick_nearest v (some want) =
    let best = (nearest want v.ids ("", 99)).0 in
    if str_eq best "" then id_of v v.def else id_of v best

pick_level : VariantSet → String → Option String → String
unfolding pick_nearest
pick_level v effort (some id) = id
pick_level v effort none = pick_nearest v (variant_rank effort)

unfoldable pub pick : VariantSet → String → String
unfolding pick_level
pick v effort =
    if asks_default effort
    then id_of v v.def
    else pick_level v (named_effort effort) (lookup (named_effort effort) v.ids)
