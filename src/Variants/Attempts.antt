-- ===== src/Variants/Attempts.antt =====
-- internal/httpapi/variants.go: the tries of a request. `catalog` answers a provider's groups once
-- catalogIDs has read them, `is_antigravity` whether an account's provider speaks that API, and
-- `effort` is what effortOf reads of the body.
use intact.Prelude.{
  ℕ, zero, suc, ◌+◌, ◌%◌, String, str_eq, Bool, not, ◌&&◌, Option, none, some, List, [], ◌∷◌, ◌++◌,
  length, get_elem?, if◌then◌else◌,
}
use intact.Prelude.Dict.{Dict, lookup}
use intact.Rotation.{Connection}
use intact.Affinity.{Attempt}
use intact.Variants.{VariantSet, split_variant, id_of, pick}

-- `resolveVariant`
abbrev or_model : String → String → String
or_model model id = if str_eq id "" then model else id

resolved : String → String → Option VariantSet → String
resolved model effort none = model
resolved model effort (some g) = or_model model (pick g effort)

unfoldable pub resolve_variant : Dict VariantSet → String → String → String
unfolding resolved pick
resolve_variant groups model effort = resolved model effort (lookup model groups)

-- `variantBase`
abbrev base_in : String → String × String → Option VariantSet → String
base_in model split none = model
base_in model split (some g) = if str_eq (id_of g split.1) model then split.0 else model

unfoldable pub variant_base : Dict VariantSet → String → String
unfolding split_variant
variant_base groups model =
    let (base, level) = split_variant model in
    if str_eq level "" then model else base_in model (base, level) (lookup base groups)

-- The loop's body: the first try of an account, and the one that may follow.
pub fallback_of : Connection → String → Option VariantSet → List Attempt
fallback_of c picked none = []
fallback_of c picked (some g) =
    if not (str_eq (id_of g g.def) "") && not (str_eq (id_of g g.def) picked)
    then record { conn = c; model = id_of g g.def } ∷ []
    else []

-- targets[(start+i)%len(targets)] for i up to the number that is left.
abbrev pub present : Option Connection → List Connection
present none = []
present (some c) = c ∷ []

unfoldable pub in_turn : List Connection → ℕ → ℕ → List Connection
in_turn targets i zero = []
in_turn targets i (suc left) =
    present (get_elem? targets (i % length targets)) ++ in_turn targets (i + 1) left

module _ (catalog : String → Dict VariantSet) (is_antigravity : Connection → Bool)
    (model effort : String) where
  unfoldable pub picked_for : Connection → String
  unfolding resolve_variant
  picked_for c =
      if not (is_antigravity c) then "" else resolve_variant (catalog c.provider) model effort

  abbrev pub first_try : Connection → Attempt
  first_try c = record { conn = c; model = picked_for c }

  unfoldable pub second_try : Connection → List Attempt
  unfolding variant_base fallback_of
  second_try c =
      if not (is_antigravity c)
      then []
      else fallback_of c (picked_for c)
          (lookup (variant_base (catalog c.provider) (picked_for c)) (catalog c.provider))

  unfoldable pub tries_of : List Connection → List Attempt × List Attempt
  unfolding second_try
  tries_of [] = ([], [])
  tries_of (c ∷ cs) =
      let (out, fallback) = tries_of cs in (first_try c ∷ out, second_try c ++ fallback)

  -- `attemptsFor`
  unfoldable pub attempts_for : List Connection → ℕ → List Attempt
  unfolding tries_of in_turn
  attempts_for targets start =
      let (out, fallback) = tries_of (in_turn targets start (length targets)) in out ++ fallback
