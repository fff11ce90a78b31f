-- ===== src/Variants/Tests.antt =====
-- Runs of the variants, and their theorems at concrete inputs.
use mathlib.Core.List.{map}
use intact.Prelude.{
  keep, String, ◌≡◌, ◌⊎◌, refl, Bool, true, false, none, List, [], ◌∷◌, ◌++◌, arith, All,
}
use intact.Prelude.Dict.{Dict, lookup, insert}
use intact.Rotation.{Connection, turned}
use intact.Variants.{VariantSet, split_variant, group_variants, pick, id_of, variant_rank}
use intact.Variants.Attempts.{attempts_for, first_try, picked_for, second_try, in_turn}
use intact.Variants.Groups.{IsGrouped}
use intact.Variants.Listed
use intact.Variants.Order.{second_tries, IsSecond, IsCovered, attempts_for-tries}
use intact.Variants.Pick.{IsNearest}
use intact.Variants.Pick

program : Unit {0}
unfolding split_variant group_variants pick variant_rank attempts_for second_try lookup insert
    in_turn picked_for
program = tt

abbrev listed : List String
listed = "g-high" ∷ "g-extra-low" ∷ "g-tiered" ∷ "plain" ∷ []

abbrev ids : Dict String
ids = ("high", "g-high") ∷ ("extra-low", "g-extra-low") ∷ ("tiered", "g-tiered") ∷ []

abbrev grouped : VariantSet
grouped = record { ids = ids; def = "tiered" }

group_variants-listed : group_variants listed ≡ ("g", grouped) ∷ []
unfolding program
group_variants-listed = refl

-- Between two levels that are equally far, the higher.
pick-medium : pick (record { ids = ("low", "l") ∷ ("high", "h") ∷ []; def = "" }) "medium" ≡ "h"
unfolding program
pick-medium = refl

pick-IsNearest_example :
    IsNearest 1 ids (pick grouped "low")
    ⊎ ((pick grouped "low" ≡ id_of grouped "tiered") × All (λ e. variant_rank e.0 ≡ none) ids)
unfolding program
pick-IsNearest_example = Pick.pick-IsNearest grouped "low" 1 refl refl refl

group_variants-IsGrouped_example :
    All (IsGrouped (group_variants listed)) (keep Listed.has_level listed)
group_variants-IsGrouped_example = Listed.group_variants-IsGrouped listed

abbrev account : String → Connection
account id = record {
  id = id;
  provider = "p";
  label = "";
  is_active = true;
  standby = false;
  base_url = "";
  meta = [];
}

abbrev accounts : List Connection
accounts = account "a" ∷ account "b" ∷ []

abbrev catalog : String → Dict VariantSet
catalog provider = ("g", grouped) ∷ []

abbrev speaks : Connection → Bool
speaks c = true

attempts_for-accounts :
    attempts_for catalog speaks "g" "high" accounts 1
    ≡ record { conn = account "b"; model = "g-high" }
      ∷ record { conn = account "a"; model = "g-high" }
      ∷ record { conn = account "b"; model = "g-tiered" }
      ∷ record { conn = account "a"; model = "g-tiered" }
      ∷ []
unfolding program
attempts_for-accounts = refl

attempts_for-tries_example :
    (attempts_for catalog speaks "g" "high" accounts 1
      ≡ map (first_try catalog speaks "g" "high") (turned accounts 1)
        ++ second_tries catalog speaks "g" "high" (turned accounts 1))
    × All
        (IsSecond catalog speaks "g" "high")
        (second_tries catalog speaks "g" "high" (turned accounts 1))
    × All (IsCovered catalog speaks "g" "high") (turned accounts 1)
attempts_for-tries_example = attempts_for-tries catalog speaks "g" "high" accounts 1 (omega arith)
