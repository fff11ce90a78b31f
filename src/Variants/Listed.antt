-- ===== src/Variants/Listed.antt =====
-- Every id of a level is found again among the groups of `groupVariants`.
use text.Mathlib.TextLemmas.{append-eq-nil_iff}
use intact.Prelude.{
  Bool, keep, not, ℕ, String, str_append, str_eq, eq_iff, ◌≡◌, ◌⊎◌, inl, inr, refl, ◌∙◌, arith,
  false, some, List, [], ◌∷◌, All, Bool-cases, Option-cases,
}
use intact.Prelude.Dict.{Dict, lookup}
use intact.Prelude.Text.{cut_suffix}
use intact.Variants.{
  VariantSet, variant_suffixes, variant_rank, split_with, split_at_suffix, split_variant, add_ids,
  highest, default_of, is_plain, set_defaults, group_variants,
}
use intact.Variants.Groups.{split_variant_rejoins, IsGrouped, add_ids-IsGrouped, set_defaults-keeps}

-- What `splitVariant` answers as a level.
abbrev IsLevel : String → Type 0
IsLevel level = (level ≡ "") ⊎ (level ≡ "tiered") ⊎ ((r : ℕ) × (variant_rank level ≡ some r))

split_with-IsLevel :
    (suffixes : List String) (id : String)
    → All IsLevel suffixes
    → IsLevel (split_with suffixes id).1
unfolding split_with split_at_suffix
split_with-IsLevel [] id h = inl refl
split_with-IsLevel (s ∷ ss) id h = elim (Option-cases (cut_suffix (str_append "-" s) id)) [
  | inl uncut ↦ rw uncut (split_with-IsLevel ss id h.1)
  | inr (b, cut) ↦ elim (Bool-cases (str_eq b "")) [
    | inl bare ↦ rw (cut, bare) (split_with-IsLevel ss id h.1)
    | inr based ↦ rw (cut, based) h.0
  ]
]

split_variant-IsLevel : (id : String) → IsLevel (split_variant id).1
unfolding split_variant variant_rank
split_variant-IsLevel id = split_with-IsLevel variant_suffixes id (
  inr (inr (0, refl)),
  (inr (inl refl), (inr (inr (2, refl)), (inr (inr (3, refl)), (inr (inr (1, refl)), tt)))),
)

-- A group that holds the id of a level is no plain model.
one_level_not_plain :
    (level id def : String)
    → IsLevel level
    → str_eq level "" ≡ false
    → str_eq id "" ≡ false
    → str_eq (default_of ((level, id) ∷ []) def) "" ≡ false
unfolding default_of highest lookup
one_level_not_plain level id def (inl unnamed) l i = absurd (ground (arith, eq_iff level ""))
one_level_not_plain level id def (inr (inl tiered)) l i = rw (tiered, i) refl
one_level_not_plain level id def (inr (inr (r, ranked))) l i =
    elim (Bool-cases (str_eq level "tiered")) [
      | inl tiered ↦ rw (l, tiered, i) refl
      | inr other ↦ rw (l, other, ranked, l) refl
    ]

not_plain :
    (ids : Dict String) (level id def : String)
    → lookup level ids ≡ some id
    → IsLevel level
    → str_eq level "" ≡ false
    → str_eq id "" ≡ false
    → is_plain (record { ids = ids; def = default_of ids def }) ≡ false
unfolding lookup
not_plain [] level id def f p l i = cc
not_plain (entry ∷ e ∷ ids) level id def f p l i = ground arith
not_plain ((k, v) ∷ []) level id def f p l i = elim (Bool-cases (str_eq k level)) [
  | inl mine ↦
      let value : some v ≡ some id = rw mine at f in
      let v_path : v ≡ id = cc value in
      rw ((eq_iff k level).0 mine, v_path) (one_level_not_plain level id def p l i)
  | inr other ↦ cc (rw other at f)
]

id_not_empty : (id : String) → str_eq (split_variant id).1 "" ≡ false → str_eq id "" ≡ false
id_not_empty id h = elim (Bool-cases (str_eq id "")) [
  | inr named ↦ named
  | inl unnamed ↦
      let parts : str_append (split_variant id).0 (str_append "-" (split_variant id).1) ≡ id =
        rw h at (split_variant_rejoins id) in
      absurd (
        no_dash
          ((append-eq-nil_iff {p = "-"} {q = (split_variant id).1}).0
            ((append-eq-nil_iff {p = (split_variant id).0}
                {q = str_append "-" (split_variant id).1}).0
              (parts ∙ (eq_iff id "").0 unnamed)).1).0)
]
  where
    no_dash : ◌≡◌ {A = String} "-" "" → ⊥
    no_dash e = cc

listed_in_defaults :
    (groups : Dict VariantSet) (id : String)
    → IsGrouped groups id
    → str_eq (split_variant id).1 "" ≡ false
    → IsGrouped (set_defaults groups) id
listed_in_defaults groups id (g, in_groups, in_ids) named =
    let (base, level) = split_variant id in
    let p =
      not_plain g.ids level id g.def in_ids (split_variant-IsLevel id) named
        (id_not_empty id named) in
    (_, set_defaults-keeps base groups g in_groups p, in_ids)

-- Whether an id ends in a level.
abbrev pub has_level : String → Bool
has_level id = not (str_eq (split_variant id).1 "")

ids_listed :
    (groups : Dict VariantSet) (ids : List String)
    → All (IsGrouped groups) ids
    → All (IsGrouped (set_defaults groups)) (keep has_level ids)
ids_listed groups [] h = tt
ids_listed groups (id ∷ ids) h = elim (Bool-cases (str_eq (split_variant id).1 "")) [
  | inl unnamed ↦ rw unnamed (ids_listed groups ids h.1)
  | inr named ↦ rw named (listed_in_defaults groups id h.0 named, ids_listed groups ids h.1)
]

-- After `groupVariants`, every listed id that ends in a level is in the group of its base, under its
-- level.
pub group_variants-IsGrouped :
    (ids : List String) → All (IsGrouped (group_variants ids)) (keep has_level ids)
unfolding group_variants
group_variants-IsGrouped ids = ids_listed (add_ids [] ids) ids (add_ids-IsGrouped ids [] [] tt).1
