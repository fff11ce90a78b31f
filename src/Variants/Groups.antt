-- ===== src/Variants/Groups.antt =====
-- `splitVariant` and `groupVariants`.
use Prim.Native.String.{[] as empty, ◌∷◌ as cons_char}
use text.Mathlib.TextLemmas.{cons-append, nil-append}
use intact.Prelude.{
  String, str_append, str_eq, eq_iff, eq_refl, ◌≡◌, inl, inr, refl, ap, sym, ◌∙◌, true, false, some,
  List, [], ◌∷◌, if◌then◌else◌, All, Bool-cases, Option-cases,
}
use intact.Prelude.Dict.{Dict, lookup, insert, lookup-insert}
use intact.Prelude.Text.{cut_suffix}
use intact.Variants.{
  VariantSet, variant_suffixes, split_with, split_at_suffix, split_variant, or_new, add_id, add_ids,
  default_of, is_plain, set_defaults,
}

-- A base and a level make the id that the provider lists.
abbrev pub joined : String × String → String
joined split = if str_eq split.1 "" then split.0 else str_append split.0 (str_append "-" split.1)

rejoined_whole :
    (suffix s b : String) → some empty ≡ some b → str_eq s suffix ≡ true → str_append b suffix ≡ s
rejoined_whole suffix s b h whole =
    let nothing : empty ≡ b = cc h in
    ap (λ x. str_append x suffix) (sym nothing)
    ∙ nil-append suffix
    ∙ sym ((eq_iff s suffix).0 whole)

cut_suffix_rejoins : (suffix s b : String) → cut_suffix suffix s ≡ some b → str_append b suffix ≡ s
unfolding cut_suffix
cut_suffix_rejoins suffix empty b h = elim (Bool-cases (str_eq "" suffix)) [
  | inl whole ↦ rejoined_whole suffix empty b (rw whole at h) whole
  | inr part ↦ cc (rw part at h)
]
cut_suffix_rejoins suffix (cons_char c s) b h = elim (Bool-cases (str_eq (cons_char c s) suffix)) [
  | inl whole ↦ rejoined_whole suffix (cons_char c s) b (rw whole at h) whole
  | inr part ↦ elim (Option-cases (cut_suffix suffix s)) [
    | inl none_left ↦ cc (rw (part, none_left) at h)
    | inr (r, found) ↦
        let after : some (cons_char c r) ≡ some b = rw (part, found) at h in
        let head : cons_char c r ≡ b = cc after in
        ap (λ x. str_append x suffix) (sym head)
        ∙ cons-append c r suffix
        ∙ ap (cons_char c) (cut_suffix_rejoins suffix s r found)
  ]
]

split_with_rejoins :
    (suffixes : List String) (id : String)
    → All (λ s. str_eq s "" ≡ false) suffixes
    → joined (split_with suffixes id) ≡ id
unfolding split_with split_at_suffix
split_with_rejoins [] id h = refl
split_with_rejoins (s ∷ ss) id h = elim (Option-cases (cut_suffix (str_append "-" s) id)) [
  | inl uncut ↦ rw uncut (split_with_rejoins ss id h.1)
  | inr (b, cut) ↦ elim (Bool-cases (str_eq b "")) [
    | inl bare ↦ rw (cut, bare) (split_with_rejoins ss id h.1)
    | inr based ↦ rw (cut, based, h.0) (cut_suffix_rejoins (str_append "-" s) id b cut)
  ]
]

pub split_variant_rejoins : (id : String) → joined (split_variant id) ≡ id
unfolding split_variant
split_variant_rejoins id =
    split_with_rejoins variant_suffixes id (refl, (refl, (refl, (refl, (refl, tt)))))

-- The id is in the group of its base, under its level.
abbrev pub IsGrouped : Dict VariantSet → String → Type 0
IsGrouped groups id =
    (g : VariantSet) × (lookup (split_variant id).0 groups ≡ some g)
    × (lookup (split_variant id).1 g.ids ≡ some id)

lookup_inserted {ℓ} :
    {V : Type ℓ} (key : String) (value : V) (m : Dict V)
    → lookup key (insert key value m) ≡ some value
lookup_inserted key value m = lookup-insert m key value key ∙ rw (eq_refl key) refl

add_id-IsGrouped : (groups : Dict VariantSet) (id : String) → IsGrouped (add_id groups id) id
unfolding add_id
add_id-IsGrouped groups id =
    let (base, level) = split_variant id in
    let g = or_new (lookup base groups) in
    let grown : VariantSet = record g { ids = insert level id g.ids } in
    (grown, lookup_inserted base grown groups, lookup_inserted level id g.ids)

one_id :
    (a b : String)
    → (split_variant a).0 ≡ (split_variant b).0
    → (split_variant a).1 ≡ (split_variant b).1
    → a ≡ b
one_id a b bases levels =
    sym (split_variant_rejoins a)
    ∙ ap (λ x. joined (x, (split_variant a).1)) bases
    ∙ ap (λ x. joined ((split_variant b).0, x)) levels
    ∙ split_variant_rejoins b

keep-IsGrouped :
    (groups : Dict VariantSet) (id other : String)
    → IsGrouped groups id
    → IsGrouped (add_id groups other) id
unfolding add_id
keep-IsGrouped groups id other (g, in_groups, in_ids) =
    let (base, level) = split_variant id in
    let (base', level') = split_variant other in
    let g' = or_new (lookup base' groups) in
    let grown : VariantSet = record g' { ids = insert level' other g'.ids } in
    elim (Bool-cases (str_eq base' base)) [
      | inl same ↦
          let base_path = (eq_iff base' base).0 same in
          let old : g' ≡ g = ap or_new (ap (λ b. lookup b groups) base_path ∙ in_groups) in
          let here : lookup base (insert base' grown groups) ≡ some grown =
            lookup-insert groups base' grown base ∙ rw same refl in
          elim (Bool-cases (str_eq level' level)) [
            | inl again ↦
                let id_path = one_id other id base_path ((eq_iff level' level).0 again) in
                (grown, here, lookup-insert g'.ids level' other level ∙ rw again (ap some id_path))
            | inr apart ↦ (
              grown,
              here,
              lookup-insert g'.ids level' other level
                  ∙ rw apart (ap (λ (v : VariantSet). lookup level v.ids) old ∙ in_ids),
            )
          ]
      | inr apart ↦ (g, lookup-insert groups base' grown base ∙ rw apart in_groups, in_ids)
    ]

known_ones_kept :
    (groups : Dict VariantSet) (id : String) (known : List String)
    → All (IsGrouped groups) known
    → All (IsGrouped (add_id groups id)) known
known_ones_kept groups id [] h = tt
known_ones_kept groups id (k ∷ known) h =
    (keep-IsGrouped groups k id h.0, known_ones_kept groups id known h.1)

pub add_ids-IsGrouped :
    (ids : List String) (groups : Dict VariantSet) (known : List String)
    → All (IsGrouped groups) known
    → All (IsGrouped (add_ids groups ids)) known × All (IsGrouped (add_ids groups ids)) ids
unfolding add_ids
add_ids-IsGrouped [] groups known h = (h, tt)
add_ids-IsGrouped (id ∷ ids) groups known h =
    let kept = known_ones_kept groups id known h in
    let (later, others) =
      add_ids-IsGrouped ids (add_id groups id) (id ∷ known) (add_id-IsGrouped groups id, kept) in
    (later.1, (later.0, others))

-- The group keeps its ids, and the id of a level keeps its group.
pub set_defaults-keeps :
    (base : String) (groups : Dict VariantSet) (g : VariantSet)
    → lookup base groups ≡ some g
    → is_plain (record g { def = default_of g.ids g.def }) ≡ false
    → lookup base (set_defaults groups) ≡ some (record g { def = default_of g.ids g.def })
unfolding set_defaults lookup
set_defaults-keeps base [] g h p = cc
set_defaults-keeps base (entry ∷ groups) g h p = elim (Bool-cases (str_eq entry.0 base)) [
  | inl mine ↦
      let one : some entry.1 ≡ some g = rw mine at h in
      let same : entry.1 ≡ g = cc one in rw same (rw (p, mine) refl)
  | inr other ↦
      elim (Bool-cases (is_plain (record entry.1 { def = default_of entry.1.ids entry.1.def }))) [
        | inl gone ↦ rw gone (set_defaults-keeps base groups g (rw other at h) p)
        | inr stays ↦ rw (stays, other) (set_defaults-keeps base groups g (rw other at h) p)
      ]
]
