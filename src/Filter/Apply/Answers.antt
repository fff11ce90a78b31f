-- ===== src/Filter/Apply/Answers.antt =====
-- When `Apply` leaves a body as it is.
use intact.Prelude.{
  ◌⊎◌, true, String, ◌≡◌, ◌↔◌, inl, inr, refl, ap, sym, ◌∙◌, arith, Bool, false, List, [], ◌∷◌,
  keep, str_eq, Bool-cases, All, All-keep,
}
use intact.Json.{Value, null, boolean, number, str, array, object, Fields, end, in_object}
use intact.Json.Edits.{Removes, nothing}
use intact.Filter.{drop_path, drop_last, drop_through, tool_schemas}
use intact.Filter.Keys.{holds_key}
use intact.Filter.Paths.{matches, drop_path-IsExact}
use intact.Filter.Listed.{any}
use intact.Filter.Schemas.{drop_in_schemas-Removes}
use intact.Filter.Apply.{
  Rule, field_rule, schema_rule, system_rule, header_rule, is_body_rule, apply_rule, apply_rules,
  apply_object, fields_or, apply,
}

-- Whether a Field or Schema rule finds something in a body.
abbrev pub finds : Fields → Rule → Bool
finds m (field_rule path) = matches path (object m)
finds m (schema_rule key) = any (holds_key key) (tool_schemas m)
finds m (system_rule replace) = false
finds m (header_rule name) = false

-- Rules of every kind but System.
abbrev pub IsPlain : Rule → Type 0
IsPlain (system_rule replace) = ⊥
IsPlain r = Unit

-- A path leaves an object an object.
drop_path-object :
    (path : List String) (m : Fields) → (fs : Fields) × ((drop_path path (object m)).0 ≡ object fs)
unfolding drop_path drop_last drop_through in_object
drop_path-object [] m = (m, refl)
drop_path-object (seg ∷ []) m = elim (Bool-cases (str_eq seg "*")) [
  | inl star ↦ rw star (end, refl)
  | inr named ↦ rw named (_, refl)
]
drop_path-object (seg ∷ next ∷ rest) m = elim (Bool-cases (str_eq seg "*")) [
  | inl star ↦ rw star (_, refl)
  | inr named ↦ rw named (_, refl)
]

fields_or-Removes :
    (path : List String) (m : Fields) (after : Value) (c : Bool) (fs : Fields)
    → after ≡ object fs
    → Removes (object m) after c (matches path)
    → Removes m (fields_or m (after, c)).0 (fields_or m (after, c)).1 (λ b. matches path (object b))
fields_or-Removes path m null c fs e r = cc
fields_or-Removes path m (boolean b) c fs e r = cc
fields_or-Removes path m (number n) c fs e r = cc
fields_or-Removes path m (str s) c fs e r = cc
fields_or-Removes path m (array xs) c fs e r = cc
fields_or-Removes path m (object gs) c fs e r = record {
  reports = r.reports;
  leaves_none = r.leaves_none;
  spares = λ h. cc (r.spares h);
}

rule-Removes :
    (r : Rule)
    → IsPlain r
    → (m : Fields) → Removes m (apply_rule r m).0 (apply_rule r m).1 (λ b. finds b r)
unfolding apply_rule
rule-Removes (schema_rule key) p m = drop_in_schemas-Removes key m
rule-Removes (header_rule name) p m = nothing m _ refl
rule-Removes (system_rule replace) p m = absurd p
rule-Removes (field_rule path) p m =
    let (fs, e) = drop_path-object path m in
    fields_or-Removes path m (drop_path path (object m)).0 (drop_path path (object m)).1 fs e
      (drop_path-IsExact path (object m))

apply_rules-none : (m : Fields) → false ≡ (apply_rules [] m).1
unfolding apply_rules
apply_rules-none m = refl

-- Without a change, no rule finds anything; where no rule finds anything, there is no change.
rules-spare :
    (rs : List Rule) (m : Fields)
    → All IsPlain rs
    → (apply_rules rs m).1 ≡ false
    → All (λ r. finds m r ≡ false) rs × ((apply_rules rs m).0 ≡ m)
unfolding apply_rules
rules-spare [] m p h = (tt, refl)
rules-spare (r ∷ rs) m p h =
    let one = rule-Removes r p.0 m in
    let quiet : (apply_rule r m).1 ≡ false = ground (arith, h) in
    let same = one.spares quiet in
    let rest = rules-spare rs (apply_rule r m).0 p.1 (ground (arith, h)) in
    ((sym one.reports ∙ quiet, rw same at rest.0), rest.1 ∙ same)

rules_miss :
    (rs : List Rule) (m : Fields)
    → All IsPlain rs
    → All (λ r. finds m r ≡ false) rs
    → (apply_rules rs m).1 ≡ false
unfolding apply_rules
rules_miss [] m p h = refl
rules_miss (r ∷ rs) m p h =
    let one = rule-Removes r p.0 m in
    let quiet : (apply_rule r m).1 ≡ false = one.reports ∙ h.0 in
    let same = one.spares quiet in rw (quiet, same) (rules_miss rs m p.1 h.1)

apply_object-quiet :
    (rs : List Rule) (m : Fields)
    → ((apply_object rs m).1 ≡ (apply_rules rs m).1)
      × ((apply_object rs m).1 ≡ false → (apply_object rs m).0 ≡ m)
unfolding apply_object
apply_object-quiet [] m = (apply_rules-none m, λ h. refl)
apply_object-quiet (r ∷ rs) m = elim (Bool-cases (apply_rules (r ∷ rs) m).1) [
  | inl changed ↦ rw changed (refl, λ h. cc)
  | inr quiet ↦ rw quiet (refl, λ h. refl)
]

-- A Header rule finds nothing in a body.
header_finds_none :
    (rs : List Rule) (m : Fields)
    → All (λ r. finds m r ≡ false) (keep is_body_rule rs)
    → All (λ r. finds m r ≡ false) rs
header_finds_none [] m h = tt
header_finds_none (field_rule path ∷ rs) m h = (h.0, header_finds_none rs m h.1)
header_finds_none (schema_rule key ∷ rs) m h = (h.0, header_finds_none rs m h.1)
header_finds_none (system_rule replace ∷ rs) m h = (h.0, header_finds_none rs m h.1)
header_finds_none (header_rule name ∷ rs) m h = (refl, header_finds_none rs m h)

-- With Field, Schema and Header rules, `Apply` reports a change of a body exactly where a Field or a
-- Schema rule finds something in it, and where it reports none it answers the body as it came.
pub apply_iff :
    (rs : List Rule) (m : Fields)
    → All IsPlain rs
    → (((apply rs (object m)).1 ≡ false) ↔ All (λ r. finds m r ≡ false) rs)
      × (((apply rs (object m)).1 ≡ true) ⊎ ((apply rs (object m)).0 ≡ object m))
unfolding apply in_object
apply_iff rs m p =
    let (quiet, same) = apply_object-quiet (keep is_body_rule rs) m in
    let plain = All-keep IsPlain is_body_rule rs p in
    (
      (
        λ h. header_finds_none rs m (rules-spare (keep is_body_rule rs) m plain (sym quiet ∙ h)).0,
        λ h. quiet ∙ rules_miss (keep is_body_rule rs) m plain (All-keep _ is_body_rule rs h),
      ),
      elim (Bool-cases (apply_object (keep is_body_rule rs) m).1) [
        | inl changed ↦ inl changed
        | inr unchanged ↦ inr (ap object (same unchanged))
      ],
    )
