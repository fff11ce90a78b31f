-- ===== src/Gate/Models.antt =====
-- Which models a principal may call.
use Prim.Native.Char.{Char}
use Prim.Native.String.{◌∷◌ as cons_char}
use text.Mathlib.TextLemmas.{cons-append, nil-append}
use intact.Prelude.{
  String, str_append, str_eq, eq_iff, ◌≡◌, inl, inr, refl, ap, sym, ◌∙◌, arith, true, List, [], ◌∷◌,
  Bool-cases, Option-cases,
}
use intact.Prelude.Text.{cut_code}
use intact.Prelude.Cuts.{cut_code_rejoins}
use intact.Gate.{
  Principal, contains, allows_all_models, allows_provider_model, names_model, allows_bare_model,
}

abbrev slash : Char
slash = "/"

-- "/" before a text
slash_text : (s : String) → cons_char slash s ≡ str_append "/" s
slash_text s = sym (cons-append slash "" s ∙ ap (cons_char slash) (nil-append s))

names_model_lists :
    (ms : List String) (model : String)
    → names_model ms model ≡ true
    → (prov : String) × (contains ms (str_append prov (str_append "/" model)) ≡ true)
unfolding names_model contains
names_model_lists [] model h = cc
names_model_lists (m ∷ ms) model h = elim (Option-cases (cut_code 47 m)) [
  | inl uncut ↦
      let (prov, listed) = names_model_lists ms model (rw uncut at h) in (prov, ground arith)
  | inr (cut, found) ↦ elim (Bool-cases (str_eq cut.1 model)) [
    | inl named ↦
        let whole =
          sym (cut_code_rejoins slash m cut.0 cut.1 found)
          ∙ ap (str_append cut.0) (slash_text cut.1)
          ∙ ap (λ x. str_append cut.0 (str_append "/" x)) ((eq_iff cut.1 model).0 named) in
        (cut.0, rw ((eq_iff m (str_append cut.0 (str_append "/" model))).1 whole) refl)
    | inr other ↦
        let (prov, listed) = names_model_lists ms model (rw (found, other) at h) in
        (prov, ground arith)
  ]
]

-- A principal that may call a model by its bare name may call it of some provider by its full id.
pub allows_bare_model_lists :
    (p : Principal) (model : String)
    → allows_bare_model p model ≡ true
    → (prov : String) × (allows_provider_model p prov model ≡ true)
unfolding allows_bare_model allows_provider_model
allows_bare_model_lists p model h = elim (Bool-cases (allows_all_models p)) [
  | inl all ↦ ("", rw all refl)
  | inr listed ↦
      let (prov, has) = names_model_lists p.models model (rw listed at h) in
      (prov, rw (listed, has) refl)
]
