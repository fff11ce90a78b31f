-- ===== src/Variants/Order.antt =====
-- `attemptsFor`: which tries a request makes, in which order.
use mathlib.Core.List.{map}
use intact.Prelude.{
  ℕ, ◌<◌, String, str_eq, ◌≡◌, ◌⊎◌, inl, inr, refl, Bool, true, false, Option, none, some, List, [],
  ◌∷◌, ◌++◌, length, All, All-append, Bool-cases, Option-cases,
}
use intact.Prelude.Dict.{Dict, lookup}
use intact.Rotation.{Connection, turned}
use intact.Affinity.{Attempt}
use intact.Variants.{VariantSet, id_of}
use intact.Variants.Attempts.{
  picked_for, variant_base, first_try, second_try, fallback_of, tries_of, attempts_for,
}
use intact.Variants.Turned.{in_turn-turned}

-- The second tries, in the order of the first.
pub second_tries :
    (String → Dict VariantSet)
    → (Connection → Bool)
    → String
    → String
    → List Connection
    → List Attempt
second_tries catalog is_antigravity model effort [] = []
second_tries catalog is_antigravity model effort (c ∷ cs) =
    second_try catalog is_antigravity model effort c
    ++ second_tries catalog is_antigravity model effort cs

-- A level's model that has a name is listed.
id_of_listed :
    (g : VariantSet) (level : String)
    → str_eq (id_of g level) "" ≡ false
    → lookup level g.ids ≡ some (id_of g level)
id_of_listed g level named = elim (Option-cases (lookup level g.ids)) [
  | inl missing ↦ cc (rw missing at named)
  | inr (id, found) ↦ rw found refl
]

module _ (catalog : String → Dict VariantSet) (is_antigravity : Connection → Bool)
    (model effort : String) where
  tries_of-eq :
      (cs : List Connection)
      → tries_of catalog is_antigravity model effort cs ≡ (
        map (first_try catalog is_antigravity model effort) cs,
        second_tries catalog is_antigravity model effort cs,
      )
  unfolding tries_of second_tries
  tries_of-eq [] = refl
  tries_of-eq (c ∷ cs) = rw (tries_of-eq cs) refl

  abbrev pub picked_model : Connection → String
  picked_model c = picked_for catalog is_antigravity model effort c

  -- A second try: an account of Antigravity, and the model that the provider's catalog lists at the
  -- default level of the picked model's group, which the account was not asked for yet
  abbrev pub IsSecond : Attempt → Type 0
  IsSecond at =
      (is_antigravity at.conn ≡ true)
      × ((g : VariantSet) × ((lookup
                (variant_base (catalog at.conn.provider) (picked_model at.conn))
                (catalog at.conn.provider)
              ≡ some g)
            × (lookup g.def g.ids ≡ some at.model)))
      × (str_eq at.model "" ≡ false)
      × (str_eq at.model (picked_for catalog is_antigravity model effort at.conn) ≡ false)

  second_try-IsSecond :
      (c : Connection) → All IsSecond (second_try catalog is_antigravity model effort c)
  unfolding second_try
  second_try-IsSecond c = elim (Bool-cases (is_antigravity c)) [
    | inl speaks ↦ rw speaks (of_group speaks _ refl)
    | inr other ↦ rw other tt
  ]
    where
      of_group :
          (is_antigravity c ≡ true)
          → (g : Option VariantSet)
          → lookup (variant_base (catalog c.provider) (picked_model c)) (catalog c.provider) ≡ g
          → All IsSecond (fallback_of c (picked_model c) g)
      of_group speaks none e = tt
      of_group speaks (some g) e = elim (Bool-cases (str_eq (id_of g g.def) "")) [
        | inl unnamed ↦ rw unnamed tt
        | inr named ↦ elim (Bool-cases (str_eq (id_of g g.def) (picked_model c))) [
          | inl same ↦ rw (named, same) tt
          | inr other ↦
              rw (named, other) ((speaks, (g, (e, id_of_listed g g.def named)), named, other), tt)
        ]
      ]

  second_tries-IsSecond :
      (cs : List Connection) → All IsSecond (second_tries catalog is_antigravity model effort cs)
  unfolding second_tries
  second_tries-IsSecond [] = tt
  second_tries-IsSecond (c ∷ cs) =
      All-append IsSecond (second_try catalog is_antigravity model effort c) _
        (second_try-IsSecond c) (second_tries-IsSecond cs)

  -- There is no default variant to ask for, or the account was asked for it.
  abbrev pub HasNoSecond : Connection → Type 0
  HasNoSecond c =
      (is_antigravity c ≡ false)
      ⊎ ((lookup (variant_base (catalog c.provider) (picked_model c)) (catalog c.provider) ≡ none)
          ⊎ ((g : VariantSet) × ((lookup (variant_base (catalog c.provider) (picked_model c))
                    (catalog c.provider)
                  ≡ some g)
                × ((str_eq (id_of g g.def) "" ≡ true)
                    ⊎ (str_eq (id_of g g.def) (picked_model c) ≡ true)))))

  -- The account has one second try, or has none for a reason.
  abbrev pub IsCovered : Connection → Type 0
  IsCovered c =
      ((second_try catalog is_antigravity model effort c ≡ []) × HasNoSecond c)
      ⊎ ((at : Attempt) × ((second_try catalog is_antigravity model effort c ≡ at ∷ [])
            × (at.conn ≡ c)
            × IsSecond at))

  second_try-IsCovered : (c : Connection) → IsCovered c
  unfolding second_try
  second_try-IsCovered c = elim (Bool-cases (is_antigravity c)) [
    | inr other ↦ rw other (inl (refl, inl refl))
    | inl speaks ↦
        elim (Option-cases
          (lookup (variant_base (catalog c.provider) (picked_model c)) (catalog c.provider))) [
            | inl missing ↦ rw (speaks, missing) (inl (refl, inr (inl refl)))
            | inr (g, found) ↦ elim (Bool-cases (str_eq (id_of g g.def) "")) [
              | inl unnamed ↦
                  rw (speaks, found, unnamed) (inl (refl, inr (inr (g, (refl, inl unnamed)))))
              | inr named ↦ elim (Bool-cases (str_eq (id_of g g.def) (picked_model c))) [
                | inl same ↦
                    rw (speaks, found, named, same) (inl (refl, inr (inr (g, (refl, inr same)))))
                | inr differs ↦
                    let at : Attempt = record { conn = c; model = id_of g g.def } in
                    rw (speaks, found, named, differs)
                      (inr (
                        at,
                        (
                          refl,
                          refl,
                          (speaks, (g, (found, id_of_listed g g.def named)), named, differs),
                        ),
                      ))
              ]
            ]
          ]
  ]

  tries-IsCovered : (cs : List Connection) → All IsCovered cs
  tries-IsCovered [] = tt
  tries-IsCovered (c ∷ cs) = (second_try-IsCovered c, tries-IsCovered cs)

  -- From a start within the list, `attemptsFor` tries every account once in rotation order, and then the
  -- second tries in the same order: only accounts of Antigravity, each on the model that the catalog lists
  -- at the default level of its model's group and that it was not asked for yet. Each account has one
  -- second try, unless its provider speaks another API, its model has no group, or the group has no
  -- default or the account was asked for it.
  pub attempts_for-tries :
      (targets : List Connection) (start : ℕ)
      → start < length targets
      → (attempts_for catalog is_antigravity model effort targets start
          ≡ map (first_try catalog is_antigravity model effort) (turned targets start)
            ++ second_tries catalog is_antigravity model effort (turned targets start))
        × All IsSecond (second_tries catalog is_antigravity model effort (turned targets start))
        × All IsCovered (turned targets start)
  unfolding attempts_for
  attempts_for-tries targets start h = (
    rw (in_turn-turned targets start h, tries_of-eq (turned targets start)) refl,
    second_tries-IsSecond (turned targets start),
    tries-IsCovered (turned targets start),
  )
