-- ===== src/Variants/Pick.antt =====
-- `pick`: the nearest level.
use mathlib.Core.Path.{subst}
use intact.Prelude.{
  ℕ, ◌+◌, ◌-◌, ◌≤◌, ◌<◌, String, ◌≡◌, ◌⊎◌, inl, inr, refl, ap, sym, ◌∙◌, arith, true, false, ◌&&◌,
  ◌||◌, Option, none, some, [], ◌∷◌, ltb, ◌==◌, str_eq, eq_iff, eq_refl, All, Bool-cases,
}
use intact.Prelude.Dict.{Dict, lookup}
use intact.Variants.{
  VariantSet, variant_rank, or_zero, distance, nearer, nearest, pick_nearest, pick_level, pick,
  id_of, asks_default, named_effort,
}

-- A level at distance `d` and of rank `k` is taken before one at `d'` and of rank `k'`.
abbrev pub Ahead : ℕ → ℕ → ℕ → ℕ → Type 0
Ahead d k d' k' = (d < d') ⊎ ((d ≡ d') × (k' ≤ k))

Ahead-trans : (d k d' k' d'' k'' : ℕ) → Ahead d k d' k' → Ahead d' k' d'' k'' → Ahead d k d'' k''
Ahead-trans d k d' k' d'' k'' (inl p) (inl q) = inl (omega arith)
Ahead-trans d k d' k' d'' k'' (inl p) (inr q) = inl (omega arith)
Ahead-trans d k d' k' d'' k'' (inr p) (inl q) = inl (omega arith)
Ahead-trans d k d' k' d'' k'' (inr p) (inr q) = inr (omega arith)

abbrev rank_of : String × ℕ → ℕ
rank_of best = or_zero (variant_rank best.0)

-- How far two ranks are apart, whichever is the greater
abbrev pub gap : ℕ → ℕ → ℕ
gap r want = (r - want) + (want - r)

distance-eq : (r want : ℕ) → distance r want ≡ gap r want
distance-eq r want = ground arith

abbrev pub LosesTo : ℕ → ℕ → ℕ → Option ℕ → Type 0
LosesTo want d k none = Unit
LosesTo want d k (some r) = Ahead d k (gap r want) r

taken-Ahead : (d k d' k' : ℕ) → (ltb d d' || (d == d' && ltb k' k)) ≡ true → Ahead d k d' k'
taken-Ahead d k d' k' h = elim (Bool-cases (ltb d d')) [
  | inl closer ↦ inl (ground arith)
  | inr not_closer ↦ inr (ground arith)
]

kept-Ahead : (d k d' k' : ℕ) → (ltb d d' || (d == d' && ltb k' k)) ≡ false → Ahead d' k' d k
kept-Ahead d k d' k' h = elim (Bool-cases (d == d')) [
  | inl equal ↦ inr (ground arith)
  | inr differs ↦ inl (ground arith)
]

nearer-Ahead :
    (want : ℕ) (best : String × ℕ) (level : String) (r : Option ℕ)
    → variant_rank level ≡ r
    → Ahead (nearer want best level r).1 (rank_of (nearer want best level r)) best.1 (rank_of best)
      × LosesTo want (nearer want best level r).1 (rank_of (nearer want best level r)) r
nearer-Ahead want best level none e = (inr (refl, omega arith), tt)
nearer-Ahead want best level (some r) e =
    elim (Bool-cases (
      ltb (distance r want) best.1
      || (distance r want == best.1 && ltb (or_zero (variant_rank best.0)) r))) [
        | inl takes ↦
            rw (takes, e) (taken-Ahead _ _ _ _ takes, inr (distance-eq r want, omega arith))
        | inr keeps ↦
            let behind = kept-Ahead (distance r want) r best.1 (rank_of best) keeps in
            rw keeps (
              inr (refl, omega arith),
              subst (λ n. Ahead best.1 (rank_of best) n r) (distance-eq r want) behind,
            )
      ]

LosesTo-trans :
    (want d k d' k' : ℕ) (r : Option ℕ)
    → Ahead d' k' d k
    → LosesTo want d k r
    → LosesTo want d' k' r
LosesTo-trans want d k d' k' none a l = tt
LosesTo-trans want d k d' k' (some r) a l = Ahead-trans d' k' d k _ _ a l

nearest-Ahead :
    (want : ℕ) (ids : Dict String) (best : String × ℕ)
    → Ahead (nearest want ids best).1 (rank_of (nearest want ids best)) best.1 (rank_of best)
      × All
          (λ entry.
            LosesTo want
              (nearest want ids best).1
              (rank_of (nearest want ids best))
              (variant_rank entry.0))
          ids
unfolding nearest
nearest-Ahead want [] best = (inr (refl, omega arith), tt)
nearest-Ahead want (entry ∷ ids) best =
    let next = nearer want best entry.0 (variant_rank entry.0) in
    let (ahead, loses) = nearer-Ahead want best entry.0 (variant_rank entry.0) refl in
    let (later, others) = nearest-Ahead want ids next in
    (
      Ahead-trans _ _ next.1 (rank_of next) _ _ later ahead,
      (LosesTo-trans want next.1 (rank_of next) _ _ (variant_rank entry.0) later loses, others),
    )

-- The level is one of the map's, at its distance.
abbrev IsFound : ℕ → String × ℕ → Dict String → Type 0
IsFound want best ids =
    (r : ℕ) × (variant_rank best.0 ≡ some r)
    × (best.1 ≡ gap r want)
    × ((id : String) × (lookup best.0 ids ≡ some id))

lookup_later :
    (key id : String) (entry : String × String) (ids : Dict String)
    → lookup key ids ≡ some id
    → (found : String) × (lookup key (entry ∷ ids) ≡ some found)
unfolding lookup
lookup_later key id entry ids h = elim (Bool-cases (str_eq entry.0 key)) [
  | inl mine ↦ (entry.1, ground arith)
  | inr other ↦ (id, ground arith)
]

lookup_head : (key id : String) (ids : Dict String) → lookup key ((key, id) ∷ ids) ≡ some id
unfolding lookup
lookup_head key id ids = rw (eq_refl key) refl

nearer-IsFound :
    (want : ℕ) (best : String × ℕ) (key id : String) (ids : Dict String) (r : Option ℕ)
    → variant_rank key ≡ r
    → (nearer want best key r ≡ best) ⊎ IsFound want (nearer want best key r) ((key, id) ∷ ids)
nearer-IsFound want best key id ids none e = inl refl
nearer-IsFound want best key id ids (some r) e =
    elim (Bool-cases (
      ltb (distance r want) best.1
      || (distance r want == best.1 && ltb (or_zero (variant_rank best.0)) r))) [
        | inl takes ↦ rw takes (inr (r, e, distance-eq r want, (id, lookup_head key id ids)))
        | inr keeps ↦ rw keeps (inl refl)
      ]

nearest-IsFound :
    (want : ℕ) (ids : Dict String) (best : String × ℕ)
    → (nearest want ids best ≡ best) ⊎ IsFound want (nearest want ids best) ids
unfolding nearest
nearest-IsFound want [] best = inl refl
nearest-IsFound want (entry ∷ ids) best =
    elim (nearest-IsFound want ids (nearer want best entry.0 (variant_rank entry.0))) [
      | inl same ↦
          rw same (nearer-IsFound want best entry.0 entry.1 ids (variant_rank entry.0) refl)
      | inr (r, ranked, dist, some_id) ↦
          inr (r, ranked, dist, lookup_later _ some_id.0 entry ids some_id.1)
    ]

rank_le : (level : String) (r : ℕ) → variant_rank level ≡ some r → r ≤ 3
unfolding variant_rank
rank_le level r h = ground arith

-- A level that no ranked level of the model is ahead of.
pub record IsNearest (want : ℕ) (ids : Dict String) (id : String) : Type 0 where
  pub level : String
  pub rank : ℕ
  pub ranked : variant_rank level ≡ some rank
  pub listed : lookup level ids ≡ some id
  pub closest : All (λ entry. LosesTo want (gap rank want) rank (variant_rank entry.0)) ids

none_ranked :
    (want : ℕ) (ids : Dict String)
    → want ≤ 3
    → All (λ entry. LosesTo want 99 0 (variant_rank entry.0)) ids
    → All (λ entry. variant_rank entry.0 ≡ none) ids
none_ranked want [] w h = tt
none_ranked want (entry ∷ ids) w h =
    (go (variant_rank entry.0) refl h.0, none_ranked want ids w h.1)
  where
    go : (r : Option ℕ) → variant_rank entry.0 ≡ r → LosesTo want 99 0 r → r ≡ none
    go none e l = refl
    go (some r) e (inl far) = absurd (ground (arith, rank_le entry.0 r e))
    go (some r) e (inr (far, _)) = absurd (ground (arith, rank_le entry.0 r e))

not_unnamed : (level : String) (r : ℕ) → variant_rank level ≡ some r → str_eq level "" ≡ false
unfolding variant_rank
not_unnamed level r h = elim (Bool-cases (str_eq level "")) [
  | inl unnamed ↦ absurd (no_rank r (sym (ap variant_rank ((eq_iff level "").0 unnamed)) ∙ h))
  | inr named ↦ named
]
  where
    no_rank : (k : ℕ) → variant_rank "" ≡ some k → ⊥
    no_rank k e = cc

pick_nearest_cases :
    (v : VariantSet) (want : ℕ)
    → want ≤ 3
    → IsNearest want v.ids (pick_nearest v (some want))
      ⊎ ((pick_nearest v (some want) ≡ id_of v v.def)
          × All (λ entry. variant_rank entry.0 ≡ none) v.ids)
unfolding pick_nearest variant_rank
pick_nearest_cases v want w =
    let loses = (nearest-Ahead want v.ids ("", 99)).1 in
    elim (nearest-IsFound want v.ids ("", 99)) [
      | inl same ↦ inr (rw same refl, none_ranked want v.ids w (rw same at loses))
      | inr (r, ranked, dist, some_id) ↦
          let level = (nearest want v.ids ("", 99)).0 in
          inl (
            rw (not_unnamed level r ranked, some_id.1)
              (record {
                level = level;
                rank = r;
                ranked = ranked;
                listed = some_id.1;
                closest = rw (dist, ranked) at loses;
              }))
    ]

-- For an effort that names a level the model has not, `pick` takes the level of the model that is
-- nearest in rank, the higher of two, whatever the order of the map; with no ranked level it takes
-- the default.
pub pick-IsNearest :
    (v : VariantSet) (effort : String) (want : ℕ)
    → asks_default effort ≡ false
    → lookup (named_effort effort) v.ids ≡ none
    → variant_rank (named_effort effort) ≡ some want
    → IsNearest want v.ids (pick v effort)
      ⊎ ((pick v effort ≡ id_of v v.def) × All (λ entry. variant_rank entry.0 ≡ none) v.ids)
unfolding pick pick_level
pick-IsNearest v effort want asks missing ranked =
    rw (asks, missing, ranked)
      (pick_nearest_cases v want (rank_le (named_effort effort) want ranked))
