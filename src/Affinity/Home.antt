-- ===== src/Affinity/Home.antt =====
-- `sessionOrder`.
use mathlib.Core.List.{Perm, Permᴰ}
use mathlib.Core.List.Perm
use mathlib.Core.Logic.{∥∥₁_map}
use mathlib.Core.Path.{subst}
use intact.Prelude.{
  ◌⊎◌, ℕ, List, [], ◌∷◌, ◌++◌, String, ◌≡◌, ◌≢◌, inl, inr, refl, ap, sym, ◌∙◌, arith, Bool, true,
  false, not, Option, none, some, keep, str_eq, eq_iff, All, Bool-cases,
}
use intact.Rotation.{Connection, Rotation, ordered, normal_of, standby_of}
use intact.Rotation.Order.{ordered_sorts}
use intact.Rotation.Standby.{
  IsStandbyLast, split-perm, All-normal_of, All-standby_of, IsStandbyLast-append,
}
use intact.Affinity.{Affinity, get, find_home, others_of, has_some, home_first, session_order}

permᴰ_refl : (l : List Connection) → Permᴰ l l
permᴰ_refl [] = Permᴰ.nil
permᴰ_refl (c ∷ l) = Permᴰ.cons refl (permᴰ_refl l)

keep-permᴰ :
    (p : Connection → Bool) {xs ys : List Connection} → Permᴰ xs ys → Permᴰ (keep p xs) (keep p ys)
keep-permᴰ p Permᴰ.nil = Permᴰ.nil
keep-permᴰ p (Permᴰ.cons {a = x} {b = y} e h) = elim (Bool-cases (p x)) [
  | inl t ↦ rw (t, sym (ap p e) ∙ t) (Permᴰ.cons e (keep-permᴰ p h))
  | inr f ↦ rw (f, sym (ap p e) ∙ f) (keep-permᴰ p h)
]
keep-permᴰ p (Permᴰ.swap {a = x} {b = y} {l = l} e f) = elim (Bool-cases (p x)) [
  | inl tx ↦ elim (Bool-cases (p y)) [
    | inl ty ↦ rw (tx, ty, sym (ap p e) ∙ tx, sym (ap p f) ∙ ty) (Permᴰ.swap e f)
    | inr ny ↦
        rw (tx, ny, sym (ap p e) ∙ tx, sym (ap p f) ∙ ny) (Permᴰ.cons e (permᴰ_refl (keep p l)))
  ]
  | inr nx ↦ elim (Bool-cases (p y)) [
    | inl ty ↦
        rw (nx, ty, sym (ap p e) ∙ nx, sym (ap p f) ∙ ty) (Permᴰ.cons f (permᴰ_refl (keep p l)))
    | inr ny ↦ rw (nx, ny, sym (ap p e) ∙ nx, sym (ap p f) ∙ ny) (permᴰ_refl (keep p l))
  ]
]
keep-permᴰ p (Permᴰ.trans h k) = Permᴰ.trans (keep-permᴰ p h) (keep-permᴰ p k)

-- No two accounts have one id.
abbrev pub HaveDistinctIds : List Connection → Type 0
HaveDistinctIds [] = Unit
HaveDistinctIds (c ∷ cs) = All (λ d. str_eq d.id c.id ≡ false) cs × HaveDistinctIds cs

no_other :
    (id : String) (cs : List Connection) (home : Option Connection)
    → All (λ d. str_eq d.id id ≡ false) cs
    → (find_home id cs home ≡ home) × (others_of id cs ≡ cs)
unfolding find_home
no_other id [] home h = (refl, refl)
no_other id (c ∷ cs) home h = ground (arith, no_other id cs home h.1)

find_home-perm :
    (id : String) (cs : List Connection) (home : Connection)
    → HaveDistinctIds cs
    → find_home id cs none ≡ some home
    → (home.id ≡ id) × Perm (home ∷ others_of id cs) cs
unfolding find_home
find_home-perm id [] home d e = cc
find_home-perm id (c ∷ cs) home d e = elim (Bool-cases (str_eq c.id id)) [
  | inl mine ↦
      let apart : All (λ d. str_eq d.id id ≡ false) cs =
        subst (λ k. All (λ d. str_eq d.id k ≡ false) cs) ((eq_iff c.id id).0 mine) d.0 in
      let (kept, others) = no_other id cs (some c) apart in
      let found : some c ≡ some home = sym kept ∙ (rw mine at e) in
      let same : c ≡ home = cc found in
      (
        subst (λ h. h.id ≡ id) same ((eq_iff c.id id).0 mine),
        rw (mine, others) (subst (λ h. Perm (h ∷ cs) (c ∷ cs)) same (Perm.refl (c ∷ cs))),
      )
  | inr other ↦
      let (same, p) = find_home-perm id cs home d.1 (rw other at e) in
      (same, rw other (Perm.trans (Perm.swap c home (others_of id cs)) (Perm.cons c p)))
]

has_some-false : (cs : List Connection) → has_some cs ≡ false → cs ≡ []
has_some-false [] e = refl
has_some-false (c ∷ cs) e = cc

-- An order for a session: its account, then the others.
pub record LeadsHome (id : String) (targets out : List Connection) : Type 0 where
  pub home : Connection
  pub rest : List Connection
  pub leads : out ≡ home ∷ rest
  pub named : home.id ≡ id
  pub known : id ≢ ""
  pub tries_all : Perm out targets
  pub standby_last : IsStandbyLast rest
  pub standby_home : (home.standby ≡ false) ⊎ All (λ c. c.standby ≡ true) rest

home_first-LeadsHome :
    (rot : Rotation) (id : String) (targets out : List Connection) (home : Connection)
    → HaveDistinctIds targets
    → find_home id targets none ≡ some home
    → home_first rot id targets (some home) ≡ some out
    → LeadsHome id targets out
unfolding home_first
home_first-LeadsHome rot id targets out home d found e = record {
  home = home;
  rest = normal_of others ++ standby_of others;
  leads = shape;
  named = (find_home-perm id targets home d found).0;
  known = ground (arith, eq_iff id "");
  tries_all = rw shape (
      Perm.trans (Perm.cons home (split-perm others))
        (Perm.trans (Perm.cons home others-perm) (find_home-perm id targets home d found).1));
  standby_last = IsStandbyLast-append _ _ (All-normal_of others) (All-standby_of others);
  standby_home = elim (Bool-cases home.standby) [
    | inl h ↦ inr (rw (has_some-false (normal_of others) (no_normal h)) (All-standby_of others))
    | inr h ↦ inl h
  ];
}
  where
    others : List Connection
    others = others_of id (ordered rot targets)

    shape : out ≡ home ∷ (normal_of others ++ standby_of others)
    shape = ground arith

    no_normal : home.standby ≡ true → has_some (normal_of others) ≡ false
    no_normal h = ground arith

    others-perm : Perm others (others_of id targets)
    others-perm = ∥∥₁_map (ordered_sorts rot targets).0 (keep-permᴰ (λ c. not (str_eq c.id id)))

-- Where `sessionOrder` answers, with no two accounts of one id: the account that the map names for
-- the session comes first, every account is tried once, the standby accounts come last, and a
-- standby account comes first only if no other account is normal.
pub session_order-LeadsHome :
    (m : Affinity) (rot : Rotation) (key : String) (targets : List Connection) (now : ℕ)
    (out : List Connection)
    → HaveDistinctIds targets
    → (session_order m rot key targets now).1 ≡ some out
    → LeadsHome (get m key now).1 targets out
unfolding session_order
session_order-LeadsHome m rot key targets now out d e = elim (Bool-cases (str_eq key "")) [
  | inl nameless ↦ cc (rw nameless at e)
  | inr named ↦ go (find_home (get m key now).1 targets none) refl (rw named at e)
]
  where
    go :
        (found : Option Connection)
        → find_home (get m key now).1 targets none ≡ found
        → home_first rot (get m key now).1 targets found ≡ some out
        → LeadsHome (get m key now).1 targets out
    go none f h = cc
    go (some home) f h = home_first-LeadsHome rot (get m key now).1 targets out home d f h
