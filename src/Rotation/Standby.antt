-- ===== src/Rotation/Standby.antt =====
-- `withStandbyLast`: every account is tried once, the standby accounts behind all others.
use mathlib.Core.List.{Perm, append-nil, perm_middle, perm_append_comm}
use mathlib.Core.List.Perm
use intact.Prelude.{
  ℕ, List, [], ◌∷◌, ◌++◌, ◌≡◌, refl, sym, ◌∙◌, arith, true, false, length, take, drop,
  take-append-drop, All, All-append, inl, inr, Bool-cases,
}
use intact.Prelude.{All-take, All-drop, ◌≢◌, ◌⊎◌}
use intact.Rotation.{
  Connection, Cursors, normal_of, standby_of, turned, with_normal_and_standby, with_standby_last,
}

-- The order in which a request tries the accounts: `targets[(start+i)%len(targets)]`.
abbrev pub tries : Cursors × List Connection × ℕ → List Connection
tries (m, targets, start) = turned targets start

-- No account that is not a standby stands behind a standby.
abbrev pub IsStandbyLast : List Connection → Type 0
IsStandbyLast [] = Unit
IsStandbyLast (c ∷ cs) = (c.standby ≡ true → All (λ d. d.standby ≡ true) cs) × IsStandbyLast cs

turned-perm : (xs : List Connection) (i : ℕ) → Perm (turned xs i) xs
turned-perm xs i = rw take-append-drop at (perm_append_comm (drop i xs) (take i xs))

pub split-perm : (cs : List Connection) → Perm (normal_of cs ++ standby_of cs) cs
split-perm [] = Perm.refl []
split-perm (c ∷ cs) = elim (Bool-cases c.standby) [
  | inl spare ↦
      simp spare
        (Perm.trans (perm_middle (normal_of cs) (standby_of cs)) (Perm.cons c (split-perm cs)))
  | inr plain ↦ simp plain (Perm.cons c (split-perm cs))
]

pub All-normal_of : (cs : List Connection) → All (λ c. c.standby ≡ false) (normal_of cs)
All-normal_of [] = tt
All-normal_of (c ∷ cs) = ground (arith, All-normal_of cs)

pub All-standby_of : (cs : List Connection) → All (λ c. c.standby ≡ true) (standby_of cs)
All-standby_of [] = tt
All-standby_of (c ∷ cs) = ground (arith, All-standby_of cs)

normal_of_all : (cs : List Connection) → standby_of cs ≡ [] → normal_of cs ≡ cs
normal_of_all [] e = refl
normal_of_all (c ∷ cs) e = ground (arith, normal_of_all cs)

All-turned :
    (P : Connection → Type 0) (xs : List Connection) (i : ℕ) → All P xs → All P (turned xs i)
All-turned P xs i h = All-append P (drop i xs) (take i xs) (All-drop P i xs h) (All-take P i xs h)

pub IsStandbyLast-append :
    (xs ys : List Connection)
    → All (λ c. c.standby ≡ false) xs
    → All (λ c. c.standby ≡ true) ys
    → IsStandbyLast (xs ++ ys)
IsStandbyLast-append [] [] h k = tt
IsStandbyLast-append [] (y ∷ ys) h k = (λ e. k.1, IsStandbyLast-append [] ys tt k.1)
IsStandbyLast-append (x ∷ xs) ys h k = (λ e. cc (h.0), IsStandbyLast-append xs ys h.1 k)

module _ (targets : List Connection) (pick : ℕ → Cursors → Cursors × ℕ) (m : Cursors) where
  -- With a normal account the normal ones take turns from the picked index, the standby ones
  -- follow. With none the standby accounts are tried in their order.
  tries-normal :
      normal_of targets ≢ []
      → tries (with_standby_last targets pick m)
        ≡ turned (normal_of targets) (pick (length (normal_of targets)) m).1 ++ standby_of targets
  unfolding with_standby_last
  tries-normal some_normal =
      go (normal_of targets) (standby_of targets) some_normal (normal_of_all targets)
    where
      go :
          (ns ss : List Connection)
          → ns ≢ []
          → (ss ≡ [] → ns ≡ targets)
          → tries (with_normal_and_standby targets ns ss pick m)
            ≡ turned ns (pick (length ns) m).1 ++ ss
      go ns [] h e = rw append-nil (rw (e refl))
      go [] (s ∷ ss) h e = absurd (h refl)
      go (n ∷ ns) (s ∷ ss) h e = append-nil _

  tries-standby :
      targets ≢ []
      → normal_of targets ≡ []
      → tries (with_standby_last targets pick m) ≡ standby_of targets
  unfolding with_standby_last
  tries-standby some_target none_normal =
      go (normal_of targets) (standby_of targets) none_normal (normal_of_all targets)
    where
      go :
          (ns ss : List Connection)
          → ns ≡ []
          → (ss ≡ [] → ns ≡ targets)
          → tries (with_normal_and_standby targets ns ss pick m) ≡ ss
      go ns [] h e = absurd (some_target (sym (e refl) ∙ h))
      go [] (s ∷ ss) h e = append-nil _
      go (n ∷ ns) (s ∷ ss) h e = cc

  list-cases : (cs : List Connection) → (cs ≡ []) ⊎ (cs ≢ [])
  list-cases [] = inl refl
  list-cases (c ∷ cs) = inr (λ e. cc)

  tries-parts :
      targets ≢ []
      → (ns : List Connection) × (tries (with_standby_last targets pick m)
          ≡ ns ++ standby_of targets)
        × Perm ns (normal_of targets)
        × All (λ c. c.standby ≡ false) ns
  tries-parts some_target = elim (list-cases (normal_of targets)) [
    | inl e ↦ ([], tries-standby some_target e, rw e (Perm.refl []), tt)
    | inr h ↦ (
      turned (normal_of targets) _,
      tries-normal h,
      turned-perm (normal_of targets) _,
      All-turned _ (normal_of targets) _ (All-normal_of targets),
    )
  ]

  -- Every account of a list that is not empty is tried exactly as often as it is listed, the normal
  -- ones all before the first standby.
  pub with_standby_last-tries :
      targets ≢ []
      → Perm (tries (with_standby_last targets pick m)) targets
        × IsStandbyLast (tries (with_standby_last targets pick m))
  with_standby_last-tries some_target =
      let (ns, e, p, h) = tries-parts some_target in
      (
        rw e (Perm.trans (Perm.append_right (standby_of targets) p) (split-perm targets)),
        rw e (IsStandbyLast-append ns (standby_of targets) h (All-standby_of targets)),
      )
