-- ===== src/Rotation/Order.antt =====
-- `ordered` sorts by the places, keeps every account, and is stable.
use mathlib.Core.List.{Perm}
use mathlib.Core.List.Perm
use intact.Prelude.{
  ℕ, ◌≤◌, List, [], ◌∷◌, ◌≡◌, refl, ◌∙◌, arith, Bool, true, false, Option, none, some, ◌==◌, keep,
  All, inl, inr, Bool-cases,
}
use intact.Rotation.{Connection, Rotation, place_of, before, put_stable, slice_stable, ordered}

-- Two places that the sort treats alike: the same place, or none.
pub same_place : Option ℕ → Option ℕ → Bool
same_place none none = true
same_place (some i) (some j) = i == j
same_place _ _ = false

-- The place may stand before the other: it is no greater, and no place stands before one.
abbrev pub NotBehind : Option ℕ → Option ℕ → Type 0
NotBehind (some i) (some j) = i ≤ j
NotBehind (some i) none = Unit
NotBehind none none = Unit
NotBehind none (some j) = ⊥

-- Every account may stand before all that follow it.
abbrev pub IsByPlace : (Connection → Option ℕ) → List Connection → Type 0
IsByPlace place [] = Unit
IsByPlace place (c ∷ cs) = All (λ d. NotBehind (place c) (place d)) cs × IsByPlace place cs

module _ (place : Connection → Option ℕ) where
  put_stable-perm : (c : Connection) (ds : List Connection) → Perm (put_stable place c ds) (c ∷ ds)
  unfolding put_stable
  put_stable-perm c [] = Perm.refl (c ∷ [])
  put_stable-perm c (d ∷ ds) = elim (Bool-cases (before (place d) (place c))) [
    | inl after ↦ rw after (Perm.trans (Perm.cons d (put_stable-perm c ds)) (Perm.swap c d ds))
    | inr here ↦ rw here (Perm.refl (c ∷ d ∷ ds))
  ]

  slice_stable-perm : (cs : List Connection) → Perm (slice_stable place cs) cs
  unfolding slice_stable
  slice_stable-perm [] = Perm.refl []
  slice_stable-perm (c ∷ cs) =
      Perm.trans (put_stable-perm c (slice_stable place cs)) (Perm.cons c (slice_stable-perm cs))

  NotBehind-trans : (i j k : Option ℕ) → NotBehind i j → NotBehind j k → NotBehind i k
  NotBehind-trans none none none p q = tt
  NotBehind-trans none none (some c) p q = absurd q
  NotBehind-trans none (some b) k p q = absurd p
  NotBehind-trans (some a) none none p q = tt
  NotBehind-trans (some a) none (some c) p q = absurd q
  NotBehind-trans (some a) (some b) none p q = tt
  NotBehind-trans (some a) (some b) (some c) p q = omega (arith, p, q)

  before-NotBehind : (i j : Option ℕ) → before i j ≡ true → NotBehind i j
  unfolding before
  before-NotBehind none none p = tt
  before-NotBehind none (some b) p = cc
  before-NotBehind (some a) none p = tt
  before-NotBehind (some a) (some b) p = ground arith

  not_before-NotBehind : (i j : Option ℕ) → before j i ≡ false → NotBehind i j
  unfolding before
  not_before-NotBehind none none p = tt
  not_before-NotBehind none (some b) p = cc
  not_before-NotBehind (some a) none p = tt
  not_before-NotBehind (some a) (some b) p = ground arith

  All-put_stable :
      (P : Connection → Type 0) (c : Connection) (ds : List Connection)
      → P c
      → All P ds
      → All P (put_stable place c ds)
  unfolding put_stable
  All-put_stable P c [] hc h = (hc, tt)
  All-put_stable P c (d ∷ ds) hc h = ground (arith, All-put_stable P c ds hc h.1)

  All-NotBehind :
      (i j : Option ℕ) (ds : List Connection)
      → NotBehind i j
      → All (λ d. NotBehind j (place d)) ds
      → All (λ d. NotBehind i (place d)) ds
  All-NotBehind i j [] p h = tt
  All-NotBehind i j (d ∷ ds) p h = (NotBehind-trans i j (place d) p h.0, All-NotBehind i j ds p h.1)

  put_stable-IsByPlace :
      (c : Connection) (ds : List Connection)
      → IsByPlace place ds
      → IsByPlace place (put_stable place c ds)
  unfolding put_stable
  put_stable-IsByPlace c [] h = (tt, tt)
  put_stable-IsByPlace c (d ∷ ds) h = elim (Bool-cases (before (place d) (place c))) [
    | inl after ↦ rw after (
      All-put_stable (λ e. NotBehind (place d) (place e)) c ds
          (before-NotBehind (place d) (place c) after) h.0,
      put_stable-IsByPlace c ds h.1,
    )
    | inr here ↦
        let first = not_before-NotBehind (place c) (place d) here in
        rw here ((first, All-NotBehind (place c) (place d) ds first h.0), h)
  ]

  slice_stable-IsByPlace : (cs : List Connection) → IsByPlace place (slice_stable place cs)
  unfolding slice_stable
  slice_stable-IsByPlace [] = tt
  slice_stable-IsByPlace (c ∷ cs) = put_stable-IsByPlace c _ (slice_stable-IsByPlace cs)

  apart : (p i j : Option ℕ) → before i j ≡ true → same_place p i ≡ true → same_place p j ≡ true → ⊥
  unfolding before same_place
  apart none none none h a b = cc
  apart none none (some y) h a b = cc
  apart none (some x) j h a b = cc
  apart (some z) none j h a b = cc
  apart (some z) (some x) none h a b = cc
  apart (some z) (some x) (some y) h a b = ground arith

  put_stable-keep :
      (p : Option ℕ) (c : Connection) (ds : List Connection)
      → keep (λ d. same_place p (place d)) (put_stable place c ds)
        ≡ keep (λ d. same_place p (place d)) (c ∷ ds)
  unfolding put_stable
  put_stable-keep p c [] = refl
  put_stable-keep p c (d ∷ ds) = ground (arith, put_stable-keep p c ds, apart p (place d) (place c))

  slice_stable-keep :
      (p : Option ℕ) (cs : List Connection)
      → keep (λ d. same_place p (place d)) (slice_stable place cs)
        ≡ keep (λ d. same_place p (place d)) cs
  unfolding slice_stable
  slice_stable-keep p [] = refl
  slice_stable-keep p (c ∷ cs) =
      put_stable-keep p c (slice_stable place cs) ∙ ground (arith, slice_stable-keep p cs)

-- `ordered` answers with the given accounts, each as often, in the order of their places in the
-- rotation, those with no place behind all others; accounts with the same place (or none) keep the
-- order that they were given in.
pub ordered_sorts :
    (r : Rotation) (conns : List Connection)
    → Perm (ordered r conns) conns
      × IsByPlace (place_of r) (ordered r conns)
      × ((p : Option ℕ)
          → keep (λ c. same_place p (place_of r c)) (ordered r conns)
            ≡ keep (λ c. same_place p (place_of r c)) conns)
unfolding ordered
ordered_sorts r conns = (
  slice_stable-perm (place_of r) conns,
  slice_stable-IsByPlace (place_of r) conns,
  λ p. slice_stable-keep (place_of r) p conns,
)
