-- ===== src/Affinity/Prune.antt =====
-- `prune` makes room for one session.
use intact.Prelude.{
  ℕ, ◌≤◌, ◌<◌, [], ◌∷◌, String, ◌≡◌, ◌⊎◌, inl, inr, refl, arith, ltb, Option, none, some, length,
  length-keep-le, keep, All, All-keep, Bool-cases,
}
use intact.Prelude.Dict.{insert, delete}
use intact.Affinity.{Affinity, AffinityEntry, older, prune_expired, midway, prune_half, prune}

-- No entry was seen after `now`.
abbrev pub IsPast : ℕ → Affinity → Type 0
IsPast now = All (λ entry. entry.1.seen ≤ now)

-- Some entry was seen at `t`.
abbrev pub HasSeen : ℕ → Affinity → Type 0
HasSeen t [] = ⊥
HasSeen t (entry ∷ m) = (entry.1.seen ≡ t) ⊎ HasSeen t m

pub prune_expired-oldest :
    (now : ℕ) (m : Affinity) (acc : Option ℕ) (t : ℕ)
    → (prune_expired now m acc).1 ≡ some t
    → (acc ≡ some t) ⊎ HasSeen t (prune_expired now m acc).0
unfolding prune_expired
prune_expired-oldest now [] acc t h = inl h
prune_expired-oldest now (entry ∷ m) none t h =
    ground
      (arith, prune_expired-oldest now m none t, prune_expired-oldest now m (some entry.1.seen) t)
prune_expired-oldest now (entry ∷ m) (some o) t h =
    ground (
      arith,
      prune_expired-oldest now m (some o) t,
      prune_expired-oldest now m (some entry.1.seen) t,
    )

pub prune_expired-none :
    (now : ℕ) (m : Affinity) (acc : Option ℕ)
    → (prune_expired now m acc).1 ≡ none
    → (acc ≡ none) × ((prune_expired now m acc).0 ≡ [])
unfolding prune_expired
prune_expired-none now [] acc h = (h, refl)
prune_expired-none now (entry ∷ m) none h =
    ground (arith, prune_expired-none now m none, prune_expired-none now m (some entry.1.seen))
prune_expired-none now (entry ∷ m) (some o) h =
    ground (arith, prune_expired-none now m (some o), prune_expired-none now m (some entry.1.seen))

pub length-prune_expired-le :
    (now : ℕ) (m : Affinity) (acc : Option ℕ) → length (prune_expired now m acc).0 ≤ length m
unfolding prune_expired
length-prune_expired-le now [] acc = omega arith
length-prune_expired-le now (entry ∷ m) acc = ground (
  arith,
  length-prune_expired-le now m acc,
  length-prune_expired-le now m (older acc entry.1.seen),
)

pub prune_expired-IsPast :
    (last now : ℕ) (m : Affinity) (acc : Option ℕ)
    → IsPast last m
    → IsPast last (prune_expired now m acc).0
unfolding prune_expired
prune_expired-IsPast last now [] acc h = tt
prune_expired-IsPast last now (entry ∷ m) acc h = ground (
  arith,
  prune_expired-IsPast last now m acc h.1,
  prune_expired-IsPast last now m (older acc entry.1.seen) h.1,
)

-- An entry that was seen at `t` is dropped with all that were not seen after `mid`.
pub length-keep_later :
    (mid t : ℕ) (m : Affinity)
    → t ≤ mid
    → HasSeen t m
    → length (keep (λ entry. ltb mid entry.1.seen) m) < length m
length-keep_later mid t [] h s = absurd s
length-keep_later mid t (entry ∷ m) h s = ground (
  arith,
  length-keep_later mid t m h,
  length-keep-le (λ (e : String × AffinityEntry). ltb mid e.1.seen) m,
)

pub seen-le : (now t : ℕ) (m : Affinity) → IsPast now m → HasSeen t m → t ≤ now
seen-le now t [] h s = absurd s
seen-le now t (entry ∷ m) h (inl e) = omega arith
seen-le now t (entry ∷ m) h (inr s) = seen-le now t m h.1 s

pub midway-ge : (oldest now : ℕ) → oldest ≤ now → oldest ≤ midway oldest now
unfolding midway
midway-ge oldest now h = ground arith

pub half_lt :
    (max now : ℕ) (live : Affinity) (oldest : Option ℕ)
    → 0 < max
    → length live ≤ max
    → IsPast now live
    → (oldest ≡ none → live ≡ [])
    → ((t : ℕ) → oldest ≡ some t → HasSeen t live)
    → length (prune_half now live oldest) < max
unfolding prune_half
half_lt max now live none pos fits past empty has = rw (empty refl) (omega arith)
half_lt max now live (some t) pos fits past empty has =
    let seen = has t refl in
    omega (
      arith,
      length-keep_later (midway t now) t live (midway-ge t now (seen-le now t live past seen)) seen,
    )

pub prune-lt :
    (max now : ℕ) (m : Affinity)
    → 0 < max
    → length m ≤ max
    → IsPast now m
    → length (prune max now m) < max
unfolding prune
prune-lt max now m pos fits past =
    let live = (prune_expired now m none).0 in
    let oldest = (prune_expired now m none).1 in
    elim (Bool-cases (ltb (length live) max)) [
      | inl room ↦ rw room (ground arith)
      | inr full ↦ rw full (
          half_lt max now live oldest pos (omega (arith, length-prune_expired-le now m none))
            (prune_expired-IsPast now now m none past) (λ e. (prune_expired-none now m none e).1)
            (λ t e. from_none t (prune_expired-oldest now m none t e)))
    ]
  where
    from_none :
        (t : ℕ)
        → (◌≡◌ {A = Option ℕ} none (some t)) ⊎ HasSeen t (prune_expired now m none).0
        → HasSeen t (prune_expired now m none).0
    from_none t (inl e) = cc
    from_none t (inr s) = s

pub prune-IsPast : (max last now : ℕ) (m : Affinity) → IsPast last m → IsPast last (prune max now m)
unfolding prune
prune-IsPast max last now m past =
    let live = (prune_expired now m none).0 in
    let kept = prune_expired-IsPast last now m none past in
    elim (Bool-cases (ltb (length live) max)) [
      | inl room ↦ rw room kept
      | inr full ↦ rw full (half (prune_expired now m none).1 live kept)
    ]
  where
    half :
        (oldest : Option ℕ) (live : Affinity)
        → IsPast last live
        → IsPast last (prune_half now live oldest)
    half none live h = h
    half (some t) live h = All-keep (λ entry. entry.1.seen ≤ last) _ live h

pub IsPast-later : (last now : ℕ) (m : Affinity) → last ≤ now → IsPast last m → IsPast now m
IsPast-later last now [] h p = tt
IsPast-later last now (entry ∷ m) h p = (omega arith, IsPast-later last now m h p.1)

pub insert-IsPast :
    (now : ℕ) (key conn : String) (m : Affinity)
    → IsPast now m
    → IsPast now (insert key (record { conn = conn; seen = now }) m)
unfolding insert
insert-IsPast now key conn [] p = (omega arith, tt)
insert-IsPast now key conn (entry ∷ m) p = ground (arith, insert-IsPast now key conn m p.1)

pub delete-IsPast :
    (now : ℕ) (key : String) (m : Affinity) → IsPast now m → IsPast now (delete key m)
unfolding delete
delete-IsPast now key [] p = tt
delete-IsPast now key (entry ∷ m) p = ground (arith, delete-IsPast now key m p.1)
