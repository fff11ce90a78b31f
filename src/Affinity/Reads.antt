-- ===== src/Affinity/Reads.antt =====
-- What `get` answers.
use intact.Prelude.{
  ℕ, ◌+◌, ◌≤◌, List, [], ◌∷◌, String, ◌≡◌, ◌⊎◌, inl, inr, refl, sym, ◌∙◌, arith, Bool, true, false,
  not, ◌&&◌, ltb, leb, Option, none, some, length, keep, str_eq, eq_refl, if◌then◌else◌, Bool-cases,
}
use intact.Prelude.Dict.{
  lookup, insert, delete, lookup-insert, lookup-delete, IsDistinct, insert-IsDistinct,
  keep-IsDistinct, delete-IsDistinct, lookup-keep,
}
use intact.Affinity.{
  Affinity, AffinityEntry, affinity_max, affinity_ttl, expired, older, prune_expired, prune_half,
  prune, set_entry, set, get, get_entry, is_known,
}
use intact.Affinity.Trace.{Op, asks, answers, apply, run, noted, last_answer}

-- The first loop of `prune` keeps what has not expired, whatever the oldest time.
prune_expired-eq-keep :
    (now : ℕ) (m : Affinity) (acc : Option ℕ)
    → (prune_expired now m acc).0 ≡ keep (λ entry. not (expired now entry.1)) m
unfolding prune_expired
prune_expired-eq-keep now [] acc = refl
prune_expired-eq-keep now (entry ∷ m) acc =
    ground
      (arith, prune_expired-eq-keep now m acc, prune_expired-eq-keep now m (older acc entry.1.seen))

-- A smaller map hides no entry, and shows no other.
abbrev Within : Affinity → Affinity → Type 0
Within small m =
    IsDistinct small × ((k : String) → (lookup k small ≡ none) ⊎ (lookup k small ≡ lookup k m))

Within-trans : (a b c : Affinity) → Within a b → Within b c → Within a c
Within-trans a b c p q = (p.0, λ k. chain (lookup k a) (lookup k b) (lookup k c) (p.1 k) (q.1 k))
  where
    chain :
        (x y z : Option AffinityEntry)
        → (x ≡ none) ⊎ (x ≡ y)
        → (y ≡ none) ⊎ (y ≡ z)
        → (x ≡ none) ⊎ (x ≡ z)
    chain x y z (inl e) f = inl e
    chain x y z (inr e) (inl f) = inl (e ∙ f)
    chain x y z (inr e) (inr f) = inr (e ∙ f)

keep-Within :
    (p : String × AffinityEntry → Bool) (m : Affinity) → IsDistinct m → Within (keep p m) m
keep-Within p m d = (keep-IsDistinct p m d, λ k. lookup-keep p k m d)

half-Within :
    (now : ℕ) (m : Affinity) (oldest : Option ℕ) → IsDistinct m → Within (prune_half now m oldest) m
unfolding prune_half
half-Within now m none d = (d, λ k. inr refl)
half-Within now m (some t) d = keep-Within _ m d

prune-Within : (max now : ℕ) (m : Affinity) → IsDistinct m → Within (prune max now m) m
unfolding prune
prune-Within max now m d =
    let live = (prune_expired now m none).0 in
    let within : Within live m = rw prune_expired-eq-keep (keep-Within _ m d) in
    elim (Bool-cases (ltb (length live) max)) [
      | inl room ↦ rw room within
      | inr full ↦ rw full (
          Within-trans _ live m (half-Within now live (prune_expired now m none).1 within.0) within)
    ]

-- The map holds of each session nothing, or what is noted of it.
record Follows (m : Affinity) (h : String → Option AffinityEntry) : Type 0 where
  distinct : IsDistinct m
  agrees : (k : String) → (lookup k m ≡ none) ⊎ (lookup k m ≡ h k)

module _ {m : Affinity} {h : String → Option AffinityEntry} (f : Follows m h) where
  insert-Follows :
      (small : Affinity) (key : String) (e : AffinityEntry)
      → Within small m
      → Follows (insert key e small) (λ k. if str_eq key k then some e else h k)
  insert-Follows small key e w = record {
    distinct = insert-IsDistinct key e small w.0;
    agrees = λ k. rw lookup-insert (by_key k (str_eq key k));
  }
    where
      by_key :
          (k : String) (b : Bool)
          → ((if b then some e else lookup k small) ≡ none)
            ⊎ ((if b then some e else lookup k small) ≡ (if b then some e else h k))
      by_key k true = inr refl
      by_key k false = ground (arith, w.1 k, f.agrees k)

  set-Follows :
      (key conn : String) (now : ℕ)
      → Follows (set m key conn now) (λ k. noted k (h k) (answers key conn now))
  unfolding set_entry
  set-Follows key conn now =
      let e : AffinityEntry = record { conn = conn; seen = now } in
      elim (Bool-cases (not (is_known (lookup key m)) && leb affinity_max (length m))) [
        | inl full ↦ rw full (
            insert-Follows (prune affinity_max now m) key e
              (prune-Within affinity_max now m f.distinct))
        | inr room ↦ rw room (insert-Follows m key e (f.distinct, λ k. inr refl))
      ]

  delete-Follows : (key : String) → Follows (delete key m) h
  delete-Follows key = record {
    distinct = delete-IsDistinct key m f.distinct;
    agrees = λ k. rw lookup-delete (by_key k (str_eq key k));
  }
    where
      by_key :
          (k : String) (b : Bool)
          → ((if b then none else lookup k m) ≡ none) ⊎ ((if b then none else lookup k m) ≡ h k)
      by_key k true = inl refl
      by_key k false = f.agrees k

  get-Follows : (key : String) (now : ℕ) → Follows (get m key now).0 h
  unfolding get
  get-Follows key now = go (lookup key m)
    where
      go : (o : Option AffinityEntry) → Follows (get_entry m key now o).0 h
      go none = f
      go (some e) = elim (Bool-cases (expired now e)) [
        | inl old ↦ rw old (delete-Follows key)
        | inr young ↦ rw young f
      ]

run-Follows :
    (ops : List Op) (m : Affinity) (h : String → Option AffinityEntry)
    → Follows m h
    → Follows (run m ops) (λ k. last_answer k (h k) ops)
unfolding run apply last_answer
run-Follows [] m h f = f
run-Follows (asks key now ∷ ops) m h f = run-Follows ops _ h (get-Follows f key now)
run-Follows (answers key conn now ∷ ops) m h f = run-Follows ops _ _ (set-Follows f key conn now)

read_entry :
    (m : Affinity) (key : String) (now : ℕ) (o last : Option AffinityEntry)
    → (o ≡ none) ⊎ (o ≡ last)
    → ((get_entry m key now o).1 ≡ "")
      ⊎ ((e : AffinityEntry) × (last ≡ some e)
          × ((get_entry m key now o).1 ≡ e.conn)
          × (now ≤ e.seen + affinity_ttl))
unfolding get_entry
read_entry m key now none last h = inl refl
read_entry m key now (some e) last (inl h) = cc
read_entry m key now (some e) last (inr h) = elim (Bool-cases (expired now e)) [
  | inl old ↦ inl (rw old)
  | inr young ↦ inr (e, sym h, rw young, ground arith)
]

-- A session is only ever sent where it was last answered. After any calls of `get` and `set` at any
-- times, from an empty map, `get` answers with the empty string, or with the account of the last
-- `set` of that key, which is then at most an hour old.
pub get-run :
    (ops : List Op) (key : String) (now : ℕ)
    → ((get (run [] ops) key now).1 ≡ "")
      ⊎ ((e : AffinityEntry) × (last_answer key none ops ≡ some e)
          × ((get (run [] ops) key now).1 ≡ e.conn)
          × (now ≤ e.seen + affinity_ttl))
unfolding get lookup
get-run ops key now =
    let f = run-Follows ops [] (λ k. none) (record { distinct = tt; agrees = λ k. inl refl }) in
    read_entry (run [] ops) key now (lookup key (run [] ops)) (last_answer key none ops)
      (f.agrees key)

-- The pin lasts an hour: right after `set`, `get` answers with the account for as long, and with the
-- empty string later.
pub get-set_self :
    (m : Affinity) (key conn : String) (now later : ℕ)
    → (get (set m key conn now) key later).1 ≡ (if leb later (now + affinity_ttl) then conn else "")
unfolding get set_entry
get-set_self m key conn now later = rw (lookup-insert, eq_refl) (ground arith)
