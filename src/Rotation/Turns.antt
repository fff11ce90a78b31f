-- ===== src/Rotation/Turns.antt =====
-- The cursor: who serves the next request of a rotation.
use native.Mathlib.Nat.{mod-mod, mod-add-mod, div-eq_of_lt-le}
use intact.Prelude.{
  ℕ, suc, ◌+◌, ◌*◌, ◌%◌, ◌/◌, ◌<◌, List, [], ◌∷◌, String, ◌≡◌, refl, arith, leb, str_eq, eq_iff,
  if◌then◌else◌, inl, inr, Bool-cases,
}
use intact.Prelude.Dict.{lookup, lookup-insert}
use intact.Prelude.Int.{ℤ, pos}
use intact.Rotation.{Cursors, RrCursor, cursor_of, turn, advance}

-- A call of `advance`: its key, the number of accounts and `sticky`.
pub record Turn : Type 0 where
  pub key : String
  pub n : ℕ
  pub sticky : ℤ

unfoldable pub run : Cursors → List Turn → Cursors
run m [] = m
run m (t ∷ ts) = run (advance m t.key t.n t.sticky).0 ts

unfoldable pub calls_of : String → List Turn → ℕ
calls_of key [] = 0
calls_of key (t ∷ ts) = if str_eq t.key key then suc (calls_of key ts) else calls_of key ts

-- Each call of the key has the same number of accounts and the same `sticky`.
abbrev pub AreAlike : String → ℕ → ℕ → List Turn → Type 0
AreAlike key n sticky [] = Unit
AreAlike key n sticky (t ∷ ts) =
    (t.key ≡ key → (t.n ≡ n) × (t.sticky ≡ pos sticky)) × AreAlike key n sticky ts

cursor_of-advance :
    (m : Cursors) (key : String) (n : ℕ) (sticky : ℤ) (k : String)
    → cursor_of (advance m key n sticky).0 k ≡ (
        if str_eq key k
        then turn n sticky ((cursor_of m key).i % n) ((cursor_of m key).used + 1)
        else cursor_of m k)
unfolding advance
cursor_of-advance m key n sticky k = rw lookup-insert (ground arith)

-- Where the cursor stands after `q` whole turns and `u` requests of the next.
record StandsAt (n sticky q u : ℕ) (c : RrCursor) : Type 0 where
  place : c.i % n ≡ q % n
  served : c.used ≡ u
  open_turn : u < sticky

-- The turn goes on, or passes to the next account.
after_turn : (sticky q u : ℕ) → ℕ × ℕ
after_turn sticky q u = if leb sticky (u + 1) then (q + 1, 0) else (q, u + 1)

StandsAt-turn :
    (n sticky q u : ℕ) (c : RrCursor)
    → 0 < n
    → StandsAt n sticky q u c
    → StandsAt n sticky
        (after_turn sticky q u).0
        (after_turn sticky q u).1
        (turn n (pos sticky) (c.i % n) (c.used + 1))
unfolding turn after_turn
StandsAt-turn n sticky q u c big s = elim (Bool-cases (leb sticky (u + 1))) [
  | inl over ↦
      rw (s.served, over)
        (record {
          place = rw (mod-mod, s.place, mod-add-mod);
          served = refl;
          open_turn = ground arith;
        })
  | inr more ↦
      rw (s.served, more)
        (record { place = rw (mod-mod, s.place); served = refl; open_turn = ground arith })
]

after_turn-count :
    (sticky q u : ℕ)
    → u < sticky
    → (after_turn sticky q u).0 * sticky + (after_turn sticky q u).1 ≡ q * sticky + u + 1
unfolding after_turn
after_turn-count sticky q u h = elim (Bool-cases (leb sticky (u + 1))) [
  | inl over ↦ rw over (ground arith)
  | inr more ↦ rw more (omega arith)
]

StandsAt-run :
    (n sticky : ℕ) (key : String) (ts : List Turn) (m : Cursors) (q u : ℕ)
    → 0 < n
    → AreAlike key n sticky ts
    → StandsAt n sticky q u (cursor_of m key)
    → (p : ℕ) × (v : ℕ) × (p * sticky + v ≡ q * sticky + u + calls_of key ts)
      × StandsAt n sticky p v (cursor_of (run m ts) key)
unfolding run calls_of
StandsAt-run n sticky key [] m q u big a s = (q, u, omega arith, s)
StandsAt-run n sticky key (t ∷ ts) m q u big a s = elim (Bool-cases (str_eq t.key key)) [
  | inl mine ↦
      let same = (eq_iff t.key key).0 mine in
      let (same_n, same_sticky) = a.0 same in
      let (q', u') = after_turn sticky q u in
      let stands : StandsAt n sticky q' u' (cursor_of (advance m t.key t.n t.sticky).0 key) =
        rw (cursor_of-advance, mine, same_n, same_sticky, same)
          (StandsAt-turn n sticky q u (cursor_of m key) big s) in
      let (p, v, total, stopped-IsFinal) = StandsAt-run n sticky key ts _ q' u' big a.1 stands in
      (p, v, rw mine (omega (arith, after_turn-count sticky q u s.open_turn)), stopped-IsFinal)
  | inr other ↦
      let (p, v, total, stopped-IsFinal) =
        StandsAt-run n sticky key ts _ q u big a.1 (rw (cursor_of-advance, other) s) in
      (p, v, rw other (omega arith), stopped-IsFinal)
]

quotient : (p v sticky k : ℕ) → v < sticky → p * sticky + v ≡ k → k / sticky ≡ p
quotient p v sticky k h e = div-eq_of_lt-le sticky (omega arith) (omega arith)

answer_of :
    (m : Cursors) (key : String) (n : ℕ) (sticky : ℤ)
    → (advance m key n sticky).1 ≡ (cursor_of m key).i % n
unfolding advance
answer_of m key n sticky = refl

-- From no cursors, after any calls of `advance` of any keys, those of `key` all for `n` accounts and
-- with the same `sticky` of at least 1: the next call for `key` answers with account
-- `k / sticky`, taken modulo `n`, where `k` is the number of calls of the key so far. So each
-- account serves `sticky` requests in a row, the accounts take turns in order, and no key moves
-- another's turn.
pub advance_takes_turns :
    (n sticky : ℕ) (key : String) (ts : List Turn)
    → 0 < n
    → 0 < sticky
    → AreAlike key n sticky ts
    → (advance (run [] ts) key n (pos sticky)).1 ≡ calls_of key ts / sticky % n
unfolding lookup
advance_takes_turns n sticky key ts big some_sticky a =
    let start : StandsAt n sticky 0 0 (cursor_of [] key) = record {
      place = refl;
      served = refl;
      open_turn = some_sticky;
    } in
    let (p, v, total, stopped-IsFinal) = StandsAt-run n sticky key ts [] 0 0 big a start in
    rw (
      answer_of,
      stopped-IsFinal.place,
      quotient p v sticky (calls_of key ts) stopped-IsFinal.open_turn (omega arith),
    )
