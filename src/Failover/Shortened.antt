-- ===== src/Failover/Shortened.antt =====
-- What a 429 does to the body of the rounds that follow, in `failover` of internal/httpapi/v1.go.
use intact.Prelude.{
  ℕ, ◌+◌, str_eq, true, false, not, ◌&&◌, ◌||◌, ◌≡◌, refl, sym, ap, ◌∙◌, Option, none, some, List,
  [], ◌∷◌, map, ◌⊎◌, inl, inr, arith, ◌==◌, Bool-cases,
}
use intact.Rotation.{Connection, rotate_round_robin}
use intact.Affinity.{Attempt}
use intact.Failover.{Calls, Caller, LoopState, Outcome, has_next}
use intact.Failover.Shorten.{passes_on, shorten_for, conn_of, with_shorter, compact_for_rate_limit}
use intact.Failover.Loop.{
  Round, skipped, unanswered, answer, refused, round, after_round, rounds, once_more, ended,
}

module _ {B : Type 0} (calls : Calls B) (caller : Caller) where
  -- A 429 of this account made the next ones get what the body was shortened to.
  pub record IsShortening (busy next : Attempt) (others : List Attempt) (k status : ℕ)
      (body shorter : B) : Type 0 where
    pub too_many : status ≡ 429
    pub shorter_body :
        compact_for_rate_limit calls k busy.conn (map conn_of (next ∷ others)) body ≡ some shorter
    pub other_account : str_eq next.conn.id busy.conn.id ≡ false
    pub not_standby : next.conn.standby ≡ false
    pub rotates : str_eq (calls.rotation_mode k busy.conn.provider) rotate_round_robin ≡ true

  compact_rotates :
      (k : ℕ) (busy next : Connection) (others : List Connection) (body shorter : B)
      → compact_for_rate_limit calls k busy (next ∷ others) body ≡ some shorter
      → str_eq (calls.rotation_mode k busy.provider) rotate_round_robin ≡ true
  unfolding compact_for_rate_limit
  compact_rotates k busy next others body shorter h =
      elim (Bool-cases (str_eq (calls.rotation_mode k busy.provider) rotate_round_robin)) [
        | inl rotates ↦ rotates
        | inr pinned ↦ ground (arith, h, pinned)
      ]

  -- What a 429's shortening does to a state: nothing, or it shortens the body for the attempts after it.
  abbrev pub ShortensOrKeeps : ℕ → Attempt → List Attempt → ℕ → LoopState B → LoopState B → Type 0
  ShortensOrKeeps k at rest status s t =
      ((t.body ≡ s.body) × (t.shortened ≡ s.shortened))
      ⊎ ((s.shortened ≡ false)
          × (t.shortened ≡ true)
          × ((next : Attempt) × ((others : List Attempt) × ((rest ≡ next ∷ others)
                  × IsShortening at next others k status s.body t.body))))

  with_shorter-cases :
      (k : ℕ) (at next : Attempt) (rest : List Attempt) (status : ℕ) (s : LoopState B)
      (shorter : Option B)
      → status ≡ 429
      → s.shortened ≡ false
      → str_eq next.conn.id at.conn.id ≡ false
      → next.conn.standby ≡ false
      → compact_for_rate_limit calls k at.conn (map conn_of (next ∷ rest)) s.body ≡ shorter
      → ShortensOrKeeps k at (next ∷ rest) status s (with_shorter calls caller s shorter)
  with_shorter-cases k at next rest status s none busy fresh apart active e =
      inl (refl, ap (λ b. b || false) fresh ∙ sym fresh)
  with_shorter-cases k at next rest status s (some shorter) busy fresh apart active e = inr (
    fresh,
    ap (λ b. b || true) fresh,
    (
      next,
      (
        rest,
        (
          refl,
          record {
            too_many = busy;
            shorter_body = e;
            other_account = apart;
            not_standby = active;
            rotates = compact_rotates k at.conn next.conn (map conn_of rest) s.body shorter e;
          },
        ),
      ),
    ),
  )

  pub shorten_for-cases :
      (k : ℕ) (at : Attempt) (rest : List Attempt) (status : ℕ) (s : LoopState B)
      → ShortensOrKeeps k at rest status s (shorten_for calls caller k at rest status s)
  unfolding shorten_for
  shorten_for-cases k at [] status s = inl (refl, refl)
  shorten_for-cases k at (next ∷ rest) status s =
      elim (Bool-cases (
        status == 429
        && not s.shortened
        && not (str_eq next.conn.id at.conn.id)
        && not next.conn.standby)) [
          | inr kept ↦ rw kept (inl (refl, refl))
          | inl busy ↦ rw busy (
              with_shorter-cases k at next rest status s
                (compact_for_rate_limit calls k at.conn (map conn_of (next ∷ rest)) s.body)
                (ground (arith, busy)) (ground (arith, busy)) (ground (arith, busy))
                (ground (arith, busy)) refl)
        ]

  -- From a state that is shortened, the body stays.
  abbrev pub Stays : LoopState B → LoopState B → Type 0
  Stays s last = (last.body ≡ s.body) × (last.shortened ≡ true)

  ended-Stays : (s : LoopState B) → s.shortened ≡ true → Stays s (ended calls caller s).0
  ended-Stays s short = elim (Bool-cases (s.tried == 0)) [
    | inl none_tried ↦ rw none_tried (refl, short)
    | inr tried ↦ rw tried (refl, short)
  ]

  after_round-Stays :
      (i : ℕ) (at : Attempt) (rest : List Attempt) (st : LoopState B)
      (go_on : LoopState B → LoopState B × Outcome) (r : Round)
      → st.shortened ≡ true
      → ((s : LoopState B) → s.shortened ≡ true → Stays s (go_on s).0)
      → Stays st (after_round calls caller i at rest st go_on r).0
  unfolding after_round
  after_round-Stays i at rest st go_on skipped short next = next st short
  after_round-Stays i at rest st go_on unanswered short next =
      next (once_more calls caller st) short
  after_round-Stays i at rest st go_on (refused reason) short next = (refl, short)
  after_round-Stays i at rest st go_on (answer resp via) short next =
      let more = once_more calls caller st in
      let s = shorten_for calls caller i at rest resp.status more in
      elim (Bool-cases (passes_on calls caller (has_next rest) via resp)) [
        | inr stops ↦ rw stops (refl, short)
        | inl on ↦ elim (shorten_for-cases i at rest resp.status more) [
          | inl (same, still) ↦
              let after = next s (still ∙ short) in rw on (after.0 ∙ same, after.1)
          | inr (fresh, short_now, facts) ↦ absurd (cc)
        ]
      ]

  pub rounds-Stays :
      (attempts : List Attempt) (i : ℕ) (st : LoopState B)
      → st.shortened ≡ true
      → Stays st (rounds calls caller i attempts st).0
  unfolding rounds
  rounds-Stays [] i st short = ended-Stays st short
  rounds-Stays (at ∷ rest) i st short =
      after_round-Stays i at rest st (λ s. rounds calls caller (i + 1) rest s)
        (round calls caller i at st.body) short (λ s h. rounds-Stays rest (i + 1) s h)
