-- ===== src/Failover/Loop.antt =====
-- internal/httpapi/v1.go: the rounds of `failover`, and its end.
use intact.Prelude.{
  Bool, str_eq, ℕ, ◌+◌, String, false, not, ◌&&◌, Option, none, some, List, [], ◌∷◌, ltb, ◌==◌,
  if◌then◌else◌,
}
use intact.Prelude.Dict.{Dict}
use intact.Rotation.{Connection}
use intact.Variants.{VariantSet}
use intact.Variants.Attempts.{attempts_for}
use intact.Affinity.{Affinity, Attempt, set, skip_spent}
use intact.Failover.{
  Response, Preparation, ready, skip_account, not_translated, Provider, Calls, Caller, LoopState,
  Outcome, relayed, bad_request, no_usable_account, all_accounts_failed, has_next,
}
use intact.Failover.Shorten.{shorten_for, passes_on}
use intact.Failover.Prepare.{prepare}
use intact.Failover.Sends.{Exchange, round_sends}

-- How a round ends
pub data Round : Type 0 where
  -- the account was left before a send
  skipped : Round
  -- no answer came
  unanswered : Round
  -- an answer, with the provider's shape
  answer : Response → String → Round
  refused : String → Round

abbrev pub as_round : {B : Type 0} → Option (Exchange B) → Round
as_round none = unanswered
as_round (some (p, resp)) = answer resp p.via

module _ {B : Type 0} (calls : Calls B) (caller : Caller) where
  prepared_round : ℕ → Attempt → Provider → String → B → Preparation B → Round
  unfolding round_sends
  prepared_round i at p secret body (ready q) =
      as_round (round_sends calls caller i at p secret body q)
  prepared_round i at p secret body skip_account = skipped
  prepared_round i at p secret body (not_translated reason) = refused reason

  exchanged_round : ℕ → Attempt → Provider → B → Option String → Round
  unfolding prepared_round prepare
  exchanged_round i at p body none = skipped
  exchanged_round i at p body (some secret) =
      prepared_round i at p secret body (prepare calls caller i at p secret false body)

  secret_round : ℕ → Attempt → Provider → B → Option String → Round
  unfolding exchanged_round
  secret_round i at p body none = skipped
  secret_round i at p body (some secret) =
      exchanged_round i at p body (calls.exchanged i at.conn secret)

  provider_round : ℕ → Attempt → B → Option Provider → Round
  unfolding secret_round
  provider_round i at body none = skipped
  provider_round i at body (some p) = secret_round i at p body (calls.secret_for i at.conn)

  -- The round of an attempt, up to the judgement of its answer
  unfoldable pub round : ℕ → Attempt → B → Round
  unfolding provider_round
  round i at body = provider_round i at body (calls.provider_for i at.conn)

  abbrev pub once_more : LoopState B → LoopState B
  once_more st = record st { tried = st.tried + 1 }

  -- After the last round
  abbrev pub ended : LoopState B → LoopState B × Outcome
  ended st = if st.tried == 0 then (st, no_usable_account) else (st, all_accounts_failed)

  -- The state and the outcome after a round, where `go_on` is what the next rounds give
  unfoldable pub after_round :
      ℕ
      → Attempt
      → List Attempt
      → LoopState B
      → (LoopState B → LoopState B × Outcome)
      → Round
      → LoopState B × Outcome
  unfolding shorten_for passes_on
  after_round i at rest st go_on skipped = go_on st
  after_round i at rest st go_on unanswered = go_on (once_more st)
  after_round i at rest st go_on (refused reason) = (st, bad_request reason)
  after_round i at rest st go_on (answer resp via) =
      if passes_on calls caller (has_next rest) via resp
      then go_on (shorten_for calls caller i at rest resp.status (once_more st))
      else (once_more st, relayed at resp)

  -- The loop over the attempts from the index `i` on
  unfoldable pub rounds : ℕ → List Attempt → LoopState B → LoopState B × Outcome
  unfolding after_round round
  rounds i [] st = ended st
  rounds i (at ∷ rest) st =
      after_round i at rest st (λ s. rounds (i + 1) rest s) (round i at st.body)

  abbrev pub start_with : B → LoopState B
  start_with body = record { body = body; shortened = false; tried = 0 }

  unfoldable pub failover_loop : List Attempt → B → LoopState B × Outcome
  unfolding rounds
  failover_loop attempts body = rounds 0 attempts (start_with body)

-- `a.sessions.set`, for a session that an account served
unfoldable pub pin_session : Affinity → String → ℕ → Outcome → Affinity
pin_session sessions key now (relayed at resp) =
    if not (str_eq key "") && ltb resp.status 400 then set sessions key at.conn.id now else sessions
pin_session sessions key now (bad_request reason) = sessions
pin_session sessions key now no_usable_account = sessions
pin_session sessions key now all_accounts_failed = sessions

-- `failover` over the accounts of a request, from the index `start` on: the tries that Variants gives, less
-- the accounts that are spent for the model. `effort` is what effortOf reads of the body.
abbrev unspent : (String → String → Bool) → List Attempt → String → List Attempt
unspent spent attempts model = if str_eq model "" then attempts else skip_spent spent attempts model

module _ {B : Type 0} (calls : Calls B) (caller : Caller) (catalog : String → Dict VariantSet)
    (is_antigravity : Connection → Bool) (effort : B → String)
    (spent : String → String → Bool) where
  unfoldable pub failover : List Connection → ℕ → B → LoopState B × Outcome
  unfolding failover_loop attempts_for skip_spent
  failover targets start body =
      let model = calls.body_model body in
      failover_loop calls caller
        (unspent spent (attempts_for catalog is_antigravity model (effort body) targets start)
          model)
        body
