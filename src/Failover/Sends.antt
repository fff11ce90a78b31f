-- ===== src/Failover/Sends.antt =====
-- internal/httpapi/v1.go: the sends of one round of `failover`, from a request that is prepared to the
-- answer that is judged; none where the round goes on to the next account.
use intact.Prelude.{
  true, ℕ, String, str_eq, Bool, not, ◌&&◌, Option, none, some, ltb, ◌==◌, if◌then◌else◌,
}
use intact.Affinity.{Attempt}
use intact.Failover.{
  Response, Prepared, Preparation, ready, skip_account, not_translated, Sending, first,
  to_responses, without_reasoning, without_reasoning_again, exchanged_again, refreshed, Calls,
  Caller, Provider,
}
use intact.Failover.Prepare.{as_sent, prepare, edit_chat, filter_for, model_for}

-- A request and its answer
abbrev pub Exchange : Type 0 → Type 0
Exchange B = Prepared B × Response

module _ {B : Type 0} (calls : Calls B) (caller : Caller) (i : ℕ) (at : Attempt)
    (provider : Provider) (secret : String) where
  abbrev answered_by : Prepared B → Option Response → Option (Exchange B)
  answered_by p none = none
  answered_by p (some resp) = some (p, resp)

  abbrev answered_or : Exchange B → Prepared B → Option Response → Exchange B
  answered_or old p none = old
  answered_or old p (some resp) = (p, resp)

  abbrev with_send : Prepared B → B → Prepared B
  with_send p send = record p { send = send }

  -- A Copilot model that answers on /responses only: the request is prepared again.
  -- Where that fails, the request is as the caller sent it, with the answer that was there.
  resend : B → Response → Preparation B → Option (Exchange B)
  resend body resp (ready p) =
      let sent = with_send p (filter_for calls caller i at provider secret p.path p.send) in
      answered_by sent (calls.send_logged i to_responses sent.path secret sent.send)
  resend body resp skip_account = some (as_sent calls caller i at provider secret body, resp)
  resend body resp (not_translated reason) =
      some (as_sent calls caller i at provider secret body, resp)

  unfoldable pub try_responses : B → Exchange B → Option (Exchange B)
  unfolding resend
  try_responses body (p, resp) =
      if str_eq provider.exchange "copilot"
        && resp.status == 400
        && not (str_eq caller.client "")
        && not (str_eq p.path "responses")
        && resp.is_responses_only
      then resend body resp (prepare calls caller i at provider secret true body)
      else some (p, resp)

  -- The turn again without reasoning that another account encrypted
  abbrev stripped_send : Sending → Exchange B → Option B → Exchange B
  stripped_send sending (p, resp) none = (p, resp)
  stripped_send sending (p, resp) (some stripped) =
      answered_or (p, resp) (with_send p stripped)
        (calls.send_logged i sending p.path secret stripped)

  abbrev is_same_shape : Prepared B → Bool
  is_same_shape p = str_eq caller.client "responses" && str_eq p.to ""

  unfoldable pub try_without_reasoning : Exchange B → Exchange B
  try_without_reasoning (p, resp) =
      if is_same_shape p && resp.status == 400 && resp.refuses_reasoning
      then stripped_send without_reasoning (p, resp) (calls.without_encrypted_reasoning p.send)
      else (p, resp)

  -- The same refusal as the first event of a stream
  unfoldable pub try_stream_again : Exchange B → Exchange B
  try_stream_again (p, resp) =
      if is_same_shape p && caller.stream && ltb resp.status 300 && resp.refuses_reasoning_in_stream
      then stripped_send without_reasoning_again (p, resp)
          (calls.without_encrypted_reasoning p.send)
      else (p, resp)

  -- A 401 of an exchanged token, and of a token that can be renewed
  abbrev sent_with : Sending → Exchange B → Option String → Option (Exchange B)
  sent_with sending old none = some old
  sent_with sending (p, resp) (some fresh) =
      answered_by p (calls.send_logged i sending p.path fresh p.send)

  unfoldable pub try_exchanged : Exchange B → Option (Exchange B)
  try_exchanged (p, resp) =
      if resp.status == 401 && not (str_eq provider.exchange "")
      then sent_with exchanged_again (p, resp) (calls.drop_and_exchange i at.conn)
      else some (p, resp)

  abbrev or_string : String → Option String → String
  or_string s none = s
  or_string s (some t) = t

  abbrev fresh_bearer : Option String → Option String
  fresh_bearer none = none
  fresh_bearer (some fresh) =
      if not (str_eq provider.exchange "")
      then some (or_string fresh (calls.exchange_fresh i at.conn fresh))
      else some fresh

  unfoldable pub try_refreshed : Exchange B → Option (Exchange B)
  try_refreshed (p, resp) =
      if resp.status == 401 && calls.is_oauth at.conn
      then sent_with refreshed (p, resp) (fresh_bearer (calls.force_refresh i at.conn))
      else some (p, resp)

  abbrev and_then : (Exchange B → Option (Exchange B)) → Option (Exchange B) → Option (Exchange B)
  and_then next none = none
  and_then next (some x) = next x

  -- From the first answer to the one that is judged
  unfoldable pub settle : B → Exchange B → Option (Exchange B)
  unfolding try_responses try_without_reasoning try_stream_again try_exchanged try_refreshed
  settle body x = and_then try_refreshed (
      and_then (λ y. try_exchanged (try_stream_again (try_without_reasoning y)))
        (try_responses body x))

  abbrev settled_from : B → Prepared B → Option Response → Option (Exchange B)
  settled_from body p none = none
  settled_from body p (some resp) = settle body (p, resp)

  -- All the sends of a round
  unfoldable pub round_sends : B → Prepared B → Option (Exchange B)
  unfolding settle
  round_sends body p =
      let sent = with_send p (
        filter_for calls caller i at provider secret p.path (
          edit_chat calls caller i at provider secret
            (model_for calls caller i at provider secret body) p)) in
      settled_from body sent (calls.send_logged i first sent.path secret sent.send)
