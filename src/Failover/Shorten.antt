-- ===== src/Failover/Shorten.antt =====
-- internal/httpapi/compact.go: when a conversation is shortened for a 429, and the judgement of an answer
-- in `failover` of internal/httpapi/v1.go. `compactConversation` itself is an argument.
use intact.Prelude.{
  ℕ, String, str_eq, Bool, true, false, not, ◌&&◌, ◌||◌, Option, none, some, List, [], ◌∷◌, map,
  ltb, ◌==◌, if◌then◌else◌,
}
use intact.Prelude.Int.{ℤ, pos, negsuc, below}
use intact.Rotation.{Connection, rotate_round_robin}
use intact.Affinity.{Attempt}
use intact.Failover.{
  CompactPolicy, CompactSetting, absent, unparsed, parsed, Response, Calls, Caller, LoopState,
  retryable_status, account_refusal, always_streams,
}

abbrev pub conn_of : Attempt → Connection
conn_of at = at.conn

-- `on`
abbrev pub is_on : Option Bool → Bool
is_on none = true
is_on (some enabled) = enabled

-- n <= 0
abbrev or_positive : ℤ → ℕ → ℤ
or_positive n standard = if below n 1 then pos standard else n

-- `withDefaults`
unfoldable pub with_defaults : CompactPolicy → CompactPolicy
with_defaults p = record p {
  keep_recent =
      if below p.keep_recent 1 || not (below p.keep_recent 100001) then pos 6 else p.keep_recent;
  head_bytes = or_positive p.head_bytes 6000;
  user_bytes = or_positive p.user_bytes 3000;
  assistant_bytes = or_positive p.assistant_bytes 1500;
  min_bytes = or_positive p.min_bytes 24000;
}

abbrev no_policy : CompactPolicy
no_policy = record {
  enabled = none;
  marker_on = none;
  keep_recent = pos 0;
  head_bytes = pos 0;
  user_bytes = pos 0;
  assistant_bytes = pos 0;
  min_bytes = pos 0;
}

-- `rateLimitCompact`
unfoldable pub rate_limit_compact : CompactSetting → CompactPolicy
unfolding with_defaults
rate_limit_compact absent = with_defaults no_policy
rate_limit_compact unparsed = record no_policy { enabled = some false }
rate_limit_compact (parsed p) = with_defaults p

-- len(body) < p.MinBytes
abbrev is_less : ℕ → ℤ → Bool
is_less n (pos m) = ltb n m
is_less n (negsuc m) = false

-- Some account is not a standby.
unfoldable pub is_ready : List Connection → Bool
is_ready [] = false
is_ready (c ∷ rest) = not c.standby || is_ready rest

module _ {B : Type 0} (calls : Calls B) where
  -- `compactForRateLimit`
  unfoldable pub compact_for_rate_limit : ℕ → Connection → List Connection → B → Option B
  unfolding rate_limit_compact is_ready
  compact_for_rate_limit i conn [] body = none
  compact_for_rate_limit i conn (c ∷ rest) body =
      let p = rate_limit_compact (calls.compact_setting i) in
      if str_eq (calls.body_model body) ""
      then none
      else if not (is_on p.enabled) || is_less (calls.body_length body) p.min_bytes
      then none
      else if not (str_eq (calls.rotation_mode i conn.provider) rotate_round_robin)
      then none
      else if not (is_ready (c ∷ rest))
      then none
      else calls.compact_conversation p body

module _ {B : Type 0} (calls : Calls B) (caller : Caller) where
  abbrev or_body : B → Option B → B
  or_body body none = body
  or_body body (some shorter) = shorter

  abbrev is_some : Option B → Bool
  is_some none = false
  is_some (some b) = true

  -- The state after the shortening, when there was one
  abbrev pub with_shorter : LoopState B → Option B → LoopState B
  with_shorter st shorter = record st {
    body = or_body st.body shorter;
    shortened = st.shortened || is_some shorter;
  }

  -- The shortening for a 429, before the next attempt
  unfoldable pub shorten_for : ℕ → Attempt → List Attempt → ℕ → LoopState B → LoopState B
  unfolding compact_for_rate_limit
  shorten_for i at [] status st = st
  shorten_for i at (next ∷ rest) status st =
      if status == 429
        && not st.shortened
        && not (str_eq next.conn.id at.conn.id)
        && not next.conn.standby
      then with_shorter st
          (compact_for_rate_limit calls i at.conn (map conn_of (next ∷ rest)) st.body)
      else st

  -- The next account takes the request after this answer.
  unfoldable pub passes_on : Bool → String → Response → Bool
  unfolding retryable_status account_refusal always_streams
  passes_on more via resp =
      more
      && (account_refusal resp.status
          || retryable_status resp.status
          || ltb resp.status 300
            && (caller.stream || always_streams via)
            && not resp.has_first_byte)
