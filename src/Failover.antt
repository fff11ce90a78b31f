-- ===== src/Failover.antt =====
-- internal/httpapi/v1.go: the loop of `failover` over the accounts of a request.
-- What the loop calls is in `Calls`, as what each call answers in the round of an account: the
-- credentials, the translations and edits of a body, the shortening of a history and the sends. `B` is
-- a request's body. The maps of tool names and the relay of the answer's bytes are left out.
pub mod Prepare
pub mod Sends
pub mod Shorten
pub mod Loop
pub mod Turns
pub mod Shortened
pub mod Once
pub mod Ends
mod Tests
use intact.Prelude.{
  ◌⊎◌, ℕ, zero, suc, ◌+◌, String, str_eq, Bool, true, false, not, ◌&&◌, ◌||◌, Option, none, some,
  List, [], ◌∷◌, map, ltb, ◌==◌, if◌then◌else◌,
}
use intact.Prelude.Int.{ℤ}
use intact.Rotation.{Connection}
use intact.Affinity.{Affinity, Attempt, set}

-- `retryableStatus`
unfoldable pub retryable_status : ℕ → Bool
retryable_status code =
    code == 429
    || code == 404
    || code == 408
    || code == 500
    || code == 502
    || code == 503
    || code == 504
    || code == 529
    || code == 409

-- `accountRefusal`
unfoldable pub account_refusal : ℕ → Bool
account_refusal code = code == 401 || code == 402 || code == 403

-- `alwaysStreams`
unfoldable pub always_streams : String → Bool
always_streams shape = str_eq shape "responses" || str_eq shape "antigravity"

-- What the loop reads of an answer: its status, what its body says of the model and of the reasoning, as
-- a refusal or as the first event of a stream, and whether a byte of it comes.
pub record Response : Type 0 where
  pub status : ℕ
  pub is_responses_only : Bool
  pub refuses_reasoning : Bool
  pub refuses_reasoning_in_stream : Bool
  pub has_first_byte : Bool

-- What `prepare` sets
pub record Prepared (B : Type 0) : Type 0 where
  pub path : String
  pub send : B
  pub to : String
  pub via : String
  pub collect : Bool

pub data Preparation (B : Type 0) : Type 0 where
  ready : Prepared B → Preparation B
  skip_account : Preparation B
  not_translated : String → Preparation B

-- The sends of one round, in their order
pub data Sending : Type 0 where
  first : Sending
  to_responses : Sending
  without_reasoning : Sending
  without_reasoning_again : Sending
  exchanged_again : Sending
  refreshed : Sending

-- What the loop reads of a `Provider` of internal/provider/registry.go
pub record Provider : Type 0 where
  pub id : String
  pub api : String
  pub exchange : String

-- `compactPolicy` of internal/httpapi/compact.go, and the setting: none is stored, one that does not parse,
-- or one that does
pub record CompactPolicy : Type 0 where
  pub enabled : Option Bool
  pub marker_on : Option Bool
  pub keep_recent : ℤ
  pub head_bytes : ℤ
  pub user_bytes : ℤ
  pub assistant_bytes : ℤ
  pub min_bytes : ℤ

pub data CompactSetting : Type 0 where
  absent : CompactSetting
  unparsed : CompactSetting
  parsed : CompactPolicy → CompactSetting

-- The calls of the round of an attempt, by its index. A failed translation has its error's text.
pub record Calls (B : Type 0) : Type 0 where
  pub provider_for : ℕ → Connection → Option Provider
  pub secret_for : ℕ → Connection → Option String
  pub exchanged : ℕ → Connection → String → Option String
  pub body_model : B → String
  -- the regular expression `copilotClaude`, and the models that are known to answer on /responses
  pub is_claude : String → Bool
  pub answers_on_responses : ℕ → String → Bool
  pub antigravity_project : ℕ → Connection → String → Option String
  pub antigravity_envelope : ℕ → Connection → String → String → B → Option B
  pub set_top_level_string : B → String → String → Option B
  pub with_stream : B → Option B
  pub to_provider : B → String → String → String → String ⊎ B
  pub openai_to_gemini : B → String ⊎ B
  pub with_usage : B → B
  pub shorten_chat_tool_names : B → B
  pub without_duplicate_reasoning : B → B
  -- `Bifrost` of the caller's agent, and the edits of `filterFor`
  pub is_bifrost : Provider → Bool
  pub adjust_for_provider : Provider → B → B
  pub apply_rules : String → B → B
  pub without_blank_text : B → B
  pub without_unsigned_thinking : B → B
  pub without_encrypted_reasoning : B → Option B
  pub send_logged : ℕ → Sending → String → String → B → Option Response
  pub drop_and_exchange : ℕ → Connection → Option String
  pub is_oauth : Connection → Bool
  pub force_refresh : ℕ → Connection → Option String
  pub exchange_fresh : ℕ → Connection → String → Option String
  -- the stored setting, the rotation of a provider, and `compactConversation`
  pub compact_setting : ℕ → CompactSetting
  pub rotation_mode : ℕ → String → String
  pub body_length : B → ℕ
  pub compact_conversation : CompactPolicy → B → Option B

-- What the loop knows of the request: its path, the shape of its caller, and whether it asks for a stream
pub record Caller : Type 0 where
  pub path : String
  pub client : String
  pub stream : Bool

-- The loop's variables
pub record LoopState (B : Type 0) : Type 0 where
  pub body : B
  pub shortened : Bool
  pub tried : ℕ

pub data Outcome : Type 0 where
  relayed : Attempt → Response → Outcome
  bad_request : String → Outcome
  no_usable_account : Outcome
  all_accounts_failed : Outcome

abbrev pub has_next : List Attempt → Bool
has_next [] = false
has_next (next ∷ rest) = true
