-- ===== src/Failover/Tests.antt =====
-- Requests over three accounts, and the theorems at concrete inputs.
use intact.Prelude.{
  str_eq, inl, inr, str_append, ℕ, String, true, false, ◌≡◌, refl, Option, none, some, List, [],
  ◌∷◌, get_elem?,
}
use intact.Prelude.Dict.{lookup, insert}
use intact.Rotation.{Connection, rotate_round_robin}
use intact.Variants.Attempts.{picked_for}
use intact.Affinity.{Affinity, Attempt, set_entry}
use intact.Failover.{
  absent, Response, ready, Calls, Caller, relayed, no_usable_account, all_accounts_failed,
  account_refusal, retryable_status,
}
use intact.Failover.Prepare.{prepare, caller_of}
use intact.Failover.Loop.{start_with, round, failover_loop, failover, pin_session}
use intact.Failover.Ends.{Explains, failover_loop-Explains}
use intact.Failover.Once.{IsOnce, failover_loop-IsOnce}

program : Unit {0}
unfolding picked_for failover prepare caller_of failover_loop round account_refusal retryable_status
    pin_session lookup insert
program = tt

abbrev conn : String → Connection
conn id = record {
  id = id;
  provider = "p";
  label = "";
  is_active = true;
  standby = false;
  base_url = "";
  meta = [];
}

abbrev try_of : String → Attempt
try_of id = record { conn = conn id; model = "" }

abbrev attempts : List Attempt
attempts = try_of "a" ∷ try_of "b" ∷ try_of "c" ∷ []

abbrev with_status : ℕ → Response
with_status status = record {
  status = status;
  is_responses_only = false;
  refuses_reasoning = false;
  refuses_reasoning_in_stream = false;
  has_first_byte = true;
}

abbrev or_none : Option ℕ → Option Response
or_none none = none
or_none (some status) = some (with_status status)

-- Accounts that give these statuses to their first send; a missing one gives no answer.
abbrev answering : List ℕ → Calls String
answering statuses = record {
  provider_for = λ i c. some (record { id = "p"; api = "anthropic"; exchange = "" });
  secret_for = λ i c. some "secret";
  exchanged = λ i c secret. some secret;
  body_model = λ body. "m";
  is_claude = λ model. false;
  answers_on_responses = λ i model. false;
  antigravity_project = λ i c secret. none;
  antigravity_envelope = λ i c secret model inner. none;
  set_top_level_string = λ body key value. none;
  with_stream = λ body. none;
  to_provider = λ body client want id. inr (str_append want body);
  openai_to_gemini = λ body. inl "no";
  with_usage = λ body. body;
  shorten_chat_tool_names = λ body. body;
  without_duplicate_reasoning = λ body. body;
  is_bifrost = λ p. false;
  adjust_for_provider = λ p body. body;
  apply_rules = λ p body. body;
  without_blank_text = λ body. body;
  without_unsigned_thinking = λ body. body;
  without_encrypted_reasoning = λ body. none;
  send_logged = λ i sending path secret body. or_none (get_elem? statuses i);
  drop_and_exchange = λ i c. none;
  is_oauth = λ c. false;
  force_refresh = λ i c. none;
  exchange_fresh = λ i c fresh. none;
  compact_setting = λ i. absent;
  rotation_mode = λ i p. rotate_round_robin;
  body_length = λ body. 30000;
  compact_conversation = λ p body. some "short";
}

abbrev caller : Caller
caller = record { path = "messages"; client = "anthropic"; stream = false }

reads_the_path : caller_of "/messages/" false ≡ record caller { path = "/messages/" }
unfolding program
reads_the_path = refl

-- A chat request for a provider of the other shape
translates :
    prepare
      (answering [])
      (caller_of "chat/completions" false)
      0
      (try_of "a")
      (record { id = "p"; api = "anthropic"; exchange = "" })
      "secret"
      false
      ": body"
    ≡ ready (record {
      path = "messages";
      send = "anthropic: body";
      to = "openai";
      via = "anthropic";
      collect = false;
    })
unfolding program
translates = refl

busy_twice : failover_loop (answering (429 ∷ 429 ∷ 200 ∷ [])) caller attempts "long" ≡ (
  record { body = "short"; shortened = true; tried = 3 },
  relayed (try_of "c") (with_status 200),
)
unfolding program
busy_twice = refl

last_refusal_is_relayed :
    failover_loop (answering (401 ∷ 500 ∷ 403 ∷ [])) caller attempts "long" ≡ (
      record { body = "long"; shortened = false; tried = 3 },
      relayed (try_of "c") (with_status 403),
    )
unfolding program
last_refusal_is_relayed = refl

nothing_answers : (failover_loop (answering []) caller attempts "long").1 ≡ all_accounts_failed
unfolding program
nothing_answers = refl

no_account : (failover_loop (answering []) caller [] "long").1 ≡ no_usable_account
unfolding program
no_account = refl

-- The account whose model is spent is passed over, and the round starts at the second account.
from_the_second :
    (failover
      (answering (200 ∷ []))
      caller
      (λ p. [])
      (λ c. false)
      (λ body. "")
      (λ id model. str_eq id "b")
      (conn "a" ∷ conn "b" ∷ conn "c" ∷ [])
      1
      "long").1
    ≡ relayed (try_of "c") (with_status 200)
unfolding program
from_the_second = refl

failover_loop-Explains_example :
    Explains
      (answering (429 ∷ 429 ∷ 200 ∷ []))
      caller
      0
      attempts
      (start_with (answering (429 ∷ 429 ∷ 200 ∷ [])) caller "long")
      (failover_loop (answering (429 ∷ 429 ∷ 200 ∷ [])) caller attempts "long").1
failover_loop-Explains_example =
    failover_loop-Explains (answering (429 ∷ 429 ∷ 200 ∷ [])) caller attempts "long"

failover_loop-IsOnce_example :
    IsOnce
      (answering (429 ∷ 429 ∷ 200 ∷ []))
      caller
      0
      attempts
      (start_with (answering (429 ∷ 429 ∷ 200 ∷ [])) caller "long")
      (failover_loop (answering (429 ∷ 429 ∷ 200 ∷ [])) caller attempts "long").0
failover_loop-IsOnce_example =
    failover_loop-IsOnce (answering (429 ∷ 429 ∷ 200 ∷ [])) caller attempts "long"

abbrev pinned : Affinity
pinned = ("session", record { conn = "c"; seen = 7 }) ∷ []

serves_pin : pin_session [] "session" 7 (relayed (try_of "c") (with_status 200)) ≡ pinned
unfolding program set_entry
serves_pin = refl

error_does_not_pin : pin_session [] "session" 7 (relayed (try_of "c") (with_status 400)) ≡ []
unfolding program
error_does_not_pin = refl
