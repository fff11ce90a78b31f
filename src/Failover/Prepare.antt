-- ===== src/Failover/Prepare.antt =====
-- internal/httpapi/v1.go: `prepare` in `failover`, which makes the request that an account's provider
-- takes, the edits before it is sent, and `filterFor`; with `clientShape` and `shapeFor` of shapes.go.
-- A translation is kept for the accounts of one provider; here it is made again, from the same arguments.
use intact.Prelude.{
  ℕ, String, str_eq, Bool, true, false, not, ◌&&◌, ◌||◌, Option, none, some, ◌⊎◌, inl, inr,
  if◌then◌else◌,
}
use intact.Prelude.Text.{trim_code}
use intact.Affinity.{Attempt}
use intact.Failover.{
  always_streams, Prepared, Preparation, ready, skip_account, not_translated, Provider, Calls,
  Caller,
}

-- `clientShape`
shape_named : String → String
shape_named path =
    if str_eq path "chat/completions"
    then "openai"
    else if str_eq path "messages"
    then "anthropic"
    else if str_eq path "responses"
    then "responses"
    else if str_eq path "v1internal:streamGenerateContent"
        || str_eq path "v1internal:generateContent"
    then "antigravity"
    else ""

unfoldable pub client_shape : String → String
unfolding shape_named trim_code
client_shape path = shape_named (trim_code 47 path)

unfoldable pub caller_of : String → Bool → Caller
unfolding client_shape
caller_of path stream = record { path = path; client = client_shape path; stream = stream }

-- `shapeOf`
abbrev pub shape_of : Provider → String
shape_of p = if str_eq p.api "" then "openai" else p.api

-- The path of a shape that intact knows, or ""
abbrev pub path_of : String → String
path_of shape =
    if str_eq shape "antigravity"
    then "v1internal:streamGenerateContent?alt=sse"
    else if str_eq shape "anthropic"
    then "messages"
    else if str_eq shape "responses"
    then "responses"
    else if str_eq shape "openai"
    then "chat/completions"
    else ""

-- `translatable`
unfoldable pub translatable : String → Bool
translatable shape =
    str_eq shape "openai"
    || str_eq shape "anthropic"
    || str_eq shape "responses"
    || str_eq shape "antigravity"

abbrev pub or_default : {A : Type 0} → A → Option A → A
or_default a none = a
or_default a (some b) = b

module _ {B : Type 0} (calls : Calls B) (caller : Caller) (i : ℕ) (at : Attempt) (p : Provider)
    (secret : String) where
  -- `shapeFor`: `learned` once this round has seen that the model answers on /responses only
  unfoldable pub shape_for : Bool → String → String × String
  shape_for learned model =
      if str_eq p.exchange "copilot" && calls.is_claude model
      then ("anthropic", "v1/messages")
      else if str_eq p.exchange "copilot" && (learned || calls.answers_on_responses i model)
      then ("responses", "responses")
      else (shape_of p, path_of (shape_of p))

  -- The model that is asked for
  abbrev pub model_for : B → String
  model_for body = if str_eq at.model "" then calls.body_model body else at.model

  -- The request as the caller sent it
  abbrev pub as_sent : B → Prepared B
  as_sent body = record { path = caller.path; send = body; to = ""; via = ""; collect = false }

  -- The CLI's own envelope, with the account's project and the variant that was picked
  abbrev with_model : B → B
  with_model send =
      if str_eq at.model ""
      then send
      else or_default send (calls.set_top_level_string send "model" at.model)

  abbrev with_project : B → Option B → Preparation B
  with_project body none = not_translated "the Code Assist request names no project"
  with_project body (some send) = ready (record (as_sent body) { send = with_model send })

  unfoldable pub prepare_envelope : B → Option String → Preparation B
  prepare_envelope body none = skip_account
  prepare_envelope body (some project) =
      with_project body (calls.set_top_level_string body "project" project)

  -- A provider of the caller's own shape
  abbrev collected : Prepared B → Option B → Prepared B
  collected same none = same
  collected same (some streamed) = record same { send = streamed; collect = true }

  unfoldable pub prepare_same : B → String → String → Preparation B
  unfolding always_streams
  prepare_same body want want_path =
      let same = record (as_sent body) {
        path = if str_eq want_path "" then caller.path else want_path;
      } in
      if str_eq caller.client "responses" && always_streams want && not caller.stream
      then ready (collected same (calls.with_stream body))
      else ready same

  -- An account of Antigravity, for a caller of another shape
  translated_to : String → String → B → Preparation B
  translated_to want want_path send =
      ready
        (record { path = want_path; send = send; to = caller.client; via = want; collect = false })

  abbrev in_envelope : String → String → Option B → Preparation B
  in_envelope want want_path none = skip_account
  in_envelope want want_path (some env) = translated_to want want_path env

  prepare_inner : String → String → String → String ⊎ B → Preparation B
  unfolding translated_to
  prepare_inner model want want_path (inl reason) = not_translated reason
  prepare_inner model want want_path (inr inner) =
      in_envelope want want_path (calls.antigravity_envelope i at.conn secret model inner)

  prepare_gemini : String → String → String → String ⊎ B → Preparation B
  unfolding prepare_inner
  prepare_gemini model want want_path (inl reason) = not_translated reason
  prepare_gemini model want want_path (inr hub) =
      prepare_inner model want want_path (calls.openai_to_gemini hub)

  -- Every other pair of shapes
  prepare_other : String → String → String ⊎ B → Preparation B
  unfolding translated_to
  prepare_other want want_path (inl reason) = not_translated reason
  prepare_other want want_path (inr send) = translated_to want want_path send

  -- `prepare`, for the provider's shape and path
  unfoldable pub prepare_for : B → String × String → Preparation B
  unfolding translatable prepare_envelope prepare_same prepare_gemini prepare_other
  prepare_for body (want, want_path) =
      if str_eq caller.client "" || not (translatable want)
      then ready (as_sent body)
      else if str_eq want caller.client && str_eq want "antigravity"
      then prepare_envelope body (calls.antigravity_project i at.conn secret)
      else if str_eq want caller.client
      then prepare_same body want want_path
      else if str_eq caller.client "antigravity"
      then not_translated "a Code Assist request reaches only an Antigravity account"
      else if str_eq want "antigravity"
      then prepare_gemini (model_for body) want want_path
          (calls.to_provider body caller.client "openai" p.id)
      else prepare_other want want_path (calls.to_provider body caller.client want p.id)

  unfoldable pub prepare : Bool → B → Preparation B
  unfolding prepare_for shape_for
  prepare learned body = prepare_for body (shape_for learned (model_for body))

  -- The edits of a chat request for a provider of that shape
  unfoldable pub edit_chat : String → Prepared B → B
  unfolding shape_for
  edit_chat model q =
      if str_eq q.to ""
        && str_eq caller.client "openai"
        && str_eq (shape_for false model).0 "openai"
      then calls.without_duplicate_reasoning
          (calls.shorten_chat_tool_names (calls.with_usage q.send))
      else q.send

  -- `filterFor`
  unfoldable pub filter_for : String → B → B
  filter_for path body =
      let ruled =
        if calls.is_bifrost p
        then body
        else calls.apply_rules at.conn.provider (calls.adjust_for_provider p body) in
      if str_eq path "messages" || str_eq path "v1/messages"
      then calls.without_unsigned_thinking (calls.without_blank_text ruled)
      else ruled
