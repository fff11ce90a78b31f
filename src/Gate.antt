-- ===== src/Gate.antt =====
-- internal/httpapi/principal.go and the gates of internal/httpapi/server.go: who a request is, and
-- which models it may call. The table of keys, the clock's parser and the session check are fields
-- of the server; the limiter is the state of KeyLimit.
pub mod Models
pub mod Rights
mod Tests
use intact.Prelude.{
  ℕ, ◌+◌, ◌-◌, String, str_append, str_eq, Bool, true, false, not, ◌&&◌, ◌||◌, Option, none, some,
  List, [], ◌∷◌, ltb, leb, if◌then◌else◌,
}
use intact.Prelude.Text.{cut_prefix, cut_code}
use intact.KeyLimit.{Limiter, Answer, allowed, refused, allow}

pub record Principal : Type 0 where
  pub admin : Bool
  pub key_id : String
  pub name : String
  pub models : List String

-- slices.Contains
unfoldable pub contains : List String → String → Bool
contains [] s = false
contains (x ∷ xs) s = str_eq x s || contains xs s

abbrev pub is_nil : List String → Bool
is_nil [] = true
is_nil (x ∷ xs) = false

unfoldable pub allows_all_models : Principal → Bool
unfolding contains
allows_all_models p = str_eq p.key_id "" || is_nil p.models || contains p.models "*"

unfoldable pub allows_provider_model : Principal → String → String → Bool
unfolding allows_all_models
allows_provider_model p prov model =
    allows_all_models p || contains p.models (str_append prov (str_append "/" model))

abbrev pub is_after_slash : String → Option (String × String) → Bool
is_after_slash model none = false
is_after_slash model (some cut) = str_eq cut.1 model

unfoldable pub names_model : List String → String → Bool
unfolding cut_code
names_model [] model = false
names_model (m ∷ ms) model = is_after_slash model (cut_code 47 m) || names_model ms model

unfoldable pub allows_bare_model : Principal → String → Bool
unfolding allows_all_models names_model
allows_bare_model p model = allows_all_models p || names_model p.models model

unfoldable pub allows_model : Principal → String → String → String → Bool
unfolding allows_provider_model allows_bare_model
allows_model p prov upstream_model model =
    if not (str_eq prov "")
    then allows_provider_model p prov upstream_model
    else allows_bare_model p model

-- What a gate reads of a request.
pub record Request : Type 0 where
  pub authorization : String
  pub x_api_key : String
  pub session_cookie : Option String

pub record Config : Type 0 where
  pub api_token : String
  pub valid_session : String → Bool

pub record ApiKey : Type 0 where
  pub id : String
  pub name : String
  pub models : List String
  pub expires_at : String
  -- 0 where the row's number is not positive
  pub rpm : ℕ

pub record Server : Type 0 where
  pub auth : Option Config
  -- the enabled key of a token
  pub key_row : String → Option ApiKey
  pub parse_time : String → Option ℕ

-- `CheckAPIToken`
abbrev pub is_api_token : Config → Option String → Bool
is_api_token c none = false
is_api_token c (some got) = not (str_eq got "") && str_eq got c.api_token

unfoldable pub check_api_token : Config → String → Bool
unfolding cut_prefix
check_api_token c header = is_api_token c (cut_prefix "Bearer " header)

abbrev pub or_key : String → Option String → String
or_key key none = key
or_key key (some b) = b

unfoldable pub bearer_token : Request → String
unfolding cut_prefix
bearer_token r = or_key r.x_api_key (cut_prefix "Bearer " r.authorization)

abbrev pub is_past : ℕ → Option ℕ → Bool
is_past now none = true
is_past now (some t) = leb t now

-- `Expired`
unfoldable pub is_expired : (String → Option ℕ) → ApiKey → ℕ → Bool
is_expired parse_time k now =
    if str_eq k.expires_at "" then false else is_past now (parse_time k.expires_at)

-- `APIKeyByToken`
unfoldable pub api_key_by_token : Server → String → Option ApiKey
api_key_by_token s tok = if str_eq tok "" then none else s.key_row tok

unfoldable pub is_master : Option Config → String → Bool
unfolding check_api_token
is_master none tok = false
is_master (some c) tok = not (str_eq tok "") && check_api_token c (str_append "Bearer " tok)

abbrev pub has_session : Option Config → Option String → Bool
has_session none cookie = false
has_session (some c) none = false
has_session (some c) (some value) = c.valid_session value

abbrev pub is_off : Option Config → Bool
is_off none = true
is_off (some c) = false

-- What a gate answers: the request goes on, or the refusal.
pub data Outcome : Type 0 where
  goes_on : Principal → Outcome
  -- 401
  key_expired : Outcome
  -- 429, with the wait
  over_limit : ℕ → Outcome
  -- 401 or 403
  not_known : Outcome
  -- a panic of the limiter
  panics : Outcome

abbrev pub admin_named : String → Principal
admin_named name = record { admin = true; key_id = ""; name = name; models = [] }

abbrev pub owner_of : ApiKey → Principal
owner_of k = record { admin = false; key_id = k.id; name = k.name; models = k.models }

limited : ApiKey → Limiter × Option Answer → Limiter × Outcome
limited k (l, none) = (l, panics)
limited k (l, some allowed) = (l, goes_on (owner_of k))
limited k (l, some (refused wait)) = (l, over_limit wait)

by_key : Server → Request → ℕ → Limiter → Option ApiKey → Limiter × Outcome
unfolding limited is_expired
by_key s r now l none =
    if has_session s.auth r.session_cookie
    then (l, goes_on (admin_named "session"))
    else if is_off s.auth
    then (l, goes_on (admin_named ""))
    else (l, not_known)
by_key s r now l (some k) =
    if is_expired s.parse_time k now
    then (l, key_expired)
    else if ltb 0 k.rpm
    then limited k (allow l k.id k.rpm now)
    else (l, goes_on (owner_of k))

-- `tokenPrincipal`, and `requireToken`, which calls the handler where it answers a principal.
unfoldable pub token_principal : Server → Request → ℕ → Limiter → Limiter × Outcome
unfolding by_key bearer_token is_master api_key_by_token
token_principal s r now l =
    let tok = bearer_token r in
    if is_master s.auth tok
    then (l, goes_on (admin_named "env"))
    else by_key s r now l (api_key_by_token s tok)

unfoldable pub require_admin : Server → Request → Outcome
unfolding bearer_token is_master
require_admin s r =
    if is_off s.auth
    then goes_on (admin_named "")
    else if has_session s.auth r.session_cookie
    then goes_on (admin_named "")
    else if is_master s.auth (bearer_token r)
    then goes_on (admin_named "env")
    else not_known
