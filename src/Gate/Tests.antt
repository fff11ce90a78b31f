-- ===== src/Gate/Tests.antt =====
-- Runs of the gates, and their theorems at concrete inputs.
use intact.Prelude.{
  String, str_eq, ◌≡◌, ◌↔◌, ◌⊎◌, refl, true, Option, none, some, [], ◌∷◌, if◌then◌else◌,
}
use intact.Prelude.Dict.{lookup}
use intact.Window.{trim_window}
use intact.KeyLimit.{allow}
use intact.Gate.{
  Principal, Request, Server, ApiKey, goes_on, not_known, owner_of, token_principal, require_admin,
  allows_bare_model, allows_provider_model,
}
use intact.Gate.Models
use intact.Gate.Rights
use intact.Gate.Rights.{IsOperator, OwnsKey}

program : Unit {0}
unfolding token_principal require_admin allows_bare_model allows_provider_model allow trim_window
    lookup
program = tt

abbrev key : ApiKey
key = record { id = "k"; name = "n"; models = "p/m" ∷ []; expires_at = ""; rpm = 1 }

abbrev keys : String → Option ApiKey
keys tok = if str_eq tok "key" then some key else none

abbrev server : Server
server = record {
  auth = some (record { api_token = "master"; valid_session = λ c. str_eq c "signed" });
  key_row = keys;
  parse_time = λ t. none;
}

abbrev with_key : Request
with_key = record { authorization = "Bearer key"; x_api_key = ""; session_cookie = none }

abbrev as_owner : Request
as_owner = record { authorization = "Bearer master"; x_api_key = ""; session_cookie = none }

key_passes : (token_principal server with_key 1 []).1 ≡ goes_on (owner_of key)
unfolding program
key_passes = refl

-- A key is refused by the admin gate.
require_admin-with_key : require_admin server with_key ≡ not_known
unfolding program
require_admin-with_key = refl

token_principal_passes_example :
    (((owner_of key).admin ≡ true) × IsOperator server with_key)
    ⊎ OwnsKey server with_key 1 [] (owner_of key)
unfolding program
token_principal_passes_example =
    Rights.token_principal_passes server with_key 1 [] (owner_of key) refl

require_admin_iff_example :
    (((p : Principal) × (require_admin server as_owner ≡ goes_on p) × (p.admin ≡ true))
      ↔ IsOperator server as_owner)
    × ((require_admin server as_owner ≡ not_known) ⊎ IsOperator server as_owner)
require_admin_iff_example = Rights.require_admin_iff server as_owner

allows_bare_model_lists_example :
    (prov : String) × (allows_provider_model (owner_of key) prov "m" ≡ true)
unfolding program
allows_bare_model_lists_example = Models.allows_bare_model_lists (owner_of key) "m" refl
