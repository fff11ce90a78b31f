-- ===== src/SignIn/Tests.antt =====
-- Sign-ins, and the theorems at concrete inputs.
use intact.Prelude.{
  ℕ, ◌*◌, ◌/◌, ◌%◌, ◌<◌, String, str_append, Bool, true, false, ◌≡◌, refl, Option, none, some, List,
  [], ◌∷◌, ◌⊎◌, arith, ltb,
}
use intact.Prelude.Decimal.{parse_int}
use intact.Prelude.Text.{cut_code, trim_space}
use intact.Prelude.Cuts.{Without}
use intact.Prelude.Dict.{lookup, insert, delete}
use intact.Window.{second, trim_window}
use intact.LoginGuard.{
  new_login_guard, lane_local, lane_device, reserve, refund, store, without_last,
}
use intact.SignIn.{
  code_of_sum, six_digits, code_at, check_code_at, sign_session, valid_session, device_id,
  issue_session,
}
use intact.SignIn.Submit.{
  LoginRequest, SignInConfig, SignInState, LoginAnswer, signed_in, wrong_code, login_source_of,
  login_submit, set_device_cookie,
}
use intact.SignIn.Cookies.{valid_session-sign_session, valid_session-signed}
use intact.SignIn.Codes.{codes_used, Rising, codes_used-Rising}
use intact.SignIn.Runs.{LoginCall, sign_ins, AreAllowed, sign_ins-AreAllowed}
use intact.SignIn.Sound.{login_submit-lets_in, login_submit-keeps_device}

program : Unit {0}
unfolding code_of_sum six_digits check_code_at sign_session issue_session sign_ins valid_session
    device_id reserve refund store lookup insert delete trim_window login_submit trim_space cut_code
    without_last Without codes_used
program = tt

-- The sum of RFC 4226, section 5.4
code_of_rfc :
    six_digits (
      code_of_sum (
        31 ∷ 134 ∷ 152 ∷ 105 ∷ 14 ∷ 2 ∷ 202 ∷ 22 ∷ 97 ∷ 133 ∷ 80 ∷ 239 ∷ 127 ∷ 25 ∷ 218 ∷ 142 ∷ 148
        ∷ 91 ∷ 85 ∷ 90 ∷ []))
    ≡ "872921"
unfolding program
code_of_rfc = refl

-- A sum that gives the counter as the code
abbrev counter_sum : ℕ → List ℕ
counter_sum n = 0 ∷ 0 ∷ 0 ∷ (n % 256) ∷ 0 ∷ []

abbrev marked : String → String
marked s = str_append "signed " s

abbrev config : SignInConfig
config = record { hmac = some counter_sum; sign = marked; ttl_seconds = 100 }

abbrev no_address : String → Option Bool
no_address s = none

abbrev start : SignInState
start = record { login = new_login_guard false; last_step = 0 }

abbrev request : LoginRequest
request = record {
  remote = "10.0.0.9";
  cf_connecting_ip = "";
  x_forwarded_for = "";
  device_cookie = none;
  form = some " 000002 ";
}

abbrev noon : ℕ
noon = 75 * second

abbrev session : String
session = "175.signed 175"

abbrev device : String
device = "a1.signed a1"

abbrev opened : SignInState × LoginAnswer
opened = (record { login = new_login_guard false; last_step = 2 }, signed_in session device)

signs_in : login_submit no_address (some config) start request "a1" noon ≡ opened
unfolding program
signs_in = refl

-- The same code again
used_code : (login_submit no_address (some config) opened.0 request "a2" noon).1 ≡ wrong_code
unfolding program
used_code = refl

valid_session-sign_session_example :
    valid_session marked (sign_session marked 175) 174 ≡ ltb 174 175
valid_session-sign_session_example = valid_session-sign_session marked 175 174 (omega arith)

session_is_valid : valid_session marked "175.signed 175" 174 ≡ true
unfolding program
session_is_valid = refl

valid_session-signed_example :
    (payload : String) × ((exp : ℕ) × (("175.signed 175"
          ≡ str_append payload (str_append "." (marked payload)))
        × (parse_int payload ≡ some (false, exp))
        × (174 < exp)))
valid_session-signed_example = valid_session-signed marked "175.signed 175" 174 session_is_valid

codes_used-Rising_example : Rising (some counter_sum) 0 (
    codes_used
      (some counter_sum)
      0
      (("000002", 75) ∷ ("000002", 76) ∷ ("000003", 76) ∷ ("000002", 80) ∷ []))
codes_used-Rising_example =
    codes_used-Rising (some counter_sum) 0
      (("000002", 75) ∷ ("000002", 76) ∷ ("000003", 76) ∷ ("000002", 80) ∷ [])

codes_of_run :
    codes_used
      (some counter_sum)
      0
      (("000002", 75) ∷ ("000002", 76) ∷ ("000003", 76) ∷ ("000002", 80) ∷ [])
    ≡ record { code = "000002"; now = 75; step = 2 }
      ∷ record { code = "000003"; now = 76; step = 3 }
      ∷ []
unfolding program
codes_of_run = refl

abbrev call_at : ℕ → LoginCall
call_at now = record { request = request; new_id = "a1"; now = now }

-- The same code twice
abbrev two_calls : List LoginCall
two_calls = call_at noon ∷ call_at (76 * second) ∷ []

one_sign_in :
    sign_ins no_address config start two_calls
    ≡ record { call = call_at noon; before = start; step = 2; session = session } ∷ []
unfolding program
one_sign_in = refl

sign_ins-AreAllowed_example :
    AreAllowed no_address config 0 (sign_ins no_address config start two_calls)
sign_ins-AreAllowed_example = sign_ins-AreAllowed no_address config start two_calls

attempt_admitted :
    (reserve start.login (login_source_of no_address marked false request) noon).1 ≡ true
unfolding program
attempt_admitted = refl

code_is_right : trim_space " 000002 " ≡ code_at counter_sum (noon / second)
unfolding program
code_is_right = refl

login_submit-lets_in_example :
    ((login_submit no_address (some config) start request "a1" noon).1
      ≡ signed_in (issue_session marked (noon / second) 100) (set_device_cookie marked "a1" none))
    × ((login_submit no_address (some config) start request "a1" noon).0.last_step ≡ 2)
login_submit-lets_in_example =
    login_submit-lets_in no_address config start request "a1" noon counter_sum " 000002 " refl refl
      attempt_admitted code_is_right (omega arith)

hex_id : Without 46 "a1"
unfolding program
hex_id = (omega arith, (omega arith, tt))

abbrev later : LoginRequest
later = record request { device_cookie = some device; x_forwarded_for = "8.8.8.8" }

login_submit-keeps_device_example :
    (login_source_of no_address marked true later ≡ lane_local)
    ⊎ ((id : String) × (login_source_of no_address marked true later ≡ lane_device id))
login_submit-keeps_device_example =
    login_submit-keeps_device no_address config start request "a1" noon opened.0 session device
      later true hex_id refl signs_in refl
