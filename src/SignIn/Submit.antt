-- ===== src/SignIn/Submit.antt =====
-- internal/httpapi/auth_handlers.go: `loginSubmit` and `setDeviceCookie`, and the source of an attempt
-- in loginguard.go.
-- `loopback_ip` is net.ParseIP with IsLoopback: none for a text that is no address. The random id of
-- a new device is an argument. The handler runs as one step on the guard and the last code's step, and
-- one time stands for the clock's readings in it.
use intact.Prelude.{
  ℕ, ◌+◌, ◌/◌, String, str_eq, Bool, not, ◌&&◌, ◌||◌, Option, none, some, List, if◌then◌else◌,
}
use intact.Prelude.Text.{cut_code, cut_prefix, trim_suffix, or_whole, trim_space}
use intact.Window.{second}
use intact.LoginGuard.{
  LoginGuard, LoginSource, lane_local, lane_device, lane_public, reserve, refund,
}
use intact.SignIn.{check_code_at, issue_session, issue_device, device_id}

-- What the handler reads of a request: the connection's address without its port, two headers (empty
-- when absent), the device cookie, and the code of the form (none for a form that does not parse).
pub record LoginRequest : Type 0 where
  pub remote : String
  pub cf_connecting_ip : String
  pub x_forwarded_for : String
  pub device_cookie : Option String
  pub form : Option String

-- `SignInConfig` of internal/auth, without its last step
pub record SignInConfig : Type 0 where
  pub hmac : Option (ℕ → List ℕ)
  pub sign : String → String
  pub ttl_seconds : ℕ

abbrev loopback_or_name : String → Option Bool → Bool
loopback_or_name host none = str_eq host "localhost"
loopback_or_name host (some is_loopback) = is_loopback

unfoldable pub loopback_addr : (String → Option Bool) → String → Bool
unfolding cut_prefix trim_suffix
loopback_addr loopback_ip host =
    let bare = trim_suffix "]" (or_whole host (cut_prefix "[" host)) in
    loopback_or_name bare (loopback_ip bare)

abbrev before_sep : String → Option (String × String) → String
before_sep s none = s
before_sep s (some (before, after)) = before

unfoldable pub client_ip : (String → Option Bool) → LoginRequest → String
unfolding loopback_addr cut_code trim_space
client_ip loopback_ip r =
    let cf = trim_space r.cf_connecting_ip in
    let first = trim_space (before_sep r.x_forwarded_for (cut_code 44 r.x_forwarded_for)) in
    if not (loopback_addr loopback_ip r.remote)
    then r.remote
    else if not (str_eq cf "")
    then cf
    else if not (str_eq r.x_forwarded_for "") && not (str_eq first "")
    then first
    else r.remote

-- `a.auth.DeviceID` of the cookie, when there is one
unfoldable pub cookie_device : (String → String) → Option String → Option String
unfolding device_id
cookie_device sign none = none
cookie_device sign (some value) = device_id sign value

abbrev device_or_public : String → Option String → LoginSource
device_or_public ip none = lane_public ip
device_or_public ip (some id) = lane_device id

unfoldable pub login_source_of :
    (String → Option Bool) → (String → String) → Bool → LoginRequest → LoginSource
unfolding client_ip cookie_device
login_source_of loopback_ip sign owner_loopback r =
    let forwarded = not (str_eq r.cf_connecting_ip "") || not (str_eq r.x_forwarded_for "") in
    if owner_loopback && not forwarded && loopback_addr loopback_ip r.remote
    then lane_local
    else device_or_public (client_ip loopback_ip r) (cookie_device sign r.device_cookie)

-- `setDeviceCookie`: the value of the cookie
abbrev kept_or_new : (String → String) → String → Option String → Option String → String
kept_or_new sign new_id none cookie = issue_device sign new_id
kept_or_new sign new_id (some id) none = issue_device sign new_id
kept_or_new sign new_id (some id) (some value) = value

unfoldable pub set_device_cookie : (String → String) → String → Option String → String
unfolding cookie_device issue_device
set_device_cookie sign new_id cookie = kept_or_new sign new_id (cookie_device sign cookie) cookie

pub data LoginAnswer : Type 0 where
  to_dashboard : LoginAnswer
  bad_form : LoginAnswer
  -- with its Retry-After
  too_many_attempts : ℕ → LoginAnswer
  wrong_code : LoginAnswer
  -- with the session cookie and the device cookie
  signed_in : String → String → LoginAnswer

pub record SignInState : Type 0 where
  pub login : LoginGuard
  pub last_step : ℕ

-- From the code's check on
unfoldable pub checked_submit :
    SignInConfig
    → LoginSource
    → LoginGuard
    → String
    → Option String
    → ℕ
    → ℕ × Bool
    → SignInState × LoginAnswer
unfolding refund issue_session set_device_cookie
checked_submit config src login new_id cookie now (last, accepted) =
    if not accepted then (record { login = login; last_step = last }, wrong_code) else (
      record { login = refund login src; last_step = last },
      signed_in (issue_session config.sign now config.ttl_seconds)
          (set_device_cookie config.sign new_id cookie),
    )

-- From the guard's answer on
unfoldable pub reserved_submit :
    SignInConfig
    → ℕ
    → LoginSource
    → String
    → Option String
    → String
    → ℕ
    → LoginGuard × Bool × ℕ
    → SignInState × LoginAnswer
unfolding checked_submit check_code_at
reserved_submit config last src new_id cookie code now (login, ok, wait) =
    if not ok
    then (record { login = login; last_step = last }, too_many_attempts (wait / second + 1))
    else checked_submit config src login new_id cookie (now / second)
        (check_code_at config.hmac last code (now / second))

unfoldable pub submit_form :
    (String → Option Bool)
    → SignInConfig
    → SignInState
    → LoginRequest
    → String
    → ℕ
    → Option String
    → SignInState × LoginAnswer
unfolding reserved_submit reserve login_source_of
submit_form loopback_ip config s r new_id now none = (s, bad_form)
submit_form loopback_ip config s r new_id now (some code) =
    let src = login_source_of loopback_ip config.sign s.login.owner_loopback r in
    reserved_submit config s.last_step src new_id r.device_cookie code now (reserve s.login src now)

unfoldable pub login_submit :
    (String → Option Bool)
    → Option SignInConfig
    → SignInState
    → LoginRequest
    → String
    → ℕ
    → SignInState × LoginAnswer
unfolding submit_form
login_submit loopback_ip none s r new_id now = (s, to_dashboard)
login_submit loopback_ip (some config) s r new_id now =
    submit_form loopback_ip config s r new_id now r.form
