-- ===== src/SignIn/Kept.antt =====
-- The last step through `loginSubmit` of internal/httpapi/auth_handlers.go.
use intact.Prelude.{ℕ, ◌/◌, String, Bool, true, false, ◌≡◌, refl, Option, none, some, inl, inr}
use intact.Window.{second}
use intact.LoginGuard.{LoginGuard, LoginSource, reserve}
use intact.SignIn.{check_code_at}
use intact.SignIn.Submit.{
  LoginRequest, SignInConfig, SignInState, login_submit, submit_form, reserved_submit,
  checked_submit,
}
use intact.SignIn.Codes.{check_code_at-cases}
use intact.SignIn.Sound.{source, answer_of, is_signed_in, step_of}

checked-keeps_step :
    (config : SignInConfig) (last : ℕ) (src : LoginSource) (login : LoginGuard) (new_id : String)
    (cookie : Option String) (code : String) (now : ℕ)
    → is_signed_in (
        answer_of (
          checked_submit config src login new_id cookie now
            (check_code_at config.hmac last code now)))
      ≡ false
    → step_of (
        checked_submit config src login new_id cookie now (check_code_at config.hmac last code now))
      ≡ last
unfolding checked_submit
checked-keeps_step config last src login new_id cookie code now h =
    elim (check_code_at-cases config.hmac last code now) [
      | inl refused ↦ rw refused refl
      | inr (step, (found, fresh, accepted)) ↦ cc (rw accepted at h)
    ]

reserved-keeps_step :
    (config : SignInConfig) (last : ℕ) (src : LoginSource) (new_id : String)
    (cookie : Option String) (code : String) (now : ℕ) (reserved : LoginGuard × Bool × ℕ)
    → is_signed_in (answer_of (reserved_submit config last src new_id cookie code now reserved))
      ≡ false
    → step_of (reserved_submit config last src new_id cookie code now reserved) ≡ last
unfolding reserved_submit
reserved-keeps_step config last src new_id cookie code now (login, false, wait) h = refl
reserved-keeps_step config last src new_id cookie code now (login, true, wait) h =
    checked-keeps_step config last src login new_id cookie code (now / second) h

form_of-keeps_step :
    (loopback_ip : String → Option Bool) (config : SignInConfig) (s : SignInState)
    (r : LoginRequest) (new_id : String) (now : ℕ) (form : Option String)
    → is_signed_in (answer_of (submit_form loopback_ip config s r new_id now form)) ≡ false
    → step_of (submit_form loopback_ip config s r new_id now form) ≡ s.last_step
unfolding submit_form
form_of-keeps_step loopback_ip config s r new_id now none h = refl
form_of-keeps_step loopback_ip config s r new_id now (some code) h =
    reserved-keeps_step config s.last_step (source loopback_ip config s r) new_id r.device_cookie
      code now (reserve s.login (source loopback_ip config s r) now) h

-- A call that signs nobody in leaves the last step.
pub login_submit-keeps_step :
    (loopback_ip : String → Option Bool) (config : SignInConfig) (s : SignInState)
    (r : LoginRequest) (new_id : String) (now : ℕ)
    → is_signed_in (answer_of (login_submit loopback_ip (some config) s r new_id now)) ≡ false
    → step_of (login_submit loopback_ip (some config) s r new_id now) ≡ s.last_step
unfolding login_submit
login_submit-keeps_step loopback_ip config s r new_id now h =
    form_of-keeps_step loopback_ip config s r new_id now r.form h
