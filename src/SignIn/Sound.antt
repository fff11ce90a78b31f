-- ===== src/SignIn/Sound.antt =====
-- The sign-in handler: who is signed in, and what the browser gets.
use intact.Prelude.{
  ℕ, ◌/◌, ◌<◌, String, str_eq, Bool, true, false, ◌≡◌, refl, sym, ap, ◌∙◌, Option, none, some, List,
  ◌⊎◌, inl, inr, arith, Option-cases,
}
use mathlib.Core.Path.{subst}
use intact.Prelude.Text.{trim_space}
use intact.Prelude.Cuts.{Without}
use intact.Window.{second}
use intact.LoginGuard.{LoginGuard, LoginSource, lane_local, lane_device, reserve}
use intact.SignIn.{totp_step, code_at, issue_session}
use intact.SignIn.Submit.{
  LoginRequest, SignInConfig, SignInState, LoginAnswer, signed_in, set_device_cookie, cookie_device,
  login_source_of, login_submit, submit_form, reserved_submit, checked_submit,
}
use intact.SignIn.Cookies.{device_id-issue_device}
use intact.SignIn.Codes.{IsCodeOf, check_code_at-cases, match_step_at-IsCodeOf, check_code_at-fresh}

-- The lane of the attempt, and whether the guard let it through
abbrev pub source : (String → Option Bool) → SignInConfig → SignInState → LoginRequest → LoginSource
source loopback_ip config s r = login_source_of loopback_ip config.sign s.login.owner_loopback r

abbrev pub let_through :
    (String → Option Bool) → SignInConfig → SignInState → LoginRequest → ℕ → Bool
let_through loopback_ip config s r now = (reserve s.login (source loopback_ip config s r) now).1

abbrev pub answer_of : SignInState × LoginAnswer → LoginAnswer
answer_of (s, answer) = answer

abbrev pub is_signed_in : LoginAnswer → Bool
is_signed_in (signed_in session device) = true
is_signed_in answer = false

abbrev session_of : LoginAnswer → String
session_of (signed_in session device) = session
session_of answer = ""

abbrev device_of : LoginAnswer → String
device_of (signed_in session device) = device
device_of answer = ""

abbrev pub step_of : SignInState × LoginAnswer → ℕ
step_of (s, answer) = s.last_step

reserved-signed_in :
    (config : SignInConfig) (last : ℕ) (src : LoginSource) (new_id : String)
    (cookie : Option String) (code : String) (now : ℕ) (reserved : LoginGuard × Bool × ℕ)
    (s' : SignInState) (session device : String)
    → reserved_submit config last src new_id cookie code now reserved
      ≡ (s', signed_in session device)
    → (reserved.1 ≡ true)
      × (IsCodeOf config.hmac code (now / second) s'.last_step)
      × (last < s'.last_step)
      × (session ≡ issue_session config.sign (now / second) config.ttl_seconds)
      × (device ≡ set_device_cookie config.sign new_id cookie)
unfolding reserved_submit checked_submit
reserved-signed_in config last src new_id cookie code now (login, false, wait) s' session device h =
    absurd (cc (ap (λ x. is_signed_in (answer_of x)) h))
reserved-signed_in config last src new_id cookie code now (login, true, wait) s' session device h =
    elim (check_code_at-cases config.hmac last code (now / second)) [
      | inl refused ↦ absurd (cc (ap (λ x. is_signed_in (answer_of x)) (rw refused at h)))
      | inr (step, (found, fresh, accepted)) ↦
          let h2 = rw accepted at h in
          let e : step ≡ s'.last_step = ap step_of h2 in
          (
            refl,
            subst (IsCodeOf config.hmac code (now / second)) e
                (match_step_at-IsCodeOf config.hmac code (now / second) step found),
            subst (λ n. last < n) e fresh,
            sym (ap (λ x. session_of (answer_of x)) h2),
            sym (ap (λ x. device_of (answer_of x)) h2),
          )
    ]

form_of-signed_in :
    (loopback_ip : String → Option Bool) (config : SignInConfig) (s : SignInState)
    (r : LoginRequest) (new_id : String) (now : ℕ) (form : Option String) (s' : SignInState)
    (session device : String)
    → submit_form loopback_ip config s r new_id now form ≡ (s', signed_in session device)
    → (code : String) × ((form ≡ some code)
        × (let_through loopback_ip config s r now ≡ true)
        × (IsCodeOf config.hmac code (now / second) s'.last_step)
        × (s.last_step < s'.last_step)
        × (session ≡ issue_session config.sign (now / second) config.ttl_seconds)
        × (device ≡ set_device_cookie config.sign new_id r.device_cookie))
unfolding submit_form
form_of-signed_in loopback_ip config s r new_id now none s' session device h =
    absurd (cc (ap (λ x. is_signed_in (answer_of x)) h))
form_of-signed_in loopback_ip config s r new_id now (some code) s' session device h =
    let (ok, right, fresh, issued, device_value) =
      reserved-signed_in config s.last_step (source loopback_ip config s r) new_id r.device_cookie
        code now (reserve s.login (source loopback_ip config s r) now) s' session device h in
    (code, (refl, ok, right, fresh, issued, device_value))

-- What one call that signs a browser in has checked, and what it leaves.
pub login_submit-signed_in :
    (loopback_ip : String → Option Bool) (config : SignInConfig) (s : SignInState)
    (r : LoginRequest) (new_id : String) (now : ℕ) (s' : SignInState) (session device : String)
    → login_submit loopback_ip (some config) s r new_id now ≡ (s', signed_in session device)
    → (code : String) × ((r.form ≡ some code)
        × (let_through loopback_ip config s r now ≡ true)
        × (IsCodeOf config.hmac code (now / second) s'.last_step)
        × (s.last_step < s'.last_step)
        × (session ≡ issue_session config.sign (now / second) config.ttl_seconds))
unfolding login_submit
login_submit-signed_in loopback_ip config s r new_id now s' session device h =
    let (code, rest) =
      form_of-signed_in loopback_ip config s r new_id now r.form s' session device h in
    (code, (rest.0, rest.1, rest.2, rest.3, rest.4))

-- The operator gets in: an attempt that the guard lets through, with the code of the present step and no
-- code of that step or a later one accepted before, is signed in, and that step is the last one then.
pub login_submit-lets_in :
    (loopback_ip : String → Option Bool) (config : SignInConfig) (s : SignInState)
    (r : LoginRequest) (new_id : String) (now : ℕ) (hmac : ℕ → List ℕ) (code : String)
    → config.hmac ≡ some hmac
    → r.form ≡ some code
    → let_through loopback_ip config s r now ≡ true
    → trim_space code ≡ code_at hmac (now / second)
    → s.last_step < now / second / totp_step
    → ((login_submit loopback_ip (some config) s r new_id now).1
        ≡ signed_in
            (issue_session config.sign (now / second) config.ttl_seconds)
            (set_device_cookie config.sign new_id r.device_cookie))
      × ((login_submit loopback_ip (some config) s r new_id now).0.last_step
          ≡ now / second / totp_step)
unfolding login_submit submit_form reserved_submit checked_submit
login_submit-lets_in loopback_ip config s r new_id now hmac code secret sent ok right fresh =
    rw (sent, secret, ok, check_code_at-fresh hmac s.last_step code (now / second) right fresh)
      (refl, refl)

set_device_cookie-named :
    (sign : String → String) (new_id : String) (cookie : Option String)
    → Without 46 new_id
    → str_eq new_id "" ≡ false
    → (id : String) × (cookie_device sign (some (set_device_cookie sign new_id cookie)) ≡ some id)
unfolding set_device_cookie cookie_device
set_device_cookie-named sign new_id none w named =
    (new_id, device_id-issue_device sign new_id w named)
set_device_cookie-named sign new_id (some value) w named =
    elim (Option-cases (cookie_device sign (some value))) [
      | inl unknown ↦ (new_id, rw unknown (device_id-issue_device sign new_id w named))
      | inr (id, known) ↦ (id, rw known known)
    ]

named_lane :
    (loopback_ip : String → Option Bool) (sign : String → String) (owner_loopback : Bool)
    (r : LoginRequest) (id : String)
    → cookie_device sign r.device_cookie ≡ some id
    → (login_source_of loopback_ip sign owner_loopback r ≡ lane_local)
      ⊎ (login_source_of loopback_ip sign owner_loopback r ≡ lane_device id)
unfolding login_source_of
named_lane loopback_ip sign owner_loopback r id known = rw known (ground arith)

-- A browser that has signed in never pays from the public budget again: an attempt with the device
-- cookie it was given is the owner's own or is charged to one device. The id of a new device is some
-- text with no dot, as a random one in hex is.
pub login_submit-keeps_device :
    (loopback_ip : String → Option Bool) (config : SignInConfig) (s : SignInState)
    (r : LoginRequest) (new_id : String) (now : ℕ) (s' : SignInState) (session device : String)
    (later : LoginRequest) (owner_loopback : Bool)
    → Without 46 new_id
    → str_eq new_id "" ≡ false
    → login_submit loopback_ip (some config) s r new_id now ≡ (s', signed_in session device)
    → later.device_cookie ≡ some device
    → (login_source_of loopback_ip config.sign owner_loopback later ≡ lane_local)
      ⊎ ((id : String) × (login_source_of loopback_ip config.sign owner_loopback later
            ≡ lane_device id))
unfolding login_submit
login_submit-keeps_device loopback_ip config s r new_id now s' session device later owner_loopback w
      named h sent =
    let (code, rest) =
      form_of-signed_in loopback_ip config s r new_id now r.form s' session device h in
    let (id, known) = set_device_cookie-named config.sign new_id r.device_cookie w named in
    let held : cookie_device config.sign later.device_cookie ≡ some id =
      ap (cookie_device config.sign) (sent ∙ ap some rest.5) ∙ known in
    elim (named_lane loopback_ip config.sign owner_loopback later id held) [
      | inl own ↦ inl own
      | inr charged ↦ inr (id, charged)
    ]
