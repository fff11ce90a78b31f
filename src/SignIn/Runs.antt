-- ===== src/SignIn/Runs.antt =====
-- Runs of calls of `loginSubmit` of internal/httpapi/auth_handlers.go.
use intact.Prelude.{
  ℕ, ◌/◌, ◌≤◌, ◌<◌, String, Bool, true, false, ◌≡◌, refl, sym, ap, ◌∙◌, Option, some, List, [], ◌∷◌,
  arith,
}
use intact.Window.{second}
use intact.SignIn.{issue_session}
use intact.SignIn.Submit.{
  LoginRequest, SignInConfig, SignInState, LoginAnswer, to_dashboard, bad_form, too_many_attempts,
  wrong_code, signed_in, login_submit,
}
use intact.SignIn.Codes.{IsCodeOf}
use intact.SignIn.Sound.{let_through, answer_of, is_signed_in, step_of, login_submit-signed_in}
use intact.SignIn.Kept.{login_submit-keeps_step}

-- A call of the handler
pub record LoginCall : Type 0 where
  pub request : LoginRequest
  pub new_id : String
  pub now : ℕ

-- A call that signed a browser in: the state before it, the last step after it, and the session
pub record SignIn : Type 0 where
  pub call : LoginCall
  pub before : SignInState
  pub step : ℕ
  pub session : String

abbrev sign_in_first :
    LoginCall → SignInState → SignInState × LoginAnswer → List SignIn → List SignIn
sign_in_first call s (after, signed_in session device) later =
    record { call = call; before = s; step = after.last_step; session = session } ∷ later
sign_in_first call s (after, answer) later = later

module _ (loopback_ip : String → Option Bool) (config : SignInConfig) where
  abbrev submitted : SignInState → LoginCall → SignInState × LoginAnswer
  submitted s call = login_submit loopback_ip (some config) s call.request call.new_id call.now

  -- The sign-ins of a run of calls
  unfoldable pub sign_ins : SignInState → List LoginCall → List SignIn
  unfolding login_submit
  sign_ins s [] = []
  sign_ins s (call ∷ calls) =
      sign_in_first call s (submitted s call) (sign_ins (submitted s call).0 calls)

  -- The guard let the attempt through, and the form's code is that of the step.
  abbrev pub IsAllowed : SignIn → Type 0
  IsAllowed e =
      (code : String) × ((e.call.request.form ≡ some code)
        × (let_through loopback_ip config e.before e.call.request e.call.now ≡ true)
        × (IsCodeOf config.hmac code (e.call.now / second) e.step)
        × (e.session ≡ issue_session config.sign (e.call.now / second) config.ttl_seconds))

  -- Each is allowed, with a step above that of every sign-in before, and above `last`.
  unfoldable pub AreAllowed : ℕ → List SignIn → Type 0
  AreAllowed last [] = Unit
  AreAllowed last (e ∷ es) = IsAllowed e × (last < e.step) × AreAllowed e.step es

  keeps :
      (call : LoginCall) (s : SignInState) (last : ℕ) (after : SignInState) (answer : LoginAnswer)
      → last ≤ s.last_step
      → is_signed_in answer ≡ false
      → submitted s call ≡ (after, answer)
      → last ≤ after.last_step
  keeps call s last after answer low refused e =
      let outside = ap (λ x. is_signed_in (answer_of x)) e ∙ refused in
      let kept =
        sym (ap step_of e)
        ∙ login_submit-keeps_step loopback_ip config s call.request call.new_id call.now outside in
      omega (arith, low, kept)

  first-AreAllowed :
      (call : LoginCall) (s : SignInState) (last : ℕ) (result : SignInState × LoginAnswer)
      (later : List SignIn)
      → last ≤ s.last_step
      → submitted s call ≡ result
      → ((bound : ℕ) → bound ≤ result.0.last_step → AreAllowed bound later)
      → AreAllowed last (sign_in_first call s result later)
  unfolding AreAllowed
  first-AreAllowed call s last (after, signed_in session device) later low e next =
      let (code, (form, ok, right, fresh, issued)) =
        login_submit-signed_in loopback_ip config s call.request call.new_id call.now after session
          device e in
      (
        (code, (form, ok, right, issued)),
        omega (arith, low, fresh),
        next after.last_step (omega arith),
      )
  first-AreAllowed call s last (after, to_dashboard) later low e next =
      next last (keeps call s last after to_dashboard low refl e)
  first-AreAllowed call s last (after, bad_form) later low e next =
      next last (keeps call s last after bad_form low refl e)
  first-AreAllowed call s last (after, too_many_attempts wait) later low e next =
      next last (keeps call s last after (too_many_attempts wait) low refl e)
  first-AreAllowed call s last (after, wrong_code) later low e next =
      next last (keeps call s last after wrong_code low refl e)

  sign_ins-from :
      (s : SignInState) (last : ℕ) (calls : List LoginCall)
      → last ≤ s.last_step
      → AreAllowed last (sign_ins s calls)
  unfolding sign_ins AreAllowed
  sign_ins-from s last [] low = tt
  sign_ins-from s last (call ∷ calls) low =
      first-AreAllowed call s last (submitted s call) (sign_ins (submitted s call).0 calls) low refl
        (λ bound held. sign_ins-from (submitted s call).0 bound calls held)

  -- Over any run of attempts, whatever the guard makes of them, a browser is signed in only if the login
  -- guard let its attempt through and the form's code is, spaces aside, the code of a time at most one
  -- step from then, whose step is later than that of every code accepted before in the run and than the
  -- last step at its start; and the session is the one issued for the time allowed.
  pub sign_ins-AreAllowed :
      (s : SignInState) (calls : List LoginCall) → AreAllowed s.last_step (sign_ins s calls)
  sign_ins-AreAllowed s calls = sign_ins-from s s.last_step calls (omega arith)
