-- ===== src/SignIn/Codes.antt =====
-- Which codes `checkCodeAt` of internal/auth accepts.
use intact.Prelude.{
  ℕ, ◌+◌, ◌-◌, ◌/◌, ◌≤◌, ◌<◌, String, str_eq, eq_iff, Bool, true, false, ◌≡◌, refl, Option, none,
  some, List, [], ◌∷◌, ◌⊎◌, inl, inr, arith, leb, if◌then◌else◌, Bool-cases, eq_refl,
}
use intact.Prelude.Text.{trim_space}
use intact.SignIn.{totp_step, code_at, match_in, match_step_at, check_step, check_code_at}

check_step-cases :
    (last : ℕ) (found : Option ℕ)
    → (check_step last found ≡ (last, false))
      ⊎ ((step : ℕ) × ((found ≡ some step)
            × (last < step)
            × (check_step last found ≡ (step, true))))
unfolding check_step
check_step-cases last none = inl refl
check_step-cases last (some step) = elim (Bool-cases (leb step last)) [
  | inl old ↦ inl (rw old refl)
  | inr fresh ↦ inr (step, (refl, ground arith, rw fresh refl))
]

-- What a check did: it refused and kept the last step, or it accepted a later one that matches.
pub check_code_at-cases :
    (hmac : Option (ℕ → List ℕ)) (last : ℕ) (code : String) (now : ℕ)
    → (check_code_at hmac last code now ≡ (last, false))
      ⊎ ((step : ℕ) × ((match_step_at hmac code now ≡ some step)
            × (last < step)
            × (check_code_at hmac last code now ≡ (step, true))))
unfolding check_code_at
check_code_at-cases hmac last code now = check_step-cases last (match_step_at hmac code now)

-- A matching step is that of a window one step around now at most, and the code is the window's.
unfoldable pub IsCodeOf : Option (ℕ → List ℕ) → String → ℕ → ℕ → Type 0
IsCodeOf none code now step = ⊥
IsCodeOf (some hmac) code now step =
    (at : ℕ) × ((code_at hmac at ≡ trim_space code)
      × (at / totp_step ≡ step)
      × (now ≤ at + totp_step)
      × (at ≤ now + totp_step))

-- The times are one step around now at most.
unfoldable Around : ℕ → List ℕ → Type 0
Around now [] = Unit
Around now (at ∷ times) = (now ≤ at + totp_step) × (at ≤ now + totp_step) × Around now times

match_in-found :
    (hmac : ℕ → List ℕ) (code : String) (times : List ℕ) (now step : ℕ)
    → Around now times
    → match_in hmac code times ≡ some step
    → (at : ℕ) × ((code_at hmac at ≡ code)
        × (at / totp_step ≡ step)
        × (now ≤ at + totp_step)
        × (at ≤ now + totp_step))
unfolding match_in Around
match_in-found hmac code [] now step near h = cc
match_in-found hmac code (at ∷ times) now step near h =
    elim (Bool-cases (str_eq (code_at hmac at) code)) [
      | inl same ↦
          let e : at / totp_step ≡ step = cc (rw same at h) in
          (at, ((eq_iff (code_at hmac at) code).0 same, e, near.0, near.1))
      | inr other ↦ match_in-found hmac code times now step near.2 (rw other at h)
    ]

pub match_step_at-IsCodeOf :
    (hmac : Option (ℕ → List ℕ)) (code : String) (now step : ℕ)
    → match_step_at hmac code now ≡ some step
    → IsCodeOf hmac code now step
unfolding match_step_at IsCodeOf Around
match_step_at-IsCodeOf none code now step h = cc
match_step_at-IsCodeOf (some hmac) code now step h =
    let near : Around now (now ∷ (now - totp_step) ∷ (now + totp_step) ∷ []) =
      (omega arith, omega arith, (omega arith, omega arith, (omega arith, omega arith, tt))) in
    match_in-found hmac (trim_space code) (now ∷ (now - totp_step) ∷ (now + totp_step) ∷ []) now
      step near h

-- An accepted code, its time, and the step recorded
pub record UsedCode : Type 0 where
  pub code : String
  pub now : ℕ
  pub step : ℕ

abbrev used_first : String → ℕ → ℕ × Bool → List UsedCode → List UsedCode
used_first code now (step, accepted) later =
    if accepted then record { code = code; now = now; step = step } ∷ later else later

-- The codes that a run of attempts has accepted, each attempt a code and its time.
unfoldable pub codes_used : Option (ℕ → List ℕ) → ℕ → List (String × ℕ) → List UsedCode
unfolding check_code_at
codes_used hmac last [] = []
codes_used hmac last ((code, now) ∷ attempts) =
    let checked = check_code_at hmac last code now in
    used_first code now checked (codes_used hmac checked.0 attempts)

-- Each step is one whose code was given, and is above the one before, the first above `last`.
unfoldable pub Rising : Option (ℕ → List ℕ) → ℕ → List UsedCode → Type 0
unfolding IsCodeOf
Rising hmac last [] = Unit
Rising hmac last (u ∷ us) =
    IsCodeOf hmac u.code u.now u.step × (last < u.step) × Rising hmac u.step us

-- No window's code is accepted twice: over any run of attempts, with any codes at any times, each
-- accepted code is, spaces aside, that of a time at most one step from then, and the steps of those times
-- rise strictly, from above the last step at the start.
pub codes_used-Rising :
    (hmac : Option (ℕ → List ℕ)) (last : ℕ) (attempts : List (String × ℕ))
    → Rising hmac last (codes_used hmac last attempts)
unfolding codes_used Rising
codes_used-Rising hmac last [] = tt
codes_used-Rising hmac last ((code, now) ∷ attempts) =
    elim (check_code_at-cases hmac last code now) [
      | inl refused ↦ rw refused (codes_used-Rising hmac last attempts)
      | inr (step, (found, fresh, accepted)) ↦ rw accepted (
        match_step_at-IsCodeOf hmac code now step found,
        fresh,
        codes_used-Rising hmac step attempts,
      )
    ]

-- The code of the present step, with spaces around it or not, is accepted while no step so new was.
pub check_code_at-fresh :
    (hmac : ℕ → List ℕ) (last : ℕ) (code : String) (now : ℕ)
    → trim_space code ≡ code_at hmac now
    → last < now / totp_step
    → check_code_at (some hmac) last code now ≡ (now / totp_step, true)
unfolding check_code_at check_step match_step_at match_in
check_code_at-fresh hmac last code now right fresh =
    let new : leb (now / totp_step) last ≡ false = ground arith in
    rw (right, eq_refl (code_at hmac now), new) refl
