-- ===== src/SignIn/Cookies.antt =====
-- What the session cookie and the device cookie prove.
use Prim.Native.Char.{Char}
use Prim.Native.String.{◌∷◌ as cons_char}
use text.Mathlib.TextLemmas.{cons-append, nil-append}
use intact.Prelude.{
  ℕ, ◌≤◌, ◌<◌, String, str_append, str_eq, eq_iff, eq_refl, Bool, true, false, ◌≡◌, refl, sym, ap,
  ◌∙◌, Option, none, some, inl, inr, arith, ltb, Bool-cases, Option-cases,
}
use intact.Prelude.Decimal.{
  format_int, parse_int, max_int64, format_int-AllDigits, parse_int-format_int,
}
use intact.Prelude.Text.{cut_code}
use intact.Prelude.Cuts.{cut_code_rejoins, cut_code-append, Without, AllDigits-Without}
use intact.SignIn.{
  sign_session, valid_session, valid_parts, is_later, issue_device, device_id, device_parts,
}

abbrev dot : Char
dot = "."

-- "." before a text
pub dot_text : (s : String) → str_append "." s ≡ cons_char dot s
dot_text s = cons-append dot "" s ∙ ap (cons_char dot) (nil-append s)

cut_signed :
    (id sig : String)
    → Without 46 id
    → cut_code 46 (str_append id (str_append "." sig)) ≡ some (id, sig)
cut_signed id sig w =
    ap (λ t. cut_code 46 (str_append id t)) (dot_text sig) ∙ cut_code-append dot id sig w

-- A session is valid until its time, and not from then on, for every time that int64 can print.
pub valid_session-sign_session :
    (sign : String → String) (expiry now : ℕ)
    → expiry ≤ max_int64
    → valid_session sign (sign_session sign expiry) now ≡ ltb now expiry
unfolding valid_session valid_parts sign_session
valid_session-sign_session sign expiry now fits =
    let payload = format_int expiry in
    rw
      (
        cut_signed payload (sign payload) (AllDigits-Without payload (format_int-AllDigits expiry)),
        eq_refl (sign payload),
        parse_int-format_int expiry fits,
      )
      refl

-- The parts of a session that was accepted.
later_time :
    (now : ℕ) (parsed : Option (Bool × ℕ))
    → is_later now parsed ≡ true
    → (exp : ℕ) × ((parsed ≡ some (false, exp)) × (now < exp))
later_time now none h = cc
later_time now (some (true, exp)) h = cc
later_time now (some (false, exp)) h = (exp, (refl, ground arith))

-- A session cookie is accepted only if it is a number of seconds later than now and the signature of
-- that number, joined by a dot: whoever cannot sign cannot make a session or extend one.
pub valid_session-signed :
    (sign : String → String) (tok : String) (now : ℕ)
    → valid_session sign tok now ≡ true
    → (payload : String) × ((exp : ℕ) × ((tok ≡ str_append payload (str_append "." (sign payload)))
          × (parse_int payload ≡ some (false, exp))
          × (now < exp)))
unfolding valid_session valid_parts
valid_session-signed sign tok now h = elim (Option-cases (cut_code 46 tok)) [
  | inl uncut ↦ cc (rw uncut at h)
  | inr (cut, found) ↦ elim (Bool-cases (str_eq cut.1 (sign cut.0))) [
    | inl same ↦
        let (exp, later) = later_time now (parse_int cut.0) (rw (found, same) at h) in
        let whole =
          sym (cut_code_rejoins dot tok cut.0 cut.1 found)
          ∙ ap (str_append cut.0) (sym (dot_text cut.1))
          ∙ ap (λ s. str_append cut.0 (str_append "." s)) ((eq_iff cut.1 (sign cut.0)).0 same) in
        (cut.0, (exp, (whole, later.0, later.1)))
    | inr other ↦ cc (rw (found, other) at h)
  ]
]

-- A device's cookie names the device.
pub device_id-issue_device :
    (sign : String → String) (id : String)
    → Without 46 id
    → str_eq id "" ≡ false
    → device_id sign (issue_device sign id) ≡ some id
unfolding device_id device_parts issue_device
device_id-issue_device sign id w named =
    rw (cut_signed id (sign id) w, named, eq_refl (sign id)) refl
