-- ===== src/SignIn.antt =====
-- internal/auth: the codes, the sessions and the devices of the operator. The sign-in handler is in
-- SignIn/Submit.antt.
-- The hashes are arguments: `hmac` is HMAC-SHA1 of a counter under the decoded secret, as bytes (none
-- for a secret that does not decode), and `sign` the hex of HMAC-SHA256 of a payload under the
-- session key. A time is a number of seconds since 1970, of at least one step.
pub mod Submit
pub mod Cookies
pub mod Codes
pub mod Sound
pub mod Kept
pub mod Runs
mod Tests
use intact.Prelude.{
  ℕ, zero, suc, ◌+◌, ◌-◌, ◌*◌, ◌/◌, ◌%◌, ◌^◌, String, str_append, str_eq, Bool, true, false, not,
  ◌&&◌, ◌||◌, Option, none, some, List, [], ◌∷◌, ltb, leb, length, get_elem?, if◌then◌else◌,
}
use intact.Prelude.Decimal.{format_int, parse_int, max_int64}
use intact.Prelude.Text.{cut_code, trim_space}

abbrev pub totp_step : ℕ
totp_step = 30

-- sum[i], of a sum that has that byte
abbrev pub or_zero_byte : Option ℕ → ℕ
or_zero_byte none = 0
or_zero_byte (some b) = b

abbrev pub byte_at : List ℕ → ℕ → ℕ
byte_at sum i = or_zero_byte (get_elem? sum i)

-- `codeAt`: the number that it prints with six digits.
unfoldable pub code_of_sum : List ℕ → ℕ
code_of_sum sum =
    let offset = byte_at sum (length sum - 1) % 16 in
    (byte_at sum offset % 128 * 2 ^ 24
      + byte_at sum (offset + 1) * 2 ^ 16
      + byte_at sum (offset + 2) * 2 ^ 8
      + byte_at sum (offset + 3))
    % 1000000

-- fmt.Sprintf("%06d", code)
unfoldable pub pad : ℕ → String → String
pad zero s = s
pad (suc n) s = str_append "0" (pad n s)

abbrev pub zeros_for : ℕ → ℕ
zeros_for n =
    if ltb n 10
    then 5
    else if ltb n 100
    then 4
    else if ltb n 1000
    then 3
    else if ltb n 10000
    then 2
    else if ltb n 100000
    then 1
    else 0

unfoldable pub six_digits : ℕ → String
unfolding pad format_int
six_digits n = pad (zeros_for n) (format_int n)

unfoldable pub code_at : (ℕ → List ℕ) → ℕ → String
unfolding six_digits code_of_sum
code_at hmac unix = six_digits (code_of_sum (hmac (unix / totp_step)))

-- The loop of `matchStepAt` over the three windows
unfoldable pub match_in : (ℕ → List ℕ) → String → List ℕ → Option ℕ
unfolding code_at
match_in hmac code [] = none
match_in hmac code (at ∷ times) =
    let later = match_in hmac code times in
    if str_eq (code_at hmac at) code then some (at / totp_step) else later

unfoldable pub match_step_at : Option (ℕ → List ℕ) → String → ℕ → Option ℕ
unfolding match_in trim_space
match_step_at none code now = none
match_step_at (some hmac) code now =
    match_in hmac (trim_space code) (now ∷ (now - totp_step) ∷ (now + totp_step) ∷ [])

-- `checkCodeAt`: the new `lastStep`, and whether the code is accepted.
unfoldable pub check_step : ℕ → Option ℕ → ℕ × Bool
check_step last none = (last, false)
check_step last (some step) = if leb step last then (last, false) else (step, true)

unfoldable pub check_code_at : Option (ℕ → List ℕ) → ℕ → String → ℕ → ℕ × Bool
unfolding check_step match_step_at
check_code_at hmac last code now = check_step last (match_step_at hmac code now)

-- `signSession`, `validSession`
unfoldable pub sign_session : (String → String) → ℕ → String
unfolding format_int
sign_session sign expiry =
    let payload = format_int expiry in str_append payload (str_append "." (sign payload))

-- `IssueSession`: now + ttl is a sum of int64, which FormatInt prints with its sign.
unfoldable pub issue_session : (String → String) → ℕ → ℕ → String
unfolding sign_session format_int
issue_session sign now ttl =
    let wrapped = str_append "-" (format_int (2 ^ 64 - (now + ttl) % 2 ^ 64)) in
    if leb ((now + ttl) % 2 ^ 64) max_int64
    then sign_session sign ((now + ttl) % 2 ^ 64)
    else str_append wrapped (str_append "." (sign wrapped))

abbrev pub is_later : ℕ → Option (Bool × ℕ) → Bool
is_later now none = false
is_later now (some (negative, exp)) = not negative && ltb now exp

valid_parts : (String → String) → ℕ → Option (String × String) → Bool
unfolding parse_int
valid_parts sign now none = false
valid_parts sign now (some (payload, sig)) =
    if not (str_eq sig (sign payload)) then false else is_later now (parse_int payload)

unfoldable pub valid_session : (String → String) → String → ℕ → Bool
unfolding valid_parts cut_code
valid_session sign tok now = valid_parts sign now (cut_code 46 tok)

-- `IssueDevice` of a random id, and `DeviceID`
unfoldable pub issue_device : (String → String) → String → String
issue_device sign id = str_append id (str_append "." (sign id))

device_parts : (String → String) → Option (String × String) → Option String
device_parts sign none = none
device_parts sign (some (id, sig)) =
    if str_eq id "" then none else if not (str_eq sig (sign id)) then none else some id

unfoldable pub device_id : (String → String) → String → Option String
unfolding device_parts cut_code
device_id sign value = device_parts sign (cut_code 46 value)
