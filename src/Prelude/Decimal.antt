-- ===== src/Prelude/Decimal.antt =====
-- strconv.FormatInt(n, 10) of a number that is not negative, and strconv.ParseInt(s, 10, 64).
use Prim.Native.Char.{Char, code}
use Prim.Native.Nat.{ℕ, zero, suc, ◌+◌, ◌-◌, ◌*◌, ◌/◌, ◌%◌, ◌^◌, ◌≤◌, ◌<◌}
use Prim.Native.String.{String, [] as empty, ◌∷◌ as cons_char}
use mathlib.Core.Path.{◌≡◌, refl, sym, ◌∙◌, ap}
use mathlib.Core.Logic.{inl, inr}
use mathlib.Core.Bool.{Bool, true, false, ◌||◌}
use mathlib.Core.Option.{Option, none, some}
use native.Mathlib.Omega.{arith}
use intact.Prelude.Tests.{ltb, ◌==◌, if◌then◌else◌, Bool-cases}

abbrev pub max_int64 : ℕ
max_int64 = 2 ^ 63 - 1

unfoldable pub digit_char : ℕ → Char
digit_char zero = "0"
digit_char (suc zero) = "1"
digit_char (suc (suc zero)) = "2"
digit_char (suc (suc (suc zero))) = "3"
digit_char (suc (suc (suc (suc zero)))) = "4"
digit_char (suc (suc (suc (suc (suc zero))))) = "5"
digit_char (suc (suc (suc (suc (suc (suc zero)))))) = "6"
digit_char (suc (suc (suc (suc (suc (suc (suc zero))))))) = "7"
digit_char (suc (suc (suc (suc (suc (suc (suc (suc zero)))))))) = "8"
digit_char (suc (suc (suc (suc (suc (suc (suc (suc (suc n))))))))) = "9"

-- The digits of `n` before those in `out`; a fuel above `n` is enough.
unfoldable pub digits : ℕ → ℕ → String → String
unfolding digit_char
digits zero n out = out
digits (suc fuel) n out =
    let more = digits fuel (n / 10) (cons_char (digit_char (n % 10)) out) in
    if ltb n 10 then cons_char (digit_char n) out else more

unfoldable pub format_int : ℕ → String
unfolding digits
format_int n = digits (suc n) n empty

-- The digits of a text behind the number `n`, which may not pass `max`.
unfoldable pub scan : ℕ → String → ℕ → Option ℕ
scan max empty n = some n
scan max (cons_char c s) n =
    let d = code c - 48 in
    let rest = scan max s (n * 10 + d) in
    if ltb (code c) 48 || ltb 57 (code c) then none else if ltb max (n * 10 + d) then none else rest

abbrev pub signed : Bool → Option ℕ → Option (Bool × ℕ)
signed negative none = none
signed negative (some n) = some (negative, n)

-- The number after its sign; it has at least one digit.
unfoldable pub parse_digits : Bool → ℕ → String → Option (Bool × ℕ)
unfolding scan
parse_digits negative max empty = none
parse_digits negative max (cons_char c s) = signed negative (scan max (cons_char c s) 0)

-- Whether the number is negative, and its size.
unfoldable pub parse_int : String → Option (Bool × ℕ)
unfolding parse_digits
parse_int empty = none
parse_int (cons_char c s) =
    if code c == 45
    then parse_digits true (2 ^ 63) s
    else if code c == 43
    then parse_digits false max_int64 s
    else parse_digits false max_int64 (cons_char c s)

code-digit_char : (d : ℕ) → d < 10 → code (digit_char d) ≡ 48 + d
unfolding digit_char
code-digit_char zero h = refl
code-digit_char (suc zero) h = refl
code-digit_char (suc (suc zero)) h = refl
code-digit_char (suc (suc (suc zero))) h = refl
code-digit_char (suc (suc (suc (suc zero)))) h = refl
code-digit_char (suc (suc (suc (suc (suc zero))))) h = refl
code-digit_char (suc (suc (suc (suc (suc (suc zero)))))) h = refl
code-digit_char (suc (suc (suc (suc (suc (suc (suc zero))))))) h = refl
code-digit_char (suc (suc (suc (suc (suc (suc (suc (suc zero)))))))) h = refl
code-digit_char (suc (suc (suc (suc (suc (suc (suc (suc (suc n))))))))) h = omega arith

scan_digit :
    (max m d : ℕ) (out : String)
    → d < 10
    → m * 10 + d ≤ max
    → scan max (cons_char (digit_char d) out) m ≡ scan max out (m * 10 + d)
unfolding scan
scan_digit max m d out h fits =
    let value : 48 + d - 48 ≡ d = omega arith in
    let low : ltb (48 + d) 48 ≡ false = ground arith in
    let high : ltb 57 (48 + d) ≡ false = ground arith in
    let room : ltb max (m * 10 + d) ≡ false = ground arith in
    rw (code-digit_char d h, value, low, high, room) refl

times_none : (n : ℕ) → 0 * 10 + n ≡ n
times_none n = omega arith

tenths : (n : ℕ) → n / 10 * 10 + n % 10 ≡ n
tenths n = omega arith

scan-digits :
    (fuel max n : ℕ) (out : String)
    → n < fuel
    → n ≤ max
    → scan max (digits fuel n out) 0 ≡ scan max out n
unfolding digits
scan-digits zero max n out h fits = absurd (omega arith)
scan-digits (suc fuel) max n out h fits = elim (Bool-cases (ltb n 10)) [
  | inl small ↦
      rw small
        (scan_digit max 0 n out (ground arith) (omega arith) ∙ ap (scan max out) (times_none n))
  | inr large ↦ rw large (
      scan-digits fuel max (n / 10) _ (ground arith) (omega arith)
      ∙ scan_digit max (n / 10) (n % 10) out (omega arith) (omega arith)
      ∙ ap (scan max out) (tenths n))
]

-- A text with one digit or more, and nothing else.
unfoldable pub AllDigits : String → Type 0
AllDigits empty = Unit
AllDigits (cons_char c s) = (48 ≤ code c) × (code c ≤ 57) × AllDigits s

digits-AllDigits :
    (fuel n : ℕ) (out : String) → n < fuel → AllDigits out → AllDigits (digits fuel n out)
unfolding digits AllDigits
digits-AllDigits zero n out h a = a
digits-AllDigits (suc fuel) n out h a = elim (Bool-cases (ltb n 10)) [
  | inl small ↦ rw small (ground (arith, code-digit_char n))
  | inr large ↦
      rw large
        (digits-AllDigits fuel (n / 10) _ (ground arith) (ground (arith, code-digit_char (n % 10))))
]

digits-cons :
    (fuel n : ℕ) (out : String)
    → n < fuel
    → (c : Char) × ((s : String) × (digits fuel n out ≡ cons_char c s))
unfolding digits
digits-cons zero n out h = absurd (omega arith)
digits-cons (suc fuel) n out h = elim (Bool-cases (ltb n 10)) [
  | inl small ↦ (digit_char n, (out, rw small refl))
  | inr large ↦
      let (c, rest) =
        digits-cons fuel (n / 10) (cons_char (digit_char (n % 10)) out) (ground arith) in
      (c, (rest.0, rw large rest.1))
]

pub format_int-AllDigits : (n : ℕ) → AllDigits (format_int n)
unfolding format_int AllDigits
format_int-AllDigits n = digits-AllDigits (suc n) n empty (omega arith) tt

parse_unsigned :
    (c : Char) (s : String)
    → AllDigits (cons_char c s)
    → parse_int (cons_char c s) ≡ signed false (scan max_int64 (cons_char c s) 0)
unfolding parse_int parse_digits AllDigits
parse_unsigned c s a = ground arith

-- Every number of int64 that is not negative is read back from its print.
pub parse_int-format_int : (n : ℕ) → n ≤ max_int64 → parse_int (format_int n) ≡ some (false, n)
unfolding format_int scan
parse_int-format_int n fits =
    let (c, rest) = digits-cons (suc n) n empty (omega arith) in
    let a : AllDigits (cons_char c rest.0) = rw rest.1 at (format_int-AllDigits n) in
    ap parse_int rest.1
    ∙ parse_unsigned c rest.0 a
    ∙ ap (λ t. signed false (scan max_int64 t 0)) (sym rest.1)
    ∙ ap (signed false) (scan-digits (suc n) max_int64 n empty (omega arith) fits)
