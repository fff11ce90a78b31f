-- ===== src/Prelude/Text.antt =====
-- Functions of Go's package strings.
use Prim.Native.Char.{Char, code}
use Prim.Native.Nat.{ℕ}
use Prim.Native.String.{String, [] as empty, ◌∷◌ as cons_char}
use mathlib.Core.Bool.{Bool, ◌&&◌, ◌||◌}
use mathlib.Core.Option.{Option, none, some}
use mathlib.Core.List.{List, [], ◌∷◌}
use text.Mathlib.Text.{◌==◌ as str_eq}
use intact.Prelude.Tests.{leb, ◌==◌, if◌then◌else◌}

abbrev pub after_char : Char → Option String → Option String
after_char c none = none
after_char c (some s) = some (cons_char c s)

-- strings.CutSuffix
unfoldable pub cut_suffix : String → String → Option String
cut_suffix suffix empty = if str_eq empty suffix then some empty else none
cut_suffix suffix (cons_char c s) =
    let rest = cut_suffix suffix s in
    if str_eq (cons_char c s) suffix then some empty else after_char c rest

-- strings.TrimSuffix
abbrev pub or_whole : String → Option String → String
or_whole s none = s
or_whole s (some rest) = rest

unfoldable pub trim_suffix : String → String → String
unfolding cut_suffix
trim_suffix suffix s = or_whole s (cut_suffix suffix s)

-- strings.Split(s, ".")
abbrev pub glue : Char → List String → List String
glue c [] = cons_char c empty ∷ []
glue c (part ∷ parts) = cons_char c part ∷ parts

unfoldable pub split_dots : String → List String
split_dots empty = empty ∷ []
split_dots (cons_char c s) =
    let rest = split_dots s in if code c == 46 then empty ∷ rest else glue c rest

-- strings.CutPrefix
unfoldable pub cut_prefix : String → String → Option String
cut_prefix empty s = some s
cut_prefix (cons_char p ps) empty = none
cut_prefix (cons_char p ps) (cons_char c s) =
    let rest = cut_prefix ps s in if code p == code c then rest else none

abbrev pub before_char : Char → Option (String × String) → Option (String × String)
before_char c none = none
before_char c (some (b, rest)) = some (cons_char c b, rest)

-- strings.Cut at a character, by its code
unfoldable pub cut_code : ℕ → String → Option (String × String)
cut_code sep empty = none
cut_code sep (cons_char c s) =
    let later = cut_code sep s in if code c == sep then some (empty, s) else before_char c later

-- unicode.IsSpace, and strings.TrimSpace
unfoldable pub is_space : ℕ → Bool
is_space n =
    leb 9 n && leb n 13
    || (n == 32 || n == 133 || n == 160 || n == 5760)
    || leb 8192 n && leb n 8202
    || (n == 8232 || n == 8233 || n == 8239 || n == 8287 || n == 12288)

unfoldable pub trim_left : String → String
unfolding is_space
trim_left empty = empty
trim_left (cons_char c s) =
    let rest = trim_left s in if is_space (code c) then rest else cons_char c s

unfoldable pub trim_right : String → String
unfolding is_space
trim_right empty = empty
trim_right (cons_char c s) =
    let rest = trim_right s in
    if is_space (code c) && str_eq rest empty then empty else cons_char c rest

unfoldable pub trim_space : String → String
unfolding trim_left trim_right
trim_space s = trim_right (trim_left s)

-- strings.Trim of one character, by its code
unfoldable pub trim_code_left : ℕ → String → String
trim_code_left sep empty = empty
trim_code_left sep (cons_char c s) =
    let rest = trim_code_left sep s in if code c == sep then rest else cons_char c s

unfoldable pub trim_code_right : ℕ → String → String
trim_code_right sep empty = empty
trim_code_right sep (cons_char c s) =
    let rest = trim_code_right sep s in
    if code c == sep && str_eq rest empty then empty else cons_char c rest

unfoldable pub trim_code : ℕ → String → String
unfolding trim_code_left trim_code_right
trim_code sep s = trim_code_right sep (trim_code_left sep s)
