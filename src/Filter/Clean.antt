-- ===== src/Filter/Clean.antt =====
-- internal/filter/filter.go: what cleanSystem makes of one text, with the functions of Go's strings
-- that it calls. `replace` is the compiled expression's ReplaceAllString with the empty text.
use Prim.Native.Char.{Char, code}
use Prim.Native.String.{[], ◌∷◌}
use intact.Prelude.{
  ℕ, zero, suc, String, Bool, true, false, ◌&&◌, ◌||◌, leb, ◌==◌, str_eq, if◌then◌else◌,
}

abbrev pub is_newline : Char → Bool
is_newline c = code c == 10

-- strings.Contains(s, "\n\n\n")
unfoldable pub has_blank_lines : String → Bool
has_blank_lines [] = false
has_blank_lines (a ∷ []) = false
has_blank_lines (a ∷ b ∷ []) = false
has_blank_lines (a ∷ b ∷ c ∷ s) =
    let rest = has_blank_lines (b ∷ c ∷ s) in (is_newline a && is_newline b && is_newline c) || rest

-- strings.ReplaceAll(s, "\n\n\n", "\n\n")
unfoldable pub join_blank_lines : String → String
join_blank_lines [] = []
join_blank_lines (a ∷ []) = a ∷ []
join_blank_lines (a ∷ b ∷ []) = a ∷ b ∷ []
join_blank_lines (a ∷ b ∷ c ∷ s) =
    let after = join_blank_lines s in
    let next = join_blank_lines (b ∷ c ∷ s) in
    if is_newline a && is_newline b && is_newline c then a ∷ b ∷ after else a ∷ next

unfoldable pub count : String → ℕ
count [] = 0
count (a ∷ s) = suc (count s)

-- The loop, on fuel: the length of the text is enough.
unfoldable pub collapse : ℕ → String → String
unfolding has_blank_lines join_blank_lines
collapse zero s = s
collapse (suc fuel) s =
    let rest = collapse fuel (join_blank_lines s) in if has_blank_lines s then rest else s

-- strings.TrimLeft(s, "\n")
unfoldable pub trim_left_newlines : String → String
trim_left_newlines [] = []
trim_left_newlines (a ∷ s) = let rest = trim_left_newlines s in if is_newline a then rest else a ∷ s

-- The function that `cleanSystem` passes to `walkSystem`.
unfoldable pub clean_text : (String → String) → String → String × Bool
unfolding collapse trim_left_newlines count
clean_text replace s =
    let out = replace s in
    if str_eq out s then (s, false) else (trim_left_newlines (collapse (count out) out), true)

-- unicode.IsSpace, and strings.TrimSpace(s) == ""
abbrev pub is_space : Char → Bool
is_space c =
    (leb 9 (code c) && leb (code c) 13)
    || code c == 32
    || code c == 133
    || code c == 160
    || code c == 5760
    || (leb 8192 (code c) && leb (code c) 8202)
    || code c == 8232
    || code c == 8233
    || code c == 8239
    || code c == 8287
    || code c == 12288

unfoldable pub is_blank : String → Bool
is_blank [] = true
is_blank (a ∷ s) = is_space a && is_blank s

-- Whether a text begins with a newline.
unfoldable pub begins_blank : String → Bool
begins_blank [] = false
begins_blank (a ∷ s) = is_newline a

-- A text less its newlines
unfoldable pub without_newlines : String → String
without_newlines [] = []
without_newlines (a ∷ s) = let rest = without_newlines s in if is_newline a then rest else a ∷ rest
