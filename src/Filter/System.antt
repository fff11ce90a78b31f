-- ===== src/Filter/System.antt =====
-- internal/filter/filter.go: the system prompt that a System rule cleans.
use intact.Prelude.{
  String, Bool, true, false, ◌||◌, Option, none, some, [], ◌∷◌, str_eq, if◌then◌else◌,
}
use intact.Filter.Clean.{is_blank}
use intact.Json.{
  Value, null, str, array, object, Items, nil, cons, Fields, get_field, set_field, delete_field,
  Edit, at_field, each_item, in_object, in_array, at_fields,
}

-- What a rule's expression makes of a text, and whether it changed it.
abbrev pub Clean : Type 0
Clean = String → String × Bool

unfoldable pub clean_str : Clean → Edit Value
clean_str clean (str s) = let (out, c) = clean s in if c then (str out, true) else (str s, false)
clean_str clean v = (v, false)

-- `cleanContent`: a text, or the texts of a list of blocks.
unfoldable pub clean_content : Clean → Edit Value
unfolding clean_str
clean_content clean (str s) = clean_str clean (str s)
clean_content clean (array xs) =
    in_array (each_item (in_object (at_field "text" (clean_str clean)))) (array xs)
clean_content clean v = (v, false)

abbrev pub or_null : Option Value → Value
or_null none = null
or_null (some v) = v

-- mm[key] = cleanContent(mm[key]): a missing key is read as nil, and written.
unfoldable pub clean_key : Clean → String → Edit Fields
unfolding clean_content
clean_key clean key fs =
    let (v, c) = clean_content clean (or_null (get_field key fs)) in (set_field key v fs, c)

abbrev pub is_str : String → Option Value → Bool
is_str s (some (str t)) = str_eq t s
is_str s v = false

unfoldable pub clean_message : Clean → Edit Fields
unfolding clean_key
clean_message clean fs =
    let cleaned = clean_key clean "content" fs in
    if is_str "system" (get_field "role" fs) || is_str "developer" (get_field "role" fs)
    then cleaned
    else (fs, false)

-- A part that Gemini refuses: an object whose text is blank.
abbrev pub is_blank_text : Option Value → Bool
is_blank_text (some (str s)) = is_blank s
is_blank_text v = false

unfoldable pub is_blank_part : Value → Bool
is_blank_part (object fs) = is_blank_text (get_field "text" fs)
is_blank_part v = false

-- The loop that keeps the other parts.
unfoldable pub drop_blank : Edit Items
unfolding is_blank_part
drop_blank nil = (nil, false)
drop_blank (cons v xs) =
    let (rest, c) = drop_blank xs in if is_blank_part v then (rest, true) else (cons v rest, c)

keep_parts : Fields → Bool → Items → Option Fields × Bool
keep_parts si changed nil = (none, true)
keep_parts si changed (cons v xs) = (some (set_field "parts" (array (cons v xs)) si), changed)

-- The instruction with its parts cleaned, or none where no part is left.
instruction_parts : Fields → Bool → Option Value → Option Fields × Bool
unfolding drop_blank keep_parts
instruction_parts si changed (some (array xs)) =
    let (kept, c) = drop_blank xs in keep_parts si (changed || c) kept
instruction_parts si changed v = (some si, changed)

unfoldable pub clean_instruction : Clean → Fields → Option Fields × Bool
unfolding clean_key instruction_parts
clean_instruction clean si =
    let (si', c) = clean_key clean "parts" si in instruction_parts si' c (get_field "parts" si')

abbrev or_without : Fields → Option Fields × Bool → Fields × Bool
or_without b (some si, c) = (set_field "systemInstruction" (object si) b, c)
or_without b (none, c) = (delete_field "systemInstruction" b, c)

at_instruction : Clean → Fields → Option Value → Fields × Bool
unfolding clean_instruction
at_instruction clean b (some (object si)) = or_without b (clean_instruction clean si)
at_instruction clean b v = (b, false)

-- What the loop of `walkSystem` does of one body.
unfoldable pub walk_body : Clean → Edit Fields
unfolding clean_content clean_message at_instruction
walk_body clean b =
    let messages = in_array (each_item (in_object (clean_message clean))) in
    let (b', c') =
      at_fields
        (("system", clean_content clean)
          ∷ ("instructions", clean_content clean)
          ∷ ("messages", messages)
          ∷ ("input", messages)
          ∷ [])
        b in
    let (b'', c) = at_instruction clean b' (get_field "systemInstruction" b') in (b'', c' || c)

unfoldable pub walk_system : Clean → Edit Fields
unfolding walk_body
walk_system clean m =
    let (m', c') = walk_body clean m in
    let (m'', c) = at_field "request" (in_object (walk_body clean)) m' in (m'', c' || c)
