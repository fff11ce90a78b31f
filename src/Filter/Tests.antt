-- ===== src/Filter/Tests.antt =====
-- Runs of the filter, and its theorems at concrete inputs.
use intact.Prelude.{String, ◌≡◌, ◌↔◌, ◌⊎◌, refl, true, false, List, [], ◌∷◌, All}
use intact.Json.{
  Value, null, str, array, object, nil, cons, Fields, end, field, get_field, set_field,
  delete_field, at_field, at_fields, in_array, in_object, each_item,
}
use intact.Json.Edits.{Removes}
use intact.Filter.{drop_path, drop_in_schemas, tool_schemas}
use intact.Filter.Clean.{clean_text}
use intact.Filter.Clean
use intact.Filter.Keys.{holds_key}
use intact.Filter.Paths.{matches, drop_path-IsExact}
use intact.Filter.Listed.{any}
use intact.Filter.Schemas.{drop_in_schemas-Removes}
use intact.Filter.System.{walk_system}
use intact.Filter.Apply.{Rule, field_rule, schema_rule, header_rule, apply}
use intact.Filter.Apply.Answers.{finds, apply_iff}

program : Unit {0}
unfolding drop_path drop_in_schemas tool_schemas apply walk_system holds_key matches get_field
    clean_text set_field delete_field at_field at_fields in_array in_object each_item
program = tt

-- A parameter that is called "$id", and a schema that has the key.
abbrev schema : Value
schema = object (
    field "$id" (str "x")
      (field "properties" (object (field "$id" (object (field "$id" null end)) end)) end))

abbrev body : Fields
body =
    field "tools" (array (cons (object (field "input_schema" schema end)) nil))
      (field "thinking" (str "on") end)

dropped : apply (schema_rule "$id" ∷ field_rule ("thinking" ∷ []) ∷ []) (object body) ≡ (
  object (
      field "tools"
        (array (
          cons
            (object (
              field "input_schema"
                (object (field "properties" (object (field "$id" (object end) end)) end))
                end))
            nil))
        end),
  true,
)
unfolding program
dropped = refl

-- A System rule writes a null content where a system message has none.
abbrev wordless : Fields
wordless = field "messages" (array (cons (object (field "role" (str "system") end)) nil)) end

wordless_walk : (walk_system (λ s. (s, false)) wordless) ≡ (
  field "messages"
      (array (cons (object (field "role" (str "system") (field "content" null end))) nil))
      end,
  false,
)
unfolding program
wordless_walk = refl

-- A System rule that changes no text drops an instruction that has no part.
abbrev partless : Fields
partless = field "systemInstruction" (object (field "parts" (array nil) end)) end

partless_walk : walk_system (λ s. (s, false)) partless ≡ (end, true)
unfolding program
partless_walk = refl

-- A "*" at the end of a path takes no item of a list.
starred :
    apply (field_rule ("a" ∷ "*" ∷ []) ∷ []) (object (field "a" (array (cons null nil)) end))
    ≡ (object (field "a" (array (cons null nil)) end), false)
unfolding program
starred = refl

drop_path-IsExact_example :
    Removes
      (object body)
      (drop_path ("thinking" ∷ []) (object body)).0
      (drop_path ("thinking" ∷ []) (object body)).1
      (matches ("thinking" ∷ []))
drop_path-IsExact_example = drop_path-IsExact ("thinking" ∷ []) (object body)

drop_in_schemas-Removes_example :
    Removes body
      (drop_in_schemas "$id" body).0
      (drop_in_schemas "$id" body).1
      (λ b. any (holds_key "$id") (tool_schemas b))
drop_in_schemas-Removes_example = drop_in_schemas-Removes "$id" body

abbrev rules : List Rule
rules = schema_rule "$id" ∷ header_rule "X" ∷ []

apply_iff_example :
    (((apply rules (object body)).1 ≡ false) ↔ All (λ r. finds body r ≡ false) rules)
    × (((apply rules (object body)).1 ≡ true) ⊎ ((apply rules (object body)).0 ≡ object body))
apply_iff_example = apply_iff rules body (tt, (tt, tt))

abbrev spaced : String
spaced = "\n\n\n\nline"

cleaned : clean_text (λ s. spaced) "secret" ≡ ("line", true)
unfolding program
cleaned = refl
