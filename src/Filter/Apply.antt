-- ===== src/Filter/Apply.antt =====
-- internal/filter/filter.go: a request's rules, and what `Apply` does with them.
pub mod Answers
use intact.Prelude.{String, Bool, true, false, not, ◌||◌, List, [], ◌∷◌, keep, if◌then◌else◌}
use intact.Json.{
  Value, null, boolean, number, str, array, object, Fields, end, field, Edit, in_object,
}
use intact.Filter.{drop_path, drop_in_schemas}
use intact.Filter.Clean.{clean_text}
use intact.Filter.System.{walk_system}

-- `Rule`, compiled: a System rule holds what its expression replaces.
pub data Rule : Type 0 where
  field_rule : List String → Rule
  schema_rule : String → Rule
  system_rule : (String → String) → Rule
  header_rule : String → Rule

-- `Headers`
unfoldable pub headers : List Rule → List String
headers [] = []
headers (header_rule name ∷ rules) = name ∷ headers rules
headers (field_rule path ∷ rules) = headers rules
headers (schema_rule key ∷ rules) = headers rules
headers (system_rule replace ∷ rules) = headers rules

abbrev pub is_body_rule : Rule → Bool
is_body_rule (header_rule name) = false
is_body_rule r = true

abbrev pub fields_or : Fields → Value × Bool → Fields × Bool
fields_or m (object fs, c) = (fs, c)
fields_or m (v, c) = (m, c)

unfoldable pub apply_rule : Rule → Edit Fields
unfolding drop_path drop_in_schemas walk_system clean_text
apply_rule (field_rule path) m = fields_or m (drop_path path (object m))
apply_rule (schema_rule key) m = drop_in_schemas key m
apply_rule (system_rule replace) m = walk_system (clean_text replace) m
apply_rule (header_rule name) m = (m, false)

unfoldable pub apply_rules : List Rule → Edit Fields
unfolding apply_rule
apply_rules [] m = (m, false)
apply_rules (r ∷ rs) m =
    let (m', c') = apply_rule r m in let (m'', c) = apply_rules rs m' in (m'', c' || c)

unfoldable pub apply_object : List Rule → Edit Fields
unfolding apply_rules
apply_object [] m = (m, false)
apply_object (r ∷ rs) m =
    let (m', c) = apply_rules (r ∷ rs) m in if not c then (m, false) else (m', true)

-- `Apply` of a decoded body: what is not an object is returned as it is, and so is a body of which
-- the rules removed nothing.
unfoldable pub apply : List Rule → Edit Value
unfolding apply_object
apply rules (object m) = in_object (apply_object (keep is_body_rule rules)) (object m)
apply rules v = (v, false)
