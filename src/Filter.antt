-- ===== src/Filter.antt =====
-- internal/filter/filter.go: what the rules remove from a request's body.
-- The model takes the decoded body. A rule's expression is the argument `clean` of a System rule.
pub mod Apply
pub mod Clean
pub mod Keys
pub mod Paths
pub mod Listed
pub mod Schemas
pub mod System
mod Tests
use intact.Prelude.{
  String, Bool, true, false, not, ◌||◌, Option, none, some, List, [], ◌∷◌, ◌++◌, str_eq,
  if◌then◌else◌,
}
use intact.Json.{
  Value, null, boolean, number, str, array, object, Items, nil, cons, Fields, end, field, has_field,
  get_field, delete_field, Edit, at_field, each_field, each_item, in_object, in_array, at_fields,
}

unfoldable pub is_end : Fields → Bool
is_end end = true
is_end (field k v fs) = false

-- `dropPath` at the last segment.
unfoldable pub drop_last : String → Edit Value
unfolding is_end
drop_last seg (object fs) =
    if str_eq seg "*"
    then (object end, not (is_end fs))
    else (object (delete_field seg fs), has_field seg fs)
drop_last seg v = (v, false)

-- `dropPath` at a segment with more to come, which `deeper` follows.
unfoldable pub drop_through : String → Edit Value → Edit Value
drop_through seg deeper (object fs) =
    if str_eq seg "*"
    then in_object (each_field deeper) (object fs)
    else in_object (at_field seg deeper) (object fs)
drop_through seg deeper (array xs) =
    if str_eq seg "*" then in_array (each_item deeper) (array xs) else (array xs, false)
drop_through seg deeper v = (v, false)

unfoldable pub drop_path : List String → Edit Value
unfolding drop_last drop_through
drop_path [] v = (v, false)
drop_path (seg ∷ []) v = drop_last seg v
drop_path (seg ∷ next ∷ rest) v = drop_through seg (drop_path (next ∷ rest)) v

-- `dropKey`. Under "properties" (`drop_key_props`) the names are kept and the schemas cleaned.
unfoldable mutual
  pub drop_key : String → Value → Value × Bool
  drop_key key (array xs) = let (xs', c) = drop_key_items key xs in (array xs', c)
  drop_key key (object fs) = let (fs', c) = drop_key_fields key fs in (object fs', c)
  drop_key key null = (null, false)
  drop_key key (boolean b) = (boolean b, false)
  drop_key key (number n) = (number n, false)
  drop_key key (str s) = (str s, false)

  pub drop_key_items : String → Items → Items × Bool
  drop_key_items key nil = (nil, false)
  drop_key_items key (cons v xs) =
      let (v', c') = drop_key key v in
      let (rest, c) = drop_key_items key xs in (cons v' rest, c' || c)

  pub drop_key_fields : String → Fields → Fields × Bool
  drop_key_fields key end = (end, false)
  drop_key_fields key (field k v fs) =
      let (rest, c) = drop_key_fields key fs in
      let (v', c') = drop_key key v in
      let (props, cp) = drop_key_props key v in
      if str_eq k key
      then (rest, true)
      else if str_eq k "properties"
      then (field k props rest, cp || c)
      else (field k v' rest, c' || c)

  pub drop_key_props : String → Value → Value × Bool
  drop_key_props key (object fs) = let (fs', c) = drop_key_each key fs in (object fs', c)
  drop_key_props key (array xs) = let (xs', c) = drop_key_items key xs in (array xs', c)
  drop_key_props key null = (null, false)
  drop_key_props key (boolean b) = (boolean b, false)
  drop_key_props key (number n) = (number n, false)
  drop_key_props key (str s) = (str s, false)

  pub drop_key_each : String → Fields → Fields × Bool
  drop_key_each key end = (end, false)
  drop_key_each key (field k v fs) =
      let (v', c') = drop_key key v in
      let (rest, c) = drop_key_each key fs in (field k v' rest, c' || c)

-- `field_of` is v[key] of a value that may be no map, and `items_of` the items of one that may be
-- no list.
unfoldable pub field_of : String → Value → Option Value
field_of key (object fs) = get_field key fs
field_of key v = none

unfoldable pub list_of : Items → List Value
list_of nil = []
list_of (cons v xs) = v ∷ list_of xs

unfoldable pub items_of : Option Value → List Value
unfolding list_of
items_of (some (array xs)) = list_of xs
items_of v = []

abbrev pub present : Option Value → List Value
present none = []
present (some v) = v ∷ []

abbrev pub on_value : (Value → List Value) → Option Value → List Value
on_value read none = []
on_value read (some v) = read v

abbrev pub concat_map : (Value → List Value) → List Value → List Value
concat_map read [] = []
concat_map read (v ∷ vs) = read v ++ concat_map read vs

-- `bodies`: the request, and the one in Antigravity's envelope.
pub object_only : Value → List Value
object_only (object fs) = object fs ∷ []
object_only v = []

unfoldable pub bodies : Fields → List Value
unfolding object_only
bodies m = object m ∷ on_value object_only (get_field "request" m)

-- `toolSchemas`
unfoldable pub schemas_of_decl : Value → List Value
schemas_of_decl d = present (field_of "parameters" d) ++ present (field_of "parametersJsonSchema" d)

unfoldable pub schemas_of_tool : Value → List Value
unfolding schemas_of_decl
schemas_of_tool t =
    present (field_of "input_schema" t)
    ++ present (field_of "parameters" t)
    ++ on_value (λ fn. present (field_of "parameters" fn)) (field_of "function" t)
    ++ concat_map schemas_of_decl (items_of (field_of "functionDeclarations" t))

unfoldable pub schemas_of_body : Value → List Value
unfolding schemas_of_tool
schemas_of_body b = concat_map schemas_of_tool (items_of (field_of "tools" b))

unfoldable pub tool_schemas : Fields → List Value
unfolding schemas_of_body bodies
tool_schemas m = concat_map schemas_of_body (bodies m)

-- The loop over `toolSchemas` of a Schema rule: an edit of each of those values where it stands.
unfoldable pub edit_decl : Edit Value → Edit Value
edit_decl edit = in_object (at_fields (("parameters", edit) ∷ ("parametersJsonSchema", edit) ∷ []))

unfoldable pub edit_tool : Edit Value → Edit Value
unfolding edit_decl
edit_tool edit = in_object (
    at_fields (
      ("input_schema", edit)
      ∷ ("parameters", edit)
      ∷ ("function", in_object (at_field "parameters" edit))
      ∷ ("functionDeclarations", in_array (each_item (edit_decl edit)))
      ∷ []))

abbrev pub edit_tools : Edit Value → Edit Value
edit_tools edit = in_array (each_item (edit_tool edit))

unfoldable pub drop_in_schemas : String → Edit Fields
unfolding edit_tool drop_key
drop_in_schemas key =
    let tools = edit_tools (drop_key key) in
    at_fields (("tools", tools) ∷ ("request", in_object (at_field "tools" tools)) ∷ [])
