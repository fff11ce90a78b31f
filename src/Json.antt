-- ===== src/Json.antt =====
-- JSON values as Go's encoding/json decodes them into `any`, and edits in place: the functions of
-- internal/filter/filter.go walk a decoded body and change its maps. A decoded body is a tree, so a
-- change in place is a new tree, with whether something changed.

pub mod Edits
use intact.Prelude.{
  String, Bool, true, false, ◌||◌, Option, none, some, List, [], ◌∷◌, str_eq, if◌then◌else◌,
}

mutual
  pub data Value : Type 0 where
    null : Value
    boolean : Bool → Value
    number : String → Value
    str : String → Value
    array : Items → Value
    object : Fields → Value

  pub data Items : Type 0 where
    nil : Items
    cons : Value → Items → Items

  -- A map; the keys of a decoded one are distinct.
  pub data Fields : Type 0 where
    end : Fields
    field : String → Value → Fields → Fields

-- v, ok := m[key]
unfoldable pub get_field : String → Fields → Option Value
get_field key end = none
get_field key (field k v fs) = let rest = get_field key fs in if str_eq k key then some v else rest

unfoldable pub has_field : String → Fields → Bool
has_field key end = false
has_field key (field k v fs) = let rest = has_field key fs in if str_eq k key then true else rest

-- delete(m, key)
unfoldable pub delete_field : String → Fields → Fields
delete_field key end = end
delete_field key (field k v fs) =
    let rest = delete_field key fs in if str_eq k key then rest else field k v rest

-- m[key] = v
unfoldable pub set_field : String → Value → Fields → Fields
set_field key value end = field key value end
set_field key value (field k v fs) =
    let rest = set_field key value fs in if str_eq k key then field k value fs else field k v rest

-- The change of a value, and whether anything changed.
abbrev pub Edit {ℓ} : Type ℓ → Type ℓ
Edit A = A → A × Bool

-- The value of a key, where the map has it.
unfoldable pub at_field : String → Edit Value → Edit Fields
at_field key edit end = (end, false)
at_field key edit (field k v fs) =
    let (rest, c) = at_field key edit fs in
    let (v', c') = edit v in if str_eq k key then (field k v' fs, c') else (field k v rest, c)

unfoldable pub each_field : Edit Value → Edit Fields
each_field edit end = (end, false)
each_field edit (field k v fs) =
    let (v', c') = edit v in let (rest, c) = each_field edit fs in (field k v' rest, c' || c)

unfoldable pub each_item : Edit Value → Edit Items
each_item edit nil = (nil, false)
each_item edit (cons v xs) =
    let (v', c') = edit v in let (rest, c) = each_item edit xs in (cons v' rest, c' || c)

-- x, ok := v.(map[string]any), and v.([]any)
unfoldable pub in_object : Edit Fields → Edit Value
in_object edit (object fs) = let (fs', c) = edit fs in (object fs', c)
in_object edit v = (v, false)

unfoldable pub in_array : Edit Items → Edit Value
in_array edit (array xs) = let (xs', c) = edit xs in (array xs', c)
in_array edit v = (v, false)

-- One edit of a map after another, each at a key.
unfoldable pub at_fields : List (String × Edit Value) → Edit Fields
at_fields [] fs = (fs, false)
at_fields (spot ∷ spots) fs =
    let (fs', c') = at_field spot.0 spot.1 fs in
    let (rest, c) = at_fields spots fs' in (rest, c' || c)
