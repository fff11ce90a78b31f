-- ===== src/Filter/Listed.antt =====
-- Tests of the values that `toolSchemas` collects, against tests where they stand.
use intact.Prelude.{
  String, ◌≡◌, refl, ◌∙◌, arith, Bool, false, ◌||◌, Option, none, some, List, [], ◌∷◌, ◌++◌,
}
use intact.Json.{Value, null, boolean, number, str, array, object, Items, nil, cons, get_field}
use intact.Json.Edits.{on_some, any_item, test_at, test_object, test_array}
use intact.Filter.{field_of, list_of, items_of, present, on_value, concat_map}

unfoldable pub any : (Value → Bool) → List Value → Bool
any test [] = false
any test (v ∷ vs) = test v || any test vs

module _ (test : Value → Bool) where
  pub any-append : (vs ws : List Value) → any test (vs ++ ws) ≡ (any test vs || any test ws)
  unfolding any
  any-append [] ws = refl
  any-append (v ∷ vs) ws = ground (arith, any-append vs ws)

  pub any-present : (v : Option Value) → any test (present v) ≡ on_some test v
  unfolding any
  any-present none = refl
  any-present (some v) = ground arith

  pub any-concat_map :
      (read : Value → List Value) (below : Value → Bool)
      → ((v : Value) → any test (read v) ≡ below v)
      → (xs : Items) → any test (concat_map read (list_of xs)) ≡ any_item below xs
  unfolding any list_of any_item
  any-concat_map read below h nil = refl
  any-concat_map read below h (cons v xs) =
      any-append (read v) (concat_map read (list_of xs))
      ∙ rw (h v, any-concat_map read below h xs) refl

  pub any-items :
      (read : Value → List Value) (below : Value → Bool)
      → ((v : Value) → any test (read v) ≡ below v)
      → (v : Option Value)
      → any test (concat_map read (items_of v)) ≡ on_some (test_array (any_item below)) v
  unfolding any items_of test_array
  any-items read below h none = refl
  any-items read below h (some null) = refl
  any-items read below h (some (boolean b)) = refl
  any-items read below h (some (number n)) = refl
  any-items read below h (some (str s)) = refl
  any-items read below h (some (object fs)) = refl
  any-items read below h (some (array xs)) = any-concat_map read below h xs

  pub any-field_of :
      (key : String) (v : Value)
      → any test (present (field_of key v)) ≡ test_object (test_at key test) v
  unfolding any field_of test_object
  any-field_of key null = refl
  any-field_of key (boolean b) = refl
  any-field_of key (number n) = refl
  any-field_of key (str s) = refl
  any-field_of key (array xs) = refl
  any-field_of key (object fs) = any-present (get_field key fs)

  pub any-on_value :
      (read : Value → List Value) (below : Value → Bool)
      → ((v : Value) → any test (read v) ≡ below v)
      → (v : Option Value) → any test (on_value read v) ≡ on_some below v
  unfolding any
  any-on_value read below h none = refl
  any-on_value read below h (some v) = h v
