-- ===== src/Filter/Schemas.antt =====
-- A Schema rule: the edit of the tools' schemas against the list of them that `toolSchemas` answers.
use intact.Prelude.{
  String, ◌≡◌, refl, sym, ◌∙◌, arith, Bool, false, ◌||◌, Option, none, some, List, [], ◌∷◌, ◌++◌,
}
use intact.Json.{Value, null, boolean, number, str, array, object, Fields, get_field, Edit}
use intact.Json.Edits.{
  Removes, IsExact, on_some, any_item, test_at, test_object, test_array, test_fields,
  each_item-IsExact, at_field-IsExact, in_object-IsExact, in_array-IsExact, at_fields-IsExact,
}
use intact.Filter.{
  field_of, items_of, present, on_value, concat_map, bodies, object_only, schemas_of_decl,
  schemas_of_tool, schemas_of_body, tool_schemas, edit_decl, edit_tool, drop_in_schemas,
}
use intact.Filter.Keys.{holds_key, drop_key-Removes}
use intact.Filter.Listed.{any, any-append, any-present, any-items, any-field_of, any-on_value}

abbrev test_decl : (Value → Bool) → Value → Bool
test_decl test =
    test_object (test_fields (("parameters", test) ∷ ("parametersJsonSchema", test) ∷ []))

abbrev test_tool : (Value → Bool) → Value → Bool
test_tool test = test_object (
    test_fields (
      ("input_schema", test)
      ∷ ("parameters", test)
      ∷ ("function", test_object (test_at "parameters" test))
      ∷ ("functionDeclarations", test_array (any_item (test_decl test)))
      ∷ []))

abbrev test_tools : (Value → Bool) → Value → Bool
test_tools test = test_array (any_item (test_tool test))

abbrev test_body : (Value → Bool) → Fields → Bool
test_body test =
    test_fields (
      ("tools", test_tools test)
      ∷ ("request", test_object (test_at "tools" (test_tools test)))
      ∷ [])

or_false : (a : Bool) → (a || false) ≡ a
or_false a = ground arith

or_end : (a b : Bool) → (a || b) ≡ (a || (b || false))
or_end a b = ground arith

any_of_four :
    (test : Value → Bool) (a b c d : List Value)
    → any test (a ++ b ++ c ++ d)
      ≡ (any test a || (any test b || (any test c || (any test d || false))))
any_of_four test a b c d =
    any-append test (a ++ b ++ c) d
    ∙ rw (any-append test (a ++ b) c, any-append test a b) (ground arith)

module _ (test : Value → Bool) where
  any-schemas_of_decl : (d : Value) → any test (schemas_of_decl d) ≡ test_decl test d
  unfolding schemas_of_decl field_of test_object test_fields any
  any-schemas_of_decl null = refl
  any-schemas_of_decl (boolean b) = refl
  any-schemas_of_decl (number n) = refl
  any-schemas_of_decl (str s) = refl
  any-schemas_of_decl (array xs) = refl
  any-schemas_of_decl (object fs) =
      any-append test (present (get_field "parameters" fs))
        (present (get_field "parametersJsonSchema" fs))
      ∙ rw
          (
            any-present test (get_field "parameters" fs),
            any-present test (get_field "parametersJsonSchema" fs),
          )
          (or_end _ _)

  any-schemas_of_tool : (t : Value) → any test (schemas_of_tool t) ≡ test_tool test t
  unfolding schemas_of_tool field_of test_object test_fields any items_of
  any-schemas_of_tool null = refl
  any-schemas_of_tool (boolean b) = refl
  any-schemas_of_tool (number n) = refl
  any-schemas_of_tool (str s) = refl
  any-schemas_of_tool (array xs) = refl
  any-schemas_of_tool (object fs) =
      let p1 = any-present test (get_field "input_schema" fs) in
      let p2 = any-present test (get_field "parameters" fs) in
      let p3 =
        any-on_value test (λ fn. present (field_of "parameters" fn))
          (test_object (test_at "parameters" test)) (any-field_of test "parameters")
          (get_field "function" fs) in
      let p4 =
        any-items test schemas_of_decl (test_decl test) any-schemas_of_decl
          (get_field "functionDeclarations" fs) in
      any_of_four test (present (get_field "input_schema" fs)) (present (get_field "parameters" fs))
        (on_value (λ fn. present (field_of "parameters" fn)) (get_field "function" fs))
        (concat_map schemas_of_decl (items_of (get_field "functionDeclarations" fs)))
      ∙ rw (p1, p2, p3, p4) refl

  any-schemas_of_body :
      (b : Fields) → any test (schemas_of_body (object b)) ≡ test_at "tools" (test_tools test) b
  unfolding schemas_of_body field_of
  any-schemas_of_body b =
      any-items test schemas_of_tool (test_tool test) any-schemas_of_tool (get_field "tools" b)

  any-schemas_of_request :
      (v : Value)
      → any test (concat_map schemas_of_body (object_only v))
        ≡ test_object (test_at "tools" (test_tools test)) v
  unfolding object_only test_object any
  any-schemas_of_request null = refl
  any-schemas_of_request (boolean b) = refl
  any-schemas_of_request (number n) = refl
  any-schemas_of_request (str s) = refl
  any-schemas_of_request (array xs) = refl
  any-schemas_of_request (object fs) =
      any-append test (schemas_of_body (object fs)) []
      ∙ rw (any-schemas_of_body fs) (or_false (test_at "tools" (test_tools test) fs))

  any_requests :
      (v : Option Value)
      → any test (concat_map schemas_of_body (on_value object_only v))
        ≡ on_some (test_object (test_at "tools" (test_tools test))) v
  unfolding any
  any_requests none = refl
  any_requests (some v) = any-schemas_of_request v

  any-tool_schemas : (m : Fields) → any test (tool_schemas m) ≡ test_body test m
  unfolding tool_schemas bodies test_fields
  any-tool_schemas m =
      any-append test (schemas_of_body (object m)) _
      ∙ rw (any-schemas_of_body m, any_requests (get_field "request" m))
          (or_end _ (test_at "request" (test_object (test_at "tools" (test_tools test))) m))

module _ {edit : Edit Value} {test : Value → Bool} (exact : IsExact edit test) where
  edit_decl-IsExact : IsExact (edit_decl edit) (test_decl test)
  unfolding edit_decl
  edit_decl-IsExact =
      in_object-IsExact (at_fields-IsExact _ _ (refl, exact, (refl, tt), (refl, exact, tt, tt)))

  edit_tool-IsExact : IsExact (edit_tool edit) (test_tool test)
  unfolding edit_tool
  edit_tool-IsExact =
      let in_function = in_object-IsExact (at_field-IsExact exact "parameters") in
      let in_decls = in_array-IsExact (each_item-IsExact edit_decl-IsExact) in
      in_object-IsExact (
        at_fields-IsExact _ _ (
          refl,
          exact,
          (refl, (refl, (refl, tt))),
          (
            refl,
            exact,
            (refl, (refl, tt)),
            (refl, in_function, (refl, tt), (refl, in_decls, tt, tt)),
          ),
        ))

-- A Schema rule takes its key out of every schema that `toolSchemas` lists, parameters' names apart,
-- reports a change exactly where one of them had it, and where it reports none the body is as it was.
pub drop_in_schemas-Removes :
    (key : String) (m : Fields)
    → Removes m
        (drop_in_schemas key m).0
        (drop_in_schemas key m).1
        (λ b. any (holds_key key) (tool_schemas b))
unfolding drop_in_schemas
drop_in_schemas-Removes key m =
    let tools = in_array-IsExact (each_item-IsExact (edit_tool-IsExact (drop_key-Removes key))) in
    let request = in_object-IsExact (at_field-IsExact tools "tools") in
    let r = at_fields-IsExact _ _ (refl, tools, (refl, tt), (refl, request, tt, tt)) m in
    let listed = any-tool_schemas (holds_key key) in
    record {
      reports = r.reports ∙ sym (listed m);
      leaves_none = listed (drop_in_schemas key m).0 ∙ r.leaves_none;
      spares = r.spares;
    }
