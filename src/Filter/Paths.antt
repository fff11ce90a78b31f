-- ===== src/Filter/Paths.antt =====
-- `dropPath`: what is gone afterwards, and when nothing changes.
use intact.Prelude.{
  String, ◌≡◌, refl, ap, arith, Bool, false, not, List, [], ◌∷◌, str_eq, if◌then◌else◌, Bool-cases,
  inl, inr,
}
use intact.Json.{
  Value, null, boolean, number, str, array, object, Fields, end, field, has_field, delete_field,
  Edit, in_object, in_array,
}
use intact.Json.Edits.{
  IsExact, nothing, any_field, any_item, test_at, each_item-IsExact, each_field-IsExact,
  at_field-IsExact, test_object, test_array, in_object-IsExact, in_array-IsExact,
}
use intact.Filter.{is_end, drop_last, drop_through, drop_path}

-- Whether a path leads to a key of a map: "*" stands for any key, or for any item on the way.
unfoldable pub names_key : String → Value → Bool
names_key seg (object fs) = if str_eq seg "*" then not (is_end fs) else has_field seg fs
names_key seg v = false

unfoldable pub passes : String → (Value → Bool) → Value → Bool
passes seg below (object fs) = if str_eq seg "*" then any_field below fs else test_at seg below fs
passes seg below (array xs) = if str_eq seg "*" then any_item below xs else false
passes seg below v = false

unfoldable pub matches : List String → Value → Bool
unfolding names_key passes
matches [] v = false
matches (seg ∷ []) v = names_key seg v
matches (seg ∷ next ∷ rest) v = passes seg (matches (next ∷ rest)) v

has_field-delete_field : (key : String) (fs : Fields) → has_field key (delete_field key fs) ≡ false
unfolding has_field delete_field
has_field-delete_field key end = refl
has_field-delete_field key (field k v fs) = ground (arith, has_field-delete_field key fs)

delete_field_missing :
    (key : String) (fs : Fields) → has_field key fs ≡ false → delete_field key fs ≡ fs
unfolding has_field delete_field
delete_field_missing key end h = refl
delete_field_missing key (field k v fs) h = ground (arith, delete_field_missing key fs)

is_end_iff : (fs : Fields) → not (is_end fs) ≡ false → end ≡ fs
unfolding is_end
is_end_iff end h = refl
is_end_iff (field k v fs) h = cc

drop_last-IsExact : (seg : String) → IsExact (drop_last seg) (names_key seg)
unfolding drop_last names_key is_end
drop_last-IsExact seg null = nothing null _ refl
drop_last-IsExact seg (boolean b) = nothing (boolean b) _ refl
drop_last-IsExact seg (number n) = nothing (number n) _ refl
drop_last-IsExact seg (str s) = nothing (str s) _ refl
drop_last-IsExact seg (array xs) = nothing (array xs) _ refl
drop_last-IsExact seg (object fs) = elim (Bool-cases (str_eq seg "*")) [
  | inl star ↦ rw star (record {
    reports = rw star refl;
    leaves_none = rw star refl;
    spares = λ h. ap object (is_end_iff fs h);
  })
  | inr named ↦ rw named (record {
    reports = rw named refl;
    leaves_none = rw named (has_field-delete_field seg fs);
    spares = λ h. ap object (delete_field_missing seg fs h);
  })
]

drop_through-IsExact :
    (seg : String) {deeper : Edit Value} {below : Value → Bool}
    → IsExact deeper below
    → IsExact (drop_through seg deeper) (passes seg below)
unfolding drop_through passes test_object test_array in_object in_array
drop_through-IsExact seg exact null = nothing null _ refl
drop_through-IsExact seg exact (boolean b) = nothing (boolean b) _ refl
drop_through-IsExact seg exact (number n) = nothing (number n) _ refl
drop_through-IsExact seg exact (str s) = nothing (str s) _ refl
drop_through-IsExact seg exact (array xs) = elim (Bool-cases (str_eq seg "*")) [
  | inl star ↦
      let r = in_array-IsExact (each_item-IsExact exact) (array xs) in
      rw star (record {
        reports = rw star r.reports;
        leaves_none = rw star r.leaves_none;
        spares = r.spares;
      })
  | inr named ↦ rw named (nothing (array xs) _ (rw named refl))
]
drop_through-IsExact seg exact (object fs) = elim (Bool-cases (str_eq seg "*")) [
  | inl star ↦
      let r = in_object-IsExact (each_field-IsExact exact) (object fs) in
      rw star (record {
        reports = rw star r.reports;
        leaves_none = rw star r.leaves_none;
        spares = r.spares;
      })
  | inr named ↦
      let r = in_object-IsExact (at_field-IsExact exact seg) (object fs) in
      rw named (record {
        reports = rw named r.reports;
        leaves_none = rw named r.leaves_none;
        spares = r.spares;
      })
]

-- After `dropPath` the path leads to no key of the value; it reports a change exactly where the path
-- led to one, and where it reports none the value is as it was.
pub drop_path-IsExact : (path : List String) → IsExact (drop_path path) (matches path)
unfolding drop_path matches
drop_path-IsExact [] v = nothing v _ refl
drop_path-IsExact (seg ∷ []) v = drop_last-IsExact seg v
drop_path-IsExact (seg ∷ next ∷ rest) v =
    drop_through-IsExact seg (drop_path-IsExact (next ∷ rest)) v
