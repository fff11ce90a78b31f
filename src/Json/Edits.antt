-- ===== src/Json/Edits.antt =====
-- Edits that remove: what one does at a key, in a list or in a map follows from what it does to the
-- value there.
use intact.Prelude.{
  String, ◌≡◌, refl, ap, sym, ◌∙◌, arith, Bool, false, ◌||◌, Option, none, some, List, [], ◌∷◌,
  str_eq, eq_iff, All,
}
use intact.Json.{
  Value, null, boolean, number, str, array, object, Items, nil, cons, Fields, end, field, get_field,
  Edit, at_field, each_field, each_item, in_object, in_array, at_fields,
}

-- What an edit does of a test: it reports what was there, leaves nothing of it, and changes nothing
-- where there was none.
pub record Removes {ℓ} {A : Type ℓ} (before after : A) (changed : Bool) (test : A → Bool)
    : Type ℓ where
  pub reports : changed ≡ test before
  pub leaves_none : test after ≡ false
  pub spares : changed ≡ false → after ≡ before

abbrev pub IsExact {ℓ} : {A : Type ℓ} → Edit A → (A → Bool) → Type ℓ
IsExact {A = A} edit test = (v : A) → Removes v (edit v).0 (edit v).1 test

abbrev pub on_some {ℓ} : {A : Type ℓ} → (A → Bool) → Option A → Bool
on_some test none = false
on_some test (some v) = test v

unfoldable pub any_item : (Value → Bool) → Items → Bool
any_item test nil = false
any_item test (cons v xs) = test v || any_item test xs

unfoldable pub any_field : (Value → Bool) → Fields → Bool
any_field test end = false
any_field test (field k v fs) = test v || any_field test fs

abbrev pub test_at : String → (Value → Bool) → Fields → Bool
test_at key test fs = on_some test (get_field key fs)

unfoldable pub test_object : (Fields → Bool) → Value → Bool
test_object test (object fs) = test fs
test_object test v = false

unfoldable pub test_array : (Items → Bool) → Value → Bool
test_array test (array xs) = test xs
test_array test v = false

unfoldable pub test_fields : List (String × (Value → Bool)) → Fields → Bool
test_fields [] fs = false
test_fields (spot ∷ spots) fs = test_at spot.0 spot.1 fs || test_fields spots fs

pub nothing {ℓ} : {A : Type ℓ} (v : A) (test : A → Bool) → test v ≡ false → Removes v v false test
nothing v test h = record { reports = sym h; leaves_none = h; spares = λ e. refl }

module _ {edit : Edit Value} {test : Value → Bool} (exact : IsExact edit test) where
  pub each_item-IsExact : IsExact (each_item edit) (any_item test)
  unfolding each_item any_item
  each_item-IsExact nil = nothing nil _ refl
  each_item-IsExact (cons v xs) =
      let p = exact v in
      let q = each_item-IsExact xs in
      record {
        reports = ground (arith, p.reports, q.reports);
        leaves_none = ground (arith, p.leaves_none, q.leaves_none);
        spares = λ h. ground (arith, p.spares, q.spares);
      }

  pub each_field-IsExact : IsExact (each_field edit) (any_field test)
  unfolding each_field any_field
  each_field-IsExact end = nothing end _ refl
  each_field-IsExact (field k v fs) =
      let p = exact v in
      let q = each_field-IsExact fs in
      record {
        reports = ground (arith, p.reports, q.reports);
        leaves_none = ground (arith, p.leaves_none, q.leaves_none);
        spares = λ h. ground (arith, p.spares, q.spares);
      }

  pub at_field-IsExact : (key : String) → IsExact (at_field key edit) (test_at key test)
  unfolding at_field get_field
  at_field-IsExact key end = nothing end _ refl
  at_field-IsExact key (field k v fs) =
      let p = exact v in
      let q = at_field-IsExact key fs in
      record {
        reports = ground (arith, p.reports, q.reports);
        leaves_none = ground (arith, p.leaves_none, q.leaves_none);
        spares = λ h. ground (arith, p.spares, q.spares);
      }

pub in_object-IsExact :
    {edit : Edit Fields} {test : Fields → Bool}
    → IsExact edit test
    → IsExact (in_object edit) (test_object test)
unfolding in_object test_object
in_object-IsExact e null = nothing null _ refl
in_object-IsExact e (boolean b) = nothing (boolean b) _ refl
in_object-IsExact e (number n) = nothing (number n) _ refl
in_object-IsExact e (str s) = nothing (str s) _ refl
in_object-IsExact e (array xs) = nothing (array xs) _ refl
in_object-IsExact e (object fs) = record {
  reports = (e fs).reports;
  leaves_none = (e fs).leaves_none;
  spares = λ h. ap object ((e fs).spares h);
}

pub in_array-IsExact :
    {edit : Edit Items} {test : Items → Bool}
    → IsExact edit test
    → IsExact (in_array edit) (test_array test)
unfolding in_array test_array
in_array-IsExact e null = nothing null _ refl
in_array-IsExact e (boolean b) = nothing (boolean b) _ refl
in_array-IsExact e (number n) = nothing (number n) _ refl
in_array-IsExact e (str s) = nothing (str s) _ refl
in_array-IsExact e (object fs) = nothing (object fs) _ refl
in_array-IsExact e (array xs) = record {
  reports = (e xs).reports;
  leaves_none = (e xs).leaves_none;
  spares = λ h. ap array ((e xs).spares h);
}

pub get_field-at_field :
    (key other : String) (edit : Edit Value) (fs : Fields)
    → str_eq other key ≡ false
    → get_field other (at_field key edit fs).0 ≡ get_field other fs
unfolding get_field at_field
get_field-at_field key other edit end h = refl
get_field-at_field key other edit (field k v fs) h =
    let ih = get_field-at_field key other edit fs h in
    ground (arith, ih, eq_iff k key, eq_iff k other, eq_iff other key)

-- No edit of the list is at the key.
abbrev pub IsApart {ℓ} : {A : Type ℓ} → String → List (String × A) → Type 0
IsApart key spots = All (λ spot. str_eq key spot.0 ≡ false) spots

get_field-at_fields :
    (key : String) (spots : List (String × Edit Value)) (fs : Fields)
    → IsApart key spots
    → get_field key (at_fields spots fs).0 ≡ get_field key fs
unfolding at_fields
get_field-at_fields key [] fs h = refl
get_field-at_fields key (spot ∷ spots) fs h =
    get_field-at_fields key spots (at_field spot.0 spot.1 fs).0 h.1
    ∙ get_field-at_field spot.0 key spot.1 fs h.0

-- Edits at keys that differ, each with its test.
abbrev pub AreExact : List (String × Edit Value) → List (String × (Value → Bool)) → Type 0
AreExact [] [] = Unit
AreExact [] (q ∷ qs) = ⊥
AreExact (e ∷ es) [] = ⊥
AreExact (e ∷ es) (q ∷ qs) = (e.0 ≡ q.0) × IsExact e.1 q.1 × IsApart e.0 es × AreExact es qs

flipped :
    (key spot other : String) → spot ≡ other → str_eq key spot ≡ false → str_eq other key ≡ false
flipped key spot other same apart = ground (arith, eq_iff key spot, eq_iff other key, same)

test_fields-at_field :
    (key : String) (edit : Edit Value) (fs : Fields) (es : List (String × Edit Value))
    (qs : List (String × (Value → Bool)))
    → IsApart key es
    → AreExact es qs
    → test_fields qs (at_field key edit fs).0 ≡ test_fields qs fs
unfolding test_fields
test_fields-at_field key edit fs [] [] a x = refl
test_fields-at_field key edit fs [] (q ∷ qs) a x = absurd x
test_fields-at_field key edit fs (e ∷ es) [] a x = absurd x
test_fields-at_field key edit fs (e ∷ es) (q ∷ qs) (a, others) (same, exact, apart, xs) =
    let ih = test_fields-at_field key edit fs es qs others xs in
    let kept = get_field-at_field key q.0 edit fs (flipped key e.0 q.0 same a) in rw (ih, kept) refl

pub at_fields-IsExact :
    (es : List (String × Edit Value)) (qs : List (String × (Value → Bool)))
    → AreExact es qs
    → IsExact (at_fields es) (test_fields qs)
unfolding at_fields test_fields
at_fields-IsExact [] [] x fs = nothing fs _ refl
at_fields-IsExact [] (q ∷ qs) x fs = absurd x
at_fields-IsExact (e ∷ es) [] x fs = absurd x
at_fields-IsExact (e ∷ es) (q ∷ qs) (same, exact, apart, xs) fs =
    let p : Removes fs (at_field e.0 e.1 fs).0 (at_field e.0 e.1 fs).1 (test_at q.0 q.1) =
      rw (sym same) (at_field-IsExact exact e.0 fs) in
    let r = at_fields-IsExact es qs xs (at_field e.0 e.1 fs).0 in
    let kept : get_field q.0 (at_fields es (at_field e.0 e.1 fs).0).0
        ≡ get_field q.0 (at_field e.0 e.1 fs).0 =
      rw (sym same) (get_field-at_fields e.0 es (at_field e.0 e.1 fs).0 apart) in
    let free = test_fields-at_field e.0 e.1 fs es qs apart xs in
    record {
      reports = rw (p.reports, r.reports, free) refl;
      leaves_none = rw (kept, p.leaves_none, r.leaves_none) refl;
      spares = λ h. ground (arith, p.spares, r.spares);
    }
