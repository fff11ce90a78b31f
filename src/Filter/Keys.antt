-- ===== src/Filter/Keys.antt =====
-- `dropKey`: what is gone afterwards, and when nothing changes.
use intact.Prelude.{String, refl, ap, arith, Bool, false, ◌||◌, str_eq, if◌then◌else◌}
use intact.Json.{
  Value, null, boolean, number, str, array, object, Items, nil, cons, Fields, end, field,
}
use intact.Json.Edits.{Removes}
use intact.Filter.{drop_key, drop_key_items, drop_key_fields, drop_key_props, drop_key_each}

-- Whether a schema has the key, names of parameters apart.
unfoldable mutual
  pub holds_key : String → Value → Bool
  holds_key key (array xs) = items_hold_key key xs
  holds_key key (object fs) = fields_hold_key key fs
  holds_key key null = false
  holds_key key (boolean b) = false
  holds_key key (number n) = false
  holds_key key (str s) = false

  pub items_hold_key : String → Items → Bool
  items_hold_key key nil = false
  items_hold_key key (cons v xs) = holds_key key v || items_hold_key key xs

  pub fields_hold_key : String → Fields → Bool
  fields_hold_key key end = false
  fields_hold_key key (field k v fs) =
      let below = if str_eq k "properties" then props_hold_key key v else holds_key key v in
      str_eq k key || (below || fields_hold_key key fs)

  pub props_hold_key : String → Value → Bool
  props_hold_key key (object fs) = each_holds_key key fs
  props_hold_key key (array xs) = items_hold_key key xs
  props_hold_key key null = false
  props_hold_key key (boolean b) = false
  props_hold_key key (number n) = false
  props_hold_key key (str s) = false

  pub each_holds_key : String → Fields → Bool
  each_holds_key key end = false
  each_holds_key key (field k v fs) = holds_key key v || each_holds_key key fs

mutual
  unfolding drop_key holds_key

  drop_key_exact :
      (key : String) (v : Value) → Removes v (drop_key key v).0 (drop_key key v).1 (holds_key key)
  drop_key_exact key (array xs) =
      let ih = drop_key_items_exact key xs in
      record {
        reports = ih.reports;
        leaves_none = ih.leaves_none;
        spares = λ h. ap array (ih.spares h);
      }
  drop_key_exact key (object fs) =
      let ih = drop_key_fields_exact key fs in
      record {
        reports = ih.reports;
        leaves_none = ih.leaves_none;
        spares = λ h. ap object (ih.spares h);
      }
  drop_key_exact key null = record { reports = refl; leaves_none = refl; spares = λ h. refl }
  drop_key_exact key (boolean b) = record { reports = refl; leaves_none = refl; spares = λ h. refl }
  drop_key_exact key (number n) = record { reports = refl; leaves_none = refl; spares = λ h. refl }
  drop_key_exact key (str s) = record { reports = refl; leaves_none = refl; spares = λ h. refl }

  drop_key_items_exact :
      (key : String) (xs : Items)
      → Removes xs (drop_key_items key xs).0 (drop_key_items key xs).1 (items_hold_key key)
  drop_key_items_exact key nil = record { reports = refl; leaves_none = refl; spares = λ h. refl }
  drop_key_items_exact key (cons v xs) =
      let p = drop_key_exact key v in
      let q = drop_key_items_exact key xs in
      record {
        reports = ground (arith, p.reports, q.reports);
        leaves_none = ground (arith, p.leaves_none, q.leaves_none);
        spares = λ h. ground (arith, p.spares, q.spares);
      }

  drop_key_fields_exact :
      (key : String) (fs : Fields)
      → Removes fs (drop_key_fields key fs).0 (drop_key_fields key fs).1 (fields_hold_key key)
  drop_key_fields_exact key end = record { reports = refl; leaves_none = refl; spares = λ h. refl }
  drop_key_fields_exact key (field k v fs) =
      let p = drop_key_exact key v in
      let q = drop_key_fields_exact key fs in
      let r = drop_key_props_exact key v in
      record {
        reports = ground (arith, p.reports, q.reports, r.reports);
        leaves_none = ground (arith, p.leaves_none, q.leaves_none, r.leaves_none);
        spares = λ h. ground (arith, p.spares, q.spares, r.spares);
      }

  drop_key_props_exact :
      (key : String) (v : Value)
      → Removes v (drop_key_props key v).0 (drop_key_props key v).1 (props_hold_key key)
  drop_key_props_exact key (array xs) =
      let ih = drop_key_items_exact key xs in
      record {
        reports = ih.reports;
        leaves_none = ih.leaves_none;
        spares = λ h. ap array (ih.spares h);
      }
  drop_key_props_exact key (object fs) =
      let ih = drop_key_each_exact key fs in
      record {
        reports = ih.reports;
        leaves_none = ih.leaves_none;
        spares = λ h. ap object (ih.spares h);
      }
  drop_key_props_exact key null = record { reports = refl; leaves_none = refl; spares = λ h. refl }
  drop_key_props_exact key (boolean b) = record {
    reports = refl;
    leaves_none = refl;
    spares = λ h. refl;
  }
  drop_key_props_exact key (number n) = record {
    reports = refl;
    leaves_none = refl;
    spares = λ h. refl;
  }
  drop_key_props_exact key (str s) = record {
    reports = refl;
    leaves_none = refl;
    spares = λ h. refl;
  }

  drop_key_each_exact :
      (key : String) (fs : Fields)
      → Removes fs (drop_key_each key fs).0 (drop_key_each key fs).1 (each_holds_key key)
  drop_key_each_exact key end = record { reports = refl; leaves_none = refl; spares = λ h. refl }
  drop_key_each_exact key (field k v fs) =
      let p = drop_key_exact key v in
      let q = drop_key_each_exact key fs in
      record {
        reports = ground (arith, p.reports, q.reports);
        leaves_none = ground (arith, p.leaves_none, q.leaves_none);
        spares = λ h. ground (arith, p.spares, q.spares);
      }

-- After `dropKey` no schema has the key, parameters' names apart; it reports a change exactly where
-- one had it, and where it reports none the schema is as it was.
pub drop_key-Removes :
    (key : String) (v : Value) → Removes v (drop_key key v).0 (drop_key key v).1 (holds_key key)
drop_key-Removes key v = drop_key_exact key v
