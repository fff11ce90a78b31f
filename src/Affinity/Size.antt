-- ===== src/Affinity/Size.antt =====
-- The map never grows past its bound.
use intact.Prelude.{
  ℕ, ◌≤◌, ◌<◌, List, [], ◌∷◌, String, inl, inr, arith, leb, Option, none, some, length, Bool-cases,
  Option-cases,
}
use intact.Prelude.Dict.{lookup, length-insert-le, length-insert_known, length-delete-le}
use intact.Affinity.{
  Affinity, AffinityEntry, affinity_max, expired, prune, set_entry, get, get_entry, is_known,
}
use intact.Affinity.Trace.{Op, asks, answers, apply, run, InOrder}
use intact.Affinity.Prune.{
  IsPast, prune-lt, prune-IsPast, IsPast-later, insert-IsPast, delete-IsPast,
}

-- The map is within its bound, and was written in the past.
pub record IsSmall (max last : ℕ) (m : Affinity) : Type 0 where
  pub fits : length m ≤ max
  pub past : IsPast last m

module _ (max last now : ℕ) (m : Affinity) (pos : 0 < max) (fresh : last ≤ now)
    (s : IsSmall max last m) where
  set_entry-IsSmall : (key conn : String) → IsSmall max now (set_entry max m key conn now)
  unfolding set_entry
  set_entry-IsSmall key conn =
      let e : AffinityEntry = record { conn = conn; seen = now } in
      let past = IsPast-later last now m fresh s.past in
      elim (Option-cases (lookup key m)) [
        | inl new ↦ elim (Bool-cases (leb max (length m))) [
          | inl full ↦
              rw (new, is_known, full)
                (record {
                  fits = omega (
                    arith,
                    prune-lt max now m pos s.fits past,
                    length-insert-le key e (prune max now m),
                  );
                  past = insert-IsPast now key conn _ (prune-IsPast max now now m past);
                })
          | inr room ↦
              rw (new, is_known, room)
                (record {
                  fits = ground (arith, length-insert-le key e m);
                  past = insert-IsPast now key conn m past;
                })
        ]
        | inr (old, known) ↦
            rw (known, is_known)
              (record {
                fits = omega (arith, s.fits, length-insert_known key e m old known);
                past = insert-IsPast now key conn m past;
              })
      ]

  get-IsSmall : (key : String) → IsSmall max now (get m key now).0
  unfolding get
  get-IsSmall key = go (lookup key m)
    where
      go : (o : Option AffinityEntry) → IsSmall max now (get_entry m key now o).0
      go none = record { fits = s.fits; past = IsPast-later last now m fresh s.past }
      go (some e) = elim (Bool-cases (expired now e)) [
        | inl old ↦ rw old (record {
          fits = omega (arith, s.fits, length-delete-le key m);
          past = delete-IsPast now key m (IsPast-later last now m fresh s.past);
        })
        | inr young ↦
            rw young (record { fits = s.fits; past = IsPast-later last now m fresh s.past })
      ]

run-IsSmall :
    (ops : List Op) (last : ℕ) (m : Affinity)
    → InOrder last ops
    → IsSmall affinity_max last m
    → length (run m ops) ≤ affinity_max
unfolding run apply
run-IsSmall [] last m o s = s.fits
run-IsSmall (asks key now ∷ ops) last m o s =
    run-IsSmall ops now _ o.1 (get-IsSmall affinity_max last now m (omega arith) o.0 s key)
run-IsSmall (answers key conn now ∷ ops) last m o s =
    run-IsSmall ops now _ o.1
      (set_entry-IsSmall affinity_max last now m (omega arith) o.0 s key conn)

-- From an empty map, after any calls of `get` and `set` with a clock that does not run backwards,
-- the map holds at most 20000 sessions.
pub length-run-le : (ops : List Op) → InOrder 0 ops → length (run [] ops) ≤ affinity_max
length-run-le ops o = run-IsSmall ops 0 [] o (record { fits = omega arith; past = tt })
