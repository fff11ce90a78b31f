-- ===== src/Affinity/Tests.antt =====
-- Runs of the session pins, and their theorems at concrete inputs.
use intact.Prelude.{
  ◌+◌, ◌≤◌, List, [], ◌∷◌, String, ◌≡◌, ◌⊎◌, refl, Bool, true, false, some, none, arith, leb,
  length, if◌then◌else◌,
}
use intact.Prelude.Dict.{lookup, insert, delete}
use intact.Rotation.{Connection, default_rotation, place_of, before, ordered}
use intact.Affinity.{
  Affinity, AffinityEntry, affinity_max, affinity_ttl, get, set, set_entry, prune, session_order,
  skip_spent,
}
use intact.Affinity.Trace.{Op, asks, answers, run, apply, last_answer}
use intact.Affinity.Size
use intact.Affinity.Reads
use intact.Affinity.Home.{LeadsHome, session_order-LeadsHome}

program : Unit {0}
unfolding get set_entry prune session_order skip_spent lookup insert delete ordered place_of before
program = tt

abbrev calls : List Op
calls = answers "s" "a" 1 ∷ asks "s" 2 ∷ answers "t" "b" 3 ∷ answers "s" "c" 4 ∷ []

get-calls : (get (run [] calls) "s" 5).1 ≡ "c"
unfolding program run apply
get-calls = refl

-- With room for two, a third session drops the older half.
pruned :
    (set_entry 2
      (("s", record { conn = "a"; seen = 1 }) ∷ ("t", record { conn = "b"; seen = 9 }) ∷ [])
      "u"
      "c"
      10)
    ≡ ("t", record { conn = "b"; seen = 9 }) ∷ ("u", record { conn = "c"; seen = 10 }) ∷ []
unfolding program
pruned = refl

length-run-le_example : length (run [] calls) ≤ affinity_max
length-run-le_example = Size.length-run-le calls (omega arith)

get-run_example :
    ((get (run [] calls) "s" 5).1 ≡ "")
    ⊎ ((e : AffinityEntry) × (last_answer "s" none calls ≡ some e)
        × ((get (run [] calls) "s" 5).1 ≡ e.conn)
        × (5 ≤ e.seen + affinity_ttl))
get-run_example = Reads.get-run calls "s" 5

get-set_self_example :
    (get (set [] "s" "a" 1) "s" (2 + affinity_ttl)).1
    ≡ (if leb (2 + affinity_ttl) (1 + affinity_ttl) then "a" else "")
get-set_self_example = Reads.get-set_self [] "s" "a" 1 (2 + affinity_ttl)

abbrev account : String → Bool → Connection
account id standby = record {
  id = id;
  provider = "p";
  label = "";
  is_active = true;
  standby = standby;
  base_url = "";
  meta = [];
}

abbrev accounts : List Connection
accounts = account "a" false ∷ account "b" true ∷ account "c" false ∷ []

abbrev pinned : Affinity
pinned = ("s", record { conn = "c"; seen = 1 }) ∷ []

abbrev c_first : List Connection
c_first = account "c" false ∷ account "a" false ∷ account "b" true ∷ []

session_order-LeadsHome_example : LeadsHome (get pinned "s" 2).1 accounts c_first
unfolding program
session_order-LeadsHome_example =
    session_order-LeadsHome pinned default_rotation "s" accounts 2 c_first
      ((refl, (refl, tt)), ((refl, tt), (tt, tt))) refl

skipped :
    skip_spent (λ id model. leb 1 0) (record { conn = account "a" false; model = "" } ∷ []) "m"
    ≡ record { conn = account "a" false; model = "" } ∷ []
unfolding program
skipped = refl
