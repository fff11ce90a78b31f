-- ===== src/Rotation/Tests.antt =====
-- Runs of the rotation, and its theorems at concrete inputs.
use mathlib.Core.List.{Perm}
use intact.Prelude.{
  ℕ, ◌/◌, ◌%◌, List, [], ◌∷◌, String, ◌≡◌, refl, Bool, true, false, Option, arith, keep, eq_iff,
}
use intact.Prelude.Dict.{lookup, insert}
use intact.Prelude.Int.{pos, negsuc}
use intact.Rotation.{
  Connection, Rotation, default_rotation, rotation_of, place_of, before, ordered, advance,
  with_standby_last, one_provider, start_for,
}
use intact.Rotation.Order.{IsByPlace, same_place, ordered_sorts}
use intact.Rotation.Turns.{Turn, run, calls_of, advance_takes_turns}
use intact.Rotation.Standby.{tries, IsStandbyLast, with_standby_last-tries}
use intact.Rotation.Start.{start_for-tries}

program : Unit {0}
unfolding rotation_of place_of before ordered advance with_standby_last one_provider start_for
    lookup insert
program = tt

abbrev account : String → String → Bool → Connection
account id prov standby = record {
  id = id;
  provider = prov;
  label = "";
  is_active = true;
  standby = standby;
  base_url = "";
  meta = [];
}

abbrev accounts : List Connection
accounts =
    account "a" "p" false
    ∷ account "b" "p" true
    ∷ account "c" "p" false
    ∷ account "d" "p" false
    ∷ []

abbrev c_first : Rotation
c_first = record { mode = "round-robin"; sticky = pos 2; order = "c" ∷ [] }

ordered-accounts :
    ordered c_first accounts
    ≡ account "c" "p" false
      ∷ account "a" "p" false
      ∷ account "b" "p" true
      ∷ account "d" "p" false
      ∷ []
unfolding program
ordered-accounts = refl

bad_rotation :
    rotation_of (record { mode = "odd"; sticky = negsuc 4; order = [] }) ≡ default_rotation
unfolding program
bad_rotation = refl

-- The second turn starts at the second normal account of the rotation's order.
third_request :
    tries (
      start_for
        (λ p. c_first)
        "m"
        (account "a" "p" false)
        (account "b" "p" true ∷ account "c" "p" false ∷ account "d" "p" false ∷ [])
        (("p:p", record { i = 1; used = 0 }) ∷ []))
    ≡ account "a" "p" false
      ∷ account "d" "p" false
      ∷ account "c" "p" false
      ∷ account "b" "p" true
      ∷ []
unfolding program
third_request = refl

ordered_sorts_example :
    Perm (ordered c_first accounts) accounts
    × IsByPlace (place_of c_first) (ordered c_first accounts)
    × ((p : Option ℕ)
        → keep (λ c. same_place p (place_of c_first c)) (ordered c_first accounts)
          ≡ keep (λ c. same_place p (place_of c_first c)) accounts)
ordered_sorts_example = ordered_sorts c_first accounts

abbrev turns : List Turn
turns =
    record { key = "p:p"; n = 3; sticky = pos 2 }
    ∷ record { key = "m:x"; n = 2; sticky = pos 1 }
    ∷ record { key = "p:p"; n = 3; sticky = pos 2 }
    ∷ record { key = "p:p"; n = 3; sticky = pos 2 }
    ∷ []

advance_takes_turns_example :
    (advance (run [] turns) "p:p" 3 (pos 2)).1 ≡ calls_of "p:p" turns / 2 % 3
advance_takes_turns_example =
    advance_takes_turns 3 2 "p:p" turns (omega arith) (omega arith)
      (same, (λ e. absurd (ground (arith, eq_iff "m:x" "p:p")), (same, (same, tt))))
  where
    same : ◌≡◌ {A = String} "p:p" "p:p" → (◌≡◌ {A = ℕ} 3 3) × (pos 2 ≡ pos 2)
    same e = (refl, refl)

with_standby_last-tries_example :
    Perm (tries (with_standby_last accounts (λ n m. (m, 1)) [])) accounts
    × IsStandbyLast (tries (with_standby_last accounts (λ n m. (m, 1)) []))
with_standby_last-tries_example = with_standby_last-tries accounts (λ n m. (m, 1)) [] (λ e. cc)

start_for-tries_example :
    Perm
      (tries (start_for (λ p. c_first) "m" (account "a" "p" false) (account "b" "q" true ∷ []) []))
      (account "a" "p" false ∷ account "b" "q" true ∷ [])
    × IsStandbyLast (
        tries (start_for (λ p. c_first) "m" (account "a" "p" false) (account "b" "q" true ∷ []) []))
start_for-tries_example =
    start_for-tries (λ p. c_first) "m" (account "a" "p" false) (account "b" "q" true ∷ []) []
