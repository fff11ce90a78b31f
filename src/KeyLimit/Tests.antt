-- ===== src/KeyLimit/Tests.antt =====
-- Runs of the limiter, and its theorems at concrete inputs.
use intact.Prelude.{ℕ, ◌+◌, ◌-◌, ◌≤◌, ◌<◌, ◌*◌, List, [], ◌∷◌, ◌≡◌, refl, some, arith, leb, ◌⊎◌}
use intact.Prelude.Dict.{lookup, insert, delete}
use intact.Window.{minute, second, trim_window}
use intact.KeyLimit.{Limiter, allow, count, allowed, refused}
use intact.KeyLimit.Spec.{Call, ask, tally, answered, counted, run, ideal_run}
use intact.KeyLimit.Refines
use intact.KeyLimit.Waits
use intact.KeyLimit.Waits.{admits}

-- Two keys with a cap of 2, over a little more than a minute.
abbrev calls : List Call
calls =
    ask "a" 2 0
    ∷ ask "a" 2 second
    ∷ ask "b" 2 second
    ∷ ask "a" 2 (2 * second)
    ∷ tally "a" (3 * second)
    ∷ ask "a" 2 minute
    ∷ tally "b" (2 * minute)
    ∷ []

run-calls :
    run [] calls
    ≡ answered (some allowed)
      ∷ answered (some allowed)
      ∷ answered (some allowed)
      ∷ answered (some (refused (58 * second)))
      ∷ counted 2
      ∷ answered (some allowed)
      ∷ counted 0
      ∷ []
unfolding run allow count lookup insert delete trim_window
run-calls = refl

run-eq-ideal_run_example : run [] calls ≡ ideal_run [] calls
run-eq-ideal_run_example = Refines.run-eq-ideal_run calls (omega arith)

abbrev one_key : Limiter
one_key = ("a", 5 ∷ 7 ∷ []) ∷ []

allow_answers_example :
    ((allow one_key "a" 2 9).1 ≡ some allowed)
    ⊎ ((w : ℕ) × ((allow one_key "a" 2 9).1 ≡ some (refused w)) × (0 < w) × (w ≤ minute))
unfolding lookup
allow_answers_example =
    Waits.allow_answers one_key "a" 2 9 (omega arith) (omega arith) (omega arith)

allow_after_wait_example :
    admits (allow (allow one_key "a" 2 9).0 "a" 2 (9 + minute)).1 ≡ leb (minute - 4) minute
unfolding allow lookup insert trim_window
allow_after_wait_example =
    Waits.allow_after_wait one_key "a" 2 9 (omega arith) (omega arith) (minute - 4) minute refl
