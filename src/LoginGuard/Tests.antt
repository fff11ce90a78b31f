-- ===== src/LoginGuard/Tests.antt =====
-- Runs of the guard, and its theorems at concrete inputs.
use intact.Prelude.{◌+◌, ◌-◌, ◌*◌, List, [], ◌∷◌, ◌≡◌, refl, false, arith, leb}
use intact.Prelude.Dict.{lookup, insert, delete}
use intact.Window.{minute, trim_window}
use intact.LoginGuard.{
  LoginGuard, new_login_guard, lane_local, lane_device, lane_public, reserve, refund, store,
  window_wait, without_last,
}
use intact.LoginGuard.Charges.{Attempt, attempt, checked, ideal, WithinBudgets, last_time}
use intact.LoginGuard.Refines.{checked-eq-ideal}
use intact.LoginGuard.Budgets.{checked-WithinBudgets}
use intact.LoginGuard.Bounds.{IsBounded, here, next, reserved, refunded, Reach-IsBounded}
use intact.LoginGuard.Retry.{reserve_after_wait}

program : Unit {0}
unfolding reserve refund store window_wait without_last lookup insert delete trim_window
program = tt

-- Six codes from one address inside a minute, one of a device, one more after the window.
abbrev burst : List Attempt
burst =
    attempt (lane_public "x") 1
    ∷ attempt (lane_public "x") 2
    ∷ attempt (lane_device "d") 2
    ∷ attempt (lane_public "x") 3
    ∷ attempt (lane_public "x") 4
    ∷ attempt (lane_public "x") 5
    ∷ attempt (lane_public "x") 6
    ∷ attempt lane_local 7
    ∷ attempt (lane_public "x") (15 * minute + 1)
    ∷ []

abbrev burst_checked : List Attempt
burst_checked =
    attempt (lane_public "x") 1
    ∷ attempt (lane_public "x") 2
    ∷ attempt (lane_device "d") 2
    ∷ attempt (lane_public "x") 3
    ∷ attempt (lane_public "x") 4
    ∷ attempt (lane_public "x") 5
    ∷ attempt lane_local 7
    ∷ attempt (lane_public "x") (15 * minute + 1)
    ∷ []

checked-burst : checked (new_login_guard false) burst ≡ burst_checked
unfolding program checked
checked-burst = refl

checked-eq-ideal_example : checked (new_login_guard false) burst ≡ ideal [] burst
checked-eq-ideal_example = checked-eq-ideal false burst (omega arith)

checked-WithinBudgets_example :
    WithinBudgets (last_time 0 burst) (checked (new_login_guard false) burst)
checked-WithinBudgets_example = checked-WithinBudgets false burst (omega arith)

-- A guard with a full device window.
abbrev full_guard : LoginGuard
full_guard = record (new_login_guard false) {
  device = ("d", 1 ∷ 2 ∷ 3 ∷ 4 ∷ 5 ∷ 6 ∷ 7 ∷ 8 ∷ 9 ∷ 10 ∷ []) ∷ [];
}

abbrev one_try : LoginGuard
one_try = (reserve (new_login_guard false) (lane_public "x") 1).0

Reach-IsBounded_example : IsBounded (refund one_try (lane_public "x"))
Reach-IsBounded_example = Reach-IsBounded false (refund one_try (lane_public "x")) (
    next (next here (reserved (new_login_guard false) (lane_public "x") 1))
      (refunded one_try (lane_public "x")))

full_guard-IsBounded : IsBounded full_guard
unfolding lookup
full_guard-IsBounded = record {
  each_ip = λ ip. omega arith;
  each_device = λ id. ground arith;
  all = omega arith;
}

reserve_after_wait_example :
    (reserve full_guard (lane_device "d") (20 + 24 * (60 * minute))).1
    ≡ leb (24 * (60 * minute) - 19) (24 * (60 * minute))
unfolding program
reserve_after_wait_example =
    reserve_after_wait full_guard full_guard "d" 20 (24 * (60 * minute) - 19) (24 * (60 * minute))
      full_guard-IsBounded refl
