-- ===== src/LoginGuard/Retry.antt =====
-- The wait that a refused attempt is told.
use intact.Prelude.{
  ℕ, suc, ◌+◌, List, [], ◌∷◌, String, ◌≡◌, refl, arith, Bool, true, false, not, leb, length,
  eq_refl,
}
use intact.Prelude.Dict.{insert}
use intact.Window.{times_of, trim_window}
use intact.Window.Laws.{length-trim_window-le, trim_window-head_live}
use intact.LoginGuard.{
  LoginGuard, lane_device, reserve, window_wait, login_device_max, login_device_win,
}
use intact.LoginGuard.Bounds.{IsBounded}
use intact.Window.Maps.{times_of-insert}

not-not : (b : Bool) → not (not b) ≡ b
not-not true = refl
not-not false = refl

-- A window that is exactly full has room again exactly when its wait is over.
full_again :
    (xs ts : List ℕ) (max win now d : ℕ)
    → trim_window xs now win ≡ ts
    → length ts ≡ suc max
    → leb (suc max) (length (trim_window ts (now + d) win)) ≡ not (leb (window_wait ts now win) d)
unfolding window_wait trim_window
full_again xs [] max win now d e full = absurd (omega arith)
full_again xs (t ∷ ts) max win now d e full =
    ground (arith, trim_window-head_live xs now win t ts e, length-trim_window-le ts (now + d) win)

module _ (g : LoginGuard) (id : String) (now : ℕ) where
  abbrev device_win : List ℕ
  device_win = trim_window (times_of g.device id) now login_device_win

  device_answer :
      (reserve g (lane_device id) now).1 ≡ not (leb login_device_max (length device_win))
  unfolding reserve
  device_answer = ground arith

  refused_device :
      (h : LoginGuard) (w : ℕ)
      → reserve g (lane_device id) now ≡ (h, false, w)
      → (leb login_device_max (length device_win) ≡ true)
        × (h.device ≡ insert id device_win g.device)
        × (w ≡ window_wait device_win now login_device_win)
  unfolding reserve
  refused_device h w e = ground arith

-- On the device lane the wait is exact. When an attempt at `now` is refused with the wait `w`, no
-- window held more than its budget, and nothing else happens, an attempt of the same device `d`
-- nanoseconds later is admitted exactly when `w ≤ d`.
pub reserve_after_wait :
    (g h : LoginGuard) (id : String) (now w d : ℕ)
    → IsBounded g
    → reserve g (lane_device id) now ≡ (h, false, w)
    → (reserve h (lane_device id) (now + d)).1 ≡ leb w d
reserve_after_wait g h id now w d b e =
    let (full, kept, wait) = refused_device g id now h w e in
    let short = length-trim_window-le (times_of g.device id) now login_device_win in
    let exactly : length (device_win g id now) ≡ suc 9 = ground (arith, b.each_device id) in
    rw (device_answer, kept, times_of-insert, eq_refl, wait)
      (rw
        (full_again (times_of g.device id) (device_win g id now) 9 login_device_win now d refl
          exactly)
        (not-not (leb (window_wait (device_win g id now) now login_device_win) d)))
