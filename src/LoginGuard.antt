-- ===== src/LoginGuard.antt =====
-- internal/httpapi/loginguard.go: the budgets of wrong login codes, and the source of an attempt.
-- `reserve` and `refund` run under the guard's lock, so each is one step on the guard.
pub mod Bounds
pub mod Charges
pub mod Refines
pub mod Budgets
pub mod Retry
mod Tests
use intact.Prelude.{
  ℕ, ◌+◌, ◌-◌, ◌*◌, List, [], ◌∷◌, ◌++◌, String, Bool, true, false, some, ltb, leb, length,
  if◌then◌else◌,
}
use intact.Prelude.Dict.{Dict, lookup, insert, delete}
use intact.Window.{second, minute, trim_window, times_of}

abbrev pub login_per_ip_max : ℕ
login_per_ip_max = 5

abbrev pub login_per_ip_win : ℕ
login_per_ip_win = 15 * minute

abbrev pub login_device_max : ℕ
login_device_max = 10

abbrev pub login_device_win : ℕ
login_device_win = 24 * (60 * minute)

abbrev pub login_public_max : ℕ
login_public_max = 100

abbrev pub login_public_win : ℕ
login_public_win = 24 * (60 * minute)

-- `loginSource`: the lane, with the one field that the lane reads.
pub data LoginSource : Type 0 where
  lane_local : LoginSource
  lane_device : String → LoginSource
  lane_public : String → LoginSource

pub record LoginGuard : Type 0 where
  pub per_ip : Dict (List ℕ)
  pub device : Dict (List ℕ)
  pub public : List ℕ
  pub owner_loopback : Bool

abbrev pub new_login_guard : Bool → LoginGuard
new_login_guard loopback = record {
  per_ip = [];
  device = [];
  public = [];
  owner_loopback = loopback;
}

-- `store`, on the map that it writes
unfoldable pub store : String → List ℕ → Dict (List ℕ) → Dict (List ℕ)
store ip [] m = delete ip m
store ip (t ∷ ts) m = insert ip (t ∷ ts) m

unfoldable pub window_wait : List ℕ → ℕ → ℕ → ℕ
window_wait [] now win = win
window_wait (t ∷ ts) now win = let d = t + win - now in if ltb 0 d then d else second

-- `reserve` on the device lane, from the trimmed window
reserve_device : LoginGuard → String → List ℕ → ℕ → LoginGuard × Bool × ℕ
reserve_device g id win now =
    if leb login_device_max (length win)
    then (record g { device = insert id win g.device }, false, window_wait win now login_device_win)
    else (record g { device = insert id (win ++ now ∷ []) g.device }, true, 0)

-- `reserve` on the public lane, from the two trimmed windows
reserve_public : LoginGuard → String → List ℕ → List ℕ → ℕ → LoginGuard × Bool × ℕ
reserve_public g ip per_ip public now =
    if leb login_per_ip_max (length per_ip)
    then (
      record g { per_ip = store ip per_ip g.per_ip },
      false,
      window_wait per_ip now login_per_ip_win,
    )
    else if leb login_public_max (length public)
    then (
      record g { public = public; per_ip = store ip per_ip g.per_ip },
      false,
      window_wait public now login_public_win,
    )
    else (
      record g { per_ip = insert ip (per_ip ++ now ∷ []) g.per_ip; public = public ++ now ∷ [] },
      true,
      0,
    )

unfoldable pub reserve : LoginGuard → LoginSource → ℕ → LoginGuard × Bool × ℕ
unfolding reserve_device reserve_public
reserve g lane_local now = (g, true, 0)
reserve g (lane_device id) now =
    reserve_device g id (trim_window (times_of g.device id) now login_device_win) now
reserve g (lane_public ip) now =
    reserve_public g ip (trim_window (times_of g.per_ip ip) now login_per_ip_win)
      (trim_window g.public now login_public_win) now

-- `g.public[:n-1]` when `n > 0`
unfoldable pub without_last : List ℕ → List ℕ
without_last [] = []
without_last (t ∷ []) = []
without_last (t ∷ u ∷ ts) = t ∷ without_last (u ∷ ts)

unfoldable pub refund : LoginGuard → LoginSource → LoginGuard
refund g lane_local = g
refund g (lane_device id) = record g { device = delete id g.device }
refund g (lane_public ip) = record g { per_ip = delete ip g.per_ip; public = without_last g.public }
