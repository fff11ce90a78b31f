-- ===== src/LoginGuard/Charges.antt =====
-- What the guard promises of a run of attempts that are never refunded (wrong codes): it admits an
-- attempt by counting the admitted ones in a log that it never forgets.
use intact.Prelude.{
  ℕ, ◌≤◌, List, [], ◌∷◌, ◌++◌, String, Bool, true, ◌&&◌, ltb, length, keep, str_eq, if◌then◌else◌,
}
use intact.Window.{live}
use intact.LoginGuard.{
  LoginGuard, LoginSource, lane_local, lane_device, lane_public, reserve, login_per_ip_max,
  login_per_ip_win, login_device_max, login_device_win, login_public_max, login_public_win,
}

pub data Attempt : Type 0 where
  attempt : LoginSource → ℕ → Attempt

abbrev pub time_of : Attempt → ℕ
time_of (attempt src now) = now

-- The attempts whose code was checked, in the order in which they took the lock.
unfoldable pub checked : LoginGuard → List Attempt → List Attempt
checked g [] = []
checked g (attempt src now ∷ rest) =
    let (g', ok, _) = reserve g src now in
    let later = checked g' rest in if ok then attempt src now ∷ later else later

unfoldable pub public_log : List Attempt → List ℕ
public_log [] = []
public_log (attempt (lane_public ip) t ∷ log) = t ∷ public_log log
public_log (attempt lane_local t ∷ log) = public_log log
public_log (attempt (lane_device id) t ∷ log) = public_log log

unfoldable pub ip_log : String → List Attempt → List ℕ
ip_log k [] = []
ip_log k (attempt (lane_public ip) t ∷ log) = if str_eq ip k then t ∷ ip_log k log else ip_log k log
ip_log k (attempt lane_local t ∷ log) = ip_log k log
ip_log k (attempt (lane_device id) t ∷ log) = ip_log k log

unfoldable pub device_log : String → List Attempt → List ℕ
device_log k [] = []
device_log k (attempt (lane_device id) t ∷ log) =
    if str_eq id k then t ∷ device_log k log else device_log k log
device_log k (attempt lane_local t ∷ log) = device_log k log
device_log k (attempt (lane_public ip) t ∷ log) = device_log k log

-- How many of the times count at `now`.
abbrev pub spent : ℕ → ℕ → List ℕ → ℕ
spent win now ts = length (keep (live win now) ts)

unfoldable pub admits : List Attempt → LoginSource → ℕ → Bool
admits log lane_local now = true
admits log (lane_device id) now =
    ltb (spent login_device_win now (device_log id log)) login_device_max
admits log (lane_public ip) now =
    ltb (spent login_per_ip_win now (ip_log ip log)) login_per_ip_max
    && ltb (spent login_public_win now (public_log log)) login_public_max

unfoldable pub ideal : List Attempt → List Attempt → List Attempt
ideal log [] = []
ideal log (attempt src now ∷ rest) =
    let yes_log = attempt src now ∷ ideal (log ++ attempt src now ∷ []) rest in
    let no_log = ideal log rest in if admits log src now then yes_log else no_log

-- The clock does not run backwards from `last`.
abbrev pub InOrder : ℕ → List Attempt → Type 0
InOrder last [] = Unit
InOrder last (a ∷ rest) = (last ≤ time_of a) × InOrder (time_of a) rest

abbrev pub last_time : ℕ → List Attempt → ℕ
last_time last [] = last
last_time last (a ∷ rest) = last_time (time_of a) rest

-- No budget is overdrawn at `now`.
pub record WithinBudgets (now : ℕ) (log : List Attempt) : Type 0 where
  pub all : spent login_public_win now (public_log log) ≤ login_public_max
  pub each_ip : (ip : String) → spent login_per_ip_win now (ip_log ip log) ≤ login_per_ip_max
  pub each_device :
      (id : String) → spent login_device_win now (device_log id log) ≤ login_device_max
