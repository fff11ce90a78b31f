-- ===== src/LoginGuard/Refines.antt =====
-- The guard implements its promise: `reserve` decides as the full log of checked attempts does.
use mathlib.Core.List.{append-nil}
use intact.Prelude.{if◌then◌else◌, str_eq}
use intact.Prelude.{
  ℕ, ◌≤◌, List, [], ◌∷◌, ◌++◌, String, ◌≡◌, refl, ap, arith, Bool, true, false, leb, length, inl,
  inr, Bool-cases,
}
use intact.Prelude.Dict.{Dict, lookup-delete, lookup, insert}
use intact.Window.{times_of, trim_window}
use intact.Window.Tracks.{
  Tracks, Tracks-nil, Tracks-later, Tracks-trim, trim_window-log, Tracks-push,
}
use intact.LoginGuard.{
  LoginGuard, new_login_guard, LoginSource, lane_local, lane_device, lane_public, reserve, store,
  login_per_ip_max, login_per_ip_win, login_device_max, login_device_win, login_public_max,
  login_public_win,
}
use intact.LoginGuard.Charges.{
  Attempt, attempt, checked, public_log, ip_log, device_log, spent, admits, ideal, InOrder,
}
use intact.Window.Maps.{times_of-insert, after_trim, after_push}

pub times_of-store :
    (ip : String) (ts : List ℕ) (m : Dict (List ℕ)) (k : String)
    → times_of (store ip ts m) k ≡ (if str_eq ip k then ts else times_of m k)
unfolding store
times_of-store ip [] m k = rw lookup-delete (ground arith)
times_of-store ip (t ∷ ts) m k = times_of-insert ip (t ∷ ts) m k

pub public_log-append :
    (log : List Attempt) (a : Attempt)
    → public_log (log ++ a ∷ []) ≡ public_log log ++ public_log (a ∷ [])
unfolding public_log
public_log-append [] a = refl
public_log-append (attempt lane_local t ∷ log) a = public_log-append log a
public_log-append (attempt (lane_device id) t ∷ log) a = public_log-append log a
public_log-append (attempt (lane_public ip) t ∷ log) a = ap (◌∷◌ t) (public_log-append log a)

pub ip_log-append :
    (k : String) (log : List Attempt) (a : Attempt)
    → ip_log k (log ++ a ∷ []) ≡ ip_log k log ++ ip_log k (a ∷ [])
unfolding ip_log
ip_log-append k [] a = refl
ip_log-append k (attempt lane_local t ∷ log) a = ip_log-append k log a
ip_log-append k (attempt (lane_device id) t ∷ log) a = ip_log-append k log a
ip_log-append k (attempt (lane_public ip) t ∷ log) a = ground (arith, ip_log-append k log a)

pub device_log-append :
    (k : String) (log : List Attempt) (a : Attempt)
    → device_log k (log ++ a ∷ []) ≡ device_log k log ++ device_log k (a ∷ [])
unfolding device_log
device_log-append k [] a = refl
device_log-append k (attempt lane_local t ∷ log) a = device_log-append k log a
device_log-append k (attempt (lane_public id) t ∷ log) a = device_log-append k log a
device_log-append k (attempt (lane_device ip) t ∷ log) a = ground (arith, device_log-append k log a)

-- Every window of the guard keeps what its log says.
pub record Keeps (last : ℕ) (g : LoginGuard) (log : List Attempt) : Type 0 where
  pub public : Tracks login_public_win last g.public (public_log log)
  pub ips : (k : String) → Tracks login_per_ip_win last (times_of g.per_ip k) (ip_log k log)
  pub devices : (k : String) → Tracks login_device_win last (times_of g.device k) (device_log k log)

Keeps-later :
    {last now : ℕ} {g : LoginGuard} {log : List Attempt}
    → last ≤ now
    → Keeps last g log
    → Keeps now g log
Keeps-later h k = record {
  public = Tracks-later h k.public;
  ips = λ j. Tracks-later h (k.ips j);
  devices = λ j. Tracks-later h (k.devices j);
}

-- The log after an attempt.
abbrev pub logged : List Attempt → LoginSource → ℕ → Bool → List Attempt
logged log src now true = log ++ attempt src now ∷ []
logged log src now false = log

-- One attempt is decided as the log decides it, and the guard keeps the log.
abbrev Decides : LoginGuard → List Attempt → LoginSource → ℕ → Type 0
Decides g log src now =
    ((reserve g src now).1 ≡ admits log src now)
    × Keeps now (reserve g src now).0 (logged log src now (reserve g src now).1)

module _ {last now : ℕ} {g : LoginGuard} {log : List Attempt} (fresh : last ≤ now)
    (k : Keeps last g log) where
  Decides-local : Decides g log lane_local now
  unfolding reserve admits public_log ip_log device_log
  Decides-local = (
    refl,
    record {
      public = rw (public_log-append, append-nil) (Tracks-later fresh k.public);
      ips = λ j. rw (ip_log-append, append-nil) (Tracks-later fresh (k.ips j));
      devices = λ j. rw (device_log-append, append-nil) (Tracks-later fresh (k.devices j));
    },
  )

  module _ (id : String) where
    abbrev device_win : List ℕ
    device_win = trim_window (times_of g.device id) now login_device_win

    device_spent : length device_win ≡ spent login_device_win now (device_log id log)
    device_spent = ap length (trim_window-log fresh (k.devices id))

    Decides-device : Decides g log (lane_device id) now
    unfolding reserve admits public_log ip_log device_log
    Decides-device = elim (Bool-cases (leb login_device_max (length device_win))) [
      | inl full ↦ rw full (
        ground (arith, device_spent),
        record {
          public = Tracks-later fresh k.public;
          ips = λ j. Tracks-later fresh (k.ips j);
          devices =
              after_trim g.device (λ j. device_log j log) fresh id k.devices _
                (times_of-insert id device_win g.device);
        },
      )
      | inr room ↦ rw room (
        ground (arith, device_spent),
        record {
          public = rw (public_log-append, append-nil) (Tracks-later fresh k.public);
          ips = λ j. rw (ip_log-append, append-nil) (Tracks-later fresh (k.ips j));
          devices =
              after_push g.device (λ j. device_log j log) fresh id k.devices _ _
                (times_of-insert id (device_win ++ now ∷ []) g.device)
                (λ j. device_log-append j log (attempt (lane_device id) now));
        },
      )
    ]

  module _ (ip : String) where
    abbrev ip_win : List ℕ
    ip_win = trim_window (times_of g.per_ip ip) now login_per_ip_win

    abbrev public_win : List ℕ
    public_win = trim_window g.public now login_public_win

    ip_spent : length ip_win ≡ spent login_per_ip_win now (ip_log ip log)
    ip_spent = ap length (trim_window-log fresh (k.ips ip))

    public_spent : length public_win ≡ spent login_public_win now (public_log log)
    public_spent = ap length (trim_window-log fresh k.public)

    ips_stored :
        (j : String)
        → Tracks login_per_ip_win now (times_of (store ip ip_win g.per_ip) j) (ip_log j log)
    ips_stored =
        after_trim g.per_ip (λ j. ip_log j log) fresh ip k.ips _ (times_of-store ip ip_win g.per_ip)

    admitted_public :
        Keeps now
          (record g {
            per_ip = insert ip (ip_win ++ now ∷ []) g.per_ip;
            public = public_win ++ now ∷ [];
          })
          (log ++ attempt (lane_public ip) now ∷ [])
    unfolding public_log ip_log device_log
    admitted_public = record {
      public = rw public_log-append (Tracks-push (Tracks-trim fresh k.public));
      ips =
          after_push g.per_ip (λ j. ip_log j log) fresh ip k.ips _ _
            (times_of-insert ip (ip_win ++ now ∷ []) g.per_ip)
            (λ j. ip_log-append j log (attempt (lane_public ip) now));
      devices = λ j. rw (device_log-append, append-nil) (Tracks-later fresh (k.devices j));
    }

    Decides-public : Decides g log (lane_public ip) now
    unfolding reserve admits
    Decides-public = elim (Bool-cases (leb login_per_ip_max (length ip_win))) [
      | inl full ↦ rw full (
        ground (arith, ip_spent),
        record {
          public = Tracks-later fresh k.public;
          ips = ips_stored;
          devices = λ j. Tracks-later fresh (k.devices j);
        },
      )
      | inr room ↦ elim (Bool-cases (leb login_public_max (length public_win))) [
        | inl all_full ↦
            rw (room, all_full)
              (
                ground (arith, ip_spent, public_spent),
                record {
                  public = Tracks-trim fresh k.public;
                  ips = ips_stored;
                  devices = λ j. Tracks-later fresh (k.devices j);
                },
              )
        | inr all_room ↦
            rw (room, all_room) (ground (arith, ip_spent, public_spent), admitted_public)
      ]
    ]

reserve-Decides :
    {last now : ℕ} {g : LoginGuard} {log : List Attempt} (src : LoginSource)
    → last ≤ now
    → Keeps last g log
    → Decides g log src now
reserve-Decides lane_local fresh k = Decides-local fresh k
reserve-Decides (lane_device id) fresh k = Decides-device fresh k id
reserve-Decides (lane_public ip) fresh k = Decides-public fresh k ip

checked-ideal :
    (attempts : List Attempt) {last : ℕ} {g : LoginGuard} {log : List Attempt}
    → InOrder last attempts
    → Keeps last g log
    → checked g attempts ≡ ideal log attempts
unfolding checked ideal
checked-ideal [] o k = refl
checked-ideal (attempt src now ∷ rest) {g = g} {log = log} o k =
    let (same, kept) = reserve-Decides src o.0 k in
    elim (Bool-cases (reserve g src now).1) [
      | inl yes_ok ↦
          rw (← same, yes_ok)
            (ap (◌∷◌ (attempt src now)) (checked-ideal rest o.1 (rw yes_ok at kept)))
      | inr no_ok ↦ rw (← same, no_ok) (checked-ideal rest o.1 (rw no_ok at kept))
    ]

new_login_guard-Keeps : (loopback : Bool) → Keeps 0 (new_login_guard loopback) []
unfolding public_log ip_log device_log lookup
new_login_guard-Keeps loopback = record {
  public = Tracks-nil login_public_win;
  ips = λ k. Tracks-nil login_per_ip_win;
  devices = λ k. Tracks-nil login_device_win;
}

-- From a new guard, over any attempts in any lanes with a clock that does not run backwards and no
-- refund between them, the codes that are checked are those that the full log of checked attempts
-- admits: on a device lane, fewer than 10 of the device's in the last 24 hours; on the public lane,
-- fewer than 5 of the address's in the last 15 minutes and fewer than 100 of all addresses' in the
-- last 24 hours; on the local lane, always.
pub checked-eq-ideal :
    (loopback : Bool) (attempts : List Attempt)
    → InOrder 0 attempts
    → checked (new_login_guard loopback) attempts ≡ ideal [] attempts
checked-eq-ideal loopback attempts o = checked-ideal attempts o (new_login_guard-Keeps loopback)
