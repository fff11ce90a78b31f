-- ===== src/LoginGuard/Bounds.antt =====
-- The sizes of the windows, under any operations: refunds as well.
use intact.Prelude.{
  ℕ, ◌≤◌, List, [], ◌∷◌, String, arith, Bool, leb, length, str_eq, if◌then◌else◌, length-append,
  inl, inr, Bool-cases,
}
use intact.Prelude.Dict.{lookup, delete, lookup-delete}
use intact.Window.{times_of, trim_window}
use intact.Window.Laws.{length-trim_window-le}
use intact.LoginGuard.{
  LoginGuard, new_login_guard, LoginSource, lane_local, lane_device, lane_public, reserve, refund,
  store, without_last, login_per_ip_max, login_per_ip_win, login_device_max, login_device_win,
  login_public_max, login_public_win,
}
use intact.Window.Maps.{times_of-insert}
use intact.LoginGuard.Refines.{times_of-store}

pub record IsBounded (g : LoginGuard) : Type 0 where
  pub each_ip : (ip : String) → length (times_of g.per_ip ip) ≤ login_per_ip_max
  pub each_device : (id : String) → length (times_of g.device id) ≤ login_device_max
  pub all : length g.public ≤ login_public_max

if-le :
    (b : Bool) (n : ℕ) (xs ys : List ℕ)
    → length xs ≤ n
    → length ys ≤ n
    → length (if b then xs else ys) ≤ n
if-le b n xs ys h k = ground arith

length-without_last-le : (ts : List ℕ) → length (without_last ts) ≤ length ts
unfolding without_last
length-without_last-le [] = omega arith
length-without_last-le (t ∷ []) = omega arith
length-without_last-le (t ∷ u ∷ ts) = omega (arith, length-without_last-le (u ∷ ts))

times_of-delete-le :
    (m : List (String × List ℕ)) (k j : String) (n : ℕ)
    → length (times_of m j) ≤ n
    → length (times_of (delete k m) j) ≤ n
times_of-delete-le m k j n h = rw lookup-delete (ground arith)

module _ {g : LoginGuard} (b : IsBounded g) where
  reserve-IsBounded : (src : LoginSource) (now : ℕ) → IsBounded (reserve g src now).0
  unfolding reserve
  reserve-IsBounded lane_local now = b
  reserve-IsBounded (lane_device id) now =
      let win = trim_window (times_of g.device id) now login_device_win in
      let short = length-trim_window-le (times_of g.device id) now login_device_win in
      elim (Bool-cases (leb login_device_max (length win))) [
        | inl full ↦ rw full (record {
          each_ip = b.each_ip;
          each_device = λ j. rw times_of-insert (
              if-le (str_eq id j) login_device_max _ _ (omega (arith, b.each_device id))
                (b.each_device j));
          all = b.all;
        })
        | inr room ↦ rw room (record {
          each_ip = b.each_ip;
          each_device = λ j. rw times_of-insert (
              if-le (str_eq id j) login_device_max _ _
                (ground (arith, length-append win (now ∷ []))) (b.each_device j));
          all = b.all;
        })
      ]
  reserve-IsBounded (lane_public ip) now =
      let win = trim_window (times_of g.per_ip ip) now login_per_ip_win in
      let pub_win = trim_window g.public now login_public_win in
      let short = length-trim_window-le (times_of g.per_ip ip) now login_per_ip_win in
      let pub_short = length-trim_window-le g.public now login_public_win in
      let kept : (j : String) → length (times_of (store ip win g.per_ip) j) ≤ login_per_ip_max =
        λ j.
          rw times_of-store (
            if-le (str_eq ip j) login_per_ip_max _ _ (omega (arith, b.each_ip ip)) (b.each_ip j)) in
      elim (Bool-cases (leb login_per_ip_max (length win))) [
        | inl full ↦ rw full (record { each_ip = kept; each_device = b.each_device; all = b.all })
        | inr room ↦ elim (Bool-cases (leb login_public_max (length pub_win))) [
          | inl all_full ↦
              rw (room, all_full)
                (record { each_ip = kept; each_device = b.each_device; all = omega (arith, b.all) })
          | inr all_room ↦
              rw (room, all_room)
                (record {
                  each_ip = λ j. rw times_of-insert (
                      if-le (str_eq ip j) login_per_ip_max _ _
                        (ground (arith, length-append win (now ∷ []))) (b.each_ip j));
                  each_device = b.each_device;
                  all = ground (arith, length-append pub_win (now ∷ []));
                })
        ]
      ]

  refund-IsBounded : (src : LoginSource) → IsBounded (refund g src)
  unfolding refund
  refund-IsBounded lane_local = b
  refund-IsBounded (lane_device id) = record {
    each_ip = b.each_ip;
    each_device = λ j. times_of-delete-le g.device id j login_device_max (b.each_device j);
    all = b.all;
  }
  refund-IsBounded (lane_public ip) = record {
    each_ip = λ j. times_of-delete-le g.per_ip ip j login_per_ip_max (b.each_ip j);
    each_device = b.each_device;
    all = omega (arith, b.all, length-without_last-le g.public);
  }

-- What a handler does under the lock.
pub data Step : LoginGuard → LoginGuard → Type 0 where
  reserved : (g : LoginGuard) (src : LoginSource) (now : ℕ) → Step g (reserve g src now).0
  refunded : (g : LoginGuard) (src : LoginSource) → Step g (refund g src)

pub data Reach (g : LoginGuard) : LoginGuard → Type 0 where
  here : Reach g g
  next : {h k : LoginGuard} → Reach g h → Step h k → Reach g k

Step-IsBounded : {g h : LoginGuard} → Step g h → IsBounded g → IsBounded h
Step-IsBounded (reserved g src now) b = reserve-IsBounded b src now
Step-IsBounded (refunded g src) b = refund-IsBounded b src

Reach-keeps : {g h : LoginGuard} → Reach g h → IsBounded g → IsBounded h
Reach-keeps here b = b
Reach-keeps (next r s) b = Step-IsBounded s (Reach-keeps r b)

pub new_login_guard-IsBounded : (loopback : Bool) → IsBounded (new_login_guard loopback)
unfolding lookup
new_login_guard-IsBounded loopback = record {
  each_ip = λ ip. omega arith;
  each_device = λ id. omega arith;
  all = omega arith;
}

-- In every state that reserves and refunds reach from a new guard, in any order and at any times,
-- no window holds more times than its budget allows.
pub Reach-IsBounded :
    (loopback : Bool) (g : LoginGuard) → Reach (new_login_guard loopback) g → IsBounded g
Reach-IsBounded loopback g r = Reach-keeps r (new_login_guard-IsBounded loopback)
