-- ===== src/LoginGuard/Budgets.antt =====
-- No budget is overdrawn.
use mathlib.Core.List.{append-nil, append_assoc}
use intact.Prelude.{
  ℕ, ◌+◌, ◌≤◌, ◌<◌, List, [], ◌∷◌, ◌++◌, ◌≡◌, refl, arith, Bool, true, length, keep, eq_iff,
  keep-append, length-append, length-keep-le, ◌⊎◌, inl, inr, Bool-cases,
}
use intact.Window.{live}
use intact.LoginGuard.{
  new_login_guard, LoginSource, lane_local, lane_device, lane_public, login_per_ip_win,
  login_device_win, login_public_win,
}
use intact.LoginGuard.Charges.{
  Attempt, attempt, checked, public_log, ip_log, device_log, spent, admits, ideal, InOrder,
  last_time, WithinBudgets,
}
use intact.LoginGuard.Refines.{
  public_log-append, ip_log-append, device_log-append, checked-eq-ideal,
}

spent_antitone :
    (win now later : ℕ) (ts : List ℕ) → now ≤ later → spent win later ts ≤ spent win now ts
spent_antitone win now later [] h = omega arith
spent_antitone win now later (t ∷ ts) h = ground (arith, spent_antitone win now later ts h)

-- A charge in every case adds at most one.
spent-append :
    (win now : ℕ) (ts us : List ℕ) → spent win now (ts ++ us) ≤ spent win now ts + length us
spent-append win now ts us = rw (keep-append (live win now) ts us) (
    omega (
      arith,
      length-append (keep (live win now) ts) (keep (live win now) us),
      length-keep-le (live win now) us,
    ))

-- A budget with room for the time, or that is not charged, has at most its maximum afterwards.
charged :
    (win max last now : ℕ) (ts us : List ℕ)
    → last ≤ now
    → spent win last ts ≤ max
    → (us ≡ []) ⊎ ((us ≡ now ∷ []) × (spent win now ts < max))
    → spent win now (ts ++ us) ≤ max
charged win max last now ts us h fits (inl e) =
    rw (e, append-nil) (omega (arith, spent_antitone win last now ts h))
charged win max last now ts us h fits (inr (e, room)) =
    rw e (omega (arith, spent-append win now ts (now ∷ [])))

WithinBudgets-later :
    {last now : ℕ} {log : List Attempt}
    → last ≤ now
    → WithinBudgets last log
    → WithinBudgets now log
WithinBudgets-later {last} {now} {log} h w = record {
  all = omega (arith, w.all, spent_antitone login_public_win last now (public_log log) h);
  each_ip =
      λ k. omega (arith, w.each_ip k, spent_antitone login_per_ip_win last now (ip_log k log) h);
  each_device = λ k.
      omega (arith, w.each_device k, spent_antitone login_device_win last now (device_log k log) h);
}

charge-WithinBudgets :
    {last now : ℕ} {log : List Attempt} (src : LoginSource)
    → last ≤ now
    → admits log src now ≡ true
    → WithinBudgets last log
    → WithinBudgets now (log ++ attempt src now ∷ [])
unfolding admits public_log ip_log device_log
charge-WithinBudgets {last} {now} {log} lane_local h ok w = record {
  all = rw public_log-append (charged _ _ last now (public_log log) [] h w.all (inl refl));
  each_ip =
      λ k. rw ip_log-append (charged _ _ last now (ip_log k log) [] h (w.each_ip k) (inl refl));
  each_device = λ k.
      rw device_log-append
        (charged _ _ last now (device_log k log) [] h (w.each_device k) (inl refl));
}
charge-WithinBudgets {last} {now} {log} (lane_device id) h ok w = record {
  all = rw public_log-append (charged _ _ last now (public_log log) [] h w.all (inl refl));
  each_ip =
      λ k. rw ip_log-append (charged _ _ last now (ip_log k log) [] h (w.each_ip k) (inl refl));
  each_device = λ k.
      rw device_log-append (
        charged _ _ last now (device_log k log) _ h (w.each_device k)
          (ground (arith, eq_iff id k)));
}
charge-WithinBudgets {last} {now} {log} (lane_public ip) h ok w = record {
  all =
      rw public_log-append
        (charged _ _ last now (public_log log) (now ∷ []) h w.all (inr (refl, ground arith)));
  each_ip = λ k.
      rw ip_log-append
        (charged _ _ last now (ip_log k log) _ h (w.each_ip k) (ground (arith, eq_iff ip k)));
  each_device = λ k.
      rw device_log-append
        (charged _ _ last now (device_log k log) [] h (w.each_device k) (inl refl));
}

ideal-WithinBudgets :
    (rest : List Attempt) (last : ℕ) (log : List Attempt)
    → InOrder last rest
    → WithinBudgets last log
    → WithinBudgets (last_time last rest) (log ++ ideal log rest)
unfolding ideal
ideal-WithinBudgets [] last log o w = rw append-nil w
ideal-WithinBudgets (attempt src now ∷ rest) last log o w = elim (Bool-cases (admits log src now)) [
  | inl ok ↦ rw ok (
      rw append_assoc at (
        ideal-WithinBudgets rest now (log ++ attempt src now ∷ []) o.1
          (charge-WithinBudgets src o.0 ok w)))
  | inr full ↦ rw full (ideal-WithinBudgets rest now log o.1 (WithinBudgets-later o.0 w))
]

-- From a new guard, over any attempts in any lanes with a clock that does not run backwards and no
-- refund between them: at the last attempt the codes checked so far include at most 100 from all
-- public addresses in the last 24 hours, at most 5 from each address in the last 15 minutes, and at
-- most 10 from each device in the last 24 hours.
pub checked-WithinBudgets :
    (loopback : Bool) (attempts : List Attempt)
    → InOrder 0 attempts
    → WithinBudgets (last_time 0 attempts) (checked (new_login_guard loopback) attempts)
unfolding public_log ip_log device_log
checked-WithinBudgets loopback attempts o = rw (checked-eq-ideal loopback attempts) (
    ideal-WithinBudgets attempts 0 [] o
      (record { all = omega arith; each_ip = λ k. omega arith; each_device = λ k. omega arith }))
