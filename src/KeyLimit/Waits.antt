-- ===== src/KeyLimit/Waits.antt =====
-- The wait that `allow` returns.
use intact.Prelude.{
  ℕ, ◌+◌, ◌-◌, ◌≤◌, ◌<◌, List, String, ◌≡◌, ap, sym, ◌∙◌, Option, some, arith, leb, ltb, true,
  false, length, get_elem?, get_elem?_inside, eq_refl, if◌then◌else◌, All, All-get_elem?, IsSorted,
  inl, inr, ◌⊎◌, Bool, Bool-cases,
}
use intact.Window.{times_of, minute, trim_window}
use intact.Window.Laws.{
  IsSorted-trim_window, All-trim_window, All-live_trim_window, length-trim_window-lt,
  length-le-trim_window,
}
use intact.KeyLimit.{Limiter, window, allow, Answer, allowed, refused, decide, refuse_after}
use intact.KeyLimit.Refines.{window_times, times_of-window}

-- What `allow` answers from a window.
verdict : List ℕ → ℕ → ℕ → Option Answer
verdict ts rpm now =
    if leb rpm (length ts) then refuse_after (get_elem? ts (length ts - rpm)) now else some allowed

module _ (l : Limiter) (key : String) (rpm now : ℕ) where
  abbrev in_window : List ℕ
  in_window = trim_window (times_of l key) now minute

  allow-verdict : (allow l key rpm now).1 ≡ verdict in_window rpm now
  unfolding allow decide verdict
  allow-verdict = rw window_times (ground arith)

  refusal_keeps_window :
      (w : ℕ)
      → (allow l key rpm now).1 ≡ some (refused w)
      → times_of (allow l key rpm now).0 key ≡ in_window
  unfolding allow decide
  refusal_keeps_window w e = elim (Bool-cases (leb rpm (length (window l key now).1))) [
    | inl full ↦ rw full (rw (times_of-window, eq_refl))
    | inr room ↦ cc (ap (λ (o : Option Answer). o) (rw room at e))
  ]

-- A refusal shows the request whose leaving makes room.
refused_at :
    (ts : List ℕ) (rpm now w : ℕ)
    → 0 < rpm
    → verdict ts rpm now ≡ some (refused w)
    → (t : ℕ) × (get_elem? ts (length ts - rpm) ≡ some t)
      × (w ≡ t + minute - now)
      × (rpm ≤ length ts)
unfolding verdict refuse_after
refused_at ts rpm now w pos e = elim (Bool-cases (leb rpm (length ts))) [
  | inl full ↦
      let (t, at) = get_elem?_inside ts (length ts - rpm) (ground arith) in
      (t, at, ground arith, ground arith)
  | inr room ↦ cc (rw room at e)
]

pub admits : Option Answer → Bool
admits (some allowed) = true
admits _ = false

admits-verdict : (ts : List ℕ) (rpm now : ℕ) → admits (verdict ts rpm now) ≡ ltb (length ts) rpm
unfolding admits verdict refuse_after
admits-verdict ts rpm now = ground arith

-- Whether a later call is admitted, when the one at `now` is refused with the wait `w`.
later_admits :
    (ts : List ℕ) (rpm now w d : ℕ)
    → 0 < rpm
    → IsSorted ts
    → verdict ts rpm now ≡ some (refused w)
    → ltb (length (trim_window ts (now + d) minute)) rpm ≡ leb w d
later_admits ts rpm now w d pos s e =
    let (t, at, wait, full) = refused_at ts rpm now w pos e in
    let i = length ts - rpm in
    ground (
      arith,
      length-trim_window-lt ts i minute (now + d) t s at,
      length-le-trim_window ts i minute (now + d) t at,
    )

module _ (l : Limiter) (key : String) (rpm now : ℕ) (pos : 0 < rpm)
    (s : IsSorted (times_of l key)) where
  -- With a cap of at least 1 and times that are in order and not later than now, `allow` never
  -- panics: it admits the request, or refuses it with a wait above 0 and of at most a minute.
  pub allow_answers :
      All (λ t. t ≤ now) (times_of l key)
      → ((allow l key rpm now).1 ≡ some allowed)
        ⊎ ((w : ℕ) × ((allow l key rpm now).1 ≡ some (refused w)) × (0 < w) × (w ≤ minute))
  unfolding verdict refuse_after
  allow_answers past =
      let ts = in_window l key rpm now in
      elim (Bool-cases (leb rpm (length ts))) [
        | inl full ↦
            let (t, at) = get_elem?_inside ts (length ts - rpm) (ground arith) in
            let alive =
              All-get_elem? (λ u. now < u + minute) ts _ t (All-live_trim_window _ now minute s)
                at in
            let old =
              All-get_elem? (λ u. u ≤ now) ts _ t (All-trim_window _ _ now minute past) at in
            inr (t + minute - now, rw (allow-verdict, full, at), omega arith, omega arith)
        | inr room ↦ inl (rw (allow-verdict, room))
      ]

  -- The wait is exact. With a cap of at least 1 and the key's times in order: when a call at `now` is
  -- refused with the wait `w`, and the key makes no other call, a call `d` nanoseconds later is admitted exactly when `w ≤ d`.
  pub allow_after_wait :
      (w d : ℕ)
      → (allow l key rpm now).1 ≡ some (refused w)
      → admits (allow (allow l key rpm now).0 key rpm (now + d)).1 ≡ leb w d
  allow_after_wait w d e =
      rw (allow-verdict, admits-verdict, refusal_keeps_window l key rpm now w e)
        (later_admits (in_window l key rpm now) rpm now w d pos
          (IsSorted-trim_window _ now minute s) (sym (allow-verdict l key rpm now) ∙ e))
