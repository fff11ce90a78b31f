-- ===== src/Failover/Ends.antt =====
-- What each outcome of the loop says of the accounts.
use intact.Prelude.{
  ℕ, ◌+◌, String, true, ◌≡◌, ◌≢◌, refl, List, [], ◌∷◌, ◌⊎◌, inl, inr, arith, ◌==◌, str_eq, not,
  ◌&&◌, Bool-cases,
}
use intact.Affinity.{Attempt}
use intact.Failover.{
  Response, Calls, Caller, LoopState, Outcome, relayed, bad_request, no_usable_account,
  all_accounts_failed, has_next,
}
use intact.Failover.Shorten.{passes_on, shorten_for}
use intact.Failover.Loop.{
  Round, skipped, unanswered, answer, refused, round, after_round, rounds, failover_loop, once_more,
  ended, start_with,
}
use intact.Failover.Turns.{IsFinal, PassesTo, Turn, passed-IsWeak, stopped-IsFinal}

module _ {B : Type 0} (calls : Calls B) (caller : Caller) where
  -- Every account from the index `i` on was left before a send.
  unfoldable pub AllSkipped : ℕ → List Attempt → B → Type 0
  AllSkipped i [] body = Unit
  AllSkipped i (at ∷ rest) body =
      (round calls caller i at body ≡ skipped) × AllSkipped (i + 1) rest body

  -- An attempt whose turn came, with those that follow it and its round with the state by then
  abbrev pub EndsAs :
      ℕ → List Attempt → LoopState B → (Attempt → List Attempt → Round → Type 0) → Type 0
  EndsAs i attempts st P =
      (k : ℕ) × ((at : Attempt) × ((rest : List Attempt) × ((t : LoopState B) × (Turn calls caller i
                attempts st k (at ∷ rest) t
              × P at rest (round calls caller k at t.body)))))

  abbrev pub IsLastSilent : Attempt → List Attempt → Round → Type 0
  IsLastSilent at rest r = (rest ≡ []) × ((r ≡ skipped) ⊎ (r ≡ unanswered))

  abbrev pub IsAnswer : Attempt → Response → Attempt → List Attempt → Round → Type 0
  IsAnswer chosen resp at rest r =
      (at ≡ chosen)
      × ((via : String) × ((r ≡ answer resp via) × IsFinal calls caller rest via resp))

  abbrev pub IsRefused : String → Attempt → List Attempt → Round → Type 0
  IsRefused reason at rest r = r ≡ refused reason

  -- What an outcome of the rounds from `i` on says
  unfoldable pub Explains : ℕ → List Attempt → LoopState B → Outcome → Type 0
  unfolding AllSkipped
  Explains i attempts st (relayed chosen resp) = EndsAs i attempts st (IsAnswer chosen resp)
  Explains i attempts st (bad_request reason) = EndsAs i attempts st (IsRefused reason)
  Explains i attempts st no_usable_account = (st.tried ≡ 0) × AllSkipped i attempts st.body
  Explains i attempts st all_accounts_failed =
      ((attempts ≡ []) × (st.tried ≢ 0)) ⊎ EndsAs i attempts st IsLastSilent

  ended-Explains : (i : ℕ) (st : LoopState B) → Explains i [] st (ended calls caller st).1
  unfolding Explains AllSkipped
  ended-Explains i st = elim (Bool-cases (st.tried == 0)) [
    | inl none_tried ↦ rw none_tried (ground (arith, none_tried), tt)
    | inr tried ↦ rw tried (inl (refl, ground (arith, tried)))
  ]

  -- The turns of the others come after this one's.
  later-EndsAs :
      (i : ℕ) (at : Attempt) (rest : List Attempt) (st s : LoopState B)
      (P : Attempt → List Attempt → Round → Type 0)
      → PassesTo calls caller i at st rest s
      → EndsAs (i + 1) rest s P
      → EndsAs i (at ∷ rest) st P
  later-EndsAs i at rest st s P passes (k, (a, (others, (t, (turn, holds))))) =
      (k, (a, (others, (t, (Turn.later i k at rest (a ∷ others) st s t passes turn, holds)))))

  here-EndsAs :
      (i : ℕ) (at : Attempt) (rest : List Attempt) (st : LoopState B)
      (P : Attempt → List Attempt → Round → Type 0)
      → P at rest (round calls caller i at st.body)
      → EndsAs i (at ∷ rest) st P
  here-EndsAs i at rest st P holds = (i, (at, (rest, (st, (Turn.first i (at ∷ rest) st, holds)))))

  -- After an account that was tried
  tried-Explains :
      (i : ℕ) (at : Attempt) (rest : List Attempt) (st t : LoopState B) (o : Outcome)
      → t.tried ≢ 0
      → PassesTo calls caller i at st rest t
      → ((rest ≢ []) ⊎ (round calls caller i at st.body ≡ unanswered))
      → Explains (i + 1) rest t o
      → Explains i (at ∷ rest) st o
  unfolding Explains
  tried-Explains i at rest st t (relayed chosen resp) more passes quiet e =
      later-EndsAs i at rest st t (IsAnswer chosen resp) passes e
  tried-Explains i at rest st t (bad_request reason) more passes quiet e =
      later-EndsAs i at rest st t (IsRefused reason) passes e
  tried-Explains i at rest st t no_usable_account more passes quiet e = absurd (more e.0)
  tried-Explains i at rest st t all_accounts_failed more passes quiet (inr e) =
      inr (later-EndsAs i at rest st t IsLastSilent passes e)
  tried-Explains i at rest st t all_accounts_failed more passes quiet (inl e) = elim quiet [
    | inl has_rest ↦ absurd (has_rest e.0)
    | inr no_answer ↦ inr (here-EndsAs i at rest st IsLastSilent (e.0, inr no_answer))
  ]

  -- After an account that was left before a send
  skipped-Explains :
      (i : ℕ) (at : Attempt) (rest : List Attempt) (st : LoopState B) (o : Outcome)
      → round calls caller i at st.body ≡ skipped
      → Explains (i + 1) rest st o
      → Explains i (at ∷ rest) st o
  unfolding Explains AllSkipped
  skipped-Explains i at rest st (relayed chosen resp) passed e =
      later-EndsAs i at rest st st (IsAnswer chosen resp) (PassesTo.left rest passed) e
  skipped-Explains i at rest st (bad_request reason) passed e =
      later-EndsAs i at rest st st (IsRefused reason) (PassesTo.left rest passed) e
  skipped-Explains i at rest st no_usable_account passed e = (e.0, (passed, e.1))
  skipped-Explains i at rest st all_accounts_failed passed (inr e) =
      inr (later-EndsAs i at rest st st IsLastSilent (PassesTo.left rest passed) e)
  skipped-Explains i at rest st all_accounts_failed passed (inl e) =
      inr (here-EndsAs i at rest st IsLastSilent (e.0, inl passed))

  shorten_for-tried :
      (i : ℕ) (at : Attempt) (rest : List Attempt) (status : ℕ) (s : LoopState B)
      → (shorten_for calls caller i at rest status s).tried ≡ s.tried
  unfolding shorten_for
  shorten_for-tried i at [] status s = refl
  shorten_for-tried i at (next ∷ rest) status s =
      elim (Bool-cases (
        status == 429
        && not s.shortened
        && not (str_eq next.conn.id at.conn.id)
        && not next.conn.standby)) [ inl busy ↦ rw busy refl | inr kept ↦ rw kept refl ]

  -- A weak answer is passed on to an account that follows.
  pub weak-PassesTo :
      (i : ℕ) (at : Attempt) (rest : List Attempt) (st : LoopState B) (resp : Response)
      (via : String)
      → round calls caller i at st.body ≡ answer resp via
      → passes_on calls caller (has_next rest) via resp ≡ true
      → PassesTo calls caller i at st rest
          (shorten_for calls caller i at rest resp.status (once_more calls caller st))
        × (rest ≢ [])
  unfolding passes_on
  weak-PassesTo i at [] st resp via e on = cc
  weak-PassesTo i at (next ∷ rest) st resp via e on = (
    PassesTo.weak next rest resp via e (passed-IsWeak calls caller true via resp on),
    λ none_left. cc,
  )

  after_round-Explains :
      (i : ℕ) (at : Attempt) (rest : List Attempt) (st : LoopState B)
      (go_on : LoopState B → LoopState B × Outcome) (r : Round)
      → round calls caller i at st.body ≡ r
      → ((t : LoopState B) → Explains (i + 1) rest t (go_on t).1)
      → Explains i (at ∷ rest) st (after_round calls caller i at rest st go_on r).1
  unfolding after_round Explains
  after_round-Explains i at rest st go_on skipped e next =
      skipped-Explains i at rest st (go_on st).1 e (next st)
  after_round-Explains i at rest st go_on unanswered e next =
      let t = once_more calls caller st in
      tried-Explains i at rest st t (go_on t).1 (λ z. omega (arith, z)) (PassesTo.silent rest e)
        (inr e) (next t)
  after_round-Explains i at rest st go_on (refused reason) e next =
      here-EndsAs i at rest st (IsRefused reason) e
  after_round-Explains i at rest st go_on (answer resp via) e next =
      elim (Bool-cases (passes_on calls caller (has_next rest) via resp)) [
        | inl on ↦
            let more = once_more calls caller st in
            let t = shorten_for calls caller i at rest resp.status more in
            let still = shorten_for-tried i at rest resp.status more in
            let (passes, follows) = weak-PassesTo i at rest st resp via e on in
            rw on (
              tried-Explains i at rest st t (go_on t).1 (λ z. omega (arith, z, still)) passes
                (inl follows) (next t))
        | inr stops ↦ rw stops (
            here-EndsAs i at rest st (IsAnswer at resp)
              (refl, (via, (e, stopped-IsFinal calls caller rest via resp stops))))
      ]

  rounds-Explains :
      (attempts : List Attempt) (i : ℕ) (st : LoopState B)
      → Explains i attempts st (rounds calls caller i attempts st).1
  unfolding rounds
  rounds-Explains [] i st = ended-Explains i st
  rounds-Explains (at ∷ rest) i st =
      after_round-Explains i at rest st (λ t. rounds calls caller (i + 1) rest t)
        (round calls caller i at st.body) refl (λ t. rounds-Explains rest (i + 1) t)

  -- Every request ends in one of four ways, each with its reason. An answer is relayed: it is the answer of
  -- an account whose turn came, to the body that the loop had by then, and unless no account follows it is
  -- neither a busy status, an account's refusal nor an empty stream. Or the request is refused: it cannot
  -- be translated for an account whose turn came. Or no account is usable: each was left before anything
  -- was sent. Or all accounts failed: the turn of the last one came, and it was left or gave no answer. The
  -- turn of an account comes after every account before it was left, gave no answer, or gave a weak one.
  pub failover_loop-Explains :
      (attempts : List Attempt) (body : B)
      → Explains 0 attempts
          (start_with calls caller body)
          (failover_loop calls caller attempts body).1
  unfolding failover_loop
  failover_loop-Explains attempts body = rounds-Explains attempts 0 (start_with calls caller body)
