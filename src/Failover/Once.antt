-- ===== src/Failover/Once.antt =====
-- How often `failover` of internal/httpapi/v1.go shortens a conversation, and for which answer.
use mathlib.Core.Path.{subst}
use intact.Prelude.{
  ℕ, ◌+◌, String, true, false, ◌≡◌, refl, sym, ◌∙◌, List, [], ◌∷◌, ◌⊎◌, inl, inr, ◌==◌, Bool-cases,
}
use intact.Affinity.{Attempt}
use intact.Failover.{Response, Calls, Caller, LoopState, Outcome, has_next}
use intact.Failover.Shorten.{passes_on, shorten_for}
use intact.Failover.Loop.{
  Round, skipped, unanswered, answer, refused, round, after_round, rounds, failover_loop, once_more,
  ended, start_with,
}
use intact.Failover.Turns.{PassesTo, Turn}
use intact.Failover.Ends.{weak-PassesTo}
use intact.Failover.Shortened.{IsShortening, Stays, shorten_for-cases, rounds-Stays}

module _ {B : Type 0} (calls : Calls B) (caller : Caller) where
  -- The last body is the first one; or the turn of an account came, its answer was a 429, and the last body
  -- is what the first one was shortened to for the attempts after it.
  abbrev pub IsOnce : ℕ → List Attempt → LoopState B → LoopState B → Type 0
  IsOnce i attempts st last =
      ((last.body ≡ st.body) × (last.shortened ≡ false))
      ⊎ ((last.shortened ≡ true)
          × ((k : ℕ) × ((busy : Attempt) × ((next : Attempt) × ((others : List Attempt)
                    × ((t : LoopState B) × ((resp : Response) × ((via : String) × (Turn calls caller
                                i attempts st k (busy ∷ next ∷ others) t
                              × (round calls caller k busy t.body ≡ answer resp via)
                              × IsShortening calls caller busy next others k resp.status st.body
                                  last.body)))))))))

  later-IsOnce :
      (i : ℕ) (at : Attempt) (rest : List Attempt) (st s last : LoopState B)
      → PassesTo calls caller i at st rest s
      → s.body ≡ st.body
      → IsOnce (i + 1) rest s last
      → IsOnce i (at ∷ rest) st last
  later-IsOnce i at rest st s last passes same (inl (kept, fresh)) = inl (kept ∙ same, fresh)
  later-IsOnce i at rest st s last passes same
        (inr (short, (k, (busy, (next, (others, (t, (resp, (via, (turn, answered, made)))))))))) =
      let turns = Turn.later i k at rest (busy ∷ next ∷ others) st s t passes turn in
      let first_made =
        subst (λ b. IsShortening calls caller busy next others k resp.status b last.body) same
          made in
      inr (short, (k, (busy, (next, (others, (t, (resp, (via, (turns, answered, first_made)))))))))

  ended-IsOnce :
      (i : ℕ) (st : LoopState B) → st.shortened ≡ false → IsOnce i [] st (ended calls caller st).0
  ended-IsOnce i st fresh = elim (Bool-cases (st.tried == 0)) [
    | inl none_tried ↦ rw none_tried (inl (refl, fresh))
    | inr tried ↦ rw tried (inl (refl, fresh))
  ]

  -- A weak answer, from which the rounds that follow lead to the state `last`
  weak-IsOnce :
      (i : ℕ) (at : Attempt) (rest : List Attempt) (st last : LoopState B) (resp : Response)
      (via : String)
      → st.shortened ≡ false
      → round calls caller i at st.body ≡ answer resp via
      → passes_on calls caller (has_next rest) via resp ≡ true
      → let s = shorten_for calls caller i at rest resp.status (once_more calls caller st) in
        (s.shortened ≡ false → IsOnce (i + 1) rest s last)
        → (s.shortened ≡ true → Stays calls caller s last)
        → IsOnce i (at ∷ rest) st last
  weak-IsOnce i at rest st last resp via fresh e on once stays =
      let more = once_more calls caller st in
      let s = shorten_for calls caller i at rest resp.status more in
      let passes = (weak-PassesTo calls caller i at rest st resp via e on).0 in
      elim (shorten_for-cases calls caller i at rest resp.status more) [
        | inl (same, still) ↦ later-IsOnce i at rest st s last passes same (once (still ∙ fresh))
        | inr (was, short, (next, (others, (follows, made)))) ↦
            let (body, kept) = stays short in
            let turn =
              subst (λ xs. Turn calls caller i (at ∷ rest) st i (at ∷ xs) st) follows
                (Turn.first i (at ∷ rest) st) in
            let last_made =
              subst (λ b. IsShortening calls caller at next others i resp.status st.body b)
                (sym body) made in
            inr (kept, (i, (at, (next, (others, (st, (resp, (via, (turn, e, last_made)))))))))
      ]

  after_round-IsOnce :
      (i : ℕ) (at : Attempt) (rest : List Attempt) (st : LoopState B)
      (go_on : LoopState B → LoopState B × Outcome) (r : Round)
      → st.shortened ≡ false
      → round calls caller i at st.body ≡ r
      → ((s : LoopState B) → s.shortened ≡ false → IsOnce (i + 1) rest s (go_on s).0)
      → ((s : LoopState B) → s.shortened ≡ true → Stays calls caller s (go_on s).0)
      → IsOnce i (at ∷ rest) st (after_round calls caller i at rest st go_on r).0
  unfolding after_round
  after_round-IsOnce i at rest st go_on skipped fresh e once stays =
      later-IsOnce i at rest st st (go_on st).0 (PassesTo.left rest e) refl (once st fresh)
  after_round-IsOnce i at rest st go_on unanswered fresh e once stays =
      let s = once_more calls caller st in
      later-IsOnce i at rest st s (go_on s).0 (PassesTo.silent rest e) refl (once s fresh)
  after_round-IsOnce i at rest st go_on (refused reason) fresh e once stays = inl (refl, fresh)
  after_round-IsOnce i at rest st go_on (answer resp via) fresh e once stays =
      elim (Bool-cases (passes_on calls caller (has_next rest) via resp)) [
        | inr stops ↦ rw stops (inl (refl, fresh))
        | inl on ↦
            let s = shorten_for calls caller i at rest resp.status (once_more calls caller st) in
            rw on (weak-IsOnce i at rest st (go_on s).0 resp via fresh e on (once s) (stays s))
      ]

  rounds-IsOnce :
      (attempts : List Attempt) (i : ℕ) (st : LoopState B)
      → st.shortened ≡ false
      → IsOnce i attempts st (rounds calls caller i attempts st).0
  unfolding rounds
  rounds-IsOnce [] i st fresh = ended-IsOnce i st fresh
  rounds-IsOnce (at ∷ rest) i st fresh =
      after_round-IsOnce i at rest st (λ s. rounds calls caller (i + 1) rest s)
        (round calls caller i at st.body) fresh refl (λ s h. rounds-IsOnce rest (i + 1) s h)
        (λ s h. rounds-Stays calls caller rest (i + 1) s h)

  -- Over a whole request the body is shortened at most once: at the end it is the one that the caller sent,
  -- or the turn of an account came, its answer was a 429, and the body is what compacting the caller's body
  -- for the accounts after it gave, where the next one is another account and not on standby, and the
  -- provider is in round-robin rotation.
  pub failover_loop-IsOnce :
      (attempts : List Attempt) (body : B)
      → IsOnce 0 attempts
          (start_with calls caller body)
          (failover_loop calls caller attempts body).0
  unfolding failover_loop
  failover_loop-IsOnce attempts body = rounds-IsOnce attempts 0 (start_with calls caller body) refl
