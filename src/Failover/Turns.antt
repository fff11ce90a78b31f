-- ===== src/Failover/Turns.antt =====
-- How the loop over the accounts comes to the turn of one: the rounds that are passed before it.
use intact.Prelude.{
  ℕ, ◌+◌, String, Bool, true, false, not, ◌&&◌, ◌||◌, ◌≡◌, List, [], ◌∷◌, ◌⊎◌, inl, inr, arith, ltb,
  refl, Bool-cases,
}
use intact.Affinity.{Attempt}
use intact.Failover.{
  Response, Calls, Caller, LoopState, has_next, account_refusal, retryable_status, always_streams,
}
use intact.Failover.Shorten.{passes_on, shorten_for}
use intact.Failover.Loop.{skipped, unanswered, answer, round, once_more}

module _ {B : Type 0} (calls : Calls B) (caller : Caller) where
  abbrev is_empty_stream : String → Response → Bool
  is_empty_stream via resp =
      ltb resp.status 300 && (caller.stream || always_streams via) && not resp.has_first_byte

  -- An answer that another account may better: a refusal of the account, a busy or failing provider, or a
  -- stream with no first byte
  abbrev pub IsWeak : String → Response → Type 0
  IsWeak via resp =
      (account_refusal resp.status ≡ true)
      ⊎ ((retryable_status resp.status ≡ true) ⊎ (is_empty_stream via resp ≡ true))

  -- No account follows, or none could better the answer.
  abbrev pub IsFinal : List Attempt → String → Response → Type 0
  IsFinal rest via resp =
      (rest ≡ [])
      ⊎ ((account_refusal resp.status ≡ false)
          × (retryable_status resp.status ≡ false)
          × (is_empty_stream via resp ≡ false))

  pub passed-IsWeak :
      (more : Bool) (via : String) (resp : Response)
      → passes_on calls caller more via resp ≡ true
      → IsWeak via resp
  unfolding passes_on
  passed-IsWeak more via resp on = elim (Bool-cases (account_refusal resp.status)) [
    | inl refused ↦ inl refused
    | inr accepted ↦ elim (Bool-cases (retryable_status resp.status)) [
      | inl busy ↦ inr (inl busy)
      | inr fine ↦ inr (inr (ground (arith, on, accepted, fine)))
    ]
  ]

  pub stopped-IsFinal :
      (rest : List Attempt) (via : String) (resp : Response)
      → passes_on calls caller (has_next rest) via resp ≡ false
      → IsFinal rest via resp
  unfolding passes_on
  stopped-IsFinal [] via resp stops = inl refl
  stopped-IsFinal (next ∷ rest) via resp stops =
      inr (ground (arith, stops), ground (arith, stops), ground (arith, stops))

  -- The round of an attempt leaves the request to the next one, in the state given last: the account was
  -- left before a send, it gave no answer, or a weak one with another account to follow.
  pub data PassesTo (i : ℕ) (at : Attempt) (st : LoopState B)
      : List Attempt → LoopState B → Type 0 where
    left :
        (rest : List Attempt) → round calls caller i at st.body ≡ skipped → PassesTo i at st rest st
    silent :
        (rest : List Attempt)
        → round calls caller i at st.body ≡ unanswered
        → PassesTo i at st rest (once_more calls caller st)
    weak :
        (next : Attempt) (rest : List Attempt) (resp : Response) (via : String)
        → round calls caller i at st.body ≡ answer resp via
        → IsWeak via resp
        → PassesTo i at st
            (next ∷ rest)
            (shorten_for calls caller i at (next ∷ rest) resp.status (once_more calls caller st))

  -- From the attempts with their first index and the state, the loop comes to those that are given last.
  pub data Turn : ℕ → List Attempt → LoopState B → ℕ → List Attempt → LoopState B → Type 0 where
    first : (i : ℕ) (attempts : List Attempt) (st : LoopState B) → Turn i attempts st i attempts st
    later :
        (i k : ℕ) (at : Attempt) (rest others : List Attempt) (st s t : LoopState B)
        → PassesTo i at st rest s
        → Turn (i + 1) rest s k others t
        → Turn i (at ∷ rest) st k others t
