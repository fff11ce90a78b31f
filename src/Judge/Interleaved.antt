-- ===== src/Judge/Interleaved.antt =====
-- internal/contract/judge.go: the claims of several calls of `ProcessCandidates`, interleaved. A call reads
-- the row of its next candidate, and later, under no lock, it writes what follows from the row that it
-- read; steps of other calls come between.
use intact.Prelude.{
  ℕ, ◌==◌, str_eq, Bool, ◌&&◌, ◌||◌, ◌≡◌, refl, arith, true, false, Option, none, some, List, [],
  ◌∷◌, ◌++◌, if◌then◌else◌,
}
use intact.Contract.Diff.{Candidate}
use intact.Judge.{Signature, JudgeState, Capture, get_signature}
use intact.Judge.Process.{claim_found, claim_one, claim}

-- What a call has read for a candidate
pub record Reading : Type 0 where
  pub capture : Capture
  pub candidate : Candidate
  pub row : Option Signature

-- The tables, and the readings that the calls, by their numbers, have not acted on yet
pub record Claims : Type 0 where
  pub state : JudgeState
  pub reading : ℕ → Option Reading

pub data ClaimStep : Type 0 where
  -- `GetContractSignature`
  look : ℕ → Capture → Candidate → ClaimStep
  -- the rest of the round of the loop, at a time
  act : ℕ → ℕ → ClaimStep

abbrev pub set_reading : ℕ → Option Reading → (ℕ → Option Reading) → ℕ → Option Reading
set_reading n reading others m = if m == n then reading else others m

abbrev pub took_first : Candidate → Bool → List Candidate
took_first cand took = if took then cand ∷ [] else []

abbrev acted : ℕ → Claims → Candidate → JudgeState × Bool → Claims × List Candidate
acted n s cand (after, took) =
    (record { state = after; reading = set_reading n none s.reading }, took_first cand took)

unfoldable pub act_on : ℕ → ℕ → Claims → Option Reading → Claims × List Candidate
unfolding claim_found
act_on n clock s none = (s, [])
act_on n clock s (some rd) =
    acted n s rd.candidate (claim_found clock rd.capture s.state rd.candidate rd.row)

-- A step, with the candidate that it takes for the judge
unfoldable pub claim_step : Claims → ClaimStep → Claims × List Candidate
unfolding act_on get_signature
claim_step s (look n c cand) =
    let seen : Reading = record {
      capture = c;
      candidate = cand;
      row = get_signature cand s.state.signatures;
    } in
    (record s { reading = set_reading n (some seen) s.reading }, [])
claim_step s (act n clock) = act_on n clock s (s.reading n)

-- All that the steps take
unfoldable pub taken_by : Claims → List ClaimStep → List Candidate
unfolding claim_step
taken_by s [] = []
taken_by s (step ∷ steps) = let (after, taken) = claim_step s step in taken ++ taken_by after steps

-- The candidates have one signature.
abbrev pub is_same : Candidate → Candidate → Bool
is_same a b =
    str_eq a.model b.model
    && str_eq a.client_format b.client_format
    && str_eq a.direction b.direction
    && str_eq a.path b.path
    && str_eq a.type b.type

unfoldable pub names : Candidate → List Candidate → Bool
names a [] = false
names a (b ∷ claimed) = is_same a b || names a claimed

-- The steps of one call, with no other between
unfoldable pub own_steps : ℕ → Capture → List Candidate → List ClaimStep
own_steps n c [] = []
own_steps n c (cand ∷ cands) = look n c cand ∷ act n c.now ∷ own_steps n c cands

same_number : (n : ℕ) → (n == n) ≡ true
same_number n = ground arith

took-append :
    (cand : Candidate) (took : Bool) (claimed : List Candidate)
    → took_first cand took ++ claimed ≡ (if took then cand ∷ claimed else claimed)
took-append cand true claimed = refl
took-append cand false claimed = refl

-- They take what `claim` takes.
pub taken_by-own :
    (n : ℕ) (c : Capture) (cands : List Candidate) (s : Claims)
    → taken_by s (own_steps n c cands) ≡ (claim c s.state cands).1
unfolding taken_by own_steps claim claim_step act_on claim_one
taken_by-own n c [] s = refl
taken_by-own n c (cand ∷ cands) s =
    let row = get_signature cand s.state.signatures in
    let result = claim_found c.now c s.state cand row in
    let seen : Reading = record { capture = c; candidate = cand; row = row } in
    let after : Claims = record {
      state = result.0;
      reading = set_reading n none (set_reading n (some seen) s.reading);
    } in
    rw (same_number n, taken_by-own n c cands after) (took-append cand result.1 _)
