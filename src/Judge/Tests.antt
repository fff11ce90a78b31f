-- ===== src/Judge/Tests.antt =====
-- Calls of the judge, and the theorems at concrete inputs.
use intact.Prelude.{ℕ, String, true, false, ◌≡◌, refl, Option, none, some, List, [], ◌∷◌, arith}
use intact.Prelude.Dict.{Dict, lookup}
use intact.Contract.Diff.{Candidate}
use intact.Judge.{
  approved, proposed, error, Signature, JudgeState, Capture, get_signature, reset_leases,
}
use intact.Judge.Process.{claim_found, claim, process}
use intact.Judge.Interleaved.{
  Reading, Claims, ClaimStep, look, act, set_reading, claim_step, taken_by, names,
}
use intact.Judge.Held.{Sees}
use intact.Judge.Leases.{claim_step-alone}

program : Unit {0}
unfolding reset_leases claim process claim_found get_signature taken_by claim_step names lookup
program = tt

abbrev cand : Candidate
cand = record {
  path = "body.seed";
  type = "number";
  len = 0;
  hash = "";
  enum = "";
  model = "m";
  client_format = "chat";
  direction = "request";
}

abbrev other : Candidate
other = record cand { path = "body.user" }

abbrev capture_at : ℕ → Capture
capture_at now = record {
  key_id = "k";
  trace_id = "t1";
  traces = [];
  new_id = λ c. "fnd_1";
  has_model = true;
  now = now;
  today = "2026-01-01";
}

abbrev empty_state : JudgeState
empty_state = record {
  signatures = [];
  findings = record { findings = []; history = [] };
  day_count = [];
}

abbrev answers : List Candidate → Option (Dict String)
answers claimed = some (("body.seed", "lost") ∷ ("body.user", "renamed:0") ∷ [])

abbrev judged : JudgeState
judged = process (capture_at 1000) ("body.end_user" ∷ []) answers empty_state (cand ∷ other ∷ [])

abbrev lost_row : Signature
lost_row = record {
  model = "m";
  client_format = "chat";
  direction = "request";
  path = "body.seed";
  type = "number";
  verdict = "lost";
  verdict_state = approved;
  error_count = 0;
  judged_at = 1000;
  lease_until = 0;
  key_id = "k";
  first_trace_id = "t1";
}

renamed_is_proposed :
    get_signature other judged.signatures
    ≡ some (record lost_row {
      path = "body.user";
      verdict = "renamed:body.end_user";
      verdict_state = proposed;
    })
unfolding program
renamed_is_proposed = refl

-- Three calls of a model that fails
abbrev failed : ℕ → JudgeState → JudgeState
failed now st = process (capture_at now) [] (λ claimed. none) st (cand ∷ [])

third_error :
    get_signature cand (failed 3000 (failed 2000 (failed 1000 empty_state))).signatures
    ≡ some (record lost_row { verdict = ""; verdict_state = error; error_count = 3; judged_at = 0 })
unfolding program
third_error = refl

-- Call 1 reads the table and takes the signature; calls 2 and 3 read it before the five minutes are over.
abbrev reading_1 : Reading
reading_1 = record { capture = capture_at 1000; candidate = cand; row = none }

abbrev no_reading : ℕ → Option Reading
no_reading m = none

abbrev about_to_take : Claims
about_to_take = record { state = empty_state; reading = set_reading 1 (some reading_1) no_reading }

abbrev others_follow : List ClaimStep
others_follow =
    look 2 (capture_at 1500) cand
    ∷ look 3 (capture_at 300999) cand
    ∷ act 3 300999
    ∷ look 3 (capture_at 300999) other
    ∷ act 2 300999
    ∷ act 3 300999
    ∷ []

takes_the_signature : (claim_found 1001 (capture_at 1000) empty_state cand none).1 ≡ true
unfolding program
takes_the_signature = refl

no_others : (m : ℕ) → Sees cand (set_reading 1 none (set_reading 1 (some reading_1) no_reading) m)
no_others m = ground arith

claim_step-alone_example :
    names cand (taken_by (claim_step about_to_take (act 1 1001)).0 others_follow) ≡ false
unfolding program
claim_step-alone_example =
    claim_step-alone about_to_take 1 1001 reading_1 others_follow refl refl takes_the_signature refl
      no_others (tt, (tt, (omega arith, (tt, (omega arith, (omega arith, tt))))))

takes_the_other : taken_by (claim_step about_to_take (act 1 1001)).0 others_follow ≡ other ∷ []
unfolding program
takes_the_other = refl

abbrev no_claims : Claims
no_claims = record { state = empty_state; reading = no_reading }

-- Two calls that have both read the table as without the signature both take it: the second insert does
-- nothing, and is no error.
both_take :
    taken_by no_claims
      (look 1 (capture_at 1000) cand ∷ look 2 (capture_at 1001) cand ∷ act 1 1001 ∷ act 2 1002 ∷ [])
    ≡ cand ∷ cand ∷ []
unfolding program
both_take = refl

-- Two calls that have both read the row of the signature, whose lease is over
one_leases :
    taken_by
      (record no_claims { state = (claim (capture_at 1000) empty_state (other ∷ [])).0 })
      (look 1 (capture_at 301001) other
        ∷ look 2 (capture_at 301002) other
        ∷ act 1 301002
        ∷ act 2 301003
        ∷ [])
    ≡ other ∷ []
unfolding program
one_leases = refl

-- After a restart the signature is free at once.
leases_after_restart :
    (claim
      (capture_at 1500)
      (record empty_state {
        signatures = reset_leases (claim (capture_at 1000) empty_state (other ∷ [])).0.signatures;
      })
      (other ∷ [])).1
    ≡ other ∷ []
unfolding program
leases_after_restart = refl
