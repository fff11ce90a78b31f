-- ===== src/Judge.antt =====
-- internal/contract/judge.go: the verdicts on the signatures of lost fields, over the rows of
-- internal/store/contract.go that it reads and writes.
-- A time is a number of milliseconds, one for all readings of the clock in a part of a call, but that of
-- LeaseContractSignature is apart where calls are interleaved; `today` is the day that is written in the
-- limit's key. SQL does not fail here. What the decision model answers
-- is an argument: none stands for an error.
pub mod Process
pub mod Rows
pub mod Claims
pub mod Interleaved
pub mod Held
pub mod Leases
pub mod Settled
mod Tests
use intact.Prelude.{
  ℕ, ◌+◌, ◌*◌, String, str_eq, Bool, true, false, not, ◌&&◌, Option, none, some, List, [], ◌∷◌,
  ◌++◌, ltb, leb, if◌then◌else◌,
}
use intact.Prelude.Dict.{Dict}
use intact.Contract.Diff.{Candidate}
use intact.Findings.{FindingDb, Trace}
use intact.Findings.Lost.{handle_lost}

pub data VerdictState : Type 0 where
  pending : VerdictState
  approved : VerdictState
  proposed : VerdictState
  rejected : VerdictState
  error : VerdictState

abbrev pub is_pending : VerdictState → Bool
is_pending pending = true
is_pending state = false

-- `ContractSignature`, without its reducer version
pub record Signature : Type 0 where
  pub model : String
  pub client_format : String
  pub direction : String
  pub path : String
  pub type : String
  pub verdict : String
  pub verdict_state : VerdictState
  pub error_count : ℕ
  pub judged_at : ℕ
  pub lease_until : ℕ
  pub key_id : String
  pub first_trace_id : String

-- The tables, and the attempts of each key and day
pub record JudgeState : Type 0 where
  pub signatures : List Signature
  pub findings : FindingDb
  pub day_count : Dict ℕ

-- What a call of `ProcessCandidates` is given, and reads of its surroundings: the table of traces, the
-- random id of a finding that it may open, whether there is a decision model, and the time.
pub record Capture : Type 0 where
  pub key_id : String
  pub trace_id : String
  pub traces : List Trace
  pub new_id : Candidate → String
  pub has_model : Bool
  pub now : ℕ
  pub today : String

-- WHERE model = ? AND client_format = ? AND direction = ? AND path = ? AND type = ?
abbrev pub is_sig : Candidate → Signature → Bool
is_sig cand s =
    str_eq s.model cand.model
    && str_eq s.client_format cand.client_format
    && str_eq s.direction cand.direction
    && str_eq s.path cand.path
    && str_eq s.type cand.type

-- `GetContractSignature`
unfoldable pub get_signature : Candidate → List Signature → Option Signature
get_signature cand [] = none
get_signature cand (s ∷ ss) =
    let rest = get_signature cand ss in if is_sig cand s then some s else rest

-- UPDATE contract_signatures SET change WHERE the row is the candidate's and passes the test
unfoldable pub update_signature :
    Candidate → (Signature → Bool) → (Signature → Signature) → List Signature → List Signature
update_signature cand test change [] = []
update_signature cand test change (s ∷ ss) =
    let rest = update_signature cand test change ss in
    if is_sig cand s && test s then change s ∷ rest else s ∷ rest

abbrev is_there : Option Signature → Bool
is_there none = false
is_there (some s) = true

-- `InsertContractSignature`, which does nothing where the row is there
unfoldable pub insert_signature : Candidate → Signature → List Signature → List Signature
unfolding get_signature
insert_signature cand s ss = if is_there (get_signature cand ss) then ss else ss ++ s ∷ []

abbrev pub lease_time : ℕ
lease_time = 5 * 60 * 1000

-- `LeaseContractSignature`: the rows, and whether one was leased
abbrev pub is_free : ℕ → Signature → Bool
is_free now s = is_pending s.verdict_state && leb s.lease_until now

abbrev pub leased : ℕ → Signature → Signature
leased until s = record s { lease_until = until }

abbrev passes : (Signature → Bool) → Option Signature → Bool
passes test none = false
passes test (some s) = test s

unfoldable pub lease_signature : Candidate → ℕ → ℕ → List Signature → List Signature × Bool
unfolding update_signature get_signature
lease_signature cand until now ss = (
  update_signature cand (is_free now) (leased until) ss,
  passes (is_free now) (get_signature cand ss),
)

-- `IncrementSignatureError`
unfoldable pub with_error : Signature → Signature
with_error s = record s {
  error_count = s.error_count + 1;
  verdict_state = if leb 3 (s.error_count + 1) then error else s.verdict_state;
  lease_until = 0;
}

unfoldable pub increment_error : Candidate → List Signature → List Signature
unfolding update_signature with_error
increment_error cand ss = update_signature cand (λ s. true) with_error ss

-- `UpdateSignatureVerdict`
abbrev pub with_verdict : String → VerdictState → ℕ → Signature → Signature
with_verdict verdict state now s = record s {
  verdict = verdict;
  verdict_state = state;
  judged_at = now;
  lease_until = 0;
}

unfoldable pub update_verdict :
    Candidate → String → VerdictState → ℕ → List Signature → List Signature
unfolding update_signature
update_verdict cand verdict state now ss =
    update_signature cand (λ s. true) (with_verdict verdict state now) ss

-- `GetContractTrace`
unfoldable pub get_trace : String → List Trace → Option Trace
get_trace id [] = none
get_trace id (t ∷ ts) = let rest = get_trace id ts in if str_eq t.id id then some t else rest

-- `HandleLostCandidate` for the capture's trace, when it is there
abbrev lost_in : Candidate → String → String → ℕ → FindingDb → Option Trace → FindingDb
lost_in cand mapped_path new_id now db none = db
lost_in cand mapped_path new_id now db (some trace) =
    (handle_lost db trace cand mapped_path new_id now).0

unfoldable pub report_lost : Capture → Candidate → String → FindingDb → FindingDb
unfolding get_trace handle_lost
report_lost c cand mapped_path db =
    lost_in cand mapped_path (c.new_id cand) c.now db (get_trace c.trace_id c.traces)

-- `ResetLeasesOnStartup`, before any call runs
unfoldable reset_lease : Signature → Signature
reset_lease s =
    if is_pending s.verdict_state && ltb 0 s.lease_until then record s { lease_until = 0 } else s

unfoldable pub reset_leases : List Signature → List Signature
unfolding reset_lease
reset_leases [] = []
reset_leases (s ∷ ss) = reset_lease s ∷ reset_leases ss
