-- ===== src/Judge/Process.antt =====
-- internal/contract/judge.go: `ProcessCandidates`, in its two parts: it claims the candidates that are
-- free, and it concludes with the answers for those it claimed. Other calls may run between the parts.
-- `claim` is the first part with no step of another call in it; `claim_found` is a round of its loop from
-- the row that it has read, and Judge/Interleaved lets other calls come between the read and that.
use intact.Prelude.{
  ℕ, ◌+◌, String, str_append, str_eq, Bool, true, false, not, ◌&&◌, ◌||◌, Option, none, some, List,
  [], ◌∷◌, ltb, leb, get_elem?, if◌then◌else◌,
}
use intact.Prelude.Dict.{Dict, lookup, insert}
use intact.Prelude.Text.{cut_prefix}
use intact.Prelude.Decimal.{format_int, parse_int}
use intact.Contract.Diff.{Candidate}
use intact.Judge.{
  VerdictState, pending, approved, proposed, is_pending, Signature, JudgeState, Capture,
  get_signature, insert_signature, lease_signature, lease_time, increment_error, update_verdict,
  report_lost,
}

abbrev pub new_signature : Capture → Candidate → Signature
new_signature c cand = record {
  model = cand.model;
  client_format = cand.client_format;
  direction = cand.direction;
  path = cand.path;
  type = cand.type;
  verdict = "";
  verdict_state = pending;
  error_count = 0;
  judged_at = 0;
  lease_until = if c.has_model then c.now + lease_time else 0;
  key_id = c.key_id;
  first_trace_id = c.trace_id;
}

abbrev is_approved : VerdictState → Bool
is_approved approved = true
is_approved state = false

abbrev pub is_lost : Signature → Bool
is_lost s = is_approved s.verdict_state && str_eq s.verdict "lost"

abbrev pub with_signatures : JudgeState → List Signature × Bool → JudgeState × Bool
with_signatures st (signatures, ok) = (record st { signatures = signatures }, ok)

-- A signature that is no row yet
unfoldable pub claim_new : Capture → JudgeState → Candidate → JudgeState × Bool
unfolding insert_signature
claim_new c st cand = (
  record st { signatures = insert_signature cand (new_signature c cand) st.signatures },
  c.has_model,
)

-- One whose row is there; `clock` is the time at which LeaseContractSignature runs.
unfoldable pub claim_known : ℕ → Capture → JudgeState → Candidate → Signature → JudgeState × Bool
unfolding report_lost lease_signature
claim_known clock c st cand s =
    if not (is_pending s.verdict_state)
    then (
      if is_lost s then record st { findings = report_lost c cand "" st.findings } else st,
      false,
    )
    else if not c.has_model
    then (st, false)
    else if ltb s.lease_until c.now
    then with_signatures st (lease_signature cand (c.now + lease_time) clock st.signatures)
    else (st, false)

unfoldable pub claim_found :
    ℕ → Capture → JudgeState → Candidate → Option Signature → JudgeState × Bool
unfolding claim_new claim_known
claim_found clock c st cand none = claim_new c st cand
claim_found clock c st cand (some s) =
    if str_eq s.model "" then claim_new c st cand else claim_known clock c st cand s

-- A round of the loop over the candidates: whether this one is to be judged
unfoldable pub claim_one : Capture → JudgeState → Candidate → JudgeState × Bool
unfolding claim_found get_signature
claim_one c st cand = claim_found c.now c st cand (get_signature cand st.signatures)

abbrev pub join_claimed :
    Candidate → Bool → JudgeState × List Candidate → JudgeState × List Candidate
join_claimed cand took (st, claimed) = (st, if took then cand ∷ claimed else claimed)

unfoldable pub claim : Capture → JudgeState → List Candidate → JudgeState × List Candidate
unfolding claim_one
claim c st [] = (st, [])
claim c st (cand ∷ cands) =
    let (after, took) = claim_one c st cand in join_claimed cand took (claim c after cands)

-- `ans` is one of the options that were offered, with those of the unmatched output from index `i` on.
unfoldable pub is_index_of : String → ℕ → List String → Bool
unfolding format_int
is_index_of ans i [] = false
is_index_of ans i (path ∷ paths) =
    let later = is_index_of ans (i + 1) paths in
    str_eq ans (str_append "renamed:" (format_int i)) || later

unfoldable pub is_valid_option : String → List String → Bool
unfolding is_index_of
is_valid_option ans unmatched =
    str_eq ans "lost"
    || str_eq ans "normalized"
    || str_eq ans "noise"
    || is_index_of ans 0 unmatched

-- strconv.Atoi of an index, in the range of the list
abbrev path_at : List String → Option (Bool × ℕ) → Option String
path_at unmatched none = none
path_at unmatched (some (negative, i)) = if negative then none else get_elem? unmatched i

-- The verdict, its state and the mapped path; none for an answer that counts as an error
abbrev renamed_to : Option String → Option (String × VerdictState × String)
renamed_to none = none
renamed_to (some path) = some (str_append "renamed:" path, proposed, path)

verdict_for : List String → String → Option String → Option (String × VerdictState × String)
unfolding parse_int
verdict_for unmatched ans (some index) = renamed_to (path_at unmatched (parse_int index))
verdict_for unmatched ans none =
    if str_eq ans "lost" then some ("lost", approved, "") else some (ans, proposed, "")

unfoldable pub verdict_of : List String → Option String → Option (String × VerdictState × String)
unfolding is_valid_option verdict_for cut_prefix
verdict_of unmatched none = none
verdict_of unmatched (some ans) =
    if is_valid_option ans unmatched
    then verdict_for unmatched ans (cut_prefix "renamed:" ans)
    else none

unfoldable pub give_verdict :
    Capture → JudgeState → Candidate → Option (String × VerdictState × String) → JudgeState
unfolding increment_error update_verdict report_lost
give_verdict c st cand none = record st { signatures = increment_error cand st.signatures }
give_verdict c st cand (some (verdict, state, mapped_path)) = record st {
  signatures = update_verdict cand verdict state c.now st.signatures;
  findings =
      if str_eq verdict "lost" then report_lost c cand mapped_path st.findings else st.findings;
}

unfoldable pub conclude :
    Capture → List String → Dict String → JudgeState → List Candidate → JudgeState
unfolding give_verdict verdict_of lookup
conclude c unmatched answers st [] = st
conclude c unmatched answers st (cand ∷ cands) =
    let after = give_verdict c st cand (verdict_of unmatched (lookup cand.path answers)) in
    conclude c unmatched answers after cands

unfoldable pub count_errors : JudgeState → List Candidate → JudgeState
unfolding increment_error
count_errors st [] = st
count_errors st (cand ∷ cands) =
    count_errors (record st { signatures = increment_error cand st.signatures }) cands

abbrev pub or_zero : Option ℕ → ℕ
or_zero none = 0
or_zero (some n) = n

abbrev pub limit_key : Capture → String
limit_key c = str_append c.key_id (str_append ":" c.today)

-- Whether there is something to judge and an attempt left, with the attempt counted
unfoldable pub attempt : Capture → JudgeState → List Candidate → JudgeState × Bool
unfolding lookup insert
attempt c st [] = (st, false)
attempt c st (cand ∷ cands) =
    let count = or_zero (lookup (limit_key c) st.day_count) in
    if not c.has_model || leb 50 count
    then (st, false)
    else (record st { day_count = insert (limit_key c) (count + 1) st.day_count }, true)

-- What follows the model's answers, or its error
unfoldable pub answered :
    Capture → List String → Option (Dict String) → JudgeState → List Candidate → JudgeState
unfolding conclude count_errors
answered c unmatched none st claimed = count_errors st claimed
answered c unmatched (some answers) st claimed = conclude c unmatched answers st claimed

abbrev judged_if :
    Capture
    → List String
    → (List Candidate → Option (Dict String))
    → List Candidate
    → JudgeState × Bool
    → JudgeState
judged_if c unmatched judge claimed (st, called) =
    if called then answered c unmatched (judge claimed) st claimed else st

abbrev judge_claimed :
    Capture
    → List String
    → (List Candidate → Option (Dict String))
    → JudgeState × List Candidate
    → JudgeState
judge_claimed c unmatched judge (st, claimed) =
    judged_if c unmatched judge claimed (attempt c st claimed)

-- `ProcessCandidates`, with no other call between its parts
unfoldable pub process :
    Capture
    → List String
    → (List Candidate → Option (Dict String))
    → JudgeState
    → List Candidate
    → JudgeState
unfolding claim attempt answered
process c unmatched judge st cands = judge_claimed c unmatched judge (claim c st cands)
