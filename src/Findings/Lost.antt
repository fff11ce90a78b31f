-- ===== src/Findings/Lost.antt =====
-- internal/contract/findings.go: `HandleLostCandidate`. It runs as one step on the two tables.
use intact.Prelude.{
  ℕ, String, str_append, str_eq, Bool, true, false, not, ◌&&◌, ◌||◌, Option, none, some, [], ◌∷◌,
  ◌++◌, if◌then◌else◌,
}
use intact.Prelude.Text.{cut_prefix}
use intact.Contract.Diff.{Candidate}
use intact.Findings.{
  FindingStatus, opened, fixed, wontfix, expired, Finding, HistoryRow, FindingDb, Trace, by_id,
  by_path, last_history, update_status, counted, counted_exempt, update_counts,
}
use intact.Findings.Versions.{is_newer}

abbrev pub review_who : String
review_who = "review:"

abbrev is_cut_off : Option String → Bool
is_cut_off none = false
is_cut_off (some rest) = true

unfoldable pub has_prefix : String → String → Bool
unfolding cut_prefix
has_prefix s prefix = is_cut_off (cut_prefix prefix s)

-- Who sets a wontfix that never opens again
unfoldable pub is_operator : String → Bool
unfolding has_prefix
is_operator who =
    str_eq who "session"
    || str_eq who "master"
    || has_prefix who "session"
    || has_prefix who "master"
    || has_prefix who review_who

unfoldable pub set_by_operator : Option HistoryRow → Bool
unfolding is_operator
set_by_operator none = false
set_by_operator (some h) = is_operator h.who

abbrev pub new_finding : Trace → Candidate → String → String → ℕ → Finding
new_finding trace cand mapped_path new_id now = record {
  id = new_id;
  model = cand.model;
  client_format = cand.client_format;
  direction = cand.direction;
  path = cand.path;
  tool = trace.tool;
  mapping = mapped_path;
  first_trace = trace.id;
  last_trace = trace.id;
  exempt_trace = trace.id;
  count = 1;
  status = opened;
  fixed_in = "";
  clean_traces = 0;
  created_at = now;
  updated_at = now;
  reviewed_at = 0;
  review_resolved = false;
}

abbrev pub opened_row : Trace → String → ℕ → HistoryRow
opened_row trace new_id now = record {
  finding_id = new_id;
  at = now;
  who = trace.key_id;
  old_status = none;
  new_status = opened;
  note = str_append "opened by trace " trace.id;
}

-- The insert, of a path that no row has; it fails where the id is taken.
unfoldable pub create_finding :
    FindingDb → Trace → Candidate → String → String → ℕ → Option Finding → FindingDb × Bool
create_finding db trace cand mapped_path new_id now none = (
  record {
    findings = db.findings ++ new_finding trace cand mapped_path new_id now ∷ [];
    history = opened_row trace new_id now ∷ db.history;
  },
  true,
)
create_finding db trace cand mapped_path new_id now (some taken) = (db, false)

-- What follows the try to open a finding again: `after` is the count when it did not.
abbrev pub counted_after :
    Trace → ℕ → String → (FindingDb → FindingDb) → FindingDb × Bool → FindingDb
counted_after trace now id after (db, ok) =
    if ok then update_counts (counted_exempt trace now) id db else after db

unfoldable pub reopen : FindingDb → Trace → String → FindingStatus → ℕ → FindingDb × Bool
unfolding update_status
reopen db trace id status now =
    update_status db id status opened "system" (str_append "reopened by trace " trace.id) "" now

-- `trace.SwitcherVersion` is greater than `FixedIn`, and both are known.
abbrev pub is_after_fix : Trace → Finding → Bool
is_after_fix trace f =
    not (str_eq trace.switcher_version "")
    && not (str_eq f.fixed_in "")
    && is_newer trace.switcher_version f.fixed_in

-- The switch over the status of the finding `f`
unfoldable pub lost_again : FindingDb → Trace → ℕ → Finding → FindingStatus → FindingDb
unfolding reopen counted counted_exempt set_by_operator
lost_again db trace now f fixed =
    if is_after_fix trace f
    then counted_after trace now f.id (update_counts (counted trace now) f.id)
        (reopen db trace f.id fixed now)
    else update_counts (counted trace now) f.id db
lost_again db trace now f wontfix =
    if set_by_operator (last_history f.id db.history)
    then update_counts (counted trace now) f.id db
    else if is_after_fix trace f
    then counted_after trace now f.id (update_counts (counted trace now) f.id)
        (reopen db trace f.id wontfix now)
    else update_counts (counted trace now) f.id db
lost_again db trace now f expired =
    counted_after trace now f.id (λ same. same) (reopen db trace f.id expired now)
lost_again db trace now f opened = update_counts (counted_exempt trace now) f.id db

unfoldable pub lost_of :
    FindingDb → Trace → Candidate → String → String → ℕ → Option Finding → FindingDb × Bool
unfolding create_finding lost_again by_id
lost_of db trace cand mapped_path new_id now none =
    create_finding db trace cand mapped_path new_id now (by_id new_id db.findings)
lost_of db trace cand mapped_path new_id now (some f) = (lost_again db trace now f f.status, true)

-- `HandleLostCandidate`, and whether it returned no error
unfoldable pub handle_lost : FindingDb → Trace → Candidate → String → String → ℕ → FindingDb × Bool
unfolding lost_of by_path
handle_lost db trace cand mapped_path new_id now =
    if not trace.trusted
    then (db, true)
    else lost_of db trace cand mapped_path new_id now (by_path cand db.findings)
