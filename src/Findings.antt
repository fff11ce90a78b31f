-- ===== src/Findings.antt =====
-- internal/contract/findings.go: the contract findings, how they are opened, resolved and opened
-- again, over the rows of internal/store/contract.go that it reads and writes.
-- A table is the list of its rows. Columns that are constant for every finding of findings.go (class,
-- confidence, reducer version) and those of the review's text are left out. A time is a number of
-- milliseconds, and the random id of a new finding is an argument. SQL does not fail here.
pub mod Versions
pub mod Resolve
pub mod Lost
pub mod Order
pub mod Fix
pub mod Steps
pub mod Rows
pub mod Reopen
pub mod Ruled
pub mod Kept
pub mod Runs
mod Tests
use intact.Prelude.{
  ℕ, ◌+◌, String, str_append, str_eq, Bool, true, false, not, ◌&&◌, ◌||◌, Option, none, some, List,
  [], ◌∷◌, ◌++◌, leb, if◌then◌else◌,
}
use intact.Contract.Diff.{Candidate}

pub data FindingStatus : Type 0 where
  opened : FindingStatus
  fixed : FindingStatus
  wontfix : FindingStatus
  expired : FindingStatus

unfoldable pub status_eq : FindingStatus → FindingStatus → Bool
status_eq opened opened = true
status_eq fixed fixed = true
status_eq wontfix wontfix = true
status_eq expired expired = true
status_eq a b = false

-- `ContractFinding`
pub record Finding : Type 0 where
  pub id : String
  pub model : String
  pub client_format : String
  pub direction : String
  pub path : String
  pub tool : String
  pub mapping : String
  pub first_trace : String
  pub last_trace : String
  pub exempt_trace : String
  pub count : ℕ
  pub status : FindingStatus
  pub fixed_in : String
  pub clean_traces : ℕ
  pub created_at : ℕ
  pub updated_at : ℕ
  pub reviewed_at : ℕ
  pub review_resolved : Bool

-- A row of `contract_finding_history`; the old status of a new finding is none.
pub record HistoryRow : Type 0 where
  pub finding_id : String
  pub at : ℕ
  pub who : String
  pub old_status : Option FindingStatus
  pub new_status : FindingStatus
  pub note : String

-- The two tables; the history has its newest row, that of the greatest id, first.
pub record FindingDb : Type 0 where
  pub findings : List Finding
  pub history : List HistoryRow

-- What findings.go reads of a `ContractTrace`
pub record Trace : Type 0 where
  pub id : String
  pub key_id : String
  pub model : String
  pub tool : String
  pub switcher_version : String
  pub trusted : Bool

-- `GetContractFinding`
unfoldable pub by_id : String → List Finding → Option Finding
by_id id [] = none
by_id id (f ∷ fs) = let rest = by_id id fs in if str_eq f.id id then some f else rest

-- WHERE model = ? AND client_format = ? AND direction = ? AND path = ?
abbrev pub is_of : Candidate → Finding → Bool
is_of cand f =
    str_eq f.model cand.model
    && str_eq f.client_format cand.client_format
    && str_eq f.direction cand.direction
    && str_eq f.path cand.path

-- `GetContractFindingByPath`
unfoldable pub by_path : Candidate → List Finding → Option Finding
by_path cand [] = none
by_path cand (f ∷ fs) = let rest = by_path cand fs in if is_of cand f then some f else rest

-- UPDATE contract_findings SET change WHERE test
unfoldable pub update_where : (Finding → Bool) → (Finding → Finding) → List Finding → List Finding
update_where test change [] = []
update_where test change (f ∷ fs) =
    let rest = update_where test change fs in if test f then change f ∷ rest else f ∷ rest

-- RowsAffected of that statement is not 0
unfoldable pub affects : (Finding → Bool) → List Finding → Bool
affects test [] = false
affects test (f ∷ fs) = test f || affects test fs

abbrev pub newer_row : HistoryRow → Option HistoryRow → Option HistoryRow
newer_row h none = some h
newer_row h (some r) = if leb r.at h.at then some h else some r

-- `GetLastFindingHistory`: ORDER BY at DESC, id DESC LIMIT 1
unfoldable pub last_history : String → List HistoryRow → Option HistoryRow
last_history id [] = none
last_history id (h ∷ hs) =
    let rest = last_history id hs in if str_eq h.finding_id id then newer_row h rest else rest

-- The row that `UpdateContractFindingStatus` writes
unfoldable pub with_status : FindingStatus → String → ℕ → Finding → Finding
unfolding status_eq
with_status new_status fixed_in now f =
    let is_open = status_eq new_status opened in
    record f {
      status = new_status;
      fixed_in = if str_eq fixed_in "" then f.fixed_in else fixed_in;
      updated_at = now;
      reviewed_at = if is_open then 0 else f.reviewed_at;
      review_resolved = if is_open then false else f.review_resolved;
    }

abbrev pub is_in_status : String → FindingStatus → Finding → Bool
is_in_status id status f = str_eq f.id id && status_eq f.status status

-- `UpdateContractFindingStatus`
unfoldable pub update_status :
    FindingDb
    → String
    → FindingStatus
    → FindingStatus
    → String
    → String
    → String
    → ℕ
    → FindingDb × Bool
unfolding with_status update_where affects
update_status db id old_status new_status who note fixed_in now =
    if not (affects (is_in_status id old_status) db.findings) then (db, false) else (
      record {
        findings =
            update_where (is_in_status id old_status) (with_status new_status fixed_in now)
              db.findings;
        history =
            record {
              finding_id = id;
              at = now;
              who = who;
              old_status = some old_status;
              new_status = new_status;
              note = note;
            }
            ∷ db.history;
      },
      true,
    )

-- SET count = count + 1, last_trace = ?, updated_at = ?
unfoldable pub counted : Trace → ℕ → Finding → Finding
counted trace now f = record f { count = f.count + 1; last_trace = trace.id; updated_at = now }

-- ... and exempt_trace = ?
unfoldable pub counted_exempt : Trace → ℕ → Finding → Finding
counted_exempt trace now f = record f {
  count = f.count + 1;
  last_trace = trace.id;
  exempt_trace = trace.id;
  updated_at = now;
}

abbrev pub update_counts : (Finding → Finding) → String → FindingDb → FindingDb
update_counts change id db = record db {
  findings = update_where (λ f. str_eq f.id id) change db.findings;
}
