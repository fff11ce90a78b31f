-- ===== src/Findings/Steps.antt =====
-- What happens to the findings: internal/contract/findings.go, and the expiry of PruneContracts in
-- internal/store/contract.go, as events in the order in which their updates commit.
use intact.Prelude.{ℕ, String, ◌&&◌, some, List, [], ◌∷◌, ltb, if◌then◌else◌}
use intact.Contract.Diff.{Candidate}
use intact.Findings.{
  FindingStatus, opened, expired, status_eq, Finding, FindingDb, Trace, update_where, affects,
  is_in_status,
}
use intact.Findings.Resolve.{resolve_finding}
use intact.Findings.Lost.{handle_lost}

abbrev pub as_expired : ℕ → Finding → Finding
as_expired now f = record f { status = expired; updated_at = now }

-- One round of the loop over the findings that have been open for too long
unfoldable pub expire_finding : FindingDb → String → ℕ → FindingDb
unfolding update_where affects status_eq
expire_finding db id now =
    if affects (is_in_status id opened) db.findings
    then record {
      findings = update_where (is_in_status id opened) (as_expired now) db.findings;
      history =
          record {
            finding_id = id;
            at = now;
            who = "system";
            old_status = some opened;
            new_status = expired;
            note = "expired by retention policy";
          }
          ∷ db.history;
    }
    else db

-- SELECT id FROM contract_findings WHERE status = 'open' AND updated_at < ?
unfoldable pub expiring : ℕ → List Finding → List String
unfolding status_eq
expiring day90_ago [] = []
expiring day90_ago (f ∷ fs) =
    let rest = expiring day90_ago fs in
    if status_eq f.status opened && ltb f.updated_at day90_ago then f.id ∷ rest else rest

unfoldable pub expire_each : List String → FindingDb → ℕ → FindingDb
unfolding expire_finding
expire_each [] db now = db
expire_each (id ∷ ids) db now = expire_each ids (expire_finding db id now) now

-- The fourth step of `PruneContracts`, a transaction
unfoldable pub prune_findings : FindingDb → ℕ → ℕ → FindingDb
unfolding expiring expire_each
prune_findings db day90_ago now = expire_each (expiring day90_ago db.findings) db now

pub data Event : Type 0 where
  -- `HandleLostCandidate`
  lost : Trace → Candidate → String → String → ℕ → Event
  -- `ResolveFinding`, with the tables as it read them
  resolve : FindingDb → List Trace → String → FindingStatus → String → String → ℕ → Event
  -- the fourth step of `PruneContracts`
  prune : ℕ → ℕ → Event

unfoldable pub step : FindingDb → Event → FindingDb
unfolding handle_lost resolve_finding prune_findings
step db (lost trace cand mapped_path new_id now) =
    (handle_lost db trace cand mapped_path new_id now).0
step db (resolve seen traces id target who note now) =
    (resolve_finding seen db traces id target who note now).0
step db (prune day90_ago now) = prune_findings db day90_ago now

unfoldable pub run : FindingDb → List Event → FindingDb
unfolding step
run db [] = db
run db (event ∷ events) = run (step db event) events
