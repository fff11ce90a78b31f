-- ===== src/Findings/Resolve.antt =====
-- internal/contract/findings.go: `ResolveFinding`.
use intact.Prelude.{
  ℕ, String, str_eq, Bool, not, ◌&&◌, ◌||◌, Option, none, some, List, [], ◌∷◌, if◌then◌else◌,
}
use intact.Findings.{
  FindingStatus, fixed, wontfix, status_eq, Finding, FindingDb, Trace, by_id, update_status,
}
use intact.Findings.Versions.{is_newer}

-- `ListTrustedSwitcherVersions`
unfoldable pub trusted_versions : String → List Trace → List String
trusted_versions model [] = []
trusted_versions model (t ∷ ts) =
    let rest = trusted_versions model ts in
    if str_eq t.model model && t.trusted && not (str_eq t.switcher_version "")
    then t.switcher_version ∷ rest
    else rest

-- The loop of `ResolveFinding` over the versions
unfoldable pub greatest : List String → String → String
unfolding is_newer
greatest [] fixed_in = fixed_in
greatest (v ∷ vs) fixed_in =
    if str_eq fixed_in "" || is_newer v fixed_in then greatest vs v else greatest vs fixed_in

pub data ResolveAnswer : Type 0 where
  resolved : ResolveAnswer
  invalid_status : ResolveAnswer
  not_found : ResolveAnswer
  conflict : ResolveAnswer

abbrev pub conflict_unless : FindingDb × Bool → FindingDb × ResolveAnswer
conflict_unless (db, ok) = if ok then (db, resolved) else (db, conflict)

unfoldable pub resolve_found :
    Option Finding
    → FindingDb
    → List Trace
    → String
    → FindingStatus
    → String
    → String
    → ℕ
    → FindingDb × ResolveAnswer
unfolding update_status greatest trusted_versions
resolve_found none db traces id target who note now = (db, not_found)
resolve_found (some f) db traces id target who note now =
    if status_eq f.status target
    then (db, conflict)
    else conflict_unless (
        update_status db id f.status target who note (greatest (trusted_versions f.model traces) "")
          now)

-- `ResolveFinding`, which read the rows in the state `seen` and updates those of `db`
unfoldable pub resolve_finding :
    FindingDb
    → FindingDb
    → List Trace
    → String
    → FindingStatus
    → String
    → String
    → ℕ
    → FindingDb × ResolveAnswer
unfolding resolve_found by_id
resolve_finding seen db traces id target who note now =
    if not (status_eq target fixed) && not (status_eq target wontfix)
    then (db, invalid_status)
    else resolve_found (by_id id seen.findings) db traces id target who note now
