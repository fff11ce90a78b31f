-- ===== src/Findings/Runs.antt =====
-- Runs of events over a finding that was ruled out.
use mathlib.Core.Bool.{and-false}
use intact.Prelude.{
  ℕ, String, str_eq, eq_iff, Bool, true, false, not, ◌&&◌, ◌||◌, ◌≡◌, refl, sym, ap, ◌∙◌, Option,
  none, some, List, [], ◌∷◌, ◌++◌, inl, inr, arith, if◌then◌else◌, Bool-cases, All, All-append,
}
use intact.Contract.Diff.{Candidate}
use intact.Findings.{
  FindingStatus, opened, fixed, wontfix, status_eq, Finding, FindingDb, Trace, by_id, by_path,
  affects, is_in_status,
}
use intact.Findings.Lost.{
  handle_lost, lost_of, set_by_operator, create_finding, new_finding, opened_row,
}
use intact.Findings.Resolve.{
  resolve_finding, resolve_found, conflict_unless, greatest, trusted_versions,
}
use intact.Findings.Steps.{
  Event, lost, resolve, prune, step, run, expire_finding, expire_each, prune_findings, expiring,
  as_expired,
}
use intact.Findings.Ruled.{
  IsSpared, IsRuled, update-IsRuled, last_history-other, other_row, update_status-IsRuled,
}
use intact.Findings.Kept.{by_path-IsSpared, by_id-present, other-IsRuled, same-IsRuled}

affects-append :
    (test : Finding → Bool) (fs : List Finding) (g : Finding)
    → affects test fs ≡ true
    → affects test (fs ++ g ∷ []) ≡ true
unfolding affects
affects-append test [] g h = cc
affects-append test (f ∷ fs) g h = elim (Bool-cases (test f)) [
  | inl hit ↦ rw hit refl
  | inr missed ↦ rw missed (affects-append test fs g (rw missed at h))
]

free_id :
    (id new_id : String) (fs : List Finding)
    → affects (λ f. str_eq f.id id) fs ≡ true
    → by_id new_id fs ≡ none
    → str_eq new_id id ≡ false
free_id id new_id fs present free = elim (Bool-cases (str_eq new_id id)) [
  | inr apart ↦ apart
  | inl same ↦
      let (f, found) = by_id-present id fs present in
      let e : by_id id fs ≡ none = ap (λ x. by_id x fs) (sym ((eq_iff new_id id).0 same)) ∙ free in
      cc
]

create-IsRuled :
    (id : String) (db : FindingDb) (trace : Trace) (cand : Candidate) (mapped_path new_id : String)
    (now : ℕ) (taken : Option Finding)
    → by_id new_id db.findings ≡ taken
    → IsRuled id db
    → IsRuled id (create_finding db trace cand mapped_path new_id now taken).0
unfolding create_finding
create-IsRuled id db trace cand mapped_path new_id now none free r =
    let apart = free_id id new_id db.findings r.present free in
    let row = new_finding trace cand mapped_path new_id now in
    record {
      present = affects-append (λ f. str_eq f.id id) db.findings row r.present;
      spared = All-append (IsSpared id) db.findings (row ∷ []) r.spared (inl apart, tt);
      ruled =
          ap set_by_operator (last_history-other id (opened_row trace new_id now) db.history apart)
          ∙ r.ruled;
    }
create-IsRuled id db trace cand mapped_path new_id now (some taken) free r = r

lost_of-IsRuled :
    (id : String) (db : FindingDb) (trace : Trace) (cand : Candidate) (mapped_path new_id : String)
    (now : ℕ) (found : Option Finding)
    → by_path cand db.findings ≡ found
    → IsRuled id db
    → IsRuled id (lost_of db trace cand mapped_path new_id now found).0
unfolding lost_of
lost_of-IsRuled id db trace cand mapped_path new_id now none e r =
    create-IsRuled id db trace cand mapped_path new_id now (by_id new_id db.findings) refl r
lost_of-IsRuled id db trace cand mapped_path new_id now (some f) e r =
    elim (Bool-cases (str_eq f.id id)) [
      | inr apart ↦ other-IsRuled id db trace now f f.status apart r
      | inl same ↦ elim (by_path-IsSpared id cand db.findings f r.spared e) [
        | inl apart ↦ absurd (cc)
        | inr status ↦ same-IsRuled id db trace now f ((eq_iff f.id id).0 same) status r
      ]
    ]

lost-IsRuled :
    (id : String) (db : FindingDb) (trace : Trace) (cand : Candidate) (mapped_path new_id : String)
    (now : ℕ)
    → IsRuled id db
    → IsRuled id (handle_lost db trace cand mapped_path new_id now).0
unfolding handle_lost
lost-IsRuled id db trace cand mapped_path new_id now r =
    let known = lost_of-IsRuled id db trace cand mapped_path new_id now _ refl r in
    elim trace.trusted
      as (λ b.
        IsRuled id
          (if not b
            then (db, true)
            else lost_of db trace cand mapped_path new_id now (by_path cand db.findings)).0) [
              | true ↦ known
              | false ↦ r
            ]

-- No row of the finding is in another status.
ruled_out :
    (id other : String) (status : FindingStatus) (fs : List Finding)
    → other ≡ id
    → status_eq wontfix status ≡ false
    → All (IsSpared id) fs
    → affects (is_in_status other status) fs ≡ false
unfolding affects
ruled_out id other status [] same not_wontfix all = refl
ruled_out id other status (f ∷ fs) same not_wontfix all =
    let ih = ruled_out id other status fs same not_wontfix all.1 in
    elim all.0 [
      | inl apart ↦
          let e : str_eq f.id other ≡ false = ap (str_eq f.id) same ∙ apart in rw (e, ih) refl
      | inr status_is ↦ rw (status_is, not_wontfix, ih, and-false (str_eq f.id other)) refl
    ]

expire-IsRuled :
    (id other : String) (now : ℕ) (db : FindingDb)
    → IsRuled id db
    → IsRuled id (expire_finding db other now)
unfolding expire_finding
expire-IsRuled id other now db r =
    elim (Bool-cases (affects (is_in_status other opened) db.findings)) [
      | inr missed ↦ rw missed r
      | inl hit ↦ elim (Bool-cases (str_eq other id)) [
        | inr apart ↦ rw hit (
            update-IsRuled id (is_in_status other opened) (as_expired now) db _ (λ g. refl)
              (λ g passed spared. inl (other_row id other opened g apart passed))
              (last_history-other id _ db.history apart) r)
        | inl same ↦ absurd (
            cc (
              sym hit
              ∙ ruled_out id other opened db.findings ((eq_iff other id).0 same) refl r.spared))
      ]
    ]

expire_each-IsRuled :
    (id : String) (ids : List String) (now : ℕ) (db : FindingDb)
    → IsRuled id db
    → IsRuled id (expire_each ids db now)
unfolding expire_each
expire_each-IsRuled id [] now db r = r
expire_each-IsRuled id (other ∷ ids) now db r =
    expire_each-IsRuled id ids now (expire_finding db other now) (expire-IsRuled id other now db r)

conflict-IsRuled :
    (id : String) (tried : FindingDb × Bool)
    → IsRuled id tried.0
    → IsRuled id (conflict_unless tried).0
conflict-IsRuled id (db, true) r = r
conflict-IsRuled id (db, false) r = r

resolve_found-IsRuled :
    (id other : String) (found : Option Finding) (db : FindingDb) (traces : List Trace)
    (target : FindingStatus) (who note : String) (now : ℕ)
    → str_eq other id ≡ false
    → IsRuled id db
    → IsRuled id (resolve_found found db traces other target who note now).0
unfolding resolve_found
resolve_found-IsRuled id other none db traces target who note now apart r = r
resolve_found-IsRuled id other (some f) db traces target who note now apart r =
    elim (Bool-cases (status_eq f.status target)) [
      | inl same ↦ rw same r
      | inr change ↦ rw change (
          conflict-IsRuled id _ (
            update_status-IsRuled id other f.status target who note
              (greatest (trusted_versions f.model traces) "") now db apart r))
    ]

resolve-IsRuled :
    (id other : String) (seen db : FindingDb) (traces : List Trace) (target : FindingStatus)
    (who note : String) (now : ℕ)
    → str_eq other id ≡ false
    → IsRuled id db
    → IsRuled id (resolve_finding seen db traces other target who note now).0
unfolding resolve_finding
resolve-IsRuled id other seen db traces target who note now apart r =
    let found = by_id other seen.findings in
    elim (Bool-cases (not (status_eq target fixed) && not (status_eq target wontfix))) [
      | inl invalid ↦ rw invalid r
      | inr valid ↦
          rw valid (resolve_found-IsRuled id other found db traces target who note now apart r)
    ]

-- Some call of `ResolveFinding` names the finding.
unfoldable pub resolves : String → List Event → Bool
resolves id [] = false
resolves id (lost trace cand mapped_path new_id now ∷ events) = resolves id events
resolves id (resolve seen traces other target who note now ∷ events) =
    str_eq other id || resolves id events
resolves id (prune day90_ago now ∷ events) = resolves id events

-- A finding that the session, the master token or the review has set to wontfix stays so, under any run of
-- lost candidates, prunings and resolves of other findings: no trace opens it again, whatever its
-- version.
pub run-IsRuled :
    (id : String) (db : FindingDb) (events : List Event)
    → IsRuled id db
    → resolves id events ≡ false
    → IsRuled id (run db events)
unfolding run step resolves prune_findings
run-IsRuled id db [] r h = r
run-IsRuled id db (lost trace cand mapped_path new_id now ∷ events) r h =
    run-IsRuled id (step db (lost trace cand mapped_path new_id now)) events
      (lost-IsRuled id db trace cand mapped_path new_id now r) h
run-IsRuled id db (resolve seen traces other target who note now ∷ events) r h =
    let apart : str_eq other id ≡ false = ground (arith, h) in
    let rest : resolves id events ≡ false = ground (arith, h) in
    run-IsRuled id (step db (resolve seen traces other target who note now)) events
      (resolve-IsRuled id other seen db traces target who note now apart r) rest
run-IsRuled id db (prune day90_ago now ∷ events) r h =
    run-IsRuled id _ events (expire_each-IsRuled id (expiring day90_ago db.findings) now db r) h
