-- ===== src/Findings/Reopen.antt =====
-- Which lost candidate opens a finding again.
use intact.Prelude.{
  ℕ, ◌+◌, String, true, not, ◌&&◌, ◌≡◌, refl, sym, ap, ◌∙◌, Option, some, inl, inr, if◌then◌else◌,
  Bool-cases,
}
use mathlib.Core.Path.{subst}
use intact.Contract.Diff.{Candidate}
use intact.Findings.{
  FindingStatus, opened, fixed, wontfix, expired, Finding, FindingDb, Trace, by_path, last_history,
  counted, counted_exempt, with_status, update_counts,
}
use intact.Findings.Lost.{
  handle_lost, lost_of, lost_again, reopen, is_after_fix, set_by_operator, counted_after,
}
use intact.Findings.Rows.{update_counts-row, reopen-row}

-- The rule: a fixed finding opens for a version after its fix; one that will not be fixed does too,
-- unless the operator or the review ruled so; an expired one always opens.
unfoldable pub status_after : FindingDb → Trace → Finding → FindingStatus → FindingStatus
status_after db trace f opened = opened
status_after db trace f fixed = if is_after_fix trace f then opened else fixed
status_after db trace f wontfix =
    if not (set_by_operator (last_history f.id db.history)) && is_after_fix trace f
    then opened
    else wontfix
status_after db trace f expired = opened

-- A row that was seen once more, with this status.
abbrev IsSeen : Trace → Finding → FindingStatus → Option Finding → Type 0
IsSeen trace f status found =
    (seen : Finding) × ((found ≡ some seen)
      × (seen.status ≡ status)
      × (seen.count ≡ f.count + 1)
      × (seen.last_trace ≡ trace.id)
      × (seen.fixed_in ≡ f.fixed_in))

counted-IsSeen :
    (cand : Candidate) (db : FindingDb) (trace : Trace) (now : ℕ) (f : Finding)
    → by_path cand db.findings ≡ some f
    → IsSeen trace f f.status (by_path cand (update_counts (counted trace now) f.id db).findings)
unfolding counted
counted-IsSeen cand db trace now f found = (
  counted trace now f,
  (update_counts-row cand db (counted trace now) f (λ g. refl) found, refl, refl, refl, refl),
)

reopened-IsSeen :
    (cand : Candidate) (db : FindingDb) (trace : Trace) (now : ℕ) (f : Finding)
    (status : FindingStatus) (after : FindingDb → FindingDb)
    → f.status ≡ status
    → by_path cand db.findings ≡ some f
    → IsSeen trace f opened (
        by_path cand
          (counted_after trace now f.id after (reopen db trace f.id status now)).findings)
unfolding counted_exempt with_status
reopened-IsSeen cand db trace now f status after e found =
    let (ok, row) = reopen-row cand db trace f now status e found in
    let again = with_status opened "" now f in
    (
      counted_exempt trace now again,
      (
        rw ok (
            update_counts-row cand (reopen db trace f.id status now).0 (counted_exempt trace now)
              again (λ g. refl) row),
        refl,
        refl,
        refl,
        refl,
      ),
    )

lost_again-IsSeen :
    (cand : Candidate) (db : FindingDb) (trace : Trace) (now : ℕ) (f : Finding)
    (status : FindingStatus)
    → f.status ≡ status
    → by_path cand db.findings ≡ some f
    → IsSeen trace f
        (status_after db trace f status)
        (by_path cand (lost_again db trace now f status).findings)
unfolding lost_again status_after counted_exempt
lost_again-IsSeen cand db trace now f opened e found = (
  counted_exempt trace now f,
  (update_counts-row cand db (counted_exempt trace now) f (λ g. refl) found, e, refl, refl, refl),
)
lost_again-IsSeen cand db trace now f expired e found =
    reopened-IsSeen cand db trace now f expired (λ same. same) e found
lost_again-IsSeen cand db trace now f fixed e found = elim (Bool-cases (is_after_fix trace f)) [
  | inl later ↦
      rw later
        (reopened-IsSeen cand db trace now f fixed (update_counts (counted trace now) f.id) e found)
  | inr sooner ↦ rw sooner (rw e at (counted-IsSeen cand db trace now f found))
]
lost_again-IsSeen cand db trace now f wontfix e found =
    elim (Bool-cases (set_by_operator (last_history f.id db.history))) [
      | inl ruled ↦ rw ruled (rw e at (counted-IsSeen cand db trace now f found))
      | inr free ↦ elim (Bool-cases (is_after_fix trace f)) [
        | inl later ↦
            rw (free, later)
              (reopened-IsSeen cand db trace now f wontfix (update_counts (counted trace now) f.id)
                e found)
        | inr sooner ↦ rw (free, sooner) (rw e at (counted-IsSeen cand db trace now f found))
      ]
    ]

-- The step on the tables, for a trusted trace and a path that has a finding
pub handle_lost-again :
    (db : FindingDb) (trace : Trace) (cand : Candidate) (mapped_path new_id : String) (now : ℕ)
    (f : Finding)
    → trace.trusted ≡ true
    → by_path cand db.findings ≡ some f
    → handle_lost db trace cand mapped_path new_id now ≡ (lost_again db trace now f f.status, true)
unfolding handle_lost lost_of
handle_lost-again db trace cand mapped_path new_id now f trusted found =
    ap
      (λ b.
        if not b
        then (db, true)
        else lost_of db trace cand mapped_path new_id now (by_path cand db.findings))
      trusted
    ∙ ap (lost_of db trace cand mapped_path new_id now) found

-- A trusted trace that has lost a known path again counts once on its finding, and opens it exactly by
-- the rule of `status_after`: a fixed one only for a version after the fix, and one that the operator or
-- the review ruled out never.
pub handle_lost-status :
    (db : FindingDb) (trace : Trace) (cand : Candidate) (mapped_path new_id : String) (now : ℕ)
    (f : Finding)
    → trace.trusted ≡ true
    → by_path cand db.findings ≡ some f
    → (seen : Finding) × ((by_path cand
            (handle_lost db trace cand mapped_path new_id now).0.findings
          ≡ some seen)
        × (seen.status ≡ status_after db trace f f.status)
        × (seen.count ≡ f.count + 1)
        × (seen.last_trace ≡ trace.id)
        × (seen.fixed_in ≡ f.fixed_in))
handle_lost-status db trace cand mapped_path new_id now f trusted found =
    subst (λ x. IsSeen trace f (status_after db trace f f.status) (by_path cand x.0.findings))
      (sym (handle_lost-again db trace cand mapped_path new_id now f trusted found))
      (lost_again-IsSeen cand db trace now f f.status refl found)
