-- ===== src/Findings/Rows.antt =====
-- The row of a path through the updates of the table.
use intact.Prelude.{
  ℕ, str_eq, eq_refl, Bool, true, ◌≡◌, refl, ap, ◌∙◌, some, List, [], ◌∷◌, inl, inr, arith,
  Bool-cases,
}
use intact.Contract.Diff.{Candidate}
use intact.Findings.{
  FindingStatus, opened, fixed, wontfix, expired, status_eq, Finding, FindingDb, Trace, is_of,
  by_path, update_where, affects, is_in_status, with_status, update_status, update_counts,
}
use intact.Findings.Lost.{reopen}

pub status_eq_refl : (status : FindingStatus) → status_eq status status ≡ true
unfolding status_eq
status_eq_refl opened = refl
status_eq_refl fixed = refl
status_eq_refl wontfix = refl
status_eq_refl expired = refl

pub by_path-update_where :
    (cand : Candidate) (test : Finding → Bool) (change : Finding → Finding) (fs : List Finding)
    (f : Finding)
    → ((g : Finding) → is_of cand (change g) ≡ is_of cand g)
    → by_path cand fs ≡ some f
    → test f ≡ true
    → by_path cand (update_where test change fs) ≡ some (change f)
unfolding by_path update_where
by_path-update_where cand test change [] f keeps found hit = cc
by_path-update_where cand test change (g ∷ fs) f keeps found hit =
    elim (Bool-cases (is_of cand g)) [
      | inl here ↦
          let e : g ≡ f = cc (rw here at found) in
          let same : test g ≡ true = ap test e ∙ hit in
          rw (same, keeps g, here) (ap (λ x. some (change x)) e)
      | inr other ↦
          let ih = by_path-update_where cand test change fs f keeps (rw other at found) hit in
          elim (Bool-cases (test g)) [
            | inl changed ↦ rw (changed, keeps g, other) ih
            | inr kept ↦ rw (kept, other) ih
          ]
    ]

pub affects-by_path :
    (cand : Candidate) (test : Finding → Bool) (fs : List Finding) (f : Finding)
    → by_path cand fs ≡ some f
    → test f ≡ true
    → affects test fs ≡ true
unfolding by_path affects
affects-by_path cand test [] f found hit = cc
affects-by_path cand test (g ∷ fs) f found hit = elim (Bool-cases (is_of cand g)) [
  | inl here ↦
      let e : g ≡ f = cc (rw here at found) in
      let same : test g ≡ true = ap test e ∙ hit in rw same refl
  | inr other ↦ let ih = affects-by_path cand test fs f (rw other at found) hit in ground arith
]

pub update_counts-row :
    (cand : Candidate) (db : FindingDb) (change : Finding → Finding) (f : Finding)
    → ((g : Finding) → is_of cand (change g) ≡ is_of cand g)
    → by_path cand db.findings ≡ some f
    → by_path cand (update_counts change f.id db).findings ≡ some (change f)
update_counts-row cand db change f keeps found =
    by_path-update_where cand (λ g. str_eq g.id f.id) change db.findings f keeps found
      (eq_refl f.id)

in_status_now :
    (f : Finding) (status : FindingStatus) → f.status ≡ status → is_in_status f.id status f ≡ true
in_status_now f status e = rw (eq_refl f.id, e, status_eq_refl status) refl

pub reopen-row :
    (cand : Candidate) (db : FindingDb) (trace : Trace) (f : Finding) (now : ℕ)
    (status : FindingStatus)
    → f.status ≡ status
    → by_path cand db.findings ≡ some f
    → ((reopen db trace f.id status now).1 ≡ true)
      × (by_path cand (reopen db trace f.id status now).0.findings
          ≡ some (with_status opened "" now f))
unfolding reopen update_status with_status
reopen-row cand db trace f now status e found =
    let test = is_in_status f.id status in
    let now_in = in_status_now f status e in
    let hit = affects-by_path cand test db.findings f found now_in in
    (
      rw hit refl,
      rw hit (
          by_path-update_where cand test (with_status opened "" now) db.findings f (λ g. refl) found
            now_in),
    )
