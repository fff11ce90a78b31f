-- ===== src/Findings/Kept.antt =====
-- Every event but a resolve of the finding keeps it as it was ruled.
use mathlib.Core.Path.{subst}
use intact.Prelude.{
  ℕ, String, str_eq, Bool, true, false, ◌≡◌, refl, ap, ◌∙◌, some, List, [], ◌∷◌, inl, inr,
  Bool-cases, All,
}
use intact.Contract.Diff.{Candidate}
use intact.Findings.{
  FindingStatus, opened, fixed, wontfix, expired, Finding, FindingDb, Trace, by_id, by_path, is_of,
  affects, update_counts, last_history, counted, counted_exempt,
}
use intact.Findings.Lost.{lost_again, reopen, is_after_fix, set_by_operator, counted_after}
use intact.Findings.Ruled.{IsSpared, IsRuled, counts-IsRuled, update_status-IsRuled}

pub by_path-IsSpared :
    (id : String) (cand : Candidate) (fs : List Finding) (f : Finding)
    → All (IsSpared id) fs
    → by_path cand fs ≡ some f
    → IsSpared id f
unfolding by_path
by_path-IsSpared id cand [] f all found = cc
by_path-IsSpared id cand (g ∷ fs) f all found = elim (Bool-cases (is_of cand g)) [
  | inl here ↦ let e : g ≡ f = cc (rw here at found) in subst (IsSpared id) e all.0
  | inr other ↦ by_path-IsSpared id cand fs f all.1 (rw other at found)
]

pub by_id-present :
    (id : String) (fs : List Finding)
    → affects (λ f. str_eq f.id id) fs ≡ true
    → (f : Finding) × (by_id id fs ≡ some f)
unfolding by_id affects
by_id-present id [] h = cc
by_id-present id (f ∷ fs) h = elim (Bool-cases (str_eq f.id id)) [
  | inl here ↦ (f, rw here refl)
  | inr other ↦ let (g, found) = by_id-present id fs (rw other at h) in (g, rw other found)
]

counted_after-IsRuled :
    (id other : String) (trace : Trace) (now : ℕ) (after : FindingDb → FindingDb)
    (tried : FindingDb × Bool)
    → ((db : FindingDb) → IsRuled id db → IsRuled id (after db))
    → IsRuled id tried.0
    → IsRuled id (counted_after trace now other after tried)
unfolding counted_exempt
counted_after-IsRuled id other trace now after (db, true) keeps r =
    counts-IsRuled id other (counted_exempt trace now) db (λ g. refl) (λ g. refl) r
counted_after-IsRuled id other trace now after (db, false) keeps r = keeps db r

-- Another finding that is lost again
pub other-IsRuled :
    (id : String) (db : FindingDb) (trace : Trace) (now : ℕ) (f : Finding) (status : FindingStatus)
    → str_eq f.id id ≡ false
    → IsRuled id db
    → IsRuled id (lost_again db trace now f status)
unfolding lost_again counted counted_exempt reopen
other-IsRuled id db trace now f status apart r =
    let count : (d : FindingDb)
        → IsRuled id d
        → IsRuled id (update_counts (counted trace now) f.id d) =
      λ d s. counts-IsRuled id f.id (counted trace now) d (λ g. refl) (λ g. refl) s in
    let again : (old : FindingStatus) → IsRuled id (reopen db trace f.id old now).0 =
      λ old. update_status-IsRuled id f.id old opened "system" _ "" now db apart r in
    elim status as (λ k. IsRuled id (lost_again db trace now f k)) [
      | opened ↦ counts-IsRuled id f.id (counted_exempt trace now) db (λ g. refl) (λ g. refl) r
      | expired ↦
          counted_after-IsRuled id f.id trace now (λ same. same) _ (λ d s. s) (again expired)
      | fixed ↦ elim (Bool-cases (is_after_fix trace f)) [
        | inl later ↦ rw later (counted_after-IsRuled id f.id trace now _ _ count (again fixed))
        | inr sooner ↦ rw sooner (count db r)
      ]
      | wontfix ↦ elim (Bool-cases (set_by_operator (last_history f.id db.history))) [
        | inl ruled ↦ rw ruled (count db r)
        | inr free ↦ elim (Bool-cases (is_after_fix trace f)) [
          | inl later ↦
              rw (free, later) (counted_after-IsRuled id f.id trace now _ _ count (again wontfix))
          | inr sooner ↦ rw (free, sooner) (count db r)
        ]
      ]
    ]

-- The finding itself, lost again, is only counted.
pub same-IsRuled :
    (id : String) (db : FindingDb) (trace : Trace) (now : ℕ) (f : Finding)
    → f.id ≡ id
    → f.status ≡ wontfix
    → IsRuled id db
    → IsRuled id (lost_again db trace now f f.status)
unfolding lost_again counted
same-IsRuled id db trace now f same status r =
    let ruled : set_by_operator (last_history f.id db.history) ≡ true =
      ap (λ x. set_by_operator (last_history x db.history)) same ∙ r.ruled in
    rw (status, ruled) (counts-IsRuled id f.id (counted trace now) db (λ g. refl) (λ g. refl) r)
