-- ===== src/Findings/Ruled.antt =====
-- A finding that the operator or the review ruled out stays so.
use intact.Prelude.{
  ℕ, String, str_eq, eq_iff, Bool, true, false, ◌≡◌, refl, ap, ◌∙◌, List, [], ◌∷◌, ◌⊎◌, inl, inr,
  Bool-cases, All,
}
use intact.Findings.{
  FindingStatus, wontfix, Finding, HistoryRow, FindingDb, update_where, affects, is_in_status,
  with_status, update_status, update_counts, last_history,
}
use intact.Findings.Lost.{set_by_operator}

-- The row is another finding's, or will not be fixed.
abbrev pub IsSpared : String → Finding → Type 0
IsSpared id f = (str_eq f.id id ≡ false) ⊎ (f.status ≡ wontfix)

-- The finding is there, will not be fixed, and its last change is the operator's or the review's.
pub record IsRuled (id : String) (db : FindingDb) : Type 0 where
  pub present : affects (λ f. str_eq f.id id) db.findings ≡ true
  pub spared : All (IsSpared id) db.findings
  pub ruled : set_by_operator (last_history id db.history) ≡ true

IsSpared-update_where :
    (id : String) (test : Finding → Bool) (change : Finding → Finding) (fs : List Finding)
    → ((g : Finding) → test g ≡ true → IsSpared id g → IsSpared id (change g))
    → All (IsSpared id) fs
    → All (IsSpared id) (update_where test change fs)
unfolding update_where
IsSpared-update_where id test change [] keeps all = tt
IsSpared-update_where id test change (f ∷ fs) keeps all =
    let ih = IsSpared-update_where id test change fs keeps all.1 in
    elim (Bool-cases (test f)) [
      | inl hit ↦ rw hit (keeps f hit all.0, ih)
      | inr missed ↦ rw missed (all.0, ih)
    ]

affects-update_where :
    (id : String) (test : Finding → Bool) (change : Finding → Finding) (fs : List Finding)
    → ((g : Finding) → (change g).id ≡ g.id)
    → affects (λ f. str_eq f.id id) (update_where test change fs) ≡ affects (λ f. str_eq f.id id) fs
unfolding update_where affects
affects-update_where id test change [] keeps = refl
affects-update_where id test change (f ∷ fs) keeps =
    let ih = affects-update_where id test change fs keeps in
    elim (Bool-cases (test f)) [
      | inl hit ↦ rw (hit, keeps f, ih) refl
      | inr missed ↦ rw (missed, ih) refl
    ]

-- An update of rows that keeps their ids, and those of the finding as they are ruled
pub update-IsRuled :
    (id : String) (test : Finding → Bool) (change : Finding → Finding) (db : FindingDb)
    (history : List HistoryRow)
    → ((g : Finding) → (change g).id ≡ g.id)
    → ((g : Finding) → test g ≡ true → IsSpared id g → IsSpared id (change g))
    → last_history id history ≡ last_history id db.history
    → IsRuled id db
    → IsRuled id (record { findings = update_where test change db.findings; history = history })
update-IsRuled id test change db history same keeps last r = record {
  present = affects-update_where id test change db.findings same ∙ r.present;
  spared = IsSpared-update_where id test change db.findings keeps r.spared;
  ruled = ap set_by_operator last ∙ r.ruled;
}

pub counts-IsRuled :
    (id other : String) (change : Finding → Finding) (db : FindingDb)
    → ((g : Finding) → (change g).id ≡ g.id)
    → ((g : Finding) → (change g).status ≡ g.status)
    → IsRuled id db
    → IsRuled id (update_counts change other db)
counts-IsRuled id other change db same_id same_status r =
    update-IsRuled id (λ f. str_eq f.id other) change db db.history same_id
      (λ g hit spared. rw (same_id g, same_status g) spared) refl r

pub last_history-other :
    (id : String) (h : HistoryRow) (hs : List HistoryRow)
    → str_eq h.finding_id id ≡ false
    → last_history id (h ∷ hs) ≡ last_history id hs
unfolding last_history
last_history-other id h hs other = rw other refl

-- A row that passes the test of another finding's id is spared whatever is done to it.
pub other_row :
    (id other : String) (status : FindingStatus) (g : Finding)
    → str_eq other id ≡ false
    → is_in_status other status g ≡ true
    → str_eq g.id id ≡ false
other_row id other status g apart hit = elim (Bool-cases (str_eq g.id other)) [
  | inl same ↦ ap (λ x. str_eq x id) ((eq_iff g.id other).0 same) ∙ apart
  | inr not_same ↦ absurd (cc (rw not_same at hit))
]

pub update_status-IsRuled :
    (id other : String) (old_status new_status : FindingStatus) (who note fixed_in : String)
    (now : ℕ) (db : FindingDb)
    → str_eq other id ≡ false
    → IsRuled id db
    → IsRuled id (update_status db other old_status new_status who note fixed_in now).0
unfolding update_status with_status
update_status-IsRuled id other old_status new_status who note fixed_in now db apart r =
    elim (Bool-cases (affects (is_in_status other old_status) db.findings)) [
      | inr missed ↦ rw missed r
      | inl hit ↦ rw hit (
          update-IsRuled id (is_in_status other old_status) (with_status new_status fixed_in now) db
            _ (λ g. refl) (λ g passed spared. inl (other_row id other old_status g apart passed))
            (last_history-other id _ db.history apart) r)
    ]
