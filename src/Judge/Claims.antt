-- ===== src/Judge/Claims.antt =====
-- A claim passes over a signature that is settled or leased, and leases what it takes.
use intact.Prelude.{
  ℕ, ◌+◌, ◌≤◌, str_eq, Bool, false, ◌&&◌, ◌||◌, ◌≡◌, refl, ap, ◌∙◌, Option, none, some, List, [],
  ◌∷◌, ◌⊎◌, inl, inr, arith, ltb, Bool-cases,
}
use intact.Contract.Diff.{Candidate}
use intact.Judge.{
  is_pending, Signature, JudgeState, Capture, is_sig, get_signature, lease_signature, lease_time,
  is_free, leased,
}
use intact.Judge.Process.{
  new_signature, is_lost, claim_new, claim_known, claim_found, claim_one, claim,
}
use intact.Judge.Rows.{
  get_signature_is, get_signature_same, get_signature-other, get_signature-insert_kept,
}

abbrev pub IsSkipped : ℕ → Signature → Type 0
IsSkipped now s = (is_pending s.verdict_state ≡ false) ⊎ (now ≤ s.lease_until)

-- The row itself
settled-skips :
    (clock : ℕ) (c : Capture) (st : JudgeState) (b : Candidate) (s : Signature)
    → is_pending s.verdict_state ≡ false
    → ((claim_known clock c st b s).0.signatures ≡ st.signatures)
      × ((claim_known clock c st b s).1 ≡ false)
unfolding claim_known
settled-skips clock c st b s settled = elim (Bool-cases (is_lost s)) [
  | inl lost ↦ rw (settled, lost) (refl, refl)
  | inr found ↦ rw (settled, found) (refl, refl)
]

known-skips :
    (clock : ℕ) (c : Capture) (st : JudgeState) (b : Candidate) (s : Signature)
    → IsSkipped c.now s
    → ((claim_known clock c st b s).0.signatures ≡ st.signatures)
      × ((claim_known clock c st b s).1 ≡ false)
unfolding claim_known
known-skips clock c st b s (inl settled) = settled-skips clock c st b s settled
known-skips clock c st b s (inr held) =
    let busy : ltb s.lease_until c.now ≡ false = ground arith in
    elim (Bool-cases (is_pending s.verdict_state)) [
      | inr settled ↦ settled-skips clock c st b s settled
      | inl waiting ↦ elim (Bool-cases c.has_model) [
        | inl model ↦ rw (waiting, model, busy) (refl, refl)
        | inr no_model ↦ rw (waiting, no_model) (refl, refl)
      ]
    ]

-- Another row
known-other :
    (clock : ℕ) (c : Capture) (st : JudgeState) (a b : Candidate) (s t : Signature)
    → get_signature a st.signatures ≡ some s
    → is_sig b s ≡ false
    → get_signature a (claim_known clock c st b t).0.signatures ≡ some s
unfolding claim_known lease_signature
known-other clock c st a b s t found apart = elim (Bool-cases (is_pending t.verdict_state)) [
  | inr settled ↦ elim (Bool-cases (is_lost t)) [
    | inl lost ↦ rw (settled, lost) found
    | inr kept ↦ rw (settled, kept) found
  ]
  | inl waiting ↦ elim (Bool-cases c.has_model) [
    | inr no_model ↦ rw (waiting, no_model) found
    | inl model ↦ elim (Bool-cases (ltb t.lease_until c.now)) [
      | inr busy ↦ rw (waiting, model, busy) found
      | inl free ↦
          rw (waiting, model, free)
            (get_signature-other a b (is_free clock) (leased (c.now + lease_time)) st.signatures s
              (λ u. refl) found (ap (λ x. x && is_free clock s) apart))
    ]
  ]
]

pub found-other :
    (clock : ℕ) (c : Capture) (st : JudgeState) (a b : Candidate) (s : Signature)
    (row : Option Signature)
    → get_signature a st.signatures ≡ some s
    → is_sig b s ≡ false
    → get_signature a (claim_found clock c st b row).0.signatures ≡ some s
unfolding claim_found claim_new
found-other clock c st a b s none found apart =
    get_signature-insert_kept a b st.signatures s (new_signature c b) found
found-other clock c st a b s (some t) found apart = elim (Bool-cases (str_eq t.model "")) [
  | inl unnamed ↦
      rw unnamed (get_signature-insert_kept a b st.signatures s (new_signature c b) found)
  | inr named ↦ rw named (known-other clock c st a b s t found apart)
]

claim_one-skips :
    (c : Capture) (st : JudgeState) (a b : Candidate) (s : Signature)
    → get_signature a st.signatures ≡ some s
    → str_eq s.model "" ≡ false
    → IsSkipped c.now s
    → (get_signature a (claim_one c st b).0.signatures ≡ some s)
      × ((is_sig b s ≡ false) ⊎ ((claim_one c st b).1 ≡ false))
unfolding claim_one claim_found
claim_one-skips c st a b s found named skipped = elim (Bool-cases (is_sig b s)) [
  | inr apart ↦
      (found-other c.now c st a b s (get_signature b st.signatures) found apart, inl apart)
  | inl same ↦
      let row : get_signature b st.signatures ≡ some s =
        get_signature_same b a s st.signatures same (get_signature_is a st.signatures s found)
        ∙ found in
      let (kept, passed) = known-skips c.now c st b s skipped in
      rw (row, named) (ap (get_signature a) kept ∙ found, inr passed)
]

-- Some candidate of the list is of the row.
unfoldable pub takes : Signature → List Candidate → Bool
takes s [] = false
takes s (b ∷ claimed) = is_sig b s || takes s claimed

pub claim-skips :
    (c : Capture) (st : JudgeState) (a : Candidate) (cands : List Candidate) (s : Signature)
    → get_signature a st.signatures ≡ some s
    → str_eq s.model "" ≡ false
    → IsSkipped c.now s
    → (get_signature a (claim c st cands).0.signatures ≡ some s)
      × (takes s (claim c st cands).1 ≡ false)
unfolding claim takes
claim-skips c st a [] s found named skipped = (found, refl)
claim-skips c st a (b ∷ cands) s found named skipped =
    let (kept, passed) = claim_one-skips c st a b s found named skipped in
    let (after, none_taken) = claim-skips c (claim_one c st b).0 a cands s kept named skipped in
    elim (Bool-cases (claim_one c st b).1) [
      | inr missed ↦ rw missed (after, none_taken)
      | inl took ↦ elim passed [
        | inl apart ↦ rw took (after, rw (apart, none_taken) refl)
        | inr missed ↦ absurd (cc)
      ]
    ]
