-- ===== src/Judge/Leases.antt =====
-- Who may judge a signature, over the interleaved claims of internal/contract/judge.go.
use intact.Prelude.{
  ℕ, ◌+◌, str_eq, eq_refl, true, false, ◌≡◌, refl, Option, none, some, List, inl, inr, arith, ltb,
  Bool-cases, Option-cases, All,
}
use intact.Contract.Diff.{Candidate}
use intact.Judge.{
  is_pending, Signature, JudgeState, Capture, is_sig, get_signature, lease_signature, lease_time,
  leased,
}
use intact.Judge.Process.{new_signature, claim_new, claim_known, claim_found}
use intact.Judge.Rows.{get_signature_is, get_signature-insert_new}
use intact.Judge.Interleaved.{
  Reading, Claims, ClaimStep, act, set_reading, act_on, claim_step, taken_by, names,
}
use intact.Judge.Held.{Sees, IsBefore, named_row, known-cases, taken_by-Held}

own_row : (c : Capture) (a : Candidate) → is_sig a (new_signature c a) ≡ true
own_row c a =
    rw
      (
        eq_refl a.model,
        eq_refl a.client_format,
        eq_refl a.direction,
        eq_refl a.path,
        eq_refl a.type,
      )
      refl

-- A lease was there to be taken.
known_took :
    (clock : ℕ) (c : Capture) (st : JudgeState) (a : Candidate) (old : Signature)
    → (claim_known clock c st a old).1 ≡ true
    → (s : Signature) × (get_signature a st.signatures ≡ some s)
unfolding claim_known lease_signature
known_took clock c st a old took = elim (Option-cases (get_signature a st.signatures)) [
  | inr there ↦ there
  | inl missing ↦ elim (Bool-cases (is_pending old.verdict_state)) [
    | inr settled ↦ absurd (cc (rw settled at took))
    | inl waiting ↦ elim (Bool-cases c.has_model) [
      | inr no_model ↦ absurd (cc (rw (waiting, no_model) at took))
      | inl model ↦ elim (Bool-cases (ltb old.lease_until c.now)) [
        | inr busy ↦ absurd (cc (rw (waiting, model, busy) at took))
        | inl over ↦ absurd (cc (rw (waiting, model, over, missing) at took))
      ]
    ]
  ]
]

-- A reading that has the signature's row, or none where there still is none
abbrev pub IsUpToDate : Candidate → List Signature → Option Signature → Type 0
IsUpToDate cand ss none = get_signature cand ss ≡ none
IsUpToDate cand ss (some s) = is_sig cand s ≡ true

took-leases :
    (clock : ℕ) (c : Capture) (st : JudgeState) (a : Candidate) (read : Option Signature)
    → str_eq a.model "" ≡ false
    → (claim_found clock c st a read).1 ≡ true
    → IsUpToDate a st.signatures read
    → (s : Signature) × ((get_signature a (claim_found clock c st a read).0.signatures ≡ some s)
        × (s.lease_until ≡ c.now + lease_time))
unfolding claim_found claim_new
took-leases clock c st a none named took free =
    let until : (new_signature c a).lease_until ≡ c.now + lease_time = rw took refl in
    (
      new_signature c a,
      (get_signature-insert_new a st.signatures (new_signature c a) free (own_row c a), until),
    )
took-leases clock c st a (some old) named took of_old =
    let old_named = named_row a old of_old named in
    let took_known : (claim_known clock c st a old).1 ≡ true = rw old_named at took in
    let (s, found) = known_took clock c st a old took_known in
    elim (known-cases clock c st a a s old found (get_signature_is a st.signatures s found)) [
      | inl (kept, passed) ↦ absurd (cc)
      | inr (leases, free) ↦ rw old_named (leased (c.now + lease_time) s, (leases, refl))
    ]

-- A candidate of a named model that a call takes for the judge is that call's own until five minutes after
-- the call's start. Say that the call's reading is up to date when it writes, and that every other reading
-- of the signature that is not acted on yet has its row: then whatever reads and writes of claims follow by
-- then, of any calls and in any order, with no answer of the model among them, none of them takes a
-- candidate of that signature.
pub claim_step-alone :
    (s : Claims) (n clock : ℕ) (rd : Reading) (steps : List ClaimStep)
    → str_eq rd.candidate.model "" ≡ false
    → s.reading n ≡ some rd
    → (claim_found clock rd.capture s.state rd.candidate rd.row).1 ≡ true
    → IsUpToDate rd.candidate s.state.signatures rd.row
    → ((m : ℕ) → Sees rd.candidate (set_reading n none s.reading m))
    → All (IsBefore (rd.capture.now + lease_time)) steps
    → names rd.candidate (taken_by (claim_step s (act n clock)).0 steps) ≡ false
unfolding claim_step act_on
claim_step-alone s n clock rd steps named reads took fresh seen early =
    let (row, (found, until)) =
      took-leases clock rd.capture s.state rd.candidate rd.row named took fresh in
    rw reads (
      taken_by-Held rd.candidate (rd.capture.now + lease_time) named steps
        (record {
          state = (claim_found clock rd.capture s.state rd.candidate rd.row).0;
          reading = set_reading n none s.reading;
        })
        (record { row = row; found = found; held = omega (arith, until); seen = seen }) early)
