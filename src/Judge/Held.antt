-- ===== src/Judge/Held.antt =====
-- The rounds of `ProcessCandidates` of internal/contract/judge.go on a signature that is leased.
use intact.Prelude.{
  ℕ, ◌+◌, ◌≤◌, ◌<◌, ◌==◌, str_eq, eq_iff, Bool, true, false, ◌≡◌, refl, sym, ap, ◌∙◌, Option, none,
  some, List, [], ◌∷◌, ◌++◌, ◌⊎◌, inl, inr, arith, ltb, if◌then◌else◌, Bool-cases, All,
}
use intact.Contract.Diff.{Candidate}
use intact.Judge.{
  is_pending, Signature, JudgeState, Capture, is_sig, get_signature, lease_signature, lease_time,
  is_free, leased,
}
use intact.Judge.Process.{is_lost, claim_known, claim_found}
use intact.Judge.Rows.{
  get_signature_is, get_signature_same, get_signature-other, get_signature-updated,
}
use intact.Judge.Claims.{found-other}
use intact.Judge.Interleaved.{
  Reading, Claims, ClaimStep, look, act, set_reading, act_on, claim_step, taken_by, is_same, names,
}

-- The row of a named candidate is named.
pub named_row :
    (a : Candidate) (s : Signature)
    → is_sig a s ≡ true
    → str_eq a.model "" ≡ false
    → str_eq s.model "" ≡ false
named_row a s of_a named =
    ap (λ x. str_eq x "") ((eq_iff s.model a.model).0 (ground (arith, of_a))) ∙ named

row_same : (a b : Candidate) (s : Signature) → is_sig a s ≡ true → is_sig b s ≡ is_same a b
row_same a b s of_a =
    let model = (eq_iff s.model a.model).0 (ground (arith, of_a)) in
    let format = (eq_iff s.client_format a.client_format).0 (ground (arith, of_a)) in
    let direction = (eq_iff s.direction a.direction).0 (ground (arith, of_a)) in
    let path = (eq_iff s.path a.path).0 (ground (arith, of_a)) in
    let type = (eq_iff s.type a.type).0 (ground (arith, of_a)) in
    rw (model, format, direction, path, type) refl

names-append :
    (a : Candidate) (front back : List Candidate)
    → names a front ≡ false
    → names a back ≡ false
    → names a (front ++ back) ≡ false
unfolding names
names-append a [] back f b = b
names-append a (x ∷ front) back f b =
    let here : is_same a x ≡ false = ground (arith, f) in
    let rest : names a front ≡ false = ground (arith, f) in
    rw (here, names-append a front back rest b) refl

-- A call that has read a row, `old`, of the signature whose row is now `s`: it leaves that, or it leases
-- it, which is free then.
pub known-cases :
    (clock : ℕ) (c : Capture) (st : JudgeState) (a b : Candidate) (s old : Signature)
    → get_signature a st.signatures ≡ some s
    → is_sig b s ≡ true
    → ((get_signature a (claim_known clock c st b old).0.signatures ≡ some s)
        × ((claim_known clock c st b old).1 ≡ false))
      ⊎ ((get_signature a (claim_known clock c st b old).0.signatures
            ≡ some (leased (c.now + lease_time) s))
          × (is_free clock s ≡ true))
unfolding claim_known lease_signature
known-cases clock c st a b s old found of_b = elim (Bool-cases (is_pending old.verdict_state)) [
  | inr settled ↦ elim (Bool-cases (is_lost old)) [
    | inl lost ↦ rw (settled, lost) (inl (found, refl))
    | inr kept ↦ rw (settled, kept) (inl (found, refl))
  ]
  | inl waiting ↦ elim (Bool-cases c.has_model) [
    | inr no_model ↦ rw (waiting, no_model) (inl (found, refl))
    | inl model ↦ elim (Bool-cases (ltb old.lease_until c.now)) [
      | inr busy ↦ rw (waiting, model, busy) (inl (found, refl))
      | inl over ↦
          let row : get_signature b st.signatures ≡ some s =
            get_signature_same b a s st.signatures of_b (get_signature_is a st.signatures s found)
            ∙ found in
          elim (Bool-cases (is_free clock s)) [
            | inl free ↦
                rw (waiting, model, over)
                  (inr (
                    get_signature-updated a b (is_free clock) (leased (c.now + lease_time))
                        st.signatures s (λ u. refl) found (rw (of_b, free) refl),
                    free,
                  ))
            | inr held ↦
                rw (waiting, model, over, row)
                  (inl (
                    get_signature-other a b (is_free clock) (leased (c.now + lease_time))
                        st.signatures s (λ u. refl) found (rw (of_b, held) refl),
                    held,
                  ))
          ]
    ]
  ]
]

-- A reading of the row of the candidate's signature
abbrev pub HasRow : Candidate → Option Signature → Type 0
HasRow cand none = ⊥
HasRow cand (some s) = is_sig cand s ≡ true

-- A reading that is of another signature, or has the row
abbrev pub Sees : Candidate → Option Reading → Type 0
Sees a none = Unit
Sees a (some rd) = (is_same a rd.candidate ≡ false) ⊎ HasRow rd.candidate rd.row

abbrev pub IsBefore : ℕ → ClaimStep → Type 0
IsBefore until (look n c cand) = Unit
IsBefore until (act n clock) = clock < until

module _ (a : Candidate) (until : ℕ) (named : str_eq a.model "" ≡ false) where
  -- The signature is leased until then, and every call on it has seen its row.
  pub record Held (s : Claims) : Type 0 where
    pub row : Signature
    pub found : get_signature a s.state.signatures ≡ some row
    pub held : until ≤ row.lease_until
    pub seen : (m : ℕ) → Sees a (s.reading m)

  set_reading-Sees :
      (n : ℕ) (reading : Option Reading) (others : ℕ → Option Reading)
      → Sees a reading
      → ((m : ℕ) → Sees a (others m))
      → (m : ℕ) → Sees a (set_reading n reading others m)
  set_reading-Sees n reading others new old m = elim (Bool-cases (m == n)) [
    | inl own ↦ rw own new
    | inr other ↦ rw other (old m)
  ]

  -- What a call on the signature writes while it is leased
  claim_found-held :
      (clock : ℕ) (c : Capture) (st : JudgeState) (b : Candidate) (s : Signature)
      (read : Option Signature)
      → get_signature a st.signatures ≡ some s
      → until ≤ s.lease_until
      → clock < until
      → (is_same a b ≡ false) ⊎ HasRow b read
      → (get_signature a (claim_found clock c st b read).0.signatures ≡ some s)
        × ((is_same a b ≡ false) ⊎ ((claim_found clock c st b read).1 ≡ false))
  unfolding claim_found
  claim_found-held clock c st b s read found held early (inl apart) =
      let of_a = get_signature_is a st.signatures s found in
      (found-other clock c st a b s read found (row_same a b s of_a ∙ apart), inl apart)
  claim_found-held clock c st b s none found held early (inr has_row) = absurd has_row
  claim_found-held clock c st b s (some old) found held early (inr has_row) =
      let of_a = get_signature_is a st.signatures s found in
      elim (Bool-cases (is_same a b)) [
        | inr apart ↦
            (found-other clock c st a b s (some old) found (row_same a b s of_a ∙ apart), inl apart)
        | inl same ↦
            let b_named : str_eq b.model "" ≡ false =
              ap (λ x. str_eq x "") (sym ((eq_iff a.model b.model).0 (ground (arith, same))))
              ∙ named in
            let old_named = named_row b old has_row b_named in
            elim (known-cases clock c st a b s old found (row_same a b s of_a ∙ same)) [
              | inl (kept, passed) ↦ rw old_named (kept, inr passed)
              | inr (leases, free) ↦ absurd (ground (arith, free))
            ]
      ]

  took_first-names :
      (b : Candidate) (took : Bool)
      → (is_same a b ≡ false) ⊎ (took ≡ false)
      → names a (if took then b ∷ [] else []) ≡ false
  unfolding names
  took_first-names b took h = ground arith

  act_on-Held :
      (n clock : ℕ) (s : Claims) (h : Held s) (reading : Option Reading)
      → clock < until
      → Sees a reading
      → Held (act_on n clock s reading).0 × (names a (act_on n clock s reading).1 ≡ false)
  unfolding act_on names
  act_on-Held n clock s h none early sees = (h, refl)
  act_on-Held n clock s h (some rd) early sees =
      let (kept, untaken) =
        claim_found-held clock rd.capture s.state rd.candidate h.row rd.row h.found h.held early
          sees in
      (
        record {
          row = h.row;
          found = kept;
          held = h.held;
          seen = set_reading-Sees n none s.reading tt h.seen;
        },
        took_first-names rd.candidate (claim_found clock rd.capture s.state rd.candidate rd.row).1
            untaken,
      )

  look-Sees :
      (c : Capture) (cand : Candidate) (st : JudgeState) (s : Signature)
      → get_signature a st.signatures ≡ some s
      → (is_same a cand ≡ false) ⊎ HasRow cand (get_signature cand st.signatures)
  look-Sees c cand st s found = elim (Bool-cases (is_same a cand)) [
    | inr apart ↦ inl apart
    | inl same ↦
        let of_a = get_signature_is a st.signatures s found in
        let of_cand = row_same a cand s of_a ∙ same in
        let row : get_signature cand st.signatures ≡ some s =
          get_signature_same cand a s st.signatures of_cand of_a ∙ found in
        inr (rw row of_cand)
  ]

  claim_step-Held :
      (s : Claims) (h : Held s) (step : ClaimStep)
      → IsBefore until step
      → Held (claim_step s step).0 × (names a (claim_step s step).1 ≡ false)
  unfolding claim_step names
  claim_step-Held s h (act n clock) early = act_on-Held n clock s h (s.reading n) early (h.seen n)
  claim_step-Held s h (look n c cand) early = (
    record {
      row = h.row;
      found = h.found;
      held = h.held;
      seen =
          set_reading-Sees n
            (some (record {
              capture = c;
              candidate = cand;
              row = get_signature cand s.state.signatures;
            }))
            s.reading (look-Sees c cand s.state h.row h.found) h.seen;
    },
    refl,
  )

  pub taken_by-Held :
      (steps : List ClaimStep) (s : Claims)
      → Held s
      → All (IsBefore until) steps
      → names a (taken_by s steps) ≡ false
  unfolding taken_by names
  taken_by-Held [] s h early = refl
  taken_by-Held (step ∷ steps) s h early =
      let (after, untaken) = claim_step-Held s h step early.0 in
      names-append a (claim_step s step).1 (taken_by (claim_step s step).0 steps) untaken
        (taken_by-Held steps (claim_step s step).0 after early.1)
