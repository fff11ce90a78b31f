-- ===== src/Judge/Rows.antt =====
-- The row of a signature through the updates of the table.
use intact.Prelude.{
  eq_iff, Bool, true, false, ◌&&◌, ◌≡◌, refl, sym, ap, ◌∙◌, none, some, List, [], ◌∷◌, ◌++◌, inl,
  inr, arith, Bool-cases, Option-cases,
}
use intact.Contract.Diff.{Candidate}
use intact.Judge.{Signature, is_sig, get_signature, update_signature, insert_signature}

pub get_signature_is :
    (cand : Candidate) (ss : List Signature) (s : Signature)
    → get_signature cand ss ≡ some s
    → is_sig cand s ≡ true
unfolding get_signature
get_signature_is cand [] s found = cc
get_signature_is cand (t ∷ ss) s found = elim (Bool-cases (is_sig cand t)) [
  | inl here ↦ let e : t ≡ s = cc (rw here at found) in ap (is_sig cand) (sym e) ∙ here
  | inr other ↦ get_signature_is cand ss s (rw other at found)
]

-- Two candidates of one row have the same signature.
same_sig :
    (a b : Candidate) (s t : Signature)
    → is_sig a s ≡ true
    → is_sig b s ≡ true
    → is_sig a t ≡ is_sig b t
same_sig a b s t of_a of_b =
    let model : a.model ≡ b.model =
      sym ((eq_iff s.model a.model).0 (ground (arith, of_a)))
      ∙ (eq_iff s.model b.model).0 (ground (arith, of_b)) in
    let format : a.client_format ≡ b.client_format =
      sym ((eq_iff s.client_format a.client_format).0 (ground (arith, of_a)))
      ∙ (eq_iff s.client_format b.client_format).0 (ground (arith, of_b)) in
    let direction : a.direction ≡ b.direction =
      sym ((eq_iff s.direction a.direction).0 (ground (arith, of_a)))
      ∙ (eq_iff s.direction b.direction).0 (ground (arith, of_b)) in
    let path : a.path ≡ b.path =
      sym ((eq_iff s.path a.path).0 (ground (arith, of_a)))
      ∙ (eq_iff s.path b.path).0 (ground (arith, of_b)) in
    let type : a.type ≡ b.type =
      sym ((eq_iff s.type a.type).0 (ground (arith, of_a)))
      ∙ (eq_iff s.type b.type).0 (ground (arith, of_b)) in
    rw (model, format, direction, path, type) refl

pub get_signature_same :
    (a b : Candidate) (s : Signature) (ss : List Signature)
    → is_sig a s ≡ true
    → is_sig b s ≡ true
    → get_signature a ss ≡ get_signature b ss
unfolding get_signature
get_signature_same a b s [] of_a of_b = refl
get_signature_same a b s (t ∷ ss) of_a of_b =
    rw (same_sig a b s t of_a of_b, get_signature_same a b s ss of_a of_b) refl

-- An update of other rows
pub get_signature-other :
    (a b : Candidate) (test : Signature → Bool) (change : Signature → Signature)
    (ss : List Signature) (s : Signature)
    → ((t : Signature) → is_sig a (change t) ≡ is_sig a t)
    → get_signature a ss ≡ some s
    → (is_sig b s && test s) ≡ false
    → get_signature a (update_signature b test change ss) ≡ some s
unfolding get_signature update_signature
get_signature-other a b test change [] s keeps found apart = cc
get_signature-other a b test change (t ∷ ss) s keeps found apart = elim (Bool-cases (is_sig a t)) [
  | inl here ↦
      let e : t ≡ s = cc (rw here at found) in
      let missed : (is_sig b t && test t) ≡ false = ap (λ x. is_sig b x && test x) e ∙ apart in
      rw (missed, here) (ap some e)
  | inr other ↦
      let ih = get_signature-other a b test change ss s keeps (rw other at found) apart in
      elim (Bool-cases (is_sig b t && test t)) [
        | inl changed ↦ rw (changed, keeps t ∙ other) ih
        | inr kept ↦ rw (kept, other) ih
      ]
]

-- An update of the row
pub get_signature-updated :
    (a b : Candidate) (test : Signature → Bool) (change : Signature → Signature)
    (ss : List Signature) (s : Signature)
    → ((t : Signature) → is_sig a (change t) ≡ is_sig a t)
    → get_signature a ss ≡ some s
    → (is_sig b s && test s) ≡ true
    → get_signature a (update_signature b test change ss) ≡ some (change s)
unfolding get_signature update_signature
get_signature-updated a b test change [] s keeps found hit = cc
get_signature-updated a b test change (t ∷ ss) s keeps found hit = elim (Bool-cases (is_sig a t)) [
  | inl here ↦
      let e : t ≡ s = cc (rw here at found) in
      let hits : (is_sig b t && test t) ≡ true = ap (λ x. is_sig b x && test x) e ∙ hit in
      rw (hits, keeps t ∙ here) (ap (λ x. some (change x)) e)
  | inr other ↦
      let ih = get_signature-updated a b test change ss s keeps (rw other at found) hit in
      elim (Bool-cases (is_sig b t && test t)) [
        | inl changed ↦ rw (changed, keeps t ∙ other) ih
        | inr kept ↦ rw (kept, other) ih
      ]
]

get_signature-append :
    (a : Candidate) (ss : List Signature) (s new : Signature)
    → get_signature a ss ≡ some s
    → get_signature a (ss ++ new ∷ []) ≡ some s
unfolding get_signature
get_signature-append a [] s new found = cc
get_signature-append a (t ∷ ss) s new found = elim (Bool-cases (is_sig a t)) [
  | inl here ↦ rw here (rw here at found)
  | inr other ↦ rw other (get_signature-append a ss s new (rw other at found))
]

get_signature-last :
    (a : Candidate) (ss : List Signature) (new : Signature)
    → get_signature a ss ≡ none
    → is_sig a new ≡ true
    → get_signature a (ss ++ new ∷ []) ≡ some new
unfolding get_signature
get_signature-last a [] new free is_new = rw is_new refl
get_signature-last a (t ∷ ss) new free is_new = elim (Bool-cases (is_sig a t)) [
  | inl here ↦ cc (rw here at free)
  | inr other ↦ rw other (get_signature-last a ss new (rw other at free) is_new)
]

pub get_signature-insert_kept :
    (a b : Candidate) (ss : List Signature) (s new : Signature)
    → get_signature a ss ≡ some s
    → get_signature a (insert_signature b new ss) ≡ some s
unfolding insert_signature
get_signature-insert_kept a b ss s new found = elim (Option-cases (get_signature b ss)) [
  | inl free ↦ rw free (get_signature-append a ss s new found)
  | inr (t, there) ↦ rw there found
]

pub get_signature-insert_new :
    (a : Candidate) (ss : List Signature) (new : Signature)
    → get_signature a ss ≡ none
    → is_sig a new ≡ true
    → get_signature a (insert_signature a new ss) ≡ some new
unfolding insert_signature
get_signature-insert_new a ss new free is_new = rw free (get_signature-last a ss new free is_new)
