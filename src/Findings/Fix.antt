-- ===== src/Findings/Fix.antt =====
-- A fix is recorded for every version that was seen.
use intact.Prelude.{
  ℕ, zero, suc, String, str_eq, Bool, true, false, not, ◌&&◌, ◌||◌, ◌≡◌, refl, sym, ap, ◌∙◌, some,
  List, [], ◌∷◌, inl, inr, arith, get_elem?, Bool-cases, All,
}
use mathlib.Core.Path.{subst}
use intact.Findings.{
  fixed, status_eq, Finding, FindingDb, Trace, by_id, update_where, affects, is_in_status,
  with_status, update_status,
}
use intact.Findings.Versions.{is_newer}
use intact.Findings.Resolve.{resolve_finding, resolve_found, greatest, trusted_versions, resolved}
use intact.Findings.Lost.{is_after_fix}
use intact.Findings.Rows.{status_eq_refl}
use intact.Findings.Order.{is_newer_trans, is_newer_asym, is_newer_irrefl}

abbrev IsNamed : String → Type 0
IsNamed v = str_eq v "" ≡ false

greatest-from :
    (vs : List String) (first : String)
    → IsNamed first
    → All IsNamed vs
    → is_newer first (greatest vs first) ≡ false
unfolding greatest
greatest-from [] first start named = is_newer_irrefl first
greatest-from (v ∷ vs) first start named = elim (Bool-cases (is_newer v first)) [
  | inl later ↦
      rw (start, later)
        (is_newer_trans first v (greatest vs v) (is_newer_asym v first later)
          (greatest-from vs v named.0 named.1))
  | inr sooner ↦ rw (start, sooner) (greatest-from vs first start named.1)
]

greatest-newest :
    (vs : List String) (first : String) (i : ℕ) (v : String)
    → All IsNamed vs
    → get_elem? vs i ≡ some v
    → is_newer v (greatest vs first) ≡ false
unfolding greatest
greatest-newest [] first i v named at = cc
greatest-newest (w ∷ vs) first zero v named at =
    let e : w ≡ v = cc in
    elim (Bool-cases (str_eq first "" || is_newer w first)) [
      | inl taken ↦
          rw taken
            (subst (λ x. is_newer x (greatest vs w) ≡ false) e (greatest-from vs w named.0 named.1))
      | inr passed ↦
          let start : IsNamed first = ground (arith, passed) in
          let sooner : is_newer w first ≡ false = ground (arith, passed) in
          rw passed (
            subst (λ x. is_newer x (greatest vs first) ≡ false) e
              (is_newer_trans w first (greatest vs first) sooner
                (greatest-from vs first start named.1)))
    ]
greatest-newest (w ∷ vs) first (suc i) v named at =
    elim (Bool-cases (str_eq first "" || is_newer w first)) [
      | inl taken ↦ rw taken (greatest-newest vs w i v named.1 at)
      | inr passed ↦ rw passed (greatest-newest vs first i v named.1 at)
    ]

greatest-IsNamed :
    (vs : List String) (first : String)
    → IsNamed first
    → All IsNamed vs
    → IsNamed (greatest vs first)
unfolding greatest
greatest-IsNamed [] first start named = start
greatest-IsNamed (v ∷ vs) first start named =
    elim (Bool-cases (str_eq first "" || is_newer v first)) [
      | inl taken ↦ rw taken (greatest-IsNamed vs v named.0 named.1)
      | inr passed ↦ rw passed (greatest-IsNamed vs first start named.1)
    ]

-- The greatest of one version or more
greatest_found :
    (vs : List String) (i : ℕ) (v : String)
    → All IsNamed vs
    → get_elem? vs i ≡ some v
    → IsNamed (greatest vs "")
unfolding greatest
greatest_found [] i v named at = cc
greatest_found (w ∷ vs) i v named at = greatest-IsNamed vs w named.0 named.1

trusted_versions-IsNamed :
    (model : String) (traces : List Trace) → All IsNamed (trusted_versions model traces)
unfolding trusted_versions
trusted_versions-IsNamed model [] = tt
trusted_versions-IsNamed model (t ∷ traces) =
    let ih = trusted_versions-IsNamed model traces in
    elim (Bool-cases (str_eq t.model model && t.trusted && not (str_eq t.switcher_version ""))) [
      | inl counts ↦ rw counts (ground (arith, counts), ih)
      | inr not_counted ↦ rw not_counted ih
    ]

trusted_versions-listed :
    (model : String) (traces : List Trace) (i : ℕ) (t : Trace)
    → get_elem? traces i ≡ some t
    → str_eq t.model model ≡ true
    → t.trusted ≡ true
    → IsNamed t.switcher_version
    → (j : ℕ) × (get_elem? (trusted_versions model traces) j ≡ some t.switcher_version)
unfolding trusted_versions
trusted_versions-listed model [] i t at of_model trusted named = cc
trusted_versions-listed model (u ∷ traces) zero t at of_model trusted named =
    let e : u ≡ t = cc in
    let counts : (str_eq u.model model && u.trusted && not (str_eq u.switcher_version "")) ≡ true =
      rw (e, of_model, trusted, named) refl in
    (0, rw counts (rw e refl))
trusted_versions-listed model (u ∷ traces) (suc i) t at of_model trusted named =
    let (j, listed) = trusted_versions-listed model traces i t at of_model trusted named in
    elim (Bool-cases (str_eq u.model model && u.trusted && not (str_eq u.switcher_version ""))) [
      | inl counts ↦ (suc j, rw counts listed)
      | inr not_counted ↦ (j, rw not_counted listed)
    ]

by_id-same :
    (id : String) (fs : List Finding) (f : Finding) → by_id id fs ≡ some f → str_eq f.id id ≡ true
unfolding by_id
by_id-same id [] f found = cc
by_id-same id (g ∷ fs) f found = elim (Bool-cases (str_eq g.id id)) [
  | inl here ↦ let e : g ≡ f = cc (rw here at found) in ap (λ x. str_eq x.id id) (sym e) ∙ here
  | inr other ↦ by_id-same id fs f (rw other at found)
]

by_id-update_where :
    (id : String) (test : Finding → Bool) (change : Finding → Finding) (fs : List Finding)
    (f : Finding)
    → ((g : Finding) → (change g).id ≡ g.id)
    → by_id id fs ≡ some f
    → test f ≡ true
    → (by_id id (update_where test change fs) ≡ some (change f)) × (affects test fs ≡ true)
unfolding by_id update_where affects
by_id-update_where id test change [] f keeps found hit = absurd (cc)
by_id-update_where id test change (g ∷ fs) f keeps found hit = elim (Bool-cases (str_eq g.id id)) [
  | inl here ↦
      let e : g ≡ f = cc (rw here at found) in
      let same : test g ≡ true = ap test e ∙ hit in
      rw (same, ap (λ x. str_eq x id) (keeps g) ∙ here) (ap (λ x. some (change x)) e, refl)
  | inr other ↦
      let (ih, hits) = by_id-update_where id test change fs f keeps (rw other at found) hit in
      elim (Bool-cases (test g)) [
        | inl changed ↦ rw (changed, ap (λ x. str_eq x id) (keeps g) ∙ other) (ih, refl)
        | inr kept ↦ rw (kept, other) (ih, hits)
      ]
]

not_after :
    (t : Trace) (f : Finding) (traces : List Trace) (i now : ℕ)
    → get_elem? traces i ≡ some t
    → str_eq t.model f.model ≡ true
    → t.trusted ≡ true
    → is_after_fix t (with_status fixed (greatest (trusted_versions f.model traces) "") now f)
      ≡ false
unfolding with_status
not_after t f traces i now at of_model trusted = elim (Bool-cases (str_eq t.switcher_version "")) [
  | inl unnamed ↦ rw unnamed refl
  | inr named ↦
      let versions = trusted_versions f.model traces in
      let (j, listed) = trusted_versions-listed f.model traces i t at of_model trusted named in
      let all_named = trusted_versions-IsNamed f.model traces in
      let set = greatest_found versions j t.switcher_version all_named listed in
      rw (named, set, set, greatest-newest versions "" j t.switcher_version all_named listed) refl
]

-- A finding that is in the table and is not fixed, of a model of which the table has a trusted trace:
-- marking it as fixed, when no other call comes between, succeeds, and the version recorded is so great
-- that this trace, as any trusted one of the model that is there by then, cannot open it again.
pub resolve_finding-settles :
    (db : FindingDb) (traces : List Trace) (id who note : String) (now : ℕ) (f : Finding) (i : ℕ)
    (t : Trace)
    → by_id id db.findings ≡ some f
    → status_eq f.status fixed ≡ false
    → get_elem? traces i ≡ some t
    → str_eq t.model f.model ≡ true
    → t.trusted ≡ true
    → (marked : Finding) × ((by_id id
            (resolve_finding db db traces id fixed who note now).0.findings
          ≡ some marked)
        × ((resolve_finding db db traces id fixed who note now).1 ≡ resolved)
        × (marked.status ≡ fixed)
        × (is_after_fix t marked ≡ false))
unfolding resolve_finding resolve_found update_status with_status status_eq
resolve_finding-settles db traces id who note now f i t found change at of_model trusted =
    let version = greatest (trusted_versions f.model traces) "" in
    let here = by_id-same id db.findings f found in
    let hit : is_in_status id f.status f ≡ true = rw (here, status_eq_refl f.status) refl in
    let (row, hits) =
      by_id-update_where id (is_in_status id f.status) (with_status fixed version now) db.findings f
        (λ g. refl) found hit in
    (
      with_status fixed version now f,
      (
        rw (found, change, hits) row,
        rw (found, change, hits) refl,
        refl,
        not_after t f traces i now at of_model trusted,
      ),
    )
