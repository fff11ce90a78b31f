-- ===== src/Gate/Rights.antt =====
-- Who passes the gates.
use intact.Prelude.{
  ℕ, ◌≡◌, ◌↔◌, ◌⊎◌, inl, inr, refl, ap, sym, arith, Bool, true, false, Option, none, some, ltb,
  Bool-cases, Option-cases,
}
use intact.KeyLimit.{Limiter, Answer, allowed, refused, allow}
use intact.Gate.{
  Principal, Request, Server, ApiKey, goes_on, not_known, admin_named, owner_of, limited, by_key,
  token_principal, require_admin, is_master, has_session, is_off, bearer_token, api_key_by_token,
  is_expired,
}

-- Auth is off, or the request carries the master token or a valid session.
abbrev pub IsOperator : Server → Request → Type 0
IsOperator s r =
    (is_off s.auth ≡ true)
    ⊎ (is_master s.auth (bearer_token r) ≡ true)
    ⊎ (has_session s.auth r.session_cookie ≡ true)

-- The request carries a key that has not expired and is within its rate limit.
pub record OwnsKey (s : Server) (r : Request) (now : ℕ) (l : Limiter) (p : Principal) : Type 0 where
  pub key : ApiKey
  pub known : api_key_by_token s (bearer_token r) ≡ some key
  pub is_owner : p ≡ owner_of key
  pub lasts : is_expired s.parse_time key now ≡ false
  pub within_limit : (key.rpm ≡ 0) ⊎ ((allow l key.id key.rpm now).1 ≡ some allowed)

limited_passes :
    (k : ApiKey) (o : Limiter × Option Answer) (p : Principal)
    → (limited k o).1 ≡ goes_on p
    → (p ≡ owner_of k) × (o.1 ≡ some allowed)
unfolding limited
limited_passes k (l, none) p h = cc
limited_passes k (l, some allowed) p h = (cc, refl)
limited_passes k (l, some (refused wait)) p h = cc

module _ (s : Server) (r : Request) (now : ℕ) (l : Limiter) (p : Principal) where
  by_key_passes :
      (k : ApiKey)
      → (by_key s r now l (some k)).1 ≡ goes_on p
      → api_key_by_token s (bearer_token r) ≡ some k
      → OwnsKey s r now l p
  unfolding by_key
  by_key_passes k h known = elim (Bool-cases (is_expired s.parse_time k now)) [
    | inl late ↦ cc (rw late at h)
    | inr lasts ↦ elim (Bool-cases (ltb 0 k.rpm)) [
      | inl capped ↦
          let (is_owner, ok) =
            limited_passes k (allow l k.id k.rpm now) p (rw (lasts, capped) at h) in
          record {
            key = k;
            known = known;
            is_owner = is_owner;
            lasts = lasts;
            within_limit = inr ok;
          }
      | inr uncapped ↦
          let same : goes_on (owner_of k) ≡ goes_on p = rw (lasts, uncapped) at h in
          record {
            key = k;
            known = known;
            is_owner = cc;
            lasts = lasts;
            within_limit = inl (ground arith);
          }
    ]
  ]

  no_key_passes : (by_key s r now l none).1 ≡ goes_on p → (p.admin ≡ true) × IsOperator s r
  unfolding by_key
  no_key_passes h = elim (Bool-cases (has_session s.auth r.session_cookie)) [
    | inl signed ↦
        let same : goes_on (admin_named "session") ≡ goes_on p = rw signed at h in
        let who : admin_named "session" ≡ p = cc same in
        (sym (ap (λ (q : Principal). q.admin) who), inr (inr signed))
    | inr unsigned ↦ elim (Bool-cases (is_off s.auth)) [
      | inl off ↦
          let same : goes_on (admin_named "") ≡ goes_on p = rw (unsigned, off) at h in
          let who : admin_named "" ≡ p = cc same in
          (sym (ap (λ (q : Principal). q.admin) who), inl off)
      | inr on ↦ cc (rw (unsigned, on) at h)
    ]
  ]

  -- Who passes the token gate is an operator, and then admin, or the owner of a key that has not
  -- expired and that the limiter admits, and then with the key's own rights.
  pub token_principal_passes :
      (token_principal s r now l).1 ≡ goes_on p
      → ((p.admin ≡ true) × IsOperator s r) ⊎ OwnsKey s r now l p
  unfolding token_principal
  token_principal_passes h = elim (Bool-cases (is_master s.auth (bearer_token r))) [
    | inl master ↦
        let same : goes_on (admin_named "env") ≡ goes_on p = rw master at h in
        let who : admin_named "env" ≡ p = cc same in
        inl (sym (ap (λ (q : Principal). q.admin) who), inr (inl master))
    | inr other ↦ elim (Option-cases (api_key_by_token s (bearer_token r))) [
      | inl unknown ↦ inl (no_key_passes (rw (other, unknown) at h))
      | inr (k, known) ↦ inr (by_key_passes k (rw (other, known) at h) known)
    ]
  ]

module _ (s : Server) (r : Request) where
  -- The admin gate lets through exactly the operators, as admin; every other request is refused.
  pub require_admin_iff :
      (((p : Principal) × (require_admin s r ≡ goes_on p) × (p.admin ≡ true)) ↔ IsOperator s r)
      × ((require_admin s r ≡ not_known) ⊎ IsOperator s r)
  unfolding require_admin
  require_admin_iff = elim (Bool-cases (is_off s.auth)) [
    | inl off ↦ rw off ((λ _. inl refl, λ _. (admin_named "", refl, refl)), inr (inl refl))
    | inr on ↦ elim (Bool-cases (has_session s.auth r.session_cookie)) [
      | inl signed ↦
          rw (on, signed)
            ((λ _. inr (inr refl), λ _. (admin_named "", refl, refl)), inr (inr (inr refl)))
      | inr unsigned ↦ elim (Bool-cases (is_master s.auth (bearer_token r))) [
        | inl master ↦
            rw (on, unsigned, master)
              ((λ _. inr (inl refl), λ _. (admin_named "env", refl, refl)), inr (inr (inl refl)))
        | inr other ↦ rw (on, unsigned, other) ((λ (p, h, a). cc, no_operator), inl refl)
      ]
    ]
  ]
    where
      no_operator :
          (◌≡◌ {A = Bool} false true) ⊎ (◌≡◌ {A = Bool} false true) ⊎ (◌≡◌ {A = Bool} false true)
          → (p : Principal) × (not_known ≡ goes_on p) × (p.admin ≡ true)
      no_operator (inl e) = cc
      no_operator (inr (inl e)) = cc
      no_operator (inr (inr e)) = cc
