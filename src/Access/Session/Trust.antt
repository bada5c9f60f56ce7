-- ===== src/Access/Session/Trust.antt =====
-- Which credentials internal/api/middleware.go trusts.
use lamund.Prelude.{
  ℕ, ◌+◌, ◌≤◌, ◌≡◌, refl, ◌≢◌, ◌⊎◌, inl, inr, Bool, false, not, none, some, [], ◌∷◌, arith, ◌==◌,
  Bool-cases, Option-cases, Bytes, codes, beq, has_prefix, find, is_empty,
}
use lamund.Access.Crypto.{Claims, CryptoLib}
use lamund.Access.Jwt.{IsJwt}
use lamund.Access.Token.{
  Issuer, issue, issue_mfa_pending, session_claims, pending_claims, parse_token, hash_api_key,
}
use lamund.Access.Accounts.{
  key_by_hash, User, ApiKey, Db, Statement, user_by_id, get_user_by_id, get_api_key_by_hash,
}
use lamund.Access.Session.{
  with_claims, with_key, key_user, session_user, AuthUser, auth_user, resolve_credential,
}

module _ (lib : CryptoLib) (i : Issuer) (fails : Statement → Bool) where
  -- The credential is a stored API key of the user, or a session token with the user's version.
  pub data IsTrusted (now : ℕ) (tok : Bytes) (db : Db) (u : User) : Type 0 where
    by_key :
        (k : ApiKey)
        → find (λ j. beq j.key_hash (hash_api_key lib tok)) db.api_keys ≡ some k
        → find (λ v. v.id == k.user_id) db.users ≡ some u
        → IsTrusted now tok db u
    by_session :
        (c : Claims)
        → parse_token lib i now tok ≡ some c
        → c.kind ≡ []
        → c.ver ≡ u.token_version
        → find (λ v. v.id == c.user_id) db.users ≡ some u
        → IsTrusted now tok db u

  empty-nil : (s : Bytes) → not (is_empty s) ≡ false → s ≡ []
  empty-nil [] h = refl
  empty-nil (c ∷ s) h = cc (h)

  key_user_sound :
      (now : ℕ) (tok : Bytes) (db : Db) (k : ApiKey) (a : AuthUser)
      → find (λ j. beq j.key_hash (hash_api_key lib tok)) db.api_keys ≡ some k
      → key_user lib i fails (get_user_by_id fails k.user_id db) ≡ some a
      → (u : User) × ((a ≡ auth_user u) × ((u.disabled ≡ false) × IsTrusted now tok db u))
  unfolding get_user_by_id
  key_user_sound now tok db k a stored h = elim (Bool-cases (fails user_by_id)) [
    | inl down ↦ cc (rw down at h)
    | inr up ↦ elim (Option-cases (find (λ v. v.id == k.user_id) db.users)) [
      | inl absent ↦ cc (rw (up, absent) at h)
      | inr (u, there_is) ↦ elim (Bool-cases u.disabled) [
        | inl disabled ↦ cc (rw (up, there_is, disabled) at h)
        | inr enabled ↦
            (u, (cc (rw (up, there_is, enabled) at h), (enabled, by_key k stored there_is)))
      ]
    ]
  ]

  session_user_sound :
      (now : ℕ) (tok : Bytes) (db : Db) (c : Claims) (a : AuthUser)
      → parse_token lib i now tok ≡ some c
      → c.kind ≡ []
      → session_user lib i fails c (get_user_by_id fails c.user_id db) ≡ some a
      → (u : User) × ((a ≡ auth_user u) × ((u.disabled ≡ false) × IsTrusted now tok db u))
  unfolding get_user_by_id
  session_user_sound now tok db c a parsed plain h = elim (Bool-cases (fails user_by_id)) [
    | inl down ↦ cc (rw down at h)
    | inr up ↦ elim (Option-cases (find (λ v. v.id == c.user_id) db.users)) [
      | inl absent ↦ cc (rw (up, absent) at h)
      | inr (u, there_is) ↦ elim (Bool-cases u.disabled) [
        | inl disabled ↦ cc (rw (up, there_is, disabled) at h)
        | inr enabled ↦ elim (Bool-cases (not (c.ver == u.token_version))) [
          | inl old ↦ cc (rw (up, there_is, enabled, old) at h)
          | inr present ↦ (
            u,
            (
              cc (rw (up, there_is, enabled, present) at h),
              (enabled, by_session c parsed plain (grind arith) there_is),
            ),
          )
        ]
      ]
    ]
  ]

  with_key_sound :
      (now : ℕ) (tok : Bytes) (db : Db) (a : AuthUser)
      → with_key lib i fails db (get_api_key_by_hash fails (hash_api_key lib tok) db) ≡ some a
      → (u : User) × ((a ≡ auth_user u) × ((u.disabled ≡ false) × IsTrusted now tok db u))
  unfolding get_api_key_by_hash
  with_key_sound now tok db a h = elim (Bool-cases (fails key_by_hash)) [
    | inl down ↦ cc (rw down at h)
    | inr up ↦ elim (Option-cases (find (λ j. beq j.key_hash (hash_api_key lib tok)) db.api_keys)) [
      | inl absent ↦ cc (rw (up, absent) at h)
      | inr (k, stored) ↦ key_user_sound now tok db k a stored (rw (up, stored) at h)
    ]
  ]

  with_claims_sound :
      (now : ℕ) (tok : Bytes) (db : Db) (a : AuthUser)
      → with_claims lib i fails db (parse_token lib i now tok) ≡ some a
      → (u : User) × ((a ≡ auth_user u) × ((u.disabled ≡ false) × IsTrusted now tok db u))
  with_claims_sound now tok db a h = elim (Option-cases (parse_token lib i now tok)) [
    | inl bad ↦ cc (rw bad at h)
    | inr (c, parsed) ↦ elim (Bool-cases (not (is_empty c.kind))) [
      | inl other ↦ cc (rw (parsed, other) at h)
      | inr plain ↦
          session_user_sound now tok db c a parsed (empty-nil c.kind plain)
            (rw (parsed, plain) at h)
    ]
  ]

  -- A credential is resolved only to a user that is stored and enabled, by an API key whose hash is
  -- stored or by a session token of the user's present version.
  pub resolve_credential_sound :
      (now : ℕ) (tok : Bytes) (db : Db) (a : AuthUser)
      → resolve_credential lib i fails now tok db ≡ some a
      → (u : User) × ((a ≡ auth_user u) × ((u.disabled ≡ false) × IsTrusted now tok db u))
  unfolding resolve_credential
  resolve_credential_sound now tok db a h = elim (Bool-cases (has_prefix tok (codes "lmd_"))) [
    | inl key ↦ with_key_sound now tok db a (rw key at h)
    | inr token ↦ with_claims_sound now tok db a (rw token at h)
  ]

  module _ (jwt : IsJwt lib) where
    -- The token of the first step of a login never stands for a session.
    pub pending-no_session :
        (now later id : ℕ) (tok : Bytes) (db : Db)
        → issue_mfa_pending lib i now id ≡ some tok
        → resolve_credential lib i fails later tok db ≡ none
    unfolding issue_mfa_pending resolve_credential parse_token
    pending-no_session now later id tok db h =
        let token = jwt.header i.secret tok (pending_claims now id) h in
        elim (Option-cases (lib.parse i.secret later tok)) [
          | inl bad ↦ rw (token, bad) refl
          | inr (c, parsed) ↦
              let (_, (_, kind)) =
                jwt.keeps i.secret tok (pending_claims now id) c later h parsed in
              rw (token, parsed, kind) refl
        ]

    -- A session token stands for its user until its last second, if the user is stored under its
    -- number, enabled and of the version of the token, and the store answers.
    pub session_is_resolved :
        (now later : ℕ) (tok : Bytes) (db : Db) (u : User)
        → issue lib i now u.id u.role u.token_version ≡ some tok
        → later + 1000000000 ≤ now + i.ttl
        → find (λ v. v.id == u.id) db.users ≡ some u
        → u.disabled ≡ false
        → fails user_by_id ≡ false
        → resolve_credential lib i fails later tok db ≡ some (auth_user u)
    unfolding issue resolve_credential parse_token get_user_by_id
    session_is_resolved now later tok db u issued alive stored enabled answers =
        let claims = session_claims i now u.id u.role u.token_version in
        let token = jwt.header i.secret tok claims issued in
        let (c, parsed) = jwt.alive i.secret tok claims later issued alive in
        let (id, (ver, kind)) = jwt.keeps i.secret tok claims c later issued parsed in
        rw (token, parsed, kind, id, answers, stored, enabled, ver) (ground arith)

    -- A session token of another version than the stored one is refused, and so is an expired one.
    pub session_is_revoked :
        (now later id ver : ℕ) (role tok : Bytes) (db : Db) (u : User)
        → issue lib i now id role ver ≡ some tok
        → find (λ v. v.id == id) db.users ≡ some u
        → (ver ≢ u.token_version) ⊎ (now + i.ttl ≤ later)
        → resolve_credential lib i fails later tok db ≡ none
    unfolding issue resolve_credential parse_token get_user_by_id
    session_is_revoked now later id ver role tok db u issued stored (inl old) =
        let claims = session_claims i now id role ver in
        let token = jwt.header i.secret tok claims issued in
        elim (Option-cases (lib.parse i.secret later tok)) [
          | inl bad ↦ rw (token, bad) refl
          | inr (c, parsed) ↦
              let (same, (version, kind)) = jwt.keeps i.secret tok claims c later issued parsed in
              rw (token, parsed, kind, same)
                (elim (Bool-cases (fails user_by_id)) [
                  | inl down ↦ rw down refl
                  | inr up ↦ rw (up, stored, version) (ground arith)
                ])
        ]
    session_is_revoked now later id ver role tok db u issued stored (inr late) =
        let claims = session_claims i now id role ver in
        rw
          (jwt.header i.secret tok claims issued, jwt.expired i.secret tok claims later issued late)
          refl
