-- ===== src/Access/Login/Replay.antt =====
-- A one-time code is not accepted twice by the second step of a login in internal/api/router.go.
use lamund.Prelude.{
  ℕ, ◌≤◌, ◌<◌, ◌≡◌, refl, ap, ◌∙◌, ◌⊎◌, inl, inr, Bool, true, false, not, ◌||◌, none, some, List,
  [], ◌∷◌, arith, ltb, ◌==◌, Bool-cases, Option-cases, Bytes, any, find,
}
use lamund.Access.Crypto.{CryptoLib}
use lamund.Access.Password.{verify_password}
use lamund.Access.Totp.{verify_totp}
use lamund.Access.Token.{Issuer, parse_mfa_pending}
use lamund.Access.Accounts.{
  user_by_id, read_mfa, list_codes, User, Db, Statement, got, update_user, write_step,
  get_user_by_id, get_mfa, set_mfa_last_step, consume_recovery_code,
}
use lamund.Access.Accounts.Recovery.{is_open}
use lamund.Access.Login.{
  step_written, Response, session, unauthorized, server_error, is_nil, check_code, try_recovery,
  by_user,
}

-- The user's row with the step written.
abbrev pub stepped : ℕ → User → User
stepped s u = record u { mfa_last_step = s }

find-stepped :
    (id s : ℕ) (us : List User) (u : User)
    → find (λ v. v.id == id) us ≡ some u
    → find (λ v. v.id == id) (update_user id (stepped s) us) ≡ some (stepped s u)
unfolding update_user
find-stepped id s [] u h = cc (h)
find-stepped id s (v ∷ us) u h = elim (Bool-cases (v.id == id)) [
  | inl hit ↦
      let same : v ≡ u = cc (rw hit at h) in rw (hit, hit) (ap (λ w. some (stepped s w)) same)
  | inr miss ↦ rw (miss, miss) (find-stepped id s us u (rw miss at h))
]

module _ (lib : CryptoLib) (i : Issuer) (fails : Statement → Bool) where
  -- No open recovery code of the user is spelled like this.
  abbrev pub IsNoRecovery : ℕ → Bytes → Db → Type 0
  IsNoRecovery id code db =
      find (is_open id (λ h. is_nil (verify_password lib code h))) db.recovery_codes ≡ none

  -- What the second step reads of its user.
  pub record IsEnrolled (id : ℕ) (db : Db) (u : User) : Type 0 where
    pub stored : find (λ v. v.id == id) db.users ≡ some u
    pub enabled : u.disabled ≡ false
    pub second : u.mfa_enabled ≡ true

  try_recovery-none :
      (now id : ℕ) (u : User) (code : Bytes) (db : Db)
      → IsNoRecovery id code db
      → ((try_recovery lib i fails now id u code db).0 ≡ unauthorized)
        ⊎ ((try_recovery lib i fails now id u code db).0 ≡ server_error)
  unfolding try_recovery consume_recovery_code
  try_recovery-none now id u code db none_left = elim (Bool-cases (fails list_codes)) [
    | inl down ↦ rw down (inr refl)
    | inr up ↦ rw (up, none_left) (inl refl)
  ]

  write-session :
      (now id s : ℕ) (tok role : Bytes) (db : Db) (u : User)
      → (step_written lib i fails now u (set_mfa_last_step fails id s db)).0 ≡ session tok role
      → (step_written lib i fails now u (set_mfa_last_step fails id s db)).1
        ≡ record db { users = update_user id (stepped s) db.users }
  unfolding set_mfa_last_step
  write-session now id s tok role db u h =
      elim (Bool-cases (fails write_step || not (any (λ v. v.id == id) db.users))) [
        | inl down ↦ cc (rw down at h)
        | inr up ↦ rw up refl
      ]

  no_session :
      (r : Response) (tok role : Bytes)
      → (r ≡ unauthorized) ⊎ (r ≡ server_error)
      → r ≡ session tok role
      → ⊥
  no_session r tok role (inl e) h = ground arith
  no_session r tok role (inr e) h = ground arith

  by_user-session :
      (now id : ℕ) (code tok role : Bytes) (db : Db) (u : User)
      → IsEnrolled id db u
      → IsNoRecovery id code db
      → (by_user lib i fails now id code db (got (some u))).0 ≡ session tok role
      → (s : ℕ) × ((verify_totp lib u.mfa_secret code now ≡ some s)
          × ((u.mfa_last_step < s)
              × ((by_user lib i fails now id code db (got (some u))).1
                  ≡ record db { users = update_user id (stepped s) db.users })))
  unfolding get_mfa try_recovery
  by_user-session now id code tok role db u e empty h = elim (Bool-cases (fails read_mfa)) [
    | inl down ↦ cc (rw (e.enabled, down) at h)
    | inr up ↦ elim (Option-cases (verify_totp lib u.mfa_secret code now)) [
      | inl missed ↦ absurd (
          no_session _ tok role (try_recovery-none now id u code db empty)
            (rw (e.enabled, up, e.stored, e.second, missed) at h))
      | inr (s, matched) ↦ elim (Bool-cases (ltb u.mfa_last_step s)) [
        | inl new ↦ (
          s,
          (
            matched,
            (
              grind arith,
              rw (e.enabled, up, e.stored, e.second, matched, new)
                  (write-session now id s tok role db u
                    (rw (e.enabled, up, e.stored, e.second, matched, new) at h)),
            ),
          ),
        )
        | inr old ↦ absurd (
            no_session _ tok role (try_recovery-none now id u code db empty)
              (rw (e.enabled, up, e.stored, e.second, matched, old) at h))
      ]
    ]
  ]

  by_user-stale :
      (now id s' : ℕ) (code : Bytes) (db : Db) (u : User)
      → IsEnrolled id db u
      → IsNoRecovery id code db
      → verify_totp lib u.mfa_secret code now ≡ some s'
      → s' ≤ u.mfa_last_step
      → ((by_user lib i fails now id code db (got (some u))).0 ≡ unauthorized)
        ⊎ ((by_user lib i fails now id code db (got (some u))).0 ≡ server_error)
  unfolding get_mfa try_recovery
  by_user-stale now id s' code db u e empty matched old = elim (Bool-cases (fails read_mfa)) [
    | inl down ↦ rw (e.enabled, down) (inl refl)
    | inr up ↦
        let stale : ltb u.mfa_last_step s' ≡ false = ground arith in
        rw (e.enabled, up, e.stored, e.second, matched, stale)
          (try_recovery-none now id u code db empty)
  ]

  -- Once a code has opened a session, it opens no other as long as it stands for the same step,
  -- with whatever token of the user, unless a recovery code is spelled like it.
  pub totp_is_used_once :
      (now now' id : ℕ) (token token' code tok role : Bytes) (db : Db) (u : User)
      → parse_mfa_pending lib i now token ≡ some id
      → parse_mfa_pending lib i now' token' ≡ some id
      → IsEnrolled id db u
      → IsNoRecovery id code db
      → (check_code lib i fails now token code db).0 ≡ session tok role
      → verify_totp lib u.mfa_secret code now' ≡ verify_totp lib u.mfa_secret code now
      → ((check_code lib i fails now' token' code (check_code lib i fails now token code db).1).0
          ≡ unauthorized)
        ⊎ ((check_code lib i fails now' token' code (check_code lib i fails now token code db).1).0
            ≡ server_error)
  unfolding check_code get_user_by_id
  totp_is_used_once now now' id token token' code tok role db u parsed parsed' e empty h same =
      elim (Bool-cases (fails user_by_id)) [
        | inl down ↦ cc (rw (parsed, down) at h)
        | inr up ↦
            let (s, (matched, (newer, after))) =
              by_user-session now id code tok role db u e empty (rw (parsed, up, e.stored) at h) in
            let found = find-stepped id s db.users u e.stored in
            let e' : IsEnrolled id (record db { users = update_user id (stepped s) db.users })
                (stepped s u) =
              record { stored = found; enabled = e.enabled; second = e.second } in
            rw (parsed, parsed', up, e.stored, after, found)
              (by_user-stale now' id s code _ (stepped s u) e' empty (same ∙ matched) (omega arith))
      ]
