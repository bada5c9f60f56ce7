-- ===== src/Access/Login/Proof.antt =====
-- What a login of internal/api/router.go proves about who made it.
use lamund.Prelude.{
  ℕ, ◌≡◌, refl, ◌↔◌, ◌⊎◌, inl, inr, Bool, true, false, none, some, ◌==◌, Bool-cases, Option-cases,
  Bytes, beq, find, lower, trim_space,
}
use lamund.Access.Crypto.{CryptoLib}
use lamund.Access.Password.{verify_password}
use lamund.Access.Token.{Issuer, issue, issue_mfa_pending}
use lamund.Access.Accounts.{
  User, Db, Statement, user_by_username, read_mfa, get_user_by_username, get_mfa,
}
use lamund.Access.Login.{enabled_of, session, accepts, check_password}

module _ (lib : CryptoLib) (i : Issuer) (fails : Statement → Bool) where
  -- The user of the name, who is enabled and has this password.
  pub record IsProven (name password : Bytes) (db : Db) (u : User) : Type 0 where
    pub stored : find (λ v. beq v.username (lower (trim_space name))) db.users ≡ some u
    pub enabled : u.disabled ≡ false
    pub matches : verify_password lib password u.password_hash ≡ none

  -- The read of the second factor fails or finds no row, or finds one where it is off.
  abbrev pub IsOneStep : ℕ → Db → Type 0
  IsOneStep id db =
      (fails read_mfa ≡ true)
      ⊎ ((find (λ v. v.id == id) db.users ≡ none)
          ⊎ ((v : User) × (find (λ w. w.id == id) db.users ≡ some v) × (v.mfa_enabled ≡ false)))

  IsOneStep-sound :
      (id : ℕ) (db : Db) → enabled_of lib i fails (get_mfa fails id db) ≡ false → IsOneStep id db
  unfolding get_mfa
  IsOneStep-sound id db h = elim (Bool-cases (fails read_mfa)) [
    | inl down ↦ inl down
    | inr up ↦ elim (Option-cases (find (λ v. v.id == id) db.users)) [
      | inl absent ↦ inr (inl absent)
      | inr (v, there_is) ↦ inr (inr (v, there_is, rw (up, there_is) at h))
    ]
  ]

  IsOneStep-complete :
      (id : ℕ) (db : Db) → IsOneStep id db → enabled_of lib i fails (get_mfa fails id db) ≡ false
  unfolding get_mfa
  IsOneStep-complete id db (inl down) = rw down refl
  IsOneStep-complete id db (inr (inl absent)) = elim (Bool-cases (fails read_mfa)) [
    | inl down ↦ rw down refl
    | inr up ↦ rw (up, absent) refl
  ]
  IsOneStep-complete id db (inr (inr (v, there_is, off))) = elim (Bool-cases (fails read_mfa)) [
    | inl down ↦ rw down refl
    | inr up ↦ rw (up, there_is) off
  ]

  accepts_sound :
      (password : Bytes) (u : User)
      → accepts lib i fails password (some u) ≡ true
      → (u.disabled ≡ false) × (verify_password lib password u.password_hash ≡ none)
  accepts_sound password u h = elim (Bool-cases u.disabled) [
    | inl off ↦ cc (rw off at h)
    | inr on ↦ elim (Option-cases (verify_password lib password u.password_hash)) [
      | inl right ↦ (on, right)
      | inr (e, wrong) ↦ cc (rw (on, wrong) at h)
    ]
  ]

  -- What stands behind a session with this token and this role.
  abbrev pub IsGranted : ℕ → Bytes → Bytes → Bytes → Bytes → Db → Type 0
  IsGranted now name password tok role db =
      (u : User) × (fails user_by_username ≡ false)
      × IsProven name password db u
      × IsOneStep u.id db
      × (issue lib i now u.id u.role u.token_version ≡ some tok)
      × (u.role ≡ role)

  session_sound :
      (now : ℕ) (name password tok role : Bytes) (db : Db)
      → check_password lib i fails now name password db ≡ session tok role
      → IsGranted now name password tok role db
  unfolding check_password get_user_by_username
  session_sound now name password tok role db h = elim (Bool-cases (fails user_by_username)) [
    | inl down ↦ cc (rw down at h)
    | inr up ↦ elim (Option-cases (find (λ v. beq v.username (lower (trim_space name))) db.users)) [
      | inl absent ↦ cc (rw (up, absent) at h)
      | inr (u, stored) ↦ elim (Bool-cases (accepts lib i fails password (some u))) [
        | inr wrong ↦ cc (rw (up, stored, wrong) at h)
        | inl right ↦ elim (Bool-cases (enabled_of lib i fails (get_mfa fails u.id db))) [
          | inl two ↦ elim (Option-cases (issue_mfa_pending lib i now u.id)) [
            | inl unsigned ↦ cc (rw (up, stored, right, two, unsigned) at h)
            | inr (t, signed) ↦ cc (rw (up, stored, right, two, signed) at h)
          ]
          | inr one ↦ elim (Option-cases (issue lib i now u.id u.role u.token_version)) [
            | inl unsigned ↦ cc (rw (up, stored, right, one, unsigned) at h)
            | inr (t, signed) ↦
                let (enabled, matches) = accepts_sound password u right in
                let same : session t u.role ≡ session tok role =
                  rw (up, stored, right, one, signed) at h in
                (
                  u,
                  up,
                  record { stored = stored; enabled = enabled; matches = matches },
                  IsOneStep-sound u.id db one,
                  rw signed (cc (same)),
                  cc (same),
                )
          ]
        ]
      ]
    ]
  ]

  session_complete :
      (now : ℕ) (name password tok role : Bytes) (db : Db)
      → IsGranted now name password tok role db
      → check_password lib i fails now name password db ≡ session tok role
  unfolding check_password get_user_by_username
  session_complete now name password tok role db (u, up, p, one, signed, same) =
      rw (up, p.stored, p.enabled, p.matches, IsOneStep-complete u.id db one, signed, same) refl

  -- The first step of a login gives a session exactly to this: the user is read, is the one of the
  -- name, is enabled and has this password; the second factor is off, its
  -- read fails or finds no row; and the token is the one that is issued for the user's number, role and version.
  pub check_password-session :
      (now : ℕ) (name password tok role : Bytes) (db : Db)
      → (check_password lib i fails now name password db ≡ session tok role)
        ↔ IsGranted now name password tok role db
  check_password-session now name password tok role db =
      (session_sound now name password tok role db, session_complete now name password tok role db)
