-- ===== src/Access/Login.antt =====
-- internal/api/router.go: the two steps of a login. The body of a request is decoded before, `none`
-- for one that is not valid. The check of a dummy hash when there is no user costs time only.
-- The clock is read once for the limiter and the tokens.
pub mod Proof
pub mod Replay
use lamund.Prelude.{
  ℕ, Bool, true, false, not, ◌&&◌, Option, none, some, ◌∷◌, ◌++◌, ltb, if◌then◌else◌, Bytes, codes,
  lower, trim_space,
}
use lamund.Access.Crypto.{CryptoLib}
use lamund.Access.Password.{verify_password}
use lamund.Access.Totp.{verify_totp}
use lamund.Access.Token.{Issuer, issue, issue_mfa_pending, parse_mfa_pending}
use lamund.Access.Accounts.{
  User, Db, Statement, Answer, failed, got, get_user_by_id, get_user_by_username, get_mfa,
  set_mfa_last_step, consume_recovery_code,
}
use lamund.Access.Limiter.{Limiter, allow}

pub data Response : Type 0 where
  bad_request too_many unauthorized server_error : Response
  pending : Bytes → Response
  session : Bytes → Bytes → Response

pub record State : Type 0 where
  pub db : Db
  pub limiter : Limiter

abbrev pub is_nil : {E : Type 0} → Option E → Bool
is_nil none = true
is_nil (some e) = false

module _ (lib : CryptoLib) (i : Issuer) (fails : Statement → Bool) where
  abbrev pub session_of : User → Option Bytes → Response
  session_of u none = server_error
  session_of u (some tok) = session tok u.role

  abbrev pending_of : Option Bytes → Response
  pending_of none = server_error
  pending_of (some tok) = pending tok

  -- The error of GetMFA is not looked at: MFA counts as disabled then.
  abbrev pub enabled_of : Answer (Bytes × Bool × ℕ) → Bool
  enabled_of failed = false
  enabled_of (got (secret, enabled, last_step)) = enabled

  abbrev pub accepts : Bytes → Option User → Bool
  accepts password none = false
  accepts password (some u) =
      not u.disabled && is_nil (verify_password lib password u.password_hash)

  abbrev pub logged_in : ℕ → Bytes → Db → Option User → Response
  logged_in now password db none = unauthorized
  logged_in now password db (some u) =
      if not (accepts password (some u))
      then unauthorized
      else if enabled_of (get_mfa fails u.id db)
      then pending_of (issue_mfa_pending lib i now u.id)
      else session_of u (issue lib i now u.id u.role u.token_version)

  abbrev pub looked_up : ℕ → Bytes → Db → Answer (Option User) → Response
  looked_up now password db failed = server_error
  looked_up now password db (got u) = logged_in now password db u

  -- What is checked behind the limiter.
  unfoldable pub check_password : ℕ → Bytes → Bytes → Db → Response
  check_password now name password db =
      looked_up now password db (get_user_by_username fails name db)

  abbrev limited_login : ℕ → Bytes → Bytes → Bool × Limiter → Db → Response × State
  limited_login now name password (true, l) db =
      (check_password now name password db, record { db = db; limiter = l })
  limited_login now name password (false, l) db = (too_many, record { db = db; limiter = l })

  -- handleLogin, with the client's address
  unfoldable pub handle_login : ℕ → Bytes → Option (Bytes × Bytes) → State → Response × State
  handle_login now ip none s = (bad_request, s)
  handle_login now ip (some (username, password)) s =
      let name = lower (trim_space username) in
      limited_login now name password (allow now now (ip ++ b'|' ∷ name) s.limiter) s.db

  -- The answer of the second step, once the code is found good or bad.
  abbrev finish : ℕ → User → Bool → Response
  finish now u true = session_of u (issue lib i now u.id u.role u.token_version)
  finish now u false = unauthorized

  abbrev by_recovery : ℕ → User → Answer Bool × Db → Response × Db
  by_recovery now u (failed, db) = (server_error, db)
  by_recovery now u (got used, db) = (finish now u used, db)

  unfoldable pub try_recovery : ℕ → ℕ → User → Bytes → Db → Response × Db
  try_recovery now id u code db =
      by_recovery now u
        (consume_recovery_code fails id (λ h. is_nil (verify_password lib code h)) db)

  abbrev step_written : ℕ → User → Answer Unit × Db → Response × Db
  step_written now u (failed, db) = (server_error, db)
  step_written now u (got _, db) = (finish now u true, db)

  -- A step that is not newer than the last goes on to the recovery codes.
  abbrev pub by_step : ℕ → ℕ → User → Bytes → ℕ → Db → Option ℕ → Response × Db
  by_step now id u code last_step db none = try_recovery now id u code db
  by_step now id u code last_step db (some step) =
      if ltb last_step step
      then step_written now u (set_mfa_last_step fails id step db)
      else try_recovery now id u code db

  abbrev pub by_mfa : ℕ → ℕ → User → Bytes → Db → Answer (Bytes × Bool × ℕ) → Response × Db
  by_mfa now id u code db failed = (unauthorized, db)
  by_mfa now id u code db (got (secret, enabled, last_step)) =
      if not enabled
      then (unauthorized, db)
      else by_step now id u code last_step db (verify_totp lib secret code now)

  abbrev pub by_user : ℕ → ℕ → Bytes → Db → Answer (Option User) → Response × Db
  by_user now id code db failed = (unauthorized, db)
  by_user now id code db (got none) = (unauthorized, db)
  by_user now id code db (got (some u)) =
      if u.disabled then (unauthorized, db) else by_mfa now id u code db (get_mfa fails id db)

  abbrev by_pending : ℕ → Bytes → Db → Option ℕ → Response × Db
  by_pending now code db none = (unauthorized, db)
  by_pending now code db (some id) = by_user now id code db (get_user_by_id fails id db)

  -- The second step behind the limiter and the decoding.
  unfoldable pub check_code : ℕ → Bytes → Bytes → Db → Response × Db
  check_code now token code db = by_pending now code db (parse_mfa_pending lib i now token)

  abbrev decoded_mfa : ℕ → Option (Bytes × Bytes) → Db → Response × Db
  decoded_mfa now none db = (bad_request, db)
  decoded_mfa now (some (token, code)) db = check_code now token code db

  abbrev limited_mfa : ℕ → Option (Bytes × Bytes) → Bool × Limiter → Db → Response × State
  limited_mfa now body (false, l) db = (too_many, record { db = db; limiter = l })
  limited_mfa now body (true, l) db =
      let (answer, db') = decoded_mfa now body db in (answer, record { db = db'; limiter = l })

  -- handleLoginMFA
  unfoldable pub handle_login_mfa : ℕ → Bytes → Option (Bytes × Bytes) → State → Response × State
  handle_login_mfa now ip body s =
      limited_mfa now body (allow now now (ip ++ codes "|mfa") s.limiter) s.db
