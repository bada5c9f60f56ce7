-- ===== src/Access/Accounts.antt =====
-- The rows of internal/store/users.go and internal/store/mfa.go that a login reads, and the queries
-- on them. A query may fail, as the function `fails` says of each kind of query.
pub mod Recovery
use lamund.Prelude.{
  ℕ, Bool, true, false, not, ◌&&◌, ◌||◌, Option, none, some, List, [], ◌∷◌, ◌==◌, if◌then◌else◌,
  Bytes, beq, any, find, lower, trim_space,
}

-- Of the table users: the columns of User that a login reads, and those of the second factor.
pub record User : Type 0 where
  pub id : ℕ
  pub username : Bytes
  pub password_hash : Bytes
  pub role : Bytes
  pub disabled : Bool
  pub email : Bytes
  pub token_version : ℕ
  pub mfa_secret : Bytes
  pub mfa_enabled : Bool
  pub mfa_last_step : ℕ

pub record ApiKey : Type 0 where
  pub id : ℕ
  pub user_id : ℕ
  pub key_hash : Bytes

pub record RecoveryCode : Type 0 where
  pub id : ℕ
  pub user_id : ℕ
  pub code_hash : Bytes
  pub used : Bool

pub record Db : Type 0 where
  pub users : List User
  pub api_keys : List ApiKey
  pub recovery_codes : List RecoveryCode

-- The queries that may fail.
pub data Statement : Type 0 where
  user_by_id user_by_username key_by_hash read_mfa write_step list_codes use_code : Statement

-- The answer of a query: an error, or a result.
pub data Answer (A : Type 0) : Type 0 where
  failed : Answer A
  got : A → Answer A

abbrev guarded : {A : Type 0} → Bool → A → Answer A
guarded fails a = if fails then failed else got a

-- The row of a user, changed.
unfoldable pub update_user : ℕ → (User → User) → List User → List User
update_user id f [] = []
update_user id f (u ∷ us) = (if u.id == id then f u else u) ∷ update_user id f us

-- UPDATE mfa_recovery_codes SET used=1 WHERE id=?
unfoldable pub mark_used : ℕ → List RecoveryCode → List RecoveryCode
mark_used id [] = []
mark_used id (c ∷ cs) = (if c.id == id then record c { used = true } else c) ∷ mark_used id cs

-- Row.Scan of a user's columns: no row is an error.
abbrev mfa_of : Option User → Answer (Bytes × Bool × ℕ)
mfa_of none = failed
mfa_of (some u) = got (u.mfa_secret, u.mfa_enabled, u.mfa_last_step)

module _ (fails : Statement → Bool) where
  -- no row is a nil user
  unfoldable pub get_user_by_id : ℕ → Db → Answer (Option User)
  get_user_by_id id db = guarded (fails user_by_id) (find (λ u. u.id == id) db.users)

  unfoldable pub get_user_by_username : Bytes → Db → Answer (Option User)
  get_user_by_username name db =
      guarded (fails user_by_username)
        (find (λ u. beq u.username (lower (trim_space name))) db.users)

  unfoldable pub get_api_key_by_hash : Bytes → Db → Answer (Option ApiKey)
  get_api_key_by_hash hash db =
      guarded (fails key_by_hash) (find (λ k. beq k.key_hash hash) db.api_keys)

  unfoldable pub get_mfa : ℕ → Db → Answer (Bytes × Bool × ℕ)
  get_mfa id db = if fails read_mfa then failed else mfa_of (find (λ u. u.id == id) db.users)

  -- affectedID: an update of no row is an error
  unfoldable pub set_mfa_last_step : ℕ → ℕ → Db → Answer Unit × Db
  unfolding update_user
  set_mfa_last_step id step db =
      if fails write_step || not (any (λ u. u.id == id) db.users) then (failed, db) else (
        got tt,
        record db { users = update_user id (λ u. record u { mfa_last_step = step }) db.users },
      )

  abbrev pub use_found : Option RecoveryCode → Db → Answer Bool × Db
  use_found none db = (got false, db)
  use_found (some c) db =
      if fails use_code
      then (failed, db)
      else (got true, record db { recovery_codes = mark_used c.id db.recovery_codes })

  -- The first unused code of the user that `verify` accepts is marked as used.
  unfoldable pub consume_recovery_code : ℕ → (Bytes → Bool) → Db → Answer Bool × Db
  unfolding mark_used
  consume_recovery_code id verify db =
      if fails list_codes
      then (failed, db)
      else use_found
          (find (λ c. (c.user_id == id && not c.used) && verify c.code_hash) db.recovery_codes) db
