-- ===== src/Access/Session.antt =====
-- internal/api/middleware.go: from a credential to the user it stands for.
pub mod Trust
use lamund.Prelude.{
  ℕ, Bool, not, Option, none, some, ◌==◌, if◌then◌else◌, Bytes, codes, beq, has_prefix, is_empty,
}
use lamund.Access.Crypto.{Claims, CryptoLib}
use lamund.Access.Token.{Issuer, parse_token, hash_api_key}
use lamund.Access.Accounts.{
  User, ApiKey, Db, Statement, Answer, failed, got, get_user_by_id, get_api_key_by_hash,
}

pub record AuthUser : Type 0 where
  pub id : ℕ
  pub role : Bytes
  pub email : Bytes

abbrev pub auth_user : User → AuthUser
auth_user u = record { id = u.id; role = u.role; email = u.email }

-- The verdict of the gates: the status of a refusal, or the user.
pub data Verdict : Type 0 where
  refused : ℕ → Verdict
  admitted : AuthUser → Verdict

module _ (lib : CryptoLib) (i : Issuer) (fails : Statement → Bool) where
  abbrev pub key_user : Answer (Option User) → Option AuthUser
  key_user failed = none
  key_user (got none) = none
  key_user (got (some u)) = if u.disabled then none else some (auth_user u)

  abbrev pub with_key : Db → Answer (Option ApiKey) → Option AuthUser
  with_key db failed = none
  with_key db (got none) = none
  with_key db (got (some key)) = key_user (get_user_by_id fails key.user_id db)

  abbrev pub session_user : Claims → Answer (Option User) → Option AuthUser
  session_user c failed = none
  session_user c (got none) = none
  session_user c (got (some u)) =
      if u.disabled
      then none
      else if not (c.ver == u.token_version)
      then none
      else some (auth_user u)

  abbrev pub with_claims : Db → Option Claims → Option AuthUser
  with_claims db none = none
  with_claims db (some c) =
      if not (is_empty c.kind) then none else session_user c (get_user_by_id fails c.user_id db)

  -- `none` is the nil user
  unfoldable pub resolve_credential : ℕ → Bytes → Db → Option AuthUser
  unfolding has_prefix
  resolve_credential now tok db =
      if has_prefix tok (codes "lmd_")
      then with_key db (get_api_key_by_hash fails (hash_api_key lib tok) db)
      else with_claims db (parse_token lib i now tok)

  abbrev resolved : Option AuthUser → Verdict
  resolved none = refused 401
  resolved (some u) = admitted u

  -- requireAuth on the text of `bearer`
  unfoldable pub require_auth : ℕ → Bytes → Db → Verdict
  require_auth now tok db =
      if is_empty tok then refused 401 else resolved (resolve_credential now tok db)

  abbrev only_admin : Verdict → Verdict
  only_admin (refused status) = refused status
  only_admin (admitted u) = if beq u.role (codes "superadmin") then admitted u else refused 403

  unfoldable pub require_admin : ℕ → Bytes → Db → Verdict
  unfolding require_auth
  require_admin now tok db = only_admin (require_auth now tok db)
