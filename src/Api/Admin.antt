-- ===== src/Api/Admin.antt =====
-- internal/api/admin.go: the handlers of accounts, behind requireAdmin or requireAuth, and of API
-- keys. The number of the path and the decoded body are `none` for an error, and numbers of quotas
-- are words of 64 bits.
pub mod Removal
use lamund.Prelude.{
  ℕ, Bool, false, not, ◌&&◌, ◌||◌, Option, none, some, List, [], ◌∷◌, ltb, leb, ◌==◌, if◌then◌else◌,
  Bytes, codes, beq, length, any, keys, lower, trim_space,
}
use lamund.Access.Session.{AuthUser}
use lamund.Quota.{int_lt, is_superadmin}
use lamund.Store.Accounts.{Account, AccountQuota, AccountKey, Accounts}
use lamund.Store.Users.{
  is_role, get_account, count_users_by_role, count_owned_resources, delete_user, create_user,
  set_quota, get_quota, update_account, set_user_disabled, bump_token_version, list_users,
  list_api_keys, create_api_key, delete_api_key,
}
use lamund.Store.Factor.{disable_mfa}
use lamund.Api.Handler.{
  HandlerOn, Response, message, users_body, user_body, quota_body, flag_body, keys_body, key_body,
  go, or_status, some_or, ignoring, stop_if, ◌>>=◌, ◌>>◌, reply,
}

abbrev pub AdminHandler : Type 0 → Type 0
AdminHandler A = HandlerOn Accounts A

abbrev mfa_of_account : Option Account → Bool
mfa_of_account none = false
mfa_of_account (some u) = u.mfa_enabled

-- The loop of handleListUsers; an error of GetMFA or GetQuota is a zero value.
unfoldable pub list_each : List Account → AdminHandler (List (Account × Bool × Option AccountQuota))
list_each [] = go []
list_each (u ∷ us) = do
  row ← ignoring none (get_account u.id)
  q ← ignoring none (get_quota u.id)
  rest ← list_each us
  go ((u, mfa_of_account row, q) ∷ rest)

unfoldable pub handle_list_users : AdminHandler Response
handle_list_users = do
  users ← or_status 500 list_users
  listed ← list_each users
  reply 200 (users_body listed)

-- The last superadmin is not removed.
unfoldable pub check_superadmin : Bytes → AdminHandler Unit
check_superadmin role =
    if not (is_superadmin role)
    then go tt
    else (do n ← or_status 500 (count_users_by_role (codes "superadmin")); stop_if (leb n 1) 400)

unfoldable pub handle_delete_user : AuthUser → Option ℕ → AdminHandler Response
handle_delete_user caller path_id = do
  id ← some_or 400 path_id
  stop_if (id == caller.id) 400
  found ← or_status 404 (get_account id)
  target ← some_or 404 found
  check_superadmin target.role
  n ← or_status 500 (count_owned_resources id)
  stop_if (ltb 0 n) 409
  or_status 500 (delete_user id)
  reply 200 message

-- ^[a-z0-9-]{4,32}$, after lower case and without blanks around
abbrev is_username_char : ℕ → Bool
is_username_char c = (leb b'a' c && leb c b'z') || ((leb b'0' c && leb c b'9') || c == b'-')

unfoldable pub valid_username : Bytes → Bool
valid_username u =
    let name = lower (trim_space u) in
    (leb 4 (length name) && leb (length name) 32) && not (any (λ c. not (is_username_char c)) name)

pub record CreateUserReq : Type 0 where
  pub username : Bytes
  pub password : Bytes
  pub role : Bytes
  pub max_sites : ℕ

-- Only a superadmin gives another role than that of a member.
unfoldable pub role_for : AuthUser → Bytes → Bytes
role_for u role = if is_superadmin u.role && is_role role then role else codes "member"

abbrev pub new_account : Bytes → Bytes → Bytes → Account
new_account username password_hash role = record {
  id = 0;
  username = username;
  password_hash = password_hash;
  role = role;
  disabled = false;
  name = [];
  email = [];
  theme = [];
  locale = [];
  token_version = 0;
  email_verified = false;
  approval = [];
  github_id = 0;
  google_id = [];
  mfa_secret = [];
  mfa_enabled = false;
  mfa_last_step = 0;
}

abbrev sites_quota : ℕ → ℕ → AccountQuota
sites_quota id max_sites = record {
  user_id = id;
  max_sites = max_sites;
  max_storage_mb = 0;
  max_bandwidth_gb = 0;
  max_teams = 0;
  max_memory_mb = 0;
  max_cpu_percent = 0;
  max_apps = 0;
}

-- `hash` is auth.HashPassword, with its random salt.
unfoldable pub handle_create_user :
    (Bytes → Option Bytes) → AuthUser → Option CreateUserReq → AdminHandler Response
handle_create_user hash u body = do
  stop_if (not (is_superadmin u.role || beq u.role (codes "team_manager"))) 403
  req ← some_or 400 body
  stop_if (not (valid_username req.username) || ltb (length req.password) 8) 400
  password_hash ← some_or 500 (hash req.password)
  id ← or_status 400 (create_user (new_account req.username password_hash (role_for u req.role)))
  (if int_lt 0 req.max_sites then ignoring tt (set_quota (sites_quota id req.max_sites)) else go tt)
  reply 201 (user_body id req.username (role_for u req.role))

-- The body is a quota whose user is that of the path.
unfoldable pub handle_set_quota : Option ℕ → Option AccountQuota → AdminHandler Response
handle_set_quota path_id body = do
  id ← some_or 400 path_id
  found ← ignoring none (get_account id)
  u ← some_or 404 found
  req ← some_or 400 body
  or_status 500 (set_quota (record req { user_id = id }))
  reply 200 (quota_body req)

unfoldable pub handle_set_user_status : Option ℕ → Option Bool → AdminHandler Response
handle_set_user_status path_id body = do
  id ← some_or 400 path_id
  disabled ← some_or 400 body
  or_status 404 (update_account id (set_user_disabled disabled))
  (if disabled then ignoring tt (update_account id bump_token_version) else go tt)
  reply 200 (flag_body disabled)

unfoldable pub handle_admin_mfa_reset : Option ℕ → AdminHandler Response
handle_admin_mfa_reset path_id = do
  id ← some_or 400 path_id
  found ← ignoring none (get_account id)
  u ← some_or 404 found
  or_status 500 (disable_mfa id)
  reply 200 message

unfoldable pub handle_list_keys : AuthUser → AdminHandler Response
handle_list_keys u = do keys ← or_status 500 (list_api_keys u.id); reply 200 (keys_body keys)

-- `generated` is what auth.GenerateAPIKey returns: the key and its hash.
unfoldable pub handle_create_key :
    Option (Bytes × Bytes) → AuthUser → Option Bytes → AdminHandler Response
handle_create_key generated u body = do
  name ← some_or 400 body
  key ← some_or 500 generated
  id ← or_status 500 (create_api_key u.id name key.1)
  reply 201 (key_body id name key.0)

unfoldable pub handle_delete_key : AuthUser → Option ℕ → AdminHandler Response
handle_delete_key u path_id = do
  id ← some_or 400 path_id
  or_status 404 (delete_api_key id u.id)
  reply 200 message
