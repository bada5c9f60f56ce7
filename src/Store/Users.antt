-- ===== src/Store/Users.antt =====
-- internal/store/users.go: the accounts, their quotas and their keys, on the tables that the file
-- reads. A violated UNIQUE constraint of a username has its name, `registered`, already; a role
-- outside of the CHECK of the table is an error of the engine.
pub mod Gone
use lamund.Prelude.{
  ℕ, suc, ◌+◌, Bool, true, false, not, ◌&&◌, ◌||◌, Option, none, some, List, [], ◌∷◌, ◌++◌, map,
  ltb, ◌==◌, if◌then◌else◌, Bytes, codes, beq, length, select, any, find, lower, is_empty,
  trim_space,
}
use lamund.Dns.Types.{DnsZone}
use lamund.Store.Conn.{
  Conn, Result, ok, err, begin, commit, exec, query, raise, or_rollback, registered, unique, engine,
  not_found, Action, ◌>>=◌, ◌>>◌,
}
use lamund.Store.Tables.{Site, TeamMember, order_by}
use lamund.Store.Sites.{site_before}
use lamund.Store.Accounts.{
  AccountCode, Account, AccountQuota, AccountKey, OwnedApp, Accounts, AccountStore,
}
use lamund.Search.{text_lt}

-- CHECK(role IN ('superadmin','team_manager','member'))
unfoldable pub is_role : Bytes → Bool
is_role role =
    beq role (codes "superadmin") || beq role (codes "team_manager") || beq role (codes "member")

abbrev has_name : Bytes → Account → Bool
has_name username u = beq u.username username

-- INSERT INTO users, with the DEFAULT of each column that is not named
unfoldable pub insert_account : Account → Bytes → Accounts → Result ℕ × Accounts
unfolding is_role
insert_account u approval db =
    if not (is_role u.role)
    then (err engine, db)
    else if any (has_name u.username) db.users
    then (err registered, db)
    else (
      ok db.next_user,
      record db {
        users =
            db.users
            ++ record u {
              id = db.next_user;
              disabled = false;
              theme = [];
              locale = [];
              token_version = 0;
              email_verified = true;
              approval = approval;
              github_id = 0;
              google_id = [];
              mfa_secret = [];
              mfa_enabled = false;
              mfa_last_step = 0;
            }
              ∷ [];
        next_user = suc db.next_user;
      },
    )

-- The default role, and the name in lower case without blanks around it.
unfoldable pub clean_account : Account → Account
clean_account u = record u {
  role = if is_empty u.role then codes "member" else u.role;
  username = lower (trim_space u.username);
}

unfoldable pub create_account : Account → Bytes → AccountStore ℕ
create_account u approval = exec (insert_account (clean_account u) approval)

unfoldable pub create_user : Account → AccountStore ℕ
create_user u = create_account u (codes "approved")

unfoldable pub create_user_pending : Account → AccountStore ℕ
create_user_pending u = create_account u (codes "pending")

-- UPDATE users SET ... WHERE id=?, by what is set
pub data AccountChange : Type 0 where
  set_user_role set_approval set_user_password set_google_id set_mfa_secret : Bytes → AccountChange
  set_email_verified set_user_disabled : Bool → AccountChange
  set_github_id set_mfa_last_step : ℕ → AccountChange
  update_user_profile set_user_prefs : Bytes → Bytes → AccountChange
  bump_token_version enable_mfa : AccountChange

unfoldable pub account_with : AccountChange → Account → Account
account_with (set_user_role role) u = record u { role = role }
account_with (set_approval status) u = record u { approval = status }
account_with (set_user_password password_hash) u = record u { password_hash = password_hash }
account_with (set_google_id sub) u = record u { google_id = sub }
account_with (set_email_verified verified) u = record u { email_verified = verified }
account_with (set_user_disabled disabled) u = record u { disabled = disabled }
account_with (set_github_id gh_id) u = record u { github_id = gh_id }
account_with (update_user_profile name email) u = record u { name = name; email = email }
account_with (set_user_prefs theme locale) u = record u { theme = theme; locale = locale }
account_with (set_mfa_secret secret) u = record u { mfa_secret = secret }
account_with (set_mfa_last_step step) u = record u { mfa_last_step = step }
account_with enable_mfa u = record u { mfa_enabled = true }
account_with bump_token_version u = record u { token_version = suc u.token_version }

-- The CHECK of the table, of a row that there is
unfoldable pub is_allowed : AccountChange → Bool
unfolding is_role
is_allowed (set_user_role role) = is_role role
is_allowed change = true

abbrev has_id : ℕ → Account → Bool
has_id id u = u.id == id

-- `affectedID` wants a row.
unfoldable pub update_row : ℕ → AccountChange → Accounts → Result Unit × Accounts
unfolding is_allowed account_with
update_row id change db =
    if not (any (has_id id) db.users)
    then (err not_found, db)
    else if not (is_allowed change)
    then (err engine, db)
    else (
      ok tt,
      record db { users = map (λ u. if u.id == id then account_with change u else u) db.users },
    )

unfoldable pub update_account : ℕ → AccountChange → AccountStore Unit
update_account id change = exec (update_row id change)

abbrev account_id : Option Account → Option ℕ
account_id none = none
account_id (some u) = some u.id

-- An error of the query is no user, too.
abbrev or_none : {A : Type 0} → Result (Option A) × Conn Accounts → Option A × Conn Accounts
or_none (ok o, c) = (o, c)
or_none (err e, c) = (none, c)

unfoldable pub get_user_id_by_github_id : ℕ → Conn Accounts → Option ℕ × Conn Accounts
get_user_id_by_github_id gh_id c =
    if gh_id == 0
    then (none, c)
    else or_none (query (λ db. account_id (find (λ u. u.github_id == gh_id) db.users)) c)

unfoldable pub get_user_id_by_google_id : Bytes → Conn Accounts → Option ℕ × Conn Accounts
get_user_id_by_google_id sub c =
    if is_empty sub
    then (none, c)
    else or_none (query (λ db. account_id (find (λ u. beq u.google_id sub) db.users)) c)

-- DELETE FROM <table> WHERE user_id=?, of the tables in the order of the loop
pub data UserTable : Type 0 where
  of_team_members of_quotas of_api_keys of_connections of_recovery_codes : UserTable

unfoldable pub delete_from : UserTable → ℕ → Accounts → Result Unit × Accounts
delete_from of_team_members id db =
    (ok tt, record db { team_members = select (λ m. not (m.user_id == id)) db.team_members })
delete_from of_quotas id db =
    (ok tt, record db { quotas = select (λ q. not (q.user_id == id)) db.quotas })
delete_from of_api_keys id db =
    (ok tt, record db { api_keys = select (λ k. not (k.user_id == id)) db.api_keys })
delete_from of_connections id db =
    (ok tt, record db { connections = select (λ u. not (u == id)) db.connections })
delete_from of_recovery_codes id db =
    (ok tt, record db { recovery_codes = select (λ k. not (k.user_id == id)) db.recovery_codes })

unfoldable pub get_account : ℕ → AccountStore (Option Account)
get_account id = query (λ db. find (has_id id) db.users)

unfoldable pub list_users : AccountStore (List Account)
list_users = query (λ db. order_by (λ u v. text_lt u.username v.username) db.users)

unfoldable pub count_users : AccountStore ℕ
count_users = query (λ db. length db.users)

unfoldable pub count_users_by_role : Bytes → AccountStore ℕ
count_users_by_role role = query (λ db. length (select (λ u. beq u.role role) db.users))

-- INSERT ... ON CONFLICT(user_id) DO UPDATE
unfoldable pub put_quota : AccountQuota → List AccountQuota → List AccountQuota
put_quota q [] = q ∷ []
put_quota q (r ∷ l) = let rest = put_quota q l in if r.user_id == q.user_id then q ∷ l else r ∷ rest

unfoldable pub set_quota : AccountQuota → AccountStore Unit
set_quota q = exec (λ db. (ok tt, record db { quotas = put_quota q db.quotas }))

unfoldable pub get_quota : ℕ → AccountStore (Option AccountQuota)
get_quota user_id = query (λ db. find (λ q. q.user_id == user_id) db.quotas)

unfoldable pub count_teams_owned_by_user : ℕ → AccountStore ℕ
count_teams_owned_by_user user_id = query (λ db.
    length (select (λ m. m.user_id == user_id && beq m.role (codes "owner")) db.team_members))

-- key_hash is UNIQUE
unfoldable pub insert_key : ℕ → Bytes → Bytes → Accounts → Result ℕ × Accounts
insert_key user_id name key_hash db =
    if any (λ k. beq k.key_hash key_hash) db.api_keys then (err unique, db) else (
      ok db.next_key,
      record db {
        api_keys =
            db.api_keys
            ++ record { id = db.next_key; user_id = user_id; name = name; key_hash = key_hash }
              ∷ [];
        next_key = suc db.next_key;
      },
    )

unfoldable pub create_api_key : ℕ → Bytes → Bytes → AccountStore ℕ
create_api_key user_id name key_hash = exec (insert_key user_id name key_hash)

unfoldable pub list_api_keys : ℕ → AccountStore (List AccountKey)
list_api_keys user_id =
    query (λ db. order_by (λ j k. ltb j.id k.id) (select (λ k. k.user_id == user_id) db.api_keys))

unfoldable pub is_key : ℕ → ℕ → AccountKey → Bool
is_key id user_id k = k.id == id && k.user_id == user_id

unfoldable pub delete_api_key : ℕ → ℕ → AccountStore Unit
delete_api_key id user_id = exec (λ db.
    if not (any (is_key id user_id) db.api_keys)
    then (err not_found, db)
    else (ok tt, record db { api_keys = select (λ k. not (is_key id user_id k)) db.api_keys }))

-- owner_type='user' AND owner_id=?
abbrev is_personal : ℕ → Bytes → ℕ → Bool
is_personal user_id owner_type owner_id = beq owner_type (codes "user") && owner_id == user_id

unfoldable pub owned_resources : ℕ → Accounts → ℕ
owned_resources id db =
    length (select (λ s. is_personal id s.owner_type s.owner_id || s.user_id == id) db.sites)
    + length (select (λ a. is_personal id a.owner_type a.owner_id || a.user_id == id) db.apps)
    + length (select (λ z. is_personal id z.owner_type z.owner_id) db.dns_zones)

unfoldable pub count_owned_resources : ℕ → AccountStore ℕ
count_owned_resources user_id = query (owned_resources user_id)

unfoldable pub count_user_sites : ℕ → AccountStore ℕ
count_user_sites user_id = query (λ db. length (select (λ s. s.user_id == user_id) db.sites))

unfoldable pub count_user_apps : ℕ → AccountStore ℕ
count_user_apps user_id = query (λ db. length (select (λ a. a.user_id == user_id) db.apps))

unfoldable pub list_sites_by_user : ℕ → AccountStore (List Site)
list_sites_by_user user_id =
    query (λ db. order_by site_before (select (λ s. s.user_id == user_id) db.sites))

unfoldable pub delete_account_row : ℕ → Accounts → Result Unit × Accounts
delete_account_row id db =
    if not (any (has_id id) db.users)
    then (err not_found, db)
    else (ok tt, record db { users = select (λ u. not (has_id id u)) db.users })

abbrev user_tables : List UserTable
user_tables = of_team_members ∷ of_quotas ∷ of_api_keys ∷ of_connections ∷ of_recovery_codes ∷ []

-- for _, tbl := range tables
unfoldable pub delete_each : List UserTable → ℕ → AccountStore Unit
delete_each [] id c = (ok tt, c)
delete_each (t ∷ ts) id c = (or_rollback (exec (delete_from t id)) >> delete_each ts id) c

unfoldable pub delete_user : ℕ → AccountStore Unit
delete_user id = do
  begin
  delete_each user_tables id
  or_rollback (exec (delete_account_row id))
  commit
