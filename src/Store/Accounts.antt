-- ===== src/Store/Accounts.antt =====
-- The tables that internal/store/users.go reads, in full where the file writes them. The columns
-- created_at and last_used_at are left out.
use lamund.Prelude.{ℕ, Bool, List, Bytes}
use lamund.Dns.Types.{DnsZone}
use lamund.Store.Conn.{Action}
use lamund.Store.Tables.{Site, TeamMember}

pub record Account : Type 0 where
  pub id : ℕ
  pub username : Bytes
  pub password_hash : Bytes
  pub role : Bytes
  pub disabled : Bool
  pub name : Bytes
  pub email : Bytes
  pub theme : Bytes
  pub locale : Bytes
  pub token_version : ℕ
  pub email_verified : Bool
  pub approval : Bytes
  pub github_id : ℕ
  pub google_id : Bytes
  pub mfa_secret : Bytes
  pub mfa_enabled : Bool
  pub mfa_last_step : ℕ

pub record AccountQuota : Type 0 where
  pub user_id : ℕ
  pub max_sites : ℕ
  pub max_storage_mb : ℕ
  pub max_bandwidth_gb : ℕ
  pub max_teams : ℕ
  pub max_memory_mb : ℕ
  pub max_cpu_percent : ℕ
  pub max_apps : ℕ

pub record AccountKey : Type 0 where
  pub id : ℕ
  pub user_id : ℕ
  pub name : Bytes
  pub key_hash : Bytes

-- Of the table apps: the columns that say whose an app is.
pub record OwnedApp : Type 0 where
  pub user_id : ℕ
  pub owner_type : Bytes
  pub owner_id : ℕ

pub record AccountCode : Type 0 where
  pub id : ℕ
  pub user_id : ℕ
  pub code_hash : Bytes
  pub used : Bool

-- A connection is the user_id of its row.
pub record Accounts : Type 0 where
  pub users : List Account
  pub quotas : List AccountQuota
  pub api_keys : List AccountKey
  pub team_members : List TeamMember
  pub connections : List ℕ
  pub recovery_codes : List AccountCode
  pub sites : List Site
  pub apps : List OwnedApp
  pub dns_zones : List DnsZone
  pub next_user : ℕ
  pub next_key : ℕ
  pub next_code : ℕ

abbrev pub AccountStore : Type 0 → Type 0
AccountStore A = Action Accounts A
