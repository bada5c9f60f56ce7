-- ===== src/Store/Tables.antt =====
-- The tables of internal/store/migrate.go that are modelled, and what SQLite does for their
-- statements: the rows in the order of their insertion, AUTOINCREMENT and ORDER BY. The columns
-- created_at are left out, and a serial number is not bounded.
use lamund.Prelude.{ℕ, Bool, ◌&&◌, ◌||◌, List, [], ◌∷◌, if◌then◌else◌, Bytes, beq}
use lamund.Dns.Types.{DnsZone, DnsRecord, DnsSettings}
use lamund.Search.{text_lt}

pub record Team : Type 0 where
  pub id : ℕ
  pub name : Bytes
  pub slug : Bytes

pub record TeamMember : Type 0 where
  pub team_id : ℕ
  pub user_id : ℕ
  pub role : Bytes

pub record Invite : Type 0 where
  pub token : Bytes
  pub team_id : ℕ
  pub role : Bytes
  pub expires_at : Bytes
  pub email : Bytes

-- Of the table users: the columns that the teams read.
pub record Person : Type 0 where
  pub id : ℕ
  pub username : Bytes

-- A site, and a domain that is its alias.
pub record Site : Type 0 where
  pub id : ℕ
  pub domain : Bytes
  pub kind : Bytes
  pub proxy_target : Bytes
  pub root_path : Bytes
  pub status : Bytes
  pub user_id : ℕ
  pub config : Bytes
  pub owner_type : Bytes
  pub owner_id : ℕ
  pub repo_url : Bytes
  pub branch : Bytes
  pub build_cmd : Bytes
  pub output_dir : Bytes

pub record SiteDomain : Type 0 where
  pub site_id : ℕ
  pub domain : Bytes

-- One row of the history of deployments; `is_open` is an empty finished_at.
pub record Deploy : Type 0 where
  pub id : ℕ
  pub domain : Bytes
  pub status : Bytes
  pub trigger : Bytes
  pub commit : Bytes
  pub message : Bytes
  pub is_open : Bool

-- The numbers are those that AUTOINCREMENT gives next.
pub record Tables : Type 0 where
  pub zones : List DnsZone
  pub records : List DnsRecord
  pub settings : DnsSettings
  pub next_zone : ℕ
  pub next_record : ℕ
  pub people : List Person
  pub teams : List Team
  pub members : List TeamMember
  pub invites : List Invite
  pub next_team : ℕ
  pub sites : List Site
  pub site_domains : List SiteDomain
  pub deploys : List Deploy
  pub next_site : ℕ
  pub next_deploy : ℕ

-- ORDER BY, with equal rows in the order of the table
module _ {A : Type 0} (before : A → A → Bool) where
  unfoldable pub insert_row : A → List A → List A
  insert_row x [] = x ∷ []
  insert_row x (y ∷ l) = let rest = insert_row x l in if before y x then y ∷ rest else x ∷ y ∷ l

  unfoldable pub order_by : List A → List A
  unfolding insert_row
  order_by [] = []
  order_by (x ∷ l) = insert_row x (order_by l)

unfoldable pub domain_before : DnsZone → DnsZone → Bool
domain_before y z = text_lt y.domain z.domain

unfoldable pub record_before : DnsRecord → DnsRecord → Bool
record_before q r = text_lt q.name r.name || (beq q.name r.name && text_lt q.kind r.kind)
