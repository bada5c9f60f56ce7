-- ===== src/Store/Zones.antt =====
-- internal/store/dns.go: the operations on zones, records and the settings.
pub mod Changes
pub mod Atomic
pub mod Sound
pub mod Runs
use lamund.Prelude.{
  ℕ, Bool, true, false, Option, none, some, List, ◌==◌, if◌then◌else◌, Bytes, codes, select, any,
  lower, is_empty, trim_space,
}
use lamund.Access.Totp.{upper}
use lamund.Domain.{DomainError, validate_domain}
use lamund.Dns.Types.{DnsZone, DnsRecord, DnsSettings}
use lamund.Store.Conn.{
  Result, ok, err, StoreError, unique, registered, not_found, bad_domain, Action, begin, commit,
  exec, query, pure, raise, or_rollback, unless, ◌>>=◌, ◌>>◌,
}
use lamund.Store.Tables.{Tables, order_by, domain_before, record_before}
use lamund.Store.Rows.{
  bump_serial, zone_of, insert_zone, insert_record, delete_records_of, delete_zone_row, is_record,
  update_record, delete_records, is_same,
}

abbrev pub Store : Type 0 → Type 0
Store A = Action Tables A

-- strings.ToLower(strings.TrimSpace(s)), and with ToUpper
unfoldable pub clean_name : Bytes → Bytes
clean_name s = lower (trim_space s)

unfoldable pub clean_kind : Bytes → Bytes
clean_kind s = upper (trim_space s)

unfoldable pub get_dns_settings : Store DnsSettings
get_dns_settings = query (λ db. db.settings)

unfoldable pub set_dns_settings : DnsSettings → Store Unit
set_dns_settings d = exec (λ db. (ok tt, record db { settings = d }))

abbrev or_default : ℕ → ℕ → ℕ
or_default d n = if n == 0 then d else n

-- The defaults of a new zone, its domain made lower case.
unfoldable pub with_defaults : DnsZone → DnsZone
with_defaults z = record z {
  domain = clean_name z.domain;
  owner_type = if is_empty z.owner_type then codes "user" else z.owner_type;
  owner_id = if is_empty z.owner_type then z.user_id else z.owner_id;
  serial = or_default 1 z.serial;
  refresh = or_default 7200 z.refresh;
  retry = or_default 3600 z.retry;
  expire = or_default 1209600 z.expire;
  minimum = or_default 3600 z.minimum;
}

abbrev pub checked : Option DomainError → Store Unit
checked none = pure tt
checked (some e) = raise (bad_domain e)

-- The message for a violated UNIQUE constraint.
abbrev named : StoreError → StoreError
named unique = registered
named e = e

abbrev renamed : Result ℕ × Tables → Result ℕ × Tables
renamed (ok n, db) = (ok n, db)
renamed (err e, db) = (err (named e), db)

abbrev name_server : ℕ → Bytes → DnsRecord
name_server zone_id ns = record {
  id = 0;
  zone_id = zone_id;
  name = codes "@";
  kind = codes "NS";
  value = ns;
  ttl = 3600;
  priority = 0;
}

abbrev pub forget : {A : Type 0} → Result A × Tables → Result Unit × Tables
forget (ok a, db) = (ok tt, db)
forget (err e, db) = (err e, db)

-- The record of a configured name server.
unfoldable pub insert_server : ℕ → Bytes → Tables → Result Unit × Tables
insert_server zone_id ns db = forget (insert_record (name_server zone_id ns) db)

unfoldable pub insert_named : DnsZone → Tables → Result ℕ × Tables
insert_named z db = renamed (insert_zone z db)

-- the transaction of CreateDNSZoneWithSettings
unfoldable pub insert_dns_zone : DnsZone → DnsSettings → Store ℕ
insert_dns_zone z settings = do
  begin
  id ← or_rollback (exec (insert_named z))
  or_rollback (unless (is_empty settings.ns1) (exec (insert_server id settings.ns1)))
  or_rollback (unless (is_empty settings.ns2) (exec (insert_server id settings.ns2)))
  commit
  pure id

unfoldable pub create_dns_zone_with_settings : DnsZone → DnsSettings → Store ℕ
create_dns_zone_with_settings z settings = do
  checked (validate_domain (with_defaults z).domain)
  insert_dns_zone (with_defaults z) settings

unfoldable pub create_dns_zone : DnsZone → Store ℕ
create_dns_zone z = do create_dns_zone_with_settings z (← get_dns_settings)

unfoldable pub get_dns_zone : Bytes → Store (Option DnsZone)
get_dns_zone domain = query (λ db. zone_of (clean_name domain) db.zones)

unfoldable pub list_dns_zones : Store (List DnsZone)
list_dns_zones = query (λ db. order_by domain_before db.zones)

unfoldable pub list_dns_records : ℕ → Store (List DnsRecord)
list_dns_records zone_id =
    query (λ db. order_by record_before (select (λ r. r.zone_id == zone_id) db.records))

-- if n, _ := res.RowsAffected(); n == 0 { return fmt.Errorf("... tidak ditemukan") }
unfoldable pub some_row : Result ℕ × Tables → Result Unit × Tables
some_row (ok n, db) = if n == 0 then (err not_found, db) else (ok tt, db)
some_row (err e, db) = (err e, db)

unfoldable pub delete_dns_zone : Bytes → Store Unit
delete_dns_zone domain0 = do
  let domain = clean_name domain0
  begin
  or_rollback (exec (delete_records_of domain))
  or_rollback (exec (λ db. some_row (delete_zone_row domain db)))
  commit

unfoldable pub clean_record : DnsRecord → DnsRecord
clean_record r = record r { name = clean_name r.name; kind = clean_kind r.kind }

unfoldable pub add_dns_record : DnsRecord → Store ℕ
add_dns_record r = do
  begin
  id ← or_rollback (exec (insert_record (clean_record r)))
  or_rollback (exec (bump_serial r.zone_id))
  commit
  pure id

unfoldable pub update_dns_record : ℕ → ℕ → Bytes → ℕ → ℕ → Store Unit
update_dns_record zone_id id value ttl priority = do
  begin
  or_rollback (exec (λ db. some_row (update_record zone_id id value ttl priority db)))
  or_rollback (exec (bump_serial zone_id))
  commit

unfoldable pub delete_dns_record : ℕ → ℕ → Store Unit
delete_dns_record zone_id id = do
  begin
  or_rollback (exec (λ db. some_row (delete_records (is_record zone_id id) db)))
  or_rollback (exec (bump_serial zone_id))
  commit

unfoldable pub delete_dns_records_matching : ℕ → Bytes → Bytes → Bytes → Store ℕ
delete_dns_records_matching zone_id name kind value = do
  begin
  n ←
      or_rollback
        (exec (delete_records (is_same zone_id (clean_name name) (clean_kind kind) value)))
  or_rollback (unless (n == 0) (exec (bump_serial zone_id)))
  commit
  pure n

-- The result is whether a record was added.
unfoldable pub add_dns_record_if_absent : DnsRecord → Store Bool
add_dns_record_if_absent r0 = do
  let r = clean_record r0
  found ← query (λ db. any (is_same r.zone_id r.name r.kind r.value) db.records)
  if found then pure false else (do add_dns_record r; pure true)

-- AllDNSData, the records in one list
unfoldable pub all_dns_data : Store (List DnsZone × List DnsRecord × DnsSettings)
all_dns_data = do
  zones ← list_dns_zones
  recs ← query (λ db. order_by record_before db.records)
  settings ← get_dns_settings
  pure (zones, recs, settings)
