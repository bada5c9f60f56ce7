-- ===== src/Store/Zones/Changes.antt =====
-- What the operations of internal/store/dns.go promise: each is one change of the tables, without
-- connection, statements or transactions.
use lamund.Domain.{DomainError, validate_domain}
use lamund.Dns.Types.{DnsSettings, DnsZone, DnsRecord}
use lamund.Store.Zones.{
  set_dns_settings, delete_dns_records_matching, delete_dns_record, update_dns_record,
  add_dns_record_if_absent, add_dns_record, delete_dns_zone, clean_kind, clean_name,
  create_dns_zone, Store, with_defaults, insert_named, clean_record, insert_server, some_row,
}
use lamund.Store.Rows.{
  is_record, update_record, is_same, insert_record, delete_records, delete_records_of,
  delete_zone_row, bump_serial,
}
use lamund.Store.Tables.{Tables}
use lamund.Prelude.{
  ℕ, Bool, true, false, Option, none, some, ◌==◌, if◌then◌else◌, Bytes, any, is_empty,
}
use lamund.Store.Conn.{◌>>=◌, pure, bad_domain, err, Result, ok}
use lamund.Store.Conn.Transaction.{Change, chain}

abbrev pub put_zone : DnsZone → DnsSettings → Change Tables ℕ
put_zone z settings db =
    chain
      (λ id. (λ d.
        chain
          (λ u. (λ d'.
            chain (λ v. (λ d''. (ok id, d'')))
              (if is_empty settings.ns2 then (ok tt, d') else insert_server id settings.ns2 d')))
          (if is_empty settings.ns1 then (ok tt, d) else insert_server id settings.ns1 d)))
      (insert_named z db)

abbrev pub put_record : DnsRecord → Change Tables ℕ
put_record r db =
    chain (λ id d. chain (λ _ d'. (ok id, d')) (bump_serial r.zone_id d))
      (insert_record (clean_record r) db)

-- A change of records that must find a row, and the new serial number of their zone.
abbrev pub with_bump : ℕ → Change Tables ℕ → Change Tables Unit
with_bump zone_id g db =
    chain (λ _ d. chain (λ _ d'. (ok tt, d')) (bump_serial zone_id d)) (some_row (g db))

abbrev pub drop_zone : Bytes → Change Tables Unit
drop_zone domain db =
    chain (λ _ d. chain (λ _ d'. (ok tt, d')) (some_row (delete_zone_row domain d)))
      (delete_records_of domain db)

abbrev pub drop_matching : ℕ → (DnsRecord → Bool) → Change Tables ℕ
drop_matching zone_id p db =
    chain (λ n d. chain (λ _ d'. (ok n, d')) (if n == 0 then (ok tt, d) else bump_serial zone_id d))
      (delete_records p db)

abbrev pub put_if_absent : DnsRecord → Change Tables Bool
put_if_absent r db =
    let same = clean_record r in
    if any (is_same same.zone_id same.name same.kind same.value) db.records
    then (ok false, db)
    else chain (λ _ d. (ok true, d)) (put_record same db)

-- The calls that change the tables.
pub data Command : Type 0 where
  create : DnsZone → Command
  remove : Bytes → Command
  add : DnsRecord → Command
  add_absent : DnsRecord → Command
  update : ℕ → ℕ → Bytes → ℕ → ℕ → Command
  delete : ℕ → ℕ → Command
  delete_same : ℕ → Bytes → Bytes → Bytes → Command
  set : DnsSettings → Command

abbrev pub gated : Option DomainError → Change Tables ℕ → Change Tables ℕ
gated none g db = g db
gated (some e) g db = (err (bad_domain e), db)

abbrev pub created : DnsZone → DnsSettings → Change Tables ℕ
created z settings = gated (validate_domain z.domain) (put_zone z settings)

abbrev pub plain : {A : Type 0} → Result A × Tables → Result Unit × Tables
plain s = chain (λ _ d. (ok tt, d)) s

-- The change of each call, its result left out.
unfoldable pub change_of : Command → Change Tables Unit
change_of (create z) db = plain (created (with_defaults z) db.settings db)
change_of (remove domain) db = drop_zone (clean_name domain) db
change_of (add r) db = plain (put_record r db)
change_of (add_absent r) db = plain (put_if_absent r db)
change_of (update zone_id id value ttl priority) db =
    with_bump zone_id (update_record zone_id id value ttl priority) db
change_of (delete zone_id id) db = with_bump zone_id (delete_records (is_record zone_id id)) db
change_of (delete_same zone_id name kind value) db =
    plain (drop_matching zone_id (is_same zone_id (clean_name name) (clean_kind kind) value) db)
change_of (set settings) db = (ok tt, record db { settings = settings })

-- The calls themselves.
unfoldable pub apply : Command → Store Unit
apply (create z) = create_dns_zone z >>= λ _. pure tt
apply (remove domain) = delete_dns_zone domain
apply (add r) = add_dns_record r >>= λ _. pure tt
apply (add_absent r) = add_dns_record_if_absent r >>= λ _. pure tt
apply (update zone_id id value ttl priority) = update_dns_record zone_id id value ttl priority
apply (delete zone_id id) = delete_dns_record zone_id id
apply (delete_same zone_id name kind value) =
    delete_dns_records_matching zone_id name kind value >>= λ _. pure tt
apply (set settings) = set_dns_settings settings
