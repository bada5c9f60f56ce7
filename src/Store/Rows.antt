-- ===== src/Store/Rows.antt =====
-- The statements of internal/store/dns.go, as functions on the tables.
use lamund.Prelude.{
  ℕ, suc, ◌+◌, Bool, false, not, ◌&&◌, Option, none, some, List, [], ◌∷◌, ◌++◌, map, ◌==◌,
  if◌then◌else◌, Bytes, beq, length, select, any, find,
}
use lamund.Dns.Types.{DnsZone, DnsRecord}
use lamund.Store.Conn.{Result, ok, err, unique}
use lamund.Store.Tables.{Tables}

-- bumpSerial: UPDATE dns_zones SET serial = serial + 1 WHERE id=?
unfoldable pub bump_row : ℕ → DnsZone → DnsZone
bump_row id z = if z.id == id then record z { serial = z.serial + 1 } else z

unfoldable pub bump_serial : ℕ → Tables → Result Unit × Tables
unfolding bump_row
bump_serial id db = (ok tt, record db { zones = map (bump_row id) db.zones })

-- SELECT ... FROM dns_zones WHERE domain=?
unfoldable pub zone_of : Bytes → List DnsZone → Option DnsZone
zone_of domain = find (λ z. beq z.domain domain)

-- INSERT INTO dns_zones: the domain is UNIQUE
unfoldable pub insert_zone : DnsZone → Tables → Result ℕ × Tables
insert_zone z db = if any (λ y. beq y.domain z.domain) db.zones then (err unique, db) else (
  ok db.next_zone,
  record db {
    zones = db.zones ++ record z { id = db.next_zone } ∷ [];
    next_zone = suc db.next_zone;
  },
)

-- INSERT INTO dns_records
unfoldable pub insert_record : DnsRecord → Tables → Result ℕ × Tables
insert_record r db = (
  ok db.next_record,
  record db {
    records = db.records ++ record r { id = db.next_record } ∷ [];
    next_record = suc db.next_record;
  },
)

abbrev pub lies_in : Option DnsZone → DnsRecord → Bool
lies_in none r = false
lies_in (some z) r = r.zone_id == z.id

-- DELETE FROM dns_records WHERE zone_id=(SELECT id FROM dns_zones WHERE domain=?)
unfoldable pub delete_records_of : Bytes → Tables → Result Unit × Tables
unfolding zone_of
delete_records_of domain db = (
  ok tt,
  record db { records = select (λ r. not (lies_in (zone_of domain db.zones) r)) db.records },
)

-- DELETE FROM dns_zones WHERE domain=?; the result is RowsAffected
unfoldable pub delete_zone_row : Bytes → Tables → Result ℕ × Tables
delete_zone_row domain db = (
  ok (length (select (λ z. beq z.domain domain) db.zones)),
  record db { zones = select (λ z. not (beq z.domain domain)) db.zones },
)

-- The condition WHERE id=? AND zone_id=?
unfoldable pub is_record : ℕ → ℕ → DnsRecord → Bool
is_record zone_id id r = r.id == id && r.zone_id == zone_id

abbrev pub changed : (DnsRecord → Bool) → (DnsRecord → DnsRecord) → DnsRecord → DnsRecord
changed p f r = if p r then f r else r

-- UPDATE dns_records SET value=?, ttl=?, priority=?
unfoldable pub update_record : ℕ → ℕ → Bytes → ℕ → ℕ → Tables → Result ℕ × Tables
unfolding is_record
update_record zone_id id value ttl priority db = (
  ok (length (select (is_record zone_id id) db.records)),
  record db {
    records =
        map
          (changed (is_record zone_id id)
            (λ r. record r { value = value; ttl = ttl; priority = priority }))
          db.records;
  },
)

-- DELETE FROM dns_records WHERE ...
unfoldable pub delete_records : (DnsRecord → Bool) → Tables → Result ℕ × Tables
delete_records p db =
    (ok (length (select p db.records)), record db { records = select (λ r. not (p r)) db.records })

-- The condition WHERE zone_id=? AND name=? AND type=? AND value=?
unfoldable pub is_same : ℕ → Bytes → Bytes → Bytes → DnsRecord → Bool
is_same zone_id name kind value r =
    r.zone_id == zone_id && (beq r.name name && (beq r.kind kind && beq r.value value))
