-- ===== src/Store/Zones/Sound.antt =====
-- The tables of zones and records stay well formed.
use lamund.Domain.{validate_domain}
use lamund.Dns.Types.{DnsZone, DnsRecord}
use lamund.Store.Tables.{Tables}
use lamund.Store.Zones.{insert_named}
use lamund.Store.Rows.{
  is_record, delete_zone_row, changed, update_record, bump_row, insert_zone, insert_record,
  bump_serial,
}
use lamund.Prelude.{
  ℕ, suc, ◌<◌, ◌≡◌, refl, ◌≢◌, inl, inr, Bool, false, not, none, arith, ◌==◌, Bool-cases, Apart,
  Apart-snoc, Apart-select, All-mono, map-All, Apart-map, any-All, All-both, Bytes, beq, beq_refl,
  select, any, All, All-append, All-select,
}

abbrev IsRow : ℕ → DnsZone → Type 0
IsRow next z = (z.id < next) × (validate_domain z.domain ≡ none)

abbrev Unlike : DnsZone → DnsZone → Type 0
Unlike y z = (y.id ≢ z.id) × (y.domain ≢ z.domain)

abbrev Numbered : ℕ → DnsRecord → Type 0
Numbered next r = r.id < next

abbrev pub Other : DnsRecord → DnsRecord → Type 0
Other q r = q.id ≢ r.id

-- Numbers and domains stand once, the next numbers are free, and a domain is a host name.
abbrev pub IsSound : Tables → Type 0
IsSound db =
    All (IsRow db.next_zone) db.zones
    × Apart Unlike db.zones
    × All (Numbered db.next_record) db.records
    × Apart Other db.records

pub insert_zone-IsSound :
    (z : DnsZone) (db : Tables)
    → validate_domain z.domain ≡ none
    → IsSound db
    → IsSound (insert_named z db).1
unfolding insert_named insert_zone
insert_zone-IsSound z db valid (rows, apart, recs, other) =
    elim (Bool-cases (any (λ y. beq y.domain z.domain) db.zones)) [
      | inl e ↦ rw e (rows, apart, recs, other)
      | inr e ↦
          let fresh = any-All (λ (y : DnsZone). beq y.domain z.domain) db.zones e in
          rw e (
            All-append (IsRow (suc db.next_zone)) db.zones _
                (All-mono (IsRow db.next_zone) (IsRow (suc db.next_zone)) db.zones
                  (λ y h. (omega (arith, h.0), h.1)) rows)
                ((omega arith, valid), tt),
            Apart-snoc Unlike db.zones _ apart (
                All-both (IsRow db.next_zone) (λ y. beq y.domain z.domain ≡ false)
                  (λ y. Unlike y (record z { id = db.next_zone })) db.zones
                  (λ y h k. (λ d. omega (arith, h.0, d), λ d. cc (rw (d, beq_refl z.domain) at k)))
                  rows fresh),
            recs,
            other,
          )
    ]

pub insert_record-IsSound :
    (r : DnsRecord) (db : Tables) → IsSound db → IsSound (insert_record r db).1
unfolding insert_record
insert_record-IsSound r db (rows, apart, recs, other) = (
  rows,
  apart,
  All-append (Numbered (suc db.next_record)) db.records _
      (All-mono (Numbered db.next_record) (Numbered (suc db.next_record)) db.records
        (λ q h. omega (arith, h)) recs)
      ((omega arith), tt),
  Apart-snoc Other db.records _ other (
      All-mono (Numbered db.next_record) (λ q. q.id ≢ db.next_record) db.records
        (λ q h e. omega (arith, h, e)) recs),
)

bump_row-id : (id : ℕ) (z : DnsZone) → (bump_row id z).id ≡ z.id
unfolding bump_row
bump_row-id id z = ground arith

bump_row-domain : (id : ℕ) (z : DnsZone) → (bump_row id z).domain ≡ z.domain
unfolding bump_row
bump_row-domain id z = elim (Bool-cases (z.id == id)) [ inl e ↦ rw e refl | inr e ↦ rw e refl ]

pub bump_serial-IsSound : (id : ℕ) (db : Tables) → IsSound db → IsSound (bump_serial id db).1
unfolding bump_serial
bump_serial-IsSound id db (rows, apart, recs, other) = (
  map-All (IsRow db.next_zone) (IsRow db.next_zone) (bump_row id) db.zones
      (λ z h. rw (bump_row-id id z, bump_row-domain id z) h) rows,
  Apart-map Unlike (bump_row id) db.zones
      (λ y z h.
        rw (bump_row-id id y, bump_row-id id z, bump_row-domain id y, bump_row-domain id z) h)
      apart,
  recs,
  other,
)

-- A statement that only removes records keeps the rest.
pub keep_records-IsSound :
    (p : DnsRecord → Bool) (db : Tables)
    → IsSound db
    → IsSound (record db { records = select p db.records })
keep_records-IsSound p db (rows, apart, recs, other) = (
  rows,
  apart,
  All-select (Numbered db.next_record) p db.records recs,
  Apart-select Other p db.records other,
)

pub delete_zone_row-IsSound :
    (domain : Bytes) (db : Tables) → IsSound db → IsSound (delete_zone_row domain db).1
unfolding delete_zone_row
delete_zone_row-IsSound domain db (rows, apart, recs, other) =
    let p = λ (z : DnsZone). not (beq z.domain domain) in
    (
      All-select (IsRow db.next_zone) p db.zones rows,
      Apart-select Unlike p db.zones apart,
      recs,
      other,
    )

changed-id :
    (p : DnsRecord → Bool) (value : Bytes) (ttl priority : ℕ) (r : DnsRecord)
    → (changed p (λ r. record r { value = value; ttl = ttl; priority = priority }) r).id ≡ r.id
changed-id p value ttl priority r = elim (Bool-cases (p r)) [
  | inl e ↦ rw e refl
  | inr e ↦ rw e refl
]

pub update_record-IsSound :
    (zone_id id : ℕ) (value : Bytes) (ttl priority : ℕ) (db : Tables)
    → IsSound db
    → IsSound (update_record zone_id id value ttl priority db).1
unfolding update_record
update_record-IsSound zone_id id value ttl priority db (rows, apart, recs, other) =
    let p = is_record zone_id id in
    let f =
      changed p (λ (r : DnsRecord). record r { value = value; ttl = ttl; priority = priority }) in
    (
      rows,
      apart,
      map-All (Numbered db.next_record) (Numbered db.next_record) f db.records
          (λ r h. rw (changed-id p value ttl priority r) h) recs,
      Apart-map Other f db.records
          (λ q r h. rw (changed-id p value ttl priority q, changed-id p value ttl priority r) h)
          other,
    )
