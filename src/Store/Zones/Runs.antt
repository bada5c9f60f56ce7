-- ===== src/Store/Zones/Runs.antt =====
-- Any calls of the store, in any order and whatever the engine refuses.
use lamund.Domain.{validate_domain, DomainError}
use lamund.Store.Zones.Atomic.{apply-Closed}
use lamund.Dns.Types.{DnsSettings, DnsRecord, DnsZone}
use lamund.Store.Rows.{
  delete_zone_row, zone_of, is_record, update_record, is_same, insert_record, bump_serial,
  delete_records, delete_records_of,
}
use lamund.Store.Tables.{Tables}
use lamund.Store.Zones.{
  clean_kind, clean_name, insert_named, clean_record, name_server, with_defaults, some_row,
  insert_server,
}
use lamund.Store.Conn.{err, Conn, Result}
use lamund.Prelude.{
  ℕ, ◌≡◌, refl, inl, inr, Bool, not, Option, none, some, List, [], ◌∷◌, ◌==◌, if◌then◌else◌,
  Bool-cases, if-both, Bytes, select, any, is_empty,
}
use lamund.Store.Conn.Transaction.{Change, chain-keeps, Closed-keeps}
use lamund.Store.Conn.{ok, err, Result, Conn}
use lamund.Store.Rows.{lies_in}
use lamund.Store.Zones.Changes.{
  put_record, put_if_absent, drop_matching, drop_zone, plain, with_bump, Command, create, remove,
  add, add_absent, update, delete, delete_same, set, apply, change_of, gated, put_zone, created,
}
use lamund.Store.Zones.Sound.{
  IsSound, insert_zone-IsSound, insert_record-IsSound, bump_serial-IsSound, keep_records-IsSound,
  delete_zone_row-IsSound, update_record-IsSound,
}

some_row-IsSound : (s : Result ℕ × Tables) → IsSound s.1 → IsSound (some_row s).1
unfolding some_row
some_row-IsSound (ok n, db) h = elim (Bool-cases (n == 0)) [ inl e ↦ rw e h | inr e ↦ rw e h ]
some_row-IsSound (err e, db) h = h

with_bump-IsSound :
    (zone_id : ℕ) (g : Change Tables ℕ) (db : Tables)
    → IsSound (g db).1
    → IsSound (with_bump zone_id g db).1
with_bump-IsSound zone_id g db h =
    chain-keeps IsSound _ (some_row (g db)) (some_row-IsSound (g db) h) (λ _ d k.
      chain-keeps IsSound _ (bump_serial zone_id d) (bump_serial-IsSound zone_id d k) (λ _ d' l. l))

put_record-IsSound : (r : DnsRecord) (db : Tables) → IsSound db → IsSound (put_record r db).1
put_record-IsSound r db h =
    chain-keeps IsSound _ (insert_record (clean_record r) db)
      (insert_record-IsSound (clean_record r) db h)
      (λ _ d k.
        chain-keeps IsSound _ (bump_serial r.zone_id d) (bump_serial-IsSound r.zone_id d k)
          (λ _ d' l. l))

server-IsSound :
    (id : ℕ) (ns : Bytes) (d : Tables)
    → IsSound d
    → IsSound (if is_empty ns then (ok tt, d) else insert_server id ns d).1
unfolding insert_server
server-IsSound id ns d h =
    if-both (λ (s : Result Unit × Tables). IsSound s.1) (is_empty ns) _ _ (λ _. h)
      (λ _.
        chain-keeps IsSound (λ _ d'. (ok tt, d')) (insert_record (name_server id ns) d)
          (insert_record-IsSound (name_server id ns) d h) (λ _ d' k. k))

put_zone-IsSound :
    (z : DnsZone) (settings : DnsSettings) (db : Tables)
    → validate_domain z.domain ≡ none
    → IsSound db
    → IsSound (put_zone z settings db).1
put_zone-IsSound z settings db valid h =
    chain-keeps IsSound _ (insert_named z db) (insert_zone-IsSound z db valid h) (λ id d k.
      chain-keeps IsSound _
        (if is_empty settings.ns1 then (ok tt, d) else insert_server id settings.ns1 d)
        (server-IsSound id settings.ns1 d k)
        (λ _ d' l.
          chain-keeps IsSound _
            (if is_empty settings.ns2 then (ok tt, d') else insert_server id settings.ns2 d')
            (server-IsSound id settings.ns2 d' l) (λ _ d'' m. m)))

gated-IsSound :
    (o : Option DomainError) (g : Change Tables ℕ) (db : Tables)
    → (o ≡ none → IsSound (g db).1)
    → IsSound db
    → IsSound (gated o g db).1
gated-IsSound none g db k h = k refl
gated-IsSound (some e) g db k h = h

drop_zone-IsSound : (domain : Bytes) (db : Tables) → IsSound db → IsSound (drop_zone domain db).1
unfolding delete_records_of
drop_zone-IsSound domain db h =
    let p = λ (r : DnsRecord). not (lies_in (zone_of domain db.zones) r) in
    let d = record db { records = select p db.records } in
    chain-keeps IsSound _ (some_row (delete_zone_row domain d))
      (some_row-IsSound (delete_zone_row domain d)
        (delete_zone_row-IsSound domain d (keep_records-IsSound p db h)))
      (λ _ d' l. l)

delete_records-IsSound :
    (p : DnsRecord → Bool) (db : Tables) → IsSound db → IsSound (delete_records p db).1
unfolding delete_records
delete_records-IsSound p db h = keep_records-IsSound (λ r. not (p r)) db h

drop_matching-IsSound :
    (zone_id : ℕ) (p : DnsRecord → Bool) (db : Tables)
    → IsSound db
    → IsSound (drop_matching zone_id p db).1
drop_matching-IsSound zone_id p db h =
    chain-keeps IsSound _ (delete_records p db) (delete_records-IsSound p db h) (λ n d k.
      chain-keeps IsSound _ (if n == 0 then (ok tt, d) else bump_serial zone_id d)
        (if-both (λ (s : Result Unit × Tables). IsSound s.1) (n == 0) _ _ (λ _. k)
          (λ _. bump_serial-IsSound zone_id d k))
        (λ _ d' l. l))

put_if_absent-IsSound : (r : DnsRecord) (db : Tables) → IsSound db → IsSound (put_if_absent r db).1
put_if_absent-IsSound r db h =
    let same = clean_record r in
    if-both (λ (s : Result Bool × Tables). IsSound s.1)
      (any (is_same same.zone_id same.name same.kind same.value) db.records) _ _ (λ _. h)
      (λ _. chain-keeps IsSound _ (put_record same db) (put_record-IsSound same db h) (λ _ d l. l))

plain-IsSound : {A : Type 0} (s : Result A × Tables) → IsSound s.1 → IsSound (plain s).1
plain-IsSound s h = chain-keeps IsSound _ s h (λ _ d l. l)

change_of-IsSound : (call : Command) (db : Tables) → IsSound db → IsSound (change_of call db).1
unfolding change_of
change_of-IsSound (create z) db h =
    let z' = with_defaults z in
    plain-IsSound (created z' db.settings db) (
      gated-IsSound (validate_domain z'.domain) (put_zone z' db.settings) db
        (λ valid. put_zone-IsSound z' db.settings db valid h) h)
change_of-IsSound (remove domain) db h = drop_zone-IsSound (clean_name domain) db h
change_of-IsSound (add r) db h = plain-IsSound (put_record r db) (put_record-IsSound r db h)
change_of-IsSound (add_absent r) db h =
    plain-IsSound (put_if_absent r db) (put_if_absent-IsSound r db h)
change_of-IsSound (update zone_id id value ttl priority) db h =
    with_bump-IsSound zone_id (update_record zone_id id value ttl priority) db
      (update_record-IsSound zone_id id value ttl priority db h)
change_of-IsSound (delete zone_id id) db h =
    with_bump-IsSound zone_id (delete_records (is_record zone_id id)) db
      (delete_records-IsSound (is_record zone_id id) db h)
change_of-IsSound (delete_same zone_id name kind value) db h =
    plain-IsSound _ (
      drop_matching-IsSound zone_id (is_same zone_id (clean_name name) (clean_kind kind) value) db
        h)
change_of-IsSound (set settings) db h = h

-- The connection after the calls, whatever they returned.
unfoldable pub run : List Command → Conn Tables → Conn Tables
run [] c = c
run (call ∷ calls) c = run calls (apply call c).1

-- From well-formed tables and no open transaction, any calls lead to well-formed tables and no open
-- transaction, whichever statements the engine refuses: numbers and domains of zones stand once,
-- numbers of records too, and each domain is one that ValidateDomain accepts.
pub run-IsSound :
    (calls : List Command) (c : Conn Tables)
    → c.undo ≡ none
    → IsSound c.db
    → ((run calls c).undo ≡ none) × IsSound (run calls c).db
unfolding run
run-IsSound [] c h sound = (h, sound)
run-IsSound (call ∷ calls) c h sound =
    let closed = apply-Closed call c h in
    run-IsSound calls (apply call c).1 closed.1 (
      Closed-keeps IsSound c.db (change_of call c.db) c (apply call c) sound
        (change_of-IsSound call c.db sound) closed)
