-- ===== src/Store/Zones/Atomic.antt =====
-- Every operation is its change, or the engine has refused a statement and nothing has changed.
use lamund.Domain.{DomainError, validate_domain}
use lamund.Store.Rows.{
  delete_zone_row, is_record, bump_serial, delete_records_of, delete_records, update_record,
  insert_record, is_same,
}
use lamund.Store.Tables.{Tables}
use lamund.Dns.Types.{DnsSettings, DnsZone, DnsRecord}
use lamund.Store.Zones.{
  checked, Store, set_dns_settings, some_row, clean_kind, insert_server, clean_record,
  with_defaults, clean_name, insert_named, get_dns_settings, delete_dns_records_matching,
  add_dns_record_if_absent, delete_dns_zone, update_dns_record, add_dns_record, create_dns_zone,
  insert_dns_zone, delete_dns_record, create_dns_zone_with_settings,
}
use lamund.Store.Zones.Changes.{
  put_record, put_zone, put_if_absent, with_bump, created, create, drop_zone, drop_matching,
  Command, change_of, apply,
}
use lamund.Prelude.{
  ℕ, ◌≡◌, refl, ap, inl, inr, true, false, Option, none, some, ◌==◌, if◌then◌else◌, Bool-cases,
  Bytes, any, is_empty,
}
use lamund.Store.Zones.Changes.{
  Command, create, remove, add, add_absent, update, delete, delete_same, set, apply, change_of,
  gated, put_zone, created,
}
use lamund.Store.Conn.{◌>>◌, ◌>>=◌, pure, ok, Conn}
use lamund.Store.Conn.Transaction.{
  Change, Closed, chain, Closed, begin-Closed, Closed-exec, Closed-unless, Closed-query, Closed-map,
  commit-Closed, commit-Closed_last, exec-Closed,
}

add_dns_record-Closed :
    (r : DnsRecord) (c : Conn Tables)
    → c.undo ≡ none
    → Closed c.db (put_record r c.db) c (add_dns_record r c)
unfolding add_dns_record
add_dns_record-Closed r c h = begin-Closed (put_record r) _ c h (λ c1 h1.
    Closed-exec c.db (insert_record (clean_record r)) _ _ c1 h1 (λ id c2 h2.
      Closed-exec c.db (bump_serial r.zone_id) _ _ c2 h2 (λ _ c3 h3. commit-Closed c.db id c3 h3)))

add_dns_record_if_absent-Closed :
    (r : DnsRecord) (c : Conn Tables)
    → c.undo ≡ none
    → Closed c.db (put_if_absent r c.db) c (add_dns_record_if_absent r c)
unfolding add_dns_record_if_absent
add_dns_record_if_absent-Closed r0 c h =
    let r = clean_record r0 in
    let found = λ (db : Tables). any (is_same r.zone_id r.name r.kind r.value) db.records in
    Closed-query found
      (λ b db. if b then (ok false, db) else chain (λ _ d. (ok true, d)) (put_record r db))
      (λ b. if b then pure false else (add_dns_record r >>= λ _. pure true)) c h
      (λ c1 h1. elim (Bool-cases (found c1.db)) [
        | inl e ↦ rw e (refl, h1, inr (refl, refl))
        | inr e ↦ rw e (
            Closed-map c1.db (λ _. true) (put_record r c1.db) c1 (add_dns_record r c1)
              (add_dns_record-Closed r c1 h1))
      ])

delete_dns_records_matching-Closed :
    (zone_id : ℕ) (name kind value : Bytes) (c : Conn Tables)
    → c.undo ≡ none
    → Closed c.db
        (drop_matching zone_id (is_same zone_id (clean_name name) (clean_kind kind) value) c.db)
        c
        (delete_dns_records_matching zone_id name kind value c)
unfolding delete_dns_records_matching
delete_dns_records_matching-Closed zone_id name kind value c h =
    let p = is_same zone_id (clean_name name) (clean_kind kind) value in
    begin-Closed (drop_matching zone_id p) _ c h (λ c1 h1.
      Closed-exec c.db (delete_records p) _ _ c1 h1 (λ n c2 h2.
        Closed-unless c.db (n == 0) (bump_serial zone_id) _ _ c2 h2
          (λ _ c3 h3. commit-Closed c.db n c3 h3)))

delete_dns_zone-Closed :
    (domain : Bytes) (c : Conn Tables)
    → c.undo ≡ none
    → Closed c.db (drop_zone (clean_name domain) c.db) c (delete_dns_zone domain c)
unfolding delete_dns_zone
delete_dns_zone-Closed domain c h =
    let d = clean_name domain in
    begin-Closed (drop_zone d) _ c h (λ c1 h1.
      Closed-exec c.db (delete_records_of d) _ _ c1 h1 (λ _ c2 h2.
        Closed-exec c.db (λ db. some_row (delete_zone_row d db)) _ _ c2 h2
          (λ _ c3 h3. commit-Closed_last c.db c3 h3)))

update_dns_record-Closed :
    (zone_id id : ℕ) (value : Bytes) (ttl priority : ℕ) (c : Conn Tables)
    → c.undo ≡ none
    → Closed c.db
        (with_bump zone_id (update_record zone_id id value ttl priority) c.db)
        c
        (update_dns_record zone_id id value ttl priority c)
unfolding update_dns_record
update_dns_record-Closed zone_id id value ttl priority c h =
    let g = update_record zone_id id value ttl priority in
    begin-Closed (with_bump zone_id g) _ c h (λ c1 h1.
      Closed-exec c.db (λ db. some_row (g db)) _ _ c1 h1
        (λ _ c2 h2.
          Closed-exec c.db (bump_serial zone_id) _ _ c2 h2
            (λ _ c3 h3. commit-Closed_last c.db c3 h3)))

pub delete_dns_record-Closed :
    (zone_id id : ℕ) (c : Conn Tables)
    → c.undo ≡ none
    → Closed c.db
        (with_bump zone_id (delete_records (is_record zone_id id)) c.db)
        c
        (delete_dns_record zone_id id c)
unfolding delete_dns_record
delete_dns_record-Closed zone_id id c h =
    let g = delete_records (is_record zone_id id) in
    begin-Closed (with_bump zone_id g) _ c h (λ c1 h1.
      Closed-exec c.db (λ db. some_row (g db)) _ _ c1 h1
        (λ _ c2 h2.
          Closed-exec c.db (bump_serial zone_id) _ _ c2 h2
            (λ _ c3 h3. commit-Closed_last c.db c3 h3)))

insert_dns_zone-Closed :
    (z : DnsZone) (settings : DnsSettings) (c : Conn Tables)
    → c.undo ≡ none
    → Closed c.db (put_zone z settings c.db) c (insert_dns_zone z settings c)
unfolding insert_dns_zone
insert_dns_zone-Closed z settings c h = begin-Closed (put_zone z settings) _ c h (λ c1 h1.
    Closed-exec c.db (insert_named z) _ _ c1 h1 (λ id c2 h2.
      Closed-unless c.db (is_empty settings.ns1) (insert_server id settings.ns1) _ _ c2 h2
        (λ _ c3 h3.
          Closed-unless c.db (is_empty settings.ns2) (insert_server id settings.ns2) _ _ c3 h3
            (λ _ c4 h4. commit-Closed c.db id c4 h4))))

checked-Closed :
    (o : Option DomainError) (g : Change Tables ℕ) (m : Store ℕ) (c : Conn Tables)
    → c.undo ≡ none
    → Closed c.db (g c.db) c (m c)
    → Closed c.db (gated o g c.db) c ((checked o >> m) c)
checked-Closed none g m c h k = k
checked-Closed (some e) g m c h k = (refl, h, inr (refl, refl))

create_dns_zone_with_settings-Closed :
    (z : DnsZone) (settings : DnsSettings) (c : Conn Tables)
    → c.undo ≡ none
    → Closed c.db
        (created (with_defaults z) settings c.db)
        c
        (create_dns_zone_with_settings z settings c)
unfolding create_dns_zone_with_settings
create_dns_zone_with_settings-Closed z settings c h =
    checked-Closed (validate_domain (with_defaults z).domain) (put_zone (with_defaults z) settings)
      (insert_dns_zone (with_defaults z) settings) c h
      (insert_dns_zone-Closed (with_defaults z) settings c h)

create_dns_zone-Closed :
    (z : DnsZone) (c : Conn Tables)
    → c.undo ≡ none
    → Closed c.db (created (with_defaults z) c.db.settings c.db) c (create_dns_zone z c)
unfolding create_dns_zone get_dns_settings
create_dns_zone-Closed z c h =
    Closed-query (λ (db : Tables). db.settings) (created (with_defaults z))
      (create_dns_zone_with_settings z) c h
      (λ c1 h1. create_dns_zone_with_settings-Closed z c1.db.settings c1 h1)

-- Every call ends with no transaction open. It gives the result and the tables that its change
-- says, where a change that ends in an error leaves the tables as they were; or the engine has
-- refused a statement, the call returns the engine's error, and the tables are as they were.
pub apply-Closed :
    (call : Command) (c : Conn Tables)
    → c.undo ≡ none
    → Closed c.db (change_of call c.db) c (apply call c)
unfolding apply change_of
apply-Closed (create z) c h = Closed-map c.db (λ _. tt) _ c _ (create_dns_zone-Closed z c h)
apply-Closed (remove domain) c h = delete_dns_zone-Closed domain c h
apply-Closed (add r) c h = Closed-map c.db (λ _. tt) _ c _ (add_dns_record-Closed r c h)
apply-Closed (add_absent r) c h =
    Closed-map c.db (λ _. tt) _ c _ (add_dns_record_if_absent-Closed r c h)
apply-Closed (update zone_id id value ttl priority) c h =
    update_dns_record-Closed zone_id id value ttl priority c h
apply-Closed (delete zone_id id) c h = delete_dns_record-Closed zone_id id c h
apply-Closed (delete_same zone_id name kind value) c h =
    Closed-map c.db (λ _. tt) _ c _ (delete_dns_records_matching-Closed zone_id name kind value c h)
apply-Closed (set settings) c h =
    unfold set_dns_settings in
    exec-Closed (λ (db : Tables). (ok tt, record db { settings = settings })) c h
      (λ e d k. cc (ap (λ p. p.0) k))
