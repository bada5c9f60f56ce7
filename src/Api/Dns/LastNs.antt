-- ===== src/Api/Dns/LastNs.antt =====
-- Deleting a record leaves the apex of a zone with a name server.
use lamund.Api.Dns.{last_of, owned_zone, handle_delete_dns_record, is_last_ns, is_apex_ns}
use lamund.Prelude.Lists.{here, there}
use lamund.Prelude.{
  ℕ, ◌≡◌, refl, sym, ◌∙◌, inl, inr, Bool, true, false, not, ◌&&◌, Option, none, some, List, [], ◌∷◌,
  arith, ◌==◌, ==_iff, Bool-cases, Apart, any-In, In-any, In-select, select-In, find-In, find-none,
  select-some, All-In, Bytes, select, any, find, In,
}
use lamund.Access.Session.{AuthUser}
use lamund.Dns.Types.{DnsZone, DnsRecord}
use lamund.Store.Conn.{Result, ok, err, Conn}
use lamund.Store.Conn.Transaction.{Closed-keeps, chain-keeps}
use lamund.Store.Tables.{Tables, order_by, record_before}
use lamund.Store.Rows.{is_record, delete_records, bump_serial}
use lamund.Store.Zones.{some_row, delete_dns_record, list_dns_records, get_dns_zone}
use lamund.Store.Zones.Atomic.{delete_dns_record-Closed}
use lamund.Store.Zones.Sound.{Other}
use lamund.Store.Lookup.Longest.{All-order_by, In-order_by}
use lamund.Api.Handler.{Response, handled, or_status, some_or, stop_if}
use lamund.Api.Handler.Rules.{
  Leads, Leads-bind, handled-Leads, Same, Same-trans, some_or-Leads, stop_if-Leads, or_status-query,
  or_status-keeps,
}
use lamund.Api.Owner.{can_access_owner}
use lamund.Api.Owner.Rules.{can_access_owner-Leads}

abbrev serves_apex : ℕ → DnsRecord → Bool
serves_apex zone_id r = r.zone_id == zone_id && is_apex_ns r

abbrev pub has_ns : ℕ → List DnsRecord → Bool
has_ns zone_id rs = any (serves_apex zone_id) rs

-- Records of one number are one.
same_id :
    (rs : List DnsRecord) (q r : DnsRecord)
    → Apart Other rs
    → In q rs
    → In r rs
    → q.id ≡ r.id
    → q ≡ r
same_id [] q r h m n e = elim m [ ]
same_id (x ∷ rs) q r h (here d) (here g) e = d ∙ sym g
same_id (x ∷ rs) q r h (here d) (there n) e = absurd (All-In (Other x) r rs h.0 n (rw (← d) e))
same_id (x ∷ rs) q r h (there m) (here g) e =
    absurd (All-In (Other x) q rs h.0 m (rw (← g) (sym e)))
same_id (x ∷ rs) q r h (there m) (there n) e = same_id rs q r h.1 m n e

hit-zone :
    (zone_id id : ℕ) (r : DnsRecord)
    → is_record zone_id id r ≡ true
    → ((r.zone_id == zone_id) ≡ true) × ((r.id == id) ≡ true)
unfolding is_record
hit-zone zone_id id r h = ground arith

spared :
    (zone_id id : ℕ) (q : DnsRecord)
    → (is_apex_ns q && not (q.id == id)) ≡ true
    → not (is_record zone_id id q) ≡ true
unfolding is_record
spared zone_id id q h = ground arith

serves_too :
    (zone_id id zid : ℕ) (q r : DnsRecord)
    → serves_apex zid r ≡ true
    → (r.zone_id == zone_id) ≡ true
    → (q.zone_id == zone_id) ≡ true
    → (is_apex_ns q && not (q.id == id)) ≡ true
    → serves_apex zid q ≡ true
serves_too zone_id id zid q r h k l n = ground arith

apex_of : (zid : ℕ) (r : DnsRecord) → serves_apex zid r ≡ true → is_apex_ns r ≡ true
apex_of zid r h = ground arith

module _ (zone_id id : ℕ) (rs : List DnsRecord) where
  abbrev listed : List DnsRecord
  listed = order_by record_before (select (λ r. r.zone_id == zone_id) rs)

  listed-In : (r : DnsRecord) → In r listed → In r rs × ((r.zone_id == zone_id) ≡ true)
  listed-In r m =
      select-In (λ r. r.zone_id == zone_id) r rs
        (In-order_by record_before r (select (λ r. r.zone_id == zone_id) rs) m)

  -- Another name server of the apex, when the one that goes is not the last.
  another :
      (r : DnsRecord)
      → Apart Other rs
      → In r rs
      → is_record zone_id id r ≡ true
      → is_apex_ns r ≡ true
      → is_last_ns id listed ≡ false
      → (q : DnsRecord) × In q rs
        × ((q.zone_id == zone_id) ≡ true)
        × ((is_apex_ns q && not (q.id == id)) ≡ true)
  unfolding is_record is_last_ns
  another r apart m hit apex h = go (find (λ r. r.id == id) listed) refl h
    where
      go :
          (o : Option DnsRecord)
          → find (λ r. r.id == id) listed ≡ o
          → last_of id listed o ≡ false
          → (q : DnsRecord) × In q rs
            × ((q.zone_id == zone_id) ≡ true)
            × ((is_apex_ns q && not (q.id == id)) ≡ true)
      go none e l =
          let gone =
            All-order_by record_before _ (select (λ r. r.zone_id == zone_id) rs)
              (find-none (λ r. r.id == id) listed e) in
          let at_r =
            All-In (λ r. (r.id == id) ≡ false) r _ gone
              (In-select (λ r. r.zone_id == zone_id) r rs m (hit-zone zone_id id r hit).0) in
          cc (rw at_r at ((hit-zone zone_id id r hit).1))
      go (some target) e l =
          let (in_list, number) = find-In (λ r. r.id == id) target listed e in
          let same = same_id rs target r apart (listed-In target in_list).0 m (
            (==_iff target.id id).0 number
            ∙ sym ((==_iff r.id id).0 (hit-zone zone_id id r hit).1)) in
          let (q, q_in, q_ok) =
            select-some (λ r. is_apex_ns r && not (r.id == id)) listed (rw (same, apex) at l) in
          (q, (listed-In q q_in).0, (listed-In q q_in).1, q_ok)

  stays :
      (zid : ℕ)
      → Apart Other rs
      → has_ns zid rs ≡ true
      → is_last_ns id listed ≡ false
      → has_ns zid (select (λ r. not (is_record zone_id id r)) rs) ≡ true
  stays zid apart h last =
      let (r, m, ok_r) = any-In (serves_apex zid) rs h in
      elim (Bool-cases (is_record zone_id id r)) [
        | inr miss ↦
            In-any (serves_apex zid) r _
              (In-select (λ r. not (is_record zone_id id r)) r rs m (rw miss refl)) ok_r
        | inl hit ↦
            let (q, q_in, in_zone, q_ok) = another r apart m hit (apex_of zid r ok_r) last in
            In-any (serves_apex zid) q _
              (In-select (λ r. not (is_record zone_id id r)) q rs q_in (spared zone_id id q q_ok))
              (serves_too zone_id id zid q r ok_r (hit-zone zone_id id r hit).0 in_zone q_ok)
      ]

owned_zone-Leads :
    (P : Tables → Type 0) (u : AuthUser) (domain : Bytes) (c : Conn Tables)
    → P c.db
    → Leads P (λ z c'. Same c c') (owned_zone u domain c)
unfolding owned_zone get_dns_zone
owned_zone-Leads P u domain c h =
    let R = λ (z : DnsZone) (c' : Conn Tables). Same c c' in
    Leads-bind P _ R _ (or_status 500 (get_dns_zone domain) c) (or_status-query P 500 _ c h)
      (λ o c1 k1.
        Leads-bind P _ R _ (some_or 404 o c1) (some_or-Leads P 404 o c1 (rw k1.0.0 h)) (λ z c2 k2.
          Leads-bind P _ R _ (can_access_owner u z.owner_type z.owner_id c2)
            (can_access_owner-Leads P u z.owner_type z.owner_id c2)
            (λ b c3 k3.
              let s2 = Same-trans c c1 c2 k1.0 k2.0 in
              let s3 = Same-trans c c2 c3 s2 k3 in
              Leads-bind P _ R _ (stop_if (not b) 404 c3)
                (stop_if-Leads P (not b) 404 c3 (rw s3.0 h))
                (λ _ c4 k4. Same-trans c c3 c4 s3 k4.0))))

some_row-keeps : (P : Tables → Type 0) (s : Result ℕ × Tables) → P s.1 → P (some_row s).1
unfolding some_row
some_row-keeps P (ok n, db) h = elim (Bool-cases (n == 0)) [ inl e ↦ rw e h | inr e ↦ rw e h ]
some_row-keeps P (err e, db) h = h

deleted-has_ns :
    (zone_id id zid : ℕ) (c : Conn Tables)
    → c.undo ≡ none
    → Apart Other c.db.records
    → has_ns zid c.db.records ≡ true
    → is_last_ns id (listed zone_id id c.db.records) ≡ false
    → has_ns zid (delete_dns_record zone_id id c).1.db.records ≡ true
unfolding delete_records bump_serial
deleted-has_ns zone_id id zid c closed apart h last =
    let P = λ (db : Tables). has_ns zid db.records ≡ true in
    Closed-keeps P c.db _ c (delete_dns_record zone_id id c) h
      (chain-keeps P _ (some_row (delete_records (is_record zone_id id) c.db))
        (some_row-keeps P (delete_records (is_record zone_id id) c.db)
          (stays zone_id id c.db.records zid apart h last))
        (λ _ d l. chain-keeps P (λ _ d'. (ok tt, d')) (bump_serial zone_id d) l (λ _ d' m. m)))
      (delete_dns_record-Closed zone_id id c closed)

-- A deletion of a record through the API leaves a name server at the apex of every zone that had
-- one, if the numbers of the records are distinct and no transaction is open: whoever calls, with
-- any path, and whichever statements the engine refuses.
pub handle_delete_dns_record-has_ns :
    (u : AuthUser) (domain : Bytes) (path_id : Option ℕ) (c : Conn Tables) (zid : ℕ)
    → c.undo ≡ none
    → Apart Other c.db.records
    → has_ns zid c.db.records ≡ true
    → has_ns zid (handled (handle_delete_dns_record u domain path_id) c).1.db.records ≡ true
unfolding handle_delete_dns_record list_dns_records
handle_delete_dns_record-has_ns u domain path_id c zid closed apart h =
    let P = λ (db : Tables). has_ns zid db.records ≡ true in
    let R = λ (r : Response) (c' : Conn Tables). P c'.db in
    handled-Leads P (handle_delete_dns_record u domain path_id) c (
      Leads-bind P _ R _ (owned_zone u domain c) (owned_zone-Leads P u domain c h) (λ z c1 k1.
        Leads-bind P _ R _ (some_or 400 path_id c1) (some_or-Leads P 400 path_id c1 (rw k1.0 h))
          (λ id c2 k2.
            let s2 = Same-trans c c1 c2 k1 k2.0 in
            Leads-bind P _ R _ (or_status 500 (list_dns_records z.id) c2)
              (or_status-query P 500 _ c2 (rw s2.0 h))
              (λ recs c3 k3.
                let s3 = Same-trans c c2 c3 s2 k3.0 in
                Leads-bind P _ R _ (stop_if (is_last_ns id recs) 400 c3)
                  (stop_if-Leads P (is_last_ns id recs) 400 c3 (rw s3.0 h))
                  (λ _ c4 k4.
                    let s4 = Same-trans c c3 c4 s3 k4.0 in
                    Leads-bind P _ R _ (or_status 500 (delete_dns_record z.id id) c4)
                      (or_status-keeps P 500 (delete_dns_record z.id id) c4 (
                        deleted-has_ns z.id id zid c4 (s4.1 ∙ closed) (rw s4.0 apart) (rw s4.0 h)
                          (rw s4.0 (rw (k3.1, s2.0) at k4.1))))
                      (λ _ c5 k5. k5))))))
