-- ===== src/Dns/Zones.antt =====
-- internal/dns/zones.go: the snapshot of the zones, and the lookups in it. A snapshot is a map from
-- the apex as a full name; swapping the pointer is replacing the value.
pub mod Find
pub mod Index
use mathlib.Core.Option
use lamund.Prelude.{
  ℕ, zero, suc, Bool, true, false, not, ◌||◌, Option, none, some, List, [], ◌∷◌, ◌++◌, ◌==◌,
  if◌then◌else◌, Bytes, codes, beq, length, take, drop, Map, lookup, insert, lower, is_empty,
  index_byte,
}
use lamund.Dns.Types.{
  DnsZone, DnsRecord, DnsSettings, NameLib, Rr, soa, ns, type_any, type_soa, type_ns, class_inet,
  u32,
}
use lamund.Dns.Records.{to_rr}

pub record Zone : Type 0 where
  pub apex : Bytes
  pub serial : ℕ
  pub refresh : ℕ
  pub retry : ℕ
  pub expire : ℕ
  pub minimum : ℕ
  pub ns1 : Bytes
  pub ns2 : Bytes
  pub hostmaster : Bytes
  pub records : Map (List DnsRecord)

abbrev pub Snapshot : Type 0
Snapshot = Map Zone

-- The name behind the first dot; none if there is no dot, or it ends the name.
unfoldable pub after_dot : Bytes → Option Bytes
after_dot [] = none
after_dot (c ∷ []) = none
after_dot (c ∷ d ∷ s) = if c == b'.' then some (d ∷ s) else after_dot (d ∷ s)

-- The loop of Zones.Find, on fuel.
unfoldable pub find_from : ℕ → Snapshot → Bytes → Option Zone
find_from zero snap name = none
find_from (suc fuel) snap name = elim (lookup name snap) [
  | some zone ↦ some zone
  | none ↦ elim (after_dot name) [ none ↦ none | some rest ↦ find_from fuel snap rest ]
]

-- Zones.Find; each round shortens the name, so its length is fuel enough.
unfoldable pub find_zone : Snapshot → Bytes → Option Zone
find_zone snap qname = find_from (suc (length qname)) snap qname

-- a slice that is missing from the map
abbrev pub or_nil : Option (List DnsRecord) → List DnsRecord
or_nil none = []
or_nil (some rs) = rs

module _ (lib : NameLib) where
  unfoldable pub owner_fqdn : Bytes → Bytes → Bytes
  unfolding beq lower
  owner_fqdn apex name =
      if beq name (codes "@")
      then lib.fqdn apex
      else if beq name (codes "*")
      then codes "*." ++ lib.fqdn apex
      else lib.fqdn (lower name ++ b'.' ∷ apex)

  -- the loop over the records of a zone, those of its number
  unfoldable pub index_records :
      Bytes → ℕ → List DnsRecord → Map (List DnsRecord) → Map (List DnsRecord)
  index_records apex id [] m = m
  index_records apex id (r ∷ rs) m = index_records apex id rs (
      if r.zone_id == id
      then insert (owner_fqdn apex r.name) (or_nil (lookup (owner_fqdn apex r.name) m) ++ r ∷ []) m
      else m)

  unfoldable pub build_zone : DnsSettings → List DnsRecord → DnsZone → Zone
  build_zone settings recs z = record {
    apex = lower z.domain;
    serial = u32 z.serial;
    refresh = u32 z.refresh;
    retry = u32 z.retry;
    expire = u32 z.expire;
    minimum = u32 z.minimum;
    ns1 = settings.ns1;
    ns2 = settings.ns2;
    hostmaster = settings.hostmaster;
    records = index_records (lower z.domain) z.id recs [];
  }

  -- the loop over the zones
  unfoldable pub build_each : DnsSettings → List DnsRecord → List DnsZone → Snapshot → Snapshot
  build_each settings recs [] snap = snap
  build_each settings recs (z ∷ zs) snap =
      build_each settings recs zs
        (insert (lib.fqdn (lower z.domain)) (build_zone settings recs z) snap)

  -- BuildSnapshot on what AllDNSData returned, `none` for its error
  unfoldable pub build_snapshot :
      Option (List DnsZone × List DnsRecord × DnsSettings) → Option Snapshot
  build_snapshot none = none
  build_snapshot (some (zones, recs, settings)) = some (build_each settings recs zones [])

  -- Zones.Reload: a failed build keeps the snapshot. The flag is whether an error is returned.
  unfoldable pub reload :
      Option (List DnsZone × List DnsRecord × DnsSettings) → Snapshot → Snapshot × Bool
  unfolding build_snapshot
  reload read snap = elim (build_snapshot read) [
    | none ↦ (snap, true)
    | some snap' ↦ (snap', false)
  ]

  -- An address as RFC 1035 writes it: the dots before the `@` are escaped.
  unfoldable pub escape_dots : Bytes → Bytes
  escape_dots [] = []
  escape_dots (c ∷ s) = if c == b'.' then b'\\' ∷ b'.' ∷ escape_dots s else c ∷ escape_dots s

  abbrev mail_name : Bytes → Option ℕ → Bytes
  mail_name mbox none = mbox
  mail_name mbox (some i) = escape_dots (take i mbox) ++ b'.' ∷ drop (suc i) mbox

  -- Zone.SOA
  unfoldable pub zone_soa : Zone → Rr
  zone_soa z = record {
    name = lib.fqdn z.apex;
    rrtype = type_soa;
    class = class_inet;
    ttl = z.minimum;
    rdata =
        soa (if is_empty z.ns1 then b'.' ∷ [] else lib.fqdn z.ns1)
          (if is_empty z.hostmaster
            then codes "hostmaster." ++ lib.fqdn z.apex
            else mail_name (lib.fqdn z.hostmaster) (index_byte b'@' (lib.fqdn z.hostmaster)))
          z.serial z.refresh z.retry z.expire z.minimum;
  }

  -- Zone.NS
  unfoldable pub ns_from : Bytes → List DnsRecord → List Rr
  unfolding beq
  ns_from apex [] = []
  ns_from apex (r ∷ rs) =
      let rest = ns_from apex rs in
      if not (beq r.kind (codes "NS"))
      then rest
      else record {
        name = apex;
        rrtype = type_ns;
        class = class_inet;
        ttl = u32 r.ttl;
        rdata = ns (lib.fqdn r.value);
      }
        ∷ rest

  unfoldable pub zone_ns : Zone → List Rr
  zone_ns z = ns_from (lib.fqdn z.apex) (or_nil (lookup (lib.fqdn z.apex) z.records))

  abbrev keep_type : ℕ → Option Rr → List Rr → List Rr
  keep_type qtype none rest = rest
  keep_type qtype (some rr) rest =
      if qtype == type_any || rr.rrtype == qtype then rr ∷ rest else rest

  unfoldable pub filter_by_type : Bytes → ℕ → List DnsRecord → List Rr
  filter_by_type owner qtype [] = []
  filter_by_type owner qtype (r ∷ rs) =
      let rest = filter_by_type owner qtype rs in keep_type qtype (to_rr lib owner r) rest

  -- the exact records, or those of the wildcard; the flag is matchedName
  abbrev match_in : Bytes → ℕ → Option (List DnsRecord) → Option (List DnsRecord) → List Rr × Bool
  match_in owner qtype (some recs) wild = (filter_by_type owner qtype recs, true)
  match_in owner qtype none (some wrecs) = (filter_by_type owner qtype wrecs, true)
  match_in owner qtype none none = ([], false)

  -- Zone.Match
  unfoldable pub zone_match : Zone → Bytes → ℕ → List Rr × Bool
  zone_match z owner qtype =
      match_in owner qtype (lookup owner z.records)
        (lookup (codes "*." ++ lib.fqdn z.apex) z.records)
