-- ===== src/Store/Lookup.antt =====
-- FindDNSZoneForDomain of internal/store/dns.go: the zone that a domain lies in.
pub mod Longest
use lamund.Dns.Types.{DnsZone}
use lamund.Prelude.{
  Bool, true, ◌&&◌, ◌||◌, Option, none, some, List, [], ◌∷◌, ltb, if◌then◌else◌, Bytes, codes, beq,
  length, trim_suffix, has_suffix,
}
use lamund.Store.Conn.{Result, ok, err, Conn}
use lamund.Store.Zones.{Store, list_dns_zones, clean_name}

-- domain == apex || strings.HasSuffix(domain, "."+apex)
unfoldable pub covers : Bytes → Bytes → Bool
covers domain apex = beq domain apex || has_suffix domain (b'.' ∷ apex)

abbrev longer : Bytes → Option DnsZone → Bool
longer apex none = true
longer apex (some best) = ltb (length best.domain) (length apex)

-- the loop over the zones
unfoldable pub best_zone : Bytes → Option DnsZone → List DnsZone → Option DnsZone
unfolding covers
best_zone domain best [] = best
best_zone domain best (z ∷ zs) =
    best_zone domain (if covers domain z.domain && longer z.domain best then some z else best) zs

unfoldable pub label_of : Bytes → Bytes → Bytes
label_of domain apex = if beq domain apex then codes "@" else trim_suffix domain (b'.' ∷ apex)

abbrev labelled : Bytes → Option DnsZone → Option (DnsZone × Bytes)
labelled domain none = none
labelled domain (some z) = some (z, label_of domain z.domain)

abbrev found_in : Bytes → Result (List DnsZone) → Option (DnsZone × Bytes)
found_in domain (ok zones) = labelled domain (best_zone domain none zones)
found_in domain (err e) = none

-- An error of the query is no zone.
unfoldable pub find_dns_zone_for_domain : Bytes → Store (Option (DnsZone × Bytes))
find_dns_zone_for_domain domain c =
    let (r, c') = list_dns_zones c in (ok (found_in (clean_name domain) r), c')
