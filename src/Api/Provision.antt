-- ===== src/Api/Provision.antt =====
-- internal/api/dns.go: the records of a new site, in the zone that its domain lies in. A handler
-- here gives whether notifyReload is called; an error is only logged.
use lamund.Prelude.{
  Bool, false, ◌||◌, Option, none, some, List, [], ◌∷◌, if◌then◌else◌, Bytes, codes, split,
  is_empty, trim_space,
}
use lamund.Access.Session.{AuthUser}
use lamund.Dns.Types.{NameLib, Ip, v4, v6, DnsZone, DnsRecord}
use lamund.Store.Zones.{add_dns_record_if_absent}
use lamund.Store.Lookup.{find_dns_zone_for_domain}
use lamund.Api.Handler.{Handler, go, ignoring, ◌>>=◌}
use lamund.Api.Owner.{can_access_owner}

abbrev address_kind : Ip → Bytes
address_kind (v4 ip) = codes "A"
address_kind (v6 ip) = codes "AAAA"

abbrev address_record : DnsZone → Bytes → Bytes → Ip → DnsRecord
address_record zone label text ip = record {
  id = 0;
  zone_id = zone.id;
  name = label;
  kind = address_kind ip;
  value = text;
  ttl = 300;
  priority = 0;
}

module _ (lib : NameLib) where
  -- one part of the list; what is no address is passed over
  abbrev address_of : Bytes → Option Ip
  address_of text = if is_empty text then none else lib.parse_ip text

  abbrev provision : DnsZone → Bytes → Bytes → Option Ip → Handler Bool
  provision zone label text none = go false
  provision zone label text (some ip) =
      ignoring false (add_dns_record_if_absent (address_record zone label text ip))

  -- the loop over the public addresses
  unfoldable pub provision_each : DnsZone → Bytes → List Bytes → Handler Bool
  provision_each zone label [] = go false
  provision_each zone label (raw ∷ rest) = do
    let text = trim_space raw
    added ← provision zone label text (address_of text)
    more ← provision_each zone label rest
    go (added || more)

  unfoldable pub provision_zone_records : Bytes → DnsZone → Bytes → Handler Bool
  provision_zone_records public_ip zone label =
      if is_empty public_ip then go false else provision_each zone label (split b',' public_ip)

  abbrev provision_in : AuthUser → Bytes → Option (DnsZone × Bytes) → Handler Bool
  provision_in u public_ip none = go false
  provision_in u public_ip (some (zone, label)) = do
    allowed ← can_access_owner u zone.owner_type zone.owner_id
    if allowed then provision_zone_records public_ip zone label else go false

  unfoldable pub auto_provision_dns : Bytes → AuthUser → Bytes → Handler Bool
  auto_provision_dns public_ip u domain = do
    found ← ignoring none (find_dns_zone_for_domain domain)
    provision_in u public_ip found
