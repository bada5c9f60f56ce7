-- ===== src/Dns/Zones/Index.antt =====
-- The record index that internal/dns/zones.go builds from the rows of a zone, and the reload.
use lamund.Prelude.{
  ℕ, ◌≡◌, refl, ◌⊎◌, inl, inr, Bool, true, false, ◌&&◌, Option, none, some, List, ◌==◌, Bytes, beq,
}
use lamund.Dns.Types.{NameLib, DnsZone, DnsRecord, DnsSettings}
use lamund.Dns.Zones.{Snapshot, owner_fqdn, build_snapshot, reload}

module _ (lib : NameLib) (apex : Bytes) (id : ℕ) where
  -- The rows of the zone that belong to a name.
  abbrev pub belongs : Bytes → DnsRecord → Bool
  belongs name r = r.zone_id == id && beq (owner_fqdn lib apex r.name) name

-- A reload that cannot read the store keeps the snapshot and reports an error; any other reports
-- none and serves what was read.
pub reload_lem :
    (lib : NameLib) (read : Option (List DnsZone × List DnsRecord × DnsSettings)) (snap : Snapshot)
    → (((reload lib read snap).1 ≡ true) × ((reload lib read snap).0 ≡ snap) × (read ≡ none))
      ⊎ (((reload lib read snap).1 ≡ false)
          × (build_snapshot lib read ≡ some (reload lib read snap).0))
unfolding reload
reload_lem lib none snap = inl (refl, refl, refl)
reload_lem lib (some (zones, recs, settings)) snap = inr (refl, refl)
