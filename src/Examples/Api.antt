-- ===== src/Examples/Api.antt =====
-- Requests on the zone.
use lamund.Prelude.{
  ◌≡◌, refl, ◌⊎◌, true, false, none, some, ◌∷◌, ◌++◌, arith, codes, beq, split, lower, trim_space,
}
use lamund.Dns.Types.{DnsRecord}
use lamund.Dns.Records.{to_rr}
use lamund.Store.Rows.{zone_of}
use lamund.Store.Zones.{clean_name}
use lamund.Api.Handler.{handled, plain_response}
use lamund.Api.Records.{check_caa, check_value, label_matches, validate_dns_record}
use lamund.Api.Records.Served.{Answerable, validate_dns_record-Answerable}
use lamund.Api.Dns.{is_apex_ns, handle_delete_dns_record}
use lamund.Api.Dns.Denied.{reaches_owner, delete_zone, serve_zone, serve_zone-refused}
use lamund.Api.Dns.LastNs.{has_ns, handle_delete_dns_record-has_ns}
use lamund.Examples.Tables.{names, row, rows, quiet, user}

abbrev www : DnsRecord
www = row 2 (codes "www") (codes "A") (codes "10.0.0.1")

www_is_valid : validate_dns_record names www.kind www.name www.value www.priority ≡ none
unfolding validate_dns_record label_matches beq split check_value
www_is_valid = refl

validate_dns_record-Answerable_example :
    Answerable www.kind www.value (to_rr names (codes "www.toko.id.") www)
validate_dns_record-Answerable_example =
    validate_dns_record-Answerable names (codes "www.toko.id.") www www_is_valid

-- A tab between the tag and the value is accepted, and the record is never answered with.
abbrev tabbed : DnsRecord
tabbed = row 3 (codes "@") (codes "CAA") (codes "0 issue" ++ 9 ∷ codes "ca.id")

tabbed_is_lost :
    (validate_dns_record names tabbed.kind tabbed.name tabbed.value tabbed.priority ≡ none)
    × (to_rr names (codes "toko.id.") tabbed ≡ none)
unfolding validate_dns_record to_rr label_matches check_value check_caa
tabbed_is_lost = (refl, refl)

siti_is_refused : reaches_owner (user 8) rows (codes "user") 7 ≡ false
unfolding beq
siti_is_refused = refl

serve_zone-refused_example :
    let (r, c') = handled (serve_zone names (user 8) (codes "toko.id") delete_zone) quiet in
    ((r ≡ plain_response 404) ⊎ ((r ≡ plain_response 500) × (quiet.faults quiet.clock ≡ true)))
    × (c'.db ≡ rows)
unfolding beq clean_name lower trim_space
serve_zone-refused_example =
    serve_zone-refused names (user 8) (codes "toko.id") delete_zone quiet (unfold zone_of in refl)

handle_delete_dns_record-has_ns_example :
    has_ns 1
      (handled (handle_delete_dns_record (user 7) (codes "toko.id") (some 1)) quiet).1.db.records
    ≡ true
unfolding is_apex_ns
handle_delete_dns_record-has_ns_example =
    handle_delete_dns_record-has_ns (user 7) (codes "toko.id") (some 1) quiet 1 refl
      (((λ e. omega (arith, e)), tt), (tt, tt)) (unfold beq in refl)
