-- ===== src/Examples/Store.antt =====
-- Calls of the store on one zone.
use lamund.Store.Rows.{insert_record}
use lamund.Store.Zones.{list_dns_zones, add_dns_record, clean_name}
use lamund.Dns.Types.{DnsZone}
use lamund.Prelude.{
  ◌≡◌, refl, Option, none, some, List, [], ◌∷◌, Bytes, codes, beq, lower, trim_space, trim_suffix,
  has_suffix,
}
use lamund.Store.Conn.{query, exec, begin, Conn, ok, err, engine}
use lamund.Store.Conn.Transaction.{Closed}
use lamund.Store.Tables.{order_by, Tables}
use lamund.Store.Zones.Changes.{Command, create, remove, add, apply, change_of}
use lamund.Store.Zones.Atomic.{apply-Closed}
use lamund.Store.Zones.Runs.{run, run-IsSound}
use lamund.Store.Zones.Sound.{IsSound}
use lamund.Store.Lookup.{label_of, best_zone, find_dns_zone_for_domain}
use lamund.Store.Lookup.Longest.{IsFound, find_dns_zone_for_domain-IsFound}
use lamund.Examples.Tables.{shop_zone, row, rows, quiet, third_fails}

abbrev call : Command
call = add (row 0 (codes " Blog") (codes "a") (codes "10.0.0.1"))

-- The refused statement is the update of the serial number; the insertion before it is undone.
undone_insert : ((apply call third_fails).0 ≡ err engine) × ((apply call third_fails).1.db ≡ rows)
unfolding apply add_dns_record begin exec insert_record
undone_insert = (refl, refl)

apply-Closed_example : Closed rows (change_of call rows) third_fails (apply call third_fails)
apply-Closed_example = apply-Closed call third_fails refl

abbrev empty : Tables
empty = record rows { zones = []; records = [] }

abbrev fresh : Conn Tables
fresh = record third_fails { db = empty }

abbrev calls : List Command
calls = create shop_zone ∷ create shop_zone ∷ call ∷ remove (codes "toko.id") ∷ []

run-IsSound_example : ((run calls fresh).undo ≡ none) × IsSound (run calls fresh).db
run-IsSound_example = run-IsSound calls fresh refl (tt, tt, tt, tt)

find_dns_zone_for_domain-IsFound_example :
    (o : Option (DnsZone × Bytes)) × ((find_dns_zone_for_domain (codes "Blog.Toko.id") quiet).0
      ≡ ok o)
    × IsFound (clean_name (codes "Blog.Toko.id")) rows.zones o
    × ((find_dns_zone_for_domain (codes "Blog.Toko.id") quiet).1.db ≡ rows)
find_dns_zone_for_domain-IsFound_example =
    find_dns_zone_for_domain-IsFound (codes "Blog.Toko.id") quiet refl

blog_label :
    (find_dns_zone_for_domain (codes "Blog.Toko.id") quiet).0 ≡ ok (some (shop_zone, codes "blog"))
unfolding find_dns_zone_for_domain list_dns_zones query best_zone order_by beq clean_name lower
    trim_space has_suffix label_of trim_suffix
blog_label = refl
