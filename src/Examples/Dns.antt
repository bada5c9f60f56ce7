-- ===== src/Examples/Dns.antt =====
-- A zone of internal/dns and queries for it.
use lamund.Prelude.{
  ℕ, ◌+◌, ◌-◌, ◌*◌, ◌≤◌, ◌≡◌, refl, ◌≢◌, ◌⊎◌, true, none, some, List, [], ◌∷◌, ◌++◌, arith,
  if◌then◌else◌, Bytes, codes, beq, length, All, lookup, insert, lower, has_suffix,
}
use lamund.Dns.Types.{DnsZone, DnsRecord, DnsSettings, NameLib, v4, a, type_a}
use lamund.Dns.Records.{to_rr, chunk_txt}
use lamund.Dns.Records.Chunks.{concat, chunk_txt_lem}
use lamund.Dns.Zones.{
  filter_by_type, owner_fqdn, index_records, zone_match, after_dot, find_from, Zone, Snapshot,
  find_zone, build_zone, zone_soa,
}
use lamund.Dns.Zones.Find.{IsLongest, find_zone-IsLongest}
use lamund.Dns.Rate.{token}
use lamund.Dns.Rate.Bound.{IsOrdered, allowed, allowed_bound, empty-IsWell}
use lamund.Dns.Server.{
  negative, by_cname, by_records, by_ns, Question, answer_in, reply, serve_dns, success, name_error,
}
use lamund.Dns.Server.Answers.{OnReply, IsReply, serve_dns-IsReply}
use lamund.Dns.Server.Names.{is_known, answer_in-Coded}

-- dns.Fqdn on names without escapes, and a parser that knows one address
abbrev lib : NameLib
lib = record {
  fqdn = λ s. if has_suffix s (codes ".") then s else s ++ b'.' ∷ [];
  parse_ip = λ s. if beq s (codes "10.0.0.1") then some (v4 (10 ∷ 0 ∷ 0 ∷ 1 ∷ [])) else none;
}

abbrev zone_row : DnsZone
zone_row = record {
  id = 3;
  domain = codes "Toko.id";
  owner_type = codes "user";
  owner_id = 1;
  user_id = 1;
  serial = 2026;
  refresh = 7200;
  retry = 3600;
  expire = 86400;
  minimum = 300;
}

abbrev www : DnsRecord
www = record {
  id = 1;
  zone_id = 3;
  name = codes "www";
  kind = codes "A";
  value = codes "10.0.0.1";
  ttl = 60;
  priority = 0;
}

abbrev foreign : DnsRecord
foreign = record www { zone_id = 4 }

abbrev settings : DnsSettings
settings = record {
  ns1 = codes "ns1.lamun.id";
  ns2 = codes "ns2.lamun.id";
  hostmaster = codes "admin@lamun.id";
}

abbrev zone : Zone
zone = build_zone lib settings (www ∷ foreign ∷ []) zone_row

abbrev snap : Snapshot
snap = (codes "toko.id.", zone) ∷ []

found : find_zone snap (codes "a.www.toko.id.") ≡ some zone
unfolding find_zone lookup find_from beq after_dot
found = refl

answered :
    (answer_in lib zone (codes "www.toko.id.") type_a reply).answer
    ≡ record {
      name = codes "www.toko.id.";
      rrtype = 1;
      class = 1;
      ttl = 60;
      rdata = a (10 ∷ 0 ∷ 0 ∷ 1 ∷ []);
    }
      ∷ []
unfolding answer_in beq has_suffix build_zone lower by_ns by_records zone_match lookup index_records
    insert owner_fqdn filter_by_type to_rr
answered = refl

denied : (answer_in lib zone (codes "ftp.toko.id.") type_a reply).rcode ≡ name_error
unfolding answer_in beq has_suffix build_zone lower by_ns by_records zone_match lookup index_records
    insert owner_fqdn by_cname negative
denied = refl

chunk_txt_lem_example :
    (concat (chunk_txt (codes "v=spf1 -all")) ≡ codes "v=spf1 -all")
    × (1 ≤ length (chunk_txt (codes "v=spf1 -all")))
    × All (λ p. length p ≤ 255) (chunk_txt (codes "v=spf1 -all"))
chunk_txt_lem_example = chunk_txt_lem (codes "v=spf1 -all")

find_zone-IsLongest_example :
    IsLongest snap (codes "a.www.toko.id.") (find_zone snap (codes "a.www.toko.id."))
find_zone-IsLongest_example = find_zone-IsLongest snap (codes "a.www.toko.id.")

-- three queries of one subnet and one of another within a second
abbrev queries : List (ℕ × Bytes)
queries =
    (0, codes "10.0.0.0")
    ∷ (10, codes "10.0.0.0")
    ∷ (10, codes "10.0.1.0")
    ∷ (1000000000, codes "10.0.0.0")
    ∷ []

queries-IsOrdered : IsOrdered 0 1000000000 queries
queries-IsOrdered = ground arith

allowed_bound_example :
    allowed (codes "10.0.0.0") queries [] * token ≤ 40 * token + (1000000000 - 0) * 20
allowed_bound_example =
    allowed_bound (codes "10.0.0.0") 0 1000000000 queries [] (empty-IsWell 0) queries-IsOrdered

abbrev question : Question
question = record { name = codes "WWW.toko.id"; qtype = 1; qclass = 1 }

serve_dns-IsReply_example :
    OnReply lib
      (IsReply lib (lower (lib.fqdn (codes "WWW.toko.id"))) 1)
      (serve_dns lib snap 5
        (codes "10.0.0.0")
        (record { questions = question ∷ []; edns = true })
        []).0
serve_dns-IsReply_example = serve_dns-IsReply lib snap 5 (codes "10.0.0.0") question true []

www_below : codes "www.toko.id." ≢ lib.fqdn zone.apex
unfolding lower has_suffix build_zone beq
www_below = λ e. cc (e)

answer_in-Coded_example :
    ((answer_in lib zone (codes "www.toko.id.") 1 reply).rcode
      ≡ (if is_known lib zone (codes "www.toko.id.") then success else name_error))
    × (((answer_in lib zone (codes "www.toko.id.") 1 reply).answer ≢ [])
        ⊎ ((answer_in lib zone (codes "www.toko.id.") 1 reply).authority ≡ zone_soa lib zone ∷ []))
answer_in-Coded_example = answer_in-Coded lib zone (codes "www.toko.id.") 1 www_below (omega arith)
