-- ===== src/Examples/Tables.antt =====
-- Tables with one zone of user 7 and one team, and users by whom requests are made.
use lamund.Prelude.{
  ℕ, false, none, some, [], ◌∷◌, ◌++◌, ◌==◌, if◌then◌else◌, Bytes, codes, beq, has_suffix,
}
use lamund.Access.Session.{AuthUser}
use lamund.Dns.Types.{DnsZone, DnsRecord, NameLib, v4}
use lamund.Store.Conn.{Conn}
use lamund.Store.Tables.{Tables, TeamMember, Invite}

abbrev pub names : NameLib
names = record {
  fqdn = λ s. if has_suffix s (codes ".") then s else s ++ b'.' ∷ [];
  parse_ip = λ s. if beq s (codes "10.0.0.1") then some (v4 (10 ∷ 0 ∷ 0 ∷ 1 ∷ [])) else none;
}

abbrev pub shop_zone : DnsZone
shop_zone = record {
  id = 1;
  domain = codes "toko.id";
  owner_type = codes "user";
  owner_id = 7;
  user_id = 7;
  serial = 4;
  refresh = 7200;
  retry = 3600;
  expire = 86400;
  minimum = 300;
}

abbrev pub row : ℕ → Bytes → Bytes → Bytes → DnsRecord
row id name kind value = record {
  id = id;
  zone_id = 1;
  name = name;
  kind = kind;
  value = value;
  ttl = 300;
  priority = 0;
}

abbrev pub member : ℕ → Bytes → TeamMember
member user_id role = record { team_id = 5; user_id = user_id; role = role }

abbrev pub invite : Invite
invite = record {
  token = codes "t1";
  team_id = 5;
  role = codes "admin";
  expires_at = codes "soon";
  email = codes "Sari@toko.id";
}

abbrev pub rows : Tables
rows = record {
  zones = shop_zone ∷ [];
  records =
      row 1 (codes "@") (codes "NS") (codes "ns1.toko.id")
      ∷ row 2 (codes "www") (codes "A") (codes "10.0.0.1")
      ∷ [];
  settings = record { ns1 = codes "ns1.toko.id"; ns2 = []; hostmaster = [] };
  next_zone = 2;
  next_record = 3;
  people =
      record { id = 7; username = codes "budi" }
      ∷ record { id = 8; username = codes "siti" }
      ∷ record { id = 9; username = codes "sari" }
      ∷ [];
  teams = record { id = 5; name = codes "Toko"; slug = codes "toko" } ∷ [];
  members = member 7 (codes "owner") ∷ member 8 (codes "admin") ∷ [];
  invites = invite ∷ [];
  next_team = 6;
  sites = [];
  site_domains = [];
  deploys = [];
  next_site = 1;
  next_deploy = 1;
}

-- An engine that refuses no statement, and one that refuses the third.
abbrev pub quiet : Conn Tables
quiet = record { db = rows; undo = none; clock = 0; faults = λ n. false }

abbrev pub third_fails : Conn Tables
third_fails = record { db = rows; undo = none; clock = 0; faults = λ n. n == 2 }

abbrev pub user : ℕ → AuthUser
user id = record { id = id; role = codes "member"; email = codes "sari@toko.id" }
