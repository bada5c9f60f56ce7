-- ===== src/Dns/Types.antt =====
-- The data of internal/dns and the rows of internal/store/dns.go that it is built from. The
-- resource records of github.com/miekg/dns are given by their header and their data; numbers of
-- types, classes and response codes are those of RFC 1035 and its successors.
use lamund.Prelude.{ℕ, ◌%◌, Option, List, Bytes}

pub record DnsZone : Type 0 where
  pub id : ℕ
  pub domain : Bytes
  pub owner_type : Bytes
  pub owner_id : ℕ
  pub user_id : ℕ
  pub serial : ℕ
  pub refresh : ℕ
  pub retry : ℕ
  pub expire : ℕ
  pub minimum : ℕ

pub record DnsRecord : Type 0 where
  pub id : ℕ
  pub zone_id : ℕ
  pub name : Bytes
  pub kind : Bytes
  pub value : Bytes
  pub ttl : ℕ
  pub priority : ℕ

pub record DnsSettings : Type 0 where
  pub ns1 : Bytes
  pub ns2 : Bytes
  pub hostmaster : Bytes

-- net.IP as ParseIP returns it: an address that To4 maps to four bytes, or any other.
pub data Ip : Type 0 where
  v4 : Bytes → Ip
  v6 : Bytes → Ip

-- What the package takes from miekg/dns and net: dns.Fqdn and net.ParseIP.
pub record NameLib : Type 0 where
  pub fqdn : Bytes → Bytes
  pub parse_ip : Bytes → Option Ip

pub data Rdata : Type 0 where
  a : Bytes → Rdata
  aaaa : Bytes → Rdata
  cname : Bytes → Rdata
  mx : ℕ → Bytes → Rdata
  txt : List Bytes → Rdata
  ns : Bytes → Rdata
  caa : ℕ → Bytes → Bytes → Rdata
  soa : Bytes → Bytes → ℕ → ℕ → ℕ → ℕ → ℕ → Rdata
  hinfo : Bytes → Bytes → Rdata

pub record Rr : Type 0 where
  pub name : Bytes
  pub rrtype : ℕ
  pub class : ℕ
  pub ttl : ℕ
  pub rdata : Rdata

abbrev pub type_a : ℕ
type_a = 1

abbrev pub type_ns : ℕ
type_ns = 2

abbrev pub type_cname : ℕ
type_cname = 5

abbrev pub type_soa : ℕ
type_soa = 6

abbrev pub type_hinfo : ℕ
type_hinfo = 13

abbrev pub type_mx : ℕ
type_mx = 15

abbrev pub type_txt : ℕ
type_txt = 16

abbrev pub type_aaaa : ℕ
type_aaaa = 28

abbrev pub type_any : ℕ
type_any = 255

abbrev pub type_caa : ℕ
type_caa = 257

abbrev pub class_inet : ℕ
class_inet = 1

-- conversions to uint32 and uint16
abbrev pub u32 : ℕ → ℕ
u32 n = n % 4294967296

abbrev pub u16 : ℕ → ℕ
u16 n = n % 65536
