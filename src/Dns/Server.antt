-- ===== src/Dns/Server.antt =====
-- internal/dns/handler.go: ServeDNS. A message holds what the handler sets; SetReply copies the
-- question and the identifier of the request, which the handler does not change. `none` stands for
-- a query that is dropped.
pub mod Authority
pub mod Answers
pub mod Names
use lamund.Prelude.{
  ℕ, Bool, true, false, not, ◌&&◌, Option, none, some, List, [], ◌∷◌, ◌++◌, ◌==◌, if◌then◌else◌,
  Bytes, codes, beq, lower,
}
use lamund.Dns.Types.{
  NameLib, Rr, hinfo, type_any, type_soa, type_ns, type_cname, type_hinfo, class_inet,
}
use lamund.Dns.Zones.{Zone, Snapshot, find_zone, zone_soa, zone_ns, zone_match}
use lamund.Dns.Rate.{Buckets, rrl_allow}

pub record Question : Type 0 where
  pub name : Bytes
  pub qtype : ℕ
  pub qclass : ℕ

pub record Query : Type 0 where
  pub questions : List Question
  pub edns : Bool

pub record Msg : Type 0 where
  pub rcode : ℕ
  pub authoritative : Bool
  pub recursion_available : Bool
  pub answer : List Rr
  pub authority : List Rr
  pub edns : Option ℕ

abbrev pub success : ℕ
success = 0

abbrev pub name_error : ℕ
name_error = 3

abbrev pub refused : ℕ
refused = 5

-- The reply before the question is looked at.
abbrev pub reply : Msg
reply = record {
  rcode = success;
  authoritative = true;
  recursion_available = false;
  answer = [];
  authority = [];
  edns = none;
}

abbrev pub refuse : Msg
refuse = record reply { rcode = refused }

module _ (lib : NameLib) where
  unfoldable pub any_answer : Zone → Bytes → Rr
  any_answer zone qname = record {
    name = qname;
    rrtype = type_hinfo;
    class = class_inet;
    ttl = zone.minimum;
    rdata = hinfo (codes "RFC8482") [];
  }

  -- NODATA, or NXDOMAIN for a name that is not known
  unfoldable pub negative : Zone → Bool → Msg → Msg
  negative zone matched m = record m {
    authority = m.authority ++ zone_soa lib zone ∷ [];
    rcode = if matched then m.rcode else name_error;
  }

  abbrev pub or_next : List Rr → Msg → Msg → Msg
  or_next [] next m = next
  or_next (rr ∷ rrs) next m = record m { answer = rr ∷ rrs }

  -- the CNAME of the name, if another type is asked for
  unfoldable pub by_cname : Zone → Bytes → ℕ → Bool → Msg → Msg
  by_cname zone qname qtype matched m =
      if not (qtype == type_cname)
      then or_next (zone_match lib zone qname type_cname).0 (negative zone matched m) m
      else negative zone matched m

  unfoldable pub by_records : Zone → Bytes → ℕ → Msg → Msg
  by_records zone qname qtype m =
      let (ans, matched) = zone_match lib zone qname qtype in
      or_next ans (by_cname zone qname qtype matched m) m

  -- the name servers of the apex, if there are any
  unfoldable pub by_ns : Zone → Bytes → ℕ → Msg → Msg
  by_ns zone qname qtype m =
      if beq qname (lib.fqdn zone.apex) && qtype == type_ns
      then or_next (zone_ns lib zone) (by_records zone qname qtype m) m
      else by_records zone qname qtype m

  -- the part of ServeDNS behind the rate limit
  unfoldable pub answer_in : Zone → Bytes → ℕ → Msg → Msg
  answer_in zone qname qtype m =
      if qtype == type_any
      then record m { answer = m.answer ++ any_answer zone qname ∷ [] }
      else if beq qname (lib.fqdn zone.apex) && qtype == type_soa
      then record m { answer = m.answer ++ zone_soa lib zone ∷ [] }
      else by_ns zone qname qtype m

  abbrev pub with_edns : Bool → Msg → Msg
  with_edns true m = record m { edns = some 1232 }
  with_edns false m = m

  abbrev pub limited : Bool × Buckets → Msg → Option Msg × Buckets
  limited (true, rates) m = (some m, rates)
  limited (false, rates) m = (none, rates)

  abbrev pub in_zone : Option Zone → ℕ → Bytes → Bytes → ℕ → Bool → Buckets → Option Msg × Buckets
  in_zone none now subnet qname qtype edns rates = (some refuse, rates)
  in_zone (some zone) now subnet qname qtype edns rates =
      limited (rrl_allow now subnet rates) (answer_in zone qname qtype (with_edns edns reply))

  -- Handler.ServeDNS
  abbrev pub serve_questions :
      Snapshot → ℕ → Bytes → List Question → Bool → Buckets → Option Msg × Buckets
  serve_questions snap now subnet [] edns rates = (some refuse, rates)
  serve_questions snap now subnet (q ∷ r ∷ qs) edns rates = (some refuse, rates)
  serve_questions snap now subnet (q ∷ []) edns rates =
      if not (q.qclass == class_inet)
      then (some refuse, rates)
      else in_zone (find_zone snap (lower (lib.fqdn q.name))) now subnet (lower (lib.fqdn q.name))
          q.qtype edns rates

  unfoldable pub serve_dns : Snapshot → ℕ → Bytes → Query → Buckets → Option Msg × Buckets
  serve_dns snap now subnet req rates = serve_questions snap now subnet req.questions req.edns rates
