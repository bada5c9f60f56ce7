-- ===== src/Dns/Server/Answers.antt =====
-- What the answers of internal/dns/handler.go are about.
use lamund.Dns.Server.Authority.{IsClosed, IsMinimal, answer_in-IsClosed, answer_in-IsMinimal}
use lamund.Dns.Rate.{rrl_allow, Buckets}
use lamund.Dns.Zones.{
  find_zone, Snapshot, zone_soa, zone_ns, Zone, filter_by_type, ns_from, zone_match,
}
use lamund.Dns.Server.{
  Question, reply, limited, in_zone, refuse, serve_dns, with_edns, any_answer, by_ns, by_cname,
  or_next, answer_in, negative, by_records, Msg,
}
use lamund.Prelude.{
  ℕ, ◌≡◌, refl, ◌∙◌, ◌≢◌, ◌⊎◌, inl, inr, Bool, true, false, not, ◌&&◌, Option, none, some, List, [],
  ◌∷◌, ◌++◌, arith, ◌==◌, Bool-cases, Option-cases, Bytes, codes, beq, beq_iff, any, All, lookup,
  lower,
}
use lamund.Dns.Types.{
  class_inet, type_soa, type_ns, NameLib, Rr, DnsRecord, type_any, type_cname, type_hinfo,
}
use lamund.Dns.Records.{to_rr}

module _ (lib : NameLib) where
  -- A record for the name, of the type that is asked for, or an alias, or the answer to ANY.
  pub record Answers (qname : Bytes) (qtype : ℕ) (rr : Rr) : Type 0 where
    pub name : rr.name ≡ qname
    pub rrtype :
        (rr.rrtype ≡ qtype)
        ⊎ ((rr.rrtype ≡ type_cname) ⊎ ((rr.rrtype ≡ type_hinfo) × (qtype ≡ type_any)))

  name-to_rr :
      (owner : Bytes) (r : DnsRecord) (rr : Rr) → to_rr lib owner r ≡ some rr → rr.name ≡ owner
  unfolding to_rr
  name-to_rr owner r rr h = ground arith

  abbrev Filtered : Bytes → ℕ → Rr → Type 0
  Filtered owner qtype rr = (rr.name ≡ owner) × ((qtype ≡ type_any) ⊎ (rr.rrtype ≡ qtype))

  filter_by_type-Filtered :
      (owner : Bytes) (qtype : ℕ) (recs : List DnsRecord)
      → All (Filtered owner qtype) (filter_by_type lib owner qtype recs)
  unfolding filter_by_type
  filter_by_type-Filtered owner qtype [] = tt
  filter_by_type-Filtered owner qtype (r ∷ rs) =
      let later = filter_by_type-Filtered owner qtype rs in
      elim (Option-cases (to_rr lib owner r)) [
        | inl dropped ↦ rw dropped later
        | inr (rr, made) ↦ rw made (ground (arith, name-to_rr owner r rr made))
      ]

  zone_match-Filtered :
      (zone : Zone) (owner : Bytes) (qtype : ℕ)
      → All (Filtered owner qtype) (zone_match lib zone owner qtype).0
  unfolding zone_match
  zone_match-Filtered zone owner qtype = elim (Option-cases (lookup owner zone.records)) [
    | inr (recs, found) ↦ rw found (filter_by_type-Filtered owner qtype recs)
    | inl absent ↦ elim (Option-cases (lookup (codes "*." ++ lib.fqdn zone.apex) zone.records)) [
      | inl none_there ↦ rw (absent, none_there) tt
      | inr (wild, found) ↦ rw (absent, found) (filter_by_type-Filtered owner qtype wild)
    ]
  ]

  ns_from-Answers :
      (apex : Bytes) (recs : List DnsRecord) → All (Answers apex type_ns) (ns_from lib apex recs)
  unfolding ns_from
  ns_from-Answers apex [] = tt
  ns_from-Answers apex (r ∷ rs) = ground (arith, ns_from-Answers apex rs)

  Filtered-Answers :
      (qname : Bytes) (qtype sought : ℕ) (rrs : List Rr)
      → sought ≢ type_any
      → (sought ≡ qtype) ⊎ (sought ≡ type_cname)
      → All (Filtered qname sought) rrs
      → All (Answers qname qtype) rrs
  Filtered-Answers qname qtype sought [] ne k h = tt
  Filtered-Answers qname qtype sought (rr ∷ rrs) ne k h = (
    record { name = h.0.0; rrtype = ground arith },
    Filtered-Answers qname qtype sought rrs ne k h.1,
  )

  or_next-Answers :
      (qname : Bytes) (qtype : ℕ) (rrs : List Rr) (next m : Msg)
      → All (Answers qname qtype) rrs
      → All (Answers qname qtype) next.answer
      → All (Answers qname qtype) (or_next lib rrs next m).answer
  or_next-Answers qname qtype [] next m h k = k
  or_next-Answers qname qtype (rr ∷ rrs) next m h k = h

  module _ (zone : Zone) (qname : Bytes) (qtype : ℕ) (m : Msg) (blank : m.answer ≡ []) where
    negative-Answers :
        (matched : Bool) → All (Answers qname qtype) (negative lib zone matched m).answer
    unfolding negative
    negative-Answers matched = rw blank tt

    by_cname-Answers :
        (matched : Bool)
        → All (Answers qname qtype) (by_cname lib zone qname qtype matched m).answer
    unfolding by_cname
    by_cname-Answers matched = elim (Bool-cases (not (qtype == type_cname))) [
      | inl other ↦ rw other (
          or_next-Answers qname qtype _ _ m
            (Filtered-Answers qname qtype type_cname _ (omega arith) (inr refl)
              (zone_match-Filtered zone qname type_cname))
            (negative-Answers matched))
      | inr same ↦ rw same (negative-Answers matched)
    ]

    by_records-Answers :
        qtype ≢ type_any → All (Answers qname qtype) (by_records lib zone qname qtype m).answer
    unfolding by_records
    by_records-Answers ne =
        or_next-Answers qname qtype _ _ m
          (Filtered-Answers qname qtype qtype _ ne (inl refl)
            (zone_match-Filtered zone qname qtype))
          (by_cname-Answers (zone_match lib zone qname qtype).1)

    zone_ns-Answers :
        (beq qname (lib.fqdn zone.apex) && qtype == type_ns) ≡ true
        → All (Answers qname qtype) (zone_ns lib zone)
    unfolding zone_ns
    zone_ns-Answers apex =
        let at_apex : qname ≡ lib.fqdn zone.apex =
          ground (arith, beq_iff qname (lib.fqdn zone.apex)) in
        let is_ns : qtype ≡ type_ns = ground arith in
        rw (at_apex, is_ns) (ns_from-Answers (lib.fqdn zone.apex) _)

    by_ns-Answers :
        qtype ≢ type_any → All (Answers qname qtype) (by_ns lib zone qname qtype m).answer
    unfolding by_ns
    by_ns-Answers ne = elim (Bool-cases (beq qname (lib.fqdn zone.apex) && qtype == type_ns)) [
      | inl apex ↦
          rw apex (or_next-Answers qname qtype _ _ m (zone_ns-Answers apex) (by_records-Answers ne))
      | inr other ↦ rw other (by_records-Answers ne)
    ]

    answer_in-Answers : All (Answers qname qtype) (answer_in lib zone qname qtype m).answer
    unfolding answer_in any_answer zone_soa
    answer_in-Answers = elim (Bool-cases (qtype == type_any)) [
      | inl any ↦ rw (any, blank) (record { name = refl; rrtype = ground arith }, tt)
      | inr specific ↦
          rw specific (elim (Bool-cases (beq qname (lib.fqdn zone.apex) && qtype == type_soa)) [
            | inl apex ↦
                rw (apex, blank)
                  (
                    record {
                      name = ground (arith, beq_iff qname (lib.fqdn zone.apex));
                      rrtype = ground arith;
                    },
                    tt,
                  )
            | inr other ↦ rw other (by_ns-Answers (ground arith))
          ])
    ]

  -- The header of every message of ServeDNS, and what its records are about.
  pub record IsReply (qname : Bytes) (qtype : ℕ) (m : Msg) : Type 0 where
    pub authoritative : m.authoritative ≡ true
    pub direct : m.recursion_available ≡ false
    pub about : All (Answers qname qtype) m.answer
    pub closing : IsClosed lib m
    pub minimal : IsMinimal lib qtype m

  module _ (zone : Zone) (qname : Bytes) (qtype : ℕ) where
    or_next-flags :
        (rrs : List Rr) (next m : Msg)
        → (next.authoritative ≡ m.authoritative)
          × (next.recursion_available ≡ m.recursion_available)
        → ((or_next lib rrs next m).authoritative ≡ m.authoritative)
          × ((or_next lib rrs next m).recursion_available ≡ m.recursion_available)
    or_next-flags [] next m h = h
    or_next-flags (rr ∷ rrs) next m h = (refl, refl)

    by_records-flags :
        (m : Msg)
        → ((by_records lib zone qname qtype m).authoritative ≡ m.authoritative)
          × ((by_records lib zone qname qtype m).recursion_available ≡ m.recursion_available)
    unfolding by_records by_cname negative
    by_records-flags m =
        or_next-flags (zone_match lib zone qname qtype).0 _ m
          (elim (Bool-cases (not (qtype == type_cname))) [
            | inl other ↦
                rw other (or_next-flags (zone_match lib zone qname type_cname).0 _ m (refl, refl))
            | inr same ↦ rw same (refl, refl)
          ])

    answer_in-flags :
        (m : Msg)
        → ((answer_in lib zone qname qtype m).authoritative ≡ m.authoritative)
          × ((answer_in lib zone qname qtype m).recursion_available ≡ m.recursion_available)
    unfolding answer_in by_ns
    answer_in-flags m =
        let records = by_records-flags m in
        let servers =
          or_next-flags (zone_ns lib zone) (by_records lib zone qname qtype m) m records in
        ground (arith, records, servers)

  answer_in-IsReply :
      (zone : Zone) (qname : Bytes) (qtype : ℕ) (m : Msg)
      → m.answer ≡ []
      → m.authority ≡ []
      → m.authoritative ≡ true
      → m.recursion_available ≡ false
      → IsReply qname qtype (answer_in lib zone qname qtype m)
  answer_in-IsReply zone qname qtype m blank bare auth direct = record {
    authoritative = (answer_in-flags zone qname qtype m).0 ∙ auth;
    direct = (answer_in-flags zone qname qtype m).1 ∙ direct;
    about = answer_in-Answers zone qname qtype m blank;
    closing = answer_in-IsClosed lib zone qname qtype m blank bare;
    minimal = answer_in-IsMinimal lib zone qname qtype m blank;
  }

  refuse-IsReply : (qname : Bytes) (qtype : ℕ) → IsReply qname qtype refuse
  refuse-IsReply qname qtype = record {
    authoritative = refl;
    direct = refl;
    about = tt;
    closing = inl refl;
    minimal = inr (inl refl);
  }

  edns-IsReply :
      (zone : Zone) (qname : Bytes) (qtype : ℕ) (edns : Bool)
      → IsReply qname qtype (answer_in lib zone qname qtype (with_edns lib edns reply))
  edns-IsReply zone qname qtype true = answer_in-IsReply zone qname qtype _ refl refl refl refl
  edns-IsReply zone qname qtype false = answer_in-IsReply zone qname qtype _ refl refl refl refl

  -- A property of a message, or none.
  abbrev pub OnReply : (Msg → Type 0) → Option Msg → Type 0
  OnReply P none = Unit
  OnReply P (some m) = P m

  limited-OnReply :
      (P : Msg → Type 0) (spent : Bool × Buckets) (m : Msg)
      → P m
      → OnReply P (limited lib spent m).0
  limited-OnReply P (true, rates) m h = h
  limited-OnReply P (false, rates) m h = tt

  in_zone-IsReply :
      (found : Option Zone) (now : ℕ) (subnet qname : Bytes) (qtype : ℕ) (edns : Bool)
      (rates : Buckets)
      → OnReply (IsReply qname qtype) (in_zone lib found now subnet qname qtype edns rates).0
  in_zone-IsReply none now subnet qname qtype edns rates = refuse-IsReply qname qtype
  in_zone-IsReply (some zone) now subnet qname qtype edns rates =
      limited-OnReply (IsReply qname qtype) (rrl_allow now subnet rates) _
        (edns-IsReply zone qname qtype edns)

  -- A reply to one question is authoritative and offers no recursion. Each record of its answer
  -- section is for the name of the question, and has its type, is an alias, or is the one HINFO
  -- record that answers a question of type ANY. The authority section is empty, or it is one SOA
  -- record and the answer section is empty.
  pub serve_dns-IsReply :
      (snap : Snapshot) (now : ℕ) (subnet : Bytes) (q : Question) (edns : Bool) (rates : Buckets)
      → OnReply
          (IsReply (lower (lib.fqdn q.name)) q.qtype)
          (serve_dns lib snap now subnet (record { questions = q ∷ []; edns = edns }) rates).0
  unfolding serve_dns
  serve_dns-IsReply snap now subnet q edns rates =
      elim (Bool-cases (not (q.qclass == class_inet))) [
        | inl foreign ↦ rw foreign (refuse-IsReply _ _)
        | inr inet ↦ rw inet (in_zone-IsReply (find_zone snap _) now subnet _ q.qtype edns rates)
      ]
