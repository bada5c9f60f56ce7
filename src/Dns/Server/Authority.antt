-- ===== src/Dns/Server/Authority.antt =====
-- What the authority section of internal/dns/handler.go holds, and the answer to ANY.
use lamund.Prelude.{
  ℕ, ◌≡◌, refl, ◌≢◌, ◌⊎◌, inl, inr, Bool, not, ◌&&◌, List, [], ◌∷◌, arith, ◌==◌, Bool-cases, Bytes,
  beq, any,
}
use lamund.Dns.Types.{NameLib, Rr, type_soa, type_any, type_ns, type_cname}
use lamund.Dns.Zones.{Zone, zone_soa, zone_ns, zone_match}
use lamund.Dns.Server.{Msg, any_answer, by_ns, by_cname, by_records, or_next, answer_in, negative}

module _ (lib : NameLib) where
  -- The authority section is empty, or it holds one SOA record and nothing is answered.
  abbrev pub IsClosed : Msg → Type 0
  IsClosed m =
      (m.authority ≡ [])
      ⊎ ((m.answer ≡ []) × ((rr : Rr) × (m.authority ≡ rr ∷ []) × (rr.rrtype ≡ type_soa)))

  or_next-IsClosed :
      (rrs : List Rr) (next m : Msg)
      → m.authority ≡ []
      → IsClosed next
      → IsClosed (or_next lib rrs next m)
  or_next-IsClosed [] next m h k = k
  or_next-IsClosed (rr ∷ rrs) next m h k = inl h

  module _ (zone : Zone) (qname : Bytes) (qtype : ℕ) (m : Msg) (blank : m.answer ≡ [])
      (bare : m.authority ≡ []) where
    negative-IsClosed : (matched : Bool) → IsClosed (negative lib zone matched m)
    unfolding negative zone_soa
    negative-IsClosed matched = inr (blank, (zone_soa lib zone, rw bare refl, refl))

    by_records-IsClosed : IsClosed (by_records lib zone qname qtype m)
    unfolding by_records by_cname
    by_records-IsClosed =
        let matched = (zone_match lib zone qname qtype).1 in
        or_next-IsClosed (zone_match lib zone qname qtype).0 _ m bare
          (elim (Bool-cases (not (qtype == type_cname))) [
            | inl other ↦ rw other (
                or_next-IsClosed (zone_match lib zone qname type_cname).0 _ m bare
                  (negative-IsClosed matched))
            | inr same ↦ rw same (negative-IsClosed matched)
          ])

    pub answer_in-IsClosed : IsClosed (answer_in lib zone qname qtype m)
    unfolding answer_in by_ns any_answer
    answer_in-IsClosed = elim (Bool-cases (qtype == type_any)) [
      | inl any ↦ rw any (inl bare)
      | inr specific ↦ elim (Bool-cases (beq qname (lib.fqdn zone.apex) && qtype == type_soa)) [
        | inl apex ↦ rw (specific, apex) (inl bare)
        | inr other ↦ elim (Bool-cases (beq qname (lib.fqdn zone.apex) && qtype == type_ns)) [
          | inl ns ↦
              rw (specific, other, ns)
                (or_next-IsClosed (zone_ns lib zone) _ m bare by_records-IsClosed)
          | inr no_ns ↦ rw (specific, other, no_ns) by_records-IsClosed
        ]
      ]
    ]

  -- Nothing more than one record answers a question of type ANY.
  abbrev pub IsMinimal : ℕ → Msg → Type 0
  IsMinimal qtype m = (qtype ≢ type_any) ⊎ ((m.answer ≡ []) ⊎ ((rr : Rr) × (m.answer ≡ rr ∷ [])))

  pub answer_in-IsMinimal :
      (zone : Zone) (qname : Bytes) (qtype : ℕ) (m : Msg)
      → m.answer ≡ []
      → IsMinimal qtype (answer_in lib zone qname qtype m)
  unfolding answer_in any_answer
  answer_in-IsMinimal zone qname qtype m blank = elim (Bool-cases (qtype == type_any)) [
    | inl any ↦ rw (any, blank) (inr (inr (_, refl)))
    | inr specific ↦ inl (λ e. ground (arith, specific, e))
  ]
