-- ===== src/Dns/Server/Names.antt =====
-- Which names internal/dns/handler.go denies.
use lamund.Prelude.{
  ℕ, ◌≡◌, refl, ◌≢◌, ◌⊎◌, inl, inr, Bool, true, false, not, ◌||◌, Option, none, some, List, [], ◌∷◌,
  ◌++◌, arith, ◌==◌, if◌then◌else◌, Bool-cases, Bytes, codes, beq, beq_iff, lookup,
}
use lamund.Dns.Types.{NameLib, Rr, DnsRecord, type_any, type_cname}
use lamund.Dns.Zones.{Zone, zone_soa, zone_match}
use lamund.Dns.Server.{
  Msg, success, name_error, reply, negative, by_cname, by_records, by_ns, answer_in, or_next,
}

module _ (lib : NameLib) (zone : Zone) (qname : Bytes) where
  abbrev is_some : Option (List DnsRecord) → Bool
  is_some none = false
  is_some (some r) = true

  abbrev wildcard : Bytes
  wildcard = codes "*." ++ lib.fqdn zone.apex

  -- The zone has records for the name or for its wildcard.
  abbrev pub is_known : Bool
  is_known = is_some (lookup qname zone.records) || is_some (lookup wildcard zone.records)

  match-known : (qtype : ℕ) → (zone_match lib zone qname qtype).1 ≡ is_known
  unfolding zone_match
  match-known qtype = ground arith

  match-unknown : (qtype : ℕ) → is_known ≡ false → (zone_match lib zone qname qtype).0 ≡ []
  unfolding zone_match
  match-unknown qtype h = ground arith

  -- The code and the authority section that go with an answer section.
  abbrev Coded : Msg → Type 0
  Coded m =
      (m.rcode ≡ (if is_known then success else name_error))
      × ((m.answer ≢ []) ⊎ (m.authority ≡ zone_soa lib zone ∷ []))

  negative-Coded : Coded (negative lib zone is_known reply)
  unfolding negative
  negative-Coded = (ground arith, inr refl)

  or_next-Coded :
      (rrs : List Rr) (next : Msg)
      → (is_known ≡ false → rrs ≡ [])
      → Coded next
      → Coded (or_next lib rrs next reply)
  or_next-Coded [] next h k = k
  or_next-Coded (rr ∷ rrs) next h k = (ground arith, inl (λ e. cc))

  by_records-Coded : (qtype : ℕ) → Coded (by_records lib zone qname qtype reply)
  unfolding by_records by_cname
  by_records-Coded qtype = rw (match-known qtype) (
      or_next-Coded _ _ (match-unknown qtype) (elim (Bool-cases (not (qtype == type_cname))) [
        | inl other ↦ rw other (or_next-Coded _ _ (match-unknown type_cname) negative-Coded)
        | inr same ↦ rw same negative-Coded
      ]))

  -- A name below the apex is denied exactly if the zone has records neither for it nor for the
  -- wildcard, whatever the type, ANY set apart. An empty answer comes with the SOA of the zone.
  pub answer_in-Coded :
      (qtype : ℕ)
      → qname ≢ lib.fqdn zone.apex
      → qtype ≢ type_any
      → ((answer_in lib zone qname qtype reply).rcode ≡ (if is_known then success else name_error))
        × (((answer_in lib zone qname qtype reply).answer ≢ [])
            ⊎ ((answer_in lib zone qname qtype reply).authority ≡ zone_soa lib zone ∷ []))
  unfolding answer_in by_ns
  answer_in-Coded qtype below specific =
      let other : beq qname (lib.fqdn zone.apex) ≡ false =
        ground (arith, beq_iff qname (lib.fqdn zone.apex)) in
      let typed : (qtype == type_any) ≡ false = ground arith in
      rw (typed, other) (by_records-Coded qtype)
