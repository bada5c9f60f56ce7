-- ===== src/Api/Records/Served.antt =====
-- What the validation of internal/api/dns.go accepts, internal/dns can answer with.
use lamund.Api.Records.{
  caa_matches, before_space, check_aaaa, check_caa, checked_flags, check_a, label_matches,
  check_value, validate_dns_record,
}
use lamund.Prelude.{
  ℕ, ◌≡◌, refl, ◌⊎◌, inl, inr, Bool, true, false, Option, none, some, Bool-cases, Bytes, codes, beq,
  beq_iff,
}
use lamund.Dns.Types.{NameLib, DnsRecord, Ip, v4, v6, Rr}
use lamund.Dns.Records.{rr_caa_rest, rr_a, rr_caa_flags, rr_caa, rr_aaaa, cut, caa_flags, to_rr}

-- Two spaces that part the flags and the tag from the value.
abbrev second_space : Option (Bytes × Bytes) → Bool
second_space none = false
second_space (some (flags, rest)) = elim (cut 32 rest) [ none ↦ false | some p ↦ true ]

abbrev pub is_spaced : Bytes → Bool
is_spaced value = second_space (cut 32 value)

abbrev pub Answerable : Bytes → Bytes → Option Rr → Type 0
Answerable kind value o =
    ((rr : Rr) × (o ≡ some rr)) ⊎ ((kind ≡ codes "CAA") × (is_spaced value ≡ false))

module _ (lib : NameLib) (owner : Bytes) (r : DnsRecord) where
  abbrev IsServed : Option Rr → Type 0
  IsServed o = (rr : Rr) × (o ≡ some rr)

  a-IsServed : (o : Option Ip) → check_a o ≡ none → IsServed (rr_a lib owner r o)
  a-IsServed none h = cc (h)
  a-IsServed (some (v4 ip)) h = (_, refl)
  a-IsServed (some (v6 ip)) h = cc (h)

  aaaa-IsServed : (o : Option Ip) → check_aaaa o ≡ none → IsServed (rr_aaaa lib owner r o)
  aaaa-IsServed none h = cc (h)
  aaaa-IsServed (some (v4 ip)) h = cc (h)
  aaaa-IsServed (some (v6 ip)) h = (_, refl)

  flags-IsServed :
      (tag value : Bytes) (o : Option ℕ)
      → checked_flags o ≡ none
      → IsServed (rr_caa_flags lib owner r tag value o)
  flags-IsServed tag value none h = cc (h)
  flags-IsServed tag value (some n) h = (_, refl)

  rest-IsServed :
      (flags : Bytes) (o : Option (Bytes × Bytes))
      → checked_flags (caa_flags flags) ≡ none
      → IsServed (rr_caa_rest lib owner r flags o) ⊎ (o ≡ none)
  rest-IsServed flags none h = inr refl
  rest-IsServed flags (some (tag, value)) h = inl (flags-IsServed tag value (caa_flags flags) h)

  caa-IsServed :
      (value : Bytes) (o : Option (Bytes × Bytes))
      → checked_flags (caa_flags (before_space value o)) ≡ none
      → IsServed (rr_caa lib owner r o) ⊎ (second_space o ≡ false)
  caa-IsServed value none h = inr refl
  caa-IsServed value (some (flags, rest)) h = elim (rest-IsServed flags (cut 32 rest) h) [
    | inl s ↦ inl s
    | inr e ↦ inr (rw (second_space, e) refl)
  ]

  check_caa-IsServed :
      check_caa r.value ≡ none
      → IsServed (rr_caa lib owner r (cut 32 r.value)) ⊎ (is_spaced r.value ≡ false)
  unfolding check_caa
  check_caa-IsServed h = elim (Bool-cases (caa_matches r.value)) [
    | inl e ↦ caa-IsServed r.value (cut 32 r.value) (rw e at h)
    | inr e ↦ cc (rw e at h)
  ]

  served :
      check_value lib r.kind r.name r.value r.priority ≡ none
      → Answerable r.kind r.value (to_rr lib owner r)
  unfolding check_value to_rr
  served h = elim (Bool-cases (beq r.kind (codes "A"))) [
    | inl k ↦ rw k (inl (a-IsServed (lib.parse_ip r.value) (rw k at h)))
    | inr k1 ↦ elim (Bool-cases (beq r.kind (codes "AAAA"))) [
      | inl k ↦ rw (k1, k) (inl (aaaa-IsServed (lib.parse_ip r.value) (rw (k1, k) at h)))
      | inr k2 ↦ elim (Bool-cases (beq r.kind (codes "CNAME"))) [
        | inl k ↦ rw (k1, k2, k) (inl (_, refl))
        | inr k3 ↦ elim (Bool-cases (beq r.kind (codes "MX"))) [
          | inl k ↦ rw (k1, k2, k3, k) (inl (_, refl))
          | inr k4 ↦ elim (Bool-cases (beq r.kind (codes "TXT"))) [
            | inl k ↦ rw (k1, k2, k3, k4, k) (inl (_, refl))
            | inr k5 ↦ elim (Bool-cases (beq r.kind (codes "NS"))) [
              | inl k ↦ rw (k1, k2, k3, k4, k5, k) (inl (_, refl))
              | inr k6 ↦ elim (Bool-cases (beq r.kind (codes "CAA"))) [
                | inl k ↦
                    rw (k1, k2, k3, k4, k5, k6, k)
                      (elim (check_caa-IsServed (rw (k1, k2, k3, k6, k4, k5, k) at h)) [
                        | inl s ↦ inl s
                        | inr e ↦ inr ((beq_iff r.kind (codes "CAA")).0 k, e)
                      ])
                | inr k7 ↦ cc (rw (k1, k2, k3, k6, k4, k5, k7) at h)
              ]
            ]
          ]
        ]
      ]
    ]
  ]

  -- A record that the validation accepts is one that the server turns into a resource record,
  -- except a CAA record whose value has fewer than two spaces.
  pub validate_dns_record-Answerable :
      validate_dns_record lib r.kind r.name r.value r.priority ≡ none
      → Answerable r.kind r.value (to_rr lib owner r)
  unfolding validate_dns_record
  validate_dns_record-Answerable h = elim (Bool-cases (label_matches r.name)) [
    | inl e ↦ served (rw e at h)
    | inr e ↦ cc (rw e at h)
  ]
