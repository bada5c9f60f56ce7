-- ===== src/Store/Lookup/Longest.antt =====
-- The zone that is found is the longest that covers the domain, and the label with it gives the
-- domain back.
use lamund.Store.Conn.{ok, Conn, query}
use lamund.Store.Zones.{clean_name, list_dns_zones}
use lamund.Store.Tables.{Tables, domain_before, insert_row, order_by}
use lamund.Dns.Types.{DnsZone}
use lamund.Store.Lookup.{labelled, label_of, find_dns_zone_for_domain, longer, covers, best_zone}
use lamund.Prelude.{
  there, here, ◌≤◌, ◌≡◌, refl, sym, ap, ◌⊎◌, inl, inr, Bool, true, false, ◌&&◌, Option, none, some,
  List, [], ◌∷◌, ◌++◌, append_assoc, append-nil, arith, ltb, if◌then◌else◌, ltb→lt, Bool-cases,
  All-mono, Bytes, codes, beq, beq_iff, length, All, All-append, In, trim_suffix, has_suffix,
}

-- What no rival beats: a zone that does not cover the domain, or has no longer name.
abbrev Rival : Bytes → DnsZone → DnsZone → Type 0
Rival domain z y = (covers domain y.domain ≡ false) ⊎ (length y.domain ≤ length z.domain)

abbrev pub IsBest : Bytes → List DnsZone → Option DnsZone → Type 0
IsBest domain zones none = All (λ y. covers domain y.domain ≡ false) zones
IsBest domain zones (some z) =
    In z zones × (covers domain z.domain ≡ true) × All (Rival domain z) zones

In-snoc : {A : Type 0} (x y : A) (l : List A) → In x l → In x (l ++ y ∷ [])
In-snoc x y [] m = elim m [ ]
In-snoc x y (z ∷ l) (here e) = here e
In-snoc x y (z ∷ l) (there h) = there (In-snoc x y l h)

In-last : {A : Type 0} (y : A) (l : List A) → In y (l ++ y ∷ [])
In-last y [] = here refl
In-last y (z ∷ l) = there (In-last y l)

-- The loop, `seen` being the zones before it.
step-IsBest :
    (domain : Bytes) (seen : List DnsZone) (z : DnsZone) (best : Option DnsZone)
    → IsBest domain seen best
    → IsBest domain
        (seen ++ z ∷ [])
        (if covers domain z.domain && longer z.domain best then some z else best)
step-IsBest domain seen z none h = elim (Bool-cases (covers domain z.domain)) [
  | inl e ↦ rw e (
    In-last z seen,
    e,
    All-append (Rival domain z) seen (z ∷ [])
        (All-mono (λ y. covers domain y.domain ≡ false) (Rival domain z) seen (λ y k. inl k) h)
        (inr (omega arith), tt),
  )
  | inr e ↦ rw e (All-append (λ y. covers domain y.domain ≡ false) seen (z ∷ []) h (e, tt))
]
step-IsBest domain seen z (some b) (there_is, yes_b, rivals) =
    elim (Bool-cases (covers domain z.domain)) [
      | inl e ↦ elim (Bool-cases (ltb (length b.domain) (length z.domain))) [
        | inl l ↦
            rw (e, l)
              (
                In-last z seen,
                e,
                All-append (Rival domain z) seen (z ∷ [])
                    (All-mono (Rival domain b) (Rival domain z) seen
                      (λ y k. elim k [
                        | inl n ↦ inl n
                        | inr m ↦
                            inr (omega (arith, m, ltb→lt (length b.domain) (length z.domain) l))
                      ])
                      rivals)
                    (inr (omega arith), tt),
              )
        | inr l ↦
            rw (e, l)
              (
                In-snoc b z seen there_is,
                yes_b,
                All-append (Rival domain b) seen (z ∷ []) rivals (inr (ground (arith, l)), tt),
              )
      ]
      | inr e ↦ rw e (
        In-snoc b z seen there_is,
        yes_b,
        All-append (Rival domain b) seen (z ∷ []) rivals (inl e, tt),
      )
    ]

best_zone-IsBest :
    (domain : Bytes) (seen zones : List DnsZone) (best : Option DnsZone)
    → IsBest domain seen best
    → IsBest domain (seen ++ zones) (best_zone domain best zones)
unfolding best_zone
best_zone-IsBest domain seen [] best h = rw (append-nil seen) h
best_zone-IsBest domain seen (z ∷ zs) best h =
    rw (← append_assoc seen (z ∷ []) zs)
      (best_zone-IsBest domain (seen ++ z ∷ []) zs _ (step-IsBest domain seen z best h))

In-cons : {A : Type 0} (x y : A) (k l : List A) → (In x k → In x l) → In x (y ∷ k) → In x (y ∷ l)
In-cons x y k l f (here e) = here e
In-cons x y k l f (there m) = there (f m)

In-exchange : {A : Type 0} (x y z : A) (l : List A) → In x (y ∷ z ∷ l) → In x (z ∷ y ∷ l)
In-exchange x y z l (here e) = there (here e)
In-exchange x y z l (there (here e)) = here e
In-exchange x y z l (there (there m)) = there (there m)

module _ {A : Type 0} (before : A → A → Bool) where
  All-insert_row :
      (P : A → Type 0) (x : A) (l : List A) → All P (insert_row before x l) → P x × All P l
  unfolding insert_row
  All-insert_row P x [] h = h
  All-insert_row P x (y ∷ l) h = elim (Bool-cases (before y x)) [
    | inl e ↦ let (hy, hl) = rw e at h in let (hx, k) = All-insert_row P x l hl in (hx, (hy, k))
    | inr e ↦ rw e at h
  ]

  pub All-order_by : (P : A → Type 0) (l : List A) → All P (order_by before l) → All P l
  unfolding order_by
  All-order_by P [] h = tt
  All-order_by P (x ∷ l) h =
      let (hx, k) = All-insert_row P x (order_by before l) h in (hx, All-order_by P l k)

  In-insert_row : (x y : A) (l : List A) → In x (insert_row before y l) → In x (y ∷ l)
  unfolding insert_row
  In-insert_row x y [] m = m
  In-insert_row x y (z ∷ l) m = elim (Bool-cases (before z y)) [
    | inl e ↦
        In-exchange x z y l
          (In-cons x z (insert_row before y l) (y ∷ l) (In-insert_row x y l) (rw e at m))
    | inr e ↦ rw e at m
  ]

  pub In-order_by : (x : A) (l : List A) → In x (order_by before l) → In x l
  unfolding order_by
  In-order_by x [] m = m
  In-order_by x (y ∷ l) m =
      In-cons x y (order_by before l) l (In-order_by x l) (In-insert_row x y (order_by before l) m)

suffix-append : (s p : Bytes) → has_suffix s p ≡ true → trim_suffix s p ++ p ≡ s
unfolding has_suffix trim_suffix
suffix-append [] p h = sym ((beq_iff [] p).0 h)
suffix-append (c ∷ s) p h = elim (Bool-cases (beq (c ∷ s) p)) [
  | inl e ↦ rw e (sym ((beq_iff (c ∷ s) p).0 e))
  | inr e ↦ rw e (ap (λ k. c ∷ k) (suffix-append s p (rw e at h)))
]

-- The label with the apex gives the domain.
abbrev pub Spells : Bytes → Bytes → Bytes → Type 0
Spells domain apex label = ((label ≡ codes "@") × (domain ≡ apex)) ⊎ (domain ≡ label ++ b'.' ∷ apex)

label_of-Spells :
    (domain apex : Bytes) → covers domain apex ≡ true → Spells domain apex (label_of domain apex)
unfolding covers label_of
label_of-Spells domain apex h = elim (Bool-cases (beq domain apex)) [
  | inl e ↦ rw e (inl (refl, (beq_iff domain apex).0 e))
  | inr e ↦ rw e (inr (sym (suffix-append domain (b'.' ∷ apex) (rw e at h))))
]

-- What is found of the zones: nothing if none of them covers the domain, and else one that covers
-- it, with its label, that no covering zone is longer than.
abbrev pub IsFound : Bytes → List DnsZone → Option (DnsZone × Bytes) → Type 0
IsFound domain zones none = All (λ y. covers domain y.domain ≡ false) zones
IsFound domain zones (some (z, label)) =
    In z zones × Spells domain z.domain label × All (Rival domain z) zones

labelled-IsFound :
    (domain : Bytes) (zones : List DnsZone) (best : Option DnsZone)
    → IsBest domain (order_by domain_before zones) best
    → IsFound domain zones (labelled domain best)
labelled-IsFound domain zones none h = All-order_by domain_before _ zones h
labelled-IsFound domain zones (some z) (there_is, covered, rivals) = (
  In-order_by domain_before z zones there_is,
  label_of-Spells domain z.domain covered,
  All-order_by domain_before (Rival domain z) zones rivals,
)

-- Unless the engine refuses the query, the result is no zone if none of the table covers the
-- domain, and else a zone of the table that covers it, that no covering zone has a longer name
-- than, with the label that in front of the zone's name spells the domain. The domain is compared
-- in lower case and without white space around it, and the tables stay as they are.
pub find_dns_zone_for_domain-IsFound :
    (domain : Bytes) (c : Conn Tables)
    → c.faults c.clock ≡ false
    → (o : Option (DnsZone × Bytes)) × ((find_dns_zone_for_domain domain c).0 ≡ ok o)
      × IsFound (clean_name domain) c.db.zones o
      × ((find_dns_zone_for_domain domain c).1.db ≡ c.db)
unfolding find_dns_zone_for_domain list_dns_zones query
find_dns_zone_for_domain-IsFound domain c h =
    let name = clean_name domain in
    let sorted = order_by domain_before c.db.zones in
    (
      labelled name (best_zone name none sorted),
      rw h refl,
      labelled-IsFound name c.db.zones (best_zone name none sorted)
          (best_zone-IsBest name [] sorted none tt),
      rw h refl,
    )
