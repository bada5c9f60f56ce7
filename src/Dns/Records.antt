-- ===== src/Dns/Records.antt =====
-- internal/dns/zones.go: toRR and chunkTXT, from the rows of the store to resource records.
pub mod Chunks
use mathlib.Core.Option
use lamund.Prelude.{
  ℕ, zero, suc, ◌+◌, ◌-◌, ◌*◌, ◌&&◌, Option, none, some, List, [], ◌∷◌, map, ltb, leb, ◌==◌,
  if◌then◌else◌, Bytes, codes, beq, length, take, drop,
}
use lamund.Dns.Types.{
  DnsRecord, NameLib, Ip, v4, v6, Rr, Rdata, a, aaaa, cname, mx, txt, ns, caa, class_inet, type_a,
  type_aaaa, type_cname, type_mx, type_txt, type_ns, type_caa, u32, u16,
}

-- The loop of chunkTXT, on fuel; `most` is the constant max of the source.
unfoldable pub chunk_from : ℕ → ℕ → Bytes → List Bytes
chunk_from most zero s = s ∷ []
chunk_from most (suc fuel) s =
    let rest = chunk_from most fuel (drop most s) in
    if ltb most (length s) then take most s ∷ rest else s ∷ []

-- The length of the text is fuel enough.
unfoldable pub chunk_txt : Bytes → List Bytes
unfolding chunk_from
chunk_txt s = chunk_from 255 (length s) s

-- strings.SplitN(s, " ", 3) where it has three parts: the text around the first two spaces
unfoldable pub cut : ℕ → Bytes → Option (Bytes × Bytes)
cut sep [] = none
cut sep (c ∷ s) =
    let rest = Option.map (λ (p : Bytes × Bytes). (c ∷ p.0, p.1)) (cut sep s) in
    if c == sep then some ([], s) else rest

-- The digits of strconv.Atoi. A value past the range of int is an error there and a large number
-- here, which the caller refuses too.
unfoldable pub digits_from : ℕ → Bytes → Option ℕ
digits_from n [] = some n
digits_from n (c ∷ s) =
    let rest = digits_from (n * 10 + (c - b'0')) s in
    if leb b'0' c && leb c b'9' then rest else none

unfoldable pub digits : Bytes → Option ℕ
unfolding digits_from
digits [] = none
digits (c ∷ s) = digits_from 0 (c ∷ s)

-- -n is refused by the caller unless it is 0.
abbrev zero_only : Option ℕ → Option ℕ
zero_only none = none
zero_only (some n) = if n == 0 then some 0 else none

abbrev byte_only : Option ℕ → Option ℕ
byte_only none = none
byte_only (some n) = if ltb 255 n then none else some n

-- strconv.Atoi with the test that the flags lie between 0 and 255
unfoldable pub caa_flags : Bytes → Option ℕ
unfolding digits
caa_flags [] = none
caa_flags (c ∷ s) =
    if c == b'-'
    then zero_only (digits s)
    else if c == b'+'
    then byte_only (digits s)
    else byte_only (digits (c ∷ s))

module _ (lib : NameLib) (owner : Bytes) (r : DnsRecord) where
  abbrev pub rr : ℕ → Rdata → Option Rr
  rr rrtype rdata =
      some (record {
        name = owner;
        rrtype = rrtype;
        class = class_inet;
        ttl = u32 r.ttl;
        rdata = rdata;
      })

  abbrev pub rr_a : Option Ip → Option Rr
  rr_a (some (v4 ip)) = rr type_a (a ip)
  rr_a (some (v6 ip)) = none
  rr_a none = none

  abbrev pub rr_aaaa : Option Ip → Option Rr
  rr_aaaa (some (v4 ip)) = none
  rr_aaaa (some (v6 ip)) = rr type_aaaa (aaaa ip)
  rr_aaaa none = none

  abbrev pub rr_caa_flags : Bytes → Bytes → Option ℕ → Option Rr
  rr_caa_flags tag value none = none
  rr_caa_flags tag value (some n) = rr type_caa (caa n tag value)

  abbrev pub rr_caa_rest : Bytes → Option (Bytes × Bytes) → Option Rr
  rr_caa_rest flags none = none
  rr_caa_rest flags (some (tag, value)) = rr_caa_flags tag value (caa_flags flags)

  abbrev pub rr_caa : Option (Bytes × Bytes) → Option Rr
  rr_caa none = none
  rr_caa (some (flags, rest)) = rr_caa_rest flags (cut 32 rest)

  -- `none` is the nil record.
  unfoldable pub to_rr : Option Rr
  unfolding beq chunk_txt cut caa_flags
  to_rr =
      if beq r.kind (codes "A")
      then rr_a (lib.parse_ip r.value)
      else if beq r.kind (codes "AAAA")
      then rr_aaaa (lib.parse_ip r.value)
      else if beq r.kind (codes "CNAME")
      then rr type_cname (cname (lib.fqdn r.value))
      else if beq r.kind (codes "MX")
      then rr type_mx (mx (u16 r.priority) (lib.fqdn r.value))
      else if beq r.kind (codes "TXT")
      then rr type_txt (txt (chunk_txt r.value))
      else if beq r.kind (codes "NS")
      then rr type_ns (ns (lib.fqdn r.value))
      else if beq r.kind (codes "CAA")
      then rr_caa (cut 32 r.value)
      else none
