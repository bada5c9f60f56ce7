-- ===== src/Api/Records.antt =====
-- internal/api/dns.go: labelRe, caaRe and validateDNSRecord. A regular expression is a matcher with
-- the backtracking of `+` written out; `none` is the nil error.
pub mod Served
use lamund.Prelude.{
  ℕ, Bool, true, false, not, ◌&&◌, ◌||◌, Option, none, some, [], ◌∷◌, ltb, leb, ◌==◌, if◌then◌else◌,
  Bytes, codes, beq, split, length, any, all, is_empty, trim_suffix,
}
use lamund.Domain.{validate_domain, first_is, last_is}
use lamund.Dns.Types.{NameLib, Ip, v4, v6}
use lamund.Dns.Records.{cut, caa_flags}
use lamund.Quota.{int_lt}

pub data RecordError : Type 0 where
  bad_name bad_address apex_cname bad_host negative_priority too_long line_break : RecordError
  bad_caa bad_flags unsupported : RecordError

abbrev in_range : ℕ → ℕ → ℕ → Bool
in_range a b c = leb a c && leb c b

abbrev is_digit : ℕ → Bool
is_digit c = in_range b'0' b'9' c

-- [a-z0-9_-]
abbrev is_label_byte : ℕ → Bool
is_label_byte c = in_range b'a' b'z' c || (is_digit c || (c == b'_' || c == b'-'))

-- [a-z0-9_]([a-z0-9_-]*[a-z0-9_])?
unfoldable pub is_label : Bytes → Bool
unfolding first_is last_is
is_label l = (not (is_empty l) && all is_label_byte l) && not (first_is b'-' l || last_is b'-' l)

-- the labels behind the dots of a wildcard
abbrev is_wild : Bytes → Bool
is_wild [] = true
is_wild (c ∷ s) = c == b'.' && all is_label (split b'.' s)

abbrev is_star : Bytes → Bool
is_star [] = false
is_star (c ∷ s) = c == b'*' && is_wild s

-- labelRe.MatchString
unfoldable pub label_matches : Bytes → Bool
unfolding is_label
label_matches name = (beq name (codes "@") || is_star name) || all is_label (split b'.' name)

-- One byte or more of a class, and then the rest of the expression.
unfoldable pub plus : (ℕ → Bool) → (Bytes → Bool) → Bytes → Bool
plus p k [] = false
plus p k (c ∷ s) = let more = plus p k s in p c && (more || k s)

-- \s
abbrev is_blank : ℕ → Bool
is_blank c = c == 32 || ((c == 9 || c == 10) || (c == 12 || c == 13))

-- \w
abbrev is_word : ℕ → Bool
is_word c = in_range b'a' b'z' c || (in_range b'A' b'Z' c || (is_digit c || c == b'_'))

-- caaRe.MatchString
unfoldable pub caa_matches : Bytes → Bool
unfolding plus
caa_matches =
    plus is_digit
      (plus is_blank (plus is_word (plus is_blank (plus (λ c. not (c == 10)) is_empty))))

-- strings.SplitN(value, " ", 3)[0]
abbrev before_space : Bytes → Option (Bytes × Bytes) → Bytes
before_space value none = value
before_space value (some (flags, rest)) = flags

abbrev checked_flags : Option ℕ → Option RecordError
checked_flags none = some bad_flags
checked_flags (some n) = none

unfoldable pub check_caa : Bytes → Option RecordError
unfolding caa_matches
check_caa value =
    if not (caa_matches value)
    then some bad_caa
    else checked_flags (caa_flags (before_space value (cut 32 value)))

abbrev check_a : Option Ip → Option RecordError
check_a (some (v4 ip)) = none
check_a (some (v6 ip)) = some bad_address
check_a none = some bad_address

abbrev check_aaaa : Option Ip → Option RecordError
check_aaaa (some (v6 ip)) = none
check_aaaa (some (v4 ip)) = some bad_address
check_aaaa none = some bad_address

abbrev is_host : Bytes → Bool
is_host value = elim (validate_domain (trim_suffix value (b'.' ∷ []))) [
  | none ↦ true
  | some e ↦ false
]

abbrev check_host : Bytes → Option RecordError
check_host value = if is_host value then none else some bad_host

module _ (lib : NameLib) where
  -- the cases of the type
  unfoldable pub check_value : Bytes → Bytes → Bytes → ℕ → Option RecordError
  check_value kind name value priority =
      if beq kind (codes "A")
      then check_a (lib.parse_ip value)
      else if beq kind (codes "AAAA")
      then check_aaaa (lib.parse_ip value)
      else if beq kind (codes "CNAME")
      then (if beq name (codes "@") then some apex_cname else check_host value)
      else if beq kind (codes "NS")
      then check_host value
      else if beq kind (codes "MX")
      then (if not (is_host value)
          then some bad_host
          else if int_lt priority 0
          then some negative_priority
          else none)
      else if beq kind (codes "TXT")
      then (if ltb 65535 (length value)
          then some too_long
          else if any (λ c. c == 13 || c == 10) value
          then some line_break
          else none)
      else if beq kind (codes "CAA")
      then check_caa value
      else some unsupported

  unfoldable pub validate_dns_record : Bytes → Bytes → Bytes → ℕ → Option RecordError
  validate_dns_record kind name value priority =
      if not (label_matches name) then some bad_name else check_value kind name value priority
