-- ===== src/Domain/Rules.antt =====
-- The host names that internal/store/domain.go accepts, described without the code's loops.
use lamund.Prelude.{
  ℕ, ◌≤◌, ◌≡◌, ◌≢◌, ◌↔◌, ◌⊎◌, inl, inr, refl, sym, false, none, List, [], ◌∷◌, arith, Bytes, codes,
  contains, has_prefix, split, join, Lacks, split-join, join-split, length, All, All-append,
  Option-cases,
}
use lamund.Domain.{first_is, last_is, check_chars, check_label, check_labels, validate_domain}

-- A lower-case letter, a digit or a hyphen.
abbrev pub IsLdh : ℕ → Type 0
IsLdh c = ((b'a' ≤ c) × (c ≤ b'z')) ⊎ (((b'0' ≤ c) × (c ≤ b'9')) ⊎ (c ≡ b'-'))

-- A label of RFC 1123.
pub record IsLabel (l : Bytes) : Type 0 where
  pub nonempty : 1 ≤ length l
  pub short : length l ≤ 63
  pub start : first_is b'-' l ≡ false
  pub finish : last_is b'-' l ≡ false
  pub chars : All IsLdh l

-- At least two labels, joined by dots, of 253 bytes at most.
pub record IsDomain (d : Bytes) : Type 0 where
  pub labels : List Bytes
  pub two : 2 ≤ length labels
  pub valid : All IsLabel labels
  pub joined : d ≡ join b'.' labels
  pub nonempty : 1 ≤ length d
  pub short : length d ≤ 253

check_chars_sound : (s : Bytes) → check_chars s ≡ none → All IsLdh s
unfolding check_chars
check_chars_sound [] h = tt
check_chars_sound (c ∷ s) h = ground (arith, check_chars_sound s)

check_chars_complete : (s : Bytes) → All IsLdh s → check_chars s ≡ none
unfolding check_chars
check_chars_complete [] h = refl
check_chars_complete (c ∷ s) h = ground (arith, check_chars_complete s h.1)

check_label_sound : (l : Bytes) → check_label l ≡ none → IsLabel l
unfolding check_label
check_label_sound l h = ground (arith, check_chars_sound l)

check_label_complete : (l : Bytes) → IsLabel l → check_label l ≡ none
unfolding check_label
check_label_complete l v = ground (arith, check_chars_complete l v.chars)

check_labels_sound : (ls : List Bytes) → check_labels ls ≡ none → All IsLabel ls
unfolding check_labels
check_labels_sound [] h = tt
check_labels_sound (l ∷ ls) h = elim (Option-cases (check_label l)) [
  | inl good ↦ (check_label_sound l good, check_labels_sound ls (rw good at h))
  | inr (e, bad) ↦ cc (bad)
]

check_labels_complete : (ls : List Bytes) → All IsLabel ls → check_labels ls ≡ none
unfolding check_labels
check_labels_complete [] h = refl
check_labels_complete (l ∷ ls) h =
    ground (arith, check_label_complete l h.0, check_labels_complete ls h.1)

-- A host name has no asterisk, and no label has a dot.
abbrev pub IsPlain : ℕ → Type 0
IsPlain c = (c ≢ b'*') × (c ≢ b'/')

IsPlain-label : (l : Bytes) → All IsLdh l → All IsPlain l
IsPlain-label [] h = tt
IsPlain-label (c ∷ s) h = (grind arith, IsPlain-label s h.1)

Lacks-label : (l : Bytes) → All IsLdh l → Lacks b'.' l
Lacks-label [] h = tt
Lacks-label (c ∷ s) h = (grind arith, Lacks-label s h.1)

Lacks-labels : (ls : List Bytes) → All IsLabel ls → All (Lacks b'.') ls
Lacks-labels [] h = tt
Lacks-labels (l ∷ ls) h = (Lacks-label l h.0.chars, Lacks-labels ls h.1)

IsPlain-join : (ls : List Bytes) → All IsLabel ls → All IsPlain (join b'.' ls)
unfolding join
IsPlain-join [] h = tt
IsPlain-join (l ∷ []) h = IsPlain-label l h.0.chars
IsPlain-join (l ∷ m ∷ ls) h =
    All-append IsPlain l _ (IsPlain-label l h.0.chars)
      ((omega arith, omega arith), IsPlain-join (m ∷ ls) h.1)

contains-star : (s : Bytes) → All IsPlain s → contains s (codes "*") ≡ false
unfolding contains has_prefix
contains-star [] h = refl
contains-star (c ∷ s) h = ground (arith, contains-star s h.1)

ne-nil_of_two : (ls : List Bytes) → 2 ≤ length ls → ls ≢ []
ne-nil_of_two [] h = absurd (omega arith)
ne-nil_of_two (l ∷ ls) h = cc

validate_domain_sound : (d : Bytes) → validate_domain d ≡ none → IsDomain d
unfolding validate_domain
validate_domain_sound d h = record {
  labels = split b'.' d;
  two = ground arith;
  valid = check_labels_sound (split b'.' d) (ground arith);
  joined = sym (join-split b'.' d);
  nonempty = ground arith;
  short = ground arith;
}

validate_domain_complete : (d : Bytes) → IsDomain d → validate_domain d ≡ none
unfolding validate_domain
validate_domain_complete d v =
    let parts : split b'.' d ≡ v.labels =
      rw v.joined
        (split-join b'.' v.labels (ne-nil_of_two v.labels v.two) (Lacks-labels v.labels v.valid)) in
    let plain : contains d (codes "*") ≡ false =
      rw v.joined (contains-star _ (IsPlain-join v.labels v.valid)) in
    ground (arith, parts, plain, check_labels_complete v.labels v.valid)

-- An accepted host name has no slash and no asterisk.
pub validate_domain-IsPlain : (d : Bytes) → validate_domain d ≡ none → All IsPlain d
validate_domain-IsPlain d h =
    let v = validate_domain_sound d h in rw v.joined (IsPlain-join v.labels v.valid)

-- `validate_domain` accepts exactly the host names.
pub validate_domain_iff : (d : Bytes) → (validate_domain d ≡ none) ↔ IsDomain d
validate_domain_iff d = (validate_domain_sound d, validate_domain_complete d)
