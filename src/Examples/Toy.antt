-- ===== src/Examples/Toy.antt =====
-- Toy codecs in place of the cryptography that internal/auth calls.
use mathlib.Core.Path.{subst}
use lamund.Prelude.{
  ℕ, zero, suc, ◌+◌, ◌-◌, ◌≤◌, ◌<◌, ◌≡◌, refl, ap, ◌∙◌, inl, inr, false, Option, none, some, [],
  ◌∷◌, ◌++◌, arith, ltb, if◌then◌else◌, Bool-cases, Bytes, codes, beq, has_prefix, Lacks, length,
  take, drop,
}
use lamund.Access.Crypto.{Claims, CryptoLib}
use lamund.Access.Jwt.{IsJwt}
use lamund.Access.Password.{argon_params}
use lamund.Access.Password.Roundtrip.{IsCodec}

-- Bytes moved past the dollar sign, and back.
abbrev shift : Bytes → Bytes
shift [] = []
shift (c ∷ s) = (c + 37) ∷ shift s

abbrev unshift : Bytes → Bytes
unshift [] = []
unshift (c ∷ s) = (c - 37) ∷ unshift s

unshift-shift : (s : Bytes) → unshift (shift s) ≡ s
unshift-shift [] = refl
unshift-shift (c ∷ s) =
    let e : c + 37 - 37 ≡ c = omega arith in rw e (ap (λ t. c ∷ t) (unshift-shift s))

shift-Lacks : (s : Bytes) → Lacks b'$' (shift s)
shift-Lacks [] = tt
shift-Lacks (c ∷ s) = (omega arith, shift-Lacks s)

abbrev zeros : ℕ → Bytes
zeros zero = []
zeros (suc n) = 0 ∷ zeros n

abbrev pub toy_key : Bytes → Bytes
toy_key [] = 0 ∷ zeros 31
toy_key (c ∷ s) = (c + length s) ∷ zeros 31

length-toy_key : (s : Bytes) → length (toy_key s) ≡ 32
length-toy_key [] = refl
length-toy_key (c ∷ s) = refl

abbrev toy_parse : ℕ → Bytes → Option Claims
toy_parse now (h ∷ u ∷ v ∷ i ∷ e ∷ n ∷ rest) =
    if ltb now e
    then some (record {
      user_id = u;
      role = drop n rest;
      ver = v;
      kind = take n rest;
      issued_at = i;
      expires_at = e;
    })
    else none
toy_parse now _ = none

abbrev pub toy_token : Claims → Bytes
toy_token c =
    101 ∷ c.user_id ∷ c.ver ∷ c.issued_at ∷ c.expires_at ∷ length c.kind ∷ (c.kind ++ c.role)

abbrev pub lib : CryptoLib
lib = record {
  id_key = λ password salt p n. toy_key password;
  base64 = shift;
  unbase64 = λ s. some (unshift s);
  scan_version = λ s. if beq s (codes "v=19") then some 19 else none;
  scan_params = λ s. if beq s (codes "m=65536,t=1,p=2") then some argon_params else none;
  sha256 = λ s. s;
  hex = λ s. s;
  unbase32 = λ s. some s;
  hmac_sha1 = λ key message. drop 4 message ++ zeros 16;
  sign = λ secret c. some (toy_token c);
  parse = λ secret now tok. toy_parse now tok;
}

pub lib-IsCodec : IsCodec lib
unfolding beq
lib-IsCodec = record {
  decodes = λ s. ap some (unshift-shift s);
  plain = shift-Lacks;
  version = refl;
  params = refl;
  size = λ password salt. length-toy_key password;
}

take_first : (s t : Bytes) → take (length s) (s ++ t) ≡ s
take_first [] t = refl
take_first (c ∷ s) t = ap (λ r. c ∷ r) (take_first s t)

abbrev toy_claims : Claims → Claims
toy_claims c = record c {
  role = drop (length c.kind) (c.kind ++ c.role);
  kind = take (length c.kind) (c.kind ++ c.role);
}

toy_parse-alive :
    (now : ℕ) (c : Claims) → now < c.expires_at → toy_parse now (toy_token c) ≡ some (toy_claims c)
toy_parse-alive now c h = ground arith

toy_parse-late : (now : ℕ) (c : Claims) → c.expires_at ≤ now → toy_parse now (toy_token c) ≡ none
toy_parse-late now c h = ground arith

toy_keeps :
    (now : ℕ) (c c' : Claims)
    → toy_parse now (toy_token c) ≡ some c'
    → (c'.user_id ≡ c.user_id) × ((c'.ver ≡ c.ver) × (c'.kind ≡ c.kind))
toy_keeps now c c' h = elim (Bool-cases (ltb now c.expires_at)) [
  | inl early ↦
      let e : c' ≡ toy_claims c = cc (h, toy_parse-alive now c (ground arith)) in
      (ap (λ k. k.user_id) e, (ap (λ k. k.ver) e, ap (λ k. k.kind) e ∙ take_first c.kind c.role))
  | inr late ↦ cc (h, toy_parse-late now c (ground arith))
]

pub lib-IsJwt : IsJwt lib
unfolding has_prefix
lib-IsJwt = record {
  keeps = λ secret tok c c' now signed parsed.
      let e : tok ≡ toy_token c = cc (signed) in
      toy_keeps now c c' (subst (λ t. toy_parse now t ≡ some c') e parsed);
  alive = λ secret tok c now signed early.
      let e : toy_token c ≡ tok = cc (signed) in
      (
        toy_claims c,
        subst (λ t. toy_parse now t ≡ some (toy_claims c)) e (toy_parse-alive now c (omega arith)),
      );
  expired = λ secret tok c now signed late.
      let e : toy_token c ≡ tok = cc (signed) in
      subst (λ t. toy_parse now t ≡ none) e (toy_parse-late now c late);
  header = λ secret tok c signed.
      let e : toy_token c ≡ tok = cc (signed) in
      subst (λ t. has_prefix t (codes "lmd_") ≡ false) e refl;
}
