-- ===== src/Access/Password/Roundtrip.antt =====
-- A password of internal/auth/password.go is verified against its own hash, and no other against it
-- unless the keys agree.
use lamund.Prelude.{
  ◌≡◌, refl, ◌↔◌, inr, none, some, [], ◌∷◌, ◌++◌, arith, Bytes, codes, beq_iff, split, join, Lacks,
  split-join, split-append_sep, length,
}
use lamund.Access.Crypto.{CryptoLib}
use lamund.Access.Password.{argon_params, hash_password, decode_hash, verify_password}

-- What the encoders document: decoding undoes encoding, base64 writes no dollar sign, the scanners
-- read what was printed, and a key has the length that was asked for.
pub record IsCodec (lib : CryptoLib) : Type 0 where
  pub decodes : (s : Bytes) → lib.unbase64 (lib.base64 s) ≡ some s
  pub plain : (s : Bytes) → Lacks b'$' (lib.base64 s)
  pub version : lib.scan_version (codes "v=19") ≡ some 19
  pub params : lib.scan_params (codes "m=65536,t=1,p=2") ≡ some argon_params
  pub size : (password salt : Bytes) → length (lib.id_key password salt argon_params 32) ≡ 32

split_plain : (s : Bytes) → Lacks b'$' s → split b'$' s ≡ s ∷ []
unfolding join
split_plain s h = split-join b'$' (s ∷ []) (cc) (h, tt)

module _ (lib : CryptoLib) (laws : IsCodec lib) where
  decode_hash-hash_password :
      (salt password : Bytes)
      → decode_hash lib (hash_password lib salt password)
        ≡ inr (argon_params, salt, lib.id_key password salt argon_params 32)
  unfolding decode_hash hash_password
  decode_hash-hash_password salt password =
      let key = lib.id_key password salt argon_params 32 in
      let parts : split b'$' (lib.base64 salt ++ b'$' ∷ lib.base64 key)
          ≡ lib.base64 salt ∷ lib.base64 key ∷ [] =
        rw
          (
            split-append_sep,
            split_plain (lib.base64 salt) (laws.plain salt),
            split_plain (lib.base64 key) (laws.plain key),
          )
          refl in
      rw parts (rw (laws.version, laws.params, laws.decodes salt, laws.decodes key) refl)

  -- A password passes the check against the hash of another exactly if their keys under the salt
  -- are equal; its own hash always passes.
  pub verify_password-hash_password :
      (salt password other : Bytes)
      → (verify_password lib other (hash_password lib salt password) ≡ none)
        ↔ (lib.id_key password salt argon_params 32 ≡ lib.id_key other salt argon_params 32)
  unfolding verify_password
  verify_password-hash_password salt password other =
      let key = lib.id_key password salt argon_params 32 in
      rw (decode_hash-hash_password salt password, laws.size password salt)
        (ground (arith, beq_iff key (lib.id_key other salt argon_params 32)))
