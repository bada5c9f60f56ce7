-- ===== src/Access/Password.antt =====
-- internal/auth/password.go: the encoding of argon2id hashes. The random salt is an argument.
pub mod Roundtrip
use lamund.Prelude.{
  ℕ, ◌⊎◌, inl, inr, Option, none, some, List, [], ◌∷◌, ◌++◌, ◌==◌, if◌then◌else◌, Bytes, codes, beq,
  split, length,
}
use lamund.Access.Crypto.{ArgonParams, CryptoLib}

pub data PasswordError : Type 0 where
  bad_format bad_version bad_params bad_base64 mismatch : PasswordError

abbrev pub argon_params : ArgonParams
argon_params = record { memory = 65536; time = 1; threads = 2 }

module _ (lib : CryptoLib) where
  -- HashPassword, with what the constants print as
  unfoldable pub hash_password : Bytes → Bytes → Bytes
  hash_password salt password =
      codes "$argon2id$v=19$m=65536,t=1,p=2$"
      ++ (lib.base64 salt ++ b'$' ∷ lib.base64 (lib.id_key password salt argon_params 32))

  abbrev decode_hash_part :
      ArgonParams → Bytes → Option Bytes → PasswordError ⊎ (ArgonParams × Bytes × Bytes)
  decode_hash_part p salt none = inl bad_base64
  decode_hash_part p salt (some hash) = inr (p, salt, hash)

  abbrev decode_salt :
      ArgonParams → Bytes → Option Bytes → PasswordError ⊎ (ArgonParams × Bytes × Bytes)
  decode_salt p hash none = inl bad_base64
  decode_salt p hash (some salt) = decode_hash_part p salt (lib.unbase64 hash)

  abbrev decode_params :
      Bytes → Bytes → Option ArgonParams → PasswordError ⊎ (ArgonParams × Bytes × Bytes)
  decode_params salt hash none = inl bad_params
  decode_params salt hash (some p) = decode_salt p hash (lib.unbase64 salt)

  abbrev decode_version :
      Bytes → Bytes → Bytes → Option ℕ → PasswordError ⊎ (ArgonParams × Bytes × Bytes)
  decode_version params salt hash none = inl bad_version
  decode_version params salt hash (some v) =
      if v == 19 then decode_params salt hash (lib.scan_params params) else inl bad_version

  abbrev decode_parts : List Bytes → PasswordError ⊎ (ArgonParams × Bytes × Bytes)
  decode_parts (p0 ∷ name ∷ version ∷ params ∷ salt ∷ hash ∷ []) =
      if beq name (codes "argon2id")
      then decode_version params salt hash (lib.scan_version version)
      else inl bad_format
  decode_parts _ = inl bad_format

  unfoldable pub decode_hash : Bytes → PasswordError ⊎ (ArgonParams × Bytes × Bytes)
  unfolding split beq
  decode_hash encoded = decode_parts (split b'$' encoded)

  abbrev compare_key : Bytes → PasswordError ⊎ (ArgonParams × Bytes × Bytes) → Option PasswordError
  compare_key password (inl e) = some e
  compare_key password (inr (p, salt, hash)) =
      if beq hash (lib.id_key password salt p (length hash)) then none else some mismatch

  -- VerifyPassword; `none` is the nil error
  unfoldable pub verify_password : Bytes → Bytes → Option PasswordError
  verify_password password encoded = compare_key password (decode_hash encoded)
