-- ===== src/Access/Jwt.antt =====
-- What golang-jwt/jwt documents of signing and parsing with HS256, as internal/auth/token.go uses it.
use lamund.Prelude.{ℕ, ◌+◌, ◌≤◌, ◌≡◌, false, none, some, Bytes, codes, has_prefix}
use lamund.Access.Crypto.{Claims, CryptoLib}

-- The claims survive, but for the times, which are cut to seconds; a token is refused from its
-- expiry on and accepted before the last second; its text starts with the encoded header.
pub record IsJwt (lib : CryptoLib) : Type 0 where
  pub keeps :
      (secret tok : Bytes) (c c' : Claims) (now : ℕ)
      → lib.sign secret c ≡ some tok
      → lib.parse secret now tok ≡ some c'
      → (c'.user_id ≡ c.user_id) × ((c'.ver ≡ c.ver) × (c'.kind ≡ c.kind))
  pub alive :
      (secret tok : Bytes) (c : Claims) (now : ℕ)
      → lib.sign secret c ≡ some tok
      → now + 1000000000 ≤ c.expires_at
      → (c' : Claims) × (lib.parse secret now tok ≡ some c')
  pub expired :
      (secret tok : Bytes) (c : Claims) (now : ℕ)
      → lib.sign secret c ≡ some tok
      → c.expires_at ≤ now
      → lib.parse secret now tok ≡ none
  pub header :
      (secret tok : Bytes) (c : Claims)
      → lib.sign secret c ≡ some tok
      → has_prefix tok (codes "lmd_") ≡ false
