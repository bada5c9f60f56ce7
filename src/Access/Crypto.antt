-- ===== src/Access/Crypto.antt =====
-- What internal/auth takes from other packages: golang.org/x/crypto/argon2, crypto, encoding, fmt
-- and golang-jwt/jwt. Texts are byte lists, `none` is an error.
use lamund.Prelude.{ℕ, Option, Bytes}

-- Claims of internal/auth/token.go; times are numbers of nanoseconds.
pub record Claims : Type 0 where
  pub user_id : ℕ
  pub role : Bytes
  pub ver : ℕ
  pub kind : Bytes
  pub issued_at : ℕ
  pub expires_at : ℕ

-- argonParams of internal/auth/password.go
pub record ArgonParams : Type 0 where
  pub memory : ℕ
  pub time : ℕ
  pub threads : ℕ

pub record CryptoLib : Type 0 where
  -- argon2.IDKey(password, salt, params, length)
  pub id_key : Bytes → Bytes → ArgonParams → ℕ → Bytes
  -- base64.RawStdEncoding
  pub base64 : Bytes → Bytes
  pub unbase64 : Bytes → Option Bytes
  -- fmt.Sscanf with "v=%d" and with "m=%d,t=%d,p=%d"
  pub scan_version : Bytes → Option ℕ
  pub scan_params : Bytes → Option ArgonParams
  -- sha256.Sum256 and hex.EncodeToString
  pub sha256 : Bytes → Bytes
  pub hex : Bytes → Bytes
  -- base32.StdEncoding and HMAC-SHA1(key, message)
  pub unbase32 : Bytes → Option Bytes
  pub hmac_sha1 : Bytes → Bytes → Bytes
  -- SignedString with HS256, and ParseWithClaims at a time
  pub sign : Bytes → Claims → Option Bytes
  pub parse : Bytes → ℕ → Bytes → Option Claims
