-- ===== src/Access/Totp.antt =====
-- internal/auth/totp.go: one-time codes. A time is a number of nanoseconds since 1970, at least 30
-- seconds; the MAC of the library has 20 bytes, and a byte past the end is read as 0.
pub mod Window
use lamund.Prelude.{
  ℕ, zero, suc, ◌+◌, ◌-◌, ◌*◌, ◌/◌, ◌%◌, ◌^◌, Bool, true, false, not, ◌&&◌, ◌||◌, Option, none,
  some, [], ◌∷◌, ◌++◌, ltb, leb, ◌==◌, if◌then◌else◌, Bytes, beq, length, select,
}
use lamund.Access.Crypto.{CryptoLib}

abbrev pub step_at : ℕ → ℕ
step_at t = t / 1000000000 / 30

-- binary.BigEndian.PutUint64
unfoldable pub big_endian : ℕ → Bytes
big_endian n =
    n / 2 ^ 56 % 256
    ∷ n / 2 ^ 48 % 256
    ∷ n / 2 ^ 40 % 256
    ∷ n / 2 ^ 32 % 256
    ∷ n / 2 ^ 24 % 256
    ∷ n / 2 ^ 16 % 256
    ∷ n / 2 ^ 8 % 256
    ∷ n % 256
    ∷ []

-- h[i]
unfoldable pub byte_at : Bytes → ℕ → ℕ
byte_at [] i = 0
byte_at (c ∷ h) zero = c
byte_at (c ∷ h) (suc i) = byte_at h i

-- The four bytes from an offset, without their highest bit.
unfoldable pub truncated : Bytes → ℕ → ℕ
unfolding byte_at
truncated h o =
    (byte_at h o % 128) * 2 ^ 24
    + byte_at h (o + 1) * 2 ^ 16
    + byte_at h (o + 2) * 2 ^ 8
    + byte_at h (o + 3)

abbrev pub digit : ℕ → ℕ
digit n = b'0' + n % 10

-- "%06d" of a number below a million
unfoldable pub six_digits : ℕ → Bytes
six_digits n =
    digit (n / 100000)
    ∷ digit (n / 10000)
    ∷ digit (n / 1000)
    ∷ digit (n / 100)
    ∷ digit (n / 10)
    ∷ digit n
    ∷ []

unfoldable pub upper : Bytes → Bytes
upper [] = []
upper (c ∷ s) = (if leb b'a' c && leb c b'z' then c - 32 else c) ∷ upper s

-- The padding up to a multiple of eight.
unfoldable pub padding : ℕ → Bytes
padding zero = []
padding (suc n) = b'=' ∷ padding n

unfoldable pub padded : Bytes → Bytes
unfolding padding
padded s = if length s % 8 == 0 then s else s ++ padding (8 - length s % 8)

unfoldable pub all_digits : Bytes → Bool
all_digits [] = true
all_digits (c ∷ s) = if ltb c b'0' || ltb b'9' c then false else all_digits s

module _ (lib : CryptoLib) where
  -- decodeBase32Secret
  unfoldable pub decode_base32_secret : Bytes → Option Bytes
  unfolding upper padded
  decode_base32_secret secret =
      lib.unbase32 (padded (upper (select (λ c. not (c == 32 || c == b'-')) secret)))

  abbrev pub code_of : Bytes → Bytes
  code_of h = six_digits (truncated h (byte_at h (length h - 1) % 16) % 1000000)

  -- TOTPCodeAt behind the decoding of the secret
  abbrev pub code_with : ℕ → Option Bytes → Option Bytes
  code_with step none = none
  code_with step (some key) = some (code_of (lib.hmac_sha1 key (big_endian step)))

  unfoldable pub totp_code_at : Bytes → ℕ → Option Bytes
  unfolding six_digits truncated big_endian
  totp_code_at secret t = code_with (step_at t) (decode_base32_secret secret)

  abbrev pub try_code : Bytes → ℕ → Option Bytes → Option ℕ → Option ℕ
  try_code code t none later = none
  try_code code t (some got) later = if beq code got then some (step_at t) else later

  -- one round of the loop of VerifyTOTP
  unfoldable pub try_at : Bytes → Bytes → ℕ → Option ℕ → Option ℕ
  try_at secret code t later = try_code code t (totp_code_at secret t) later

  -- VerifyTOTP; `none` is (0, false)
  unfoldable pub verify_totp : Bytes → Bytes → ℕ → Option ℕ
  unfolding all_digits try_at
  verify_totp secret code t =
      if not (length code == 6)
      then none
      else if not (all_digits code)
      then none
      else try_at secret code (t - 30000000000)
          (try_at secret code t (try_at secret code (t + 30000000000) none))
