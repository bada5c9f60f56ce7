-- ===== src/Access/Token.antt =====
-- internal/auth/token.go: the issuer of session tokens and of tokens for the second step of a login.
use lamund.Prelude.{ℕ, ◌+◌, ◌*◌, Option, none, some, [], ◌==◌, if◌then◌else◌, Bytes, codes, beq}
use lamund.Access.Crypto.{Claims, CryptoLib}

pub record Issuer : Type 0 where
  pub secret : Bytes
  pub ttl : ℕ

abbrev pub minute : ℕ
minute = 60000000000

-- NewIssuer: no lifetime stands for a day
unfoldable pub new_issuer : Bytes → ℕ → Issuer
new_issuer secret ttl = record { secret = secret; ttl = if ttl == 0 then 24 * 60 * minute else ttl }

abbrev pub mfa_pending_kind : Bytes
mfa_pending_kind = codes "mfa_pending"

-- The claims of Issue.
abbrev pub session_claims : Issuer → ℕ → ℕ → Bytes → ℕ → Claims
session_claims i now user_id role token_version = record {
  user_id = user_id;
  role = role;
  ver = token_version;
  kind = [];
  issued_at = now;
  expires_at = now + i.ttl;
}

-- The claims of IssueMFAPending.
abbrev pub pending_claims : ℕ → ℕ → Claims
pending_claims now user_id = record {
  user_id = user_id;
  role = [];
  ver = 0;
  kind = mfa_pending_kind;
  issued_at = now;
  expires_at = now + 2 * minute;
}

module _ (lib : CryptoLib) (i : Issuer) where
  unfoldable pub issue : ℕ → ℕ → Bytes → ℕ → Option Bytes
  issue now user_id role token_version =
      lib.sign i.secret (session_claims i now user_id role token_version)

  unfoldable pub issue_mfa_pending : ℕ → ℕ → Option Bytes
  issue_mfa_pending now user_id = lib.sign i.secret (pending_claims now user_id)

  unfoldable pub parse_token : ℕ → Bytes → Option Claims
  parse_token now token = lib.parse i.secret now token

  abbrev pending_user : Option Claims → Option ℕ
  pending_user none = none
  pending_user (some c) = if beq c.kind mfa_pending_kind then some c.user_id else none

  unfoldable pub parse_mfa_pending : ℕ → Bytes → Option ℕ
  parse_mfa_pending now token = pending_user (parse_token now token)

-- HashAPIKey
unfoldable pub hash_api_key : CryptoLib → Bytes → Bytes
hash_api_key lib plaintext = lib.hex (lib.sha256 plaintext)
