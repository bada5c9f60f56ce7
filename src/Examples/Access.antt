-- ===== src/Examples/Access.antt =====
-- A login with two factors, on a library of toy codecs.
use lamund.Prelude.{
  ◌≡◌, refl, ◌↔◌, inl, Bool, true, false, none, some, [], ◌∷◌, ◌++◌, arith, Bytes, codes, beq,
  Lacks,
}
use lamund.Site.Http.{get_header, Header}
use lamund.Access.Password.{hash_password, verify_password}
use lamund.Access.Password.Roundtrip.{verify_password-hash_password}
use lamund.Access.Token.{
  parse_token, Issuer, issue, issue_mfa_pending, session_claims, pending_claims,
}
use lamund.Access.Accounts.{get_user_by_id, User, Db, Statement, read_mfa}
use lamund.Access.Client.{remote_host, is_loopback}
use lamund.Access.Session.{resolve_credential, auth_user}
use lamund.Access.Session.Trust.{
  IsTrusted, resolve_credential_sound, pending-no_session, session_is_resolved, session_is_revoked,
}
use lamund.Examples.Toy.{lib, lib-IsJwt, toy_key, toy_token, lib-IsCodec}

abbrev pub issuer : Issuer
issuer = record { secret = codes "s"; ttl = 3600000000000 }

abbrev pub works : Statement → Bool
works q = false

-- Only the read of the second factor fails.
abbrev pub no_mfa : Statement → Bool
no_mfa read_mfa = true
no_mfa _ = false

abbrev pub siti : User
siti = record {
  id = 7;
  username = codes "siti";
  password_hash = codes "$argon2id$v=19$m=65536,t=1,p=2$$%%%%%%%%%%%%%%%%%%%%%%%%%%%%%%%%";
  role = codes "member";
  disabled = false;
  email = [];
  token_version = 2;
  mfa_secret = codes "AAAAAAAA";
  mfa_enabled = true;
  mfa_last_step = 0;
}

abbrev budi : User
budi = record siti { id = 8; username = codes "budi"; mfa_enabled = false }

abbrev pub db : Db
db = record {
  users = siti ∷ budi ∷ [];
  api_keys = [];
  recovery_codes = record { id = 1; user_id = 7; code_hash = codes "x"; used = false } ∷ [];
}

abbrev pub session_token : Bytes
session_token = toy_token (session_claims issuer 60000000000 7 (codes "member") 2)

abbrev pub pending_token : Bytes
pending_token = toy_token (pending_claims 60000000000 7)

verify_password-hash_password_example :
    (verify_password lib (codes "b") (hash_password lib (codes "salt") (codes "a")) ≡ none)
    ↔ (toy_key (codes "a") ≡ toy_key (codes "b"))
verify_password-hash_password_example =
    verify_password-hash_password lib lib-IsCodec (codes "salt") (codes "a") (codes "b")

abbrev forged : Header
forged = (codes "X-Forwarded-For", codes "1.1.1.1, 9.9.9.9") ∷ []

outside : is_loopback (remote_host (codes "8.8.8.8:50")) ≡ false
unfolding is_loopback remote_host
outside = refl

inside : is_loopback (remote_host (codes "127.0.0.1:50")) ≡ true
unfolding is_loopback remote_host
inside = refl

forwarded : get_header (codes "X-Forwarded-For") forged ≡ codes "1.1.1.1" ++ b',' ∷ codes " 9.9.9.9"
unfolding get_header beq
forwarded = refl

address-Lacks : Lacks b',' (codes " 9.9.9.9")
address-Lacks = ground arith

is_resolved :
    resolve_credential lib issuer works 60000000001 session_token db ≡ some (auth_user siti)
unfolding resolve_credential parse_token get_user_by_id
is_resolved = refl

resolve_credential_sound_example :
    (u : User) × ((auth_user siti ≡ auth_user u)
      × ((u.disabled ≡ false) × IsTrusted lib issuer works 60000000001 session_token db u))
resolve_credential_sound_example =
    resolve_credential_sound lib issuer works 60000000001 session_token db (auth_user siti)
      is_resolved

pending-issued : issue_mfa_pending lib issuer 60000000000 7 ≡ some pending_token
unfolding issue_mfa_pending
pending-issued = refl

pending-no_session_example : resolve_credential lib issuer works 60000000001 pending_token db ≡ none
pending-no_session_example =
    pending-no_session lib issuer works lib-IsJwt 60000000000 60000000001 7 pending_token db
      pending-issued

pub session-issued : issue lib issuer 60000000000 7 (codes "member") 2 ≡ some session_token
unfolding issue
session-issued = refl

session_is_resolved_example :
    resolve_credential lib issuer works 60000000001 session_token db ≡ some (auth_user siti)
session_is_resolved_example =
    session_is_resolved lib issuer works lib-IsJwt 60000000000 60000000001 session_token db siti
      session-issued (omega arith) refl refl refl

session_is_revoked_example :
    resolve_credential lib issuer works 60000000001 session_token
      (record db { users = record siti { token_version = 3 } ∷ [] })
    ≡ none
session_is_revoked_example =
    session_is_revoked lib issuer works lib-IsJwt 60000000000 60000000001 7 2 (codes "member")
      session_token (record db { users = record siti { token_version = 3 } ∷ [] })
      (record siti { token_version = 3 }) session-issued refl (inl (omega arith))
