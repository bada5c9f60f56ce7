-- ===== src/Examples/Login.antt =====
-- The two steps of a login in internal/api/router.go, on the toy codecs.
use lamund.Prelude.{
  ◌+◌, ◌≡◌, refl, ◌↔◌, ◌⊎◌, Bool, true, false, some, [], Bytes, codes, beq, length, select, lower,
  trim_space,
}
use lamund.Access.Totp.{decode_base32_secret, totp_code_at, verify_totp}
use lamund.Access.Totp.Window.{IsCodeOf}
use lamund.Access.Token.{parse_token, issue, session_claims, parse_mfa_pending}
use lamund.Access.Password.{decode_hash, verify_password}
use lamund.Access.Accounts.{
  set_mfa_last_step, get_user_by_id, get_user_by_username, got, failed, get_mfa,
  consume_recovery_code,
}
use lamund.Access.Accounts.Recovery.{HasIds, is_open, consume_recovery_code-open}
use lamund.Access.Login.{check_password, check_code, session, unauthorized, server_error}
use lamund.Access.Login.Proof.{IsGranted, check_password-session}
use lamund.Access.Login.Replay.{IsNoRecovery, IsEnrolled, totp_is_used_once}
use lamund.Examples.Access.{issuer, works, no_mfa, siti, db, session_token, pending_token}
use lamund.Examples.Toy.{lib, toy_token}

-- the code of step 2 for the toy MAC
abbrev code : Bytes
code = codes "000002"

code-is_of : IsCodeOf lib siti.mfa_secret code 2
unfolding totp_code_at decode_base32_secret
code-is_of = refl

code_matches : verify_totp lib siti.mfa_secret code 60000000000 ≡ some 2
unfolding verify_totp totp_code_at decode_base32_secret beq
code_matches = refl

abbrev tester : Bytes → Bool
tester h = beq h (codes "x")

one_number : HasIds db.recovery_codes
one_number = (tt, tt)

consume_recovery_code-open_example :
    (((consume_recovery_code works 7 tester db).0 ≡ got true)
      × (length
              (select (is_open 7 tester) (consume_recovery_code works 7 tester db).1.recovery_codes)
            + 1
          ≡ length (select (is_open 7 tester) db.recovery_codes)))
    ⊎ ((((consume_recovery_code works 7 tester db).0 ≡ got false)
          × (length (select (is_open 7 tester) db.recovery_codes) ≡ 0))
        ⊎ (((consume_recovery_code works 7 tester db).0 ≡ failed)
            × ((consume_recovery_code works 7 tester db).1 ≡ db)))
consume_recovery_code-open_example = consume_recovery_code-open works 7 tester db one_number

abbrev budi_token : Bytes
budi_token = toy_token (session_claims issuer 60000000000 8 (codes "member") 2)

budi_logs_in :
    check_password lib issuer works 60000000000 (codes "budi") [] db
    ≡ session budi_token (codes "member")
unfolding check_password get_user_by_username beq verify_password decode_hash get_mfa issue lower
    trim_space
budi_logs_in = refl

check_password-session_example :
    (check_password lib issuer works 60000000000 (codes "budi") [] db
      ≡ session budi_token (codes "member"))
    ↔ IsGranted lib issuer works 60000000000 (codes "budi") [] budi_token (codes "member") db
check_password-session_example =
    check_password-session lib issuer works 60000000000 (codes "budi") [] budi_token
      (codes "member") db

-- The second factor of siti is on, but its read fails.
siti_skips_it :
    check_password lib issuer no_mfa 60000000000 (codes "siti") [] db
    ≡ session session_token (codes "member")
unfolding check_password get_user_by_username beq verify_password decode_hash get_mfa issue lower
    trim_space
siti_skips_it = refl

pending_is_parsed : parse_mfa_pending lib issuer 60000000000 pending_token ≡ some 7
unfolding parse_mfa_pending parse_token beq
pending_is_parsed = refl

siti-IsEnrolled : IsEnrolled lib issuer works 7 db siti
siti-IsEnrolled = record { stored = refl; enabled = refl; second = refl }

code-IsNoRecovery : IsNoRecovery lib issuer works 7 code db
unfolding verify_password decode_hash
code-IsNoRecovery = refl

siti_logs_in :
    (check_code lib issuer works 60000000000 pending_token code db).0
    ≡ session session_token (codes "member")
unfolding check_code parse_mfa_pending parse_token beq get_user_by_id get_mfa verify_totp
    totp_code_at decode_base32_secret set_mfa_last_step issue
siti_logs_in = refl

totp_is_used_once_example :
    ((check_code lib issuer works 60000000000 pending_token code
        (check_code lib issuer works 60000000000 pending_token code db).1).0
      ≡ unauthorized)
    ⊎ ((check_code lib issuer works 60000000000 pending_token code
          (check_code lib issuer works 60000000000 pending_token code db).1).0
        ≡ server_error)
totp_is_used_once_example =
    totp_is_used_once lib issuer works 60000000000 60000000000 7 pending_token pending_token code
      session_token (codes "member") db siti pending_is_parsed pending_is_parsed siti-IsEnrolled
      code-IsNoRecovery siti_logs_in refl
