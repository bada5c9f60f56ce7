-- ===== src/Api/Account.antt =====
-- internal/api/account.go: the first account, the profile of an account, and the enrolment and the
-- end of a second factor. The decoded body is `none` for an error; hashes, secrets, codes and tokens
-- that are made at random or signed are arguments, `none` for an error.
pub mod First
use lamund.Prelude.{
  ℕ, Bool, true, false, not, ◌&&◌, ◌||◌, Option, none, some, List, [], ◌∷◌, ltb, ◌==◌,
  if◌then◌else◌, Bytes, codes, length, is_empty, trim_space,
}
use lamund.Access.Crypto.{CryptoLib}
use lamund.Access.Session.{AuthUser}
use lamund.Access.Totp.{verify_totp}
use lamund.Store.Accounts.{Account}
use lamund.Store.Users.{
  get_account, count_users, create_user, update_account, update_user_profile, set_user_prefs,
  set_mfa_secret, set_mfa_last_step, enable_mfa,
}
use lamund.Store.Factor.{use_recovery_code, disable_mfa, add_recovery_codes}
use lamund.Api.Handler.{
  message, Response, flag_body, enrolment_body, codes_body, session_body, pair_body, go, write_err,
  or_status, some_or, ignoring, stop_if, ◌>>=◌, ◌>>◌, reply,
}
use lamund.Api.Admin.{AdminHandler, valid_username, new_account}

-- GetMFA: no row is an error, as a refused query is.
abbrev mfa_row : ℕ → ℕ → AdminHandler Account
mfa_row status id = do row ← or_status status (get_account id); some_or status row

unfoldable pub handle_mfa_status : AuthUser → AdminHandler Response
handle_mfa_status u = do mfa ← mfa_row 500 u.id; reply 200 (flag_body mfa.mfa_enabled)

-- `uri` is auth.TOTPURI for the instance.
unfoldable pub handle_mfa_setup :
    Option Bytes → (Bytes → Bytes → Bytes) → AuthUser → AdminHandler Response
handle_mfa_setup generated uri u = do
  mfa ← mfa_row 500 u.id
  stop_if mfa.mfa_enabled 409
  found ← or_status 500 (get_account u.id)
  full ← some_or 500 found
  secret ← some_or 500 generated
  or_status 500 (update_account u.id (set_mfa_secret secret))
  reply 200 (enrolment_body secret (uri secret full.username))

-- The loop over the codes, which an error of a hash ends.
abbrev with_hash : Option Bytes → Option (List Bytes) → Option (List Bytes)
with_hash (some h) (some hs) = some (h ∷ hs)
with_hash (some h) none = none
with_hash none rest = none

unfoldable pub hash_each : (Bytes → Option Bytes) → List Bytes → Option (List Bytes)
hash_each hash [] = some []
hash_each hash (c ∷ cs) = with_hash (hash c) (hash_each hash cs)

unfoldable pub handle_mfa_verify :
    CryptoLib
    → ℕ
    → Option (List Bytes)
    → (Bytes → Option Bytes)
    → AuthUser
    → Option Bytes
    → AdminHandler Response
handle_mfa_verify lib now generated hash u body = do
  code ← some_or 400 body
  mfa ← mfa_row 400 u.id
  stop_if (is_empty mfa.mfa_secret) 400
  step ← some_or 400 (verify_totp lib mfa.mfa_secret code now)
  or_status 500 (update_account u.id (set_mfa_last_step step))
  or_status 500 (update_account u.id enable_mfa)
  recovery ← some_or 500 generated
  hashes ← some_or 500 (hash_each hash recovery)
  or_status 500 (add_recovery_codes u.id hashes)
  reply 200 (codes_body recovery)

-- step > lastStep, of a code that VerifyTOTP accepts
abbrev is_newer : ℕ → Option ℕ → Bool
is_newer last_step none = false
is_newer last_step (some step) = ltb last_step step

-- The second factor ends with a code of the authenticator, or else with an unused recovery code;
-- `verify` is whether auth.VerifyPassword accepts the code for a hash.
unfoldable pub handle_mfa_disable :
    CryptoLib → ℕ → (Bytes → Bytes → Bool) → AuthUser → Option Bytes → AdminHandler Response
handle_mfa_disable lib now verify u body = do
  code ← some_or 400 body
  mfa ← mfa_row 500 u.id
  stop_if (not mfa.mfa_enabled) 400
  proven ←
      (if is_newer mfa.mfa_last_step (verify_totp lib mfa.mfa_secret code now)
        then go true
        else or_status 500 (use_recovery_code u.id (verify code)))
  stop_if (not proven) 400
  or_status 500 (disable_mfa u.id)
  reply 200 message

unfoldable pub handle_setup_status : AdminHandler Response
handle_setup_status = do n ← or_status 500 count_users; reply 200 (flag_body (n == 0))

pub record SetupReq : Type 0 where
  pub username : Bytes
  pub password : Bytes
  pub name : Bytes
  pub email : Bytes
  pub locale : Bytes
  pub theme : Bytes

-- `issue` is Issuer.Issue of a superadmin with the version 0.
unfoldable pub handle_setup :
    (Bytes → Option Bytes) → (ℕ → Option Bytes) → Option SetupReq → AdminHandler Response
handle_setup hash issue body = do
  n ← or_status 500 count_users
  stop_if (ltb 0 n) 403
  req ← some_or 400 body
  stop_if (not (valid_username req.username) || ltb (length req.password) 8) 400
  password_hash ← some_or 500 (hash req.password)
  id ← or_status 400 (
      create_user (record (new_account req.username password_hash (codes "superadmin")) {
        name = trim_space req.name;
        email = trim_space req.email;
      }))
  (if is_empty req.theme && is_empty req.locale
      then go tt
      else ignoring tt (update_account id (set_user_prefs req.theme req.locale)))
  token ← some_or 500 (issue id)
  reply 201 (session_body token (codes "superadmin"))

-- The body: the name and the email, or the theme and the locale.
unfoldable pub handle_update_account : AuthUser → Option (Bytes × Bytes) → AdminHandler Response
handle_update_account u body = do
  req ← some_or 400 body
  or_status 500 (update_account u.id (update_user_profile (trim_space req.0) (trim_space req.1)))
  reply 200 (pair_body req.0 req.1)

unfoldable pub handle_set_prefs : AuthUser → Option (Bytes × Bytes) → AdminHandler Response
handle_set_prefs u body = do
  req ← some_or 400 body
  or_status 500 (update_account u.id (set_user_prefs req.0 req.1))
  reply 200 (pair_body req.0 req.1)
