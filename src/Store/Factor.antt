-- ===== src/Store/Factor.antt =====
-- internal/store/mfa.go: the second factor of an account and its recovery codes.
use lamund.Prelude.{
  ℕ, suc, Bool, true, false, not, ◌&&◌, Option, none, some, List, [], ◌∷◌, ◌++◌, map, ◌==◌,
  if◌then◌else◌, Bytes, select, find,
}
use lamund.Store.Conn.{ok, begin, commit, exec, query, or_rollback, ◌>>=◌, ◌>>◌}
use lamund.Store.Accounts.{Account, AccountCode, AccountStore}
use lamund.Store.Users.{of_recovery_codes, delete_from}

-- A missing user is no error.
abbrev without_mfa : ℕ → Account → Account
without_mfa id u =
    if u.id == id then record u { mfa_enabled = false; mfa_secret = []; mfa_last_step = 0 } else u

unfoldable pub disable_mfa : ℕ → AccountStore Unit
disable_mfa id = do
  begin
  or_rollback (exec (λ db. (ok tt, record db { users = map (without_mfa id) db.users })))
  or_rollback (exec (delete_from of_recovery_codes id))
  commit

-- The loop over the hashes
unfoldable pub insert_codes : ℕ → List Bytes → AccountStore Unit
insert_codes id [] c = (ok tt, c)
insert_codes id (h ∷ hs) c =
    (or_rollback (
          exec (λ db. (
            ok tt,
            record db {
              recovery_codes =
                  db.recovery_codes
                  ++ record { id = db.next_code; user_id = id; code_hash = h; used = false } ∷ [];
              next_code = suc db.next_code;
            },
          )))
        >> insert_codes id hs)
      c

unfoldable pub add_recovery_codes : ℕ → List Bytes → AccountStore Unit
add_recovery_codes id hashes = do
  begin
  or_rollback (exec (delete_from of_recovery_codes id))
  insert_codes id hashes
  commit

-- ConsumeRecoveryCode: the first unused code that `verify` accepts is marked.
abbrev marked : ℕ → AccountCode → AccountCode
marked id k = if k.id == id then record k { used = true } else k

abbrev use_first : Option AccountCode → AccountStore Bool
use_first none c = (ok false, c)
use_first (some k) c =
    exec (λ db. (ok true, record db { recovery_codes = map (marked k.id) db.recovery_codes })) c

unfoldable pub use_recovery_code : ℕ → (Bytes → Bool) → AccountStore Bool
use_recovery_code id verify = do
  open_codes ← query (λ db. select (λ k. k.user_id == id && not k.used) db.recovery_codes)
  use_first (find (λ k. verify k.code_hash) open_codes)
