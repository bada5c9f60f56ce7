-- ===== src/Examples/Users.antt =====
-- An account that is removed while the engine works, and while it does not.
use lamund.Prelude.{◌≡◌, refl, true, false, none, some, [], ◌∷◌, ◌==◌, codes, beq}
use lamund.Access.Session.{AuthUser}
use lamund.Api.Handler.{handled}
use lamund.Api.Admin.{check_superadmin, handle_delete_user}
use lamund.Api.Admin.Removal.{IsAdmissible, handle_delete_user-IsAdmissible}
use lamund.Store.Conn.{query, commit, exec, begin, Conn}
use lamund.Store.Accounts.{Accounts, Account}
use lamund.Store.Users.{
  owned_resources, count_owned_resources, get_account, delete_account_row, delete_from, delete_each,
  delete_user,
}
use lamund.Store.Users.Gone.{Outcome, delete_user-Outcome}

abbrev ani : Account
ani = record {
  id = 4;
  username = codes "ani";
  password_hash = codes "x";
  role = codes "member";
  disabled = false;
  name = [];
  email = [];
  theme = [];
  locale = [];
  token_version = 0;
  email_verified = true;
  approval = codes "approved";
  github_id = 0;
  google_id = [];
  mfa_secret = [];
  mfa_enabled = false;
  mfa_last_step = 0;
}

abbrev accounts : Accounts
accounts = record {
  users = ani ∷ record ani { id = 5; username = codes "budi" } ∷ [];
  quotas = [];
  api_keys = record { id = 1; user_id = 4; name = []; key_hash = codes "k" } ∷ [];
  team_members = record { team_id = 1; user_id = 5; role = codes "owner" } ∷ [];
  connections = 4 ∷ 5 ∷ [];
  recovery_codes = record { id = 1; user_id = 4; code_hash = codes "h"; used = false } ∷ [];
  sites = [];
  apps = [];
  dns_zones = [];
  next_user = 6;
  next_key = 2;
  next_code = 2;
}

-- The engine refuses its seventh statement, the deletion of the user.
abbrev on_accounts : Conn Accounts
on_accounts = record { db = accounts; undo = none; clock = 0; faults = λ n. n == 6 }

delete_user-Outcome_example : Outcome 4 on_accounts (delete_user 4 on_accounts)
delete_user-Outcome_example = delete_user-Outcome 4 on_accounts refl

-- It is gone without that fault, and its key with it.
left : ((delete_user 4 (record on_accounts { faults = λ n. false })).1).db.api_keys ≡ []
unfolding delete_user begin delete_each exec delete_from delete_account_row commit
left = refl

abbrev admin : AuthUser
admin = record { id = 5; role = codes "superadmin"; email = [] }

handle_delete_user-IsAdmissible_example :
    IsAdmissible admin
      (some 4)
      accounts
      (handled (handle_delete_user admin (some 4)) on_accounts).1.db
handle_delete_user-IsAdmissible_example =
    handle_delete_user-IsAdmissible admin (some 4) on_accounts refl

-- An account that owns nothing is removed, and the caller's account is not.
removed :
    (handled
      (handle_delete_user admin (some 4))
      (record on_accounts { faults = λ n. false })).0.status
    ≡ 200
unfolding handle_delete_user get_account query check_superadmin beq count_owned_resources
    owned_resources delete_user begin delete_each exec delete_from delete_account_row commit
removed = refl

not_own : (handled (handle_delete_user admin (some 5)) on_accounts).0.status ≡ 400
unfolding handle_delete_user
not_own = refl
