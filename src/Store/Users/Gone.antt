-- ===== src/Store/Users/Gone.antt =====
-- The removal of an account and of the rows that belong to it, in one transaction.
use lamund.Prelude.{
  ◌≡◌, refl, ◌↔◌, ◌⊎◌, inl, inr, true, false, none, some, [], arith, ◌==◌, Bool-cases, In-select,
  select-In, any, In,
}
use lamund.Store.Accounts.{Accounts}
use lamund.Store.Users.{
  ◌∷◌, select, not, List, Bool, ℕ, Accounts, UserTable, delete_from, delete_each,
  delete_account_row, delete_user, user_tables, has_id,
}
use lamund.Store.Conn.{Conn, Result, ok, err, not_found, or_rollback, exec}
use lamund.Store.Conn.Transaction.{
  Change, chain, Closed, Within, Within-bind, or_rollback-exec, begin-Closed, Closed-bind,
  Closed-exec, commit-Closed_last,
}

-- The rows of one list are those of another that do not belong to the user.
abbrev pub AreOthers : {A : Type 0} → (A → ℕ) → ℕ → List A → List A → Type 0
AreOthers {A} user id l l' = (x : A) → In x l' ↔ (In x l × ((user x == id) ≡ false))

abbrev pub IsRemoved : ℕ → Accounts → Accounts → Type 0
IsRemoved id db db' =
    AreOthers (λ u. u.id) id db.users db'.users
    × AreOthers (λ q. q.user_id) id db.quotas db'.quotas
    × AreOthers (λ k. k.user_id) id db.api_keys db'.api_keys
    × AreOthers (λ m. m.user_id) id db.team_members db'.team_members
    × AreOthers (λ u. u) id db.connections db'.connections
    × AreOthers (λ k. k.user_id) id db.recovery_codes db'.recovery_codes
    × (db'.sites ≡ db.sites)
    × (db'.apps ≡ db.apps)
    × (db'.dns_zones ≡ db.dns_zones)

-- What a removal may end as: an error comes of a refusal of the engine, or of a missing user.
abbrev pub Outcome : ℕ → Conn Accounts → Result Unit × Conn Accounts → Type 0
Outcome id c (ok _, c') = (c'.undo ≡ none) × IsRemoved id c.db c'.db
Outcome id c (err e, c') =
    (c'.undo ≡ none)
    × (c'.db ≡ c.db)
    × (((n : ℕ) × (c.faults n ≡ true)) ⊎ ((e ≡ not_found) × (any (has_id id) c.db.users ≡ false)))

abbrev deleted : List UserTable → ℕ → Change Accounts Unit
deleted [] id db = (ok tt, db)
deleted (t ∷ ts) id db = chain (λ _ d. deleted ts id d) (delete_from t id db)

abbrev removed_user : ℕ → Change Accounts Unit
removed_user id db =
    chain (λ _ d. chain (λ _ d'. (ok tt, d')) (delete_account_row id d)) (deleted user_tables id db)

delete_each-Within :
    (ts : List UserTable) (id : ℕ) (base : Accounts) (c : Conn Accounts)
    → c.undo ≡ some base
    → Within base (deleted ts id c.db) c (delete_each ts id c)
unfolding delete_each
delete_each-Within [] id base c h = (refl, inr (refl, h, refl))
delete_each-Within (t ∷ ts) id base c h =
    Within-bind base (delete_from t id c.db) _ _ c (or_rollback (exec (delete_from t id)) c)
      (or_rollback-exec base (delete_from t id) c h)
      (λ _ c1 h1. delete_each-Within ts id base c1 h1)

delete_user-Closed :
    (id : ℕ) (c : Conn Accounts)
    → c.undo ≡ none
    → Closed c.db (removed_user id c.db) c (delete_user id c)
unfolding delete_user
delete_user-Closed id c h = begin-Closed (removed_user id) _ c h (λ c1 h1.
    Closed-bind c.db (deleted user_tables id c1.db) _ _ c1 (delete_each user_tables id c1)
      (delete_each-Within user_tables id c.db c1 h1)
      (λ _ c2 h2.
        Closed-exec c.db (delete_account_row id) _ _ c2 h2
          (λ _ c3 h3. commit-Closed_last c.db c3 h3)))

not-true : (b : Bool) → not b ≡ true → b ≡ false
not-true b h = ground arith

AreOthers-select :
    {A : Type 0} (user : A → ℕ) (id : ℕ) (l : List A)
    → AreOthers user id l (select (λ x. not (user x == id)) l)
AreOthers-select user id l x = (
  (λ m. let (i, e) = select-In (λ y. not (user y == id)) x l m in (i, not-true (user x == id) e)),
  (λ (i, e). In-select (λ y. not (user y == id)) x l i (rw e refl)),
)

-- The change itself, with a user and without.
abbrev Gone : ℕ → Accounts → Result Unit × Accounts → Type 0
Gone id db (ok _, db') = IsRemoved id db db'
Gone id db (err e, db') = (e ≡ not_found) × (any (has_id id) db.users ≡ false)

removed_user-Gone : (id : ℕ) (db : Accounts) → Gone id db (removed_user id db)
unfolding delete_from delete_account_row
removed_user-Gone id db = elim (Bool-cases (any (has_id id) db.users)) [
  | inl e ↦ rw e (
    AreOthers-select _ id db.users,
    AreOthers-select _ id db.quotas,
    AreOthers-select _ id db.api_keys,
    AreOthers-select _ id db.team_members,
    AreOthers-select _ id db.connections,
    AreOthers-select _ id db.recovery_codes,
    refl,
    refl,
    refl,
  )
  | inr e ↦ rw e (refl, e)
]

Closed-Outcome :
    (id : ℕ) (c : Conn Accounts) (spec : Result Unit × Accounts) (out : Result Unit × Conn Accounts)
    → Gone id c.db spec
    → Closed c.db spec c out
    → Outcome id c out
Closed-Outcome id c spec (r, c') g (same, u, inl ((e, fault), d)) = rw e (u, d, inl fault)
Closed-Outcome id c (ok a, db) (r, c') g (same, u, inr (er, ed)) = rw (er, ed) (u, g)
Closed-Outcome id c (err e, db) (r, c') g (same, u, inr (er, ed)) = rw er (u, ed, inr g)

-- DeleteUser outside of a transaction leaves no transaction open. Where it succeeds, the users, the
-- quotas, the keys, the memberships, the connections and the recovery codes are those that were
-- there and are not of the user, and sites, apps and zones are as they were. Where it fails, the
-- database is as it was, and the engine has refused a statement or there is no such user.
pub delete_user-Outcome :
    (id : ℕ) (c : Conn Accounts) → c.undo ≡ none → Outcome id c (delete_user id c)
delete_user-Outcome id c h =
    Closed-Outcome id c (removed_user id c.db) (delete_user id c) (removed_user-Gone id c.db)
      (delete_user-Closed id c h)
