-- ===== src/Api/Admin/Removal.antt =====
-- What handleDeleteUser may do to the database.
use lamund.Prelude.{
  ℕ, ◌<◌, ◌≡◌, refl, sym, ◌∙◌, ◌≢◌, ◌⊎◌, inl, inr, Bool, false, ◌&&◌, ◌||◌, Option, none, some,
  List, [], ◌∷◌, arith, ltb, leb, ◌==◌, Bool-cases, All-mono, Bytes, codes, beq, beq_iff, length,
  select, find, All,
}
use lamund.Access.Session.{AuthUser}
use lamund.Quota.{is_superadmin}
use lamund.Store.Conn.{Conn, Result, ok, err}
use lamund.Dns.Types.{DnsZone}
use lamund.Store.Tables.{Site}
use lamund.Store.Accounts.{OwnedApp, Account, Accounts}
use lamund.Store.Users.{
  get_account, count_users_by_role, count_owned_resources, owned_resources, delete_user,
}
use lamund.Store.Users.Gone.{IsRemoved, Outcome, delete_user-Outcome}
use lamund.Api.Handler.{Response, handled, or_status, some_or, stop_if, reply, message, ◌>>=◌, ◌>>◌}
use lamund.Api.Handler.Rules.{
  Leads, Same, Same-trans, Leads-bind, Leads-weaken, handled-Leads, some_or-Leads, or_status-query,
  stop_if-Leads, or_status-keeps,
}
use lamund.Api.Admin.{AdminHandler, check_superadmin, handle_delete_user}

abbrev IsPersonal : ℕ → Bytes → ℕ → Type 0
IsPersonal id owner_type owner_id = (owner_type ≡ codes "user") × (owner_id ≡ id)

-- No site, app or zone is the user's own, and no site or app was made by the user.
abbrev pub OwnsNothing : ℕ → Accounts → Type 0
OwnsNothing id db =
    All (λ (s : Site). ¬ IsPersonal id s.owner_type s.owner_id × (s.user_id ≢ id)) db.sites
    × All (λ (a : OwnedApp). ¬ IsPersonal id a.owner_type a.owner_id × (a.user_id ≢ id)) db.apps
    × All (λ (z : DnsZone). ¬ IsPersonal id z.owner_type z.owner_id) db.dns_zones

-- The role is another, or several accounts are superadmins.
abbrev IsOneOfMany : Bytes → Accounts → Type 0
IsOneOfMany role db =
    (role ≢ codes "superadmin")
    ⊎ (1 < length (select (λ u. beq u.role (codes "superadmin")) db.users))

-- The account is no superadmin, or one of several.
abbrev pub IsSpare : ℕ → Accounts → Type 0
IsSpare id db = (a : Account) × (find (λ u. u.id == id) db.users ≡ some a) × IsOneOfMany a.role db

-- Nothing, or the removal of an account of the path that is not the caller's, owns nothing and is
-- not the last superadmin.
abbrev pub IsAdmissible : AuthUser → Option ℕ → Accounts → Accounts → Type 0
IsAdmissible caller path_id db db' =
    (db' ≡ db)
    ⊎ ((id : ℕ) × (path_id ≡ some id)
        × (id ≢ caller.id)
        × OwnsNothing id db
        × IsSpare id db
        × IsRemoved id db db')

none-selected :
    {A : Type 0} (p : A → Bool) (l : List A) → length (select p l) ≡ 0 → All (λ x. p x ≡ false) l
none-selected p [] h = tt
none-selected p (x ∷ l) h = elim (Bool-cases (p x)) [
  | inl e ↦ absurd (ground (arith, h, e))
  | inr e ↦ (e, none-selected p l (rw e at h))
]

abbrev is_own : ℕ → Bytes → ℕ → Bool
is_own id owner_type owner_id = beq owner_type (codes "user") && owner_id == id

IsPersonal-is_own :
    (id owner_id : ℕ) (owner_type : Bytes)
    → is_own id owner_type owner_id ≡ false
    → ¬ IsPersonal id owner_type owner_id
IsPersonal-is_own id owner_id owner_type h (e, k) =
    ground (arith, beq_iff owner_type (codes "user"), h, e, k)

not_theirs :
    (id user_id owner_id : ℕ) (owner_type : Bytes)
    → (is_own id owner_type owner_id || user_id == id) ≡ false
    → ¬ IsPersonal id owner_type owner_id × (user_id ≢ id)
not_theirs id user_id owner_id owner_type h =
    (IsPersonal-is_own id owner_id owner_type (ground (arith, h)), (λ k. ground (arith, h, k)))

owned_resources-OwnsNothing :
    (id : ℕ) (db : Accounts) → owned_resources id db ≡ 0 → OwnsNothing id db
unfolding owned_resources
owned_resources-OwnsNothing id db h = (
  All-mono (λ s. (is_own id s.owner_type s.owner_id || s.user_id == id) ≡ false)
      (λ s. ¬ IsPersonal id s.owner_type s.owner_id × (s.user_id ≢ id)) db.sites
      (λ s k. not_theirs id s.user_id s.owner_id s.owner_type k)
      (none-selected _ db.sites (omega (arith, h))),
  All-mono (λ a. (is_own id a.owner_type a.owner_id || a.user_id == id) ≡ false)
      (λ a. ¬ IsPersonal id a.owner_type a.owner_id × (a.user_id ≢ id)) db.apps
      (λ a k. not_theirs id a.user_id a.owner_id a.owner_type k)
      (none-selected _ db.apps (omega (arith, h))),
  All-mono (λ z. is_own id z.owner_type z.owner_id ≡ false)
      (λ z. ¬ IsPersonal id z.owner_type z.owner_id) db.dns_zones
      (λ z k. IsPersonal-is_own id z.owner_id z.owner_type k)
      (none-selected _ db.dns_zones (omega (arith, h))),
)

Outcome-db :
    (id : ℕ) (c : Conn Accounts) (out : Result Unit × Conn Accounts)
    → Outcome id c out
    → (out.1.db ≡ c.db) ⊎ IsRemoved id c.db out.1.db
Outcome-db id c (ok _, c') h = inr h.1
Outcome-db id c (err e, c') h = inl h.1

IsRemoved-from :
    (id : ℕ) (db base db' : Accounts) → base ≡ db → IsRemoved id base db' → IsRemoved id db db'
IsRemoved-from id db base db' h g = rw h at g

none-left : (n : ℕ) → ltb 0 n ≡ false → n ≡ 0
none-left n h = ground arith

no_superadmin : (role : Bytes) → is_superadmin role ≡ false → role ≢ codes "superadmin"
no_superadmin role h e = ground (arith, beq_iff role (codes "superadmin"), h, e)

module _ (P : Accounts → Type 0) where
  check_superadmin-Leads :
      (role : Bytes) (c : Conn Accounts)
      → P c.db
      → Leads P (λ u c'. Same c c' × IsOneOfMany role c.db) (check_superadmin role c)
  unfolding check_superadmin count_users_by_role
  check_superadmin-Leads role c h = elim (Bool-cases (is_superadmin role)) [
    | inl e ↦ rw e (
        Leads-bind P (λ n c'. Same c c' × (n ≡ _)) (λ u c'. Same c c' × IsOneOfMany role c.db) _
          (or_status 500 (count_users_by_role (codes "superadmin")) c) (or_status-query P 500 _ c h)
          (λ n c1 (s, k).
            Leads-weaken P (λ u c'. Same c1 c' × (leb n 1 ≡ false))
              (λ u c'. Same c c' × IsOneOfMany role c.db) (stop_if (leb n 1) 400 c1)
              (stop_if-Leads P (leb n 1) 400 c1 (rw s.0 h))
              (λ u c2 (t, many). (Same-trans c c1 c2 s t, inr (ground (arith, k, many))))))
    | inr e ↦ rw e ((refl, refl), inl (no_superadmin role e))
  ]

module _ (caller : AuthUser) (path_id : Option ℕ) (c : Conn Accounts) (closed : c.undo ≡ none) where
  abbrev P : Accounts → Type 0
  P db = IsAdmissible caller path_id c.db db

  unchanged : (c' : Conn Accounts) → Same c c' → P c'.db
  unchanged c' s = inl s.0

  removal :
      (id : ℕ) (c' : Conn Accounts)
      → Same c c'
      → path_id ≡ some id
      → (id == caller.id) ≡ false
      → IsSpare id c.db
      → owned_resources id c.db ≡ 0
      → P (delete_user id c').1.db
  removal id c' s p other spare owns =
      elim (Outcome-db id c' (delete_user id c') (delete_user-Outcome id c' (s.1 ∙ closed))) [
        | inl e ↦ inl (e ∙ s.0)
        | inr g ↦ inr (
          id,
          p,
          (λ k. ground (arith, other, k)),
          owned_resources-OwnsNothing id c.db owns,
          spare,
          IsRemoved-from id c.db c'.db (delete_user id c').1.db s.0 g,
        )
      ]

  -- The end of the handler.
  abbrev last_steps : ℕ → AdminHandler Response
  last_steps id = do
    n ← or_status 500 (count_owned_resources id)
    stop_if (ltb 0 n) 409
    or_status 500 (delete_user id)
    reply 200 message

  ends :
      (id : ℕ) (c' : Conn Accounts)
      → path_id ≡ some id
      → (id == caller.id) ≡ false
      → IsSpare id c.db
      → Same c c'
      → Leads P (λ r c'. P c'.db) (last_steps id c')
  unfolding count_owned_resources
  ends id c5 p other spare s5 =
      Leads-bind P _ _ _ (or_status 500 (count_owned_resources id) c5)
        (or_status-query P 500 _ c5 (unchanged c5 s5))
        (λ n c6 (s6, owned).
          let t6 = Same-trans c c5 c6 s5 s6 in
          Leads-bind P _ _ _ (stop_if (ltb 0 n) 409 c6)
            (stop_if-Leads P (ltb 0 n) 409 c6 (unchanged c6 t6))
            (λ _ c7 (s7, few).
              let t7 = Same-trans c c6 c7 t6 s7 in
              let owns : owned_resources id c5.db ≡ 0 = sym owned ∙ none-left n few in
              Leads-bind P _ _ _ (or_status 500 (delete_user id) c7)
                (or_status-keeps P 500 (delete_user id) c7
                  (removal id c7 t7 p other spare (rw s5.0 at owns)))
                (λ _ c8 h. h)))

  spared :
      (id : ℕ) (target : Account) (db : Accounts)
      → db ≡ c.db
      → find (λ u. u.id == id) db.users ≡ some target
      → IsOneOfMany target.role c.db
      → IsSpare id c.db
  spared id target db same found many = (target, rw same at found, many)

  deletion-Leads : Leads P (λ r c'. P c'.db) (handle_delete_user caller path_id c)
  unfolding handle_delete_user get_account count_owned_resources
  deletion-Leads =
      Leads-bind P _ _ _ (some_or 400 path_id c) (some_or-Leads P 400 path_id c (inl refl))
        (λ id c1 (s1, p).
          Leads-bind P _ _ _ (stop_if (id == caller.id) 400 c1)
            (stop_if-Leads P (id == caller.id) 400 c1 (unchanged c1 s1))
            (λ _ c2 (s2, other).
              let t2 = Same-trans c c1 c2 s1 s2 in
              Leads-bind P _ _ _ (or_status 404 (get_account id) c2)
                (or_status-query P 404 _ c2 (unchanged c2 t2))
                (λ found c3 (s3, sought).
                  let t3 = Same-trans c c2 c3 t2 s3 in
                  Leads-bind P _ _ _ (some_or 404 found c3)
                    (some_or-Leads P 404 found c3 (unchanged c3 t3))
                    (λ target c4 (s4, present).
                      let t4 = Same-trans c c3 c4 t3 s4 in
                      Leads-bind P _ _ _ (check_superadmin target.role c4)
                        (check_superadmin-Leads P target.role c4 (unchanged c4 t4))
                        (λ _ c5 (s5, many).
                          ends id c5 p other
                            (spared id target c2.db t2.0 (sym sought ∙ present) (rw t4.0 at many))
                            (Same-trans c c4 c5 t4 s5))))))

-- DELETE of a user, outside of a transaction and whatever the engine refuses: the database is as
-- it was, or the account of the path is removed with the rows that belong to it; then this is not
-- the caller's account, owned and made no site or app, owned no zone, and was not the account of
-- the only superadmin.
pub handle_delete_user-IsAdmissible :
    (caller : AuthUser) (path_id : Option ℕ) (c : Conn Accounts)
    → c.undo ≡ none
    → IsAdmissible caller path_id c.db (handled (handle_delete_user caller path_id) c).1.db
handle_delete_user-IsAdmissible caller path_id c closed =
    handled-Leads (IsAdmissible caller path_id c.db) (handle_delete_user caller path_id) c
      (deletion-Leads caller path_id c closed)
