-- ===== src/Api/Teams/LastOwner.antt =====
-- A member is removed only if the team keeps an owner.
use lamund.Api.Teams.{handle_remove_member, remove_found, check_owner, count_team_owners, owners}
use lamund.Prelude.{
  ℕ, suc, ◌≤◌, ◌≡◌, refl, sym, ◌∙◌, ◌⊎◌, inl, inr, Bool, true, false, not, ◌&&◌, ◌||◌, Option, none,
  some, List, [], ◌∷◌, arith, leb, ◌==◌, if◌then◌else◌, ==_iff, Bool-cases, Apart, All-mono, Bytes,
  codes, beq, select, any, find, All,
}
use lamund.Access.Session.{AuthUser}
use lamund.Quota.{is_superadmin}
use lamund.Store.Conn.{Conn}
use lamund.Store.Tables.{Tables, TeamMember, Person, order_by, insert_row}
use lamund.Store.Teams.{
  role_in, is_member, member_before, join_users, list_team_members, remove_team_member,
}
use lamund.Api.Handler.{or_status, some_or, go, ignoring, stop_if, Response, handled}
use lamund.Api.Handler.Rules.{
  Leads-weaken, Same-trans, Leads, Leads-bind, handled-Leads, Same, some_or-Leads, stop_if-Leads,
  ignoring-query, or_status-write,
}
use lamund.Api.Owner.{can_manage_team, role_is, member_role}
use lamund.Api.Owner.Rules.{member_role-Leads, can_manage_team-Leads}

abbrev owns : ℕ → TeamMember → Bool
owns t m = m.team_id == t && beq m.role (codes "owner")

abbrev pub has_owner : ℕ → List TeamMember → Bool
has_owner t ms = any (owns t) ms

-- The primary key of team_members: no team and user stand twice.
abbrev OtherKey : TeamMember → TeamMember → Type 0
OtherKey m n = is_member m.team_id m.user_id n ≡ false

abbrev pub IsKeyed : List TeamMember → Type 0
IsKeyed ms = Apart OtherKey ms

abbrev count : ℕ → List TeamMember → ℕ
count t [] = 0
count t (m ∷ ms) = if owns t m then suc (count t ms) else count t ms

owners-insert_row :
    (x : TeamMember × Bytes) (l : List (TeamMember × Bytes))
    → owners (insert_row member_before x l) ≡ owners (x ∷ l)
unfolding insert_row owners
owners-insert_row x [] = refl
owners-insert_row x (y ∷ l) = elim (Bool-cases (member_before y x)) [
  | inl e ↦ rw (e, owners-insert_row x l) (ground arith)
  | inr e ↦ rw e refl
]

owners-order_by : (l : List (TeamMember × Bytes)) → owners (order_by member_before l) ≡ owners l
unfolding order_by owners
owners-order_by [] = refl
owners-order_by (x ∷ l) =
    rw (owners-insert_row x (order_by member_before l), owners-order_by l) refl

owners-le-count :
    (t : ℕ) (people : List Person) (ms : List TeamMember)
    → owners (join_users people (select (λ m. m.team_id == t) ms)) ≤ count t ms
unfolding join_users owners
owners-le-count t people [] = omega arith
owners-le-count t people (m ∷ ms) = elim (Bool-cases (m.team_id == t)) [
  | inr other ↦ rw other (owners-le-count t people ms)
  | inl same ↦
      rw same (joined_row (find (λ p. p.id == m.user_id) people) (owners-le-count t people ms))
]
  where
    joined_row :
        (o : Option Person)
        → owners (join_users people (select (λ m. m.team_id == t) ms)) ≤ count t ms
        → owners (elim o [
          | none ↦ join_users people (select (λ m. m.team_id == t) ms)
          | some p ↦ (m, p.username) ∷ join_users people (select (λ m. m.team_id == t) ms)
        ])
          ≤ (if beq m.role (codes "owner") then suc (count t ms) else count t ms)
    joined_row none ih = ground (arith, ih)
    joined_row (some p) ih = ground (arith, ih)

-- Without the member, what is left of a list in which the member does not stand.
select-absent :
    (t v : ℕ) (ms : List TeamMember)
    → All (λ n. is_member t v n ≡ false) ms
    → select (λ m. not (is_member t v m)) ms ≡ ms
select-absent t v [] h = refl
select-absent t v (m ∷ ms) h = rw (h.0, select-absent t v ms h.1) refl

absent_behind :
    (t v : ℕ) (m : TeamMember) (ms : List TeamMember)
    → is_member t v m ≡ true
    → All (OtherKey m) ms
    → All (λ n. is_member t v n ≡ false) ms
unfolding is_member
absent_behind t v m ms e h =
    All-mono (OtherKey m) (λ n. is_member t v n ≡ false) ms (λ n k. ground (arith, k, e)) h

count-has_owner : (t : ℕ) (ms : List TeamMember) → 1 ≤ count t ms → has_owner t ms ≡ true
count-has_owner t [] h = absurd (omega (arith, h))
count-has_owner t (m ∷ ms) h = elim (Bool-cases (owns t m)) [
  | inl e ↦ rw e refl
  | inr e ↦ rw e (count-has_owner t ms (rw e at h))
]

-- Of two owners, one stays.
two_owners :
    (t v : ℕ) (ms : List TeamMember)
    → IsKeyed ms
    → 2 ≤ count t ms
    → has_owner t (select (λ m. not (is_member t v m)) ms) ≡ true
two_owners t v [] keyed h = absurd (omega (arith, h))
two_owners t v (m ∷ ms) keyed h = elim (Bool-cases (is_member t v m)) [
  | inl same ↦
      rw (same, select-absent t v ms (absent_behind t v m ms same keyed.0))
        (count-has_owner t ms (ground (arith, h)))
  | inr other ↦ elim (Bool-cases (owns t m)) [
    | inl e ↦ rw (other, e) refl
    | inr e ↦ rw (other, e) (two_owners t v ms keyed.1 (rw e at h))
  ]
]

plain_owns :
    (t : ℕ) (m : TeamMember) (role : Bytes)
    → m.role ≡ role
    → beq role (codes "owner") ≡ false
    → owns t m ≡ false
plain_owns t m role e plain = elim (Bool-cases (m.team_id == t)) [
  | inl same ↦ rw (same, e, plain) refl
  | inr other ↦ rw other refl
]

-- Who is no owner can go.
plain_member :
    (t v : ℕ) (role : Bytes) (ms : List TeamMember)
    → IsKeyed ms
    → role_in t v ms ≡ some role
    → beq role (codes "owner") ≡ false
    → has_owner t ms ≡ true
    → has_owner t (select (λ m. not (is_member t v m)) ms) ≡ true
plain_member t v role [] keyed found plain h = cc (found)
plain_member t v role (m ∷ ms) keyed found plain h = elim (Bool-cases (is_member t v m)) [
  | inl same ↦
      rw (same, select-absent t v ms (absent_behind t v m ms same keyed.0))
        (rw (plain_owns t m role (cc (rw same at found)) plain) at h)
  | inr other ↦ elim (Bool-cases (owns t m)) [
    | inl e ↦ rw (other, e) refl
    | inr e ↦ rw (other, e) (plain_member t v role ms keyed.1 (rw other at found) plain (rw e at h))
  ]
]

-- The tables of members keep an owner of the team.
abbrev Owned : ℕ → Tables → Type 0
Owned t db = has_owner t db.members ≡ true

count_team_owners-Leads :
    (id t : ℕ) (c : Conn Tables)
    → Leads (Owned t) (λ n c'. Same c c' × (n ≤ count id c.db.members)) (count_team_owners id c)
unfolding count_team_owners list_team_members
count_team_owners-Leads id t c =
    Leads-bind (Owned t) _ (λ n c'. Same c c' × (n ≤ count id c.db.members)) (λ l. go (owners l))
      (ignoring [] (list_team_members id) c) (ignoring-query (Owned t) [] _ c)
      (λ l c' k. (k.0, counted l k.1))
  where
    counted :
        (l : List (TeamMember × Bytes))
        → ((l
              ≡ order_by member_before
                  (join_users c.db.people (select (λ m. m.team_id == id) c.db.members)))
            ⊎ (l ≡ []))
        → owners l ≤ count id c.db.members
    counted l (inl e) =
        rw
          (e, owners-order_by (join_users c.db.people (select (λ m. m.team_id == id) c.db.members)))
          (owners-le-count id c.db.people c.db.members)
    counted l (inr e) = rw e (unfold owners in omega arith)

check_owner-Leads :
    (u : AuthUser) (id t : ℕ) (role : Bytes) (c : Conn Tables)
    → Owned t c.db
    → Leads
        (Owned t)
        (λ (w : Unit) c'.
          Same c c' × ((beq role (codes "owner") ≡ false) ⊎ (2 ≤ count id c.db.members)))
        (check_owner u id role c)
check_owner-Leads u id t role c h = elim (Bool-cases (beq role (codes "owner"))) [
  | inr other ↦ rw other ((refl, refl), inl refl)
  | inl same ↦ rw same (
      Leads-bind (Owned t) _ _ _ (member_role id u.id c) (member_role-Leads (Owned t) id u.id c)
        (λ o c1 k1.
          let b = not (is_superadmin u.role || role_is (codes "owner") o) in
          Leads-bind (Owned t) _ _ _ (stop_if b 403 c1)
            (stop_if-Leads (Owned t) b 403 c1 (rw k1.0.0 h))
            (λ _ c2 k2.
              Leads-bind (Owned t) _ _ (λ n. stop_if (leb n 1) 409) (count_team_owners id c2)
                (count_team_owners-Leads id t c2)
                (λ n c3 k3.
                  let s2 = Same-trans c c1 c2 k1.0 k2.0 in
                  let s3 = Same-trans c c2 c3 s2 k3.0 in
                  Leads-weaken (Owned t) _ _ (stop_if (leb n 1) 409 c3)
                    (stop_if-Leads (Owned t) (leb n 1) 409 c3 (rw s3.0 h))
                    (λ _ c4 k4. (
                      Same-trans c c3 c4 s3 k4.0,
                      inr (ground (arith, k4.1, (rw s2.0 at k3.1))),
                    ))))))
]

-- Another team keeps its owners.
other_team :
    (t id v : ℕ) (ms : List TeamMember)
    → (t == id) ≡ false
    → has_owner t ms ≡ true
    → has_owner t (select (λ m. not (is_member id v m)) ms) ≡ true
unfolding is_member
other_team t id v [] e h = cc (h)
other_team t id v (m ∷ ms) e h = ground (arith, other_team t id v ms e)

-- What the checks before a removal are for.
stays :
    (t id v : ℕ) (role : Bytes) (ms : List TeamMember)
    → IsKeyed ms
    → has_owner t ms ≡ true
    → role_in id v ms ≡ some role
    → (beq role (codes "owner") ≡ false) ⊎ (2 ≤ count id ms)
    → has_owner t (select (λ m. not (is_member id v m)) ms) ≡ true
stays t id v role ms keyed h found checks = elim (Bool-cases (t == id)) [
  | inr other ↦ other_team t id v ms other h
  | inl same ↦
      let e : t ≡ id = (==_iff t id).0 same in
      rw e (elim checks [
        | inl plain ↦ plain_member id v role ms keyed found plain (rw e at h)
        | inr two ↦ two_owners id v ms keyed two
      ])
]

some_is : (role : Bytes) (o : Option Bytes) → (some role ≡ o) ⊎ (some role ≡ none) → o ≡ some role
some_is role o (inl e) = sym e
some_is role o (inr e) = cc (e)

remove_found-Leads :
    (u : AuthUser) (id target t : ℕ) (o : Option Bytes) (c : Conn Tables)
    → IsKeyed c.db.members
    → Owned t c.db
    → (o ≡ role_in id target c.db.members) ⊎ (o ≡ none)
    → Leads (Owned t) (λ r c'. Owned t c'.db) (remove_found u id target o c)
unfolding remove_team_member
remove_found-Leads u id target t none c keyed h k = h
remove_found-Leads u id target t (some role) c keyed h k =
    Leads-bind (Owned t) _ _ _ (check_owner u id role c) (check_owner-Leads u id t role c h)
      (λ w c1 k1.
        Leads-bind (Owned t) _ _ _ (or_status 500 (remove_team_member id target) c1)
          (or_status-write (Owned t) 500 _ c1 (rw k1.0.0 h))
          (λ _ c2 k2.
            rw (k2, k1.0.0)
              (stays t id target role c.db.members keyed h
                (some_is role (role_in id target c.db.members) k) k1.1)))

-- Removing a member through the API leaves an owner in every team that had one, whoever calls,
-- with any path, and whichever statements the engine refuses.
pub handle_remove_member-has_owner :
    (u : AuthUser) (path_id path_user : Option ℕ) (c : Conn Tables) (t : ℕ)
    → IsKeyed c.db.members
    → has_owner t c.db.members ≡ true
    → has_owner t (handled (handle_remove_member u path_id path_user) c).1.db.members ≡ true
unfolding handle_remove_member
handle_remove_member-has_owner u path_id path_user c t keyed h =
    let R = λ (r : Response) (c' : Conn Tables). Owned t c'.db in
    handled-Leads (Owned t) (handle_remove_member u path_id path_user) c (
      Leads-bind (Owned t) _ R _ (some_or 400 path_id c) (some_or-Leads (Owned t) 400 path_id c h)
        (λ id c1 k1.
          Leads-bind (Owned t) _ R _ (can_manage_team u id c1)
            (can_manage_team-Leads (Owned t) u id c1)
            (λ b c2 k2.
              Leads-bind (Owned t) _ R _ (stop_if (not b) 403 c2)
                (stop_if-Leads (Owned t) (not b) 403 c2 (rw (k2.0, k1.0.0) h))
                (λ _ c3 k3.
                  Leads-bind (Owned t) _ R _ (some_or 400 path_user c3)
                    (some_or-Leads (Owned t) 400 path_user c3 (rw (k3.0.0, k2.0, k1.0.0) h))
                    (λ target c4 k4.
                      Leads-bind (Owned t) _ R _ (member_role id target c4)
                        (member_role-Leads (Owned t) id target c4)
                        (λ o c5 k5.
                          let e4 : c4.db ≡ c.db = k4.0.0 ∙ k3.0.0 ∙ k2.0 ∙ k1.0.0 in
                          let e5 : c5.db ≡ c.db = k5.0.0 ∙ e4 in
                          remove_found-Leads u id target t o c5 (rw e5 keyed) (rw e5 h)
                            (rw k5.0.0 (k5.1))))))))
