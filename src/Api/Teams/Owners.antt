-- ===== src/Api/Teams/Owners.antt =====
-- Who owns a team is decided by its owners and the superadmins.
use lamund.Store.Zones.{clean_name}
use lamund.Api.Teams.{AddMemberReq, is_escalation, handle_add_member}
use lamund.Prelude.{
  ℕ, ◌≡◌, refl, ◌⊎◌, inl, inr, Bool, true, false, ◌&&◌, ◌||◌, Option, none, some, List, arith, ◌==◌,
  Bool-cases, Option-cases, Bytes, codes, beq, find, trim_space,
}
use lamund.Access.Session.{AuthUser}
use lamund.Quota.{is_superadmin}
use lamund.Store.Conn.{Conn, query, exec}
use lamund.Store.Tables.{Tables, TeamMember}
use lamund.Store.Teams.{
  role_in, upsert_member, known_role, add_team_member, get_member_role, get_person,
}
use lamund.Store.Teams.Members.{role_in-upsert_member}
use lamund.Api.Handler.{handled}
use lamund.Api.Owner.{can_manage_team, role_is}

abbrev pub is_owner : ℕ → ℕ → List TeamMember → Bool
is_owner team_id user_id ms = role_is (codes "owner") (role_in team_id user_id ms)

known_role-owner :
    (role : Bytes)
    → beq role (codes "owner") ≡ false
    → beq (known_role role) (codes "owner") ≡ false
unfolding known_role
known_role-owner role h =
    elim (Bool-cases (beq role (codes "admin") || beq role (codes "member"))) [
      | inl e ↦ rw (h, e) h
      | inr e ↦ rw (h, e) (unfold beq in refl)
    ]

-- An update of a member that makes and unmakes no owner.
upsert_member-is_owner :
    (t v team_id user_id : ℕ) (role : Bytes) (ms : List TeamMember)
    → (((t == team_id && v == user_id) ≡ false)
        ⊎ ((beq role (codes "owner") ≡ false) × (is_owner t v ms ≡ false)))
    → is_owner t v (upsert_member team_id user_id (known_role role) ms) ≡ is_owner t v ms
upsert_member-is_owner t v team_id user_id role ms (inl other) =
    rw (role_in-upsert_member t v team_id user_id (known_role role) ms, other) refl
upsert_member-is_owner t v team_id user_id role ms (inr (plain, none_before)) =
    elim (Bool-cases (t == team_id && v == user_id)) [
      | inr other ↦ rw (role_in-upsert_member t v team_id user_id (known_role role) ms, other) refl
      | inl same ↦
          rw
            (
              role_in-upsert_member t v team_id user_id (known_role role) ms,
              same,
              known_role-owner role plain,
              none_before,
            )
            refl
    ]

or-false : (a b : Bool) → (a || b) ≡ false → (a ≡ false) × (b ≡ false)
or-false a b h = ground arith

-- What a call does to the owners of a team when the caller is none of them.
same_owners :
    (u : AuthUser) (t v id target : ℕ) (role : Bytes) (ms : List TeamMember)
    → is_superadmin u.role ≡ false
    → is_owner t u.id ms ≡ false
    → is_escalation u (role_in id u.id ms) (role_in id target ms) role ≡ false
    → is_owner t v (upsert_member id target (known_role role) ms) ≡ is_owner t v ms
unfolding is_escalation
same_owners u t v id target role ms plain outsider passed =
    upsert_member-is_owner t v id target role ms (elim (Bool-cases (t == id && v == target)) [
      | inr other ↦ inl other
      | inl same ↦
          let et : t ≡ id = ground (arith, same) in
          let ev : v ≡ target = ground (arith, same) in
          inr (
            or-false (beq role (codes "owner")) (is_owner t v ms)
              (rw (plain, ← et, ← ev, outsider) at passed))
    ])

-- With an engine that refuses no statement, a call of handleAddMember by a user who is neither a
-- superadmin nor an owner of a team leaves the owners of that team as they are.
pub handle_add_member-is_owner :
    (u : AuthUser) (path_id : Option ℕ) (body : Option AddMemberReq) (c : Conn Tables) (t v : ℕ)
    → c.faults ≡ (λ n. false)
    → is_superadmin u.role ≡ false
    → is_owner t u.id c.db.members ≡ false
    → is_owner t v (handled (handle_add_member u path_id body) c).1.db.members
      ≡ is_owner t v c.db.members
unfolding handle_add_member can_manage_team get_member_role query get_person add_team_member exec
handle_add_member-is_owner u none body c t v quiet plain outsider = refl
handle_add_member-is_owner u (some id) body c t v quiet plain outsider =
    elim (Bool-cases (
      role_is (codes "owner") (role_in id u.id c.db.members)
      || role_is (codes "admin") (role_in id u.id c.db.members))) [
        | inr stranger ↦ rw (plain, quiet, stranger) refl
        | inl manages ↦ managed body manages
      ]
  where
    managed :
        (body : Option AddMemberReq)
        → (role_is (codes "owner") (role_in id u.id c.db.members)
            || role_is (codes "admin") (role_in id u.id c.db.members))
          ≡ true
        → is_owner t v (handled (handle_add_member u (some id) body) c).1.db.members
          ≡ is_owner t v c.db.members
    managed none manages = rw (plain, quiet, manages) refl
    managed (some req) manages =
        elim (Option-cases
          (find (λ p. beq p.username (clean_name (trim_space req.username))) c.db.people)) [
            | inl absent ↦ rw (plain, quiet, manages, absent) refl
            | inr (p, present) ↦
                elim (Bool-cases (
                  is_escalation u (role_in id u.id c.db.members) (role_in id p.id c.db.members)
                    req.role)) [
                      | inl stopped ↦ rw (plain, quiet, manages, present, stopped) refl
                      | inr passed ↦
                          rw (plain, quiet, manages, present, passed)
                            (same_owners u t v id p.id req.role c.db.members plain outsider passed)
                    ]
          ]
