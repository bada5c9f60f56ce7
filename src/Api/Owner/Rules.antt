-- ===== src/Api/Owner/Rules.antt =====
-- The questions of internal/api/teams.go change no table, and an error of the store is no role.
use lamund.Api.Owner.{can_manage_team, member_role, can_access_owner}
use lamund.Prelude.{ℕ, ◌≡◌, refl, ◌⊎◌, inl, inr, none, Bool-cases, Bytes, codes, beq}
use lamund.Access.Session.{AuthUser}
use lamund.Quota.{is_superadmin}
use lamund.Store.Conn.{Conn, query}
use lamund.Store.Tables.{Tables}
use lamund.Store.Teams.{role_in, get_member_role}
use lamund.Api.Handler.Rules.{Leads, Leads-bind, Same}

module _ (P : Tables → Type 0) where
  pub member_role-Leads :
      (team_id user_id : ℕ) (c : Conn Tables)
      → Leads P
          (λ o c'. Same c c' × ((o ≡ role_in team_id user_id c.db.members) ⊎ (o ≡ none)))
          (member_role team_id user_id c)
  unfolding get_member_role query
  member_role-Leads team_id user_id c = elim (Bool-cases (c.faults c.clock)) [
    | inl e ↦ rw e ((refl, refl), inr refl)
    | inr e ↦ rw e ((refl, refl), inl refl)
  ]

  pub can_access_owner-Leads :
      (u : AuthUser) (owner_type : Bytes) (owner_id : ℕ) (c : Conn Tables)
      → Leads P (λ b c'. Same c c') (can_access_owner u owner_type owner_id c)
  unfolding can_access_owner
  can_access_owner-Leads u owner_type owner_id c = elim (Bool-cases (is_superadmin u.role)) [
    | inl s ↦ rw s (refl, refl)
    | inr s ↦ elim (Bool-cases (beq owner_type (codes "team"))) [
      | inr t ↦ rw (s, t) (refl, refl)
      | inl t ↦
          rw (s, t)
            (Leads-bind P _ _ _ (member_role owner_id u.id c) (member_role-Leads owner_id u.id c)
              (λ o c' h. h.0))
    ]
  ]

  pub can_manage_team-Leads :
      (u : AuthUser) (team_id : ℕ) (c : Conn Tables)
      → Leads P (λ b c'. Same c c') (can_manage_team u team_id c)
  unfolding can_manage_team
  can_manage_team-Leads u team_id c = elim (Bool-cases (is_superadmin u.role)) [
    | inl s ↦ rw s (refl, refl)
    | inr s ↦ rw s (
        Leads-bind P _ _ _ (member_role team_id u.id c) (member_role-Leads team_id u.id c)
          (λ o c' h. h.0))
  ]
