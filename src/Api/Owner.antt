-- ===== src/Api/Owner.antt =====
-- internal/api/teams.go: who may reach what an owner has.
pub mod Rules
use lamund.Prelude.{
  ℕ, Bool, true, false, ◌&&◌, ◌||◌, Option, none, some, ◌==◌, if◌then◌else◌, Bytes, codes, beq,
}
use lamund.Access.Session.{AuthUser}
use lamund.Quota.{int_lt, is_superadmin}
use lamund.Store.Teams.{get_member_role}
use lamund.Api.Handler.{Handler, go, ignoring, ◌>>=◌}

abbrev pub is_some : {A : Type 0} → Option A → Bool
is_some none = false
is_some (some a) = true

-- No role is none of the roles.
abbrev pub role_is : Bytes → Option Bytes → Bool
role_is role none = false
role_is role (some r) = beq r role

-- GetMemberRole with its two results as one
abbrev pub member_role : ℕ → ℕ → Handler (Option Bytes)
member_role team_id user_id = ignoring none (get_member_role team_id user_id)

unfoldable pub can_access_owner : AuthUser → Bytes → ℕ → Handler Bool
can_access_owner u owner_type owner_id =
    if is_superadmin u.role
    then go true
    else if beq owner_type (codes "team")
    then (member_role owner_id u.id >>= λ r. go (is_some r))
    else go (owner_id == u.id)

unfoldable pub can_manage_team : AuthUser → ℕ → Handler Bool
can_manage_team u team_id =
    if is_superadmin u.role
    then go true
    else (member_role team_id u.id >>= λ r.
        go (role_is (codes "owner") r || role_is (codes "admin") r))

-- The owner of what is created; `none` is the refusal.
abbrev resolved : AuthUser → ℕ → Option Bytes → Option (Bytes × ℕ)
resolved u owner_id r =
    if is_some r || is_superadmin u.role then some (codes "team", owner_id) else none

unfoldable pub resolve_owner : AuthUser → Bytes → ℕ → Handler (Option (Bytes × ℕ))
resolve_owner u owner_type owner_id =
    if beq owner_type (codes "team") && int_lt 0 owner_id
    then (member_role owner_id u.id >>= λ r. go (resolved u owner_id r))
    else go (some (codes "user", u.id))
