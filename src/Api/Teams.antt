-- ===== src/Api/Teams.antt =====
-- internal/api/teams.go: the handlers of teams, members and invitations, after requireAuth. The
-- number of the path and the decoded body are `none` for an error.
pub mod Owners
pub mod Invites
pub mod LastOwner
use lamund.Prelude.{
  ℕ, suc, Bool, true, false, not, ◌&&◌, ◌||◌, Option, none, some, List, [], ◌∷◌, ltb, leb, ◌==◌,
  if◌then◌else◌, Bytes, codes, beq, length, lower, is_empty, trim, trim_space,
}
use lamund.Access.Session.{AuthUser}
use lamund.Quota.{is_superadmin, Decision, allowed, errored, denied}
use lamund.Store.Tables.{Team, TeamMember, Invite}
use lamund.Store.Teams.{
  list_teams_by_user, create_team, get_team, delete_team, add_team_member, remove_team_member,
  list_team_members, list_teams, count_team_members, get_person, create_invite, get_invite,
  delete_invite,
}
use lamund.Api.Handler.{
  Handler, Response, message, teams_body, team_body, member_body, token_body, go, write_err,
  or_status, some_or, ignoring, stop_if, ◌>>=◌, ◌>>◌, reply,
}
use lamund.Api.Owner.{is_some, member_role, role_is, can_manage_team}

-- The loop of handleListTeams, which counts the members of each team.
unfoldable pub count_members : List Team → Handler (List (Team × ℕ))
count_members [] = go []
count_members (t ∷ ts) = do
  n ← ignoring 0 (count_team_members t.id)
  rest ← count_members ts
  go ((t, n) ∷ rest)

unfoldable pub handle_list_teams : AuthUser → Handler Response
handle_list_teams u = do
  teams ← or_status 500 (if is_superadmin u.role then list_teams else list_teams_by_user u.id)
  counted ← count_members teams
  reply 200 (teams_body counted)

-- [^a-z0-9-]+ replaced by "-"; `after` is whether the byte before was replaced.
unfoldable pub replace_runs : Bool → Bytes → Bytes
replace_runs after [] = []
replace_runs after (c ∷ s) =
    let kept = replace_runs false s in
    let cut = replace_runs true s in
    if (leb b'a' c && leb c b'z') || ((leb b'0' c && leb c b'9') || c == b'-')
    then c ∷ kept
    else if after
    then cut
    else b'-' ∷ cut

unfoldable pub slugify : Bytes → Bytes
slugify name = trim (λ c. c == b'-') (replace_runs false (lower (trim_space name)))

-- The slug of a request, or else of the name.
abbrev pub slug_of : Bytes → Bytes → Bytes
slug_of slug name = if is_empty (slugify slug) then slugify name else slugify slug

abbrev by_quota_decision : Decision → Handler Unit
by_quota_decision allowed = go tt
by_quota_decision errored = write_err 500
by_quota_decision (denied n) = write_err 403

pub record CreateTeamReq : Type 0 where
  pub name : Bytes
  pub slug : Bytes

-- `quota` is what quota.CanCreateTeam answers.
unfoldable pub handle_create_team : AuthUser → Decision → Option CreateTeamReq → Handler Response
handle_create_team u quota body = do
  stop_if (is_empty u.role) 403
  by_quota_decision quota
  req ← some_or 400 body
  let name = trim_space req.name
  stop_if (ltb (length name) 2) 400
  stop_if (is_empty (slug_of req.slug name)) 400
  id ← or_status 400 (create_team name (slug_of req.slug name))
  or_status 500 (add_team_member id u.id (codes "owner"))
  reply 201 (member_body id (codes "owner"))

unfoldable pub handle_get_team : AuthUser → Option ℕ → Handler Response
handle_get_team u path_id = do
  id ← some_or 400 path_id
  role ← member_role id u.id
  stop_if (not (is_some role || is_superadmin u.role)) 404
  found ← or_status 404 (get_team id)
  team ← some_or 404 found
  members ← or_status 500 (list_team_members id)
  reply 200 (team_body team members)

pub record AddMemberReq : Type 0 where
  pub username : Bytes
  pub role : Bytes

-- A change of owners, which only an owner or a superadmin may make.
unfoldable pub is_escalation : AuthUser → Option Bytes → Option Bytes → Bytes → Bool
is_escalation u caller target role =
    not (is_superadmin u.role || role_is (codes "owner") caller)
    && (beq role (codes "owner") || role_is (codes "owner") target)

unfoldable pub handle_add_member : AuthUser → Option ℕ → Option AddMemberReq → Handler Response
handle_add_member u path_id body = do
  id ← some_or 400 path_id
  manages ← can_manage_team u id
  stop_if (not manages) 403
  req ← some_or 400 body
  found ← or_status 404 (get_person (trim_space req.username))
  target ← some_or 404 found
  caller_role ← member_role id u.id
  target_role ← member_role id target.id
  stop_if (is_escalation u caller_role target_role req.role) 403
  or_status 500 (add_team_member id target.id req.role)
  reply 200 (member_body target.id req.role)

unfoldable pub owners : List (TeamMember × Bytes) → ℕ
owners [] = 0
owners ((m, name) ∷ ms) = if beq m.role (codes "owner") then suc (owners ms) else owners ms

-- An error of the query counts as no owner.
unfoldable pub count_team_owners : ℕ → Handler ℕ
count_team_owners team_id = do
  members ← ignoring [] (list_team_members team_id)
  go (owners members)

-- the checks before an owner is removed
abbrev check_owner : AuthUser → ℕ → Bytes → Handler Unit
check_owner u id target_role =
    if beq target_role (codes "owner")
    then (do
      caller_role ← member_role id u.id
      stop_if (not (is_superadmin u.role || role_is (codes "owner") caller_role)) 403
      n ← count_team_owners id
      stop_if (leb n 1) 409)
    else go tt

abbrev remove_found : AuthUser → ℕ → ℕ → Option Bytes → Handler Response
remove_found u id target_id none = reply 200 message
remove_found u id target_id (some target_role) = do
  check_owner u id target_role
  or_status 500 (remove_team_member id target_id)
  reply 200 message

unfoldable pub handle_remove_member : AuthUser → Option ℕ → Option ℕ → Handler Response
handle_remove_member u path_id path_user = do
  id ← some_or 400 path_id
  manages ← can_manage_team u id
  stop_if (not manages) 403
  target_id ← some_or 400 path_user
  target_role ← member_role id target_id
  remove_found u id target_id target_role

unfoldable pub handle_delete_team : AuthUser → Option ℕ → Handler Response
handle_delete_team u path_id = do
  id ← some_or 400 path_id
  role ← member_role id u.id
  stop_if (not (is_superadmin u.role || role_is (codes "owner") role)) 403
  or_status 500 (delete_team id)
  reply 200 message

abbrev or_member : Bytes → Bytes
or_member role = if is_empty role then codes "member" else role

abbrev pub is_invitable : Bytes → Bool
is_invitable role = beq role (codes "member") || beq role (codes "admin")

-- `token` is from randomHex, `expires_at` the text of the time in 72 hours.
unfoldable pub handle_create_invite_link :
    AuthUser → Option ℕ → Bytes → Bytes → Option Bytes → Handler Response
handle_create_invite_link u path_id token expires_at body = do
  id ← some_or 400 path_id
  manages ← can_manage_team u id
  stop_if (not manages) 403
  role ← some_or 400 body
  stop_if (not (is_invitable (or_member role))) 400
  or_status 500 (create_invite id (or_member role) token expires_at [])
  reply 200 (token_body token)

pub record InviteEmailReq : Type 0 where
  pub email : Bytes
  pub role : Bytes

-- `sent` is whether the mail goes out; `none` is a missing mailer.
unfoldable pub handle_invite_email :
    AuthUser → Option ℕ → Bytes → Bytes → Option Bool → Option InviteEmailReq → Handler Response
handle_invite_email u path_id token expires_at sent body = do
  id ← some_or 400 path_id
  manages ← can_manage_team u id
  stop_if (not manages) 403
  req ← some_or 400 body
  stop_if (not (is_invitable req.role)) 400
  mailed ← some_or 503 sent
  or_status 500 (create_invite id req.role token expires_at req.email)
  stop_if (not mailed) 502
  reply 200 message

-- time.Parse and time.Now().After: `expired` is true for a text that is no time, too.
module _ (expired : Bytes → Bool) where
  abbrev check_expiry : Bytes → Invite → Handler Unit
  check_expiry token inv =
      if not (is_empty inv.expires_at) && expired inv.expires_at
      then (do ignoring tt (delete_invite token); write_err 410)
      else go tt

  -- strings.EqualFold, on ASCII letters
  abbrev pub is_for_other : AuthUser → Invite → Bool
  is_for_other u inv = not (is_empty inv.email) && not (beq (lower u.email) (lower inv.email))

  abbrev granted : Bytes → Bytes
  granted role = if is_invitable role then role else codes "member"

  unfoldable pub handle_accept_invite : AuthUser → Bytes → Handler Response
  handle_accept_invite u token = do
    found ← or_status 404 (get_invite token)
    inv ← some_or 404 found
    check_expiry token inv
    stop_if (is_for_other u inv) 403
    or_status 500 (add_team_member inv.team_id u.id (granted inv.role))
    ignoring tt (delete_invite token)
    reply 200 (member_body inv.team_id (granted inv.role))
