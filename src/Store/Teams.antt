-- ===== src/Store/Teams.antt =====
-- internal/store/teams.go and invites.go: teams, their members and invitations.
pub mod Members
use mathlib.Core.Option
use lamund.Prelude.{
  ℕ, suc, Bool, not, ◌&&◌, ◌||◌, Option, none, some, List, [], ◌∷◌, ◌++◌, ◌==◌, if◌then◌else◌,
  Bytes, codes, beq, length, select, any, find,
}
use lamund.Store.Conn.{Result, ok, err, exec, query, unique, registered, not_found, ◌>>◌}
use lamund.Store.Tables.{Tables, Team, TeamMember, Invite, Person, order_by}
use lamund.Store.Zones.{Store, clean_name}
use lamund.Search.{text_lt}

unfoldable pub is_member : ℕ → ℕ → TeamMember → Bool
is_member team_id user_id m = m.team_id == team_id && m.user_id == user_id

-- INSERT INTO teams: the slug is UNIQUE
unfoldable pub insert_team : Bytes → Bytes → Tables → Result ℕ × Tables
insert_team name slug db = if any (λ t. beq t.slug slug) db.teams then (err registered, db) else (
  ok db.next_team,
  record db {
    teams = db.teams ++ record { id = db.next_team; name = name; slug = slug } ∷ [];
    next_team = suc db.next_team;
  },
)

-- CreateTeam, its error for a violated UNIQUE constraint already named
unfoldable pub create_team : Bytes → Bytes → Store ℕ
create_team name slug = exec (insert_team name slug)

unfoldable pub get_team : ℕ → Store (Option Team)
get_team id = query (λ db. find (λ t. t.id == id) db.teams)

unfoldable pub name_before : Team → Team → Bool
name_before s t = text_lt s.name t.name

unfoldable pub list_teams : Store (List Team)
list_teams = query (λ db. order_by name_before db.teams)

-- The teams of the join with the memberships of the user, whose role is left out.
unfoldable pub list_teams_by_user : ℕ → Store (List Team)
list_teams_by_user user_id =
    query
      (λ db. order_by name_before (select (λ t. any (is_member t.id user_id) db.members) db.teams))

abbrev affected_id : ℕ → Tables → Result Unit × Tables
affected_id n db = if n == 0 then (err not_found, db) else (ok tt, db)

-- Two statements without a transaction.
unfoldable pub delete_team : ℕ → Store Unit
delete_team id = do
  exec (λ db. (ok tt, record db { members = select (λ m. not (m.team_id == id)) db.members }))
  exec (λ db.
      affected_id (length (select (λ t. t.id == id) db.teams))
        (record db { teams = select (λ t. not (t.id == id)) db.teams }))

-- INSERT INTO team_members ... ON CONFLICT(team_id, user_id) DO UPDATE SET role=excluded.role
unfoldable pub upsert_member : ℕ → ℕ → Bytes → List TeamMember → List TeamMember
unfolding is_member
upsert_member team_id user_id role [] =
    record { team_id = team_id; user_id = user_id; role = role } ∷ []
upsert_member team_id user_id role (m ∷ ms) =
    let rest = upsert_member team_id user_id role ms in
    if is_member team_id user_id m then record m { role = role } ∷ ms else m ∷ rest

unfoldable pub known_role : Bytes → Bytes
known_role role =
    if beq role (codes "owner") || (beq role (codes "admin") || beq role (codes "member"))
    then role
    else codes "member"

unfoldable pub add_team_member : ℕ → ℕ → Bytes → Store Unit
add_team_member team_id user_id role = exec (λ db.
    (ok tt, record db { members = upsert_member team_id user_id (known_role role) db.members }))

unfoldable pub remove_team_member : ℕ → ℕ → Store Unit
remove_team_member team_id user_id = exec (λ db.
    (ok tt, record db { members = select (λ m. not (is_member team_id user_id m)) db.members }))

-- The rows of the join with users, ordered by role and user name.
unfoldable pub join_users : List Person → List TeamMember → List (TeamMember × Bytes)
join_users people [] = []
join_users people (m ∷ ms) =
    let rest = join_users people ms in
    elim (find (λ p. p.id == m.user_id) people) [ none ↦ rest | some p ↦ (m, p.username) ∷ rest ]

unfoldable pub member_before : TeamMember × Bytes → TeamMember × Bytes → Bool
member_before (l, a) (m, b) = text_lt l.role m.role || (beq l.role m.role && text_lt a b)

unfoldable pub list_team_members : ℕ → Store (List (TeamMember × Bytes))
list_team_members team_id = query (λ db.
    order_by member_before (join_users db.people (select (λ m. m.team_id == team_id) db.members)))

unfoldable pub count_team_members : ℕ → Store ℕ
count_team_members team_id = query (λ db. length (select (λ m. m.team_id == team_id) db.members))

abbrev pub role_in : ℕ → ℕ → List TeamMember → Option Bytes
role_in team_id user_id ms =
    Option.map (λ (m : TeamMember). m.role) (find (is_member team_id user_id) ms)

abbrev or_none : {A : Type 0} → Result (Option A) → Option A
or_none (ok o) = o
or_none (err e) = none

-- An error is no role.
unfoldable pub get_member_role : ℕ → ℕ → Store (Option Bytes)
get_member_role team_id user_id c =
    let (r, c') = query (λ db. role_in team_id user_id db.members) c in (ok (or_none r), c')

unfoldable pub get_person : Bytes → Store (Option Person)
get_person username = query (λ db. find (λ p. beq p.username (clean_name username)) db.people)

-- invites.go

unfoldable pub invite_role : Bytes → Bytes
invite_role role =
    if beq role (codes "member") || beq role (codes "admin") then role else codes "member"

-- INSERT INTO invites: the token is the primary key
unfoldable pub insert_invite : Invite → Tables → Result Unit × Tables
insert_invite i db =
    if any (λ j. beq j.token i.token) db.invites
    then (err unique, db)
    else (ok tt, record db { invites = db.invites ++ i ∷ [] })

unfoldable pub create_invite : ℕ → Bytes → Bytes → Bytes → Bytes → Store Unit
create_invite team_id role token expires_at email = exec (
    insert_invite (record {
      token = token;
      team_id = team_id;
      role = invite_role role;
      expires_at = expires_at;
      email = email;
    }))

unfoldable pub find_invite : Bytes → List Invite → Option Invite
find_invite token = find (λ i. beq i.token token)

unfoldable pub get_invite : Bytes → Store (Option Invite)
get_invite token = query (λ db. find_invite token db.invites)

unfoldable pub delete_invite : Bytes → Store Unit
delete_invite token =
    exec (λ db. (ok tt, record db { invites = select (λ i. not (beq i.token token)) db.invites }))
