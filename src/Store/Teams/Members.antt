-- ===== src/Store/Teams/Members.antt =====
-- The roles of a team after a change of its members.
use lamund.Store.Teams.{role_in, is_member, find_invite, upsert_member}
use lamund.Prelude.{
  ℕ, ◌≡◌, refl, inl, inr, not, ◌&&◌, none, some, List, [], ◌∷◌, arith, ◌==◌, if◌then◌else◌,
  Bool-cases, Bytes, beq, select,
}
use lamund.Store.Tables.{TeamMember, Invite}

pub role_in-upsert_member :
    (t v team_id user_id : ℕ) (role : Bytes) (ms : List TeamMember)
    → role_in t v (upsert_member team_id user_id role ms)
      ≡ (if t == team_id && v == user_id then some role else role_in t v ms)
unfolding upsert_member is_member
role_in-upsert_member t v team_id user_id role [] = ground arith
role_in-upsert_member t v team_id user_id role (m ∷ ms) =
    ground (arith, role_in-upsert_member t v team_id user_id role ms)

pub find_invite-deleted :
    (token : Bytes) (is : List Invite)
    → find_invite token (select (λ i. not (beq i.token token)) is) ≡ none
unfolding find_invite
find_invite-deleted token [] = refl
find_invite-deleted token (i ∷ is) = elim (Bool-cases (beq i.token token)) [
  | inl e ↦ rw e (find_invite-deleted token is)
  | inr e ↦ rw (e, e) (find_invite-deleted token is)
]

pub role_in-upsert_self :
    (team_id user_id : ℕ) (role : Bytes) (ms : List TeamMember)
    → role_in team_id user_id (upsert_member team_id user_id role ms) ≡ some role
role_in-upsert_self team_id user_id role ms =
    ground (arith, role_in-upsert_member team_id user_id team_id user_id role ms)
