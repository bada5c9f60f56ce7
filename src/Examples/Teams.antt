-- ===== src/Examples/Teams.antt =====
-- Requests on the team.
use lamund.Store.Zones.{clean_name}
use lamund.Store.Teams.{
  delete_invite, find_invite, get_invite, known_role, upsert_member, add_team_member, get_person,
  is_member, get_member_role,
}
use lamund.Api.Owner.{can_manage_team}
use lamund.Store.Tables.{Tables}
use lamund.Prelude.{
  ◌≡◌, refl, ◌≢◌, ◌⊎◌, Bool, true, false, some, ◌==◌, Bytes, codes, beq, lower, trim_space,
}
use lamund.Store.Conn.{exec, query, Conn}
use lamund.Api.Handler.{handled}
use lamund.Api.Teams.{
  is_escalation, AddMemberReq, handle_add_member, handle_remove_member, handle_accept_invite,
}
use lamund.Api.Teams.Owners.{is_owner, handle_add_member-is_owner}
use lamund.Api.Teams.LastOwner.{has_owner, handle_remove_member-has_owner}
use lamund.Api.Teams.Invites.{Joined, IsRefused, handle_accept_invite-Joined}
use lamund.Examples.Tables.{rows, quiet, third_fails, user}

abbrev demotion : AddMemberReq
demotion = record { username = codes "budi"; role = codes "member" }

-- The only owner makes himself a member: the team has no owner any more.
last_owner_leaves :
    has_owner 5 (handled (handle_add_member (user 7) (some 5) (some demotion)) quiet).1.db.members
    ≡ false
unfolding handle_add_member can_manage_team beq get_member_role query is_member get_person
    clean_name lower trim_space is_escalation add_team_member exec upsert_member known_role
last_owner_leaves = refl

-- An administrator demotes the owner when the query of the owner's role is refused.
abbrev fourth_fails : Conn Tables
fourth_fails = record quiet { faults = λ n. n == 3 }

owner_is_demoted :
    is_owner 5 7
      (handled (handle_add_member (user 8) (some 5) (some demotion)) fourth_fails).1.db.members
    ≡ false
unfolding handle_add_member can_manage_team beq get_member_role query is_member get_person
    clean_name lower trim_space is_escalation add_team_member exec upsert_member known_role
owner_is_demoted = refl

handle_add_member-is_owner_example :
    is_owner 5 7 (handled (handle_add_member (user 8) (some 5) (some demotion)) quiet).1.db.members
    ≡ is_owner 5 7 rows.members
unfolding is_member
handle_add_member-is_owner_example =
    handle_add_member-is_owner (user 8) (some 5) (some demotion) quiet 5 7 refl (unfold beq in refl)
      (unfold beq in refl)

handle_remove_member-has_owner_example :
    has_owner 5 (handled (handle_remove_member (user 7) (some 5) (some 7)) third_fails).1.db.members
    ≡ true
unfolding is_member
handle_remove_member-has_owner_example =
    handle_remove_member-has_owner (user 7) (some 5) (some 7) third_fails 5 ((refl, tt), (tt, tt))
      (unfold beq in refl)

abbrev past : Bytes → Bool
past t = false

handle_accept_invite-Joined_example :
    let (r, c') = handled (handle_accept_invite past (user 9) (codes "t1")) quiet in
    ((r.status ≡ 200) × Joined past (user 9) (codes "t1") rows c'.db)
    ⊎ ((r.status ≢ 200)
        × (c'.db.members ≡ rows.members)
        × IsRefused past (user 9) (codes "t1") rows)
handle_accept_invite-Joined_example =
    handle_accept_invite-Joined past (user 9) (codes "t1") quiet refl

joined_twice :
    (handled
      (handle_accept_invite past (user 9) (codes "t1"))
      (handled (handle_accept_invite past (user 9) (codes "t1")) quiet).1).0.status
    ≡ 404
unfolding handle_accept_invite get_invite query find_invite beq lower add_team_member exec
    delete_invite
joined_twice = refl
