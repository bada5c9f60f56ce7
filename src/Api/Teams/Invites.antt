-- ===== src/Api/Teams/Invites.antt =====
-- Accepting an invitation.
use lamund.Api.Teams.{granted, handle_accept_invite, is_for_other}
use lamund.Prelude.{
  ℕ, ◌≡◌, refl, ◌≢◌, ◌↔◌, ◌⊎◌, inl, inr, Bool, true, false, not, ◌&&◌, none, some, [], ◌∷◌, arith,
  ◌==◌, if◌then◌else◌, Bool-cases, Option-cases, Bytes, codes, beq_iff, lower, is_empty,
}
use lamund.Access.Session.{AuthUser}
use lamund.Store.Conn.{Conn, query, exec}
use lamund.Store.Tables.{Tables, Invite}
use lamund.Store.Teams.{
  known_role, role_in, find_invite, get_invite, delete_invite, add_team_member,
}
use lamund.Store.Teams.Members.{
  role_in-upsert_member, role_in-upsert_self, role_in-upsert_member, find_invite-deleted,
}
use lamund.Api.Handler.{handled}

-- An invitation to be an administrator makes one; any other makes a member.
abbrev IsRoleOf : Bytes → Bytes → Type 0
IsRoleOf invited role =
    ((invited ≡ codes "admin") × (role ≡ codes "admin"))
    ⊎ ((invited ≢ codes "admin") × (role ≡ codes "member"))

-- The user has joined by an invitation that was theirs to take, and it is gone.
abbrev pub Joined : (Bytes → Bool) → AuthUser → Bytes → Tables → Tables → Type 0
Joined expired u token db db' =
    (inv : Invite) × (role : Bytes) × (find_invite token db.invites ≡ some inv)
    × ((inv.expires_at ≡ []) ⊎ (expired inv.expires_at ≡ false))
    × ((inv.email ≡ []) ⊎ (lower u.email ≡ lower inv.email))
    × IsRoleOf inv.role role
    × (role_in inv.team_id u.id db'.members ≡ some role)
    × ((t v : ℕ)
        → role_in t v db'.members
          ≡ (if t == inv.team_id && v == u.id then some role else role_in t v db.members))
    × (find_invite token db'.invites ≡ none)

-- There is no such invitation, or it has run out, or it is for another address.
abbrev pub IsRefused : (Bytes → Bool) → AuthUser → Bytes → Tables → Type 0
IsRefused expired u token db =
    (find_invite token db.invites ≡ none)
    ⊎ ((inv : Invite) × (find_invite token db.invites ≡ some inv)
        × (((inv.expires_at ≢ []) × (expired inv.expires_at ≡ true))
            ⊎ ((inv.email ≢ []) × (lower u.email ≢ lower inv.email))))

role_of : (invited : Bytes) → IsRoleOf invited (known_role (granted (λ _. false) invited))
unfolding known_role
role_of invited = ground (
  arith,
  beq_iff invited (codes "admin"),
  beq_iff invited (codes "member"),
  beq_iff invited (codes "owner"),
)

empty_iff : (s : Bytes) → (is_empty s ≡ true) ↔ (s ≡ [])
empty_iff [] = ((λ _. refl), (λ _. refl))
empty_iff (c ∷ s) = ((λ e. cc (e)), (λ e. cc (e)))

module _ (expired : Bytes → Bool) (u : AuthUser) where
  in_time : (s : Bytes) → (not (is_empty s) && expired s) ≡ false → (s ≡ []) ⊎ (expired s ≡ false)
  in_time s h = ground (arith, empty_iff s)

  out_of_time : (s : Bytes) → (not (is_empty s) && expired s) ≡ true → (s ≢ []) × (expired s ≡ true)
  out_of_time s h = ground (arith, empty_iff s)

  own_address :
      (inv : Invite)
      → is_for_other expired u inv ≡ false
      → (inv.email ≡ []) ⊎ (lower u.email ≡ lower inv.email)
  own_address inv h = ground (arith, empty_iff inv.email, beq_iff (lower u.email) (lower inv.email))

  other_address :
      (inv : Invite)
      → is_for_other expired u inv ≡ true
      → (inv.email ≢ []) × (lower u.email ≢ lower inv.email)
  other_address inv h =
      ground (arith, empty_iff inv.email, beq_iff (lower u.email) (lower inv.email))

module _ (expired : Bytes → Bool) (u : AuthUser) (token : Bytes) (c : Conn Tables) where
  -- With an engine that refuses no statement: a response 200 means that the invitation was in the
  -- table, had not run out and was for no other address, that the user is an administrator of its
  -- team now if it invites one, and else a member, that no other role has changed, and that the
  -- token names no invitation any more. With any other status the members are as they were, and
  -- the invitation was missing, had run out or was for another address.
  pub handle_accept_invite-Joined :
      c.faults ≡ (λ n. false)
      → let (r, c') = handled (handle_accept_invite expired u token) c in
        ((r.status ≡ 200) × Joined expired u token c.db c'.db)
        ⊎ ((r.status ≢ 200) × (c'.db.members ≡ c.db.members) × IsRefused expired u token c.db)
  unfolding handle_accept_invite get_invite delete_invite add_team_member query exec
  handle_accept_invite-Joined quiet = elim (Option-cases (find_invite token c.db.invites)) [
    | inl absent ↦ rw (quiet, absent) (inr (λ d. omega (arith, d), refl, inl refl))
    | inr (inv, present) ↦
        elim (Bool-cases (not (is_empty inv.expires_at) && expired inv.expires_at)) [
          | inl late ↦
              rw (quiet, present, late)
                (inr (
                  λ d. omega (arith, d),
                  refl,
                  inr (inv, refl, inl (out_of_time expired u inv.expires_at late)),
                ))
          | inr early ↦ elim (Bool-cases (is_for_other expired u inv)) [
            | inl other ↦
                rw (quiet, present, early, other)
                  (inr (
                    λ d. omega (arith, d),
                    refl,
                    inr (inv, refl, inr (other_address expired u inv other)),
                  ))
            | inr own ↦
                rw (quiet, present, early, own)
                  (inl (
                    refl,
                    (
                      inv,
                      known_role (granted expired inv.role),
                      refl,
                      in_time expired u inv.expires_at early,
                      own_address expired u inv own,
                      role_of inv.role,
                      role_in-upsert_self inv.team_id u.id (known_role (granted expired inv.role))
                          c.db.members,
                      λ t v.
                          role_in-upsert_member t v inv.team_id u.id
                            (known_role (granted expired inv.role)) c.db.members,
                      find_invite-deleted token c.db.invites,
                    ),
                  ))
          ]
        ]
  ]
