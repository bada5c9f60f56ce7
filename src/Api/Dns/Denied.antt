-- ===== src/Api/Dns/Denied.antt =====
-- A user who may not reach a zone learns nothing of it and changes nothing.
use lamund.Store.Zones.{clean_name, get_dns_zone}
use lamund.Store.Rows.{zone_of}
use lamund.Api.Dns.{
  owned_zone, handle_delete_dns_record, handle_patch_dns_record, handle_add_dns_record,
  handle_list_dns_records, PatchRecordReq, handle_delete_dns_zone, AddRecordReq,
  handle_get_dns_zone,
}
use lamund.Prelude.{
  ℕ, suc, ◌≡◌, refl, ◌⊎◌, inl, inr, Bool, true, false, Option, none, some, ◌==◌, if◌then◌else◌,
  Bool-cases, Option-cases, Bytes, codes, beq,
}
use lamund.Access.Session.{AuthUser}
use lamund.Quota.{is_superadmin}
use lamund.Dns.Types.{NameLib, DnsZone}
use lamund.Store.Conn.{Conn, query}
use lamund.Store.Tables.{Tables}
use lamund.Store.Teams.{get_member_role, role_in}
use lamund.Api.Handler.{◌>>=◌, handled, Handler, Response, Step, done, next, plain_response}
use lamund.Api.Owner.{is_some, can_access_owner}

-- The requests on a zone that stands in the path.
pub data ZoneRequest : Type 0 where
  get_zone delete_zone list_records : ZoneRequest
  add_record : Option AddRecordReq → ZoneRequest
  patch_record : Option ℕ → Option PatchRecordReq → ZoneRequest
  delete_record : Option ℕ → ZoneRequest

unfoldable pub serve_zone : NameLib → AuthUser → Bytes → ZoneRequest → Handler Response
serve_zone lib u domain get_zone = handle_get_dns_zone u domain
serve_zone lib u domain delete_zone = handle_delete_dns_zone u domain
serve_zone lib u domain list_records = handle_list_dns_records u domain
serve_zone lib u domain (add_record body) = handle_add_dns_record lib u domain body
serve_zone lib u domain (patch_record id body) = handle_patch_dns_record lib u domain id body
serve_zone lib u domain (delete_record id) = handle_delete_dns_record u domain id

-- What canAccessOwner tests, on the tables.
abbrev pub reaches_owner : AuthUser → Tables → Bytes → ℕ → Bool
reaches_owner u db owner_type owner_id =
    if is_superadmin u.role
    then true
    else if beq owner_type (codes "team")
    then is_some (role_in owner_id u.id db.members)
    else owner_id == u.id

abbrev reaches_zone : AuthUser → Tables → Option DnsZone → Bool
reaches_zone u db none = false
reaches_zone u db (some z) = reaches_owner u db z.owner_type z.owner_id

-- The handler has ended with the status and the tables as they were.
abbrev pub Turned : {A : Type 0} → Conn Tables → Step A × Conn Tables → Type 0
Turned c (s, c') =
    ((s ≡ done (plain_response 404))
      ⊎ ((s ≡ done (plain_response 500)) × (c.faults c.clock ≡ true)))
    × (c'.db ≡ c.db)

can_access_owner-refused :
    (u : AuthUser) (owner_type : Bytes) (owner_id : ℕ) (c : Conn Tables)
    → reaches_owner u c.db owner_type owner_id ≡ false
    → ((can_access_owner u owner_type owner_id c).0 ≡ next false)
      × ((can_access_owner u owner_type owner_id c).1.db ≡ c.db)
unfolding can_access_owner get_member_role query
can_access_owner-refused u owner_type owner_id c h = elim (Bool-cases (is_superadmin u.role)) [
  | inl s ↦ cc (rw s at h)
  | inr s ↦ elim (Bool-cases (beq owner_type (codes "team"))) [
    | inl t ↦ elim (Bool-cases (c.faults c.clock)) [
      | inl f ↦ rw (s, t, f) (refl, refl)
      | inr f ↦ rw (s, t, f, (rw (s, t) at h)) (refl, refl)
    ]
    | inr t ↦ rw (s, t, (rw (s, t) at h)) (refl, refl)
  ]
]

owned_zone-Turned :
    (u : AuthUser) (domain : Bytes) (c : Conn Tables)
    → reaches_zone u c.db (zone_of (clean_name domain) c.db.zones) ≡ false
    → Turned c (owned_zone u domain c)
unfolding owned_zone get_dns_zone query
owned_zone-Turned u domain c h = elim (Bool-cases (c.faults c.clock)) [
  | inl f ↦ rw f (inr (refl, refl), refl)
  | inr f ↦ elim (Option-cases (zone_of (clean_name domain) c.db.zones)) [
    | inl e ↦ rw (f, e) (inl refl, refl)
    | inr (z, e) ↦
        let (out, kept) =
          can_access_owner-refused u z.owner_type z.owner_id (record c { clock = suc c.clock })
            (rw e at h) in
        rw (f, e, out) (inl refl, kept)
  ]
]

-- A handler that starts with ownedZone ends with it.
Turned-bind :
    {A : Type 0} (m : Handler A) (f : A → Handler Response) (c : Conn Tables)
    → Turned c (m c)
    → let (r, c') = handled (m >>= f) c in
      ((r ≡ plain_response 404) ⊎ ((r ≡ plain_response 500) × (c.faults c.clock ≡ true)))
      × (c'.db ≡ c.db)
Turned-bind m f c (inl e, k) = rw e (inl refl, k)
Turned-bind m f c (inr (e, fault), k) = rw e (inr (refl, fault), k)

-- On a zone that is not there or that the user may not reach, every request changes nothing and is
-- answered the same: with the bare status 404, or with 500 if the engine refuses the first query.
pub serve_zone-refused :
    (lib : NameLib) (u : AuthUser) (domain : Bytes) (req : ZoneRequest) (c : Conn Tables)
    → reaches_zone u c.db (zone_of (clean_name domain) c.db.zones) ≡ false
    → let (r, c') = handled (serve_zone lib u domain req) c in
      ((r ≡ plain_response 404) ⊎ ((r ≡ plain_response 500) × (c.faults c.clock ≡ true)))
      × (c'.db ≡ c.db)
unfolding serve_zone handle_get_dns_zone handle_delete_dns_zone handle_list_dns_records
    handle_add_dns_record handle_patch_dns_record handle_delete_dns_record
serve_zone-refused lib u domain get_zone c h =
    Turned-bind (owned_zone u domain) _ c (owned_zone-Turned u domain c h)
serve_zone-refused lib u domain delete_zone c h =
    Turned-bind (owned_zone u domain) _ c (owned_zone-Turned u domain c h)
serve_zone-refused lib u domain list_records c h =
    Turned-bind (owned_zone u domain) _ c (owned_zone-Turned u domain c h)
serve_zone-refused lib u domain (add_record body) c h =
    Turned-bind (owned_zone u domain) _ c (owned_zone-Turned u domain c h)
serve_zone-refused lib u domain (patch_record id body) c h =
    Turned-bind (owned_zone u domain) _ c (owned_zone-Turned u domain c h)
serve_zone-refused lib u domain (delete_record id) c h =
    Turned-bind (owned_zone u domain) _ c (owned_zone-Turned u domain c h)
