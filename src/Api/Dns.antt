-- ===== src/Api/Dns.antt =====
-- internal/api/dns.go: the handlers of zones, records and settings, after requireAuth. The body of
-- a request is decoded by encoding/json: `none` is an error of it, and of strconv.ParseInt for a
-- number of the path.
pub mod Denied
pub mod LastNs
use lamund.Prelude.{
  ℕ, Bool, true, false, not, ◌&&◌, ◌||◌, Option, none, some, List, [], ◌∷◌, ◌++◌, ◌==◌,
  if◌then◌else◌, Bytes, codes, beq, length, select, any, find, is_empty, trim_suffix,
}
use lamund.Access.Session.{AuthUser}
use lamund.Quota.{is_superadmin}
use lamund.Domain.{validate_domain}
use lamund.Dns.Types.{NameLib, DnsZone, DnsRecord, DnsSettings}
use lamund.Store.Conn.{query, Result, ok, err, StoreError, registered}
use lamund.Store.Tables.{Tables, order_by, domain_before}
use lamund.Store.Zones.{
  Store, clean_name, clean_kind, get_dns_zone, list_dns_zones, list_dns_records, create_dns_zone,
  delete_dns_zone, add_dns_record, update_dns_record, delete_dns_record, get_dns_settings,
  set_dns_settings,
}
use lamund.Store.Lookup.{find_dns_zone_for_domain}
use lamund.Api.Handler.{
  Handler, Response, Body, message, zones_body, zone_body, records_body, settings_body, cover_body,
  go, write_err, attempt, or_status, some_or, ignoring, stop_if, ◌>>=◌, ◌>>◌, reply, reply_reloaded,
}
use lamund.Api.Owner.{can_access_owner, resolve_owner}
use lamund.Api.Records.{validate_dns_record}

-- ownedZone: a zone that the user may not reach is answered as one that is not there.
unfoldable pub owned_zone : AuthUser → Bytes → Handler DnsZone
owned_zone u domain = do
  found ← or_status 500 (get_dns_zone domain)
  zone ← some_or 404 found
  allowed ← can_access_owner u zone.owner_type zone.owner_id
  stop_if (not allowed) 404
  go zone

-- the answer of handleDNSZoneFor
abbrev cover_of : Bool → Option (DnsZone × Bytes) → Body
cover_of true (some (zone, label)) = cover_body true zone.domain label
cover_of true none = cover_body false [] []
cover_of false o = cover_body false [] []

abbrev reaches : AuthUser → Option (DnsZone × Bytes) → Handler Bool
reaches u none = go false
reaches u (some (zone, label)) = can_access_owner u zone.owner_type zone.owner_id

unfoldable pub handle_dns_zone_for : AuthUser → Bytes → Handler Response
handle_dns_zone_for u query0 = do
  let domain = clean_name query0
  stop_if (is_empty domain) 400
  found ← ignoring none (find_dns_zone_for_domain domain)
  managed ← reaches u found
  reply 200 (cover_of managed found)

-- The loop of handleListDNSZones, which counts the records of each zone.
unfoldable pub count_records : List DnsZone → Handler (List (DnsZone × ℕ))
count_records [] = go []
count_records (z ∷ zs) = do
  recs ← ignoring [] (list_dns_records z.id)
  rest ← count_records zs
  go ((z, length recs) ∷ rest)

-- ownerVisibleClause of internal/store/teams.go
unfoldable pub is_visible : ℕ → Tables → DnsZone → Bool
is_visible user_id db z =
    (beq z.owner_type (codes "user") && z.owner_id == user_id)
    || ((beq z.owner_type (codes "team")
          && any
              (λ m.
                (m.team_id == z.owner_id && m.user_id == user_id)
                && (beq m.role (codes "owner") || beq m.role (codes "admin")))
              db.members)
        || (beq z.owner_type (codes "team")
            && (z.user_id == user_id
                && any (λ m. m.team_id == z.owner_id && m.user_id == user_id) db.members)))

unfoldable pub list_dns_zones_visible_to : ℕ → Store (List DnsZone)
list_dns_zones_visible_to user_id =
    query (λ db. order_by domain_before (select (is_visible user_id db) db.zones))

unfoldable pub handle_list_dns_zones : AuthUser → Handler Response
handle_list_dns_zones u = do
  zones ←
      or_status 500
        (if is_superadmin u.role then list_dns_zones else list_dns_zones_visible_to u.id)
  counted ← count_records zones
  reply 200 (zones_body counted)

pub record CreateZoneReq : Type 0 where
  pub domain : Bytes
  pub owner_type : Bytes
  pub owner_id : ℕ

abbrev new_zone : AuthUser → Bytes → Bytes × ℕ → DnsZone
new_zone u domain (owner_type, owner_id) = record {
  id = 0;
  domain = domain;
  owner_type = owner_type;
  owner_id = owner_id;
  user_id = u.id;
  serial = 0;
  refresh = 0;
  retry = 0;
  expire = 0;
  minimum = 0;
}

-- "terdaftar" in the message
abbrev create_failed : StoreError → ℕ
create_failed registered = 409
create_failed e = 500

abbrev created_id : Result ℕ → Handler ℕ
created_id (ok id) = go id
created_id (err e) = write_err (create_failed e)

abbrev is_error : {A : Type 0} → Option A → Bool
is_error none = false
is_error (some e) = true

unfoldable pub handle_create_dns_zone : AuthUser → Option CreateZoneReq → Handler Response
handle_create_dns_zone u body = do
  req ← some_or 400 body
  let domain = clean_name req.domain
  stop_if (is_error (validate_domain domain)) 400
  owner ← resolve_owner u req.owner_type req.owner_id
  to ← some_or 403 owner
  made ← attempt (create_dns_zone (new_zone u domain to))
  id ← created_id made
  zone ← ignoring none (get_dns_zone domain)
  recs ← ignoring [] (list_dns_records id)
  reply_reloaded 201 (zone_body zone recs [])

abbrev name_servers : DnsSettings → List Bytes
name_servers s =
    (if is_empty s.ns1 then [] else s.ns1 ∷ []) ++ (if is_empty s.ns2 then [] else s.ns2 ∷ [])

unfoldable pub handle_get_dns_zone : AuthUser → Bytes → Handler Response
handle_get_dns_zone u domain = do
  zone ← owned_zone u domain
  recs ← or_status 500 (list_dns_records zone.id)
  settings ← or_status 500 get_dns_settings
  reply 200 (zone_body (some zone) recs (name_servers settings))

unfoldable pub handle_delete_dns_zone : AuthUser → Bytes → Handler Response
handle_delete_dns_zone u domain = do
  zone ← owned_zone u domain
  or_status 500 (delete_dns_zone zone.domain)
  reply_reloaded 200 message

unfoldable pub handle_list_dns_records : AuthUser → Bytes → Handler Response
handle_list_dns_records u domain = do
  zone ← owned_zone u domain
  recs ← or_status 500 (list_dns_records zone.id)
  reply 200 (records_body recs)

pub record AddRecordReq : Type 0 where
  pub name : Bytes
  pub kind : Bytes
  pub value : Bytes
  pub ttl : ℕ
  pub priority : ℕ

-- The request made canonical, as a record of the zone.
unfoldable pub requested_record : DnsZone → AddRecordReq → DnsRecord
requested_record zone req = record {
  id = 0;
  zone_id = zone.id;
  name = clean_name req.name;
  kind = clean_kind req.kind;
  value = req.value;
  ttl = if req.ttl == 0 then 3600 else req.ttl;
  priority = req.priority;
}

pub record PatchRecordReq : Type 0 where
  pub value : Bytes
  pub ttl : ℕ
  pub priority : ℕ

-- An NS record of the apex.
unfoldable pub is_apex_ns : DnsRecord → Bool
is_apex_ns r = beq r.kind (codes "NS") && beq r.name (codes "@")

abbrev pub last_of : ℕ → List DnsRecord → Option DnsRecord → Bool
last_of id recs none = false
last_of id recs (some target) =
    is_apex_ns target && length (select (λ r. is_apex_ns r && not (r.id == id)) recs) == 0

-- Deleting the record would leave the zone without a name server.
unfoldable pub is_last_ns : ℕ → List DnsRecord → Bool
is_last_ns id recs = last_of id recs (find (λ r. r.id == id) recs)

module _ (lib : NameLib) where
  abbrev is_refused : DnsRecord → Bool
  is_refused r = is_error (validate_dns_record lib r.kind r.name r.value r.priority)

  unfoldable pub handle_add_dns_record : AuthUser → Bytes → Option AddRecordReq → Handler Response
  handle_add_dns_record u domain body = do
    zone ← owned_zone u domain
    req ← some_or 400 body
    stop_if (is_refused (requested_record zone req)) 400
    or_status 500 (add_dns_record (requested_record zone req))
    recs ← ignoring [] (list_dns_records zone.id)
    reply_reloaded 201 (records_body recs)

  unfoldable pub handle_patch_dns_record :
      AuthUser → Bytes → Option ℕ → Option PatchRecordReq → Handler Response
  handle_patch_dns_record u domain path_id body = do
    zone ← owned_zone u domain
    id ← some_or 400 path_id
    req ← some_or 400 body
    recs ← or_status 500 (list_dns_records zone.id)
    existing ← some_or 404 (find (λ r. r.id == id) recs)
    stop_if (is_refused (record existing { value = req.value; priority = req.priority })) 400
    or_status 500 (update_dns_record zone.id id req.value req.ttl req.priority)
    after ← ignoring [] (list_dns_records zone.id)
    reply_reloaded 200 (records_body after)

unfoldable pub handle_delete_dns_record : AuthUser → Bytes → Option ℕ → Handler Response
handle_delete_dns_record u domain path_id = do
  zone ← owned_zone u domain
  id ← some_or 400 path_id
  recs ← or_status 500 (list_dns_records zone.id)
  stop_if (is_last_ns id recs) 400
  or_status 500 (delete_dns_record zone.id id)
  reply_reloaded 200 message

unfoldable pub handle_get_dns_settings : AuthUser → Handler Response
handle_get_dns_settings u = do
  stop_if (not (is_superadmin u.role)) 403
  settings ← or_status 500 get_dns_settings
  reply 200 (settings_body settings)

-- a host name, with a dot behind it or not, or nothing
unfoldable pub is_setting : Bytes → Bool
is_setting s = is_empty s || not (is_error (validate_domain (trim_suffix s (b'.' ∷ []))))

unfoldable pub handle_put_dns_settings : AuthUser → Option DnsSettings → Handler Response
handle_put_dns_settings u body = do
  stop_if (not (is_superadmin u.role)) 403
  req ← some_or 400 body
  stop_if (not (is_setting req.ns1)) 400
  stop_if (not (is_setting req.ns2)) 400
  stop_if (not (is_setting req.hostmaster)) 400
  or_status 500 (set_dns_settings req)
  reply_reloaded 200 (settings_body req)
