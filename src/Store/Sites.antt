-- ===== src/Store/Sites.antt =====
-- internal/store/store.go and site_domains.go: sites, their aliases, and the history of their
-- deployments. A violated UNIQUE constraint has its name, `registered`, already.
pub mod Disjoint
pub mod Runs
use lamund.Quota.{int_lt}
use lamund.Prelude.{
  ℕ, suc, Bool, true, false, not, ◌&&◌, ◌||◌, Option, none, some, List, [], ◌∷◌, ◌++◌, map, ltb,
  ◌==◌, if◌then◌else◌, Bytes, codes, beq, length, take, select, any, find, lower, is_empty,
  trim_space,
}
use lamund.Domain.{validate_domain}
use lamund.Store.Conn.{
  Result, ok, err, begin, commit, exec, query, raise, or_rollback, registered, not_found, ◌>>=◌,
  ◌>>◌,
}
use lamund.Store.Tables.{Tables, Site, SiteDomain, Deploy, order_by}
use lamund.Store.Zones.{Store, checked, some_row}
use lamund.Search.{text_lt}

-- The status and the owner of a new site, where they are not set.
unfoldable pub with_owner : Site → Site
with_owner s = record s {
  status = if is_empty s.status then codes "active" else s.status;
  owner_type = if is_empty s.owner_type then codes "user" else s.owner_type;
  owner_id = if is_empty s.owner_type then s.user_id else s.owner_id;
}

-- SELECT 1 FROM site_domains WHERE domain=?
unfoldable pub is_alias : Bytes → Tables → Bool
is_alias domain db = any (λ a. beq a.domain domain) db.site_domains

unfoldable pub is_primary : Bytes → Tables → Bool
is_primary domain db = any (λ s. beq s.domain domain) db.sites

-- INSERT INTO sites: the domain is UNIQUE
unfoldable pub insert_site : Site → Tables → Result ℕ × Tables
unfolding is_primary
insert_site s db = if is_primary s.domain db then (err registered, db) else (
  ok db.next_site,
  record db {
    sites = db.sites ++ record s { id = db.next_site } ∷ [];
    next_site = suc db.next_site;
  },
)

unfoldable pub create_site : Site → Store ℕ
create_site s = do
  checked (validate_domain s.domain)
  taken ← query (is_alias s.domain)
  if taken then raise registered else exec (insert_site (with_owner s))

unfoldable pub get_site_by_domain : Bytes → Store (Option Site)
get_site_by_domain domain = query (λ db. find (λ s. beq s.domain domain) db.sites)

unfoldable pub site_before : Site → Site → Bool
site_before s t = text_lt s.domain t.domain

unfoldable pub list_sites : Store (List Site)
list_sites = query (λ db. order_by site_before db.sites)

abbrev site_id_is : Option Site → SiteDomain → Bool
site_id_is none a = false
site_id_is (some s) a = a.site_id == s.id

-- DELETE FROM site_domains WHERE site_id = (SELECT id FROM sites WHERE domain = ?)
unfoldable pub delete_aliases_of : Bytes → Tables → Result Unit × Tables
delete_aliases_of domain db = (
  ok tt,
  record db {
    site_domains =
        select (λ a. not (site_id_is (find (λ s. beq s.domain domain) db.sites) a)) db.site_domains;
  },
)

-- DELETE FROM sites WHERE domain = ?
unfoldable pub delete_site_row : Bytes → Tables → Result ℕ × Tables
delete_site_row domain db = (
  ok (length (select (λ s. beq s.domain domain) db.sites)),
  record db { sites = select (λ s. not (beq s.domain domain)) db.sites },
)

unfoldable pub delete_site : Bytes → Store Unit
delete_site domain = do
  begin
  or_rollback (exec (delete_aliases_of domain))
  or_rollback (exec (λ db. some_row (delete_site_row domain db)))
  commit

-- UPDATE sites SET ... WHERE domain=?, by what is set; `affected` wants a row.
pub data SiteChange : Type 0 where
  set_config set_proxy set_static set_status set_root : Bytes → SiteChange
  set_git : Bytes → Bytes → Bytes → Bytes → SiteChange
  set_owner : Bytes → ℕ → SiteChange

unfoldable pub changed_by : SiteChange → Site → Site
changed_by (set_config config) s = record s { config = config }
changed_by (set_proxy target) s = record s {
  kind = codes "proxy";
  proxy_target = target;
  root_path = [];
}
changed_by (set_static root) s = record s {
  kind = codes "static";
  root_path = root;
  proxy_target = [];
}
changed_by (set_status status) s = record s { status = status }
changed_by (set_root root) s = record s { root_path = root }
changed_by (set_git repo_url branch build_cmd output_dir) s = record s {
  repo_url = repo_url;
  branch = branch;
  build_cmd = build_cmd;
  output_dir = output_dir;
}
changed_by (set_owner owner_type owner_id) s = record s {
  owner_type = owner_type;
  owner_id = owner_id;
}

abbrev pub at_domain : Bytes → SiteChange → Site → Site
at_domain domain change s = if beq s.domain domain then changed_by change s else s

unfoldable pub update_site : Bytes → SiteChange → Store Unit
update_site domain change = exec (λ db.
    if length (select (λ s. beq s.domain domain) db.sites) == 0
    then (err not_found, db)
    else (ok tt, record db { sites = map (at_domain domain change) db.sites }))

-- INSERT INTO site_domains: the domain is UNIQUE
unfoldable pub insert_alias : ℕ → Bytes → Tables → Result Unit × Tables
unfolding is_alias
insert_alias site_id domain db = if is_alias domain db then (err registered, db) else (
  ok tt,
  record db {
    site_domains = db.site_domains ++ record { site_id = site_id; domain = domain } ∷ [];
  },
)

unfoldable pub clean_domain : Bytes → Bytes
clean_domain domain = trim_space (lower domain)

-- SELECT 1 FROM sites WHERE domain=? UNION SELECT 1 FROM site_domains WHERE domain=?
abbrev is_taken : Bytes → Tables → Bool
is_taken domain db = is_primary domain db || is_alias domain db

unfoldable pub add_site_domain : ℕ → Bytes → Store Unit
add_site_domain site_id domain = do
  checked (validate_domain (clean_domain domain))
  taken ← query (is_taken (clean_domain domain))
  if taken then raise registered else exec (insert_alias site_id (clean_domain domain))

unfoldable pub domains_of : ℕ → Tables → List Bytes
domains_of site_id db =
    map (λ a. a.domain)
      (order_by (λ a b. text_lt a.domain b.domain)
        (select (λ a. a.site_id == site_id) db.site_domains))

unfoldable pub list_site_domains : ℕ → Store (List Bytes)
list_site_domains site_id = query (domains_of site_id)

-- AllSiteDomains: the result is a map from a site to its aliases.
unfoldable pub all_site_domains : Store (ℕ → List Bytes)
all_site_domains = query (λ db site_id. domains_of site_id db)

unfoldable pub delete_site_domain : ℕ → Bytes → Store Unit
delete_site_domain site_id domain = exec (λ db. (
  ok tt,
  record db {
    site_domains =
        select (λ a. not (a.site_id == site_id && beq a.domain (clean_domain domain)))
          db.site_domains;
  },
))

unfoldable pub create_deploy : Bytes → Bytes → Store ℕ
create_deploy domain trigger = exec (λ db. (
  ok db.next_deploy,
  record db {
    deploys =
        db.deploys
        ++ record {
          id = db.next_deploy;
          domain = domain;
          status = codes "building";
          trigger = trigger;
          commit = [];
          message = [];
          is_open = true;
        }
          ∷ [];
    next_deploy = suc db.next_deploy;
  },
))

abbrev finished : ℕ → Bytes → Bytes → Bytes → Deploy → Deploy
finished id status commit message d =
    if d.id == id
    then record d { status = status; commit = commit; message = message; is_open = false }
    else d

unfoldable pub finish_deploy : ℕ → Bytes → Bytes → Bytes → Store Unit
finish_deploy id status commit message =
    exec (λ db. (ok tt, record db { deploys = map (finished id status commit message) db.deploys }))

-- The newest first; a limit of 0 or less is 20.
unfoldable pub list_deploys : Bytes → ℕ → Store (List Deploy)
list_deploys domain limit = query (λ db.
    take (if int_lt 0 limit then limit else 20)
      (order_by (λ d e. ltb e.id d.id) (select (λ d. beq d.domain domain) db.deploys)))
