-- ===== src/Store/Sites/Disjoint.antt =====
-- No name belongs to two sites, be it as their domain or as an alias.
use lamund.Store.Sites.{
  set_owner, set_git, set_root, set_status, set_static, is_primary, set_proxy, at_domain, is_alias,
  set_config, insert_alias, changed_by, insert_site, delete_site_row, SiteChange,
}
use lamund.Prelude.{
  ℕ, ◌≡◌, refl, sym, ◌≢◌, inl, inr, Bool, false, List, [], ◌∷◌, ◌++◌, map, Bool-cases, Apart,
  Apart-snoc, Apart-select, All-mono, map-All, Apart-map, any-All, All-both, Bytes, beq, beq_refl,
  select, any, All, All-append, All-select,
}
use lamund.Store.Tables.{Tables, Site, SiteDomain}

abbrev OtherSite : Site → Site → Type 0
OtherSite s t = s.domain ≢ t.domain

abbrev OtherAlias : SiteDomain → SiteDomain → Type 0
OtherAlias a b = a.domain ≢ b.domain

-- No alias has the domain of the site.
abbrev IsClear : List SiteDomain → Site → Type 0
IsClear aliases s = All (λ (a : SiteDomain). a.domain ≢ s.domain) aliases

abbrev pub IsDisjoint : Tables → Type 0
IsDisjoint db =
    Apart OtherSite db.sites
    × Apart OtherAlias db.site_domains
    × All (IsClear db.site_domains) db.sites

differ : (a b : Bytes) → beq a b ≡ false → a ≢ b
differ a b h e = cc (rw (e, beq_refl b) at h)

pub insert_site-IsDisjoint :
    (s : Site) (db : Tables)
    → is_alias s.domain db ≡ false
    → IsDisjoint db
    → IsDisjoint (insert_site s db).1
unfolding insert_site is_alias is_primary
insert_site-IsDisjoint s db free (sites, aliases, clear) =
    elim (Bool-cases (any (λ t. beq t.domain s.domain) db.sites)) [
      | inl e ↦ rw e (sites, aliases, clear)
      | inr e ↦
          let new = record s { id = db.next_site } in
          let others = any-All (λ (t : Site). beq t.domain s.domain) db.sites e in
          let no_alias = any-All (λ (a : SiteDomain). beq a.domain s.domain) db.site_domains free in
          rw e (
            Apart-snoc OtherSite db.sites new sites (
                All-mono (λ t. beq t.domain s.domain ≡ false) (λ t. OtherSite t new) db.sites
                  (λ t. differ t.domain s.domain) others),
            aliases,
            All-append (IsClear db.site_domains) db.sites (new ∷ []) clear (
              All-mono (λ a. beq a.domain s.domain ≡ false) (λ a. a.domain ≢ s.domain)
                  db.site_domains (λ a. differ a.domain s.domain) no_alias,
              tt,
            ),
          )
    ]

pub insert_alias-IsDisjoint :
    (site_id : ℕ) (domain : Bytes) (db : Tables)
    → is_primary domain db ≡ false
    → IsDisjoint db
    → IsDisjoint (insert_alias site_id domain db).1
unfolding insert_alias is_alias is_primary
insert_alias-IsDisjoint site_id domain db free (sites, aliases, clear) =
    elim (Bool-cases (any (λ a. beq a.domain domain) db.site_domains)) [
      | inl e ↦ rw e (sites, aliases, clear)
      | inr e ↦
          let new : SiteDomain = record { site_id = site_id; domain = domain } in
          let others = any-All (λ (a : SiteDomain). beq a.domain domain) db.site_domains e in
          let no_site = any-All (λ (s : Site). beq s.domain domain) db.sites free in
          rw e (
            sites,
            Apart-snoc OtherAlias db.site_domains new aliases (
                All-mono (λ a. beq a.domain domain ≡ false) (λ a. OtherAlias a new) db.site_domains
                  (λ a. differ a.domain domain) others),
            All-both (IsClear db.site_domains) (λ s. beq s.domain domain ≡ false)
                (IsClear (db.site_domains ++ new ∷ [])) db.sites
                (λ s h k.
                  All-append (λ a. a.domain ≢ s.domain) db.site_domains (new ∷ []) h
                    ((λ d. differ s.domain domain k (sym d)), tt))
                clear no_site,
          )
    ]

-- Fewer aliases, and fewer sites.
pub keep_aliases-IsDisjoint :
    (p : SiteDomain → Bool) (db : Tables)
    → IsDisjoint db
    → IsDisjoint (record db { site_domains = select p db.site_domains })
keep_aliases-IsDisjoint p db (sites, aliases, clear) = (
  sites,
  Apart-select OtherAlias p db.site_domains aliases,
  All-mono (IsClear db.site_domains) (IsClear (select p db.site_domains)) db.sites
      (λ s h. All-select (λ a. a.domain ≢ s.domain) p db.site_domains h) clear,
)

pub delete_site_row-IsDisjoint :
    (domain : Bytes) (db : Tables) → IsDisjoint db → IsDisjoint (delete_site_row domain db).1
unfolding delete_site_row
delete_site_row-IsDisjoint domain db (sites, aliases, clear) = (
  Apart-select OtherSite _ db.sites sites,
  aliases,
  All-select (IsClear db.site_domains) _ db.sites clear,
)

changed_by-domain : (change : SiteChange) (s : Site) → (changed_by change s).domain ≡ s.domain
unfolding changed_by
changed_by-domain (set_config c) s = refl
changed_by-domain (set_proxy c) s = refl
changed_by-domain (set_static c) s = refl
changed_by-domain (set_status c) s = refl
changed_by-domain (set_root c) s = refl
changed_by-domain (set_git a b c d) s = refl
changed_by-domain (set_owner a b) s = refl

at_domain-domain :
    (domain : Bytes) (change : SiteChange) (s : Site)
    → (at_domain domain change s).domain ≡ s.domain
at_domain-domain domain change s = elim (Bool-cases (beq s.domain domain)) [
  | inl e ↦ rw e (changed_by-domain change s)
  | inr e ↦ rw e refl
]

pub update-IsDisjoint :
    (domain : Bytes) (change : SiteChange) (db : Tables)
    → IsDisjoint db
    → IsDisjoint (record db { sites = map (at_domain domain change) db.sites })
update-IsDisjoint domain change db (sites, aliases, clear) = (
  Apart-map OtherSite (at_domain domain change) db.sites
      (λ s t h. rw (at_domain-domain domain change s, at_domain-domain domain change t) h) sites,
  aliases,
  map-All (IsClear db.site_domains) (IsClear db.site_domains) (at_domain domain change) db.sites
      (λ s h. rw (at_domain-domain domain change s) h) clear,
)
