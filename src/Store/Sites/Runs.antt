-- ===== src/Store/Sites/Runs.antt =====
-- Any calls on sites, in any order and whatever the engine refuses.
use lamund.Store.Sites.{
  insert_alias, is_taken, clean_domain, with_owner, insert_site, is_alias, delete_site_domain,
  add_site_domain, update_site, SiteChange, create_site, delete_site_row, delete_aliases_of,
  delete_site,
}
use lamund.Prelude.{
  ℕ, suc, ◌≡◌, inl, inr, Bool, false, ◌||◌, Option, none, some, List, [], ◌∷◌, arith, ◌==◌,
  if◌then◌else◌, Bool-cases, if-both, Bytes, beq, length, select,
}
use lamund.Domain.{DomainError, validate_domain}
use lamund.Store.Conn.{
  registered, Conn, Result, ok, err, exec, query, raise, pure, ◌>>=◌, ◌>>◌, bound,
}
use lamund.Store.Conn.Transaction.{
  Closed, Closed-keeps, chain-keeps, begin-Closed, Closed-exec, commit-Closed_last, Change, chain,
}
use lamund.Store.Tables.{Tables, Site}
use lamund.Store.Zones.{Store, some_row, checked}
use lamund.Store.Sites.Disjoint.{
  insert_site-IsDisjoint, insert_alias-IsDisjoint, update-IsDisjoint, keep_aliases-IsDisjoint,
  delete_site_row-IsDisjoint, IsDisjoint,
}

-- The calls that change sites or their aliases.
pub data SiteCall : Type 0 where
  create_one : Site → SiteCall
  delete_one : Bytes → SiteCall
  update_one : Bytes → SiteChange → SiteCall
  add_alias delete_alias : ℕ → Bytes → SiteCall

unfoldable pub call_site : SiteCall → Store Unit
call_site (create_one s) = create_site s >>= λ _. pure tt
call_site (delete_one domain) = delete_site domain
call_site (update_one domain change) = update_site domain change
call_site (add_alias site_id domain) = add_site_domain site_id domain
call_site (delete_alias site_id domain) = delete_site_domain site_id domain

-- The connection after the calls, whatever they returned.
unfoldable pub run_sites : List SiteCall → Conn Tables → Conn Tables
run_sites [] c = c
run_sites (call ∷ calls) c = run_sites calls (call_site call c).1

abbrev Kept : Conn Tables → Type 0
Kept c = (c.undo ≡ none) × IsDisjoint c.db

-- A statement that keeps the tables well formed.
exec-Kept :
    {A : Type 0} (g : Tables → Result A × Tables) (c : Conn Tables)
    → Kept c
    → IsDisjoint (g c.db).1
    → Kept (exec g c).1
unfolding exec
exec-Kept g c h k = elim (Bool-cases (c.faults c.clock)) [ inl e ↦ rw e h | inr e ↦ rw e (h.0, k) ]

-- A statement behind a query that must find nothing.
guarded-Kept :
    {A : Type 0} (taken : Tables → Bool) (g : Tables → Result A × Tables) (c : Conn Tables)
    → Kept c
    → (taken c.db ≡ false → IsDisjoint (g c.db).1)
    → Kept ((query taken >>= λ b. if b then raise registered else exec g) c).1
unfolding query
guarded-Kept taken g c h k = elim (Bool-cases (c.faults c.clock)) [
  | inl f ↦ rw f h
  | inr f ↦ elim (Bool-cases (taken c.db)) [
    | inl t ↦ rw (f, t) h
    | inr t ↦ rw (f, t) (exec-Kept g (record c { clock = suc c.clock }) h (k t))
  ]
]

checked-Kept :
    {A : Type 0} (o : Option DomainError) (m : Store A) (c : Conn Tables)
    → Kept c
    → Kept (m c).1
    → Kept ((checked o >> m) c).1
checked-Kept none m c h k = k
checked-Kept (some e) m c h k = h

ignored-Kept :
    {A : Type 0} (out : Result A × Conn Tables) → Kept out.1 → Kept (bound (λ _. pure tt) out).1
ignored-Kept (ok a, c) h = h
ignored-Kept (err e, c) h = h

abbrev removed : Bytes → Change Tables Unit
removed domain db =
    chain (λ _ d. chain (λ _ d'. (ok tt, d')) (some_row (delete_site_row domain d)))
      (delete_aliases_of domain db)

delete_site-Closed :
    (domain : Bytes) (c : Conn Tables)
    → c.undo ≡ none
    → Closed c.db (removed domain c.db) c (delete_site domain c)
unfolding delete_site
delete_site-Closed domain c h = begin-Closed (removed domain) _ c h (λ c1 h1.
    Closed-exec c.db (delete_aliases_of domain) _ _ c1 h1 (λ _ c2 h2.
      Closed-exec c.db (λ db. some_row (delete_site_row domain db)) _ _ c2 h2
        (λ _ c3 h3. commit-Closed_last c.db c3 h3)))

some_row-IsDisjoint : (s : Result ℕ × Tables) → IsDisjoint s.1 → IsDisjoint (some_row s).1
unfolding some_row
some_row-IsDisjoint (ok n, db) h = elim (Bool-cases (n == 0)) [ inl e ↦ rw e h | inr e ↦ rw e h ]
some_row-IsDisjoint (err e, db) h = h

removed-IsDisjoint :
    (domain : Bytes) (db : Tables) → IsDisjoint db → IsDisjoint (removed domain db).1
unfolding delete_aliases_of
removed-IsDisjoint domain db h =
    let d = (delete_aliases_of domain db).1 in
    chain-keeps IsDisjoint _ (some_row (delete_site_row domain d))
      (some_row-IsDisjoint (delete_site_row domain d)
        (delete_site_row-IsDisjoint domain d (keep_aliases-IsDisjoint _ db h)))
      (λ _ d' k. k)

or-left : (a b : Bool) → (a || b) ≡ false → a ≡ false
or-left a b h = ground arith

call_site-Kept : (call : SiteCall) (c : Conn Tables) → Kept c → Kept (call_site call c).1
unfolding with_owner call_site create_site add_site_domain update_site delete_site_domain
call_site-Kept (create_one s) c h = ignored-Kept (create_site s c) (
    checked-Kept (validate_domain s.domain) _ c h (
      guarded-Kept (is_alias s.domain) (insert_site (with_owner s)) c h
        (λ free. insert_site-IsDisjoint (with_owner s) c.db free h.1)))
call_site-Kept (delete_one domain) c h =
    let closed = delete_site-Closed domain c h.0 in
    (
      closed.1,
      Closed-keeps IsDisjoint c.db (removed domain c.db) c (delete_site domain c) h.1
          (removed-IsDisjoint domain c.db h.1) closed,
    )
call_site-Kept (update_one domain change) c h = exec-Kept _ c h (
    if-both (λ (s : Result Unit × Tables). IsDisjoint s.1)
      (length (select (λ s. beq s.domain domain) c.db.sites) == 0) _ _ (λ _. h.1)
      (λ _. update-IsDisjoint domain change c.db h.1))
call_site-Kept (add_alias site_id domain) c h =
    checked-Kept (validate_domain (clean_domain domain)) _ c h (
      guarded-Kept (is_taken (clean_domain domain)) (insert_alias site_id (clean_domain domain)) c h
        (λ free. insert_alias-IsDisjoint site_id (clean_domain domain) c.db (or-left _ _ free) h.1))
call_site-Kept (delete_alias site_id domain) c h =
    exec-Kept _ c h (keep_aliases-IsDisjoint _ c.db h.1)

-- From tables in which no name belongs to two sites, as their domain or as an alias, and no open
-- transaction, any calls lead to such tables and no open transaction, one call after the other and
-- whichever statements the engine refuses.
pub run_sites-IsDisjoint :
    (calls : List SiteCall) (c : Conn Tables)
    → c.undo ≡ none
    → IsDisjoint c.db
    → ((run_sites calls c).undo ≡ none) × IsDisjoint (run_sites calls c).db
unfolding run_sites
run_sites-IsDisjoint [] c h k = (h, k)
run_sites-IsDisjoint (call ∷ calls) c h k =
    let (h', k') = call_site-Kept call c (h, k) in
    run_sites-IsDisjoint calls (call_site call c).1 h' k'
