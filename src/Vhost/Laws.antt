-- ===== src/Vhost/Laws.antt =====
-- The table of internal/vhost/table.go is a map on normalised host names.
use lamund.Prelude.{
  ◌≡◌, ◌≢◌, none, some, [], arith, if◌then◌else◌, Bytes, beq, beq_iff, lookup-insert, lookup-delete,
  IsDistinct, insert-IsDistinct, delete-IsDistinct,
}
use lamund.Vhost.{Route, Table, normalize, get, upsert, remove}

module _ {Handler : Type 0} where
  -- After an update the names that are normalised alike have the new route, and all others the old.
  pub get-upsert :
      (r : Route Handler) (t : Table Handler) (host : Bytes)
      → host ≢ []
      → get host (upsert r t)
        ≡ (if beq (normalize r.domain) (normalize host) then some r else get host t)
  unfolding get upsert
  get-upsert r t host h =
      ground
        (arith, beq_iff host [], lookup-insert (normalize r.domain) (normalize host) r t.routes)

  -- After a removal the names that are normalised alike have no route, and all others the old.
  pub get-remove :
      (domain : Bytes) (t : Table Handler) (host : Bytes)
      → get host (remove domain t)
        ≡ (if beq (normalize domain) (normalize host) then none else get host t)
  unfolding get remove
  get-remove domain t host =
      ground (arith, lookup-delete (normalize domain) (normalize host) t.routes)

  -- Every name stands once in the table.
  abbrev pub IsTable : Table Handler → Type 0
  IsTable t = IsDistinct t.routes

  -- After an update each normalised name still stands once in the table at most.
  pub upsert-IsTable : (r : Route Handler) (t : Table Handler) → IsTable t → IsTable (upsert r t)
  unfolding upsert
  upsert-IsTable r t h = insert-IsDistinct (normalize r.domain) r t.routes h

  pub remove-IsTable : (domain : Bytes) (t : Table Handler) → IsTable t → IsTable (remove domain t)
  unfolding remove
  remove-IsTable domain t h = delete-IsDistinct (normalize domain) t.routes h
