-- ===== src/Store/Conn.antt =====
-- internal/store/db.go: a connection to the database, its statements and its transactions. The
-- engine is not part of the repository: a statement that it refuses, as `faults` says of the number
-- of the statement, changes nothing; a transaction that is rolled back, or whose commit is refused,
-- leaves the database as it was at its begin.
pub mod Transaction
use lamund.Prelude.{ℕ, suc, Bool, Option, none, some, if◌then◌else◌}
use lamund.Domain.{DomainError}

-- The errors of the store: of the engine, of a UNIQUE constraint, and its own messages.
pub data StoreError : Type 0 where
  engine unique registered not_found : StoreError
  bad_domain : DomainError → StoreError

pub data Result (A : Type 0) : Type 0 where
  ok : A → Result A
  err : StoreError → Result A

-- `undo` is the database at the begin of the transaction that is open.
pub record Conn (D : Type 0) : Type 0 where
  pub db : D
  pub undo : Option D
  pub clock : ℕ
  pub faults : ℕ → Bool

abbrev pub Action : Type 0 → Type 0 → Type 0
Action D A = Conn D → Result A × Conn D

module _ {D : Type 0} where
  abbrev tick : Conn D → Conn D
  tick c = record c { clock = suc c.clock }

  abbrev set_db : D → Conn D → Conn D
  set_db d c = record c { db = d }

  abbrev restore : Option D → Conn D → Conn D
  restore none c = c
  restore (some d) c = record c { db = d; undo = none }

  -- dbTx.Rollback
  abbrev pub rollback : Conn D → Conn D
  rollback c = restore c.undo c

  -- dbConn.Begin
  unfoldable pub begin : Action D Unit
  begin c =
      if c.faults c.clock
      then (err engine, tick c)
      else (ok tt, record (tick c) { undo = some c.db })

  -- dbTx.Commit
  unfoldable pub commit : Action D Unit
  commit c =
      if c.faults c.clock
      then (err engine, rollback (tick c))
      else (ok tt, record (tick c) { undo = none })

  module _ {A : Type 0} where
    abbrev ran : Result A × D → Conn D → Result A × Conn D
    ran (r, d) c = (r, set_db d c)

    -- dbConn.Exec and dbTx.Exec of a statement that may change the database
    unfoldable pub exec : (D → Result A × D) → Action D A
    exec f c = if c.faults c.clock then (err engine, tick c) else ran (f c.db) (tick c)

    -- Query and QueryRow, with the scan of what they return
    unfoldable pub query : (D → A) → Action D A
    query f c = if c.faults c.clock then (err engine, tick c) else (ok (f c.db), tick c)

    abbrev pub pure : A → Action D A
    pure a c = (ok a, c)

    abbrev pub raise : StoreError → Action D A
    raise e c = (err e, c)

    -- if err != nil { tx.Rollback(); return err }
    abbrev undone : Result A × Conn D → Result A × Conn D
    undone (ok a, c) = (ok a, c)
    undone (err e, c) = (err e, rollback c)

    abbrev pub or_rollback : Action D A → Action D A
    or_rollback m c = undone (m c)

  abbrev pub bound : {A B : Type 0} → (A → Action D B) → Result A × Conn D → Result B × Conn D
  bound f (ok a, c) = f a c
  bound f (err e, c) = (err e, c)

  infixl 5 ◌>>=◌ ◌>>◌
  abbrev pub ◌>>=◌ : {A B : Type 0} → Action D A → (A → Action D B) → Action D B
  ◌>>=◌ m f c = bound f (m c)

  abbrev pub ◌>>◌ : {A B : Type 0} → Action D A → Action D B → Action D B
  m >> k = m >>= λ _. k

  abbrev pub unless : Bool → Action D Unit → Action D Unit
  unless b m c = if b then (ok tt, c) else m c
