-- ===== src/Store/Conn/Transaction.antt =====
-- What a transaction does, from what its statements do: it settles as the changes say that its
-- statements make in a row, or a refusal of the engine has undone it.
use lamund.Prelude.{
  ℕ, ◌≡◌, refl, ◌⊎◌, inl, inr, Bool, true, false, none, some, if◌then◌else◌, Bool-cases,
}
use lamund.Store.Conn.{
  tick, ran, Action, Conn, Result, ok, err, engine, StoreError, begin, commit, exec, query,
  or_rollback, unless, pure, ◌>>=◌, ◌>>◌, bound, undone,
}

abbrev pub Change : Type 0 → Type 0 → Type 0
Change D A = D → Result A × D

module _ {D : Type 0} where
  -- The next change on the result of a change; an error ends the row.
  abbrev pub chain : {A B : Type 0} → (A → Change D B) → Result A × D → Result B × D
  chain k (ok a, d) = k a d
  chain k (err e, d) = (err e, d)

  module _ {A : Type 0} where
    -- The engine has refused a statement.
    abbrev Refused : Conn D → Result A → Type 0
    Refused c r = (r ≡ err engine) × ((n : ℕ) × (c.faults n ≡ true))

    -- How a change ends: one that ends in an error has changed nothing.
    abbrev pub Settled : D → Result A × D → Result A × D → Type 0
    Settled base (ok a, d) (r, d') = (r ≡ ok a) × (d' ≡ d)
    Settled base (err e, d) (r, d') = (r ≡ err e) × (d' ≡ base)

    abbrev Kept : D → Result A × D → Result A × Conn D → Type 0
    Kept base (ok a, d) (r, c') = (r ≡ ok a) × (c'.undo ≡ some base) × (c'.db ≡ d)
    Kept base (err e, d) (r, c') = (r ≡ err e) × (c'.undo ≡ none) × (c'.db ≡ base)

    -- Within a transaction that began at `base`.
    abbrev pub Within : D → Result A × D → Conn D → Result A × Conn D → Type 0
    Within base spec c (r, c') =
        (c'.faults ≡ c.faults)
        × ((Refused c r × (c'.undo ≡ none) × (c'.db ≡ base)) ⊎ Kept base spec (r, c'))

    -- With no transaction left open.
    abbrev pub Closed : D → Result A × D → Conn D → Result A × Conn D → Type 0
    Closed base spec c (r, c') =
        (c'.faults ≡ c.faults)
        × (c'.undo ≡ none)
        × ((Refused c r × (c'.db ≡ base)) ⊎ Settled base spec (r, c'.db))

    undone-Within :
        (base : D) (s : Result A × D) (c : Conn D)
        → c.undo ≡ some base
        → Within base s c (undone (ran s (tick c)))
    undone-Within base (ok a, d) c h = (refl, inr (refl, h, refl))
    undone-Within base (err e, d) c h = rw h (refl, inr (refl, refl, refl))

    pub or_rollback-exec :
        (base : D) (g : Change D A) (c : Conn D)
        → c.undo ≡ some base
        → Within base (g c.db) c (or_rollback (exec g) c)
    unfolding exec
    or_rollback-exec base g c h = elim (Bool-cases (c.faults c.clock)) [
      | inl e ↦ rw (e, h) (refl, inl ((refl, (c.clock, e)), refl, refl))
      | inr e ↦ rw e (undone-Within base (g c.db) c h)
    ]

    pub commit-Closed :
        (base : D) (a : A) (c : Conn D)
        → c.undo ≡ some base
        → Closed base (ok a, c.db) c ((commit >> pure a) c)
    unfolding commit
    commit-Closed base a c h = elim (Bool-cases (c.faults c.clock)) [
      | inl e ↦ rw (e, h) (refl, refl, inl ((refl, (c.clock, e)), refl))
      | inr e ↦ rw e (refl, refl, inr (refl, refl))
    ]

  -- if the test fails, else no statement
  pub or_rollback-unless :
      (base : D) (b : Bool) (g : Change D Unit) (c : Conn D)
      → c.undo ≡ some base
      → Within base (if b then (ok tt, c.db) else g c.db) c (or_rollback (unless b (exec g)) c)
  or_rollback-unless base true g c h = (refl, inr (refl, h, refl))
  or_rollback-unless base false g c h = or_rollback-exec base g c h

  pub Closed-bind :
      {A B : Type 0} (base : D) (spec : Result A × D) (k : A → Change D B) (f : A → Action D B)
      (c : Conn D) (out : Result A × Conn D)
      → Within base spec c out
      → ((a : A) (c' : Conn D) → c'.undo ≡ some base → Closed base (k a c'.db) c' (f a c'))
      → Closed base (chain k spec) c (bound f out)
  Closed-bind base spec k f c (r, c') (same, inl ((e, fault), u, d)) rest =
      rw e (same, u, inl ((refl, fault), d))
  Closed-bind base (err e, d) k f c (r, c') (same, inr (er, u, ed)) rest =
      rw er (same, u, inr (refl, ed))
  Closed-bind base (ok a, d) k f c (r, c') (same, inr (er, u, ed)) rest =
      rw (er, ← ed, ← same) (rest a c' u)

  -- Two parts of a transaction.
  pub Within-bind :
      {A B : Type 0} (base : D) (spec : Result A × D) (k : A → Change D B) (f : A → Action D B)
      (c : Conn D) (out : Result A × Conn D)
      → Within base spec c out
      → ((a : A) (c' : Conn D) → c'.undo ≡ some base → Within base (k a c'.db) c' (f a c'))
      → Within base (chain k spec) c (bound f out)
  Within-bind base spec k f c (r, c') (same, inl ((e, fault), u, d)) rest =
      rw e (same, inl ((refl, fault), u, d))
  Within-bind base (err e, d) k f c (r, c') (same, inr (er, u, ed)) rest =
      rw er (same, inr (refl, u, ed))
  Within-bind base (ok a, d) k f c (r, c') (same, inr (er, u, ed)) rest =
      rw (er, ← ed, ← same) (rest a c' u)

  -- The next statement of a transaction.
  pub Closed-exec :
      {A B : Type 0} (base : D) (g : Change D A) (k : A → Change D B) (f : A → Action D B)
      (c : Conn D)
      → c.undo ≡ some base
      → ((a : A) (c' : Conn D) → c'.undo ≡ some base → Closed base (k a c'.db) c' (f a c'))
      → Closed base (chain k (g c.db)) c ((or_rollback (exec g) >>= f) c)
  Closed-exec base g k f c h =
      Closed-bind base (g c.db) k f c (or_rollback (exec g) c) (or_rollback-exec base g c h)

  pub Closed-unless :
      {B : Type 0} (base : D) (b : Bool) (g : Change D Unit) (k : Unit → Change D B)
      (f : Unit → Action D B) (c : Conn D)
      → c.undo ≡ some base
      → ((a : Unit) (c' : Conn D) → c'.undo ≡ some base → Closed base (k a c'.db) c' (f a c'))
      → Closed base
          (chain k (if b then (ok tt, c.db) else g c.db))
          c
          ((or_rollback (unless b (exec g)) >>= f) c)
  Closed-unless base b g k f c h =
      Closed-bind base (if b then (ok tt, c.db) else g c.db) k f c
        (or_rollback (unless b (exec g)) c) (or_rollback-unless base b g c h)

  -- A transaction from its begin, when none is open.
  pub begin-Closed :
      {A : Type 0} (spec : Change D A) (m : Action D A) (c : Conn D)
      → c.undo ≡ none
      → ((c' : Conn D) → c'.undo ≡ some c.db → Closed c.db (spec c'.db) c' (m c'))
      → Closed c.db (spec c.db) c ((begin >> m) c)
  unfolding begin
  begin-Closed spec m c h rest = elim (Bool-cases (c.faults c.clock)) [
    | inl e ↦ rw e (refl, h, inl ((refl, (c.clock, e)), refl))
    | inr e ↦ rw e (rest (record (tick c) { undo = some c.db }) refl)
  ]

  Settled-self :
      {A : Type 0} (base : D) (s : Result A × D)
      → ((e : StoreError) (d : D) → s ≡ (err e, d) → d ≡ base)
      → Settled base s s
  Settled-self base (ok a, d) keeps = (refl, refl)
  Settled-self base (err e, d) keeps = (refl, keeps e d refl)

  -- One statement outside of a transaction.
  pub exec-Closed :
      {A : Type 0} (g : Change D A) (c : Conn D)
      → c.undo ≡ none
      → ((e : StoreError) (d : D) → g c.db ≡ (err e, d) → d ≡ c.db)
      → Closed c.db (g c.db) c (exec g c)
  unfolding exec
  exec-Closed g c h keeps = elim (Bool-cases (c.faults c.clock)) [
    | inl e ↦ rw e (refl, h, inl ((refl, (c.clock, e)), refl))
    | inr e ↦ rw e (refl, h, inr (Settled-self c.db (g c.db) keeps))
  ]

  pub query-Closed :
      {A : Type 0} (f : D → A) (c : Conn D)
      → c.undo ≡ none
      → Closed c.db (ok (f c.db), c.db) c (query f c)
  unfolding query
  query-Closed f c h = elim (Bool-cases (c.faults c.clock)) [
    | inl e ↦ rw e (refl, h, inl ((refl, (c.clock, e)), refl))
    | inr e ↦ rw e (refl, h, inr (refl, refl))
  ]

  -- An operation after a query.
  pub Closed-query :
      {A B : Type 0} (f : D → A) (spec : A → Change D B) (m : A → Action D B) (c : Conn D)
      → c.undo ≡ none
      → ((c' : Conn D) → c'.undo ≡ none → Closed c'.db (spec (f c'.db) c'.db) c' (m (f c'.db) c'))
      → Closed c.db (spec (f c.db) c.db) c ((query f >>= m) c)
  unfolding query
  Closed-query f spec m c h rest = elim (Bool-cases (c.faults c.clock)) [
    | inl e ↦ rw e (refl, h, inl ((refl, (c.clock, e)), refl))
    | inr e ↦ rw e (rest (tick c) h)
  ]

  pub commit-Closed_last :
      (base : D) (c : Conn D) → c.undo ≡ some base → Closed base (ok tt, c.db) c (commit c)
  unfolding commit
  commit-Closed_last base c h = elim (Bool-cases (c.faults c.clock)) [
    | inl e ↦ rw (e, h) (refl, refl, inl ((refl, (c.clock, e)), refl))
    | inr e ↦ rw e (refl, refl, inr (refl, refl))
  ]

  -- The result of an operation, changed by a function.
  pub Closed-map :
      {A B : Type 0} (base : D) (f : A → B) (spec : Result A × D) (c : Conn D)
      (out : Result A × Conn D)
      → Closed base spec c out
      → Closed base (chain (λ a d. (ok (f a), d)) spec) c (bound (λ a. pure (f a)) out)
  Closed-map base f spec c (r, c') (same, u, inl ((e, fault), d)) =
      rw e (same, u, inl ((refl, fault), d))
  Closed-map base f (err e, d) c (r, c') (same, u, inr (er, ed)) = rw er (same, u, inr (refl, ed))
  Closed-map base f (ok a, d) c (r, c') (same, u, inr (er, ed)) = rw er (same, u, inr (refl, ed))

  -- What a change keeps, and then what an operation keeps that is this change.
  pub chain-keeps :
      {A B : Type 0} (P : D → Type 0) (k : A → Change D B) (s : Result A × D)
      → P s.1
      → ((a : A) (d : D) → P d → P (k a d).1)
      → P (chain k s).1
  chain-keeps P k (ok a, d) h rest = rest a d h
  chain-keeps P k (err e, d) h rest = h

  pub Closed-keeps :
      {A : Type 0} (P : D → Type 0) (base : D) (spec : Result A × D) (c : Conn D)
      (out : Result A × Conn D)
      → P base
      → P spec.1
      → Closed base spec c out
      → P out.1.db
  Closed-keeps P base spec c (r, c') h k (same, u, inl (e, d)) = rw d h
  Closed-keeps P base (ok a, d) c (r, c') h k (same, u, inr (er, ed)) = rw ed k
  Closed-keeps P base (err e, d) c (r, c') h k (same, u, inr (er, ed)) = rw ed h
