-- ===== src/Api/Handler/Rules.antt =====
-- What holds of the tables when a handler ends, step by step.
use lamund.Api.Handler.{
  answered, stepped, final, final, handled, next, done, Response, HandlerOn, some_or, ignoring,
  stop_if, or_status, Step,
}
use lamund.Prelude.{
  ℕ, ◌≡◌, refl, ◌∙◌, ◌⊎◌, inl, inr, Bool, true, false, Option, none, some, Bool-cases,
}
use lamund.Store.Conn.{Result, err, exec, ok, Conn, query, Action}

-- If the step ended the handler, the tables satisfy P; if not, its result and the connection
-- satisfy Q.
abbrev pub Leads : {D A : Type 0} → (D → Type 0) → (A → Conn D → Type 0) → Step A × Conn D → Type 0
Leads P Q (done r, c) = P c.db
Leads P Q (next a, c) = Q a c

-- The connection has the same tables and the same open transaction.
abbrev pub Same : {D : Type 0} → Conn D → Conn D → Type 0
Same c c' = (c'.db ≡ c.db) × (c'.undo ≡ c.undo)

pub Same-trans : {D : Type 0} (c d e : Conn D) → Same c d → Same d e → Same c e
Same-trans c d e h k = (k.0 ∙ h.0, k.1 ∙ h.1)

module _ {D : Type 0} (P : D → Type 0) where
  pub Leads-weaken :
      {A : Type 0} (Q R : A → Conn D → Type 0) (out : Step A × Conn D)
      → Leads P Q out
      → ((a : A) (c : Conn D) → Q a c → R a c)
      → Leads P R out
  Leads-weaken Q R (done r, c) h k = h
  Leads-weaken Q R (next a, c) h k = k a c h

  pub Leads-bind :
      {A B : Type 0} (Q : A → Conn D → Type 0) (R : B → Conn D → Type 0) (f : A → HandlerOn D B)
      (out : Step A × Conn D)
      → Leads P Q out
      → ((a : A) (c : Conn D) → Q a c → Leads P R (f a c))
      → Leads P R (stepped f out)
  Leads-bind Q R f (done r, c) h k = h
  Leads-bind Q R f (next a, c) h k = k a c h

  final-Leads : (out : Step Response × Conn D) → Leads P (λ r c'. P c'.db) out → P (final out).1.db
  final-Leads (done r, c) h = h
  final-Leads (next r, c) h = h

  pub handled-Leads :
      (m : HandlerOn D Response) (c : Conn D)
      → Leads P (λ r c'. P c'.db) (m c)
      → P (handled m c).1.db
  handled-Leads m c h = final-Leads (m c) h

  module _ {A : Type 0} where
    pub some_or-Leads :
        (status : ℕ) (o : Option A) (c : Conn D)
        → P c.db
        → Leads P (λ a c'. Same c c' × (o ≡ some a)) (some_or status o c)
    some_or-Leads status none c h = h
    some_or-Leads status (some a) c h = ((refl, refl), refl)

    pub or_status-query :
        (status : ℕ) (f : D → A) (c : Conn D)
        → P c.db
        → Leads P (λ a c'. Same c c' × (a ≡ f c.db)) (or_status status (query f) c)
    unfolding query
    or_status-query status f c h = elim (Bool-cases (c.faults c.clock)) [
      | inl e ↦ rw e h
      | inr e ↦ rw e ((refl, refl), refl)
    ]

    pub ignoring-query :
        (zero_value : A) (f : D → A) (c : Conn D)
        → Leads P
            (λ a c'. Same c c' × ((a ≡ f c.db) ⊎ (a ≡ zero_value)))
            (ignoring zero_value (query f) c)
    unfolding query
    ignoring-query zero_value f c = elim (Bool-cases (c.faults c.clock)) [
      | inl e ↦ rw e ((refl, refl), inr refl)
      | inr e ↦ rw e ((refl, refl), inl refl)
    ]

  pub stop_if-Leads :
      (b : Bool) (status : ℕ) (c : Conn D)
      → P c.db
      → Leads P (λ u c'. Same c c' × (b ≡ false)) (stop_if b status c)
  stop_if-Leads true status c h = h
  stop_if-Leads false status c h = ((refl, refl), refl)

  pub or_status-write :
      (status : ℕ) (f : D → D) (c : Conn D)
      → P c.db
      → Leads P (λ (u : Unit) c'. c'.db ≡ f c.db) (or_status status (exec (λ db. (ok tt, f db))) c)
  unfolding exec
  or_status-write status f c h = elim (Bool-cases (c.faults c.clock)) [
    | inl e ↦ rw e h
    | inr e ↦ rw e refl
  ]

  answered-Leads :
      {A : Type 0} (status : ℕ) (out : Result A × Conn D)
      → P out.1.db
      → Leads P (λ (a : A) c'. P c'.db) (answered status out)
  answered-Leads status (ok a, c) h = h
  answered-Leads status (err e, c) h = h

  -- An operation that keeps P, whatever it returns.
  pub or_status-keeps :
      {A : Type 0} (status : ℕ) (m : Action D A) (c : Conn D)
      → P (m c).1.db
      → Leads P (λ (a : A) c'. P c'.db) (or_status status m c)
  or_status-keeps status m c h = answered-Leads status (m c) h
