-- ===== src/Access/Limiter.antt =====
-- internal/api/middleware.go: the limiter of login attempts. The lock makes `allow` one step; its
-- two readings of the clock, in nanoseconds, are arguments.
pub mod Window
use lamund.Prelude.{
  ℕ, ◌+◌, Bool, Option, none, some, List, [], ◌∷◌, ◌++◌, ltb, leb, Bytes, length, select, Map,
  lookup, insert,
}

pub record Limiter : Type 0 where
  pub hits : Map (List ℕ)
  pub window : ℕ
  pub max_hits : ℕ

unfoldable pub new_limiter : Limiter
new_limiter = record { hits = []; window = 60000000000; max_hits = 5 }

abbrev pub hits_of : Option (List ℕ) → List ℕ
hits_of none = []
hits_of (some ts) = ts

-- the times that are after the cut-off: `t.After(now - window)`
abbrev pub recent : ℕ → ℕ → List ℕ → List ℕ
recent window now ts = select (λ t. ltb now (t + window)) ts

unfoldable pub allow : ℕ → ℕ → Bytes → Limiter → Bool × Limiter
allow now now' key l =
    let kept = recent l.window now (hits_of (lookup key l.hits)) ++ now' ∷ [] in
    (leb (length kept) l.max_hits, record l { hits = insert key kept l.hits })
