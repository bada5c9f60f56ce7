-- ===== src/Dns/Rate/Bound.antt =====
-- The rate limit of internal/dns/handler.go bounds the answers to each subnet.
use lamund.Prelude.{
  ℕ, ◌+◌, ◌-◌, ◌*◌, ◌≤◌, ◌≡◌, refl, Bool, true, false, ◌&&◌, List, [], ◌∷◌, arith, Bytes, beq,
  lookup,
}
use lamund.Dns.Rate.{rrl_allow, token, Buckets, rrl_rate}
use lamund.Dns.Rate.Level.{
  charge, cost, level, level_up, IsWell-up, IsWell, rrl_allow-IsWell, level-le-burst,
}

abbrev tally : Bool → ℕ
tally true = 1
tally false = 0

-- The queries of subnet `j` that are let through, of a sequence of queries with their times.
abbrev pub allowed : Bytes → List (ℕ × Bytes) → Buckets → ℕ
allowed j [] m = 0
allowed j ((now, key) ∷ qs) m =
    tally (beq key j && (rrl_allow now key m).0) + allowed j qs (rrl_allow now key m).1

-- The times do not fall, and lie between two others.
abbrev pub IsOrdered : ℕ → ℕ → List (ℕ × Bytes) → Type 0
IsOrdered from until [] = from ≤ until
IsOrdered from until ((now, key) ∷ qs) = (from ≤ now) × IsOrdered now until qs

IsOrdered-le : (from until : ℕ) (qs : List (ℕ × Bytes)) → IsOrdered from until qs → from ≤ until
IsOrdered-le from until [] h = h
IsOrdered-le from until ((now, key) ∷ qs) h = omega (arith, IsOrdered-le now until qs h.1)

cost-tally : (b : Bool) → cost b ≡ tally b * token
cost-tally true = refl
cost-tally false = refl

allowed-level :
    (j : Bytes) (from until : ℕ) (qs : List (ℕ × Bytes)) (m : Buckets)
    → IsWell from m
    → IsOrdered from until qs
    → allowed j qs m * token ≤ level from j m + (until - from) * rrl_rate
allowed-level j from until [] m w h = omega arith
allowed-level j from until ((now, key) ∷ qs) m w h =
    let w' = IsWell-up from now m h.0 w in
    let rest =
      allowed-level j now until qs (rrl_allow now key m).1 (rrl_allow-IsWell now key m w') h.1 in
    omega (
      arith,
      rest,
      charge now key m j w',
      level_up from now j m h.0,
      cost-tally (beq key j && (rrl_allow now key m).0),
      IsOrdered-le now until qs h.1,
    )

-- In any span of time, whatever the queries, each subnet gets 40 answers and 20 more for each
-- second of the span at most.
pub allowed_bound :
    (j : Bytes) (from until : ℕ) (qs : List (ℕ × Bytes)) (m : Buckets)
    → IsWell from m
    → IsOrdered from until qs
    → allowed j qs m * token ≤ 40 * token + (until - from) * 20
allowed_bound j from until qs m w h =
    omega (arith, allowed-level j from until qs m w h, level-le-burst from j m w)

-- A server that has just started has no buckets.
pub empty-IsWell : (now : ℕ) → IsWell now []
unfolding lookup
empty-IsWell now = record { good = λ key. tt; distinct = tt }
