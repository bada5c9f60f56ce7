-- ===== src/Dns/Rate.antt =====
-- internal/dns/handler.go: the response rate limit, a token bucket for each subnet. The key of the
-- subnet and the clock's reading, in nanoseconds, are arguments; a token is counted as 10 ^ 9
-- units, so that 20 tokens a second are 20 units a nanosecond and no fraction occurs.
pub mod Level
pub mod Bound
use lamund.Prelude.{
  ℕ, ◌+◌, ◌-◌, ◌*◌, Bool, true, false, Option, none, some, [], ◌∷◌, ltb, leb, if◌then◌else◌, Bytes,
  length, Map, lookup, insert,
}

pub record Bucket : Type 0 where
  pub tokens : ℕ
  pub last_seen : ℕ

abbrev pub Buckets : Type 0
Buckets = Map Bucket

abbrev pub token : ℕ
token = 1000000000

abbrev pub rrl_rate : ℕ
rrl_rate = 20

abbrev pub rrl_burst : ℕ
rrl_burst = 40 * token

abbrev pub rrl_max_buckets : ℕ
rrl_max_buckets = 4096

-- five seconds
abbrev pub idle : ℕ
idle = 5000000000

-- rrlEvict: `last_seen` before `now` by more than five seconds
unfoldable pub evict : ℕ → Buckets → Buckets
evict now [] = []
evict now ((k, b) ∷ m) =
    let rest = evict now m in if ltb (b.last_seen + idle) now then rest else (k, b) ∷ rest

-- The map that a new bucket enters.
unfoldable pub make_room : ℕ → Buckets → Buckets
make_room now m = if leb rrl_max_buckets (length m) then evict now m else m

abbrev cap : ℕ → ℕ
cap n = if ltb rrl_burst n then rrl_burst else n

unfoldable pub refill : ℕ → Bucket → Bucket
refill now b =
    if ltb b.last_seen now
    then record { tokens = cap (b.tokens + (now - b.last_seen) * rrl_rate); last_seen = now }
    else b

-- The end of rrlAllow: one token is taken if there is one.
unfoldable pub spend : Bytes → Bucket → Buckets → Bool × Buckets
spend key b m =
    if leb token b.tokens
    then (true, insert key (record b { tokens = b.tokens - token }) m)
    else (false, insert key b m)

abbrev or_new : ℕ → Bytes → Option Bucket → Buckets → Bool × Buckets
or_new now key (some b) m = spend key (refill now b) m
or_new now key none m =
    spend key (refill now (record { tokens = rrl_burst; last_seen = now })) (make_room now m)

-- rrlAllow; the flag is its result
unfoldable pub rrl_allow : ℕ → Bytes → Buckets → Bool × Buckets
unfolding spend refill
rrl_allow now key m = or_new now key (lookup key m) m
