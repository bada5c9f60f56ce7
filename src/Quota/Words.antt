-- ===== src/Quota/Words.antt =====
-- Words of 64 bits in internal/quota/quota.go, below the sign bit.
use lamund.Prelude.{ℕ, ◌*◌, ◌^◌, ◌≤◌, ◌<◌, ◌≡◌, false, arith, ltb}
use lamund.Quota.{int_lt, limit_bytes}

pub int_lt_small : (a b : ℕ) → a < 2 ^ 63 → b < 2 ^ 63 → int_lt a b ≡ ltb a b
unfolding int_lt
int_lt_small a b h k = ground arith

pub int_lt_negative : (a b : ℕ) → a < 2 ^ 63 → 2 ^ 63 ≤ b → b < 2 ^ 64 → int_lt a b ≡ false
unfolding int_lt
int_lt_negative a b h k l = ground arith

pub limit_bytes_small : (mb : ℕ) → mb < 2 ^ 43 → limit_bytes mb ≡ mb * 1048576
unfolding limit_bytes
limit_bytes_small mb h = omega arith
