-- ===== src/Quota/Counts.antt =====
-- The counting checks of internal/quota/quota.go.
use lamund.Prelude.{ℕ, ◌^◌, ◌≤◌, ◌<◌, ◌≡◌, ◌⊎◌, false, Option, arith, Bytes}
use lamund.Quota.Words.{int_lt_small}
use lamund.Quota.{
  by_count, Quota, read, Decision, allowed, denied, is_superadmin, limit_of, default_max_sites,
  default_max_apps, default_max_teams, can_create_site, can_create_app, can_create_team,
}

-- A default, or what the administrator has set above 0; then a user other than a superadmin may
-- create another of a kind exactly below the limit, and an unreadable store is an error.
abbrev pub Counts : (Quota → ℕ) → ℕ → Option Quota → ℕ → Decision → Type 0
Counts field default q n d =
    ((d ≡ allowed) × (n < limit_of field default q))
    ⊎ ((d ≡ denied (limit_of field default q)) × (limit_of field default q ≤ n))

by_count-Counts :
    (field : Quota → ℕ) (default : ℕ) (q : Option Quota) (n : ℕ)
    → n < 2 ^ 63
    → limit_of field default q < 2 ^ 63
    → Counts field default q n (by_count (limit_of field default q) (read n))
by_count-Counts field default q n small bound =
    rw (int_lt_small n (limit_of field default q) small bound) (ground arith)

-- For counts and limits below 2 ^ 63 the three checks compare the count with the limit.
pub can_create_lem :
    (role : Bytes) (q : Option Quota) (n : ℕ)
    → is_superadmin role ≡ false
    → n < 2 ^ 63
    → limit_of (λ k. k.max_sites) default_max_sites q < 2 ^ 63
    → limit_of (λ k. k.max_apps) default_max_apps q < 2 ^ 63
    → limit_of (λ k. k.max_teams) default_max_teams q < 2 ^ 63
    → Counts (λ k. k.max_sites) default_max_sites q n (can_create_site role (read q) (read n))
      × (Counts (λ k. k.max_apps) default_max_apps q n (can_create_app role (read q) (read n))
          × Counts
              (λ k. k.max_teams)
              default_max_teams
              q
              n
              (can_create_team role (read q) (read n)))
unfolding can_create_site can_create_app can_create_team
can_create_lem role q n plain small a b c = rw plain (
  by_count-Counts (λ k. k.max_sites) default_max_sites q n small a,
  (
    by_count-Counts (λ k. k.max_apps) default_max_apps q n small b,
    by_count-Counts (λ k. k.max_teams) default_max_teams q n small c,
  ),
)
