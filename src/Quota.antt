-- ===== src/Quota.antt =====
-- internal/quota/quota.go: the limits of a user. An int and an int64 is a word of 64 bits, a number
-- below 2 ^ 64 that stands for a negative one from 2 ^ 63 on. What the store answers is an argument.
pub mod Words
pub mod Storage
pub mod Counts
use lamund.Prelude.{
  ℕ, ◌+◌, ◌*◌, ◌%◌, ◌^◌, Bool, Option, none, some, ltb, if◌then◌else◌, Bytes, codes, beq,
}

pub record Quota : Type 0 where
  pub max_sites : ℕ
  pub max_storage_mb : ℕ
  pub max_teams : ℕ
  pub max_memory_mb : ℕ
  pub max_cpu_percent : ℕ
  pub max_apps : ℕ

-- The answer of a query of the store.
pub data Read (A : Type 0) : Type 0 where
  failed : Read A
  read : A → Read A

-- The results of the checks, without the text of the reason, which tells the limit.
pub data Decision : Type 0 where
  allowed errored : Decision
  denied : ℕ → Decision

abbrev pub default_max_sites : ℕ
default_max_sites = 1

abbrev pub default_max_storage_mb : ℕ
default_max_storage_mb = 100

abbrev pub default_max_teams : ℕ
default_max_teams = 3

abbrev pub default_max_memory_mb : ℕ
default_max_memory_mb = 512

abbrev pub default_max_cpu_percent : ℕ
default_max_cpu_percent = 50

abbrev pub default_max_pids : ℕ
default_max_pids = 256

abbrev pub default_max_apps : ℕ
default_max_apps = 3

abbrev pub word : ℕ → ℕ
word n = n % 2 ^ 64

-- a < b of two words
unfoldable pub int_lt : ℕ → ℕ → Bool
int_lt a b = ltb ((a + 2 ^ 63) % 2 ^ 64) ((b + 2 ^ 63) % 2 ^ 64)

abbrev pub is_superadmin : Bytes → Bool
is_superadmin role = beq role (codes "superadmin")

-- the field of the quota if it is positive, or the default
abbrev pub limit_of : (Quota → ℕ) → ℕ → Option Quota → ℕ
limit_of field default none = default
limit_of field default (some q) = if int_lt 0 (field q) then field q else default

abbrev pub by_count : ℕ → Read ℕ → Decision
by_count limit failed = errored
by_count limit (read n) = if int_lt n limit then allowed else denied limit

abbrev pub by_quota : (Quota → ℕ) → ℕ → Read (Option Quota) → Read ℕ → Decision
by_quota field default failed count = errored
by_quota field default (read q) count = by_count (limit_of field default q) count

unfoldable pub can_create_app : Bytes → Read (Option Quota) → Read ℕ → Decision
unfolding int_lt
can_create_app role quota count =
    if is_superadmin role then allowed else by_quota (λ q. q.max_apps) default_max_apps quota count

unfoldable pub can_create_site : Bytes → Read (Option Quota) → Read ℕ → Decision
unfolding int_lt
can_create_site role quota count =
    if is_superadmin role
    then allowed
    else by_quota (λ q. q.max_sites) default_max_sites quota count

unfoldable pub can_create_team : Bytes → Read (Option Quota) → Read ℕ → Decision
unfolding int_lt
can_create_team role quota count =
    if is_superadmin role
    then allowed
    else by_quota (λ q. q.max_teams) default_max_teams quota count

-- int64(limitMB) * 1024 * 1024
unfoldable pub limit_bytes : ℕ → ℕ
limit_bytes mb = word (word (mb * 1024) * 1024)

abbrev bytes_of : Read (Option Quota) → Read ℕ
bytes_of failed = failed
bytes_of (read q) = read (limit_bytes (limit_of (λ q. q.max_storage_mb) default_max_storage_mb q))

-- 0 is no limit
unfoldable pub storage_limit_bytes : Bytes → Read (Option Quota) → Read ℕ
storage_limit_bytes role quota = if is_superadmin role then read 0 else bytes_of quota

abbrev pub by_storage : ℕ → ℕ → Read (Option Quota) → Decision
by_storage used added failed = errored
by_storage used added (read q) =
    let mb = limit_of (λ q. q.max_storage_mb) default_max_storage_mb q in
    if int_lt (limit_bytes mb) (word (used + added)) then denied mb else allowed

unfoldable pub can_use_storage : Bytes → Read (Option Quota) → ℕ → ℕ → Decision
unfolding int_lt limit_bytes
can_use_storage role quota used added =
    if is_superadmin role then allowed else by_storage used added quota

-- The limits of an app: memory, share of the processor, and processes. `admin` is whether the user
-- was read and is a superadmin; 0 is no limit.
abbrev app_limits_of : Read (Option Quota) → ℕ × ℕ × ℕ
app_limits_of failed = (default_max_memory_mb, default_max_cpu_percent, default_max_pids)
app_limits_of (read q) = (
  limit_of (λ q. q.max_memory_mb) default_max_memory_mb q,
  limit_of (λ q. q.max_cpu_percent) default_max_cpu_percent q,
  default_max_pids,
)

unfoldable pub app_limits : Bool → Read (Option Quota) → ℕ × ℕ × ℕ
unfolding int_lt
app_limits admin quota = if admin then (0, 0, 0) else app_limits_of quota
