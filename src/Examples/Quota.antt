-- ===== src/Examples/Quota.antt =====
-- Quotas of internal/quota/quota.go.
use lamund.Prelude.{
  ◌+◌, ◌*◌, ◌^◌, ◌≤◌, ◌<◌, ◌≡◌, refl, ◌↔◌, ◌⊎◌, inl, inr, false, none, some, arith, Bytes, codes,
  beq,
}
use lamund.Quota.{
  limit_bytes, Quota, read, allowed, denied, errored, failed, limit_of, default_max_sites,
  can_use_storage, can_create_site, can_create_app, app_limits, storage_limit_bytes,
}
use lamund.Quota.Storage.{can_use_storage_iff}

abbrev member : Bytes
member = codes "member"

abbrev two_sites : Quota
two_sites = record {
  max_sites = 2;
  max_storage_mb = 0;
  max_teams = 0;
  max_memory_mb = 0;
  max_cpu_percent = 0;
  max_apps = 0;
}

second_site : can_create_site member (read (some two_sites)) (read 1) ≡ allowed
unfolding can_create_site beq
second_site = refl

third_site : can_create_site member (read (some two_sites)) (read 2) ≡ denied 2
unfolding can_create_site beq
third_site = refl

unread : can_create_app member failed (read 0) ≡ errored
unfolding can_create_app beq
unread = refl

free_limits : app_limits false (read (some two_sites)) ≡ (512, 50, 256)
unfolding app_limits
free_limits = refl

free_bytes : storage_limit_bytes member (read none) ≡ read 104857600
unfolding storage_limit_bytes beq limit_bytes
free_bytes = refl

two_sites_limit : limit_of (λ k. k.max_sites) default_max_sites (some two_sites) < 2 ^ 63
two_sites_limit = ground arith

can_use_storage_iff_example :
    (can_use_storage member (read (some two_sites)) 104857599 1 ≡ allowed)
    ↔ ((member ≡ codes "superadmin") ⊎ (104857599 + 1 ≤ 100 * 1048576))
can_use_storage_iff_example =
    can_use_storage_iff member (some two_sites) 104857599 1 100 (inr (inl refl, refl)) (omega arith)
      (omega arith)

-- A stored limit of 2 megabytes.
abbrev small_quota : Quota
small_quota = record two_sites { max_storage_mb = 2 }

over_small : can_use_storage member (read (some small_quota)) 2097152 1 ≡ denied 2
unfolding can_use_storage beq
over_small = refl
