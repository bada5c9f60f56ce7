-- ===== src/Quota/Storage.antt =====
-- The storage check of internal/quota/quota.go in numbers of bytes.
use lamund.Prelude.{
  ℕ, ◌+◌, ◌*◌, ◌^◌, ◌≤◌, ◌<◌, ◌≡◌, refl, sym, ◌↔◌, ◌⊎◌, inl, inr, true, false, Option, none, some,
  arith, Bool-cases, Bytes, codes, beq_sound, beq_iff,
}
use lamund.Quota.Words.{int_lt_small, int_lt_negative, limit_bytes_small}
use lamund.Quota.{
  word, by_storage, Quota, read, allowed, is_superadmin, limit_of, default_max_storage_mb,
  can_use_storage,
}

checked :
    (role : Bytes) (q : Option Quota) (used added : ℕ)
    → is_superadmin role ≡ false
    → can_use_storage role (read q) used added ≡ by_storage used added (read q)
unfolding can_use_storage
checked role q used added plain = rw plain refl

unchecked :
    (role : Bytes) (q : Option Quota) (used added : ℕ)
    → is_superadmin role ≡ true
    → can_use_storage role (read q) used added ≡ allowed
unfolding can_use_storage
unchecked role q used added admin = rw admin refl

-- The megabytes that a user may hold: the quota's number if it is positive as a signed word, and
-- 100 where there is no quota or no positive number.
abbrev pub IsLimit : Option Quota → ℕ → Type 0
IsLimit none mb = mb ≡ 100
IsLimit (some k) mb =
    ((0 < k.max_storage_mb) × (k.max_storage_mb < 2 ^ 63) × (mb ≡ k.max_storage_mb))
    ⊎ (((k.max_storage_mb ≡ 0) ⊎ ((2 ^ 63 ≤ k.max_storage_mb) × (k.max_storage_mb < 2 ^ 64)))
        × (mb ≡ 100))

limit_of-IsLimit :
    (q : Option Quota) (mb : ℕ)
    → IsLimit q mb
    → limit_of (λ k. k.max_storage_mb) default_max_storage_mb q ≡ mb
limit_of-IsLimit none mb h = sym h
limit_of-IsLimit (some k) mb (inl (some_mb, signed, e)) =
    rw (int_lt_small 0 k.max_storage_mb (omega arith) signed) (ground (arith, some_mb, e))
limit_of-IsLimit (some k) mb (inr (inl nothing, e)) =
    rw (int_lt_small 0 k.max_storage_mb (omega arith) (omega arith)) (ground (arith, nothing, e))
limit_of-IsLimit (some k) mb (inr (inr (high, word_max), e)) =
    rw (int_lt_negative 0 k.max_storage_mb (omega arith) high word_max) (sym e)

-- Where the sum of the bytes stays below 2 ^ 63 and the limit below 2 ^ 43 megabytes, storage is
-- granted exactly to a superadmin and to whoever stays within the limit of megabytes.
pub can_use_storage_iff :
    (role : Bytes) (q : Option Quota) (used added mb : ℕ)
    → IsLimit q mb
    → used + added < 2 ^ 63
    → mb < 2 ^ 43
    → (can_use_storage role (read q) used added ≡ allowed)
      ↔ ((role ≡ codes "superadmin") ⊎ (used + added ≤ mb * 1048576))
can_use_storage_iff role q used added mb limit sum small =
    let plain_sum : word (used + added) ≡ used + added = omega arith in
    elim (Bool-cases (is_superadmin role)) [
      | inl admin ↦
          rw (unchecked role q used added admin)
            ((λ _. inl (beq_sound role (codes "superadmin") admin)), (λ _. refl))
      | inr plain ↦
          rw
            (
              checked role q used added plain,
              plain_sum,
              limit_of-IsLimit q mb limit,
              limit_bytes_small mb small,
              int_lt_small (mb * 1048576) (used + added) (omega arith) sum,
            )
            (ground (arith, beq_iff role (codes "superadmin"), plain))
    ]

-- A sum from 2 ^ 63 on is negative for the test, and is granted whatever the limit.
pub can_use_storage_wraps :
    (role : Bytes) (q : Option Quota) (used added : ℕ)
    → used < 2 ^ 63
    → added < 2 ^ 63
    → 2 ^ 63 ≤ used + added
    → limit_of (λ k. k.max_storage_mb) default_max_storage_mb q < 2 ^ 43
    → can_use_storage role (read q) used added ≡ allowed
can_use_storage_wraps role q used added h k wraps small =
    let mb = limit_of (λ k. k.max_storage_mb) default_max_storage_mb q in
    let plain_sum : word (used + added) ≡ used + added = omega arith in
    elim (Bool-cases (is_superadmin role)) [
      | inl admin ↦ unchecked role q used added admin
      | inr plain ↦
          rw
            (
              checked role q used added plain,
              plain_sum,
              limit_bytes_small mb small,
              int_lt_negative (mb * 1048576) (used + added) (omega arith) wraps (omega arith),
            )
            refl
    ]
