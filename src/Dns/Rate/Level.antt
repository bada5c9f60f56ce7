-- ===== src/Dns/Rate/Level.antt =====
-- The tokens of a subnet in internal/dns/handler.go: what a query costs, and what time gives back.
use mathlib.Core.Path.{subst}
use lamund.Prelude.{
  ℕ, ◌+◌, ◌-◌, ◌*◌, ◌≤◌, ◌≡◌, refl, ◌∙◌, inl, inr, Bool, true, false, ◌&&◌, Option, none, some, [],
  ◌∷◌, arith, ltb, leb, if◌then◌else◌, Bool-cases, Option-cases, Bytes, beq, beq_sound, beq_refl,
  beq_iff, length, lookup, lookup-insert, IsDistinct, insert-IsDistinct,
}
use lamund.Dns.Rate.{
  spend, rrl_allow, token, Bucket, Buckets, rrl_rate, rrl_burst, rrl_max_buckets, idle, evict,
  make_room, refill,
}

-- The units that a subnet could spend at `now`; a subnet with no bucket has a full one.
abbrev level_of : ℕ → Option Bucket → ℕ
level_of now none = rrl_burst
level_of now (some b) = (refill now b).tokens

pub level : ℕ → Bytes → Buckets → ℕ
level now key m = level_of now (lookup key m)

abbrev IsGood : ℕ → Option Bucket → Type 0
IsGood now none = Unit
IsGood now (some b) = (b.tokens ≤ rrl_burst) × (b.last_seen ≤ now)

-- Buckets are never overfull nor from the future, and a subnet has one at most.
pub record IsWell (now : ℕ) (m : Buckets) : Type 0 where
  pub good : (key : Bytes) → IsGood now (lookup key m)
  pub distinct : IsDistinct m

level_of_up :
    (now now' : ℕ) (o : Option Bucket)
    → now ≤ now'
    → level_of now' o ≤ level_of now o + (now' - now) * rrl_rate
unfolding refill
level_of_up now now' none h = omega arith
level_of_up now now' (some b) h = ground arith

level_of-le-burst : (now : ℕ) (o : Option Bucket) → IsGood now o → level_of now o ≤ rrl_burst
unfolding refill
level_of-le-burst now none h = omega arith
level_of-le-burst now (some b) h = ground arith

refill-good :
    (now : ℕ) (b : Bucket)
    → IsGood now (some b)
    → ((refill now b).tokens ≤ rrl_burst) × ((refill now b).last_seen ≡ now)
unfolding refill
refill-good now b h = ground arith

abbrev kept : ℕ → Option Bucket → Option Bucket
kept now none = none
kept now (some b) = if ltb (b.last_seen + idle) now then none else some b

lookup-evict :
    (now : ℕ) (key : Bytes) (m : Buckets)
    → IsDistinct m
    → lookup key (evict now m) ≡ kept now (lookup key m)
unfolding evict lookup
lookup-evict now key [] d = refl
lookup-evict now key ((k, b) ∷ m) d = ground (arith, lookup-evict now key m d.1, beq_iff k key)

level_of-kept :
    (now : ℕ) (o : Option Bucket) → IsGood now o → level_of now (kept now o) ≡ level_of now o
unfolding refill
level_of-kept now none h = refl
level_of-kept now (some b) h = ground arith

evict-IsDistinct : (now : ℕ) (m : Buckets) → IsDistinct m → IsDistinct (evict now m)
unfolding evict
evict-IsDistinct now [] d = tt
evict-IsDistinct now ((k, b) ∷ m) d =
    ground (arith, evict-IsDistinct now m d.1, lookup-evict now k m d.1)

kept-IsGood : (now : ℕ) (o : Option Bucket) → IsGood now o → IsGood now (kept now o)
kept-IsGood now none h = tt
kept-IsGood now (some b) h = ground arith

make_room-IsWell : (now : ℕ) (m : Buckets) → IsWell now m → IsWell now (make_room now m)
unfolding make_room
make_room-IsWell now m w = elim (Bool-cases (leb rrl_max_buckets (length m))) [
  | inl full ↦ rw full (record {
    good =
        λ key. rw (lookup-evict now key m w.distinct) (kept-IsGood now (lookup key m) (w.good key));
    distinct = evict-IsDistinct now m w.distinct;
  })
  | inr free ↦ rw free w
]

level-make_room :
    (now : ℕ) (key : Bytes) (m : Buckets)
    → IsWell now m
    → level now key (make_room now m) ≡ level now key m
unfolding make_room level
level-make_room now key m w = elim (Bool-cases (leb rrl_max_buckets (length m))) [
  | inl full ↦
      rw full
        (rw (lookup-evict now key m w.distinct) (level_of-kept now (lookup key m) (w.good key)))
  | inr free ↦ rw free refl
]

abbrev pub cost : Bool → ℕ
cost true = token
cost false = 0

module _ (now : ℕ) (key : Bytes) (b : Bucket) (m : Buckets) where
  level-spend :
      b.last_seen ≡ now → level now key (spend key b m).1 + cost (spend key b m).0 ≡ b.tokens
  unfolding level spend refill
  level-spend h = ground (
    arith,
    beq_refl key,
    lookup-insert key key b m,
    lookup-insert key key (record b { tokens = b.tokens - token }) m,
  )

  level-spend_ne : (j : Bytes) → beq key j ≡ false → level now j (spend key b m).1 ≡ level now j m
  unfolding level spend
  level-spend_ne j h = ground (
    arith,
    lookup-insert key j b m,
    lookup-insert key j (record b { tokens = b.tokens - token }) m,
  )

  spend-IsWell :
      b.tokens ≤ rrl_burst → b.last_seen ≤ now → IsWell now m → IsWell now (spend key b m).1
  unfolding spend
  spend-IsWell t l w = record {
    good = λ j. ground (
      arith,
      w.good j,
      lookup-insert key j b m,
      lookup-insert key j (record b { tokens = b.tokens - token }) m,
    );
    distinct = ground (
      arith,
      insert-IsDistinct key b m w.distinct,
      insert-IsDistinct key (record b { tokens = b.tokens - token }) m w.distinct,
    );
  }

abbrev new_bucket : ℕ → Bucket
new_bucket now = record { tokens = rrl_burst; last_seen = now }

refill-new_bucket : (now : ℕ) → refill now (new_bucket now) ≡ new_bucket now
unfolding refill
refill-new_bucket now = ground arith

module _ (now : ℕ) (key : Bytes) (m : Buckets) (w : IsWell now m) where
  -- A query of the subnet costs a token if it is let through, and nothing otherwise.
  level-rrl_allow :
      level now key (rrl_allow now key m).1 + cost (rrl_allow now key m).0 ≡ level now key m
  unfolding rrl_allow level
  level-rrl_allow = elim (Option-cases (lookup key m)) [
    | inl absent ↦
        rw absent
          (rw (refill-new_bucket now) (level-spend now key (new_bucket now) (make_room now m) refl))
    | inr (b, found) ↦
        rw found
          (level-spend now key (refill now b) m (refill-good now b (rw found at (w.good key))).1)
  ]

  -- A query of another subnet costs nothing.
  level-rrl_allow_ne :
      (j : Bytes) → beq key j ≡ false → level now j (rrl_allow now key m).1 ≡ level now j m
  unfolding rrl_allow
  level-rrl_allow_ne j h = elim (Option-cases (lookup key m)) [
    | inl absent ↦ rw absent (
        level-spend_ne now key (refill now (new_bucket now)) (make_room now m) j h
        ∙ level-make_room now j m w)
    | inr (b, found) ↦ rw found (level-spend_ne now key (refill now b) m j h)
  ]

  pub rrl_allow-IsWell : IsWell now (rrl_allow now key m).1
  unfolding rrl_allow
  rrl_allow-IsWell = elim (Option-cases (lookup key m)) [
    | inl absent ↦ rw absent (
        rw (refill-new_bucket now) (
          spend-IsWell now key (new_bucket now) (make_room now m) (omega arith) (omega arith)
            (make_room-IsWell now m w)))
    | inr (b, found) ↦
        let (t, l) = refill-good now b (rw found at (w.good key)) in
        rw found (spend-IsWell now key (refill now b) m t (omega arith) w)
  ]

IsGood-up : (now now' : ℕ) (o : Option Bucket) → now ≤ now' → IsGood now o → IsGood now' o
IsGood-up now now' none h g = tt
IsGood-up now now' (some b) h g = omega arith

pub IsWell-up : (now now' : ℕ) (m : Buckets) → now ≤ now' → IsWell now m → IsWell now' m
IsWell-up now now' m h w = record {
  good = λ key. IsGood-up now now' (lookup key m) h (w.good key);
  distinct = w.distinct;
}

pub level_up :
    (now now' : ℕ) (key : Bytes) (m : Buckets)
    → now ≤ now'
    → level now' key m ≤ level now key m + (now' - now) * rrl_rate
unfolding level
level_up now now' key m h = level_of_up now now' (lookup key m) h

pub charge :
    (now : ℕ) (key : Bytes) (m : Buckets) (j : Bytes)
    → IsWell now m
    → level now j (rrl_allow now key m).1 + cost (beq key j && (rrl_allow now key m).0)
      ≡ level now j m
charge now key m j w = elim (Bool-cases (beq key j)) [
  | inl same ↦ rw same (
      subst
        (λ k. level now k (rrl_allow now key m).1 + cost (rrl_allow now key m).0 ≡ level now k m)
        (beq_sound key j same) (level-rrl_allow now key m w))
  | inr other ↦ rw other (omega (arith, level-rrl_allow_ne now key m w j other))
]

pub level-le-burst :
    (now : ℕ) (key : Bytes) (m : Buckets) → IsWell now m → level now key m ≤ rrl_burst
unfolding level
level-le-burst now key m w = level_of-le-burst now (lookup key m) (w.good key)
