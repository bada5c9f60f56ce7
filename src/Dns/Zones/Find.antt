-- ===== src/Dns/Zones/Find.antt =====
-- Zones.Find of internal/dns/zones.go finds the longest hosted suffix of a name.
use mathlib.Core.Path.{subst}
use lamund.Prelude.{
  ℕ, zero, suc, ◌≤◌, ◌<◌, ◌≡◌, refl, sym, ◌⊎◌, inl, inr, Option, none, some, [], ◌∷◌, ◌++◌,
  append_assoc, arith, ◌==◌, Bool-cases, Option-cases, Bytes, length, length-append, lookup,
}
use lamund.Dns.Zones.{Zone, Snapshot, after_dot, find_from, find_zone}

-- `s` is the name, or what stands behind one of its dots.
abbrev pub IsSuffix : Bytes → Bytes → Type 0
IsSuffix name s = (name ≡ s) ⊎ ((p : Bytes) × (name ≡ p ++ b'.' ∷ s))

length-after_dot : (name rest : Bytes) → after_dot name ≡ some rest → length rest < length name
unfolding after_dot
length-after_dot [] rest h = cc
length-after_dot (c ∷ []) rest h = cc
length-after_dot (c ∷ d ∷ s) rest h = ground (arith, length-after_dot (d ∷ s) rest)

suffix_of_rest :
    (name rest : Bytes) → after_dot name ≡ some rest → (p : Bytes) × (name ≡ p ++ b'.' ∷ rest)
unfolding after_dot
suffix_of_rest [] rest h = cc
suffix_of_rest (c ∷ []) rest h = cc
suffix_of_rest (c ∷ d ∷ s) rest h = elim (Bool-cases (c == b'.')) [
  | inl dot ↦ ([], ground arith)
  | inr other ↦ let (p, e) = suffix_of_rest (d ∷ s) rest (rw other at h) in (c ∷ p, cc)
]

-- Every nonempty suffix is the name itself or a suffix of what stands behind the first dot.
suffix_split :
    (d : ℕ) (s p : Bytes)
    → (rest : Bytes) × (after_dot (p ++ b'.' ∷ d ∷ s) ≡ some rest) × IsSuffix rest (d ∷ s)
unfolding after_dot
suffix_split d s [] = (d ∷ s, refl, inl refl)
suffix_split d s (c ∷ []) = elim (Bool-cases (c == b'.')) [
  | inl dot ↦ (b'.' ∷ d ∷ s, rw dot, inr ([], refl))
  | inr other ↦ (d ∷ s, rw other, inl refl)
]
suffix_split d s (c ∷ q ∷ p) = elim (Bool-cases (c == b'.')) [
  | inl dot ↦ (q ∷ (p ++ b'.' ∷ d ∷ s), rw dot, inr (q ∷ p, refl))
  | inr other ↦ let (rest, e, k) = suffix_split d s (q ∷ p) in (rest, rw other e, k)
]

-- The longest suffix that is hosted is the zone; without one there is none.
abbrev pub IsLongest : Snapshot → Bytes → Option Zone → Type 0
IsLongest snap name none = (d : ℕ) (s : Bytes) → IsSuffix name (d ∷ s) → lookup (d ∷ s) snap ≡ none
IsLongest snap name (some z) =
    (t : Bytes) × IsSuffix name t
    × (lookup t snap ≡ some z)
    × ((d : ℕ) (s : Bytes)
        → IsSuffix name (d ∷ s)
        → length t < length (d ∷ s)
        → lookup (d ∷ s) snap ≡ none)

suffix_trans :
    (name rest s : Bytes) (p : Bytes) → name ≡ p ++ b'.' ∷ rest → IsSuffix rest s → IsSuffix name s
suffix_trans name rest s p e (inl same) = inr (p, rw (← same) e)
suffix_trans name rest s p e (inr (q, k)) =
    inr (p ++ b'.' ∷ q, rw (e, k) (sym (append_assoc p (b'.' ∷ q) (b'.' ∷ s))))

-- A suffix of a name without hosts at itself lies behind the first dot.
lookup_behind :
    (snap : Snapshot) (name rest : Bytes) (d : ℕ) (s : Bytes)
    → lookup name snap ≡ none
    → after_dot name ≡ some rest
    → IsSuffix name (d ∷ s)
    → (lookup (d ∷ s) snap ≡ none) ⊎ IsSuffix rest (d ∷ s)
lookup_behind snap name rest d s missing next (inl same) = inl (rw (← same) missing)
lookup_behind snap name rest d s missing next (inr (p, e)) =
    let (rest', next', k) = suffix_split d s p in
    let same : rest' ≡ rest = cc (e, next', next) in inr (subst (λ x. IsSuffix x (d ∷ s)) same k)

lookup-none :
    (snap : Snapshot) (name : Bytes) (d : ℕ) (s : Bytes)
    → lookup name snap ≡ none
    → after_dot name ≡ none
    → IsSuffix name (d ∷ s)
    → lookup (d ∷ s) snap ≡ none
lookup-none snap name d s missing last (inl same) = rw (← same) missing
lookup-none snap name d s missing last (inr (p, e)) =
    let (rest', next', k) = suffix_split d s p in cc (next', e, last)

length-suffix : (name s : Bytes) → IsSuffix name s → length s ≤ length name
length-suffix name s (inl same) = rw same (omega arith)
length-suffix name s (inr (p, e)) = rw e (omega (arith, length-append p (b'.' ∷ s)))

-- What holds behind the first dot holds of a name that is not hosted itself.
IsLongest-behind :
    (snap : Snapshot) (name rest : Bytes) (o : Option Zone)
    → lookup name snap ≡ none
    → after_dot name ≡ some rest
    → IsLongest snap rest o
    → IsLongest snap name o
IsLongest-behind snap name rest none missing next h =
    λ d s k. elim (lookup_behind snap name rest d s missing next k) [ inl q ↦ q | inr j ↦ h d s j ]
IsLongest-behind snap name rest (some z) missing next (t, k, hosted, h) =
    let (p, e) = suffix_of_rest name rest next in
    (
      t,
      suffix_trans name rest t p e k,
      hosted,
      λ d s j longer. elim (lookup_behind snap name rest d s missing next j) [
        | inl q ↦ q
        | inr i ↦ h d s i longer
      ],
    )

find_from-hit :
    (fuel : ℕ) (snap : Snapshot) (name : Bytes) (z : Zone)
    → lookup name snap ≡ some z
    → find_from (suc fuel) snap name ≡ some z
unfolding find_from
find_from-hit fuel snap name z h = ground arith

find_from-last :
    (fuel : ℕ) (snap : Snapshot) (name : Bytes)
    → lookup name snap ≡ none
    → after_dot name ≡ none
    → find_from (suc fuel) snap name ≡ none
unfolding find_from
find_from-last fuel snap name h k = ground arith

find_from-next :
    (fuel : ℕ) (snap : Snapshot) (name rest : Bytes)
    → lookup name snap ≡ none
    → after_dot name ≡ some rest
    → find_from (suc fuel) snap name ≡ find_from fuel snap rest
unfolding find_from
find_from-next fuel snap name rest h k = ground arith

find_from-IsLongest :
    (fuel : ℕ) (snap : Snapshot) (name : Bytes)
    → length name < fuel
    → IsLongest snap name (find_from fuel snap name)
find_from-IsLongest zero snap name h = absurd (omega arith)
find_from-IsLongest (suc fuel) snap name h = elim (Option-cases (lookup name snap)) [
  | inr (z, hosted) ↦
      subst (IsLongest snap name) (sym (find_from-hit fuel snap name z hosted)) (
        name,
        inl refl,
        hosted,
        λ d s k longer. absurd (omega (arith, length-suffix name (d ∷ s) k)),
      )
  | inl missing ↦ elim (Option-cases (after_dot name)) [
    | inl last ↦
        subst (IsLongest snap name) (sym (find_from-last fuel snap name missing last))
          (λ d s k. lookup-none snap name d s missing last k)
    | inr (rest, next) ↦
        subst (IsLongest snap name) (sym (find_from-next fuel snap name rest missing next)) (
          IsLongest-behind snap name rest _ missing next
            (find_from-IsLongest fuel snap rest (omega (arith, length-after_dot name rest next))))
  ]
]

-- The zone of a name is the hosted suffix with the most labels. There is none exactly if no suffix
-- behind a dot, nor the name, is hosted.
pub find_zone-IsLongest :
    (snap : Snapshot) (name : Bytes) → IsLongest snap name (find_zone snap name)
unfolding find_zone
find_zone-IsLongest snap name = find_from-IsLongest (suc (length name)) snap name (omega arith)
