-- ===== src/Search/Scripts.antt =====
-- Edit scripts: what the distance of internal/api/usersearch.go counts.
use mathlib.Core.List.{reverse, reverse_aux, reverse-reverse}
use mathlib.Core.Path.{subst}
use lamund.Prelude.{
  ℕ, ◌+◌, ◌≤◌, ◌≡◌, ◌∙◌, ◌⊎◌, inl, inr, [], ◌∷◌, arith, ◌==◌, Bool-cases, Bytes, length,
}
use lamund.Search.{min3, cost, levenshtein}
use lamund.Search.Distance.{dist, dist-nil, levenshtein-dist}

-- The ways to turn the first text into the second, a code point at a time.
pub data Script : Bytes → Bytes → Type 0 where
  done : Script [] []
  keep : {c : ℕ} {s t : Bytes} → Script s t → Script (c ∷ s) (c ∷ t)
  replace : {c d : ℕ} {s t : Bytes} → Script s t → Script (c ∷ s) (d ∷ t)
  insert : {d : ℕ} {s t : Bytes} → Script s t → Script s (d ∷ t)
  remove : {c : ℕ} {s t : Bytes} → Script s t → Script (c ∷ s) t

-- The number of edits.
unfoldable pub size : {s t : Bytes} → Script s t → ℕ
size done = 0
size (keep p) = size p
size (replace p) = size p + 1
size (insert p) = size p + 1
size (remove p) = size p + 1

unfoldable backwards :
    {s t u v : Bytes} → Script s t → Script u v → Script (reverse_aux s u) (reverse_aux t v)
backwards done q = q
backwards (keep p) q = backwards p (keep q)
backwards (replace p) q = backwards p (replace q)
backwards (insert p) q = backwards p (insert q)
backwards (remove p) q = backwards p (remove q)

size-backwards :
    {s t u v : Bytes} (p : Script s t) (q : Script u v) → size (backwards p q) ≡ size p + size q
unfolding size backwards
size-backwards done q = omega arith
size-backwards (keep p) q = size-backwards p (keep q)
size-backwards (replace p) q = size-backwards p (replace q) ∙ omega arith
size-backwards (insert p) q = size-backwards p (insert q) ∙ omega arith
size-backwards (remove p) q = size-backwards p (remove q) ∙ omega arith

-- A script of at most n edits.
abbrev pub Within : ℕ → Bytes → Bytes → Type 0
Within n s t = (p : Script s t) × (size p ≤ n)

all_inserted : (ys : Bytes) → Within (length ys) [] ys
unfolding size
all_inserted [] = (done, omega arith)
all_inserted (y ∷ ys) = let (p, h) = all_inserted ys in (insert p, omega arith)

all_removed : (xs : Bytes) → Within (length xs) xs []
unfolding size
all_removed [] = (done, omega arith)
all_removed (x ∷ xs) = let (p, h) = all_removed xs in (remove p, omega arith)

min3-cases : (a b c : ℕ) → ((min3 a b c ≡ a) ⊎ ((min3 a b c ≡ b) ⊎ (min3 a b c ≡ c)))
unfolding min3
min3-cases a b c = ground arith

min3_le : (a b c : ℕ) → (min3 a b c ≤ a) × ((min3 a b c ≤ b) × (min3 a b c ≤ c))
unfolding min3
min3_le a b c = (ground arith, (ground arith, ground arith))

changed : (x y : ℕ) {s t : Bytes} (n : ℕ) → Within n s t → Within (n + cost x y) (x ∷ s) (y ∷ t)
unfolding size
changed x y {s} {t} n (p, h) = elim (Bool-cases (x == y)) [
  | inl same ↦
      let e : x ≡ y = grind arith in
      subst (λ d. Within (n + cost x y) (x ∷ s) (d ∷ t)) e (keep p, omega arith)
  | inr other ↦ (replace p, ground arith)
]

dist-Within : (xs ys : Bytes) → Within (dist xs ys) xs ys
unfolding dist size
dist-Within [] ys = all_inserted ys
dist-Within (x ∷ xs) [] = all_removed (x ∷ xs)
dist-Within (x ∷ xs) (y ∷ ys) =
    elim (min3-cases (dist (x ∷ xs) ys + 1) (dist xs (y ∷ ys) + 1) (dist xs ys + cost x y)) [
      | inl e ↦ rw e (let (p, h) = dist-Within (x ∷ xs) ys in (insert p, omega arith))
      | inr (inl e) ↦ rw e (let (p, h) = dist-Within xs (y ∷ ys) in (remove p, omega arith))
      | inr (inr e) ↦ rw e (changed x y (dist xs ys) (dist-Within xs ys))
    ]

dist-same : (c : ℕ) (s t : Bytes) → dist (c ∷ s) (c ∷ t) ≤ dist s t
unfolding dist
dist-same c s t =
    let (_, (_, h)) = min3_le (dist (c ∷ s) t + 1) (dist s (c ∷ t) + 1) (dist s t + cost c c) in
    ground (arith, h)

dist-other : (c d : ℕ) (s t : Bytes) → dist (c ∷ s) (d ∷ t) ≤ dist s t + 1
unfolding dist
dist-other c d s t =
    let (_, (_, h)) = min3_le (dist (c ∷ s) t + 1) (dist s (d ∷ t) + 1) (dist s t + cost c d) in
    ground (arith, h)

dist-insert : (d : ℕ) (s t : Bytes) → dist s (d ∷ t) ≤ dist s t + 1
unfolding dist
dist-insert d [] t = omega arith
dist-insert d (c ∷ s) t =
    let (h, _) = min3_le (dist (c ∷ s) t + 1) (dist s (d ∷ t) + 1) (dist s t + cost c d) in h

dist-remove : (c : ℕ) (s t : Bytes) → dist (c ∷ s) t ≤ dist s t + 1
unfolding dist
dist-remove c s [] = rw (dist-nil s) (omega arith)
dist-remove c s (d ∷ t) =
    let (_, (h, _)) = min3_le (dist (c ∷ s) t + 1) (dist s (d ∷ t) + 1) (dist s t + cost c d) in h

dist_le : {s t : Bytes} (p : Script s t) → dist s t ≤ size p
unfolding size dist
dist_le done = omega arith
dist_le (keep p) = omega (arith, dist-same _ _ _, dist_le p)
dist_le (replace p) = omega (arith, dist-other _ _ _ _, dist_le p)
dist_le (insert p) = omega (arith, dist-insert _ _ _, dist_le p)
dist_le (remove p) = omega (arith, dist-remove _ _ _, dist_le p)

-- No way to turn one text into the other takes fewer edits than `levenshtein` returns.
pub levenshtein_least : (s t : Bytes) (p : Script s t) → levenshtein s t ≤ size p
unfolding size
levenshtein_least s t p =
    let q = backwards p done in
    let e : size q ≡ size p + 0 = size-backwards p done in
    let le = dist_le q in rw (levenshtein-dist s t) (omega arith)

-- Some script has no more edits than `levenshtein` returns.
levenshtein_reached : (s t : Bytes) → Within (levenshtein s t) s t
unfolding size
levenshtein_reached s t =
    let (p, h) = dist-Within (reverse s) (reverse t) in
    let e : size (backwards p done) ≡ size p + 0 = size-backwards p done in
    let back : Within (levenshtein s t) (reverse (reverse s)) (reverse (reverse t)) =
      (backwards p done, rw (levenshtein-dist s t) (omega arith)) in
    subst (λ x. Within (levenshtein s t) x t) (reverse-reverse s)
      (subst (λ y. Within (levenshtein s t) _ y) (reverse-reverse t) back)

pub size-levenshtein : (s t : Bytes) → (p : Script s t) × (size p ≡ levenshtein s t)
size-levenshtein s t =
    let (p, h) = levenshtein_reached s t in let k = levenshtein_least s t p in (p, omega arith)

-- `levenshtein` returns the edit distance: some way to turn the one text into the other by keeping,
-- replacing, inserting and removing code points takes exactly so many edits, and no way takes fewer.
pub levenshtein_lem :
    (s t : Bytes) (q : Script s t)
    → ((p : Script s t) × (size p ≡ levenshtein s t)) × (levenshtein s t ≤ size q)
levenshtein_lem s t q = (size-levenshtein s t, levenshtein_least s t q)
