-- ===== src/Search/Distance.antt =====
-- The rows of internal/api/usersearch.go hold the distances of the prefixes.
use mathlib.Core.List.{reverse, reverse_aux}
use lamund.Prelude.{ℕ, suc, ◌+◌, ◌≡◌, refl, ap, ◌∙◌, List, [], ◌∷◌, arith, Bytes, length}
use lamund.Search.{min3, cost, next_row, rows, first_row, last, levenshtein}

-- The distance by recursion from the heads.
unfoldable pub dist : Bytes → Bytes → ℕ
dist [] ys = length ys
dist (x ∷ xs) [] = suc (length xs)
dist (x ∷ xs) (y ∷ ys) = min3 (dist (x ∷ xs) ys + 1) (dist xs (y ∷ ys) + 1) (dist xs ys + cost x y)

-- The distances to the prefixes of b, behind the first, where `ys` is the part that has been read.
rest_of : Bytes → Bytes → Bytes → List ℕ
rest_of xs ys [] = []
rest_of xs ys (y ∷ b) = dist xs (y ∷ ys) ∷ rest_of xs (y ∷ ys) b

next_row-rest_of :
    (x : ℕ) (xs ys b : Bytes)
    → next_row x b (dist xs ys ∷ rest_of xs ys b) (dist (x ∷ xs) ys) ≡ rest_of (x ∷ xs) ys b
unfolding next_row rest_of dist
next_row-rest_of x xs ys [] = refl
next_row-rest_of x xs ys (y ∷ b) =
    ap (λ l. dist (x ∷ xs) (y ∷ ys) ∷ l) (next_row-rest_of x xs (y ∷ ys) b)

first_row-rest_of : (ys b : Bytes) → first_row (length ys) b ≡ length ys ∷ rest_of [] ys b
unfolding first_row rest_of dist
first_row-rest_of ys [] = refl
first_row-rest_of ys (y ∷ b) =
    let e : length ys + 1 ≡ suc (length ys) = omega arith in
    rw e (ap (λ l. length ys ∷ l) (first_row-rest_of (y ∷ ys) b))

pub dist-nil : (xs : Bytes) → dist xs [] ≡ length xs
unfolding dist
dist-nil [] = refl
dist-nil (x ∷ xs) = refl

rows-rest_of :
    (a xs b : Bytes)
    → rows a b (length xs) (dist xs [] ∷ rest_of xs [] b)
      ≡ dist (reverse_aux a xs) [] ∷ rest_of (reverse_aux a xs) [] b
unfolding rows dist
rows-rest_of [] xs b = refl
rows-rest_of (x ∷ a) xs b =
    let e : length xs + 1 ≡ suc (length xs) = omega arith in
    rw (e, next_row-rest_of x xs [] b) (rows-rest_of a (x ∷ xs) b)

last-rest_of :
    (d : ℕ) (xs ys b : Bytes) → last d (dist xs ys ∷ rest_of xs ys b) ≡ dist xs (reverse_aux b ys)
unfolding last rest_of
last-rest_of d xs ys [] = refl
last-rest_of d xs ys (y ∷ b) = last-rest_of (dist xs ys) xs (y ∷ ys) b

length-reverse_aux : (l m : Bytes) → length (reverse_aux l m) ≡ length l + length m
length-reverse_aux [] m = omega arith
length-reverse_aux (x ∷ l) m = length-reverse_aux l (x ∷ m) ∙ omega arith

length-reverse : (l : Bytes) → length (reverse l) ≡ length l
length-reverse l = length-reverse_aux l [] ∙ omega arith

levenshtein-cons :
    (x : ℕ) (a : Bytes) (y : ℕ) (b : Bytes)
    → levenshtein (x ∷ a) (y ∷ b)
      ≡ last 0 (rows (x ∷ a) (y ∷ b) 0 (first_row (length {A = ℕ} []) (y ∷ b)))
unfolding levenshtein
levenshtein-cons x a y b = ground arith

pub levenshtein-dist : (a b : Bytes) → levenshtein a b ≡ dist (reverse a) (reverse b)
unfolding levenshtein dist
levenshtein-dist [] b = rw (length-reverse b) refl
levenshtein-dist (x ∷ a) [] =
    let size = dist-nil (reverse (x ∷ a)) ∙ length-reverse (x ∷ a) in rw size (ground arith)
levenshtein-dist (x ∷ a) (y ∷ b) =
    let start = first_row-rest_of [] (y ∷ b) in
    let filled = rows-rest_of (x ∷ a) [] (y ∷ b) in
    levenshtein-cons x a y b
    ∙ ap (λ r. last 0 (rows (x ∷ a) (y ∷ b) 0 r)) start
    ∙ ap (last 0) filled
    ∙ last-rest_of 0 (reverse (x ∷ a)) [] (y ∷ b)
