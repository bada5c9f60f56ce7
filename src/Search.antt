-- ===== src/Search.antt =====
-- internal/api/usersearch.go: the edit distance and the ranking of user names. A text is the list
-- of its code points; the edit distance counts those, len and Index count bytes.
pub mod Distance
pub mod Scripts
pub mod Order
pub mod Rank
pub mod Ranking
use lamund.Prelude.{
  ℕ, ◌+◌, Bool, true, false, not, ◌&&◌, Option, none, some, List, [], ◌∷◌, ltb, leb, ◌==◌,
  if◌then◌else◌, Bytes, beq, has_prefix, contains, length, take, lower,
}

unfoldable pub min3 : ℕ → ℕ → ℕ → ℕ
min3 a b c = let m = if ltb b a then b else a in if ltb c m then c else m

abbrev pub cost : ℕ → ℕ → ℕ
cost x y = if x == y then 0 else 1

-- The inner loop: `prev` from column j - 1 on, and cur[j-1]; the result is cur from column j on.
unfoldable pub next_row : ℕ → Bytes → List ℕ → ℕ → List ℕ
unfolding min3
next_row x (y ∷ ys) (p ∷ p' ∷ prev) left =
    let v = min3 (left + 1) (p' + 1) (p + cost x y) in v ∷ next_row x ys (p' ∷ prev) v
next_row x _ _ left = []

-- The outer loop, with i - 1 and the row `prev`.
unfoldable pub rows : Bytes → Bytes → ℕ → List ℕ → List ℕ
unfolding next_row
rows [] b i prev = prev
rows (x ∷ a) b i prev = rows a b (i + 1) ((i + 1) ∷ next_row x b prev (i + 1))

-- prev[j] = j
unfoldable pub first_row : ℕ → Bytes → List ℕ
first_row j [] = j ∷ []
first_row j (y ∷ b) = j ∷ first_row (j + 1) b

unfoldable pub last : ℕ → List ℕ → ℕ
last d [] = d
last d (x ∷ l) = last x l

unfoldable pub levenshtein : Bytes → Bytes → ℕ
unfolding rows first_row last
levenshtein a b =
    if length a == 0
    then length b
    else if length b == 0
    then length a
    else last 0 (rows a b 0 (first_row 0 b))

pub record UserLite : Type 0 where
  pub username : Bytes
  pub name : Bytes

pub record ScoredUser : Type 0 where
  pub user : UserLite
  pub rank : ℕ
  pub tie : ℕ

-- The number of bytes of a code point, and len(s)
unfoldable pub width : ℕ → ℕ
width c = if ltb c 128 then 1 else if ltb c 2048 then 2 else if ltb c 65536 then 3 else 4

unfoldable pub byte_length : Bytes → ℕ
unfolding width
byte_length [] = 0
byte_length (c ∷ s) = width c + byte_length s

-- strings.Index(s, p), of a text that holds p
unfoldable pub index : Bytes → Bytes → ℕ
unfolding has_prefix width
index [] p = 0
index (c ∷ s) p = let later = width c + index s p in if has_prefix (c ∷ s) p then 0 else later

-- The switch of rankUserMatches; `none` is `continue`.
unfoldable pub score : Bytes → UserLite → Option (ℕ × ℕ)
unfolding beq has_prefix contains index levenshtein lower byte_length
score q c =
    let u = lower c.username in
    let n = lower c.name in
    let d = levenshtein u q in
    if beq u q
    then some (0, 0)
    else if has_prefix u q
    then some (1, byte_length u)
    else if contains u q
    then some (2, index u q)
    else if leb d 2
    then some (3, d)
    else if contains n q
    then some (4, 0)
    else none

abbrev pub push_scored : UserLite → Option (ℕ × ℕ) → List ScoredUser → List ScoredUser
push_scored c none rest = rest
push_scored c (some (rank, tie)) rest = record { user = c; rank = rank; tie = tie } ∷ rest

unfoldable pub score_each : Bytes → List UserLite → List ScoredUser
unfolding score
score_each q [] = []
score_each q (c ∷ cs) = let rest = score_each q cs in push_scored c (score q c) rest

-- the order of Go's texts
unfoldable pub text_lt : Bytes → Bytes → Bool
text_lt s [] = false
text_lt [] (d ∷ t) = true
text_lt (c ∷ s) (d ∷ t) = if ltb c d then true else (c == d) && text_lt s t

-- The comparison that is handed to sort.Slice.
unfoldable pub less : ScoredUser → ScoredUser → Bool
unfolding text_lt
less a b =
    if not (a.rank == b.rank)
    then ltb a.rank b.rank
    else if not (a.tie == b.tie)
    then ltb a.tie b.tie
    else text_lt a.user.username b.user.username

-- sort.Slice, as an insertion sort: it differs at most in the order of entries of which neither is
-- less than the other.
unfoldable pub insert_scored : ScoredUser → List ScoredUser → List ScoredUser
unfolding less
insert_scored a [] = a ∷ []
insert_scored a (b ∷ l) = let rest = insert_scored a l in if less b a then b ∷ rest else a ∷ b ∷ l

unfoldable pub sort_scored : List ScoredUser → List ScoredUser
unfolding insert_scored
sort_scored [] = []
sort_scored (a ∷ l) = insert_scored a (sort_scored l)

abbrev pub users : List ScoredUser → List UserLite
users [] = []
users (s ∷ l) = s.user ∷ users l

unfoldable pub rank_user_matches : List UserLite → Bytes → ℕ → List UserLite
unfolding score_each sort_scored
rank_user_matches cands q limit = users (take limit (sort_scored (score_each q cands)))
