-- ===== src/Search/Ranking.antt =====
-- The ranking of internal/api/usersearch.go returns the best candidates, in order.
use mathlib.Core.List.{Perm}
use lamund.Prelude.{ℕ, ◌≡◌, refl, List, Bytes, take}
use lamund.Search.{UserLite, ScoredUser, score_each, sort_scored, users, rank_user_matches}
use lamund.Search.Rank.{Matches, score_each-Matches}
use lamund.Search.Order.{IsOrdered, sort_scored-IsOrdered, sort_scored_perm}

-- The first `limit` of the candidates with a rank, in order.
abbrev pub IsRanking : List UserLite → Bytes → ℕ → List UserLite → Type 0
IsRanking cands q limit result =
    (matched : List ScoredUser) × (ordered : List ScoredUser) × Matches q cands matched
    × Perm ordered matched
    × IsOrdered ordered
    × (result ≡ users (take limit ordered))

-- The candidates with a rank are put in order, each as often as it is a candidate, and the result
-- is the first `limit` of them. The rank is 0 for the text itself, 1 for a user name that begins
-- with the text, 2 for one that holds it, 3 for one within two edits of it, and 4 for a name that
-- holds it, the first of these that applies. The order is by rank, then by the length in bytes,
-- the first place or the edits, as the rank has it, and then by the user name.
pub rank_user_matches-IsRanking :
    (cands : List UserLite) (q : Bytes) (limit : ℕ)
    → IsRanking cands q limit (rank_user_matches cands q limit)
unfolding rank_user_matches
rank_user_matches-IsRanking cands q limit =
    let matched = score_each q cands in
    (
      matched,
      sort_scored matched,
      score_each-Matches q cands,
      sort_scored_perm matched,
      sort_scored-IsOrdered matched,
      refl,
    )
