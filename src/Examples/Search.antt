-- ===== src/Examples/Search.antt =====
-- Searches of internal/api/usersearch.go.
use lamund.Prelude.{◌≤◌, ◌≡◌, refl, List, [], ◌∷◌, codes}
use lamund.Search.{UserLite, levenshtein, rank_user_matches}
use lamund.Search.Scripts.{Script, keep, remove, done, size, levenshtein_lem}
use lamund.Search.Ranking.{IsRanking, rank_user_matches-IsRanking}

abbrev budi : UserLite
budi = record { username = codes "budi"; name = codes "Budi" }

abbrev buds : UserLite
buds = record { username = codes "buds"; name = codes "Sari" }

abbrev cands : List UserLite
cands = buds ∷ budi ∷ []

kitten : levenshtein (codes "kitten") (codes "sitting") ≡ 3
unfolding levenshtein
kitten = refl

exact_first : rank_user_matches cands (codes "budi") 8 ≡ budi ∷ buds ∷ []
unfolding rank_user_matches
exact_first = refl

script : Script (codes "ab") (codes "b")
script = remove (keep done)

levenshtein_lem_example :
    ((p : Script (codes "ab") (codes "b")) × (size p ≡ levenshtein (codes "ab") (codes "b")))
    × (levenshtein (codes "ab") (codes "b") ≤ size script)
levenshtein_lem_example = levenshtein_lem (codes "ab") (codes "b") script

rank_user_matches-IsRanking_example :
    IsRanking cands (codes "budi") 1 (rank_user_matches cands (codes "budi") 1)
rank_user_matches-IsRanking_example = rank_user_matches-IsRanking cands (codes "budi") 1
