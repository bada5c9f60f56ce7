-- ===== src/Search/Rank.antt =====
-- The ranks that the comment of rankUserMatches promises, apart from the code that computes them.
use lamund.Prelude.{
  ℕ, ◌+◌, ◌≤◌, ◌<◌, ◌≡◌, refl, ap, ◌≢◌, inl, inr, true, false, Option, none, some, List, [], ◌∷◌,
  ◌++◌, arith, leb, Bool-cases, Bytes, beq, beq_sound, beq_refl, has_prefix, has_prefix_sound,
  has_prefix_append, contains, lower,
}
use lamund.Search.{
  UserLite, ScoredUser, score, push_scored, score_each, byte_length, width, index, levenshtein,
}
use lamund.Search.Scripts.{Script, size, levenshtein_least, size-levenshtein}

abbrev BeginsWith : Bytes → Bytes → Type 0
BeginsWith q u = (rest : Bytes) × (u ≡ q ++ rest)

abbrev Holds : Bytes → Bytes → Type 0
Holds q u = (before : Bytes) × (after : Bytes) × (u ≡ before ++ (q ++ after))

-- The first place of q in u, in bytes.
abbrev FirstAt : Bytes → Bytes → ℕ → Type 0
FirstAt q u at_byte =
    (before : Bytes) × (after : Bytes) × (u ≡ before ++ (q ++ after))
    × (byte_length before ≡ at_byte)
    × ((b a : Bytes) → u ≡ b ++ (q ++ a) → at_byte ≤ byte_length b)

-- The fewest edits.
abbrev IsDistance : Bytes → Bytes → ℕ → Type 0
IsDistance u q d = ((p : Script u q) × (size p ≡ d)) × ((p : Script u q) → d ≤ size p)

-- More than two edits are needed.
abbrev IsFar : Bytes → Bytes → Type 0
IsFar u q = (p : Script u q) → 2 < size p

-- The rank and the tie of a user name u and a name n, for the text q.
pub data IsRank (q u n : Bytes) : ℕ → ℕ → Type 0 where
  same : u ≡ q → IsRank q u n 0 0
  begins : u ≢ q → BeginsWith q u → IsRank q u n 1 (byte_length u)
  inside : {at_byte : ℕ} → ¬ BeginsWith q u → FirstAt q u at_byte → IsRank q u n 2 at_byte
  close : {d : ℕ} → ¬ Holds q u → IsDistance u q d → d ≤ 2 → IsRank q u n 3 d
  named : ¬ Holds q u → IsFar u q → Holds q n → IsRank q u n 4 0

-- Neither holds the text, and the user name is not close to it.
abbrev pub IsUnranked : Bytes → Bytes → Bytes → Type 0
IsUnranked q u n = ¬ Holds q u × IsFar u q × ¬ Holds q n

BeginsWith-not : (q u : Bytes) → has_prefix u q ≡ false → ¬ BeginsWith q u
BeginsWith-not q u h (rest, e) = cc (rw e at h, has_prefix_append q rest)

has_prefix-contains : (s p : Bytes) → has_prefix s p ≡ true → contains s p ≡ true
unfolding contains
has_prefix-contains [] p h = h
has_prefix-contains (c ∷ s) p h = rw h refl

contains_append : (b q a : Bytes) → contains (b ++ (q ++ a)) q ≡ true
unfolding contains
contains_append [] q a = has_prefix-contains (q ++ a) q (has_prefix_append q a)
contains_append (c ∷ b) q a = ground (arith, contains_append b q a)

Holds-not : (q u : Bytes) → contains u q ≡ false → ¬ Holds q u
Holds-not q u h (b, a, e) = cc (rw e at h, contains_append b q a)

at_front : (q u : Bytes) → has_prefix u q ≡ true → FirstAt q u 0
unfolding byte_length
at_front q u h = let (rest, e) = has_prefix_sound u q h in ([], rest, e, refl, λ b a k. omega arith)

index-FirstAt : (q u : Bytes) → contains u q ≡ true → FirstAt q u (index u q)
unfolding contains index byte_length
index-FirstAt q [] h = at_front q [] h
index-FirstAt q (c ∷ s) h = elim (Bool-cases (has_prefix (c ∷ s) q)) [
  | inl front ↦ rw front (at_front q (c ∷ s) front)
  | inr later ↦
      let (before, after, e, at_byte, least) = index-FirstAt q s (rw later at h) in
      rw later (c ∷ before, after, ap (◌∷◌ c) e, ap (λ n. width c + n) at_byte, behind later least)
]
  where
    behind :
        has_prefix (c ∷ s) q ≡ false
        → ((b a : Bytes) → s ≡ b ++ (q ++ a) → index s q ≤ byte_length b)
        → (b a : Bytes) → c ∷ s ≡ b ++ (q ++ a)
        → width c + index s q ≤ byte_length b
    behind later least [] a e = absurd (BeginsWith-not q (c ∷ s) later (a, e))
    behind later least (d ∷ b) a e =
        let same_head : c ≡ d = cc (e) in
        let k = least b a (cc (e)) in rw same_head (omega (arith, k))

-- What a score stands for.
abbrev Ranked : Bytes → UserLite → Option (ℕ × ℕ) → Type 0
Ranked q c none = IsUnranked q (lower c.username) (lower c.name)
Ranked q c (some (rank, tie)) = IsRank q (lower c.username) (lower c.name) rank tie

far : (u q : Bytes) → leb (levenshtein u q) 2 ≡ false → IsFar u q
far u q h p = let k = levenshtein_least u q p in ground (arith, k)

distance : (u q : Bytes) → IsDistance u q (levenshtein u q)
distance u q = (size-levenshtein u q, levenshtein_least u q)

score-Ranked : (q : Bytes) (c : UserLite) → Ranked q c (score q c)
unfolding score
score-Ranked q c =
    let u = lower c.username in
    let n = lower c.name in
    elim (Bool-cases (beq u q)) [
      | inl e ↦ rw e (same (beq_sound u q e))
      | inr other ↦ elim (Bool-cases (has_prefix u q)) [
        | inl front ↦
            let (rest, e) = has_prefix_sound u q front in
            rw (other, front) (begins (λ k. cc (rw k at other, beq_refl q)) (rest, e))
        | inr not_front ↦ elim (Bool-cases (contains u q)) [
          | inl held ↦
              rw (other, not_front, held)
                (inside (BeginsWith-not q u not_front) (index-FirstAt q u held))
          | inr not_held ↦ elim (Bool-cases (leb (levenshtein u q) 2)) [
            | inl two ↦
                rw (other, not_front, not_held, two)
                  (close (Holds-not q u not_held) (distance u q) (ground (arith, two)))
            | inr more ↦ elim (Bool-cases (contains n q)) [
              | inl in_name ↦
                  let (before, after, e, _, _) = index-FirstAt q n in_name in
                  rw (other, not_front, not_held, more, in_name)
                    (named (Holds-not q u not_held) (far u q more) (before, after, e))
              | inr nowhere ↦
                  rw (other, not_front, not_held, more, nowhere)
                    (Holds-not q u not_held, far u q more, Holds-not q n nowhere)
            ]
          ]
        ]
      ]
    ]

-- The candidates with a rank, each as often as it is a candidate; the others are skipped.
pub data Matches (q : Bytes) : List UserLite → List ScoredUser → Type 0 where
  no_more : Matches q [] []
  skip :
      {c : UserLite} {cs : List UserLite} {l : List ScoredUser}
      → IsUnranked q (lower c.username) (lower c.name)
      → Matches q cs l
      → Matches q (c ∷ cs) l
  count_in :
      (s : ScoredUser) {cs : List UserLite} {l : List ScoredUser}
      → IsRank q (lower s.user.username) (lower s.user.name) s.rank s.tie
      → Matches q cs l
      → Matches q (s.user ∷ cs) (s ∷ l)

push_scored-Matches :
    (q : Bytes) (c : UserLite) (cs : List UserLite) (o : Option (ℕ × ℕ)) (l : List ScoredUser)
    → Ranked q c o
    → Matches q cs l
    → Matches q (c ∷ cs) (push_scored c o l)
push_scored-Matches q c cs none l h m = skip h m
push_scored-Matches q c cs (some (rank, tie)) l h m =
    count_in (record { user = c; rank = rank; tie = tie }) h m

pub score_each-Matches : (q : Bytes) (cands : List UserLite) → Matches q cands (score_each q cands)
unfolding score_each
score_each-Matches q [] = no_more
score_each-Matches q (c ∷ cs) =
    push_scored-Matches q c cs (score q c) (score_each q cs) (score-Ranked q c)
      (score_each-Matches q cs)
