-- ===== src/Search/Order.antt =====
-- The comparison of internal/api/usersearch.go orders the scored users, and the sort follows it.
use lamund.Prelude.{
  ◌<◌, ◌≡◌, refl, ◌⊎◌, inl, inr, true, false, List, [], ◌∷◌, arith, Bool-cases, Apart, All-mono,
  Bytes, All,
}
use mathlib.Core.List.{Perm}
use mathlib.Core.List.Perm
use lamund.Search.{ScoredUser, text_lt, less, insert_scored, sort_scored}

text_lt-irreflexive : (s : Bytes) → text_lt s s ≡ false
unfolding text_lt
text_lt-irreflexive [] = refl
text_lt-irreflexive (c ∷ s) = ground (arith, text_lt-irreflexive s)

text_lt-asymmetric : (s t : Bytes) → text_lt s t ≡ true → text_lt t s ≡ false
unfolding text_lt
text_lt-asymmetric [] t h = refl
text_lt-asymmetric (c ∷ s) [] h = cc (h)
text_lt-asymmetric (c ∷ s) (d ∷ t) h = ground (arith, text_lt-asymmetric s t)

-- What is not before the middle is not before the first.
text_lt_trans : (s t u : Bytes) → text_lt t s ≡ false → text_lt u t ≡ false → text_lt u s ≡ false
unfolding text_lt
text_lt_trans [] t u h k = refl
text_lt_trans (c ∷ s) [] u h k = cc (h)
text_lt_trans (c ∷ s) (d ∷ t) [] h k = cc (k)
text_lt_trans (c ∷ s) (d ∷ t) (e ∷ u) h k = ground (arith, text_lt_trans s t u)

less-asymmetric : (a b : ScoredUser) → less a b ≡ true → less b a ≡ false
unfolding less
less-asymmetric a b h = ground (arith, text_lt-asymmetric a.user.username b.user.username)

less_trans : (a b c : ScoredUser) → less b a ≡ false → less c b ≡ false → less c a ≡ false
unfolding less
less_trans a b c h k = ground (arith, text_lt_trans a.user.username b.user.username c.user.username)

-- The order that the doc promises: by rank, then by tie, then by the user name.
abbrev TextBefore : Bytes → Bytes → Type 0
TextBefore s [] = ⊥
TextBefore [] (d ∷ t) = Unit
TextBefore (c ∷ s) (d ∷ t) = (c < d) ⊎ ((c ≡ d) × TextBefore s t)

abbrev pub Precedes : ScoredUser → ScoredUser → Type 0
Precedes a b =
    (a.rank < b.rank)
    ⊎ ((a.rank ≡ b.rank)
        × ((a.tie < b.tie) ⊎ ((a.tie ≡ b.tie) × TextBefore a.user.username b.user.username)))

TextBefore-text_lt : (s t : Bytes) → TextBefore s t → text_lt s t ≡ true
unfolding text_lt
TextBefore-text_lt s [] h = elim h [ ]
TextBefore-text_lt [] (d ∷ t) h = refl
TextBefore-text_lt (c ∷ s) (d ∷ t) (inl h) = ground (arith, h)
TextBefore-text_lt (c ∷ s) (d ∷ t) (inr (e, h)) =
    let k = TextBefore-text_lt s t h in ground (arith, e, k)

Precedes-less : (a b : ScoredUser) → Precedes a b → less a b ≡ true
unfolding less
Precedes-less a b (inl h) = ground (arith, h)
Precedes-less a b (inr (e, inl h)) = ground (arith, e, h)
Precedes-less a b (inr (e, inr (k, h))) =
    let t = TextBefore-text_lt a.user.username b.user.username h in ground (arith, e, k, t)

-- None of the list is before x.
abbrev Behind : ScoredUser → List ScoredUser → Type 0
Behind x l = All (λ y. less y x ≡ false) l

-- Nothing is before what stands in front of it.
abbrev IsSorted : List ScoredUser → Type 0
IsSorted [] = Unit
IsSorted (x ∷ l) = Behind x l × IsSorted l

Behind-trans : (a b : ScoredUser) (l : List ScoredUser) → less b a ≡ false → Behind b l → Behind a l
Behind-trans a b [] h k = tt
Behind-trans a b (c ∷ l) h k = (less_trans a b c h k.0, Behind-trans a b l h k.1)

Behind-insert_scored :
    (x a : ScoredUser) (l : List ScoredUser)
    → less a x ≡ false
    → Behind x l
    → Behind x (insert_scored a l)
unfolding insert_scored
Behind-insert_scored x a [] h k = (h, tt)
Behind-insert_scored x a (b ∷ l) h k = elim (Bool-cases (less b a)) [
  | inl e ↦ rw e (k.0, Behind-insert_scored x a l h k.1)
  | inr e ↦ rw e (h, k)
]

insert_scored-IsSorted :
    (a : ScoredUser) (l : List ScoredUser) → IsSorted l → IsSorted (insert_scored a l)
unfolding insert_scored
insert_scored-IsSorted a [] h = (tt, tt)
insert_scored-IsSorted a (b ∷ l) h = elim (Bool-cases (less b a)) [
  | inl e ↦
      rw e (Behind-insert_scored b a l (less-asymmetric b a e) h.0, insert_scored-IsSorted a l h.1)
  | inr e ↦ rw e ((e, Behind-trans a b l e h.0), h)
]

sort_scored-IsSorted : (l : List ScoredUser) → IsSorted (sort_scored l)
unfolding sort_scored
sort_scored-IsSorted [] = tt
sort_scored-IsSorted (a ∷ l) = insert_scored-IsSorted a _ (sort_scored-IsSorted l)

-- No entry precedes one that stands in front of it.
abbrev pub IsOrdered : List ScoredUser → Type 0
IsOrdered = Apart (λ x y. ¬ Precedes y x)

IsSorted-IsOrdered : (l : List ScoredUser) → IsSorted l → IsOrdered l
IsSorted-IsOrdered [] h = tt
IsSorted-IsOrdered (x ∷ l) h = (
  All-mono (λ y. less y x ≡ false) (λ y. ¬ Precedes y x) l (λ y k p. cc (k, Precedes-less y x p))
      h.0,
  IsSorted-IsOrdered l h.1,
)

pub sort_scored-IsOrdered : (l : List ScoredUser) → IsOrdered (sort_scored l)
sort_scored-IsOrdered l = IsSorted-IsOrdered (sort_scored l) (sort_scored-IsSorted l)

insert_scored_perm : (a : ScoredUser) (l : List ScoredUser) → Perm (insert_scored a l) (a ∷ l)
unfolding insert_scored
insert_scored_perm a [] = Perm.rfl
insert_scored_perm a (b ∷ l) = elim (Bool-cases (less b a)) [
  | inl e ↦ rw e (Perm.trans (Perm.cons b (insert_scored_perm a l)) (Perm.swap a b l))
  | inr e ↦ rw e Perm.rfl
]

pub sort_scored_perm : (l : List ScoredUser) → Perm (sort_scored l) l
unfolding sort_scored
sort_scored_perm [] = Perm.rfl
sort_scored_perm (a ∷ l) =
    Perm.trans (insert_scored_perm a (sort_scored l)) (Perm.cons a (sort_scored_perm l))
