-- ===== src/Prelude/Pairs.antt =====
-- Relations between all pairs of a list, the earlier element first.
use mathlib.Core.Path.{◌≡◌}
use mathlib.Core.Bool.{Bool, false}
use mathlib.Core.Logic.{inl, inr}
use mathlib.Core.List.{List, [], ◌∷◌, ◌++◌, map}
use lamund.Prelude.Tests.{Bool-cases}
use lamund.Prelude.Lists.{All, All-select, All-append, select, any}

module _ {ℓ} {A : Type ℓ} (R : A → A → Type ℓ) where
  abbrev pub Apart : List A → Type ℓ
  Apart [] = Unit
  Apart (x ∷ xs) = All (R x) xs × Apart xs

  pub Apart-snoc : (xs : List A) (y : A) → Apart xs → All (λ x. R x y) xs → Apart (xs ++ y ∷ [])
  Apart-snoc [] y h k = (tt, tt)
  Apart-snoc (x ∷ xs) y h k = (All-append (R x) xs (y ∷ []) h.0 (k.0, tt), Apart-snoc xs y h.1 k.1)

  pub Apart-select : (p : A → Bool) (xs : List A) → Apart xs → Apart (select p xs)
  Apart-select p [] h = tt
  Apart-select p (x ∷ xs) h = elim (Bool-cases (p x)) [
    | inl e ↦ rw e (All-select (R x) p xs h.0, Apart-select p xs h.1)
    | inr e ↦ rw e (Apart-select p xs h.1)
  ]

module _ {ℓ κ} {A : Type ℓ} (P Q : A → Type κ) where
  pub All-mono : (xs : List A) → ((x : A) → P x → Q x) → All P xs → All Q xs
  All-mono [] f h = tt
  All-mono (x ∷ xs) f h = (f x h.0, All-mono xs f h.1)

  -- of a function that keeps the predicate
  pub map-All : (f : A → A) (xs : List A) → ((x : A) → P x → Q (f x)) → All P xs → All Q (map f xs)
  map-All f [] k h = tt
  map-All f (x ∷ xs) k h = (k x h.0, map-All f xs k h.1)

module _ {ℓ} {A : Type ℓ} (R : A → A → Type ℓ) where
  pub Apart-map :
      (f : A → A) (xs : List A)
      → ((x y : A) → R x y → R (f x) (f y))
      → Apart R xs
      → Apart R (map f xs)
  Apart-map f [] k h = tt
  Apart-map f (x ∷ xs) k h = (map-All (R x) (R (f x)) f xs (k x) h.0, Apart-map f xs k h.1)

-- No element passes a test that fails for some element of it.
pub any-All {ℓ} :
    {A : Type ℓ} (p : A → Bool) (xs : List A) → any p xs ≡ false → All (λ x. p x ≡ false) xs
any-All p [] h = tt
any-All p (x ∷ xs) h = elim (Bool-cases (p x)) [
  | inl e ↦ absurd (cc (rw e at h))
  | inr e ↦ (e, any-All p xs (rw e at h))
]

module _ {ℓ κ} {A : Type ℓ} (P Q R : A → Type κ) where
  -- Two facts of each element give a third.
  pub All-both : (xs : List A) → ((x : A) → P x → Q x → R x) → All P xs → All Q xs → All R xs
  All-both [] f h k = tt
  All-both (x ∷ xs) f h k = (f x h.0 k.0, All-both xs f h.1 k.1)
