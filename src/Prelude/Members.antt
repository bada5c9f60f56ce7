-- ===== src/Prelude/Members.antt =====
-- Membership in the lists that `any`, `select` and `find` read.
use mathlib.Core.Path.{◌≡◌, refl, sym}
use mathlib.Core.Bool.{Bool, true, false}
use mathlib.Core.Logic.{inl, inr}
use mathlib.Core.List.{List, [], ◌∷◌}
use mathlib.Core.Option.{none, some}
use lamund.Prelude.Tests.{◌==◌, Bool-cases}
use lamund.Prelude.Lists.{All, In, here, there, any, select, find, length}

module _ {ℓ} {A : Type ℓ} (p : A → Bool) where
  pub any-In : (l : List A) → any p l ≡ true → (x : A) × In x l × (p x ≡ true)
  any-In [] h = cc (h)
  any-In (x ∷ l) h = elim (Bool-cases (p x)) [
    | inl e ↦ (x, here refl, e)
    | inr e ↦ let (y, m, k) = any-In l (rw e at h) in (y, there m, k)
  ]

  pub In-any : (x : A) (l : List A) → In x l → p x ≡ true → any p l ≡ true
  In-any x [] m h = elim m [ ]
  In-any x (y ∷ l) (here e) h = rw (← e, h) refl
  In-any x (y ∷ l) (there m) h = elim (Bool-cases (p y)) [
    | inl e ↦ rw e refl
    | inr e ↦ rw e (In-any x l m h)
  ]

  pub In-select : (x : A) (l : List A) → In x l → p x ≡ true → In x (select p l)
  In-select x [] m h = elim m [ ]
  In-select x (y ∷ l) (here e) h = rw (← e, h) (here refl)
  In-select x (y ∷ l) (there m) h = elim (Bool-cases (p y)) [
    | inl e ↦ rw e (there (In-select x l m h))
    | inr e ↦ rw e (In-select x l m h)
  ]

  kept :
      (x y : A) (l : List A)
      → p y ≡ true
      → In x (y ∷ select p l)
      → (In x (select p l) → In x l × (p x ≡ true))
      → In x (y ∷ l) × (p x ≡ true)
  kept x y l h (here e) f = (here e, rw e h)
  kept x y l h (there m) f = let (k, g) = f m in (there k, g)

  pub select-In : (x : A) (l : List A) → In x (select p l) → In x l × (p x ≡ true)
  select-In x [] m = elim m [ ]
  select-In x (y ∷ l) m = elim (Bool-cases (p y)) [
    | inl e ↦ kept x y l e (rw e at m) (select-In x l)
    | inr e ↦ let (k, h) = select-In x l (rw e at m) in (there k, h)
  ]

  pub find-In : (x : A) (l : List A) → find p l ≡ some x → In x l × (p x ≡ true)
  find-In x [] h = cc (h)
  find-In x (y ∷ l) h = elim (Bool-cases (p y)) [
    | inl e ↦ let q : y ≡ x = cc (rw e at h) in (here (sym q), rw (← q) e)
    | inr e ↦ let (m, k) = find-In x l (rw e at h) in (there m, k)
  ]

  pub find-none : (l : List A) → find p l ≡ none → All (λ x. p x ≡ false) l
  find-none [] h = tt
  find-none (x ∷ l) h = elim (Bool-cases (p x)) [
    | inl e ↦ cc (rw e at h)
    | inr e ↦ (e, find-none l (rw e at h))
  ]

  pub select-some :
      (l : List A) → (length (select p l) == 0) ≡ false → (x : A) × In x l × (p x ≡ true)
  select-some [] h = cc (h)
  select-some (x ∷ l) h = elim (Bool-cases (p x)) [
    | inl e ↦ (x, here refl, e)
    | inr e ↦ let (y, m, k) = select-some l (rw e at h) in (y, there m, k)
  ]

pub All-In {ℓ κ} : {A : Type ℓ} (P : A → Type κ) (x : A) (l : List A) → All P l → In x l → P x
All-In P x [] h m = elim m [ ]
All-In P x (y ∷ l) h (here e) = rw e h.0
All-In P x (y ∷ l) h (there m) = All-In P x l h.1 m
