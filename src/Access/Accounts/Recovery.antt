-- ===== src/Access/Accounts/Recovery.antt =====
-- A recovery code of internal/store/mfa.go is used once.
use mathlib.Core.Path.{subst}
use lamund.Prelude.{
  ℕ, ◌+◌, ◌≡◌, refl, ap, ◌⊎◌, inl, inr, Bool, true, false, not, ◌&&◌, none, some, List, [], ◌∷◌,
  arith, ◌==◌, Bool-cases, Option-cases, Bytes, length, select, find, All,
}
use lamund.Access.Accounts.{
  use_code, list_codes, RecoveryCode, Db, Statement, failed, got, mark_used, consume_recovery_code,
}

-- The unused codes of a user that a test accepts.
abbrev pub is_open : ℕ → (Bytes → Bool) → RecoveryCode → Bool
is_open id verify c = (c.user_id == id && not c.used) && verify c.code_hash

-- No number twice.
abbrev pub HasIds : List RecoveryCode → Type 0
HasIds [] = Unit
HasIds (c ∷ cs) = All (λ d. (d.id == c.id) ≡ false) cs × HasIds cs

mark_used_other :
    (id : ℕ) (cs : List RecoveryCode) → All (λ d. (d.id == id) ≡ false) cs → mark_used id cs ≡ cs
unfolding mark_used
mark_used_other id [] h = refl
mark_used_other id (c ∷ cs) h = rw (h.0) (ap (λ l. c ∷ l) (mark_used_other id cs h.1))

All-find :
    (P : RecoveryCode → Bool) (Q : RecoveryCode → Type 0) (c : RecoveryCode)
    (cs : List RecoveryCode)
    → All Q cs
    → find P cs ≡ some c
    → Q c
All-find P Q c [] h e = cc (e)
All-find P Q c (d ∷ cs) h e = elim (Bool-cases (P d)) [
  | inl hit ↦ subst Q (cc (rw hit at e)) h.0
  | inr miss ↦ All-find P Q c cs h.1 (rw miss at e)
]

count-mark_used :
    (id : ℕ) (verify : Bytes → Bool) (c : RecoveryCode) (cs : List RecoveryCode)
    → HasIds cs
    → find (is_open id verify) cs ≡ some c
    → length (select (is_open id verify) (mark_used c.id cs)) + 1
      ≡ length (select (is_open id verify) cs)
unfolding mark_used
count-mark_used id verify c [] h e = cc (e)
count-mark_used id verify c (d ∷ cs) h e = elim (Bool-cases (is_open id verify d)) [
  | inl hit ↦
      let same : d ≡ c = cc (rw hit at e) in
      let itself : (d.id == c.id) ≡ true = rw same (ground arith) in
      let closed : is_open id verify (record d { used = true }) ≡ false = ground arith in
      let rest : mark_used c.id cs ≡ cs = rw (← same) (mark_used_other d.id cs h.0) in
      rw (itself, closed, hit, rest) (omega arith)
  | inr miss ↦
      let later : find (is_open id verify) cs ≡ some c = rw miss at e in
      let apart : (c.id == d.id) ≡ false =
        All-find (is_open id verify) (λ x. (x.id == d.id) ≡ false) c cs h.0 later in
      let other : (d.id == c.id) ≡ false = ground arith in
      rw (other, miss) (count-mark_used id verify c cs h.1 later)
]

none_open :
    (P : RecoveryCode → Bool) (cs : List RecoveryCode) → find P cs ≡ none → length (select P cs) ≡ 0
none_open P [] h = refl
none_open P (c ∷ cs) h = ground (arith, none_open P cs)

-- With distinct numbers, an accepted code leaves one open code less, a refused one found none open,
-- and an error leaves all of them.
pub consume_recovery_code-open :
    (fails : Statement → Bool) (id : ℕ) (verify : Bytes → Bool) (db : Db)
    → HasIds db.recovery_codes
    → (((consume_recovery_code fails id verify db).0 ≡ got true)
        × (length (
                select
                  (is_open id verify)
                  (consume_recovery_code fails id verify db).1.recovery_codes)
              + 1
            ≡ length (select (is_open id verify) db.recovery_codes)))
      ⊎ ((((consume_recovery_code fails id verify db).0 ≡ got false)
            × (length (select (is_open id verify) db.recovery_codes) ≡ 0))
          ⊎ (((consume_recovery_code fails id verify db).0 ≡ failed)
              × ((consume_recovery_code fails id verify db).1 ≡ db)))
unfolding consume_recovery_code
consume_recovery_code-open fails id verify db h = elim (Bool-cases (fails list_codes)) [
  | inl down ↦ rw down (inr (inr (refl, refl)))
  | inr up ↦ elim (Option-cases (find (is_open id verify) db.recovery_codes)) [
    | inl absent ↦
        rw (up, absent) (inr (inl (refl, none_open (is_open id verify) db.recovery_codes absent)))
    | inr (c, found) ↦ elim (Bool-cases (fails use_code)) [
      | inl down ↦ rw (up, found, down) (inr (inr (refl, refl)))
      | inr writes ↦
          rw (up, found, writes) (inl (refl, count-mark_used id verify c db.recovery_codes h found))
    ]
  ]
]
