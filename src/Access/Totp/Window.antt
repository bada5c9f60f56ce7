-- ===== src/Access/Totp/Window.antt =====
-- The window of internal/auth/totp.go: one step of 30 seconds to either side.
use lamund.Prelude.{
  ℕ, ◌+◌, ◌-◌, ◌≤◌, ◌≡◌, refl, sym, ap, ◌⊎◌, inl, inr, true, not, Option, none, some, arith, ◌==◌,
  Bool-cases, Option-cases, Bytes, beq, beq_sound, beq_refl, length,
}
use lamund.Access.Crypto.{CryptoLib}
use lamund.Access.Totp.{
  big_endian, code_of, try_code, step_at, six_digits, all_digits, decode_base32_secret, code_with,
  totp_code_at, try_at, verify_totp,
}

near :
    (t sent : ℕ)
    → 30000000000 ≤ t
    → sent ≤ t + 30000000000
    → t ≤ sent + 30000000000
    → (step_at sent ≡ step_at (t - 30000000000))
      ⊎ ((step_at sent ≡ step_at t) ⊎ (step_at sent ≡ step_at (t + 30000000000)))
near t sent late after before = ground arith

module _ (lib : CryptoLib) (secret code : Bytes) where
  -- The code of a step.
  abbrev pub IsCodeOf : ℕ → Type 0
  IsCodeOf step = code_with lib step (decode_base32_secret lib secret) ≡ some code

  try_code_sound :
      (t s : ℕ) (later : Option ℕ) (got : Option Bytes)
      → try_code lib code t got later ≡ some s
      → ((s ≡ step_at t) × (got ≡ some code)) ⊎ (later ≡ some s)
  try_code_sound t s later none h = cc (h)
  try_code_sound t s later (some got) h = elim (Bool-cases (beq code got)) [
    | inl same ↦ inl (cc (rw same at h), ap some (sym (beq_sound code got same)))
    | inr other ↦ inr (rw other at h)
  ]

  try_at_sound :
      (t s : ℕ) (later : Option ℕ)
      → try_at lib secret code t later ≡ some s
      → ((s ≡ step_at t) × IsCodeOf (step_at t)) ⊎ (later ≡ some s)
  unfolding try_at totp_code_at
  try_at_sound t s later h = try_code_sound t s later (totp_code_at lib secret t) h

  try_at_hit :
      (t : ℕ) (later : Option ℕ)
      → IsCodeOf (step_at t)
      → try_at lib secret code t later ≡ some (step_at t)
  unfolding try_at totp_code_at
  try_at_hit t later h = rw h (rw (beq_refl code) refl)

  -- An accepted code is that of the step that is returned, which is the present one or next to it.
  pub verify_totp_sound :
      (t s : ℕ)
      → 30000000000 ≤ t
      → verify_totp lib secret code t ≡ some s
      → IsCodeOf s × ((step_at t ≤ s + 1) × (s ≤ step_at t + 1))
  unfolding verify_totp
  verify_totp_sound t s late h = elim (Bool-cases (not (length code == 6))) [
    | inl long ↦ cc (rw long at h)
    | inr six ↦ elim (Bool-cases (not (all_digits code))) [
      | inl odd ↦ cc (rw (six, odd) at h)
      | inr even ↦ elim (try_at_sound (t - 30000000000) s _ (rw (six, even) at h)) [
        | inl (e, k) ↦ (rw e k, (omega arith, omega arith))
        | inr later ↦ elim (try_at_sound t s _ later) [
          | inl (e, k) ↦ (rw e k, (omega arith, omega arith))
          | inr last ↦ elim (try_at_sound (t + 30000000000) s none last) [
            | inl (e, k) ↦ (rw e k, (omega arith, omega arith))
            | inr nothing ↦ cc (nothing)
          ]
        ]
      ]
    ]
  ]

  try_at-some :
      (t s k : ℕ) (later : Option ℕ)
      → IsCodeOf s
      → later ≡ some k
      → (j : ℕ) × (try_at lib secret code t later ≡ some j)
  unfolding try_at totp_code_at
  try_at-some t s k later c h = elim (Option-cases (decode_base32_secret lib secret)) [
    | inl bad ↦ cc (rw bad at c)
    | inr (key, good) ↦
        rw good
          (elim (Bool-cases (beq code (code_of lib (lib.hmac_sha1 key (big_endian (step_at t)))))) [
            | inl same ↦ rw same (step_at t, refl)
            | inr other ↦ rw other (k, h)
          ])
  ]

  digits_shape : (n : ℕ) → (length (six_digits n) ≡ 6) × (all_digits (six_digits n) ≡ true)
  unfolding six_digits all_digits
  digits_shape n = (refl, ground arith)

  code-shape : (s : ℕ) → IsCodeOf s → (length code ≡ 6) × (all_digits code ≡ true)
  code-shape s c = elim (Option-cases (decode_base32_secret lib secret)) [
    | inl bad ↦ cc (rw bad at c)
    | inr (key, good) ↦
        let e : code_of lib (lib.hmac_sha1 key (big_endian s)) ≡ code = cc (rw good at c) in
        rw (← e) (digits_shape _)
  ]

  -- The code of any time within 30 seconds of the present one is accepted.
  pub verify_totp_skew :
      (t sent : ℕ)
      → 30000000000 ≤ t
      → sent ≤ t + 30000000000
      → t ≤ sent + 30000000000
      → IsCodeOf (step_at sent)
      → (s : ℕ) × (verify_totp lib secret code t ≡ some s)
  unfolding verify_totp
  verify_totp_skew t sent late after before c =
      let (six, digits) = code-shape (step_at sent) c in
      rw (six, digits)
        (elim (near t sent late after before) [
          | inl first ↦ (_, try_at_hit (t - 30000000000) _ (rw first at c))
          | inr (inl middle) ↦
              try_at-some (t - 30000000000) (step_at sent) (step_at t) _ c
                (try_at_hit t _ (rw middle at c))
          | inr (inr last) ↦
              let (k, e) =
                try_at-some t (step_at sent) _ _ c
                  (try_at_hit (t + 30000000000) none (rw last at c)) in
              try_at-some (t - 30000000000) (step_at sent) k _ c e
        ])
