-- ===== src/Access/Limiter/Window.antt =====
-- The limiter of internal/api/middleware.go counts the attempts of a sliding window exactly.
use lamund.Prelude.{ℕ, ◌≤◌, List, [], ◌∷◌, if◌then◌else◌, Bytes, beq}
use lamund.Access.Limiter.{Limiter, allow}

-- An attempt: the two readings of the clock, and the key.
abbrev pub Attempt : Type 0
Attempt = ℕ × ℕ × Bytes

abbrev pub attempt_each : List Attempt → Limiter → Limiter
attempt_each [] l = l
attempt_each ((now, now', key) ∷ tries) l = attempt_each tries (allow now now' key l).1

-- The times of the attempts on a key.
abbrev pub times : Bytes → List Attempt → List ℕ
times key [] = []
times key ((now, now', k) ∷ tries) = if beq k key then now' ∷ times key tries else times key tries

-- The first readings do not fall, and none is after `until`.
abbrev pub IsMonotone : ℕ → ℕ → List Attempt → Type 0
IsMonotone from until [] = from ≤ until
IsMonotone from until ((now, now', key) ∷ tries) = (from ≤ now) × IsMonotone now until tries
