-- ===== src/Supervisor/Stop.antt =====
-- When a Stop of internal/runner/supervisor.go takes effect.
use lamund.Supervisor.Reach.{Phase-cases}
use lamund.Prelude.{
  ℕ, ◌≡◌, refl, ap, ◌⊎◌, inl, inr, true, some, List, [], ◌∷◌, arith, ◌==◌, Bool-cases, Bytes, find,
  lookup,
}
use lamund.Supervisor.{
  stopped, crashed, gave_up, spawning, waiting, ended, Process, Supervisor, update, on, started,
  exited, told, stop,
}

-- The process of a number, after a change that keeps the numbers.
find-update :
    (n : ℕ) (f : Process → Process) (ps : List Process) (p : Process)
    → ((q : Process) → (f q).number ≡ q.number)
    → find (λ q. q.number == n) ps ≡ some p
    → find (λ q. q.number == n) (update n f ps) ≡ some (f p)
unfolding update
find-update n f [] p k h = cc (h)
find-update n f (q ∷ ps) p k h = elim (Bool-cases (q.number == n)) [
  | inl hit ↦
      let same : q ≡ p = cc (rw hit at h) in
      let again : ((f q).number == n) ≡ true = rw (k q) hit in
      rw hit (rw again (ap (λ r. some (f r)) same))
  | inr miss ↦ rw (miss, miss) (find-update n f ps p k (rw miss at h))
]

number-started : (pid now : ℕ) (q : Process) → (started pid now q).number ≡ q.number
unfolding started
number-started pid now q = elim (Phase-cases q.phase) [
  | inl e ↦ rw e refl
  | inr (inl e) ↦ rw e refl
  | inr (inr (inl e)) ↦ rw e refl
  | inr (inr (inr e)) ↦ rw e refl
]

number-exited : (now : ℕ) (q : Process) → (exited now q).number ≡ q.number
unfolding exited
number-exited now q = elim (Phase-cases q.phase) [
  | inl e ↦ rw e refl
  | inr (inl e) ↦ rw e (ground arith)
  | inr (inr (inl e)) ↦ rw e refl
  | inr (inr (inr e)) ↦ rw e refl
]

module _ (name : Bytes) (n : ℕ) (s : Supervisor) (p : Process)
    (named : lookup name s.procs ≡ some n)
    (found : find (λ q. q.number == n) s.processes ≡ some p) where
  find-stop : find (λ q. q.number == n) (stop name s).processes ≡ some (told p)
  unfolding stop
  find-stop = rw named (find-update n told s.processes p (λ q. refl) found)

  exited-told :
      (now : ℕ)
      → p.phase ≡ waiting
      → exited now (told p) ≡ record p { stopping = true; state = stopped; phase = ended }
  unfolding exited
  exited-told now e = rw e refl

  -- A running process that is told to stop is stopped when it exits, and is not started again.
  pub stop-exited :
      (now : ℕ)
      → p.phase ≡ waiting
      → (q : Process) × ((find (λ r. r.number == n) (on n (exited now) (stop name s)).processes
            ≡ some q)
          × ((q.state ≡ stopped) × (q.phase ≡ ended)))
  stop-exited now e = (
    exited now (told p),
    (
      find-update n (exited now) (stop name s).processes (told p) (number-exited now) find-stop,
      rw (exited-told now e) (refl, refl),
    ),
  )

  lost :
      (pid now now' : ℕ)
      → p.phase ≡ spawning
      → ((exited now' (started pid now (told p))).state ≡ crashed)
        ⊎ ((exited now' (started pid now (told p))).state ≡ gave_up)
  unfolding exited started
  lost pid now now' e = rw e (ground arith)

  -- A stop that comes while a process is being started is forgotten: when the process exits later
  -- it counts as crashed.
  pub stop-started :
      (pid now now' : ℕ)
      → p.phase ≡ spawning
      → (q : Process) × ((find
              (λ r. r.number == n)
              (on n (exited now') (on n (started pid now) (stop name s))).processes
            ≡ some q)
          × ((q.state ≡ crashed) ⊎ (q.state ≡ gave_up)))
  stop-started pid now now' e = (
    exited now' (started pid now (told p)),
    (
      find-update n (exited now') (on n (started pid now) (stop name s)).processes
          (started pid now (told p)) (number-exited now')
          (find-update n (started pid now) (stop name s).processes (told p) (number-started pid now)
            find-stop),
      lost pid now now' e,
    ),
  )
