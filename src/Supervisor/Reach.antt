-- ===== src/Supervisor/Reach.antt =====
-- The steps of internal/runner/supervisor.go in any order, and what they keep.
use lamund.Prelude.{
  ℕ, ◌+◌, ◌≤◌, ◌≡◌, refl, ◌≢◌, ◌⊎◌, inl, inr, Bool, false, not, ◌||◌, List, [], ◌∷◌, arith, ltb,
  ◌==◌, Bool-cases, Option-cases, Bytes, beq, All, lookup,
}
use lamund.Supervisor.{
  of_name, runs, RunState, stopped, running, crashed, gave_up, Phase, spawning, waiting, sleeping,
  ended, Process, Supervisor, max_restarts, new_supervisor, update, on, start, started, not_started,
  crash, count_of, exited, woke, told, stop, forget, rename,
}

-- A step of a caller, of a goroutine or of the operating system.
pub data Step : Supervisor → Supervisor → Type 0 where
  starts : {s : Supervisor} (name : Bytes) (log : Bool) → Step s (start name log s)
  spawns : {s : Supervisor} (n pid now : ℕ) → Step s (on n (started pid now) s)
  fails : {s : Supervisor} (n : ℕ) → Step s (on n not_started s)
  exits : {s : Supervisor} (n now : ℕ) → Step s (on n (exited now) s)
  wakes : {s : Supervisor} (n : ℕ) → Step s (on n woke s)
  stops : {s : Supervisor} (name : Bytes) → Step s (stop name s)
  forgets : {s : Supervisor} (name : Bytes) → Step s (forget name s)
  renames : {s : Supervisor} (from to : Bytes) → Step s (rename from to s)

pub data Reachable : Supervisor → Type 0 where
  initial : Reachable new_supervisor
  next : {s t : Supervisor} → Reachable s → Step s t → Reachable t

-- A state fits its place: a running process is waited for, one that has been given up has crashed
-- once too often and has ended, and a stopped one waits for its first start or was told to stop.
abbrev pub Fits : RunState → Phase → ℕ → Type 0
Fits running ph n = (ph ≡ waiting) × (n ≤ max_restarts)
Fits gave_up ph n = (ph ≡ ended) × (n ≡ max_restarts + 1)
Fits stopped ph n = (ph ≢ waiting) × (n ≤ max_restarts)
Fits crashed ph n = (ph ≢ waiting) × (n ≤ max_restarts)

abbrev pub IsSound : Process → Type 0
IsSound p = Fits p.state p.phase p.restarts

pub Phase-cases :
    (ph : Phase) → (ph ≡ spawning) ⊎ ((ph ≡ waiting) ⊎ ((ph ≡ sleeping) ⊎ (ph ≡ ended)))
Phase-cases spawning = inl refl
Phase-cases waiting = inr (inl refl)
Phase-cases sleeping = inr (inr (inl refl))
Phase-cases ended = inr (inr (inr refl))

Fits-le : (st : RunState) (ph : Phase) (n : ℕ) → ph ≢ ended → Fits st ph n → n ≤ max_restarts
Fits-le stopped ph n live h = h.1
Fits-le running ph n live h = h.1
Fits-le crashed ph n live h = h.1
Fits-le gave_up ph n live h = absurd (live h.0)

-- A state that was no running one stays fit where its process moves between idle places.
Fits-move : (st : RunState) (ph : Phase) (n : ℕ) → ph ≢ waiting → Fits st sleeping n → Fits st ph n
Fits-move stopped ph n idle h = (idle, h.1)
Fits-move running ph n idle h = absurd (apart h.0)
  where
    apart : sleeping ≡ waiting → ⊥
    apart e = cc (e)
Fits-move crashed ph n idle h = (idle, h.1)
Fits-move gave_up ph n idle h = absurd (apart h.0)
  where
    apart : sleeping ≡ ended → ⊥
    apart e = cc (e)

started-IsSound : (pid now : ℕ) (p : Process) → IsSound p → IsSound (started pid now p)
unfolding started
started-IsSound pid now p h = elim (Phase-cases p.phase) [
  | inl e ↦
      let low : p.restarts ≤ max_restarts =
        Fits-le p.state p.phase p.restarts (rw e (λ d. cc (d))) h in
      rw e (refl, low)
  | inr (inl e) ↦ rw e (rw e at h)
  | inr (inr (inl e)) ↦ rw e (rw e at h)
  | inr (inr (inr e)) ↦ rw e (rw e at h)
]

not_started-IsSound : (p : Process) → IsSound p → IsSound (not_started p)
unfolding not_started
not_started-IsSound p h = elim (Phase-cases p.phase) [
  | inl e ↦
      let low : p.restarts ≤ max_restarts =
        Fits-le p.state p.phase p.restarts (rw e (λ d. cc (d))) h in
      rw e ((λ d. cc (d)), low)
  | inr (inl e) ↦ rw e (rw e at h)
  | inr (inr (inl e)) ↦ rw e (rw e at h)
  | inr (inr (inr e)) ↦ rw e (rw e at h)
]

crash-IsSound : (n : ℕ) (p : Process) → n ≤ max_restarts + 1 → IsSound (crash n p)
crash-IsSound n p h = elim (Bool-cases (ltb max_restarts n)) [
  | inl over ↦ rw over (refl, ground arith)
  | inr under ↦ rw under ((λ d. cc (d)), ground arith)
]

exited-IsSound : (now : ℕ) (p : Process) → IsSound p → IsSound (exited now p)
unfolding exited
exited-IsSound now p h = elim (Phase-cases p.phase) [
  | inl e ↦ rw e (rw e at h)
  | inr (inl e) ↦
      let low : p.restarts ≤ max_restarts =
        Fits-le p.state p.phase p.restarts (rw e (λ d. cc (d))) h in
      rw e (elim (Bool-cases p.stopping) [
        | inl told_to ↦ rw told_to ((λ d. cc (d)), low)
        | inr alone ↦ rw alone (
            crash-IsSound (count_of now p) (record p { phase = waiting; stopping = false })
              (ground arith))
      ])
  | inr (inr (inl e)) ↦ rw e (rw e at h)
  | inr (inr (inr e)) ↦ rw e (rw e at h)
]

woke-IsSound : (p : Process) → IsSound p → IsSound (woke p)
unfolding woke
woke-IsSound p h = elim (Phase-cases p.phase) [
  | inl e ↦ rw e (rw e at h)
  | inr (inl e) ↦ rw e (rw e at h)
  | inr (inr (inl e)) ↦ rw e (elim (Bool-cases p.stopping) [
    | inl told_to ↦ rw told_to (Fits-move p.state ended p.restarts (λ d. cc (d)) (rw e at h))
    | inr alone ↦ rw alone (Fits-move p.state spawning p.restarts (λ d. cc (d)) (rw e at h))
  ])
  | inr (inr (inr e)) ↦ rw e (rw e at h)
]

All-update :
    (n : ℕ) (f : Process → Process) (ps : List Process)
    → ((p : Process) → IsSound p → IsSound (f p))
    → All IsSound ps
    → All IsSound (update n f ps)
unfolding update
All-update n f [] k h = tt
All-update n f (p ∷ ps) k h = elim (Bool-cases (p.number == n)) [
  | inl hit ↦ rw hit (k p h.0, All-update n f ps k h.1)
  | inr miss ↦ rw miss (h.0, All-update n f ps k h.1)
]

start-IsSound :
    (name : Bytes) (log : Bool) (s : Supervisor)
    → All IsSound s.processes
    → All IsSound (start name log s).processes
unfolding start
start-IsSound name log s h = elim (Bool-cases (runs (of_name name s) || not log)) [
  | inl kept ↦ rw kept h
  | inr fresh ↦ rw fresh (((λ d. cc (d)), omega arith), h)
]

stop-IsSound :
    (name : Bytes) (s : Supervisor) → All IsSound s.processes → All IsSound (stop name s).processes
unfolding stop
stop-IsSound name s h = elim (Option-cases (lookup name s.procs)) [
  | inl absent ↦ rw absent h
  | inr (n, found) ↦ rw found (All-update n told s.processes (λ p k. k) h)
]

rename-IsSound :
    (from to : Bytes) (s : Supervisor)
    → All IsSound s.processes
    → All IsSound (rename from to s).processes
unfolding rename
rename-IsSound from to s h = elim (Bool-cases (beq from to)) [
  | inl same ↦ rw same h
  | inr other ↦ rw other (elim (Option-cases (lookup from s.procs)) [
    | inl absent ↦ rw absent h
    | inr (n, found) ↦
        rw found (All-update n (λ p. record p { name = to }) s.processes (λ p k. k) h)
  ])
]

Step-IsSound : {s t : Supervisor} → Step s t → All IsSound s.processes → All IsSound t.processes
unfolding forget
Step-IsSound {s = s} (starts name log) h = start-IsSound name log s h
Step-IsSound {s = s} (spawns n pid now) h =
    All-update n (started pid now) s.processes (started-IsSound pid now) h
Step-IsSound {s = s} (fails n) h = All-update n not_started s.processes not_started-IsSound h
Step-IsSound {s = s} (exits n now) h = All-update n (exited now) s.processes (exited-IsSound now) h
Step-IsSound {s = s} (wakes n) h = All-update n woke s.processes woke-IsSound h
Step-IsSound {s = s} (stops name) h = stop-IsSound name s h
Step-IsSound (forgets name) h = h
Step-IsSound {s = s} (renames from to) h = rename-IsSound from to s h

-- However the steps interleave, in every process a running state goes with a goroutine that waits,
-- one that has been given up has ended after nine crashes, and any other has eight at most.
pub Reachable-IsSound : (s : Supervisor) → Reachable s → All IsSound s.processes
unfolding new_supervisor
Reachable-IsSound _ initial = tt
Reachable-IsSound _ (next before move) = Step-IsSound move (Reachable-IsSound _ before)
