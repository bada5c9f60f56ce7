-- ===== src/Supervisor.antt =====
-- internal/runner/supervisor.go: the life of the supervised processes. Each part of a method that
-- holds the lock is one step; between them a process stands where its goroutine stands. Times are
-- numbers of nanoseconds. What a process runs, its log and its control group are left out.
pub mod Reach
pub mod Stop
use lamund.Prelude.{
  ℕ, ◌+◌, ◌-◌, Bool, true, false, not, ◌||◌, Option, none, some, List, [], ◌∷◌, ltb, ◌==◌,
  if◌then◌else◌, Bytes, beq, length, find, Map, lookup, insert, delete,
}

pub data RunState : Type 0 where
  stopped running crashed gave_up : RunState

-- Where the goroutine of a process is: in spawn before cmd.Start has returned, in cmd.Wait, in the
-- delay before a restart, or ended.
pub data Phase : Type 0 where
  spawning waiting sleeping ended : Phase

pub record Process : Type 0 where
  pub number : ℕ
  pub name : Bytes
  pub state : RunState
  pub restarts : ℕ
  pub started_at : ℕ
  pub stopping : Bool
  pub pid : Option ℕ
  pub phase : Phase

-- The map holds numbers of processes; a process that has left it may still run.
pub record Supervisor : Type 0 where
  pub procs : Map ℕ
  pub processes : List Process

abbrev pub stable : ℕ
stable = 10000000000

abbrev pub max_restarts : ℕ
max_restarts = 8

unfoldable pub new_supervisor : Supervisor
new_supervisor = record { procs = []; processes = [] }

-- A change of the process of a number.
unfoldable pub update : ℕ → (Process → Process) → List Process → List Process
update n f [] = []
update n f (p ∷ ps) = (if p.number == n then f p else p) ∷ update n f ps

abbrev pub on : ℕ → (Process → Process) → Supervisor → Supervisor
on n f s = record s { processes = update n f s.processes }

abbrev pub is_running : RunState → Bool
is_running running = true
is_running _ = false

abbrev pub runs : Option Process → Bool
runs none = false
runs (some p) = is_running p.state

abbrev find_process : Option ℕ → List Process → Option Process
find_process none ps = none
find_process (some n) ps = find (λ p. p.number == n) ps

unfoldable pub of_name : Bytes → Supervisor → Option Process
of_name name s = find_process (lookup name s.procs) s.processes

abbrev pub new_process : ℕ → Bytes → Process
new_process n name = record {
  number = n;
  name = name;
  state = stopped;
  restarts = 0;
  started_at = 0;
  stopping = false;
  pid = none;
  phase = spawning;
}

-- Start up to the call of spawn; the flag is whether the log could be opened.
unfoldable pub start : Bytes → Bool → Supervisor → Supervisor
start name log s = if runs (of_name name s) || not log then s else record {
  procs = insert name (length s.processes) s.procs;
  processes = new_process (length s.processes) name ∷ s.processes;
}

-- The end of spawn, where cmd.Start gave a process or an error.
unfoldable pub started : ℕ → ℕ → Process → Process
started pid now p = elim p.phase [
  | spawning ↦ record p {
    pid = some pid;
    state = running;
    started_at = now;
    stopping = false;
    phase = waiting;
  }
  | waiting ↦ p
  | sleeping ↦ p
  | ended ↦ p
]

unfoldable pub not_started : Process → Process
not_started p = elim p.phase [
  | spawning ↦ record p { state = crashed; phase = ended }
  | waiting ↦ p
  | sleeping ↦ p
  | ended ↦ p
]

-- The crash of a process that was not told to stop; `n` is the count with this one.
abbrev pub crash : ℕ → Process → Process
crash n p =
    if ltb max_restarts n
    then record p { restarts = n; state = gave_up; phase = ended }
    else record p { restarts = n; state = crashed; phase = sleeping }

abbrev pub count_of : ℕ → Process → ℕ
count_of now p = if ltb stable (now - p.started_at) then 1 else p.restarts + 1

-- wait, from the return of cmd.Wait to the delay
unfoldable pub exited : ℕ → Process → Process
exited now p = elim p.phase [
  | spawning ↦ p
  | waiting ↦
      if p.stopping then record p { state = stopped; phase = ended } else crash (count_of now p) p
  | sleeping ↦ p
  | ended ↦ p
]

-- wait behind the delay
unfoldable pub woke : Process → Process
woke p = elim p.phase [
  | spawning ↦ p
  | waiting ↦ p
  | sleeping ↦ record p { phase = if p.stopping then ended else spawning }
  | ended ↦ p
]

abbrev pub told : Process → Process
told p = record p { stopping = true }

abbrev on_named : Option ℕ → (Process → Process) → Supervisor → Supervisor
on_named none f s = s
on_named (some n) f s = on n f s

-- Stop; the signal makes the process exit later
unfoldable pub stop : Bytes → Supervisor → Supervisor
stop name s = on_named (lookup name s.procs) told s

-- Delete, and the removal in Restart
unfoldable pub forget : Bytes → Supervisor → Supervisor
forget name s = record s { procs = delete name s.procs }

abbrev moved : Option ℕ → Bytes → Bytes → Supervisor → Supervisor
moved none from to s = s
moved (some n) from to s = record {
  procs = insert to n (delete from s.procs);
  processes = update n (λ p. record p { name = to }) s.processes;
}

unfoldable pub rename : Bytes → Bytes → Supervisor → Supervisor
rename from to s = if beq from to then s else moved (lookup from s.procs) from to s
