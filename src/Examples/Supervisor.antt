-- ===== src/Examples/Supervisor.antt =====
-- One process of internal/runner/supervisor.go.
use lamund.Prelude.{
  ◌≡◌, refl, ◌⊎◌, true, some, [], ◌∷◌, ◌==◌, Bytes, codes, beq, find, All, lookup, insert,
}
use lamund.Supervisor.{
  of_name, Process, Supervisor, running, crashed, gave_up, waiting, new_process, new_supervisor, on,
  start, started, exited, stop,
}
use lamund.Supervisor.Reach.{IsSound, Reachable, initial, next, starts, spawns, Reachable-IsSound}
use lamund.Supervisor.Stop.{stop-started}

abbrev shop : Bytes
shop = codes "toko.id"

abbrev begun : Supervisor
begun = record { procs = (shop, 0) ∷ []; processes = new_process 0 shop ∷ [] }

abbrev runs_now : Process
runs_now = record (new_process 0 shop) {
  pid = some 77;
  state = running;
  started_at = 5;
  phase = waiting;
}

abbrev up : Supervisor
up = record begun { processes = runs_now ∷ [] }

begins : start shop true new_supervisor ≡ begun
unfolding start new_supervisor of_name lookup insert
begins = refl

up-Reachable : Reachable (on 0 (started 77 5) (start shop true new_supervisor))
up-Reachable = next (next initial (starts shop true)) (spawns 0 77 5)

Reachable-IsSound_example :
    All IsSound (on 0 (started 77 5) (start shop true new_supervisor)).processes
Reachable-IsSound_example =
    Reachable-IsSound (on 0 (started 77 5) (start shop true new_supervisor)) up-Reachable

named : lookup shop up.procs ≡ some 0
unfolding lookup beq
named = refl

begun_named : lookup shop begun.procs ≡ some 0
unfolding lookup beq
begun_named = refl

stop-started_example :
    (q : Process) × ((find
          (λ r. r.number == 0)
          (on 0 (exited 9) (on 0 (started 77 5) (stop shop begun))).processes
        ≡ some q)
      × ((q.state ≡ crashed) ⊎ (q.state ≡ gave_up)))
stop-started_example = stop-started shop 0 begun (new_process 0 shop) begun_named refl 77 5 9 refl
