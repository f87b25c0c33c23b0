-- ===== src/Tests/Watcher.antt =====
-- The thread of the monitor, at concrete inputs.
use privacy_toolkit.Prelude.{◌≤◌, ◌≡◌, refl, arith, true, false, some, [], ◌∷◌}
use privacy_toolkit.Exec.Ends.{Ends}
use privacy_toolkit.Monitor.{loop}
use privacy_toolkit.Monitor.Loop.{is_known, loop-Known}
use privacy_toolkit.Monitor.Thread.{
  Phase, Lifecycle, is_running, start, stop, advance, stop_ends, start-stop_lost,
}
use privacy_toolkit.Cli.Monitors.{choose_start, running, Event, happen_all, choose_start_twice}
use privacy_toolkit.Tests.Sim.{sim}
use privacy_toolkit.Tests.Watching.{watching}

-- The thread is in the middle of a check.
abbrev busy : Lifecycle
busy = record { stop_set = false; thread = some Phase.checking }

stop_ends_example : is_running (advance 3 (stop busy)) ≡ false
stop_ends_example = stop_ends 3 busy (omega arith)

busy_after_stop : is_running (advance 1 (stop busy)) ≡ true
unfolding is_running advance stop
busy_after_stop = refl

start-stop_lost_example : is_running (advance 3 (start (advance 1 (stop busy)))) ≡ false
start-stop_lost_example = start-stop_lost 1 3 busy busy_after_stop (omega arith)

loop-Known_example :
    Ends
      (λ _ v'. is_known v'.baseline_ip ≡ true)
      (λ _. ⊥)
      (loop sim (false ∷ false ∷ true ∷ []) true 30 watching)
loop-Known_example = loop-Known sim (false ∷ false ∷ true ∷ []) true 30 watching refl

choose_start_twice_example :
    1
    ≤ running (
        happen_all
          (Event.stop_chosen ∷ Event.steps 40 ∷ Event.stop_chosen ∷ [])
          (choose_start (choose_start [])))
choose_start_twice_example =
    choose_start_twice (Event.stop_chosen ∷ Event.steps 40 ∷ Event.stop_chosen ∷ []) []
