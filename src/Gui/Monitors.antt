-- ===== src/Gui/Monitors.antt =====
-- The tab of the leak monitor in gui.py. The monitor that `leak_monitor` holds is the first of the list;
-- those that it held before follow.
use privacy_toolkit.Prelude.{
  ℕ, zero, ◌≤◌, ◌≡◌, refl, arith, Bool, true, false, List, [], ◌∷◌, if◌then◌else◌, Bool-cases, inl,
  inr,
}
use privacy_toolkit.Monitor.Thread.{Lifecycle, new_monitor, is_running, start, advance-idle}
use privacy_toolkit.Cli.Monitors.{choose_stop, advance_all, running, one_if}

-- `_start_monitor`: it refuses while the monitor that it holds is running.
unfoldable pub start_monitor : List Lifecycle → List Lifecycle
start_monitor [] = start new_monitor ∷ []
start_monitor (m ∷ ms) = if is_running m then m ∷ ms else start new_monitor ∷ m ∷ ms

-- The presses of the two buttons, and steps of the threads.
pub data Moment : Type 0 where
  start_pressed stop_pressed : Moment
  steps : ℕ → Moment

-- `_stop_monitor` calls `stop` where there is a monitor.
unfoldable pub pass : Moment → List Lifecycle → List Lifecycle
unfolding start_monitor choose_stop advance_all
pass start_pressed ms = start_monitor ms
pass stop_pressed ms = choose_stop ms
pass (steps n) ms = advance_all n ms

unfoldable pub pass_all : List Moment → List Lifecycle → List Lifecycle
unfolding pass
pass_all [] ms = ms
pass_all (m ∷ moments) ms = pass_all moments (pass m ms)

abbrev Quiet : List Lifecycle → Type 0
Quiet [] = Unit
Quiet (m ∷ ms) = (is_running m ≡ false) × Quiet ms

-- Only the first may be running.
abbrev FirstOnly : List Lifecycle → Type 0
FirstOnly [] = Unit
FirstOnly (m ∷ ms) = Quiet ms

advance_all-Quiet : (n : ℕ) (ms : List Lifecycle) → Quiet ms → Quiet (advance_all n ms)
unfolding advance_all is_running
advance_all-Quiet n [] q = tt
advance_all-Quiet n (m ∷ ms) q =
    (advance-idle n m.stop_set m.thread q.0, advance_all-Quiet n ms q.1)

start_monitor-FirstOnly : (ms : List Lifecycle) → FirstOnly ms → FirstOnly (start_monitor ms)
unfolding start_monitor
start_monitor-FirstOnly [] q = tt
start_monitor-FirstOnly (m ∷ ms) q = elim (Bool-cases (is_running m)) [
  | inl on ↦ rw on q
  | inr off ↦ rw off (off, q)
]

pass-FirstOnly : (m : Moment) (ms : List Lifecycle) → FirstOnly ms → FirstOnly (pass m ms)
unfolding pass choose_stop advance_all
pass-FirstOnly Moment.start_pressed ms q = start_monitor-FirstOnly ms q
pass-FirstOnly Moment.stop_pressed [] q = tt
pass-FirstOnly Moment.stop_pressed (m ∷ ms) q = q
pass-FirstOnly (Moment.steps n) [] q = tt
pass-FirstOnly (Moment.steps n) (m ∷ ms) q = advance_all-Quiet n ms q

pass_all-FirstOnly :
    (moments : List Moment) (ms : List Lifecycle) → FirstOnly ms → FirstOnly (pass_all moments ms)
unfolding pass_all
pass_all-FirstOnly [] ms q = q
pass_all-FirstOnly (m ∷ moments) ms q =
    pass_all-FirstOnly moments (pass m ms) (pass-FirstOnly m ms q)

Quiet-running : (ms : List Lifecycle) → Quiet ms → running ms ≡ zero
unfolding running
Quiet-running [] q = refl
Quiet-running (m ∷ ms) q = let e = q.0 in let rest = Quiet-running ms q.1 in rw (e, rest) refl

one_if_at_most : (b : Bool) → one_if b ≤ 1
one_if_at_most true = omega arith
one_if_at_most false = omega arith

FirstOnly-running : (ms : List Lifecycle) → FirstOnly ms → running ms ≤ 1
unfolding running
FirstOnly-running [] q = omega arith
FirstOnly-running (m ∷ ms) q =
    let rest = Quiet-running ms q in
    let first = one_if_at_most (is_running m) in omega (arith, rest, first)

-- However often the two buttons are pressed and however the threads go on: at most one of the monitors
-- that were made is running.
pub one_monitor : (moments : List Moment) → running (pass_all moments []) ≤ 1
one_monitor moments = FirstOnly-running _ (pass_all-FirstOnly moments [] tt)
