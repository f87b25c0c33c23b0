-- ===== src/Cli/Monitors.antt =====
-- Choice 27 of the menu of main.py: the monitors that it makes. The newest is first, and is the one that
-- `_monitor_handle` holds.
use privacy_toolkit.Prelude.{
  ℕ, zero, suc, ◌+◌, ◌≤◌, ◌≡◌, refl, sym, subst, arith, Bool, true, false, Option, none, some, List,
  [], ◌∷◌, if◌then◌else◌,
}
use privacy_toolkit.Monitor.Thread.{
  Phase, Lifecycle, new_monitor, alive, is_running, start, stop, advanced, advance,
}

-- `mon = monitor.LeakMonitor(…)`, which becomes the handle, and `mon.start()`
unfoldable pub choose_start : List Lifecycle → List Lifecycle
choose_start monitors = start new_monitor ∷ monitors

-- `_monitor_handle["instance"].stop()`, where there is a handle
unfoldable pub choose_stop : List Lifecycle → List Lifecycle
choose_stop [] = []
choose_stop (m ∷ monitors) = stop m ∷ monitors

unfoldable pub advance_all : ℕ → List Lifecycle → List Lifecycle
advance_all n [] = []
advance_all n (m ∷ monitors) = advance n m ∷ advance_all n monitors

abbrev pub one_if : Bool → ℕ
one_if b = if b then 1 else 0

unfoldable pub running : List Lifecycle → ℕ
running [] = 0
running (m ∷ monitors) = one_if (is_running m) + running monitors

-- What happens later: `stop` is chosen, or every thread takes some steps.
pub data Event : Type 0 where
  stop_chosen : Event
  steps : ℕ → Event

unfoldable pub happen : Event → List Lifecycle → List Lifecycle
unfolding choose_stop advance_all
happen Event.stop_chosen monitors = choose_stop monitors
happen (Event.steps n) monitors = advance_all n monitors

unfoldable pub happen_all : List Event → List Lifecycle → List Lifecycle
happen_all [] monitors = monitors
happen_all (e ∷ events) monitors = happen_all events (happen e monitors)

-- A monitor that nobody has told to stop.
abbrev Going : Lifecycle → Type 0
Going l = (l.stop_set ≡ false) × (alive l.thread ≡ true)

goes_on : (t : Option Phase) → alive t ≡ true → alive (advanced false t) ≡ true
goes_on none h = h
goes_on (some Phase.testing) h = refl
goes_on (some Phase.checking) h = refl
goes_on (some Phase.sleeping) h = refl
goes_on (some Phase.ended) h = h

advance-Going : (n : ℕ) (l : Lifecycle) → Going l → Going (advance n l)
unfolding advance
advance-Going zero l g = g
advance-Going (suc n) l g =
    advance-Going n (record l { thread = advanced l.stop_set l.thread })
      (g.0, subst (λ b. alive (advanced b l.thread) ≡ true) (sym g.0) (goes_on l.thread g.1))

Going-running :
    (m l : Lifecycle) (monitors : List Lifecycle) → Going l → 1 ≤ running (m ∷ l ∷ monitors)
unfolding running is_running
Going-running m l monitors g = rw (g.1) (omega arith)

second_goes_on :
    (events : List Event) (m l : Lifecycle) (monitors : List Lifecycle)
    → Going l
    → 1 ≤ running (happen_all events (m ∷ l ∷ monitors))
unfolding happen_all happen choose_stop advance_all
second_goes_on [] m l monitors g = Going-running m l monitors g
second_goes_on (Event.stop_chosen ∷ events) m l monitors g =
    second_goes_on events (stop m) l monitors g
second_goes_on (Event.steps n ∷ events) m l monitors g =
    second_goes_on events (advance n m) (advance n l) (advance_all n monitors) (advance-Going n l g)

-- Where `start` is chosen twice, whatever monitors there were: from then on, however often `stop` is
-- chosen and however the threads go on, a monitor is running.
pub choose_start_twice :
    (events : List Event) (monitors : List Lifecycle)
    → 1 ≤ running (happen_all events (choose_start (choose_start monitors)))
unfolding choose_start start is_running
choose_start_twice events monitors =
    second_goes_on events (start new_monitor) (start new_monitor) monitors (refl, refl)
