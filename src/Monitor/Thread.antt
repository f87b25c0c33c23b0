-- ===== src/Monitor/Thread.antt =====
-- The thread of privacyguard/monitor.py: start, stop and the loop, as an explicit sequence of what the
-- caller and the thread do.
use privacy_toolkit.Prelude.{
  ℕ, zero, suc, ◌≤◌, ◌≡◌, refl, sym, subst, arith, Bool, true, false, Option, none, some,
  if◌then◌else◌,
}

-- Where the loop of the thread stands: in front of its test of the stop event, in a check, in the wait
-- for the interval, or at its end.
pub data Phase : Type 0 where
  testing checking sleeping ended : Phase

-- `_stop_event` and `_thread`
pub record Lifecycle : Type 0 where
  pub stop_set : Bool
  pub thread : Option Phase

-- `LeakMonitor(…)`
abbrev pub new_monitor : Lifecycle
new_monitor = record { stop_set = false; thread = none }

abbrev pub alive : Option Phase → Bool
alive none = false
alive (some testing) = true
alive (some checking) = true
alive (some sleeping) = true
alive (some ended) = false

unfoldable pub is_running : Lifecycle → Bool
is_running l = alive l.thread

unfoldable pub start : Lifecycle → Lifecycle
unfolding is_running
start l = if is_running l then l else record { stop_set = false; thread = some testing }

-- `stop` sets the event. It then waits for the thread for at most 5 seconds, in which the thread goes
-- on by steps of its own.
unfoldable pub stop : Lifecycle → Lifecycle
stop l = record l { stop_set = true }

-- One step of `_loop`. A set event ends the wait for the interval early.
abbrev pub next_phase : Bool → Phase → Phase
next_phase stop_set testing = if stop_set then ended else checking
next_phase stop_set checking = sleeping
next_phase stop_set sleeping = testing
next_phase stop_set ended = ended

abbrev pub advanced : Bool → Option Phase → Option Phase
advanced stop_set none = none
advanced stop_set (some p) = some (next_phase stop_set p)

unfoldable pub advance : ℕ → Lifecycle → Lifecycle
advance zero l = l
advance (suc n) l = advance n (record l { thread = advanced l.stop_set l.thread })

pub advance-idle :
    (n : ℕ) (b : Bool) (t : Option Phase)
    → alive t ≡ false
    → is_running (advance n (record { stop_set = b; thread = t })) ≡ false
unfolding advance is_running
advance-idle zero b t h = h
advance-idle (suc n) b none h = advance-idle n b none h
advance-idle (suc n) b (some testing) h = cc
advance-idle (suc n) b (some checking) h = cc
advance-idle (suc n) b (some sleeping) h = cc
advance-idle (suc n) b (some ended) h = advance-idle n b (some ended) h

ends_in :
    (n : ℕ) (t : Option Phase)
    → 3 ≤ n
    → is_running (advance n (record { stop_set = true; thread = t })) ≡ false
unfolding advance
ends_in zero t h = absurd (omega (arith, h))
ends_in (suc zero) t h = absurd (omega (arith, h))
ends_in (suc (suc zero)) t h = absurd (omega (arith, h))
ends_in (suc (suc (suc n))) none h = advance-idle n true none refl
ends_in (suc (suc (suc n))) (some testing) h = advance-idle n true (some ended) refl
ends_in (suc (suc (suc n))) (some checking) h = advance-idle n true (some ended) refl
ends_in (suc (suc (suc n))) (some sleeping) h = advance-idle n true (some ended) refl
ends_in (suc (suc (suc n))) (some ended) h = advance-idle n true (some ended) refl

-- With the event set, wherever the thread stands, three of its steps are enough.
told_to_stop :
    (n : ℕ) (l : Lifecycle) → l.stop_set ≡ true → 3 ≤ n → is_running (advance n l) ≡ false
told_to_stop n l set h =
    subst (λ b. is_running (advance n (record { stop_set = b; thread = l.thread })) ≡ false)
      (sym set) (ends_in n l.thread h)

advance-stop_set : (n : ℕ) (l : Lifecycle) → (advance n l).stop_set ≡ l.stop_set
unfolding advance
advance-stop_set zero l = refl
advance-stop_set (suc n) l = advance-stop_set n (record l { thread = advanced l.stop_set l.thread })

-- After `stop`, the thread ends by itself: three of its steps later, or any number more, none is
-- running, wherever it stood.
pub stop_ends : (n : ℕ) (l : Lifecycle) → 3 ≤ n → is_running (advance n (stop l)) ≡ false
unfolding stop
stop_ends n l h = told_to_stop n (stop l) refl h

-- Where the thread is still alive some steps after `stop`, as in a check that takes longer than the 5
-- seconds that `stop` waits, a `start` changes nothing, and the thread ends all the same: three steps
-- later no monitor is running, although `start` was the last call.
pub start-stop_lost :
    (k n : ℕ) (l : Lifecycle)
    → is_running (advance k (stop l)) ≡ true
    → 3 ≤ n
    → is_running (advance n (start (advance k (stop l)))) ≡ false
unfolding start stop
start-stop_lost k n l still h =
    rw still (told_to_stop n (advance k (stop l)) (advance-stop_set k (stop l)) h)
