-- ===== src/Tests/Threads.antt =====
-- Two threads whose calls of `update` overlap.
use privacy_toolkit.Prelude.{ℕ, ◌≡◌, refl, arith, eq_iff, true, some, [], ◌∷◌}
use privacy_toolkit.State.{World, load_unlocked, flag, merge, dict_of, save_unlocked}
use privacy_toolkit.State.Threads.{Changes, Pc, set, System, Step, Reach, run_updates}
use privacy_toolkit.State.Threads.Sequential.{update-run_updates, update_excludes}
use privacy_toolkit.Tests.Sim.{sim}
use privacy_toolkit.Tests.Switches.{fresh}

abbrev first : Changes
first = ("tor_kill_switch", flag true) ∷ []

abbrev second : Changes
second = ("vpn_active", flag true) ∷ []

-- Both threads have called, and the first has taken the lock and loaded.
abbrev inside : System sim
inside = record {
  world = fresh;
  lock = some 0;
  pc =
      set
        (set (set (set (λ _. Pc.idle) 0 (Pc.waiting first)) 1 (Pc.waiting second)) 0
          (Pc.holding first))
        0 (Pc.loaded first (load_unlocked fresh.file));
  log = [];
}

inside-Reach : Reach sim fresh inside
inside-Reach =
    Reach.later
      (Reach.later
        (Reach.later (Reach.later Reach.start (Step.call 0 first refl refl))
          (Step.call 1 second refl refl))
        (Step.acquire 0 first refl refl refl))
      (Step.read_state 0 first refl refl)

abbrev once : World sim
once = (save_unlocked sim (merge (load_unlocked fresh.file) (dict_of first)) fresh).1

abbrev twice : World sim
twice = (save_unlocked sim (merge (load_unlocked once.file) (dict_of second)) once).1

-- Both have saved.
abbrev after_both : System sim
after_both = record {
  world = twice;
  lock = some 1;
  pc =
      set
        (set (set (set (set inside.pc 0 Pc.written) 0 Pc.idle) 1 (Pc.holding second)) 1
          (Pc.loaded second (load_unlocked once.file)))
        1 Pc.written;
  log = second ∷ first ∷ [];
}

after_both-Reach : Reach sim fresh after_both
after_both-Reach =
    Reach.later
      (Reach.later
        (Reach.later
          (Reach.later (Reach.later inside-Reach (Step.save_state 0 first _ refl refl refl))
            (Step.release 0 refl refl))
          (Step.acquire 1 second refl refl refl))
        (Step.read_state 1 second refl refl))
      (Step.save_state 1 second _ refl refl refl)

update-run_updates_example :
    load_unlocked twice.file "tor_kill_switch"
    ≡ load_unlocked (run_updates sim (second ∷ first ∷ []) fresh).file "tor_kill_switch"
update-run_updates_example =
    update-run_updates sim fresh after_both-Reach "tor_kill_switch"
      (ground (arith, eq_iff "tor_kill_switch" "last_updated"))

update_excludes_example : ◌≡◌ {A = ℕ} 0 0
update_excludes_example = update_excludes sim fresh inside-Reach 0 0 refl refl
