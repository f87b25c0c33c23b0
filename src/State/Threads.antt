-- ===== src/State/Threads.antt =====
-- The lock of privacyguard/state.py. The buttons of the GUI run their actions in threads of one
-- process, so calls of `update` overlap; each takes the lock, loads, saves and lets go, and between
-- these any other thread may go on. A thread that only calls `load` changes nothing, and is left out.
pub mod Sequential
use privacy_toolkit.Prelude.{
  ℕ, ◌≡◌, ◌≢◌, ◌==◌, Option, none, some, String, List, [], ◌∷◌, Bool, true, false, if◌then◌else◌,
}
use privacy_toolkit.Host.{Host, done}
use privacy_toolkit.State.{
  Json, Dict, World, load_unlocked, merge, dict_of, save_unlocked, replaced,
}

abbrev pub Changes : Type 0
Changes = List (String × Json)

-- Where a thread stands in `update`: before `with _LOCK`, in front of the load, in front of the save,
-- and in front of the release.
pub data Pc : Type 0 where
  idle : Pc
  waiting holding : Changes → Pc
  loaded : Changes → Dict → Pc
  written : Pc

abbrev pub set : (ℕ → Pc) → ℕ → Pc → ℕ → Pc
set pc i p j = if i == j then p else pc j

module _ (H : Host) where
  -- `log` has the changes that were saved, the newest first.
  pub record System : Type 0 where
    pub world : World H
    pub lock : Option ℕ
    pub pc : ℕ → Pc
    pub log : List Changes

  pub data Step (s t : System) : Type 0 where
    call :
        (i : ℕ) (c : Changes)
        → s.pc i ≡ idle
        → t ≡ record s { pc = set s.pc i (waiting c) }
        → Step s t
    acquire :
        (i : ℕ) (c : Changes)
        → s.pc i ≡ waiting c
        → s.lock ≡ none
        → t ≡ record s { lock = some i; pc = set s.pc i (holding c) }
        → Step s t
    read_state :
        (i : ℕ) (c : Changes)
        → s.pc i ≡ holding c
        → t ≡ record s { pc = set s.pc i (loaded c (load_unlocked s.world.file)) }
        → Step s t
    save_state :
        (i : ℕ) (c : Changes) (d : Dict)
        → s.pc i ≡ loaded c d
        → H.storable s.world.sys ≡ done tt
        → t ≡ record s {
          world = (save_unlocked H (merge d (dict_of c)) s.world).1;
          pc = set s.pc i written;
          log = c ∷ s.log;
        }
        → Step s t
    -- the disk refuses, and the exception is on its way out of the lock
    save_fails :
        (i : ℕ) (c : Changes) (d : Dict)
        → s.pc i ≡ loaded c d
        → H.storable s.world.sys ≢ done tt
        → t ≡ record s {
          world = (save_unlocked H (merge d (dict_of c)) s.world).1;
          pc = set s.pc i written;
        }
        → Step s t
    release :
        (i : ℕ) → s.pc i ≡ written → t ≡ record s { lock = none; pc = set s.pc i idle } → Step s t
    -- the machine goes on
    pass : (sys : H.Sys) → t ≡ record s { world = record s.world { sys = sys } } → Step s t

  -- No thread is in `update`, and the lock is free.
  abbrev pub init : World H → System
  init w = record { world = w; lock = none; pc = λ _. idle; log = [] }

  pub data Reach (w : World H) : System → Type 0 where
    start : Reach w (init w)
    later : {s t : System} → Reach w s → Step s t → Reach w t

  -- The same calls of `update`, one after the other, where the disk takes each of them.
  unfoldable pub run_updates : List Changes → World H → World H
  run_updates [] w = w
  run_updates (c ∷ log) w =
      let v = run_updates log w in replaced H (merge (load_unlocked v.file) (dict_of c)) v
