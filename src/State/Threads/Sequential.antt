-- ===== src/State/Threads/Sequential.antt =====
-- Overlapping calls of `update` leave what the same calls one after the other would leave.
use privacy_toolkit.Prelude.{
  ℕ, ◌≡◌, ◌≢◌, refl, sym, ◌∙◌, ap, subst, arith, ◌==◌, Option, none, some, String, List, ◌∷◌, Bool,
  true, false, Bool-cases, inl, inr,
}
use privacy_toolkit.Host.{Host, Io, done, denied, broken}
use privacy_toolkit.State.{
  Dict, World, StateFile, load_unlocked, merge, dict_of, save_unlocked, stored_if, replaced,
  or_else,
}
use privacy_toolkit.State.Laws.{load-replaced}
use privacy_toolkit.State.Threads.{
  Changes, Pc, idle, waiting, holding, loaded, written, set, System, Step, init, Reach, run_updates,
}

-- Between taking the lock and letting it go.
abbrev pub in_lock : Pc → Bool
in_lock idle = false
in_lock (waiting c) = false
in_lock (holding c) = true
in_lock (loaded c d) = true
in_lock written = true

equal : (i j : ℕ) → (i == j) ≡ true → i ≡ j
equal i j h = ground arith

itself : (i : ℕ) → (i == i) ≡ true
itself i = ground arith

-- One thread has moved to `p`: what is known of each thread, from what is known of `p` and of the others.
moved :
    (P : ℕ → Pc → Type 0) (pc : ℕ → Pc) (i : ℕ) (p : Pc)
    → P i p
    → ((j : ℕ) → (i == j) ≡ false → P j (pc j))
    → (j : ℕ) → P j (set pc i p j)
moved P pc i p here others j = elim (Bool-cases (i == j)) [
  | inl e ↦ rw e (subst (λ n. P n p) (equal i j e) here)
  | inr e ↦ rw e (others j e)
]

alone : (i j : ℕ) (lock : Option ℕ) → lock ≡ some i → lock ≡ some j → (i == j) ≡ false → ⊥
alone i j lock hi hj ne = (let e = itself i in ground arith)

-- The owner and the loaded dict of one thread, as `Inv` asks for them.
abbrev Owns : Option ℕ → ℕ → Pc → Type 0
Owns lock j p = in_lock p ≡ true → lock ≡ some j

abbrev Current : Dict → Pc → Type 0
Current now p = (c : Changes) (d : Dict) → p ≡ loaded c d → d ≡ now

loaded-in_lock : {p : Pc} {c : Changes} {d : Dict} → p ≡ loaded c d → in_lock p ≡ true
loaded-in_lock e = ap in_lock e

module _ (H : Host) where
  -- A thread in the lock is the one that the lock names, what it has loaded is what the file holds,
  -- and the file holds what the saves so far have made of it one by one.
  pub record Inv (w : World H) (s : System H) : Type 0 where
    pub owner : (i : ℕ) → Owns s.lock i (s.pc i)
    pub current : (i : ℕ) → Current (load_unlocked s.world.file) (s.pc i)
    pub serial :
        (k : String)
        → k ≢ "last_updated"
        → load_unlocked s.world.file k ≡ load_unlocked (run_updates H s.log w).file k

  init-Inv : (w : World H) → Inv w (init H w)
  unfolding run_updates
  init-Inv w = record { owner = λ i h. cc; current = λ i c d h. cc; serial = λ k n. refl }

  abbrev saved_file : World H → Dict → Changes → StateFile
  saved_file v d c = (save_unlocked H (merge d (dict_of c)) v).1.file

  accepted :
      (v : World H) (d : Dict)
      → H.storable v.sys ≡ done tt
      → (save_unlocked H d v).1 ≡ replaced H d v
  unfolding save_unlocked
  accepted v d takes = rw takes refl

  refused_if :
      (io : Io (Unit {0})) (d : Dict) (v : World H) → io ≢ done tt → (stored_if H io d v).1 ≡ v
  refused_if (done u) d v not_done = absurd (not_done refl)
  refused_if denied d v not_done = refl
  refused_if broken d v not_done = refl

  refused : (v : World H) (d : Dict) → H.storable v.sys ≢ done tt → (save_unlocked H d v).1 ≡ v
  unfolding save_unlocked
  refused v d not_done = refused_if (H.storable v.sys) d v not_done

  -- A save of what was loaded and changed is one more `update`.
  saved-serial :
      (w v : World H) (log : List Changes) (c : Changes) (d : Dict) (k : String)
      → k ≢ "last_updated"
      → H.storable v.sys ≡ done tt
      → d ≡ load_unlocked v.file
      → load_unlocked v.file k ≡ load_unlocked (run_updates H log w).file k
      → load_unlocked (saved_file v d c) k ≡ load_unlocked (run_updates H (c ∷ log) w).file k
  unfolding run_updates
  saved-serial w v log c d k n takes fresh before =
      ap (λ x. load_unlocked (saved_file v x c) k) fresh
      ∙ ap (λ u. load_unlocked u.file k)
          (accepted v (merge (load_unlocked v.file) (dict_of c)) takes)
      ∙ load-replaced H c v k n
      ∙ ap (or_else (dict_of c k)) before
      ∙ sym (load-replaced H c (run_updates H log w) k n)

  Step-Inv : (w : World H) (s t : System H) → Step H s t → Inv w s → Inv w t
  Step-Inv w s t (Step.call i c at e) inv = subst (Inv w) (sym e) (record {
    owner = moved (Owns s.lock) s.pc i (waiting c) (λ h. cc) (λ j n. inv.owner j);
    current = moved (λ _. Current now) s.pc i (waiting c) (λ c' d h. cc) (λ j n. inv.current j);
    serial = inv.serial;
  })
    where
      now : Dict
      now = load_unlocked s.world.file
  Step-Inv w s t (Step.acquire i c at free e) inv = subst (Inv w) (sym e) (record {
    owner =
        moved (Owns (some i)) s.pc i (holding c) (λ h. refl)
          (λ j n h. let taken = inv.owner j h in cc);
    current =
        moved (λ _. Current (load_unlocked s.world.file)) s.pc i (holding c) (λ c' d h. cc)
          (λ j n. inv.current j);
    serial = inv.serial;
  })
  Step-Inv w s t (Step.read_state i c at e) inv = subst (Inv w) (sym e) (record {
    owner =
        moved (Owns s.lock) s.pc i (loaded c (load_unlocked s.world.file))
          (λ h. inv.owner i (ap in_lock at)) (λ j n. inv.owner j);
    current =
        moved (λ _. Current (load_unlocked s.world.file)) s.pc i
          (loaded c (load_unlocked s.world.file)) (λ c' d h. cc) (λ j n. inv.current j);
    serial = inv.serial;
  })
  Step-Inv w s t (Step.save_state i c d at takes e) inv = subst (Inv w) (sym e) (record {
    owner =
        moved (Owns s.lock) s.pc i written (λ h. inv.owner i (ap in_lock at)) (λ j n. inv.owner j);
    current =
        moved (λ _. Current (load_unlocked (saved_file s.world d c))) s.pc i written (λ c' d' h. cc)
          (λ j n c' d' h.
            absurd
              (alone i j s.lock (inv.owner i (ap in_lock at)) (inv.owner j (loaded-in_lock h)) n));
    serial =
        λ k n. saved-serial w s.world s.log c d k n takes (inv.current i c d at) (inv.serial k n);
  })
  Step-Inv w s t (Step.save_fails i c d at not_done e) inv = subst (Inv w) (sym e) (
      rw (refused s.world (merge d (dict_of c)) not_done) (record {
        owner =
            moved (Owns s.lock) s.pc i written (λ h. inv.owner i (ap in_lock at))
              (λ j n. inv.owner j);
        current =
            moved (λ _. Current (load_unlocked s.world.file)) s.pc i written (λ c' d' h. cc)
              (λ j n. inv.current j);
        serial = inv.serial;
      }))
  Step-Inv w s t (Step.release i at e) inv = subst (Inv w) (sym e) (record {
    owner =
        moved (Owns none) s.pc i idle (λ h. cc)
          (λ j n h. absurd (alone i j s.lock (inv.owner i (ap in_lock at)) (inv.owner j h) n));
    current =
        moved (λ _. Current (load_unlocked s.world.file)) s.pc i idle (λ c d h. cc)
          (λ j n. inv.current j);
    serial = inv.serial;
  })
  Step-Inv w s t (Step.pass sys e) inv =
      subst (Inv w) (sym e)
        (record { owner = inv.owner; current = inv.current; serial = inv.serial })

  Reach-Inv : (w : World H) {s : System H} → Reach H w s → Inv w s
  Reach-Inv w Reach.start = init-Inv w
  Reach-Inv w (Reach.later {s} {t} r st) = Step-Inv w s t st (Reach-Inv w r)

  -- However the calls of `update` of any number of threads overlap, in every state that is reached
  -- from one where none has begun: at each key but the time stamp, a load gives what it would give had
  -- the calls that have saved run one after the other, in the order of their saves. A call whose save
  -- the disk refuses leaves no trace; no other one is lost.
  pub update-run_updates :
      (w : World H) {s : System H}
      → Reach H w s
      → (k : String) → k ≢ "last_updated"
      → load_unlocked s.world.file k ≡ load_unlocked (run_updates H s.log w).file k
  update-run_updates w r k n = (Reach-Inv w r).serial k n

  -- In every such state, two threads that are both between taking the lock and letting it go are one
  -- thread.
  pub update_excludes :
      (w : World H) {s : System H}
      → Reach H w s
      → (i j : ℕ) → in_lock (s.pc i) ≡ true
      → in_lock (s.pc j) ≡ true
      → i ≡ j
  update_excludes w {s} r i j hi hj =
      let li = (Reach-Inv w r).owner i hi in let lj = (Reach-Inv w r).owner j hj in cc
