-- ===== src/Gui/Threads.antt =====
-- What a thread of the window leaves behind: its exceptions are caught, and nothing is undone.
use privacy_toolkit.Prelude.{◌≡◌, refl}
use privacy_toolkit.Exec.{Exec, Res, ok, raised, proceed, catch_all, ◌>>=◌}
use privacy_toolkit.Gui.{target}

module _ {S A : Type 0} where
  abbrev done : Res A × S → Res (Unit {0}) × S
  done r = proceed r.0 (λ _ s. (ok tt, s)) r.1

  caught-state :
      (r : Res A × S)
      → (elim (done r).0 as (λ _. Res (Unit {0}) × S) [
        | ok a ↦ (ok a, (done r).1)
        | raised e ↦ (ok tt, (done r).1)
      ]).1
        ≡ r.1
  caught-state (ok a, s) = refl
  caught-state (raised e, s) = refl

  pub target-state : (m : Exec S A) (s : S) → (target m s).1 ≡ (m s).1
  unfolding target catch_all ◌>>=◌
  target-state m s = caught-state (m s)
