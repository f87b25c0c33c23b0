-- ===== src/Monitor/Loop.antt =====
-- The loop of the leak monitor, and what its checks raise.
use privacy_toolkit.Prelude.{
  ℕ, ◌≡◌, refl, String, Bool, true, false, Option, none, some, List, [], ◌∷◌,
}
use privacy_toolkit.Exec.{Res, ok, raised, modify}
use privacy_toolkit.Exec.Ends.{Ends, Ends-pure, Ends-bind, Ends-catch_all}
use privacy_toolkit.Exec.Keeps.{Keeps, keeps_rules}
use privacy_toolkit.Host.{Host, Call, wait}
use privacy_toolkit.Monitor.{
  Alert, Monitor, at_sys, alert, check_tunnel, compare_ip, check_ip, check_once, check_guarded,
  loop,
}

abbrev pub is_known : Option String → Bool
is_known none = false
is_known (some _) = true

module _ (H : Host) where
  abbrev pub Known : Monitor H → Type 0
  Known v = is_known v.baseline_ip ≡ true

  at_sys-Known : {A : Type 0} (m : Call H A) → Keeps Known (at_sys H m)
  unfolding at_sys
  at_sys-Known m = record { at = λ v h. h }

  alert-Known : (a : Alert) → Keeps Known (alert H a)
  alert-Known a = record { at = λ v h. h }

  abbrev with_baseline : String → Monitor H → Monitor H
  with_baseline ip v = record v { baseline_ip = some ip }

  set-Known : (ip : String) → Keeps Known (modify (with_baseline ip))
  set-Known ip = record { at = λ v h. refl }

  ruleset known_rules = (keeps_rules, at_sys-Known, alert-Known, set-Known)

  check_tunnel-Known : (ip : String) → Keeps Known (check_tunnel H ip)
  unfolding check_tunnel
  check_tunnel-Known ip = search known_rules depth 12

  compare_ip-Known : (ip baseline : String) → Keeps Known (compare_ip H ip baseline)
  unfolding compare_ip
  compare_ip-Known ip baseline = search known_rules depth 12

  check_ip-Known :
      (expect_tunnel : Bool) (ip : String) (b : Option String)
      → Keeps Known (check_ip H expect_tunnel ip b)
  unfolding check_ip
  check_ip-Known expect_tunnel ip none = set-Known ip
  check_ip-Known expect_tunnel ip (some baseline) =
      search (known_rules, check_tunnel-Known, compare_ip-Known) depth 12

  check_once-Known : (expect_tunnel : Bool) → Keeps Known (check_once H expect_tunnel)
  unfolding check_once
  check_once-Known expect_tunnel = search (known_rules, check_ip-Known) depth 12

  from_state : {A : Type 0} (r : Res A × Monitor H) → Known r.1 → Ends (λ _. Known) Known r
  from_state (ok a, v) h = Ends-pure h
  from_state (raised e, v) h = record { at = h }

  check_guarded-Known :
      (expect_tunnel : Bool) (v : Monitor H)
      → Known v
      → Ends (λ _. Known) (λ _. ⊥) (check_guarded H expect_tunnel v)
  unfolding check_guarded
  check_guarded-Known expect_tunnel v h =
      Ends-catch_all Known _ (from_state _ ((check_once-Known expect_tunnel).at v h))
        (λ v' h'. Ends-pure h')

  wait-Known :
      (interval : ℕ) (v : Monitor H)
      → Known v
      → Ends (λ _. Known) (λ _. ⊥) (at_sys H (wait H interval) v)
  unfolding at_sys
  wait-Known interval v h = Ends-pure h

  -- Once the monitor knows a baseline address, its loop never raises, whatever its checks raise, and
  -- it never loses the baseline, for as many rounds as the stop event is found unset.
  pub loop-Known :
      (tests : List Bool) (expect_tunnel : Bool) (interval : ℕ) (v : Monitor H)
      → is_known v.baseline_ip ≡ true
      → Ends
          (λ _ v'. is_known v'.baseline_ip ≡ true)
          (λ _. ⊥)
          (loop H tests expect_tunnel interval v)
  unfolding loop
  loop-Known [] expect_tunnel interval v h = Ends-pure h
  loop-Known (true ∷ tests) expect_tunnel interval v h = Ends-pure h
  loop-Known (false ∷ tests) expect_tunnel interval v h =
      Ends-bind (λ _. Known) _ (check_guarded-Known expect_tunnel v h)
        (λ _ v1 h1.
          Ends-bind (λ _. Known) _ (wait-Known interval v1 h1)
            (λ _ v2 h2. loop-Known tests expect_tunnel interval v2 h2))
