-- ===== src/Filter/Untouched.antt =====
-- The calls between the rules and the answer of `enable_kill_switch` and `enable_gateway`: the state
-- file and the commands of ip6tables.
use privacy_toolkit.Prelude.{◌≡◌, refl, ◌∙◌, ap, String, true, List, [], ◌∷◌}
use privacy_toolkit.Exec.{Exec}
use privacy_toolkit.Exec.Ends.{Ends-imp, Ends-state}
use privacy_toolkit.Exec.Keeps.{Keeps, Keeps-bind, Keeps-if, Keeps-pure, keeps_rules}
use privacy_toolkit.Host.{Host, Call, run, run_checked}
use privacy_toolkit.State.{Json, World, load, update, on_sys}
use privacy_toolkit.State.Laws.{update_lem}
use privacy_toolkit.Environment.{Environment}
use privacy_toolkit.FirewallBackup.{Argv}
use privacy_toolkit.FirewallBackup.Laws.{is_tool6}
use privacy_toolkit.Core.Ipv6.{block_ipv6, run_all_checked, block_commands}
use privacy_toolkit.Gateway.{lock_forward6}
use privacy_toolkit.Filter.{Tables, FilterLaws}
use privacy_toolkit.Filter.Replay.{run_lem}

abbrev All6 : List Argv → Type 0
All6 [] = Unit
All6 (argv ∷ rest) = (is_tool6 argv ≡ true) × All6 rest

module _ (H : Host) (L : FilterLaws H) (t : Tables) where
  open L use {tables}

  abbrev pub Fixed : {A : Type 0} → Call H A → Type 0
  Fixed m = Keeps (λ s. tables s ≡ t) m

  abbrev pub Untouched : {A : Type 0} → Exec (World H) A → Type 0
  Untouched m = Keeps (λ w. tables w.sys ≡ t) m

  pub run-Fixed : (argv : Argv) → is_tool6 argv ≡ true → Fixed (run H argv)
  run-Fixed argv six = record {
    at = λ s e.
        ap tables (
          Ends-state {P = λ s'. s' ≡ (H.exec argv "" s).1} _
            (Ends-imp _ (λ _ _ k. k.0) (λ _ k. k) (run_lem H argv s)))
        ∙ (L.frame6 argv "" s six ∙ e);
  }

  run_checked-Fixed : (argv : Argv) → is_tool6 argv ≡ true → Fixed (run_checked H argv)
  unfolding run_checked
  run_checked-Fixed argv six = Keeps-bind _ _ _ (run-Fixed argv six) (λ f. search keeps_rules)

  pub run_all_checked-Fixed : (argvs : List Argv) → All6 argvs → Fixed (run_all_checked H argvs)
  unfolding run_all_checked
  run_all_checked-Fixed [] all = search keeps_rules
  run_all_checked-Fixed (argv ∷ rest) all =
      Keeps-bind _ _ _ (run_checked-Fixed argv all.0) (λ _. run_all_checked-Fixed rest all.1)

  pub on_sys-Untouched : {A : Type 0} (m : Call H A) → Fixed m → Untouched (on_sys H m)
  unfolding on_sys
  on_sys-Untouched m k = record { at = λ w e. k.at w.sys e }

  pub update-Untouched : (changes : List (String × Json)) → Untouched (update H changes)
  update-Untouched changes = record {
    at = λ w e.
        Ends-state {P = λ w'. tables w'.sys ≡ t} (update H changes w)
          (Ends-imp _ (λ _ _ k. rw k.1 e) (λ _ k. rw k e) (update_lem H changes w));
  }

  load-Untouched : Untouched (load H)
  unfolding load
  load-Untouched = record { at = λ w e. e }

  block_commands-Untouched : Untouched (on_sys H (run_all_checked H block_commands))
  block_commands-Untouched =
      on_sys-Untouched _
        (run_all_checked-Fixed block_commands (refl, (refl, (refl, (refl, (refl, (refl, tt)))))))

  pub block_ipv6-Untouched : (env : Environment) → Untouched (block_ipv6 H env)
  unfolding block_ipv6
  block_ipv6-Untouched env =
      search (keeps_rules, load-Untouched, update-Untouched, block_commands-Untouched) depth 12

  lock_forward6-Fixed : (env : Environment) → Fixed (lock_forward6 H env)
  unfolding lock_forward6
  lock_forward6-Fixed env =
      Keeps-if _ env.has_ip6tables _ _
        (Keeps-bind _ _ _ (run-Fixed ("ip6tables" ∷ "-P" ∷ "FORWARD" ∷ "DROP" ∷ []) refl) (λ _.
          Keeps-bind _ _ _ (run-Fixed ("ip6tables" ∷ "-F" ∷ "FORWARD" ∷ []) refl)
            (λ _. Keeps-pure _ tt)))
        (Keeps-pure _ tt)

  pub lock_forward6-Untouched : (env : Environment) → Untouched (on_sys H (lock_forward6 H env))
  lock_forward6-Untouched env = on_sys-Untouched _ (lock_forward6-Fixed env)
