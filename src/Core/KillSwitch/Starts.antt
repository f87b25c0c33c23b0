-- ===== src/Core/KillSwitch/Starts.antt =====
-- The Tor kill switch on a machine on which nothing fails: it starts.
use privacy_toolkit.Prelude.{
  ℕ, ◌≡◌, refl, Bool, true, false, not, ◌&&◌, String, Option, none, some, List, [], ◌∷◌,
}
use privacy_toolkit.Exec.{◌>>=◌}
use privacy_toolkit.Exec.Ends.{Ends, Ends-imp, Ends-pure, Ends-if}
use privacy_toolkit.Exec.Gives.{Gives, Returns, Gives-bind, Gives-pure, Returns-bind, returns_rules}
use privacy_toolkit.Host.{
  Host, Call, exited, done, TorAnswer, run, run_checked, read_text, write_text, make_dirs, wait,
}
use privacy_toolkit.State.{Json, World, load, update, on_sys, save_unlocked}
use privacy_toolkit.State.Frames.{is_on, Ends-on_sys}
use privacy_toolkit.Environment.{Environment}
use privacy_toolkit.FirewallBackup.{Argv, backup_family, backup_rules, apply_rules, apply_ruleset}
use privacy_toolkit.ProxyTor.{
  find_tor_unit, cached_or_found, resolve_tor_systemd_unit, check_tor_active,
}
use privacy_toolkit.Core.Ipv6.{block_ipv6, run_all_checked}
use privacy_toolkit.Core.KillSwitch.{
  kill_switch_rules, read_if_exists, ensure_transparent_proxy_torrc, restart_if_changed,
  wait_for_tor_bootstrap, apply_kill_switch, start_kill_switch, enable_kill_switch,
}

-- Every program exits with 0, files can be read and written, the state file too, and Tor is reachable.
pub record Healthy (H : Host) : Type 0 where
  pub succeeds :
      (argv : Argv) (t : String) (s : H.Sys)
      → (out : String) × (err : String) × ((H.exec argv t s).0 ≡ exited 0 out err)
  pub readable : (path : String) (s : H.Sys) → (text : String) × (H.read path s ≡ done text)
  pub writable : (path text : String) (s : H.Sys) → (H.write path text s).0 ≡ done tt
  pub storable : (s : H.Sys) → H.storable s ≡ done tt
  pub mkdir_done : (path : String) (s : H.Sys) → (H.mkdir path s).0 ≡ done tt
  pub has_socks : (s : H.Sys) → H.has_module "socks" s ≡ true
  pub reachable : (n : ℕ) (s : H.Sys) → (a : TorAnswer) × ((H.ask_tor n s).0 ≡ some a)

module _ (H : Host) (N : Healthy H) where
  pub run-Gives : (argv : Argv) → Gives (λ f. f.returncode ≡ 0) (run H argv)
  unfolding run
  run-Gives argv = record {
    at = λ s. let (out, err, e) = N.succeeds argv "" s in rw e (Ends-pure refl);
  }

  run-Returns : (argv : Argv) → Returns (run H argv)
  run-Returns argv = record {
    at = λ s. Ends-imp _ (λ _ _ _. tt) (λ _ z. z) ((run-Gives argv).at s);
  }

  run_checked-Returns : (argv : Argv) → Returns (run_checked H argv)
  unfolding run_checked
  run_checked-Returns argv =
      Gives-bind (λ f. f.returncode ≡ 0) (λ _. Unit {0}) _ _ (run-Gives argv)
        (λ f zero. rw zero (search returns_rules))

  read_text-Returns : (path : String) → Returns (read_text H path)
  unfolding read_text
  read_text-Returns path = record {
    at = λ s. let (text, e) = N.readable path s in rw e (Ends-pure tt);
  }

  pub write_text-Returns : (path text : String) → Returns (write_text H path text)
  unfolding write_text
  write_text-Returns path text = record { at = λ s. rw (N.writable path text s) (Ends-pure tt) }

  make_dirs-Returns : (path : String) → Returns (make_dirs H path)
  unfolding make_dirs
  make_dirs-Returns path = record { at = λ s. rw (N.mkdir_done path s) (Ends-pure tt) }

  wait-Returns : (n : ℕ) → Returns (wait H n)
  wait-Returns n = record { at = λ s. Ends-pure tt }

  check_tor_active-Gives :
      (n : ℕ) → Gives (λ o. (a : TorAnswer) × (o ≡ some a)) (check_tor_active H n)
  unfolding check_tor_active ◌>>=◌
  check_tor_active-Gives n = record {
    at = λ s. let (a, e) = N.reachable n s in rw (N.has_socks s) (Ends-pure (a, e));
  }

  pub on_sys-Gives : {A : Type 0} (R : A → Type 0) (m : Call H A) → Gives R m → Gives R (on_sys H m)
  on_sys-Gives R m k = record { at = λ w. Ends-on_sys H (λ a _. R a) (λ _. ⊥) m w (k.at w.sys) }

  pub on_sys-Returns : {A : Type 0} (m : Call H A) → Returns m → Returns (on_sys H m)
  on_sys-Returns m k = on_sys-Gives (λ _. Unit {0}) m k

  pub update-Returns : (changes : List (String × Json)) → Returns (update H changes)
  unfolding update save_unlocked ◌>>=◌
  update-Returns changes = record { at = λ w. rw (N.storable w.sys) (Ends-pure tt) }

  load-Returns : Returns (load H)
  unfolding load
  load-Returns = record { at = λ w. Ends-pure tt }

  ruleset healthy_rules = (
    returns_rules, run-Returns, run_checked-Returns, read_text-Returns, write_text-Returns,
    make_dirs-Returns, wait-Returns, on_sys-Returns, update-Returns, load-Returns,
  )

  backup_rules-Returns : (env : Environment) (label : String) → Returns (backup_rules H env label)
  unfolding backup_rules backup_family
  backup_rules-Returns env label = search healthy_rules depth 12

  torrc-Returns : (path : String) → Returns (ensure_transparent_proxy_torrc H path)
  unfolding ensure_transparent_proxy_torrc read_if_exists
  torrc-Returns path = search healthy_rules depth 14

  cached_or_found-Returns : (o : Option String) → Returns (cached_or_found H o)
  unfolding find_tor_unit
  cached_or_found-Returns none = search healthy_rules depth 10
  cached_or_found-Returns (some unit) = search returns_rules

  resolve-Returns : Returns (resolve_tor_systemd_unit H)
  unfolding resolve_tor_systemd_unit
  resolve-Returns = search (healthy_rules, cached_or_found-Returns)

  restart-Returns : (changed : Bool) → Returns (restart_if_changed H changed)
  unfolding restart_if_changed
  restart-Returns changed = search (healthy_rules, resolve-Returns) depth 12

  run_all_checked-Returns : (argvs : List Argv) → Returns (run_all_checked H argvs)
  unfolding run_all_checked
  run_all_checked-Returns [] = search returns_rules
  run_all_checked-Returns (argv ∷ rest) =
      Returns-bind _ _ (run_checked-Returns argv) (λ _. run_all_checked-Returns rest)

  pub block_ipv6-Returns : (env : Environment) → Returns (block_ipv6 H env)
  unfolding block_ipv6
  block_ipv6-Returns env = search (healthy_rules, run_all_checked-Returns) depth 14

  wait_for_tor_bootstrap-Gives :
      (env : Environment) (timeout : ℕ)
      → Gives (λ b. b ≡ true) (wait_for_tor_bootstrap H env timeout)
  unfolding wait_for_tor_bootstrap
  wait_for_tor_bootstrap-Gives env timeout =
      Gives-bind (λ o. (a : TorAnswer) × (o ≡ some a)) (λ b. b ≡ true) _ _
        (on_sys-Gives (λ o. (a : TorAnswer) × (o ≡ some a)) _ (check_tor_active-Gives 8))
        (λ o h. let (a, e) = h in rw e (Gives-pure (λ b. b ≡ true) true refl))

  apply_rules-Gives :
      (rules : List Argv) (tolerate : List String)
      → Gives (λ b. b ≡ true) (apply_rules H rules tolerate true)
  unfolding apply_rules
  apply_rules-Gives [] tolerate = Gives-pure (λ b. b ≡ true) true refl
  apply_rules-Gives (rule ∷ rules) tolerate =
      Gives-bind (λ f. f.returncode ≡ 0) (λ b. b ≡ true) _ _ (run-Gives rule)
        (λ f zero. rw zero (apply_rules-Gives rules tolerate))

  pub apply_ruleset-Gives :
      (env : Environment) (rules : List Argv) (label : String) (tolerate : List String)
      → Gives (λ r. r.0 ≡ true) (apply_ruleset H env rules label tolerate)
  unfolding apply_ruleset
  apply_ruleset-Gives env rules label tolerate =
      Gives-bind (λ _. Unit {0}) (λ r. r.0 ≡ true) _ _ (backup_rules-Returns env label)
        (λ b _.
          Gives-bind (λ b. b ≡ true) (λ r. r.0 ≡ true) _ _ (apply_rules-Gives rules tolerate)
            (λ good e. rw e (Gives-pure (λ r. r.0 ≡ true) (true, b) refl)))

  apply_kill_switch-Gives : (env : Environment) → Gives (λ b. b ≡ true) (apply_kill_switch H env)
  unfolding apply_kill_switch
  apply_kill_switch-Gives env =
      Gives-bind (λ r. r.0 ≡ true) (λ b. b ≡ true) _ _
        (on_sys-Gives (λ r. r.0 ≡ true) _
          (apply_ruleset-Gives env kill_switch_rules "pre-tor-killswitch" []))
        (λ applied e. rw e (
          Gives-bind (λ _. Unit {0}) (λ b. b ≡ true) _ _ (update-Returns _)
            (λ _ _.
              Gives-bind (λ _. Unit {0}) (λ b. b ≡ true) _ _ (block_ipv6-Returns env)
                (λ _ _. Gives-pure (λ b. b ≡ true) true refl))))

  pub start_kill_switch-Gives :
      (env : Environment) (timeout : ℕ) → Gives (λ b. b ≡ true) (start_kill_switch H env timeout)
  unfolding start_kill_switch
  start_kill_switch-Gives env timeout =
      Gives-bind (λ _. Unit {0}) (λ b. b ≡ true) _ _ (on_sys-Returns _ (torrc-Returns _))
        (λ changed _.
          Gives-bind (λ _. Unit {0}) (λ b. b ≡ true) _ _ (restart-Returns changed)
            (λ _ _.
              Gives-bind (λ b. b ≡ true) (λ b. b ≡ true) _ _
                (wait_for_tor_bootstrap-Gives env timeout)
                (λ up e. rw e (apply_kill_switch-Gives env))))

  -- On a machine on which every program exits with 0, files can be read and written, the state file
  -- too, and Tor is reachable, with root, iptables and Tor, outside Termux, and with the proxy kill
  -- switch not recorded as on: `enable_kill_switch`, forced or not, returns and answers true.
  pub enable_kill_switch_starts :
      (env : Environment) (force : Bool) (timeout : ℕ) (w : World H)
      → env.termux ≡ false
      → env.root ≡ true
      → env.has_iptables ≡ true
      → env.has_tor ≡ true
      → is_on w.file "proxy_only_kill_switch" ≡ false
      → Ends (λ b _. b ≡ true) (λ _. ⊥) (enable_kill_switch H env force timeout w)
  unfolding enable_kill_switch load ◌>>=◌
  enable_kill_switch_starts env force timeout w termux root iptables has_tor proxy =
      simp (termux, root, iptables, has_tor, proxy)
        (Ends-if (is_on w.file "tor_kill_switch" && not force) _ _ (λ _. Ends-pure refl)
          (λ _. (start_kill_switch-Gives env timeout).at w))
