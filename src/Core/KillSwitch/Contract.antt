-- ===== src/Core/KillSwitch/Contract.antt =====
-- What `enable_kill_switch` and `disable_kill_switch` do to the state file.
use privacy_toolkit.Prelude.{
  eq_iff, ℕ, ◌≡◌, refl, ◌∙◌, ap, Bool, true, false, not, ◌&&◌, ◌||◌, String, List, [], ◌∷◌, arith,
}
use privacy_toolkit.Exec.{ok, ◌>>=◌}
use privacy_toolkit.Exec.Ends.{Ends, Ends-imp, Ends-pure, Ends-bind, Ends-if}
use privacy_toolkit.Host.{Host}
use privacy_toolkit.State.{World, StateFile, load_unlocked, load}
use privacy_toolkit.State.Frames.{
  quiet, recorded_off, not-true, and_true, Switched, Switched-unchanged, SameExcept, KeepsFile,
  file_rules, KeepsFile-on_sys, member, is_on,
}
use privacy_toolkit.Environment.{Environment}
use privacy_toolkit.ProxyTor.Frames.{resolve_tor_systemd_unit-KeepsFile, start_tor-KeepsFile}
use privacy_toolkit.Core.Ipv6.Frames.{ipv6_keys, recorded_and_blocked}
use privacy_toolkit.Core.KillSwitch.{
  wait_for_tor_bootstrap, restart_if_changed, apply_kill_switch, start_kill_switch, end_kill_switch,
  enable_kill_switch, disable_kill_switch,
}

-- Every key that `enable_kill_switch` may change.
abbrev pub kill_switch_keys : List String
kill_switch_keys =
    "tor_kill_switch" ∷ "iptables_backup" ∷ "ip6tables_backup" ∷ "ipv6_blocked" ∷ "last_updated"
    ∷ []

kill_switch_keys_wider :
    (k : String) → member k kill_switch_keys ≡ false → member k ipv6_keys ≡ false
kill_switch_keys_wider k m = ground arith

module _ (H : Host) where
  pub wait_for_tor_bootstrap-KeepsFile :
      (env : Environment) (timeout : ℕ) → KeepsFile H (wait_for_tor_bootstrap H env timeout)
  unfolding wait_for_tor_bootstrap
  wait_for_tor_bootstrap-KeepsFile env timeout = search (file_rules, start_tor-KeepsFile) depth 10

  pub restart_if_changed-KeepsFile : (changed : Bool) → KeepsFile H (restart_if_changed H changed)
  unfolding restart_if_changed
  restart_if_changed-KeepsFile changed =
      search (file_rules, resolve_tor_systemd_unit-KeepsFile) depth 10

  apply_kill_switch-Switched :
      (env : Environment) (f : StateFile) (w : World H)
      → w.file ≡ f
      → Ends
          (λ b w'. Switched kill_switch_keys "tor_kill_switch" f b w'.file)
          (λ w'. SameExcept kill_switch_keys f w'.file)
          (apply_kill_switch H env w)
  unfolding apply_kill_switch
  apply_kill_switch-Switched env f w start =
      Ends-bind (λ _ w'. w'.file ≡ f) _
        (Ends-imp _ (λ _ _ e. e ∙ start) (λ _ e k m. ap (λ g. load_unlocked g k) (e ∙ start))
          ((KeepsFile-on_sys H _).at w))
        (λ applied w1 e1.
          Ends-if (not applied.0) _ _
            (λ _.
              Ends-pure
                (Switched-unchanged kill_switch_keys "tor_kill_switch" f _ false (λ z. cc) e1))
            (λ _.
              recorded_and_blocked H env _ kill_switch_keys "tor_kill_switch" f w1 e1 refl
                kill_switch_keys_wider refl refl))

  -- What `enable_kill_switch` does to the state file `f`, in a world where the switch may start.
  pub start_kill_switch-Switched :
      (env : Environment) (timeout : ℕ) (f : StateFile) (w : World H)
      → w.file ≡ f
      → Ends
          (λ b w'. Switched kill_switch_keys "tor_kill_switch" f b w'.file)
          (λ w'. SameExcept kill_switch_keys f w'.file)
          (start_kill_switch H env timeout w)
  unfolding start_kill_switch
  start_kill_switch-Switched env timeout f w start =
      Ends-bind (λ _ w'. w'.file ≡ f) _ (quiet H kill_switch_keys (KeepsFile-on_sys H _) w start)
        (λ changed w1 e1.
          Ends-bind (λ _ w'. w'.file ≡ f) _
            (quiet H kill_switch_keys (restart_if_changed-KeepsFile changed) w1 e1)
            (λ _ w2 e2.
              Ends-bind (λ _ w'. w'.file ≡ f) _
                (quiet H kill_switch_keys (wait_for_tor_bootstrap-KeepsFile env timeout) w2 e2)
                (λ up w3 e3.
                  Ends-if up _ _ (λ _. apply_kill_switch-Switched env f w3 e3)
                    (λ _. Ends-pure (
                      Switched-unchanged kill_switch_keys "tor_kill_switch" f _ false (λ z. cc)
                        e3)))))

  -- Enabling the Tor kill switch, forced or not. It changes no key of the state file but the
  -- switch's own five. If it answers true, the switch is recorded as on; if it answers false, the
  -- state file is as it was. If it raises, no other key has changed either.
  pub enable_kill_switch-Switched :
      (env : Environment) (force : Bool) (timeout : ℕ) (w : World H)
      → Ends
          (λ b w'. Switched kill_switch_keys "tor_kill_switch" w.file b w'.file)
          (λ w'. SameExcept kill_switch_keys w.file w'.file)
          (enable_kill_switch H env force timeout w)
  unfolding enable_kill_switch load ◌>>=◌
  enable_kill_switch-Switched env force timeout w =
      Ends-if env.termux _ _ (λ _. declined)
        (λ _.
          Ends-if (not env.root || not env.has_iptables) _ _ (λ _. declined)
            (λ _.
              Ends-if (not env.has_tor) _ _ (λ _. declined)
                (λ _.
                  Ends-if (is_on w.file "tor_kill_switch" && not force) _ _
                    (λ on. Ends-pure (
                      Switched-unchanged kill_switch_keys "tor_kill_switch" w.file w.file true
                        (λ _. (and_true (is_on w.file "tor_kill_switch") (not force) on).0) refl))
                    (λ _.
                      Ends-if (is_on w.file "proxy_only_kill_switch") _ _ (λ _. declined)
                        (λ _. start_kill_switch-Switched env timeout w.file w refl)))))
    where
      declined :
          Ends {A = Bool}
            (λ b w'. Switched kill_switch_keys "tor_kill_switch" w.file b w'.file)
            (λ w'. SameExcept kill_switch_keys w.file w'.file)
            (ok false, w)
      declined =
          Ends-pure (
            Switched-unchanged kill_switch_keys "tor_kill_switch" w.file w.file false (λ z. cc)
              refl)

  end_kill_switch-off :
      (env : Environment) (f : StateFile) (w : World H)
      → w.file ≡ f
      → Ends
          (λ _ w'.
            SameExcept kill_switch_keys f w'.file × (is_on w'.file "tor_kill_switch" ≡ false))
          (λ w'. SameExcept kill_switch_keys f w'.file)
          (end_kill_switch H env (load_unlocked f) w)
  unfolding end_kill_switch
  end_kill_switch-off env f w start =
      Ends-bind (λ _ w'. w'.file ≡ f) _ (quiet H kill_switch_keys (KeepsFile-on_sys H _) w start)
        (λ _ w1 e1.
          recorded_off H _ kill_switch_keys "tor_kill_switch" f w1 e1 refl refl
            (ground (arith, eq_iff "tor_kill_switch" "last_updated")))

  -- Disabling the Tor kill switch with root and iptables, outside Termux. It changes no key but the
  -- switch's own five, whether it returns or raises, and when it returns the switch is recorded as
  -- off.
  pub disable_kill_switch-off :
      (env : Environment) (w : World H)
      → env.termux ≡ false
      → env.root ≡ true
      → env.has_iptables ≡ true
      → Ends
          (λ _ w'.
            SameExcept kill_switch_keys w.file w'.file × (is_on w'.file "tor_kill_switch" ≡ false))
          (λ w'. SameExcept kill_switch_keys w.file w'.file)
          (disable_kill_switch H env w)
  unfolding disable_kill_switch load ◌>>=◌
  disable_kill_switch-off env w termux root iptables =
      simp (termux, root, iptables)
        (Ends-if (not (is_on w.file "tor_kill_switch")) _ _
          (λ off. Ends-pure (λ k m. refl, not-true _ off))
          (λ _. end_kill_switch-off env w.file w refl))

  -- On any machine, disabling changes no key but the switch's own.
  pub disable_kill_switch-keeps :
      (env : Environment) (w : World H)
      → Ends
          (λ _ w'. SameExcept kill_switch_keys w.file w'.file)
          (λ w'. SameExcept kill_switch_keys w.file w'.file)
          (disable_kill_switch H env w)
  unfolding disable_kill_switch load ◌>>=◌
  disable_kill_switch-keeps env w =
      Ends-if (env.termux || not env.root || not env.has_iptables) _ _
        (λ _. Ends-pure (λ k m. refl))
        (λ _.
          Ends-if (not (is_on w.file "tor_kill_switch")) _ _ (λ _. Ends-pure (λ k m. refl))
            (λ _. Ends-imp _ (λ _ _ k. k.0) (λ _ k. k) (end_kill_switch-off env w.file w refl)))
