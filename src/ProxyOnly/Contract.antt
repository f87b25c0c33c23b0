-- ===== src/ProxyOnly/Contract.antt =====
-- What `enable_proxy_kill_switch` and `disable_proxy_kill_switch` do to the state file.
use privacy_toolkit.Prelude.{
  eq_iff, ◌≡◌, refl, arith, Bool, true, false, not, ◌&&◌, ◌||◌, String, List, [], ◌∷◌,
}
use privacy_toolkit.Exec.{gets, ◌>>=◌}
use privacy_toolkit.Exec.Ends.{Ends, Ends-imp, Ends-pure, Ends-bind, Ends-if}
use privacy_toolkit.Host.{Host}
use privacy_toolkit.State.{World, StateFile, load_unlocked, load}
use privacy_toolkit.State.Frames.{
  Switched, Switched-unchanged, SameExcept, KeepsFile-on_sys, quiet, member, is_on, recorded_off,
  and_true, not-true,
}
use privacy_toolkit.Environment.{Environment}
use privacy_toolkit.Core.Ipv6.Frames.{ipv6_keys, recorded_and_blocked}
use privacy_toolkit.ProxyOnly.{
  Proxy, apply_proxy_kill_switch, start_proxy_kill_switch, admit_proxy_kill_switch,
  enable_proxy_kill_switch, end_proxy_kill_switch, disable_proxy_kill_switch,
}

-- Every key that the proxy switch may change.
abbrev pub proxy_keys : List String
proxy_keys =
    "proxy_only_kill_switch" ∷ "nat_iptables_backup" ∷ "ip6tables_backup" ∷ "active_proxy"
    ∷ "ipv6_blocked" ∷ "last_updated" ∷ []

proxy_keys_wider : (k : String) → member k proxy_keys ≡ false → member k ipv6_keys ≡ false
proxy_keys_wider k m = ground arith

module _ (H : Host) where
  unchanged : (f f' : StateFile) → f' ≡ f → Switched proxy_keys "proxy_only_kill_switch" f false f'
  unchanged f f' e = Switched-unchanged proxy_keys "proxy_only_kill_switch" f f' false (λ z. cc) e

  apply_proxy_kill_switch-Switched :
      (env : Environment) (p : Proxy) (f : StateFile) (w : World H)
      → w.file ≡ f
      → Ends
          (λ b w'. Switched proxy_keys "proxy_only_kill_switch" f b w'.file)
          (λ w'. SameExcept proxy_keys f w'.file)
          (apply_proxy_kill_switch H env p w)
  unfolding apply_proxy_kill_switch
  apply_proxy_kill_switch-Switched env p f w start =
      Ends-bind (λ _ w'. w'.file ≡ f) _ (quiet H proxy_keys (KeepsFile-on_sys H _) w start)
        (λ applied w1 e1.
          Ends-if (not applied.0) _ _ (λ _. Ends-pure (unchanged f _ e1))
            (λ _.
              recorded_and_blocked H env _ proxy_keys "proxy_only_kill_switch" f w1 e1 refl
                proxy_keys_wider refl refl))

  start_proxy_kill_switch-Switched :
      (env : Environment) (p : Proxy) (f : StateFile) (w : World H)
      → w.file ≡ f
      → Ends
          (λ b w'. Switched proxy_keys "proxy_only_kill_switch" f b w'.file)
          (λ w'. SameExcept proxy_keys f w'.file)
          (start_proxy_kill_switch H env p w)
  unfolding start_proxy_kill_switch
  start_proxy_kill_switch-Switched env p f w start =
      Ends-bind (λ _ w'. w'.file ≡ f) _ (quiet H proxy_keys (KeepsFile-on_sys H _) w start)
        (λ _ w1 e1.
          Ends-bind (λ _ w'. w'.file ≡ f) _ (quiet H proxy_keys (KeepsFile-on_sys H _) w1 e1)
            (λ _ w2 e2. apply_proxy_kill_switch-Switched env p f w2 e2))

  admit_proxy_kill_switch-Switched :
      (env : Environment) (p : Proxy) (force : Bool) (w : World H)
      → Ends
          (λ b w'. Switched proxy_keys "proxy_only_kill_switch" w.file b w'.file)
          (λ w'. SameExcept proxy_keys w.file w'.file)
          (admit_proxy_kill_switch H env p force w)
  unfolding admit_proxy_kill_switch load ◌>>=◌
  admit_proxy_kill_switch-Switched env p force w =
      Ends-if (is_on w.file "proxy_only_kill_switch" && not force) _ _
        (λ on. Ends-pure (
          Switched-unchanged proxy_keys "proxy_only_kill_switch" w.file w.file true
            (λ _. (and_true (is_on w.file "proxy_only_kill_switch") (not force) on).0) refl))
        (λ _.
          Ends-if (is_on w.file "tor_kill_switch") _ _
            (λ _. Ends-pure (unchanged w.file w.file refl))
            (λ _. start_proxy_kill_switch-Switched env p w.file w refl))

  -- Enabling the proxy kill switch, forced or not. It changes no key of the state file but its own
  -- six. If it answers true, the switch is recorded as on; if it answers false, the state file is
  -- as it was. If it raises, no other key has changed either.
  pub enable_proxy_kill_switch-Switched :
      (env : Environment) (p : Proxy) (force : Bool) (w : World H)
      → Ends
          (λ b w'. Switched proxy_keys "proxy_only_kill_switch" w.file b w'.file)
          (λ w'. SameExcept proxy_keys w.file w'.file)
          (enable_proxy_kill_switch H env p force w)
  unfolding enable_proxy_kill_switch
  enable_proxy_kill_switch-Switched env p force w =
      Ends-if env.termux _ _ (λ _. Ends-pure (unchanged w.file w.file refl))
        (λ _.
          Ends-if (not env.root || not env.has_iptables) _ _
            (λ _. Ends-pure (unchanged w.file w.file refl))
            (λ _.
              Ends-bind (λ _ w'. w' ≡ w) (gets (λ w. H.which "redsocks" w.sys)) (Ends-pure refl)
                (λ installed w1 e1. rw e1 (
                  Ends-if (not installed) _ _ (λ _. Ends-pure (unchanged w.file w.file refl))
                    (λ _.
                      Ends-bind (λ _ w'. w'.file ≡ w.file) _
                        (quiet H proxy_keys (KeepsFile-on_sys H _) w refl)
                        (λ reached w2 e2.
                          Ends-if (not reached) _ _ (λ _. Ends-pure (unchanged w.file w2.file e2))
                            (λ _. rw (← e2) (admit_proxy_kill_switch-Switched env p force w2))))))))

  end_proxy_kill_switch-off :
      (env : Environment) (f : StateFile) (w : World H)
      → w.file ≡ f
      → Ends
          (λ _ w'.
            SameExcept proxy_keys f w'.file × (is_on w'.file "proxy_only_kill_switch" ≡ false))
          (λ w'. SameExcept proxy_keys f w'.file)
          (end_proxy_kill_switch H env (load_unlocked f) w)
  unfolding end_proxy_kill_switch
  end_proxy_kill_switch-off env f w start =
      Ends-bind (λ _ w'. w'.file ≡ f) _ (quiet H proxy_keys (KeepsFile-on_sys H _) w start)
        (λ _ w1 e1.
          Ends-bind (λ _ w'. w'.file ≡ f) _ (quiet H proxy_keys (KeepsFile-on_sys H _) w1 e1)
            (λ _ w2 e2.
              recorded_off H _ proxy_keys "proxy_only_kill_switch" f w2 e2 refl refl
                (ground (arith, eq_iff "proxy_only_kill_switch" "last_updated"))))

  -- Disabling the proxy kill switch with root and iptables, outside Termux. It changes no key but its
  -- own six, whether it returns or raises, and when it returns the switch is recorded as off.
  pub disable_proxy_kill_switch-off :
      (env : Environment) (w : World H)
      → env.termux ≡ false
      → env.root ≡ true
      → env.has_iptables ≡ true
      → Ends
          (λ _ w'.
            SameExcept proxy_keys w.file w'.file × (is_on w'.file "proxy_only_kill_switch" ≡ false))
          (λ w'. SameExcept proxy_keys w.file w'.file)
          (disable_proxy_kill_switch H env w)
  unfolding disable_proxy_kill_switch load ◌>>=◌
  disable_proxy_kill_switch-off env w termux root iptables =
      simp (termux, root, iptables)
        (Ends-if (not (is_on w.file "proxy_only_kill_switch")) _ _
          (λ off. Ends-pure (λ k m. refl, not-true _ off))
          (λ _. end_proxy_kill_switch-off env w.file w refl))

  -- On any machine, disabling changes no key but the switch's own.
  pub disable_proxy_kill_switch-keeps :
      (env : Environment) (w : World H)
      → Ends
          (λ _ w'. SameExcept proxy_keys w.file w'.file)
          (λ w'. SameExcept proxy_keys w.file w'.file)
          (disable_proxy_kill_switch H env w)
  unfolding disable_proxy_kill_switch load ◌>>=◌
  disable_proxy_kill_switch-keeps env w =
      Ends-if (env.termux || not env.root || not env.has_iptables) _ _
        (λ _. Ends-pure (λ k m. refl))
        (λ _.
          Ends-if (not (is_on w.file "proxy_only_kill_switch")) _ _ (λ _. Ends-pure (λ k m. refl))
            (λ _.
              Ends-imp _ (λ _ _ k. k.0) (λ _ k. k) (end_proxy_kill_switch-off env w.file w refl)))
