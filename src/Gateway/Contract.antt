-- ===== src/Gateway/Contract.antt =====
-- What `enable_gateway` and `disable_gateway` do to the state file.
use privacy_toolkit.Prelude.{
  eq_iff, ◌≡◌, refl, arith, Bool, true, false, not, ◌&&◌, ◌||◌, String, Option, List, [], ◌∷◌,
}
use privacy_toolkit.Exec.{◌>>=◌}
use privacy_toolkit.Exec.Ends.{Ends, Ends-imp, Ends-pure, Ends-bind, Ends-if}
use privacy_toolkit.Host.{Host}
use privacy_toolkit.State.{World, StateFile, load_unlocked, load}
use privacy_toolkit.State.Frames.{
  Switched, Switched-unchanged, SameExcept, KeepsFile-on_sys, quiet, member, is_on, recorded_off,
  and_true, not-true,
}
use privacy_toolkit.Environment.{Environment}
use privacy_toolkit.Core.Ipv6.Frames.{ipv6_keys, recorded_and_blocked}
use privacy_toolkit.Gateway.{
  apply_gateway, start_gateway, enable_gateway, end_gateway, disable_gateway,
}

-- Every key that gateway mode may change.
abbrev pub gateway_keys : List String
gateway_keys =
    "gateway_mode_active" ∷ "gateway_iptables_backup" ∷ "gateway_ip6tables_backup"
    ∷ "gateway_config" ∷ "ipv6_blocked" ∷ "last_updated" ∷ []

gateway_keys_wider : (k : String) → member k gateway_keys ≡ false → member k ipv6_keys ≡ false
gateway_keys_wider k m = ground arith

module _ (H : Host) where
  unchanged : (f f' : StateFile) → f' ≡ f → Switched gateway_keys "gateway_mode_active" f false f'
  unchanged f f' e = Switched-unchanged gateway_keys "gateway_mode_active" f f' false (λ z. cc) e

  apply_gateway-Switched :
      (env : Environment) (iface ip : String) (external : Option String) (f : StateFile)
      (w : World H)
      → w.file ≡ f
      → Ends
          (λ b w'. Switched gateway_keys "gateway_mode_active" f b w'.file)
          (λ w'. SameExcept gateway_keys f w'.file)
          (apply_gateway H env iface ip external w)
  unfolding apply_gateway
  apply_gateway-Switched env iface ip external f w start =
      Ends-bind (λ _ w'. w'.file ≡ f) _ (quiet H gateway_keys (KeepsFile-on_sys H _) w start)
        (λ applied w1 e1.
          Ends-if (not applied.0) _ _ (λ _. Ends-pure (unchanged f _ e1))
            (λ _.
              Ends-bind (λ _ w'. w'.file ≡ f) _ (quiet H gateway_keys (KeepsFile-on_sys H _) w1 e1)
                (λ _ w2 e2.
                  recorded_and_blocked H env _ gateway_keys "gateway_mode_active" f w2 e2 refl
                    gateway_keys_wider refl refl)))

  start_gateway-Switched :
      (env : Environment) (iface ip : String) (external : Option String) (f : StateFile)
      (w : World H)
      → w.file ≡ f
      → Ends
          (λ b w'. Switched gateway_keys "gateway_mode_active" f b w'.file)
          (λ w'. SameExcept gateway_keys f w'.file)
          (start_gateway H env iface ip external w)
  unfolding start_gateway
  start_gateway-Switched env iface ip external f w start =
      Ends-bind (λ _ w'. w'.file ≡ f) _ (quiet H gateway_keys (KeepsFile-on_sys H _) w start)
        (λ _ w1 e1. apply_gateway-Switched env iface ip external f w1 e1)

  -- Enabling gateway mode, forced or not. It changes no key of the state file but its own six. If
  -- it answers true, the mode is recorded as active; if it answers false, the state file is as it
  -- was. If it raises, no other key has changed either.
  pub enable_gateway-Switched :
      (env : Environment) (iface ip : String) (external : Option String) (force : Bool)
      (w : World H)
      → Ends
          (λ b w'. Switched gateway_keys "gateway_mode_active" w.file b w'.file)
          (λ w'. SameExcept gateway_keys w.file w'.file)
          (enable_gateway H env iface ip external force w)
  unfolding enable_gateway load ◌>>=◌
  enable_gateway-Switched env iface ip external force w =
      Ends-if env.termux _ _ (λ _. Ends-pure (unchanged w.file w.file refl))
        (λ _.
          Ends-if (not env.root || not env.has_iptables) _ _
            (λ _. Ends-pure (unchanged w.file w.file refl))
            (λ _.
              Ends-if (not env.has_tor) _ _ (λ _. Ends-pure (unchanged w.file w.file refl))
                (λ _.
                  Ends-if (is_on w.file "gateway_mode_active" && not force) _ _
                    (λ on. Ends-pure (
                      Switched-unchanged gateway_keys "gateway_mode_active" w.file w.file true
                        (λ _. (and_true (is_on w.file "gateway_mode_active") (not force) on).0)
                        refl))
                    (λ _.
                      Ends-if
                        (is_on w.file "tor_kill_switch" || is_on w.file "proxy_only_kill_switch") _
                        _ (λ _. Ends-pure (unchanged w.file w.file refl))
                        (λ _. start_gateway-Switched env iface ip external w.file w refl)))))

  end_gateway-off :
      (env : Environment) (f : StateFile) (w : World H)
      → w.file ≡ f
      → Ends
          (λ _ w'.
            SameExcept gateway_keys f w'.file × (is_on w'.file "gateway_mode_active" ≡ false))
          (λ w'. SameExcept gateway_keys f w'.file)
          (end_gateway H env (load_unlocked f) w)
  unfolding end_gateway
  end_gateway-off env f w start =
      Ends-bind (λ _ w'. w'.file ≡ f) _ (quiet H gateway_keys (KeepsFile-on_sys H _) w start)
        (λ _ w1 e1.
          recorded_off H _ gateway_keys "gateway_mode_active" f w1 e1 refl refl
            (ground (arith, eq_iff "gateway_mode_active" "last_updated")))

  -- Disabling gateway mode with root and iptables, outside Termux. It changes no key but its own six,
  -- whether it returns or raises, and when it returns the mode is recorded as off.
  pub disable_gateway-off :
      (env : Environment) (w : World H)
      → env.termux ≡ false
      → env.root ≡ true
      → env.has_iptables ≡ true
      → Ends
          (λ _ w'.
            SameExcept gateway_keys w.file w'.file × (is_on w'.file "gateway_mode_active" ≡ false))
          (λ w'. SameExcept gateway_keys w.file w'.file)
          (disable_gateway H env w)
  unfolding disable_gateway load ◌>>=◌
  disable_gateway-off env w termux root iptables =
      simp (termux, root, iptables)
        (Ends-if (not (is_on w.file "gateway_mode_active")) _ _
          (λ off. Ends-pure (λ k m. refl, not-true _ off)) (λ _. end_gateway-off env w.file w refl))

  -- On any machine, disabling changes no key but the switch's own.
  pub disable_gateway-keeps :
      (env : Environment) (w : World H)
      → Ends
          (λ _ w'. SameExcept gateway_keys w.file w'.file)
          (λ w'. SameExcept gateway_keys w.file w'.file)
          (disable_gateway H env w)
  unfolding disable_gateway load ◌>>=◌
  disable_gateway-keeps env w =
      Ends-if (env.termux || not env.root || not env.has_iptables) _ _
        (λ _. Ends-pure (λ k m. refl))
        (λ _.
          Ends-if (not (is_on w.file "gateway_mode_active")) _ _ (λ _. Ends-pure (λ k m. refl))
            (λ _. Ends-imp _ (λ _ _ k. k.0) (λ _ k. k) (end_gateway-off env w.file w refl)))
