-- ===== src/Exclusion.antt =====
-- The kill switches of privacyguard/core.py and privacyguard/proxy_only.py rewrite the same chains,
-- so each refuses to start beside the other. Here every operation on the switches is run against
-- the one state file, also where it raises half-way.
pub mod Calls
pub mod Typed
pub mod OverGateway
use privacy_toolkit.Prelude.{
  ℕ, ◌≡◌, refl, ◌∙◌, ap, arith, Bool, true, false, not, ◌&&◌, ◌||◌, String, Option, List, [], ◌∷◌,
  Bool-cases, inl, inr,
}
use privacy_toolkit.Exec.{Res, ok, gets, ◌>>=◌}
use privacy_toolkit.Exec.Ends.{Ends, Ends-state, Ends-imp, Ends-pure, Ends-bind, Ends-if}
use privacy_toolkit.Host.{Host}
use privacy_toolkit.State.{World, StateFile, absent, load_unlocked, load, default_state}
use privacy_toolkit.State.Frames.{SameExcept, KeepsFile-on_sys, member, is_on, is_on-same}
use privacy_toolkit.Environment.{Environment}
use privacy_toolkit.Core.{enable_kill_switch, disable_kill_switch, block_ipv6, unblock_ipv6}
use privacy_toolkit.Core.Ipv6.Frames.{ipv6_keys, block_ipv6-SameExcept, unblock_ipv6-SameExcept}
use privacy_toolkit.Core.KillSwitch.Contract.{
  enable_kill_switch-Switched, disable_kill_switch-keeps, kill_switch_keys,
}
use privacy_toolkit.ProxyOnly.{
  Proxy, enable_proxy_kill_switch, admit_proxy_kill_switch, disable_proxy_kill_switch,
}
use privacy_toolkit.ProxyOnly.Contract.{
  enable_proxy_kill_switch-Switched, disable_proxy_kill_switch-keeps, proxy_keys,
}
use privacy_toolkit.Gateway.{enable_gateway, disable_gateway}
use privacy_toolkit.Gateway.Contract.{enable_gateway-Switched, disable_gateway-keeps, gateway_keys}

-- The two kill switches are not both recorded as on.
abbrev pub Exclusive : StateFile → Type 0
Exclusive f = (is_on f "tor_kill_switch" && is_on f "proxy_only_kill_switch") ≡ false

-- One call of the program's operations on the switches.
pub data Op : Type 0 where
  enable_tor : Environment → Bool → ℕ → Op
  disable_tor : Environment → Op
  enable_proxy : Environment → Proxy → Bool → Op
  disable_proxy : Environment → Op
  enable_gate : Environment → String → String → Option String → Bool → Op
  disable_gate : Environment → Op
  block : Environment → Op
  unblock : Environment → Op

module _ (H : Host) where
  -- The world after a call, whether it returns or raises.
  unfoldable pub after : Op → World H → World H
  after (enable_tor env force timeout) w = (enable_kill_switch H env force timeout w).1
  after (disable_tor env) w = (disable_kill_switch H env w).1
  after (enable_proxy env p force) w = (enable_proxy_kill_switch H env p force w).1
  after (disable_proxy env) w = (disable_proxy_kill_switch H env w).1
  after (enable_gate env iface ip external force) w =
      (enable_gateway H env iface ip external force w).1
  after (disable_gate env) w = (disable_gateway H env w).1
  after (block env) w = (block_ipv6 H env w).1
  after (unblock env) w = (unblock_ipv6 H env w).1

  unfoldable pub run_ops : List Op → World H → World H
  unfolding after
  run_ops [] w = w
  run_ops (op ∷ ops) w = run_ops ops (after op w)

  -- While the proxy switch is on and the Tor switch is off, the Tor switch is refused, forced or not,
  -- and nothing at all happens.
  pub enable_kill_switch_refused :
      (env : Environment) (force : Bool) (timeout : ℕ) (w : World H)
      → is_on w.file "tor_kill_switch" ≡ false
      → is_on w.file "proxy_only_kill_switch" ≡ true
      → enable_kill_switch H env force timeout w ≡ (ok false, w)
  unfolding enable_kill_switch load ◌>>=◌
  enable_kill_switch_refused env force timeout w tor proxy = ground arith

  same_flag : {f f' : StateFile} (k : String) {b : Bool} → f' ≡ f → is_on f k ≡ b → is_on f' k ≡ b
  same_flag k e h = ap (λ g. is_on g k) e ∙ h

  refused :
      (env : Environment) (p : Proxy) (force : Bool) (w : World H)
      → is_on w.file "tor_kill_switch" ≡ true
      → is_on w.file "proxy_only_kill_switch" ≡ false
      → admit_proxy_kill_switch H env p force w ≡ (ok false, w)
  unfolding admit_proxy_kill_switch load ◌>>=◌
  refused env p force w tor proxy = ground arith

  -- The other way round: the proxy switch is refused, after its tests of the machine, and the state
  -- file stays as it is.
  pub enable_proxy_kill_switch_refused :
      (env : Environment) (p : Proxy) (force : Bool) (w : World H)
      → is_on w.file "tor_kill_switch" ≡ true
      → is_on w.file "proxy_only_kill_switch" ≡ false
      → Ends
          (λ b w'. (b ≡ false) × (w'.file ≡ w.file))
          (λ w'. w'.file ≡ w.file)
          (enable_proxy_kill_switch H env p force w)
  unfolding enable_proxy_kill_switch
  enable_proxy_kill_switch_refused env p force w tor proxy =
      Ends-if env.termux _ _ (λ _. Ends-pure (refl, refl))
        (λ _.
          Ends-if (not env.root || not env.has_iptables) _ _ (λ _. Ends-pure (refl, refl))
            (λ _.
              Ends-bind (λ _ w'. w' ≡ w) (gets (λ w. H.which "redsocks" w.sys)) (Ends-pure refl)
                (λ installed w1 e1. rw e1 (
                  Ends-if (not installed) _ _ (λ _. Ends-pure (refl, refl))
                    (λ _.
                      Ends-bind (λ _ w'. w'.file ≡ w.file) _ ((KeepsFile-on_sys H _).at w)
                        (λ reached w2 e2.
                          Ends-if (not reached) _ _ (λ _. Ends-pure (refl, e2))
                            (λ _.
                              rw
                                (refused env p force w2 (same_flag "tor_kill_switch" e2 tor)
                                  (same_flag "proxy_only_kill_switch" e2 proxy))
                                (Ends-pure (refl, e2)))))))))

  disable_kill_switch-idle :
      (env : Environment) (w : World H)
      → is_on w.file "tor_kill_switch" ≡ false
      → disable_kill_switch H env w ≡ (ok tt, w)
  unfolding disable_kill_switch load ◌>>=◌
  disable_kill_switch-idle env w tor = ground arith

  disable_proxy_kill_switch-idle :
      (env : Environment) (w : World H)
      → is_on w.file "proxy_only_kill_switch" ≡ false
      → disable_proxy_kill_switch H env w ≡ (ok tt, w)
  unfolding disable_proxy_kill_switch load ◌>>=◌
  disable_proxy_kill_switch-idle env w proxy = ground arith

  tor_off :
      (f : StateFile)
      → Exclusive f
      → is_on f "proxy_only_kill_switch" ≡ true
      → is_on f "tor_kill_switch" ≡ false
  tor_off f x on = ground arith

  proxy_off :
      (f : StateFile)
      → Exclusive f
      → is_on f "tor_kill_switch" ≡ true
      → is_on f "proxy_only_kill_switch" ≡ false
  proxy_off f x on = ground arith

  -- A call that cannot change the proxy switch, when that is off.
  without_proxy :
      (ks : List String) (f f' : StateFile)
      → member "proxy_only_kill_switch" ks ≡ false
      → is_on f "proxy_only_kill_switch" ≡ false
      → SameExcept ks f f'
      → Exclusive f'
  without_proxy ks f f' m off same =
      let off' = is_on-same f f' "proxy_only_kill_switch" (same _ m) ∙ off in ground arith

  without_tor :
      (ks : List String) (f f' : StateFile)
      → member "tor_kill_switch" ks ≡ false
      → is_on f "tor_kill_switch" ≡ false
      → SameExcept ks f f'
      → Exclusive f'
  without_tor ks f f' m off same =
      let off' = is_on-same f f' "tor_kill_switch" (same _ m) ∙ off in ground arith

  pub without_both :
      (ks : List String) (f f' : StateFile)
      → member "tor_kill_switch" ks ≡ false
      → member "proxy_only_kill_switch" ks ≡ false
      → Exclusive f
      → SameExcept ks f f'
      → Exclusive f'
  without_both ks f f' mt mp x same =
      let t = is_on-same f f' "tor_kill_switch" (same _ mt) in
      let p = is_on-same f f' "proxy_only_kill_switch" (same _ mp) in rw (t, p) x

  pub state_after :
      {A : Type 0} (ks : List String) (f : StateFile) (r : Res A × World H)
      → Ends (λ _ w'. SameExcept ks f w'.file) (λ w'. SameExcept ks f w'.file) r
      → SameExcept ks f r.1.file
  state_after ks f r h = Ends-state r h

  enable_tor-Exclusive :
      (env : Environment) (force : Bool) (timeout : ℕ) (w : World H)
      → Exclusive w.file
      → Exclusive (enable_kill_switch H env force timeout w).1.file
  enable_tor-Exclusive env force timeout w x =
      elim (Bool-cases (is_on w.file "proxy_only_kill_switch")) [
        | inl on ↦ rw (enable_kill_switch_refused env force timeout w (tor_off w.file x on) on) x
        | inr off ↦ without_proxy kill_switch_keys w.file _ refl off (
            state_after kill_switch_keys w.file _ (
              Ends-imp _ (λ _ _ k. k.0) (λ _ k. k)
                (enable_kill_switch-Switched H env force timeout w)))
      ]

  disable_tor-Exclusive :
      (env : Environment) (w : World H)
      → Exclusive w.file
      → Exclusive (disable_kill_switch H env w).1.file
  disable_tor-Exclusive env w x = elim (Bool-cases (is_on w.file "proxy_only_kill_switch")) [
    | inl on ↦ rw (disable_kill_switch-idle env w (tor_off w.file x on)) x
    | inr off ↦
        without_proxy kill_switch_keys w.file _ refl off
          (state_after kill_switch_keys w.file _ (disable_kill_switch-keeps H env w))
  ]

  enable_proxy-Exclusive :
      (env : Environment) (p : Proxy) (force : Bool) (w : World H)
      → Exclusive w.file
      → Exclusive (enable_proxy_kill_switch H env p force w).1.file
  enable_proxy-Exclusive env p force w x = elim (Bool-cases (is_on w.file "tor_kill_switch")) [
    | inl on ↦
        rw
          (Ends-state {P = λ w'. w'.file ≡ w.file} _ (
            Ends-imp _ (λ _ _ k. k.1) (λ _ k. k)
              (enable_proxy_kill_switch_refused env p force w on (proxy_off w.file x on))))
          x
    | inr off ↦ without_tor proxy_keys w.file _ refl off (
        state_after proxy_keys w.file _ (
          Ends-imp _ (λ _ _ k. k.0) (λ _ k. k) (enable_proxy_kill_switch-Switched H env p force w)))
  ]

  disable_proxy-Exclusive :
      (env : Environment) (w : World H)
      → Exclusive w.file
      → Exclusive (disable_proxy_kill_switch H env w).1.file
  disable_proxy-Exclusive env w x = elim (Bool-cases (is_on w.file "tor_kill_switch")) [
    | inl on ↦ rw (disable_proxy_kill_switch-idle env w (proxy_off w.file x on)) x
    | inr off ↦
        without_tor proxy_keys w.file _ refl off
          (state_after proxy_keys w.file _ (disable_proxy_kill_switch-keeps H env w))
  ]

  pub after-Exclusive : (op : Op) (w : World H) → Exclusive w.file → Exclusive (after op w).file
  unfolding after
  after-Exclusive (enable_tor env force timeout) w x = enable_tor-Exclusive env force timeout w x
  after-Exclusive (disable_tor env) w x = disable_tor-Exclusive env w x
  after-Exclusive (enable_proxy env p force) w x = enable_proxy-Exclusive env p force w x
  after-Exclusive (disable_proxy env) w x = disable_proxy-Exclusive env w x
  after-Exclusive (enable_gate env iface ip external force) w x =
      without_both gateway_keys w.file _ refl refl x (
        state_after gateway_keys w.file _ (
          Ends-imp _ (λ _ _ k. k.0) (λ _ k. k)
            (enable_gateway-Switched H env iface ip external force w)))
  after-Exclusive (disable_gate env) w x =
      without_both gateway_keys w.file _ refl refl x
        (state_after gateway_keys w.file _ (disable_gateway-keeps H env w))
  after-Exclusive (block env) w x =
      without_both ipv6_keys w.file _ refl refl x
        (state_after ipv6_keys w.file _ (block_ipv6-SameExcept H env w))
  after-Exclusive (unblock env) w x =
      without_both ipv6_keys w.file _ refl refl x
        (state_after ipv6_keys w.file _ (unblock_ipv6-SameExcept H env w))

  run_ops-Exclusive :
      (ops : List Op) (w : World H) → Exclusive w.file → Exclusive (run_ops ops w).file
  unfolding run_ops
  run_ops-Exclusive [] w x = x
  run_ops-Exclusive (op ∷ ops) w x = run_ops-Exclusive ops (after op w) (after-Exclusive op w x)

  -- From a machine with no state file, whatever is called on the Tor switch, the proxy switch, the
  -- gateway and the IPv6 block, in any order, and whichever calls raise: the Tor switch and the
  -- proxy switch are never both recorded as on.
  pub kill_switches-Exclusive :
      (ops : List Op) (w : World H) → w.file ≡ absent → Exclusive (run_ops ops w).file
  unfolding load_unlocked default_state
  kill_switches-Exclusive ops w fresh = run_ops-Exclusive ops w (rw fresh refl)
