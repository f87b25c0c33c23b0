-- ===== src/Exclusion/Calls.antt =====
-- What each call of the program does to the records of the two kill switches.
use privacy_toolkit.Prelude.{
  ℕ, ◌≡◌, refl, sym, ap, subst, Bool, false, String, Option, List, inl, inr,
}
use privacy_toolkit.Exec.{Exec, ◌>>◌}
use privacy_toolkit.Exec.Ends.{Ends, Ends-state, Ends-imp}
use privacy_toolkit.Exec.Keeps.{Keeps, keeps_rules}
use privacy_toolkit.Host.{Host, Call}
use privacy_toolkit.State.{World, load, load_unlocked, on_sys}
use privacy_toolkit.State.Frames.{SameExcept, KeepsFile, KeepsFile-on_sys, member}
use privacy_toolkit.Environment.{Environment}
use privacy_toolkit.Core.{enable_kill_switch, disable_kill_switch}
use privacy_toolkit.ProxyTor.{start_tor, stop_tor}
use privacy_toolkit.ProxyTor.Frames.{start_tor-KeepsFile, stop_tor-KeepsFile}
use privacy_toolkit.ProxyOnly.{Proxy, enable_proxy_kill_switch, disable_proxy_kill_switch}
use privacy_toolkit.Gateway.{enable_gateway, disable_gateway}
use privacy_toolkit.AntiRecon.{
  enable_stealth_sysctls, enable_portscan_protection, disable_stealth_sysctls,
  disable_portscan_protection,
}
use privacy_toolkit.AntiRecon.Contract.{
  sysctl_keys, portscan_keys, enable_stealth_sysctls-keeps, disable_stealth_sysctls-keeps,
  enable_portscan_protection-Switched, disable_portscan_protection-keeps,
}
use privacy_toolkit.Vpn.{forget_vpn, start_openvpn, stop_openvpn, start_wireguard, stop_wireguard}
use privacy_toolkit.Vpn.Contract.{vpn_keys, stopped, start_openvpn-Started, start_wireguard-Started}
use privacy_toolkit.Verify.{verify_active}
use privacy_toolkit.Workstation.{configure_networking}
use privacy_toolkit.Workstation.Configured.{Outcome, workstation_keys, configure_networking-Outcome}
use privacy_toolkit.Orchestrate.{start_linux, full_start, stop_linux, full_stop}
use privacy_toolkit.Exclusion.{
  Exclusive, enable_tor, disable_tor, enable_proxy, disable_proxy, enable_gate, disable_gate, after,
  after-Exclusive, without_both, state_after,
}

module _ (H : Host) where
  abbrev pub Excludes : World H → Type 0
  Excludes w = Exclusive w.file

  -- A call that keeps the kill switches exclusive.
  abbrev pub Safe : {A : Type 0} → Exec (World H) A → Type 0
  Safe m = Keeps Excludes m

  KeepsFile-Safe : {A : Type 0} (m : Exec (World H) A) → KeepsFile H m → Safe m
  KeepsFile-Safe m k = record {
    at = λ w x. subst Exclusive (sym (Ends-state {P = λ w'. w'.file ≡ w.file} (m w) (k.at w))) x;
  }

  -- A call that changes only keys that are neither switch's.
  SameExcept-Safe :
      {A : Type 0} (ks : List String) (m : Exec (World H) A)
      → member "tor_kill_switch" ks ≡ false
      → member "proxy_only_kill_switch" ks ≡ false
      → ((w : World H)
          → Ends (λ _ w'. SameExcept ks w.file w'.file) (λ w'. SameExcept ks w.file w'.file) (m w))
      → Safe m
  SameExcept-Safe ks m mt mp k = record {
    at = λ w x. without_both H ks w.file _ mt mp x (state_after H ks w.file (m w) (k w));
  }

  unchanged : (ks : List String) (w w' : World H) → w'.file ≡ w.file → SameExcept ks w.file w'.file
  unchanged ks w w' e j m = ap (λ g. load_unlocked g j) e

  pub enable_kill_switch-Safe :
      (env : Environment) (force : Bool) (timeout : ℕ)
      → Safe (enable_kill_switch H env force timeout)
  unfolding after
  enable_kill_switch-Safe env force timeout = record {
    at = after-Exclusive H (enable_tor env force timeout);
  }

  pub disable_kill_switch-Safe : (env : Environment) → Safe (disable_kill_switch H env)
  unfolding after
  disable_kill_switch-Safe env = record { at = after-Exclusive H (disable_tor env) }

  pub enable_proxy_kill_switch-Safe :
      (env : Environment) (p : Proxy) (force : Bool) → Safe (enable_proxy_kill_switch H env p force)
  unfolding after
  enable_proxy_kill_switch-Safe env p force = record {
    at = after-Exclusive H (enable_proxy env p force);
  }

  pub disable_proxy_kill_switch-Safe : (env : Environment) → Safe (disable_proxy_kill_switch H env)
  unfolding after
  disable_proxy_kill_switch-Safe env = record { at = after-Exclusive H (disable_proxy env) }

  pub enable_gateway-Safe :
      (env : Environment) (iface ip : String) (external : Option String) (force : Bool)
      → Safe (enable_gateway H env iface ip external force)
  unfolding after
  enable_gateway-Safe env iface ip external force = record {
    at = after-Exclusive H (enable_gate env iface ip external force);
  }

  pub disable_gateway-Safe : (env : Environment) → Safe (disable_gateway H env)
  unfolding after
  disable_gateway-Safe env = record { at = after-Exclusive H (disable_gate env) }

  pub enable_stealth_sysctls-Safe : (env : Environment) → Safe (enable_stealth_sysctls H env)
  enable_stealth_sysctls-Safe env =
      SameExcept-Safe sysctl_keys _ refl refl (enable_stealth_sysctls-keeps H env)

  pub disable_stealth_sysctls-Safe : (env : Environment) → Safe (disable_stealth_sysctls H env)
  disable_stealth_sysctls-Safe env =
      SameExcept-Safe sysctl_keys _ refl refl (disable_stealth_sysctls-keeps H env)

  pub enable_portscan_protection-Safe :
      (env : Environment) (hitcount seconds : ℕ) (force : Bool)
      → Safe (enable_portscan_protection H env hitcount seconds force)
  enable_portscan_protection-Safe env hitcount seconds force =
      SameExcept-Safe portscan_keys _ refl refl (λ w.
        Ends-imp _ (λ _ _ k. k.0.0) (λ w' e. unchanged portscan_keys w w' e)
          (enable_portscan_protection-Switched H env hitcount seconds force w))

  pub disable_portscan_protection-Safe :
      (env : Environment) → Safe (disable_portscan_protection H env)
  disable_portscan_protection-Safe env =
      SameExcept-Safe portscan_keys _ refl refl (disable_portscan_protection-keeps H env)

  pub start_openvpn-Safe :
      (env : Environment) (config : String) (auth : Option String)
      → Safe (start_openvpn H env config auth)
  start_openvpn-Safe env config auth = SameExcept-Safe vpn_keys _ refl refl (λ w.
      Ends-imp _ (λ _ _ k. k.0) (λ w' e. unchanged vpn_keys w w' e)
        (start_openvpn-Started H env config auth w))

  pub start_wireguard-Safe :
      (env : Environment) (interface : String) → Safe (start_wireguard H env interface)
  start_wireguard-Safe env interface = SameExcept-Safe vpn_keys _ refl refl (λ w.
      Ends-imp _ (λ _ _ k. k.0) (λ w' e. unchanged vpn_keys w w' e)
        (start_wireguard-Started H env interface w))

  pub stopped-Safe :
      (prefix : String) (m : Exec (World H) (Unit {0}))
      → KeepsFile H m
      → Safe (do m; forget_vpn H prefix)
  stopped-Safe prefix m k =
      SameExcept-Safe vpn_keys _ refl refl (λ w.
        Ends-imp _ (λ _ _ z. z.0) (λ w' e. unchanged vpn_keys w w' e) (stopped H prefix m w k))

  pub stop_openvpn-Safe : (env : Environment) → Safe (stop_openvpn H env)
  unfolding stop_openvpn
  stop_openvpn-Safe env = search (keeps_rules, stopped-Safe, KeepsFile-on_sys)

  pub stop_wireguard-Safe :
      (env : Environment) (interface : String) → Safe (stop_wireguard H env interface)
  unfolding stop_wireguard
  stop_wireguard-Safe env interface = search (keeps_rules, stopped-Safe, KeepsFile-on_sys)

  Outcome-SameExcept :
      (w w' : World H) → Outcome w.file w'.file → SameExcept workstation_keys w.file w'.file
  Outcome-SameExcept w w' (inl e) = unchanged workstation_keys w w' e
  Outcome-SameExcept w w' (inr k) = k.0

  pub configure_networking-Safe :
      (env : Environment) (iface static_ip gateway_ip : String) (cidr_prefix : ℕ)
      → Safe (configure_networking H env iface static_ip gateway_ip cidr_prefix)
  configure_networking-Safe env iface static_ip gateway_ip cidr_prefix =
      SameExcept-Safe workstation_keys _ refl refl (λ w.
        Ends-imp _ (λ _ w' k. Outcome-SameExcept w w' k) (λ w' e. unchanged workstation_keys w w' e)
          (configure_networking-Outcome H env iface static_ip gateway_ip cidr_prefix w))

  pub on_sys-Safe : {A : Type 0} (m : Call H A) → Safe (on_sys H m)
  on_sys-Safe m = KeepsFile-Safe _ (KeepsFile-on_sys H m)

  pub start_tor-Safe : (env : Environment) → Safe (start_tor H env)
  start_tor-Safe env = KeepsFile-Safe _ (start_tor-KeepsFile H env)

  pub stop_tor-Safe : (env : Environment) → Safe (stop_tor H env)
  stop_tor-Safe env = KeepsFile-Safe _ (stop_tor-KeepsFile H env)

  pub load-Safe : Safe (load H)
  unfolding load
  load-Safe = search keeps_rules

  pub verify_active-Safe : (env : Environment) → Safe (verify_active H env)
  unfolding verify_active
  verify_active-Safe env = search (keeps_rules, on_sys-Safe, load-Safe) depth 12

  pub ruleset switch_rules = (
    keeps_rules, on_sys-Safe, start_tor-Safe, stop_tor-Safe, enable_kill_switch-Safe,
    disable_kill_switch-Safe, enable_stealth_sysctls-Safe, disable_stealth_sysctls-Safe,
    enable_portscan_protection-Safe, disable_portscan_protection-Safe,
  )

  pub full_start-Safe :
      (env : Environment) (verified : Bool) (timeout : ℕ) (identity : Bool)
      → Safe (full_start H env verified timeout identity)
  unfolding full_start start_linux
  full_start-Safe env verified timeout identity = search switch_rules depth 16

  pub full_stop-Safe :
      (env : Environment) (kill_apps wipe_ram : Bool) (mode : String)
      → Safe (full_stop H env kill_apps wipe_ram mode)
  unfolding full_stop stop_linux
  full_stop-Safe env kill_apps wipe_ram mode = search switch_rules depth 16
