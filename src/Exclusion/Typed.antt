-- ===== src/Exclusion/Typed.antt =====
-- The kinds of value that the calls on the switches leave in the state file.
use privacy_toolkit.Prelude.{
  ℕ, ◌≡◌, refl, sym, subst, Bool, true, false, String, Option, none, some, List, [], ◌∷◌,
}
use privacy_toolkit.Exec.{Exec}
use privacy_toolkit.Exec.Ends.{Ends-state}
use privacy_toolkit.Exec.Keeps.{Keeps, keeps_rules}
use privacy_toolkit.Host.{Host, Call}
use privacy_toolkit.State.{
  Json, Scalar, World, absent, null, flag, text, object, load, update, on_sys,
}
use privacy_toolkit.State.Frames.{KeepsFile, KeepsFile-on_sys}
use privacy_toolkit.State.Typed.{Typed, all_conform, update-Typed, absent-Typed}
use privacy_toolkit.Environment.{Environment}
use privacy_toolkit.Text.{decimal}
use privacy_toolkit.FirewallBackup.{Backups}
use privacy_toolkit.Core.{
  enable_kill_switch, disable_kill_switch, block_ipv6, unblock_ipv6, stored_path,
}
use privacy_toolkit.Core.KillSwitch.{
  apply_kill_switch, start_kill_switch, end_kill_switch, wait_for_tor_bootstrap, restart_if_changed,
}
use privacy_toolkit.Core.KillSwitch.Contract.{
  wait_for_tor_bootstrap-KeepsFile, restart_if_changed-KeepsFile,
}
use privacy_toolkit.ProxyOnly.{
  Proxy, apply_proxy_kill_switch, start_proxy_kill_switch, admit_proxy_kill_switch,
  enable_proxy_kill_switch, end_proxy_kill_switch, disable_proxy_kill_switch,
}
use privacy_toolkit.Gateway.{
  apply_gateway, start_gateway, enable_gateway, end_gateway, disable_gateway,
}
use privacy_toolkit.Exclusion.{
  Op, enable_tor, disable_tor, enable_proxy, disable_proxy, enable_gate, disable_gate, block,
  unblock, after, run_ops,
}

module _ (H : Host) where
  abbrev KeepsTyped : {A : Type 0} → Exec (World H) A → Type 0
  KeepsTyped m = Keeps (λ w. Typed w.file) m

  KeepsFile-Typed : {A : Type 0} (m : Exec (World H) A) → KeepsFile H m → KeepsTyped m
  KeepsFile-Typed m k = record {
    at = λ w h. subst Typed (sym (Ends-state {P = λ w'. w'.file ≡ w.file} (m w) (k.at w))) h;
  }

  on_sys-Typed : {A : Type 0} (m : Call H A) → KeepsTyped (on_sys H m)
  on_sys-Typed m = KeepsFile-Typed _ (KeepsFile-on_sys H m)

  load-Typed : KeepsTyped (load H)
  unfolding load
  load-Typed = search keeps_rules

  changed-Typed :
      (changes : List (String × Json)) → all_conform changes ≡ true → KeepsTyped (update H changes)
  changed-Typed changes all = record { at = λ w h. update-Typed H changes w all h }

  restart-Typed : (b : Bool) → KeepsTyped (restart_if_changed H b)
  restart-Typed b = KeepsFile-Typed _ (restart_if_changed-KeepsFile H b)

  bootstrap-Typed :
      (env : Environment) (timeout : ℕ) → KeepsTyped (wait_for_tor_bootstrap H env timeout)
  bootstrap-Typed env timeout = KeepsFile-Typed _ (wait_for_tor_bootstrap-KeepsFile H env timeout)

  ruleset typed_rules = (keeps_rules, on_sys-Typed, load-Typed, restart-Typed, bootstrap-Typed)

  blocked-Typed : KeepsTyped (update H (("ipv6_blocked", flag true) ∷ []))
  blocked-Typed = changed-Typed _ refl

  block_ipv6-Typed : (env : Environment) → KeepsTyped (block_ipv6 H env)
  unfolding block_ipv6
  block_ipv6-Typed env = search (typed_rules, blocked-Typed) depth 14

  unblocked-Typed : KeepsTyped (update H (("ipv6_blocked", flag false) ∷ []))
  unblocked-Typed = changed-Typed _ refl

  unblock_ipv6-Typed : (env : Environment) → KeepsTyped (unblock_ipv6 H env)
  unfolding unblock_ipv6
  unblock_ipv6-Typed env = search (typed_rules, unblocked-Typed) depth 14

  tor_changes-conform :
      (o p : Option String)
      → all_conform (
          ("tor_kill_switch", flag true)
          ∷ ("iptables_backup", stored_path o)
          ∷ ("ip6tables_backup", stored_path p)
          ∷ [])
        ≡ true
  tor_changes-conform none none = refl
  tor_changes-conform none (some p) = refl
  tor_changes-conform (some o) none = refl
  tor_changes-conform (some o) (some p) = refl

  tor_recorded :
      (b : Backups)
      → KeepsTyped (
          update H (
            ("tor_kill_switch", flag true)
            ∷ ("iptables_backup", stored_path b.ipv4)
            ∷ ("ip6tables_backup", stored_path b.ipv6)
            ∷ []))
  tor_recorded b = changed-Typed _ (tor_changes-conform b.ipv4 b.ipv6)

  enable_kill_switch-Typed :
      (env : Environment) (force : Bool) (timeout : ℕ)
      → KeepsTyped (enable_kill_switch H env force timeout)
  unfolding enable_kill_switch start_kill_switch apply_kill_switch
  enable_kill_switch-Typed env force timeout =
      search (typed_rules, tor_recorded, block_ipv6-Typed) depth 30

  tor_off-Typed : KeepsTyped (
      update H (
        ("tor_kill_switch", flag false)
        ∷ ("ipv6_blocked", flag false)
        ∷ ("iptables_backup", null)
        ∷ ("ip6tables_backup", null)
        ∷ []))
  tor_off-Typed = changed-Typed _ refl

  disable_kill_switch-Typed : (env : Environment) → KeepsTyped (disable_kill_switch H env)
  unfolding disable_kill_switch end_kill_switch
  disable_kill_switch-Typed env = search (typed_rules, tor_off-Typed) depth 16

  proxy_changes-conform :
      (o p : Option String) (name : String)
      → all_conform (
          ("proxy_only_kill_switch", flag true)
          ∷ ("nat_iptables_backup", stored_path o)
          ∷ ("ip6tables_backup", stored_path p)
          ∷ ("active_proxy", text name)
          ∷ [])
        ≡ true
  proxy_changes-conform none none name = refl
  proxy_changes-conform none (some p) name = refl
  proxy_changes-conform (some o) none name = refl
  proxy_changes-conform (some o) (some p) name = refl

  proxy_recorded :
      (b : Backups) (name : String)
      → KeepsTyped (
          update H (
            ("proxy_only_kill_switch", flag true)
            ∷ ("nat_iptables_backup", stored_path b.ipv4)
            ∷ ("ip6tables_backup", stored_path b.ipv6)
            ∷ ("active_proxy", text name)
            ∷ []))
  proxy_recorded b name = changed-Typed _ (proxy_changes-conform b.ipv4 b.ipv6 name)

  enable_proxy_kill_switch-Typed :
      (env : Environment) (p : Proxy) (force : Bool)
      → KeepsTyped (enable_proxy_kill_switch H env p force)
  unfolding enable_proxy_kill_switch admit_proxy_kill_switch start_proxy_kill_switch
      apply_proxy_kill_switch decimal
  enable_proxy_kill_switch-Typed env p force =
      search (typed_rules, proxy_recorded, block_ipv6-Typed) depth 30

  proxy_off-Typed : KeepsTyped (
      update H (
        ("proxy_only_kill_switch", flag false)
        ∷ ("ipv6_blocked", flag false)
        ∷ ("nat_iptables_backup", null)
        ∷ ("ip6tables_backup", null)
        ∷ ("active_proxy", null)
        ∷ []))
  proxy_off-Typed = changed-Typed _ refl

  disable_proxy_kill_switch-Typed :
      (env : Environment) → KeepsTyped (disable_proxy_kill_switch H env)
  unfolding disable_proxy_kill_switch end_proxy_kill_switch
  disable_proxy_kill_switch-Typed env = search (typed_rules, proxy_off-Typed) depth 18

  gateway_changes-conform :
      (o p : Option String) (config : List (String × Scalar))
      → all_conform (
          ("gateway_mode_active", flag true)
          ∷ ("gateway_iptables_backup", stored_path o)
          ∷ ("gateway_ip6tables_backup", stored_path p)
          ∷ ("gateway_config", object config)
          ∷ [])
        ≡ true
  gateway_changes-conform none none config = refl
  gateway_changes-conform none (some p) config = refl
  gateway_changes-conform (some o) none config = refl
  gateway_changes-conform (some o) (some p) config = refl

  gateway_recorded :
      (b : Backups) (config : List (String × Scalar))
      → KeepsTyped (
          update H (
            ("gateway_mode_active", flag true)
            ∷ ("gateway_iptables_backup", stored_path b.ipv4)
            ∷ ("gateway_ip6tables_backup", stored_path b.ipv6)
            ∷ ("gateway_config", object config)
            ∷ []))
  gateway_recorded b config = changed-Typed _ (gateway_changes-conform b.ipv4 b.ipv6 config)

  enable_gateway-Typed :
      (env : Environment) (iface ip : String) (external : Option String) (force : Bool)
      → KeepsTyped (enable_gateway H env iface ip external force)
  unfolding enable_gateway start_gateway apply_gateway
  enable_gateway-Typed env iface ip external force =
      search (typed_rules, gateway_recorded, block_ipv6-Typed) depth 30

  gateway_off-Typed : KeepsTyped (
      update H (
        ("gateway_mode_active", flag false)
        ∷ ("ipv6_blocked", flag false)
        ∷ ("gateway_iptables_backup", null)
        ∷ ("gateway_ip6tables_backup", null)
        ∷ ("gateway_config", null)
        ∷ []))
  gateway_off-Typed = changed-Typed _ refl

  disable_gateway-Typed : (env : Environment) → KeepsTyped (disable_gateway H env)
  unfolding disable_gateway end_gateway
  disable_gateway-Typed env = search (typed_rules, gateway_off-Typed) depth 16

  after-Typed : (op : Op) (w : World H) → Typed w.file → Typed (after H op w).file
  unfolding after
  after-Typed (enable_tor env force timeout) w h =
      (enable_kill_switch-Typed env force timeout).at w h
  after-Typed (disable_tor env) w h = (disable_kill_switch-Typed env).at w h
  after-Typed (enable_proxy env p force) w h = (enable_proxy_kill_switch-Typed env p force).at w h
  after-Typed (disable_proxy env) w h = (disable_proxy_kill_switch-Typed env).at w h
  after-Typed (enable_gate env iface ip external force) w h =
      (enable_gateway-Typed env iface ip external force).at w h
  after-Typed (disable_gate env) w h = (disable_gateway-Typed env).at w h
  after-Typed (block env) w h = (block_ipv6-Typed env).at w h
  after-Typed (unblock env) w h = (unblock_ipv6-Typed env).at w h

  run_ops_kept : (ops : List Op) (w : World H) → Typed w.file → Typed (run_ops H ops w).file
  unfolding run_ops
  run_ops_kept [] w h = h
  run_ops_kept (op ∷ ops) w h = run_ops_kept ops (after H op w) (after-Typed op w h)

  -- From no state file, whatever is called on the Tor switch, the proxy switch, the gateway and the IPv6
  -- block, in any order, and whichever calls raise: what is loaded at each key is of its kind, that
  -- is, a Boolean for a switch, an object or `None` for parameters, and a text or `None` for the
  -- paths, the names and the time.
  pub run_ops-Typed : (ops : List Op) (w : World H) → w.file ≡ absent → Typed (run_ops H ops w).file
  run_ops-Typed ops w fresh = run_ops_kept ops w (subst Typed (sym fresh) absent-Typed)
