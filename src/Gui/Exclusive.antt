-- ===== src/Gui/Exclusive.antt =====
-- What the buttons of the window do to the records of the two kill switches.
use privacy_toolkit.Prelude.{
  ℕ, ◌≡◌, refl, Bool, true, false, String, Option, none, some, List, [], ◌∷◌, if◌then◌else◌,
}
use privacy_toolkit.Exec.{Exec}
use privacy_toolkit.Exec.Keeps.{Keeps-bind, keeps_rules}
use privacy_toolkit.Host.{Host}
use privacy_toolkit.Text.{strip}
use privacy_toolkit.State.{World, absent, load_unlocked, default_state}
use privacy_toolkit.Environment.{Environment}
use privacy_toolkit.Exclusion.{Exclusive}
use privacy_toolkit.Exclusion.Calls.{
  Safe, switch_rules, load-Safe, enable_proxy_kill_switch-Safe, disable_proxy_kill_switch-Safe,
  enable_gateway-Safe, disable_gateway-Safe, start_openvpn-Safe, start_wireguard-Safe,
  stop_openvpn-Safe, stop_wireguard-Safe, configure_networking-Safe, full_start-Safe,
  full_stop-Safe,
}
use privacy_toolkit.Gui.{Form, refused, started, target}
use privacy_toolkit.Gui.Handlers.{
  enable_proxy_at, enable_tor_kill_switch, start_full_anonymity, press_bridges, gen_proxychains,
  enable_proxy_only, verify_proxy_only, reset_vm, press_openvpn, wire_gateway_topology,
  press_gateway, configure_workstation, verify_workstation,
}
use privacy_toolkit.Gui.Buttons.{
  StatusTab, TorTab, ProxyTab, ReconTab, VmTab, CleanupTab, VpnTab, GatewayTab, press_status_tab,
  press_tor_tab, press_proxy_tab, press_recon_tab, press_vm_tab, press_cleanup_tab, press_vpn_tab,
  press_gateway_tab, Button, Click, press, outcome, run_clicks,
}

module _ (H : Host) where
  target-Safe : {A : Type 0} (m : Exec (World H) A) → Safe H m → Safe H (target m)
  unfolding target
  target-Safe m k = search keeps_rules depth 8

  ruleset job_rules = (switch_rules, target-Safe, load-Safe, full_start-Safe, full_stop-Safe)

  outcome-if :
      (b : Bool) (title : String) (m : Exec (World H) (Unit {0}))
      → Safe H m
      → Safe H (outcome (if b then refused title else started m))
  outcome-if true title m k = search keeps_rules
  outcome-if false title m k = k

  enable_proxy_at-Safe :
      (env : Environment) (f : Form) (port : Option ℕ)
      → Safe H (outcome (enable_proxy_at H env f port))
  unfolding strip
  enable_proxy_at-Safe env f none = search keeps_rules
  enable_proxy_at-Safe env f (some port) =
      search (job_rules, outcome-if, enable_proxy_kill_switch-Safe)

  press_status_tab-Safe :
      (env : Environment) (f : Form) (b : StatusTab) → Safe H (outcome (press_status_tab H env f b))
  unfolding press_status_tab
  press_status_tab-Safe env f StatusTab.report_leaks = search job_rules
  press_status_tab-Safe env f StatusTab.show_state = search job_rules
  press_status_tab-Safe env f StatusTab.dns_check = search job_rules

  press_tor_tab-Safe :
      (env : Environment) (f : Form) (b : TorTab) → Safe H (outcome (press_tor_tab H env f b))
  unfolding press_tor_tab enable_tor_kill_switch start_full_anonymity press_bridges
  press_tor_tab-Safe env f TorTab.tor_start = search job_rules
  press_tor_tab-Safe env f TorTab.tor_stop = search job_rules
  press_tor_tab-Safe env f TorTab.circuit = search job_rules
  press_tor_tab-Safe env f TorTab.tor_check = search job_rules
  press_tor_tab-Safe env f TorTab.tor_enable = search job_rules
  press_tor_tab-Safe env f TorTab.tor_disable = search job_rules
  press_tor_tab-Safe env f TorTab.tor_verify = search job_rules
  press_tor_tab-Safe env f TorTab.bridges = search job_rules
  press_tor_tab-Safe env f TorTab.full_on = search job_rules
  press_tor_tab-Safe env f TorTab.full_off = search job_rules

  press_proxy_tab-Safe :
      (env : Environment) (f : Form) (b : ProxyTab) → Safe H (outcome (press_proxy_tab H env f b))
  unfolding press_proxy_tab gen_proxychains enable_proxy_only verify_proxy_only
  press_proxy_tab-Safe env f ProxyTab.chains = search job_rules
  press_proxy_tab-Safe env f ProxyTab.chains_test = search job_rules
  press_proxy_tab-Safe env f ProxyTab.proxy_enable = enable_proxy_at-Safe env f _
  press_proxy_tab-Safe env f ProxyTab.proxy_disable =
      search (job_rules, disable_proxy_kill_switch-Safe)
  press_proxy_tab-Safe env f ProxyTab.proxy_verify = search (job_rules, outcome-if)

  press_recon_tab-Safe :
      (env : Environment) (f : Form) (b : ReconTab) → Safe H (outcome (press_recon_tab H env f b))
  unfolding press_recon_tab
  press_recon_tab-Safe env f ReconTab.sysctls_on = search job_rules
  press_recon_tab-Safe env f ReconTab.sysctls_off = search job_rules
  press_recon_tab-Safe env f ReconTab.portscan_on = search job_rules
  press_recon_tab-Safe env f ReconTab.portscan_off = search job_rules

  press_vm_tab-Safe :
      (env : Environment) (f : Form) (b : VmTab) → Safe H (outcome (press_vm_tab H env f b))
  unfolding press_vm_tab reset_vm
  press_vm_tab-Safe env f VmTab.snapshot_reset = search (job_rules, outcome-if)

  press_cleanup_tab-Safe :
      (env : Environment) (f : Form) (b : CleanupTab)
      → Safe H (outcome (press_cleanup_tab H env f b))
  unfolding press_cleanup_tab
  press_cleanup_tab-Safe env f CleanupTab.traces = search job_rules
  press_cleanup_tab-Safe env f CleanupTab.risky_apps = search job_rules
  press_cleanup_tab-Safe env f CleanupTab.ram_now = search job_rules
  press_cleanup_tab-Safe env f CleanupTab.hook_on = search job_rules
  press_cleanup_tab-Safe env f CleanupTab.hook_off = search job_rules

  press_vpn_tab-Safe :
      (env : Environment) (f : Form) (b : VpnTab) → Safe H (outcome (press_vpn_tab H env f b))
  unfolding press_vpn_tab press_openvpn
  press_vpn_tab-Safe env f VpnTab.openvpn_on = search (job_rules, outcome-if, start_openvpn-Safe)
  press_vpn_tab-Safe env f VpnTab.openvpn_off = search (job_rules, stop_openvpn-Safe)
  press_vpn_tab-Safe env f VpnTab.wireguard_on = search (job_rules, start_wireguard-Safe)
  press_vpn_tab-Safe env f VpnTab.wireguard_off = search (job_rules, stop_wireguard-Safe)

  press_gateway_tab-Safe :
      (env : Environment) (f : Form) (b : GatewayTab)
      → Safe H (outcome (press_gateway_tab H env f b))
  unfolding press_gateway_tab wire_gateway_topology press_gateway configure_workstation
      verify_workstation
  press_gateway_tab-Safe env f GatewayTab.topology_wire = search (job_rules, outcome-if)
  press_gateway_tab-Safe env f GatewayTab.topology_verify = search job_rules
  press_gateway_tab-Safe env f GatewayTab.gateway_on =
      search (job_rules, outcome-if, enable_gateway-Safe)
  press_gateway_tab-Safe env f GatewayTab.gateway_off = search (job_rules, disable_gateway-Safe)
  press_gateway_tab-Safe env f GatewayTab.network =
      search (job_rules, outcome-if, configure_networking-Safe)
  press_gateway_tab-Safe env f GatewayTab.verify_network = search job_rules

  press-Safe : (env : Environment) (f : Form) (b : Button) → Safe H (outcome (press H env f b))
  unfolding press
  press-Safe env f (Button.on_status b) = press_status_tab-Safe env f b
  press-Safe env f (Button.on_tor b) = press_tor_tab-Safe env f b
  press-Safe env f (Button.on_proxy b) = press_proxy_tab-Safe env f b
  press-Safe env f (Button.on_recon b) = press_recon_tab-Safe env f b
  press-Safe env f (Button.on_vm b) = press_vm_tab-Safe env f b
  press-Safe env f (Button.on_cleanup b) = press_cleanup_tab-Safe env f b
  press-Safe env f (Button.on_vpn b) = press_vpn_tab-Safe env f b
  press-Safe env f (Button.on_gateway b) = press_gateway_tab-Safe env f b

  run_clicks-Safe : (cs : List Click) → Safe H (run_clicks H cs)
  unfolding run_clicks
  run_clicks-Safe [] = search keeps_rules
  run_clicks-Safe (c ∷ cs) =
      Keeps-bind _ _ _ (press-Safe c.env c.form c.button) (λ _. run_clicks-Safe cs)

  -- From no state file, whatever buttons are pressed, with whatever in the fields and whatever
  -- environment was detected, where each thread has ended before the next press: the Tor kill switch
  -- and the proxy kill switch are never both recorded as on.
  pub run_clicks-Exclusive :
      (cs : List Click) (w : World H) → w.file ≡ absent → Exclusive (run_clicks H cs w).1.file
  unfolding load_unlocked default_state
  run_clicks-Exclusive cs w fresh = (run_clicks-Safe cs).at w (rw fresh refl)
