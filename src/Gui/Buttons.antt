-- ===== src/Gui/Buttons.antt =====
-- The buttons of the window that start a call of the program, and runs of them. The buttons that need
-- what the program does not read from a field are in modules of their own.
use privacy_toolkit.Prelude.{false, none, List, [], ◌∷◌}
use privacy_toolkit.Exec.{Exec, pure, ◌>>◌}
use privacy_toolkit.Host.{Host}
use privacy_toolkit.Text.{strip}
use privacy_toolkit.State.{World, load}
use privacy_toolkit.Environment.{Environment}
use privacy_toolkit.Core.{disable_kill_switch}
use privacy_toolkit.Core.Identity.{clean_traces}
use privacy_toolkit.ProxyTor.{start_tor, stop_tor, check_tor_active}
use privacy_toolkit.ProxyTor.Config.{rotate_tor_circuit, test_proxychains}
use privacy_toolkit.ProxyOnly.{disable_proxy_kill_switch}
use privacy_toolkit.Gateway.{disable_gateway}
use privacy_toolkit.AntiRecon.{
  enable_stealth_sysctls, enable_portscan_protection, disable_stealth_sysctls,
  disable_portscan_protection,
}
use privacy_toolkit.Vpn.{stop_openvpn, start_wireguard, stop_wireguard}
use privacy_toolkit.Verify.{verify_tor_kill_switch}
use privacy_toolkit.Dns.{dns_leak_check}
use privacy_toolkit.Ram.{
  kill_risky_apps, wipe_free_ram, install_shutdown_hook, remove_shutdown_hook,
}
use privacy_toolkit.Topology.{vbox_verify_topology}
use privacy_toolkit.Orchestrate.{leak_report, full_stop}
use privacy_toolkit.Gui.{Form, Press, refused, started, run_bg, run_bg_on_sys}
use privacy_toolkit.Gui.Handlers.{
  enable_tor_kill_switch, start_full_anonymity, press_bridges, gen_proxychains, enable_proxy_only,
  verify_proxy_only, reset_vm, press_openvpn, wire_gateway_topology, press_gateway,
  configure_workstation, verify_workstation,
}

-- The buttons of each tab.
pub data StatusTab : Type 0 where
  report_leaks show_state dns_check : StatusTab

pub data TorTab : Type 0 where
  tor_start tor_stop circuit tor_check tor_enable tor_disable tor_verify bridges full_on full_off :
      TorTab

pub data ProxyTab : Type 0 where
  chains chains_test proxy_enable proxy_disable proxy_verify : ProxyTab

pub data ReconTab : Type 0 where
  sysctls_on sysctls_off portscan_on portscan_off : ReconTab

pub data VmTab : Type 0 where
  snapshot_reset : VmTab

pub data CleanupTab : Type 0 where
  traces risky_apps ram_now hook_on hook_off : CleanupTab

pub data VpnTab : Type 0 where
  openvpn_on openvpn_off wireguard_on wireguard_off : VpnTab

pub data GatewayTab : Type 0 where
  topology_wire topology_verify gateway_on gateway_off network verify_network : GatewayTab

pub data Button : Type 0 where
  on_status : StatusTab → Button
  on_tor : TorTab → Button
  on_proxy : ProxyTab → Button
  on_recon : ReconTab → Button
  on_vm : VmTab → Button
  on_cleanup : CleanupTab → Button
  on_vpn : VpnTab → Button
  on_gateway : GatewayTab → Button

-- A press: the environment that was detected last, and the fields.
pub record Click : Type 0 where
  pub env : Environment
  pub form : Form
  pub button : Button

-- What comes of a press where its thread runs by itself; a message box changes nothing.
abbrev pub outcome : {S : Type 0} → Press S → Exec S (Unit {0})
outcome (refused title) = pure tt
outcome (started job) = job

module _ (H : Host) where
  -- The `command` of each button, tab by tab.
  unfoldable pub press_status_tab : Environment → Form → StatusTab → Press (World H)
  press_status_tab env f report_leaks = run_bg_on_sys H (leak_report H)
  press_status_tab env f show_state = run_bg (load H)
  press_status_tab env f dns_check = run_bg_on_sys H (dns_leak_check H f.dns_tunnel_var)

  unfoldable pub press_tor_tab : Environment → Form → TorTab → Press (World H)
  press_tor_tab env f tor_start = run_bg (start_tor H env)
  press_tor_tab env f tor_stop = run_bg (stop_tor H env)
  press_tor_tab env f circuit = run_bg_on_sys H (rotate_tor_circuit H env none)
  press_tor_tab env f tor_check = run_bg_on_sys H (check_tor_active H 10)
  press_tor_tab env f tor_enable = enable_tor_kill_switch H env f
  press_tor_tab env f tor_disable = run_bg (disable_kill_switch H env)
  press_tor_tab env f tor_verify = run_bg_on_sys H (verify_tor_kill_switch H)
  press_tor_tab env f bridges = press_bridges H env f
  press_tor_tab env f full_on = start_full_anonymity H env f
  press_tor_tab env f full_off = run_bg (full_stop H env false false "fast")

  unfoldable pub press_proxy_tab : Environment → Form → ProxyTab → Press (World H)
  press_proxy_tab env f chains = gen_proxychains H env f
  press_proxy_tab env f chains_test = run_bg_on_sys H (test_proxychains H env)
  press_proxy_tab env f proxy_enable = enable_proxy_only H env f
  press_proxy_tab env f proxy_disable = run_bg (disable_proxy_kill_switch H env)
  press_proxy_tab env f proxy_verify = verify_proxy_only H f

  unfoldable pub press_recon_tab : Environment → Form → ReconTab → Press (World H)
  press_recon_tab env f sysctls_on = run_bg (enable_stealth_sysctls H env)
  press_recon_tab env f sysctls_off = run_bg (disable_stealth_sysctls H env)
  press_recon_tab env f portscan_on = run_bg (enable_portscan_protection H env 15 60 false)
  press_recon_tab env f portscan_off = run_bg (disable_portscan_protection H env)

  unfoldable pub press_vm_tab : Environment → Form → VmTab → Press (World H)
  press_vm_tab env f snapshot_reset = reset_vm H f

  unfoldable pub press_cleanup_tab : Environment → Form → CleanupTab → Press (World H)
  press_cleanup_tab env f traces = run_bg_on_sys H (clean_traces H env f.wipe_logs_var)
  press_cleanup_tab env f risky_apps = run_bg_on_sys H (kill_risky_apps H env [])
  press_cleanup_tab env f ram_now = run_bg_on_sys H (wipe_free_ram H env f.ram_mode_var)
  press_cleanup_tab env f hook_on = run_bg_on_sys H (install_shutdown_hook H env f.ram_mode_var)
  press_cleanup_tab env f hook_off = run_bg_on_sys H (remove_shutdown_hook H env)

  unfoldable pub press_vpn_tab : Environment → Form → VpnTab → Press (World H)
  press_vpn_tab env f openvpn_on = press_openvpn H env f
  press_vpn_tab env f openvpn_off = run_bg (stop_openvpn H env)
  press_vpn_tab env f wireguard_on = run_bg (start_wireguard H env f.wg_iface_var)
  press_vpn_tab env f wireguard_off = run_bg (stop_wireguard H env f.wg_iface_var)

  unfoldable pub press_gateway_tab : Environment → Form → GatewayTab → Press (World H)
  unfolding strip
  press_gateway_tab env f topology_wire = wire_gateway_topology H f
  press_gateway_tab env f topology_verify =
      run_bg_on_sys H (vbox_verify_topology H (strip f.gw_vm_var) (strip f.ws_vm_var))
  press_gateway_tab env f gateway_on = press_gateway H env f
  press_gateway_tab env f gateway_off = run_bg (disable_gateway H env)
  press_gateway_tab env f network = configure_workstation H env f
  press_gateway_tab env f verify_network = verify_workstation H f

  unfoldable pub press : Environment → Form → Button → Press (World H)
  unfolding press_status_tab press_tor_tab press_proxy_tab press_recon_tab press_vm_tab
      press_cleanup_tab press_vpn_tab press_gateway_tab
  press env form (on_status b) = press_status_tab env form b
  press env form (on_tor b) = press_tor_tab env form b
  press env form (on_proxy b) = press_proxy_tab env form b
  press env form (on_recon b) = press_recon_tab env form b
  press env form (on_vm b) = press_vm_tab env form b
  press env form (on_cleanup b) = press_cleanup_tab env form b
  press env form (on_vpn b) = press_vpn_tab env form b
  press env form (on_gateway b) = press_gateway_tab env form b

  -- Presses one after the other, each made when the thread of the one before has ended.
  unfoldable pub run_clicks : List Click → Exec (World H) (Unit {0})
  unfolding press
  run_clicks [] = pure tt
  run_clicks (c ∷ cs) = do outcome (press c.env c.form c.button); run_clicks cs
