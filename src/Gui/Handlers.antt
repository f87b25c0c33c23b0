-- ===== src/Gui/Handlers.antt =====
-- The handlers of gui.py that read fields of the window, tab by tab.
use privacy_toolkit.Prelude.{
  ℕ, String, true, false, ◌||◌, Option, none, some, str_eq, if◌then◌else◌,
}
use privacy_toolkit.Exec.{pure, ◌>>◌}
use privacy_toolkit.Host.{Host, Call}
use privacy_toolkit.Text.{chars, strip}
use privacy_toolkit.State.{World}
use privacy_toolkit.Environment.{Environment}
use privacy_toolkit.Cli.{int}
use privacy_toolkit.Cli.Handlers.{default_gateway_ip}
use privacy_toolkit.Core.{enable_kill_switch}
use privacy_toolkit.ProxyTor.Config.{configure_bridges, generate_proxychains_conf}
use privacy_toolkit.ProxyOnly.{enable_proxy_kill_switch}
use privacy_toolkit.Verify.{verify_proxy_kill_switch}
use privacy_toolkit.Vpn.{start_openvpn}
use privacy_toolkit.Gateway.{enable_gateway}
use privacy_toolkit.Workstation.{configure_networking}
use privacy_toolkit.Workstation.Isolation.{verify_isolation}
use privacy_toolkit.VmSnapshot.{reset_vbox_snapshot, reset_virsh_snapshot}
use privacy_toolkit.Topology.{
  vbox_wire_gateway, vbox_wire_workstation, virsh_create_isolated_network, virsh_wire_gateway,
  virsh_wire_workstation,
}
use privacy_toolkit.Orchestrate.{full_start}
use privacy_toolkit.Gui.{
  Form, Press, refused, nonblank_lines, int_or_default, strip_or_none, empty, run_bg, run_bg_on_sys,
}

-- `DEFAULT_INTERNAL_NET_NAME`
abbrev net_name : String
net_name = "pg-gateway-net"

-- `_get_bootstrap_timeout`
unfoldable pub get_bootstrap_timeout : Form → ℕ
unfolding int_or_default
get_bootstrap_timeout f = int_or_default 45 f.bootstrap_timeout_var

module _ (H : Host) where
  -- `_enable_tor_kill_switch`
  unfoldable pub enable_tor_kill_switch : Environment → Form → Press (World H)
  unfolding get_bootstrap_timeout
  enable_tor_kill_switch env f = run_bg (enable_kill_switch H env false (get_bootstrap_timeout f))

  -- `_start_full_anonymity`
  unfoldable pub start_full_anonymity : Environment → Form → Press (World H)
  unfolding get_bootstrap_timeout
  start_full_anonymity env f =
      run_bg (full_start H env true (get_bootstrap_timeout f) f.randomize_identity_var)

  -- `_configure_bridges`
  unfoldable pub press_bridges : Environment → Form → Press (World H)
  unfolding nonblank_lines
  press_bridges env f =
      run_bg_on_sys H (configure_bridges H env (nonblank_lines f.bridges_text) none)

  -- `_gen_proxychains`
  unfoldable pub gen_proxychains : Environment → Form → Press (World H)
  unfolding nonblank_lines
  gen_proxychains env f = run_bg_on_sys H (
      generate_proxychains_conf H env (nonblank_lines f.proxy_list_text) f.chain_mode_var
        f.include_tor_var)

  -- The part of `_enable_proxy_only` after the `try`.
  abbrev pub enable_proxy_at : Environment → Form → Option ℕ → Press (World H)
  enable_proxy_at env f none = refused "Invalid port"
  enable_proxy_at env f (some port) =
      let host = strip f.px_host in
      if empty host
      then refused "Missing host"
      else run_bg (
          enable_proxy_kill_switch H env
            (record {
              host = host;
              port = port;
              proxy_type = f.px_type;
              username = strip_or_none f.px_user;
              password = strip_or_none f.px_pass;
            })
            false)

  -- `_enable_proxy_only`
  unfoldable pub enable_proxy_only : Environment → Form → Press (World H)
  unfolding int chars strip strip_or_none
  enable_proxy_only env f = enable_proxy_at env f (int (chars (strip f.px_port)))

  -- `_verify_proxy_only`
  unfoldable pub verify_proxy_only : Form → Press (World H)
  unfolding strip
  verify_proxy_only f =
      if empty (strip f.px_host)
      then refused "Missing host"
      else run_bg_on_sys H (verify_proxy_kill_switch H)

  -- `_reset_vm`
  unfoldable pub reset_vm : Form → Press (World H)
  unfolding strip
  reset_vm f =
      let name = strip f.vm_name in
      let snap = strip f.vm_snap in
      if empty name || empty snap
      then refused "Missing info"
      else run_bg_on_sys H (
          if str_eq f.hv_var "vbox"
          then reset_vbox_snapshot H name snap true
          else reset_virsh_snapshot H name snap)

  -- `_start_openvpn`
  unfoldable pub press_openvpn : Environment → Form → Press (World H)
  unfolding strip strip_or_none
  press_openvpn env f =
      let cfg = strip f.ovpn_config_var in
      if empty cfg
      then refused "Missing config"
      else run_bg (start_openvpn H env cfg (strip_or_none f.ovpn_auth_var))

  -- The function `do` of `_wire_gateway_topology`.
  unfoldable pub wire : String → String → String → Call H (Unit {0})
  wire hv gw_vm ws_vm =
      if str_eq hv "vbox"
      then (do
        vbox_wire_gateway H gw_vm "nat" net_name
        vbox_wire_workstation H ws_vm net_name
        pure tt)
      else (do
        virsh_create_isolated_network H net_name default_gateway_ip
        virsh_wire_gateway H gw_vm "default" net_name
        virsh_wire_workstation H ws_vm net_name
        pure tt)

  -- `_wire_gateway_topology`
  unfoldable pub wire_gateway_topology : Form → Press (World H)
  unfolding strip
  wire_gateway_topology f =
      let gw_vm = strip f.gw_vm_var in
      let ws_vm = strip f.ws_vm_var in
      if empty gw_vm || empty ws_vm
      then refused "Missing info"
      else run_bg_on_sys H (wire f.gw_hv_var gw_vm ws_vm)

  -- `_enable_gateway`
  unfoldable pub press_gateway : Environment → Form → Press (World H)
  unfolding strip
  press_gateway env f =
      let iface = strip f.gw_iface_var in
      let ip = strip f.gw_ip_var in
      if empty iface || empty ip
      then refused "Missing info"
      else run_bg (enable_gateway H env iface ip none false)

  -- `_configure_workstation`
  unfoldable pub configure_workstation : Environment → Form → Press (World H)
  unfolding strip
  configure_workstation env f =
      let iface = strip f.ws_iface_var in
      let ip = strip f.ws_ip_var in
      let gw_ip = strip f.ws_gwip_var in
      if empty iface || empty ip || empty gw_ip
      then refused "Missing info"
      else run_bg (configure_networking H env iface ip gw_ip 24)

  -- `_verify_workstation`
  unfoldable pub verify_workstation : Form → Press (World H)
  unfolding strip_or_none
  verify_workstation f = run_bg_on_sys H (verify_isolation H (strip_or_none f.ws_gwip_var))
