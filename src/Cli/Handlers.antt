-- ===== src/Cli/Handlers.antt =====
-- What main.py asks for and calls, for each choice of its menu that does more than one call.
use privacy_toolkit.Prelude.{
  String, Bool, true, false, not, some, List, [], ◌∷◌, str_eq, if◌then◌else◌,
}
use privacy_toolkit.Exec.{pure, ◌>>=◌, ◌>>◌}
use privacy_toolkit.Host.{Host, Call}
use privacy_toolkit.State.{on_sys}
use privacy_toolkit.Environment.{Environment}
use privacy_toolkit.Core.{enable_kill_switch, disable_kill_switch}
use privacy_toolkit.Core.Identity.{randomize_mac, randomize_hostname}
use privacy_toolkit.ProxyTor.{start_tor, stop_tor}
use privacy_toolkit.ProxyTor.Config.{generate_proxychains_conf, test_proxychains}
use privacy_toolkit.ProxyOnly.{enable_proxy_kill_switch, disable_proxy_kill_switch}
use privacy_toolkit.Gateway.{enable_gateway, disable_gateway}
use privacy_toolkit.AntiRecon.{
  enable_stealth_sysctls, enable_portscan_protection, disable_stealth_sysctls,
  disable_portscan_protection,
}
use privacy_toolkit.Vpn.{start_openvpn, stop_openvpn, start_wireguard, stop_wireguard}
use privacy_toolkit.Verify.{verify_proxy_kill_switch}
use privacy_toolkit.Workstation.{configure_networking}
use privacy_toolkit.Workstation.Isolation.{verify_isolation}
use privacy_toolkit.VmSnapshot.{reset_vbox_snapshot, reset_virsh_snapshot}
use privacy_toolkit.Ram.{install_shutdown_hook, remove_shutdown_hook}
use privacy_toolkit.Topology.{
  vbox_wire_gateway, vbox_wire_workstation, vbox_verify_topology, virsh_create_isolated_network,
  virsh_wire_gateway, virsh_wire_workstation,
}
use privacy_toolkit.Orchestrate.{full_start, full_stop}
use privacy_toolkit.Cli.{
  answers, Sess, call, on_world, input, prompt_enable, prompt_yes, prompt_or, prompt_or_none,
  prompt_text, int_or, to_int, read_lines,
}

-- `gateway_topology.DEFAULT_GATEWAY_INTERNAL_IP` and `DEFAULT_WORKSTATION_INTERNAL_IP`
abbrev pub default_gateway_ip : String
default_gateway_ip = "10.152.152.10"

abbrev pub default_workstation_ip : String
default_workstation_ip = "10.152.152.11"

abbrev pub first_or : String → List String → String
first_or d [] = d
first_or d (iface ∷ _) = iface

module _ (H : Host) where
  -- A call that does not look at the state file.
  abbrev pub on_machine : {A : Type 0} → Call H A → Sess H (Unit {0})
  on_machine m = call H (on_sys H m)

  unfoldable pub choose_tor_service : Environment → Sess H (Unit {0})
  choose_tor_service env = do
    s ← prompt_text H
    if str_eq s "start" then call H (start_tor H env) else call H (stop_tor H env)

  abbrev pub choose_interface : List String → Sess H String
  choose_interface (i ∷ []) = pure i
  choose_interface _ = input H

  abbrev pub change_mac_of : Environment → List String → Sess H (Unit {0})
  change_mac_of env [] = pure tt
  change_mac_of env (i ∷ is) = do
    iface ← choose_interface (i ∷ is)
    on_machine (randomize_mac H env iface true)

  unfoldable pub choose_identity : Environment → Sess H (Unit {0})
  choose_identity env = do change_mac_of env env.interfaces; on_machine (randomize_hostname H env)

  unfoldable pub choose_tor_switch : Environment → Sess H (Unit {0})
  choose_tor_switch env = do
    enable ← prompt_enable H
    if enable
        then (do
          bt ← prompt_text H
          timeout ← int_or H 45 bt
          call H (enable_kill_switch H env false timeout))
        else call H (disable_kill_switch H env)

  unfoldable pub choose_sysctls : Environment → Sess H (Unit {0})
  choose_sysctls env = do
    enable ← prompt_enable H
    if enable then call H (enable_stealth_sysctls H env) else call H (disable_stealth_sysctls H env)

  unfoldable pub choose_portscan : Environment → Sess H (Unit {0})
  choose_portscan env = do
    enable ← prompt_enable H
    if enable
        then call H (enable_portscan_protection H env 15 60 false)
        else call H (disable_portscan_protection H env)

  unfoldable pub choose_proxychains : Environment → Sess H (Unit {0})
  choose_proxychains env = do
    proxies ← read_lines H
    mode ← prompt_or H "dynamic"
    include_tor ← prompt_yes H
    on_machine (generate_proxychains_conf H env proxies mode include_tor)
    test ← prompt_yes H
    if test then on_machine (test_proxychains H env) else pure tt

  -- After `enable_proxy_kill_switch`.
  unfoldable pub verify_if_active : Bool → Sess H (Unit {0})
  unfolding answers
  verify_if_active active =
      if active
      then (do
        line ← input H
        if answers "n" line then pure tt else on_machine (verify_proxy_kill_switch H))
      else pure tt

  unfoldable pub choose_proxy_switch : Environment → Sess H (Unit {0})
  choose_proxy_switch env = do
    enable ← prompt_enable H
    if enable
        then (do
          host ← prompt_text H
          typed ← prompt_text H
          port ← to_int H typed
          ptype ← prompt_or H "socks5"
          user ← prompt_or_none H
          pw ← prompt_or_none H
          active ← on_world H (
              enable_proxy_kill_switch H env
                (record {
                  host = host;
                  port = port;
                  proxy_type = ptype;
                  username = user;
                  password = pw;
                })
                false)
          verify_if_active active)
        else call H (disable_proxy_kill_switch H env)

  unfoldable pub choose_snapshot : Sess H (Unit {0})
  unfolding answers
  choose_snapshot = do
    hv ← input H
    name ← prompt_text H
    snap ← prompt_text H
    if answers "vbox" hv
        then on_machine (reset_vbox_snapshot H name snap true)
        else if answers "virsh" hv
        then on_machine (reset_virsh_snapshot H name snap)
        else pure tt

  unfoldable pub choose_start_mode : Environment → Sess H (Unit {0})
  unfolding answers
  choose_start_mode env = do
    bt ← prompt_text H
    line ← input H
    timeout ← int_or H 45 bt
    call H (full_start H env true timeout (not (answers "n" line)))

  unfoldable pub choose_stop_mode : Environment → Sess H (Unit {0})
  choose_stop_mode env = do
    kill_apps ← prompt_yes H
    wipe ← prompt_yes H
    mode ← (if wipe then prompt_or H "fast" else pure "fast")
    call H (full_stop H env kill_apps wipe mode)

  unfoldable pub choose_ram_hook : Environment → Sess H (Unit {0})
  choose_ram_hook env = do
    action ← prompt_text H
    if str_eq action "install"
        then (do mode ← prompt_or H "fast"; on_machine (install_shutdown_hook H env mode))
        else on_machine (remove_shutdown_hook H env)

  unfoldable pub choose_vpn : Environment → Sess H (Unit {0})
  unfolding answers
  choose_vpn env = do
    kind ← input H
    action ← input H
    if answers "openvpn" kind
        then (if answers "start" action
            then (do
              cfg ← prompt_text H
              auth ← prompt_or_none H
              call H (start_openvpn H env cfg auth))
            else call H (stop_openvpn H env))
        else if answers "wireguard" kind
        then (do
          iface ← prompt_or H "wg0"
          if answers "start" action
              then call H (start_wireguard H env iface)
              else call H (stop_wireguard H env iface))
        else pure tt

  unfoldable pub wire_vbox : String → String → String → Sess H (Unit {0})
  unfolding answers
  wire_vbox gw_vm ws_vm net_name = do
    ext ← prompt_or H "nat"
    on_machine (vbox_wire_gateway H gw_vm ext net_name)
    on_machine (vbox_wire_workstation H ws_vm net_name)
    line ← input H
    if answers "n" line then pure tt else on_machine (vbox_verify_topology H gw_vm ws_vm)

  unfoldable pub wire_virsh : String → String → String → Sess H (Unit {0})
  wire_virsh gw_vm ws_vm net_name = do
    on_machine (virsh_create_isolated_network H net_name default_gateway_ip)
    ext_net ← prompt_or H "default"
    on_machine (virsh_wire_gateway H gw_vm ext_net net_name)
    on_machine (virsh_wire_workstation H ws_vm net_name)

  unfoldable pub choose_topology : Sess H (Unit {0})
  unfolding answers
  choose_topology = do
    hv ← input H
    gw_vm ← prompt_text H
    ws_vm ← prompt_text H
    net_name ← prompt_or H "pg-gateway-net"
    if answers "vbox" hv
        then wire_vbox gw_vm ws_vm net_name
        else if answers "virsh" hv
        then wire_virsh gw_vm ws_vm net_name
        else pure tt

  unfoldable pub choose_gateway_mode : Environment → Sess H (Unit {0})
  choose_gateway_mode env = do
    enable ← prompt_enable H
    if enable
        then (do
          iface ← prompt_or H (first_or "eth1" env.interfaces)
          ip ← prompt_or H default_gateway_ip
          external ← prompt_or_none H
          call H (enable_gateway H env iface ip external false))
        else call H (disable_gateway H env)

  unfoldable pub choose_workstation_mode : Environment → Sess H (Unit {0})
  choose_workstation_mode env = do
    action ← prompt_text H
    if str_eq action "configure"
        then (do
          iface ← prompt_or H (first_or "eth0" env.interfaces)
          static_ip ← prompt_or H default_workstation_ip
          gw_ip ← prompt_or H default_gateway_ip
          call H (configure_networking H env iface static_ip gw_ip 24))
        else (do
          gw_ip ← prompt_or H default_gateway_ip
          on_machine (verify_isolation H (some gw_ip)))
