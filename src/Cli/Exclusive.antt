-- ===== src/Cli/Exclusive.antt =====
-- What the choices of the menu do to the records of the two kill switches.
use privacy_toolkit.Prelude.{ℕ, ◌≡◌, refl, Bool, String, Option, none, some, List, [], ◌∷◌}
use privacy_toolkit.Exec.{Exec}
use privacy_toolkit.Exec.Keeps.{Keeps, Keeps-bind, keeps_rules}
use privacy_toolkit.Host.{Host}
use privacy_toolkit.State.{World, absent, load_unlocked, default_state}
use privacy_toolkit.Environment.{Environment}
use privacy_toolkit.Exclusion.{Exclusive}
use privacy_toolkit.Exclusion.Calls.{
  Safe, switch_rules, enable_proxy_kill_switch-Safe, disable_proxy_kill_switch-Safe,
  enable_gateway-Safe, disable_gateway-Safe, start_openvpn-Safe, start_wireguard-Safe,
  stop_openvpn-Safe, stop_wireguard-Safe, configure_networking-Safe, verify_active-Safe,
  full_start-Safe, full_stop-Safe,
}
use privacy_toolkit.Cli.{
  Session, Sess, call, on_world, next_typed, input, prompt_enable, prompt_yes, prompt_or,
  prompt_or_none, prompt_text, or_value_error, to_int, int_or, lines_left, read_lines,
}
use privacy_toolkit.Cli.Menu.{Choice, perform, run_choices}
use privacy_toolkit.Cli.Handlers.{
  choose_tor_service, choose_interface, change_mac_of, choose_identity, choose_tor_switch,
  choose_sysctls, choose_portscan, choose_proxychains, verify_if_active, choose_proxy_switch,
  choose_snapshot, choose_start_mode, choose_stop_mode, choose_ram_hook, choose_vpn, wire_vbox,
  wire_virsh, choose_topology, choose_gateway_mode, choose_workstation_mode,
}

module _ (H : Host) where
  abbrev Steady : {A : Type 0} → Sess H A → Type 0
  Steady m = Keeps (λ v. Exclusive v.world.file) m

  on_world-Steady : {A : Type 0} (m : Exec (World H) A) → Safe H m → Steady (on_world H m)
  unfolding on_world
  on_world-Steady m k = record { at = λ v x. k.at v.world x }

  call-Steady : {A : Type 0} (m : Exec (World H) A) → Safe H m → Steady (call H m)
  unfolding call
  call-Steady m k = search (keeps_rules, on_world-Steady)

  next-Steady :
      (w : World H) (typed : List String)
      → Exclusive w.file
      → Exclusive (next_typed H w typed).1.world.file
  next-Steady w [] x = x
  next-Steady w (line ∷ rest) x = x

  input-Steady : Steady (input H)
  unfolding input
  input-Steady = record { at = λ v x. next-Steady v.world v.typed x }

  left-Steady :
      (typed : List String) (r : Option (List String)) (v : Session H)
      → Exclusive v.world.file
      → Exclusive (lines_left H v.world typed r v).1.world.file
  left-Steady typed none v x = x
  left-Steady typed (some rest) v x = x

  read_lines-Steady : Steady (read_lines H)
  unfolding read_lines
  read_lines-Steady = record { at = λ v x. left-Steady v.typed _ v x }

  or_value_error-Steady : (r : Option ℕ) → Steady (or_value_error H r)
  or_value_error-Steady none = search keeps_rules
  or_value_error-Steady (some n) = search keeps_rules

  to_int-Steady : (text : String) → Steady (to_int H text)
  unfolding to_int
  to_int-Steady text = or_value_error-Steady _

  int_or-Steady : (default : ℕ) (text : String) → Steady (int_or H default text)
  unfolding int_or
  int_or-Steady default text = search (keeps_rules, to_int-Steady)

  prompt_enable-Steady : Steady (prompt_enable H)
  unfolding prompt_enable
  prompt_enable-Steady = search (keeps_rules, input-Steady)

  prompt_yes-Steady : Steady (prompt_yes H)
  unfolding prompt_yes
  prompt_yes-Steady = search (keeps_rules, input-Steady)

  prompt_or-Steady : (default : String) → Steady (prompt_or H default)
  unfolding prompt_or
  prompt_or-Steady default = search (keeps_rules, input-Steady)

  prompt_or_none-Steady : Steady (prompt_or_none H)
  unfolding prompt_or_none
  prompt_or_none-Steady = search (keeps_rules, input-Steady)

  prompt_text-Steady : Steady (prompt_text H)
  unfolding prompt_text
  prompt_text-Steady = search (keeps_rules, input-Steady)

  ruleset menu_rules = (
    switch_rules, call-Steady, on_world-Steady, input-Steady, read_lines-Steady, int_or-Steady,
    to_int-Steady, prompt_enable-Steady, prompt_yes-Steady, prompt_or-Steady, prompt_or_none-Steady,
    prompt_text-Steady,
  )

  choose_interface-Steady : (ifaces : List String) → Steady (choose_interface H ifaces)
  choose_interface-Steady [] = input-Steady
  choose_interface-Steady (i ∷ []) = search keeps_rules
  choose_interface-Steady (i ∷ j ∷ is) = input-Steady

  change_mac_of-Steady :
      (env : Environment) (ifaces : List String) → Steady (change_mac_of H env ifaces)
  change_mac_of-Steady env [] = search keeps_rules
  change_mac_of-Steady env (i ∷ is) = search (menu_rules, choose_interface-Steady) depth 10

  choose_identity-Steady : (env : Environment) → Steady (choose_identity H env)
  unfolding choose_identity
  choose_identity-Steady env = search (menu_rules, change_mac_of-Steady) depth 10

  choose_proxychains-Steady : (env : Environment) → Steady (choose_proxychains H env)
  unfolding choose_proxychains
  choose_proxychains-Steady env = search menu_rules depth 20

  verify_if_active-Steady : (active : Bool) → Steady (verify_if_active H active)
  unfolding verify_if_active
  verify_if_active-Steady active = search menu_rules depth 10

  choose_proxy_switch-Steady : (env : Environment) → Steady (choose_proxy_switch H env)
  unfolding choose_proxy_switch
  choose_proxy_switch-Steady env =
      search
        (
          menu_rules, verify_if_active-Steady, enable_proxy_kill_switch-Safe,
          disable_proxy_kill_switch-Safe,
        )
        depth 30

  choose_vpn-Steady : (env : Environment) → Steady (choose_vpn H env)
  unfolding choose_vpn
  choose_vpn-Steady env =
      search
        (
          menu_rules, start_openvpn-Safe, start_wireguard-Safe, stop_openvpn-Safe,
          stop_wireguard-Safe,
        )
        depth 20

  choose_topology-Steady : Steady (choose_topology H)
  unfolding choose_topology wire_vbox wire_virsh
  choose_topology-Steady = search menu_rules depth 20

  choose_gateway_mode-Steady : (env : Environment) → Steady (choose_gateway_mode H env)
  unfolding choose_gateway_mode
  choose_gateway_mode-Steady env =
      search (menu_rules, enable_gateway-Safe, disable_gateway-Safe) depth 20

  choose_workstation_mode-Steady : (env : Environment) → Steady (choose_workstation_mode H env)
  unfolding choose_workstation_mode
  choose_workstation_mode-Steady env = search (menu_rules, configure_networking-Safe) depth 20

  perform-Steady : (env : Environment) (c : Choice) → Steady (perform H env c)
  unfolding perform choose_tor_service choose_tor_switch choose_sysctls choose_portscan
      choose_start_mode choose_stop_mode choose_ram_hook choose_snapshot
  perform-Steady env Choice.leak_check = search menu_rules depth 16
  perform-Steady env Choice.dns_report = search menu_rules depth 16
  perform-Steady env Choice.tor_service = search menu_rules depth 16
  perform-Steady env Choice.circuit = search menu_rules depth 16
  perform-Steady env Choice.identity = choose_identity-Steady env
  perform-Steady env Choice.tor_switch = search menu_rules depth 16
  perform-Steady env Choice.sysctls = search menu_rules depth 16
  perform-Steady env Choice.portscan = search menu_rules depth 16
  perform-Steady env Choice.bridges = search menu_rules depth 16
  perform-Steady env Choice.proxychains = choose_proxychains-Steady env
  perform-Steady env Choice.proxy_switch = choose_proxy_switch-Steady env
  perform-Steady env Choice.snapshot = search menu_rules depth 20
  perform-Steady env Choice.traces = search menu_rules depth 16
  perform-Steady env Choice.start_mode = search (menu_rules, full_start-Safe) depth 16
  perform-Steady env Choice.stop_mode = search (menu_rules, full_stop-Safe) depth 16
  perform-Steady env Choice.risky_apps = search menu_rules depth 16
  perform-Steady env Choice.wipe_ram = search menu_rules depth 16
  perform-Steady env Choice.ram_hook = search menu_rules depth 16
  perform-Steady env Choice.verify_switch = search (menu_rules, verify_active-Safe) depth 16
  perform-Steady env Choice.vpn = choose_vpn-Steady env
  perform-Steady env Choice.topology = choose_topology-Steady
  perform-Steady env Choice.gateway_mode = choose_gateway_mode-Steady env
  perform-Steady env Choice.workstation_mode = choose_workstation_mode-Steady env

  run_choices-Steady : (env : Environment) (cs : List Choice) → Steady (run_choices H env cs)
  unfolding run_choices
  run_choices-Steady env [] = search keeps_rules
  run_choices-Steady env (c ∷ cs) =
      Keeps-bind _ (perform H env c) _ (perform-Steady env c) (λ _. run_choices-Steady env cs)

  -- From no state file, whatever choices of those modelled are made in the menu, in any order, and
  -- whatever is typed at their prompts: the Tor kill switch and the proxy kill switch are never both
  -- recorded as on, also where the program is ended by a raise.
  pub run_choices-Exclusive :
      (env : Environment) (cs : List Choice) (v : Session H)
      → v.world.file ≡ absent
      → Exclusive (run_choices H env cs v).1.world.file
  unfolding load_unlocked default_state
  run_choices-Exclusive env cs v fresh = (run_choices-Steady env cs).at v (rw fresh refl)
