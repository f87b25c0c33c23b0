-- ===== src/Cli/Menu.antt =====
-- The menu of main.py: its choices, and sessions of them.
use privacy_toolkit.Prelude.{none, List, [], ◌∷◌}
use privacy_toolkit.Exec.{pure, ◌>>=◌, ◌>>◌}
use privacy_toolkit.Host.{Host}
use privacy_toolkit.Environment.{Environment}
use privacy_toolkit.Core.Identity.{clean_traces}
use privacy_toolkit.ProxyTor.Config.{rotate_tor_circuit, configure_bridges}
use privacy_toolkit.Verify.{verify_active}
use privacy_toolkit.Dns.{dns_leak_check}
use privacy_toolkit.Ram.{kill_risky_apps, wipe_free_ram}
use privacy_toolkit.Orchestrate.{leak_report}
use privacy_toolkit.Cli.{Sess, call, prompt_yes, prompt_or, read_lines}
use privacy_toolkit.Cli.Handlers.{
  on_machine, choose_tor_service, choose_identity, choose_tor_switch, choose_sysctls,
  choose_portscan, choose_proxychains, choose_proxy_switch, choose_snapshot, choose_start_mode,
  choose_stop_mode, choose_ram_hook, choose_vpn, choose_topology, choose_gateway_mode,
  choose_workstation_mode,
}

-- The choices of the menu that are modelled: 1 to 8, 11 to 15, 17, 18, 20, 21, 22, 24, 25, 28, 29 and
-- 30, in this order.
pub data Choice : Type 0 where
  leak_check dns_report tor_service circuit identity tor_switch sysctls portscan bridges proxychains
        proxy_switch snapshot traces start_mode stop_mode risky_apps wipe_ram ram_hook verify_switch
        vpn topology gateway_mode workstation_mode :
      Choice

module _ (H : Host) where
  -- What the menu does for a choice.
  unfoldable pub perform : Environment → Choice → Sess H (Unit {0})
  perform env leak_check = on_machine H (leak_report H)
  perform env dns_report = do tunnel ← prompt_yes H; on_machine H (dns_leak_check H tunnel)
  perform env tor_service = choose_tor_service H env
  perform env circuit = on_machine H (rotate_tor_circuit H env none)
  perform env identity = choose_identity H env
  perform env tor_switch = choose_tor_switch H env
  perform env sysctls = choose_sysctls H env
  perform env portscan = choose_portscan H env
  perform env bridges = do lines ← read_lines H; on_machine H (configure_bridges H env lines none)
  perform env proxychains = choose_proxychains H env
  perform env proxy_switch = choose_proxy_switch H env
  perform env snapshot = choose_snapshot H
  perform env traces = do wipe ← prompt_yes H; on_machine H (clean_traces H env wipe)
  perform env start_mode = choose_start_mode H env
  perform env stop_mode = choose_stop_mode H env
  perform env risky_apps = on_machine H (kill_risky_apps H env [])
  perform env wipe_ram = do mode ← prompt_or H "fast"; on_machine H (wipe_free_ram H env mode)
  perform env ram_hook = choose_ram_hook H env
  perform env verify_switch = call H (verify_active H env)
  perform env vpn = choose_vpn H env
  perform env topology = choose_topology H
  perform env gateway_mode = choose_gateway_mode H env
  perform env workstation_mode = choose_workstation_mode H env

  -- These choices, made one after the other. What a choice raises ends the program, save where the
  -- code of the choice has a handler of its own.
  unfoldable pub run_choices : Environment → List Choice → Sess H (Unit {0})
  unfolding perform
  run_choices env [] = pure tt
  run_choices env (c ∷ cs) = do perform env c; run_choices env cs
