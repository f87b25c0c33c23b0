-- ===== src/Cli/Main.antt =====
-- `main` of main.py: which command the flags of the command line ask for, and the commands that are
-- modelled. argparse is not code of the repository: its result is the record `Args`.
use privacy_toolkit.Prelude.{
  ℕ, Bool, true, false, not, String, Option, none, some, [], if◌then◌else◌,
}
use privacy_toolkit.Exec.{Exec, pure, ◌>>◌}
use privacy_toolkit.Host.{Host}
use privacy_toolkit.State.{World, on_sys}
use privacy_toolkit.Environment.{Environment}
use privacy_toolkit.Core.Identity.{clean_traces}
use privacy_toolkit.Dns.{dns_leak_check}
use privacy_toolkit.Orchestrate.{leak_report, full_start, full_stop}
use privacy_toolkit.ProxyTor.Config.{rotate_tor_circuit}
use privacy_toolkit.Ram.{
  kill_risky_apps, wipe_free_ram, install_shutdown_hook, remove_shutdown_hook,
}
use privacy_toolkit.Verify.{verify_active}
use privacy_toolkit.Exclusion.Calls.{
  Safe, switch_rules, full_start-Safe, full_stop-Safe, verify_active-Safe,
}

pub record Args : Type 0 where
  pub gui : Bool
  pub status : Bool
  pub dns_leak_check : Bool
  pub state : Bool
  pub verify : Bool
  pub start : Bool
  pub stop : Bool
  pub clean : Bool
  pub rotate_ip : Bool
  pub kill_risky_apps : Bool
  pub wipe_ram : Bool
  pub install_ram_wipe_hook : Bool
  pub remove_ram_wipe_hook : Bool
  pub no_randomize_identity : Bool
  pub bootstrap_timeout : ℕ
  pub wipe_ram_mode : String

pub data Command : Type 0 where
  launch_gui print_status dns_report print_state verify_now : Command
  start_mode : ℕ → Bool → Command
  stop_mode clean rotate kill_apps : Command
  wipe install_hook : String → Command
  remove_hook open_menu : Command

-- The first flag, in the order of the code, that is given.
unfoldable pub command_of : Args → Command
command_of a =
    if a.gui
    then launch_gui
    else if a.status
    then print_status
    else if a.dns_leak_check
    then dns_report
    else if a.state
    then print_state
    else if a.verify
    then verify_now
    else if a.start
    then start_mode a.bootstrap_timeout (not a.no_randomize_identity)
    else if a.stop
    then stop_mode
    else if a.clean
    then clean
    else if a.rotate_ip
    then rotate
    else if a.kill_risky_apps
    then kill_apps
    else if a.wipe_ram
    then wipe a.wipe_ram_mode
    else if a.install_ram_wipe_hook
    then install_hook a.wipe_ram_mode
    else if a.remove_ram_wipe_hook
    then remove_hook
    else open_menu

module _ (H : Host) where
  abbrev ignoring : {A : Type 0} → Exec (World H) A → Exec (World H) (Unit {0})
  ignoring m = do m; pure tt

  -- What a command does; `none` for the window, the menu and the state, which is only printed.
  unfoldable pub run_command : Environment → Command → Option (Exec (World H) (Unit {0}))
  run_command env Command.launch_gui = none
  run_command env Command.print_status = some (on_sys H (leak_report H))
  run_command env Command.dns_report = some (ignoring (on_sys H (dns_leak_check H false)))
  run_command env Command.print_state = none
  run_command env Command.verify_now = some (ignoring (verify_active H env))
  run_command env (Command.start_mode timeout identity) =
      some (ignoring (full_start H env true timeout identity))
  run_command env Command.stop_mode = some (full_stop H env false false "fast")
  run_command env Command.clean = some (on_sys H (clean_traces H env false))
  run_command env Command.rotate = some (ignoring (on_sys H (rotate_tor_circuit H env none)))
  run_command env Command.kill_apps = some (ignoring (on_sys H (kill_risky_apps H env [])))
  run_command env (Command.wipe mode) = some (on_sys H (wipe_free_ram H env mode))
  run_command env (Command.install_hook mode) = some (on_sys H (install_shutdown_hook H env mode))
  run_command env Command.remove_hook = some (on_sys H (remove_shutdown_hook H env))
  run_command env Command.open_menu = none

  abbrev IsSafe : Option (Exec (World H) (Unit {0})) → Type 0
  IsSafe none = Unit
  IsSafe (some m) = Safe H m

  ruleset command_rules = (switch_rules, verify_active-Safe, full_start-Safe, full_stop-Safe)

  -- A modelled command keeps the kill switches exclusive, whether it returns or raises.
  pub run_command-Safe : (env : Environment) (c : Command) → IsSafe (run_command env c)
  unfolding run_command
  run_command-Safe env Command.launch_gui = tt
  run_command-Safe env Command.print_status = search command_rules depth 12
  run_command-Safe env Command.dns_report = search command_rules depth 12
  run_command-Safe env Command.print_state = tt
  run_command-Safe env Command.verify_now = search command_rules depth 12
  run_command-Safe env (Command.start_mode timeout identity) = search command_rules depth 12
  run_command-Safe env Command.stop_mode = search command_rules depth 12
  run_command-Safe env Command.clean = search command_rules depth 12
  run_command-Safe env Command.rotate = search command_rules depth 12
  run_command-Safe env Command.kill_apps = search command_rules depth 12
  run_command-Safe env (Command.wipe mode) = search command_rules depth 12
  run_command-Safe env (Command.install_hook mode) = search command_rules depth 12
  run_command-Safe env Command.remove_hook = search command_rules depth 12
  run_command-Safe env Command.open_menu = tt
