-- ===== src/Orchestrate.antt =====
-- privacyguard/orchestrate.py: the whole of the anonymity mode, switched on and off.
pub mod Contract
use privacy_toolkit.Prelude.{ℕ, String, Bool, true, false, not, ◌&&◌, List, [], ◌∷◌, if◌then◌else◌}
use privacy_toolkit.Exec.{Exec, pure, gets, ◌>>=◌, ◌>>◌}
use privacy_toolkit.Host.{Host, Call, wait}
use privacy_toolkit.State.{World, on_sys}
use privacy_toolkit.Environment.{Environment}
use privacy_toolkit.Core.{enable_kill_switch, disable_kill_switch}
use privacy_toolkit.Core.Identity.{randomize_mac, randomize_hostname}
use privacy_toolkit.ProxyTor.{start_tor, stop_tor, check_tor_active}
use privacy_toolkit.AntiRecon.{
  enable_stealth_sysctls, enable_portscan_protection, disable_stealth_sysctls,
  disable_portscan_protection,
}
use privacy_toolkit.Monitor.{get_public_ip}
use privacy_toolkit.Dns.{configured_resolvers}
use privacy_toolkit.Verify.{verify_tor_kill_switch}
use privacy_toolkit.Ram.{kill_risky_apps, wipe_free_ram}

module _ (H : Host) where
  -- `leak_report`, of which only the calls are kept.
  unfoldable pub leak_report : Call H (Unit {0})
  leak_report = do get_public_ip H; configured_resolvers H; check_tor_active H 10; pure tt

  abbrev Act : Type 0 → Type 0
  Act A = Exec (World H) A

  unfoldable pub randomize_macs : Environment → List String → Call H (Unit {0})
  randomize_macs env [] = pure tt
  randomize_macs env (iface ∷ ifaces) = do randomize_mac H env iface true; randomize_macs env ifaces

  unfoldable pub change_identity : Environment → Bool → Call H (Unit {0})
  unfolding randomize_macs
  change_identity env randomize_identity =
      if randomize_identity
      then (do randomize_macs env env.interfaces; randomize_hostname H env)
      else pure tt

  -- The wait and the verification at the end of `full_start`.
  unfoldable pub verify_started : Bool → Bool → Call H (Unit {0})
  verify_started active run_verification =
      if active && run_verification
      then (do wait H 8; verify_tor_kill_switch H; pure tt)
      else pure tt

  -- The part of `full_start` outside Termux.
  unfoldable pub start_linux : Environment → Bool → ℕ → Bool → Act Bool
  start_linux env run_verification bootstrap_timeout randomize_identity = do
    on_sys H (change_identity env randomize_identity)
    enable_stealth_sysctls H env
    enable_portscan_protection H env 15 60 false
    active ← enable_kill_switch H env false bootstrap_timeout
    on_sys H (verify_started active run_verification)
    pure active

  unfoldable pub full_start : Environment → Bool → ℕ → Bool → Act Bool
  full_start env run_verification bootstrap_timeout randomize_identity = do
    start_tor H env
    if env.termux
        then pure false
        else start_linux env run_verification bootstrap_timeout randomize_identity

  -- The switches that `full_stop` turns off outside Termux.
  unfoldable pub stop_linux : Environment → Act (Unit {0})
  stop_linux env = do
    disable_kill_switch H env
    disable_portscan_protection H env
    disable_stealth_sysctls H env

  unfoldable pub clean_memory : Environment → Bool → Bool → String → Call H (Unit {0})
  clean_memory env kill_apps wipe_ram mode = do
    if kill_apps then (do kill_risky_apps H env []; pure tt) else pure tt
    if wipe_ram then wipe_free_ram H env mode else pure tt

  unfoldable pub full_stop : Environment → Bool → Bool → String → Act (Unit {0})
  full_stop env kill_apps wipe_ram mode = do
    if env.termux then pure tt else stop_linux env
    stop_tor H env
    on_sys H (clean_memory env kill_apps wipe_ram mode)
