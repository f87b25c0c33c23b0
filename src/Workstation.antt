-- ===== src/Workstation.antt =====
-- privacyguard/workstation.py: the network of the workstation, inside its virtual machine. The check
-- of its isolation is in Isolation.
pub mod Configured
pub mod Isolation
use privacy_toolkit.Prelude.{
  ℕ, String, Bool, true, false, not, List, [], ◌∷◌, format, if◌then◌else◌,
}
use privacy_toolkit.Exec.{Exec, pure, catch_if, is_process_error, ◌>>=◌, ◌>>◌}
use privacy_toolkit.Host.{Host, Call, write_text}
use privacy_toolkit.Text.{decimal}
use privacy_toolkit.State.{World, on_sys, update, flag}
use privacy_toolkit.Environment.{Environment}
use privacy_toolkit.FirewallBackup.{Argv}
use privacy_toolkit.Core.Ipv6.{run_all_checked}
use privacy_toolkit.Dns.{resolv_conf}

unfoldable pub network_commands : String → String → String → ℕ → List Argv
unfolding decimal
network_commands iface static_ip gateway_ip cidr_prefix =
    ("ip" ∷ "addr" ∷ "flush" ∷ "dev" ∷ iface ∷ [])
    ∷ ("ip"
        ∷ "addr"
        ∷ "add"
        ∷ format (static_ip ∷ "/" ∷ decimal cidr_prefix ∷ [])
        ∷ "dev"
        ∷ iface
        ∷ [])
    ∷ ("ip" ∷ "link" ∷ "set" ∷ "dev" ∷ iface ∷ "up" ∷ [])
    ∷ ("ip" ∷ "route" ∷ "add" ∷ "default" ∷ "via" ∷ gateway_ip ∷ [])
    ∷ []

module _ (H : Host) where
  -- The `try` block of `configure_networking`.
  unfoldable pub set_network : String → String → String → ℕ → Exec (World H) (Unit {0})
  set_network iface static_ip gateway_ip cidr_prefix = do
    on_sys H (run_all_checked H (network_commands iface static_ip gateway_ip cidr_prefix))
    on_sys H (write_text H resolv_conf (format ("nameserver " ∷ gateway_ip ∷ "\n" ∷ [])))
    update H (("workstation_configured", flag true) ∷ [])
    pure tt

  unfoldable pub configure_networking :
      Environment → String → String → String → ℕ → Exec (World H) (Unit {0})
  configure_networking env iface static_ip gateway_ip cidr_prefix =
      if env.termux
      then pure tt
      else if not env.root
      then pure tt
      else catch_if is_process_error (set_network iface static_ip gateway_ip cidr_prefix) (pure tt)
