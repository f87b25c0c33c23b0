-- ===== src/Core/Ipv6.antt =====
-- `block_ipv6` and `unblock_ipv6` of privacyguard/core.py.
pub mod Frames
use privacy_toolkit.Prelude.{Bool, true, false, not, ◌||◌, List, [], ◌∷◌, if◌then◌else◌}
use privacy_toolkit.Exec.{Exec, pure, catch_if, is_process_error, ◌>>=◌, ◌>>◌}
use privacy_toolkit.Host.{Host, Call, run_checked}
use privacy_toolkit.State.{World, on_sys, load, update, flag, is_set}
use privacy_toolkit.Environment.{Environment}
use privacy_toolkit.FirewallBackup.{Argv}

abbrev pub block_commands : List Argv
block_commands =
    ("ip6tables" ∷ "-F" ∷ [])
    ∷ ("ip6tables" ∷ "-P" ∷ "INPUT" ∷ "DROP" ∷ [])
    ∷ ("ip6tables" ∷ "-P" ∷ "OUTPUT" ∷ "DROP" ∷ [])
    ∷ ("ip6tables" ∷ "-P" ∷ "FORWARD" ∷ "DROP" ∷ [])
    ∷ ("ip6tables" ∷ "-A" ∷ "OUTPUT" ∷ "-o" ∷ "lo" ∷ "-j" ∷ "ACCEPT" ∷ [])
    ∷ ("ip6tables" ∷ "-A" ∷ "INPUT" ∷ "-i" ∷ "lo" ∷ "-j" ∷ "ACCEPT" ∷ [])
    ∷ []

abbrev pub unblock_commands : List Argv
unblock_commands =
    ("ip6tables" ∷ "-F" ∷ [])
    ∷ ("ip6tables" ∷ "-P" ∷ "INPUT" ∷ "ACCEPT" ∷ [])
    ∷ ("ip6tables" ∷ "-P" ∷ "OUTPUT" ∷ "ACCEPT" ∷ [])
    ∷ ("ip6tables" ∷ "-P" ∷ "FORWARD" ∷ "ACCEPT" ∷ [])
    ∷ []

module _ (H : Host) where
  -- Commands in a row, each with `check=True`: the first that fails ends them.
  unfoldable pub run_all_checked : List Argv → Call H (Unit {0})
  run_all_checked [] = pure tt
  run_all_checked (argv ∷ rest) = do run_checked H argv; run_all_checked rest

  unfoldable pub block_ipv6 : Environment → Exec (World H) Bool
  block_ipv6 env = if env.termux || not env.root || not env.has_ip6tables then pure false else do
    st ← load H
    if is_set st "ipv6_blocked"
        then pure true
        else catch_if is_process_error
            (do
              on_sys H (run_all_checked block_commands)
              update H (("ipv6_blocked", flag true) ∷ [])
              pure true)
            (pure false)

  unfoldable pub unblock_ipv6 : Environment → Exec (World H) (Unit {0})
  unblock_ipv6 env = if env.termux || not env.root || not env.has_ip6tables then pure tt else do
    st ← load H
    if not (is_set st "ipv6_blocked")
        then pure tt
        else catch_if is_process_error
            (do
              on_sys H (run_all_checked unblock_commands)
              update H (("ipv6_blocked", flag false) ∷ [])
              pure tt)
            (pure tt)
