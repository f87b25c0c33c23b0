-- ===== src/Core/KillSwitch.antt =====
-- The Tor kill switch of privacyguard/core.py.
pub mod Contract
pub mod Recovery
pub mod Polling
pub mod Starts
use privacy_toolkit.Prelude.{
  ℕ, zero, suc, ◌+◌, String, Bool, true, false, not, ◌||◌, ◌&&◌, Option, none, some, List, [], ◌∷◌,
  ltb, if◌then◌else◌,
}
use privacy_toolkit.Exec.{Exec, pure, gets, catch_if, is_permission_error, ◌>>=◌, ◌>>◌}
use privacy_toolkit.Host.{Host, Call, TorAnswer, run, read_text, write_text, wait}
use privacy_toolkit.Text.{Chars, chars, of_chars, same}
use privacy_toolkit.State.{Dict, World, Json, null, flag, text, get, is_set, on_sys, load, update}
use privacy_toolkit.Environment.{Environment}
use privacy_toolkit.FirewallBackup.{Argv, apply_ruleset, restore_rules}
use privacy_toolkit.ProxyTor.{resolve_tor_systemd_unit, start_tor, check_tor_active}
use privacy_toolkit.Core.Torrc.{rewritten}
use privacy_toolkit.Core.Ipv6.{block_ipv6}

-- `TOR_UID_PLACEHOLDER`
abbrev pub tor_uid : String
tor_uid = "debian-tor"

abbrev pub kill_switch_rules : List Argv
kill_switch_rules =
    ("iptables" ∷ "-F" ∷ [])
    ∷ ("iptables" ∷ "-t" ∷ "nat" ∷ "-F" ∷ [])
    ∷ ("iptables" ∷ "-A" ∷ "OUTPUT" ∷ "-o" ∷ "lo" ∷ "-j" ∷ "ACCEPT" ∷ [])
    ∷ ("iptables" ∷ "-A" ∷ "OUTPUT" ∷ "-m" ∷ "owner" ∷ "--uid-owner" ∷ tor_uid ∷ "-j" ∷ "ACCEPT"
        ∷ [])
    ∷ ("iptables" ∷ "-t" ∷ "nat" ∷ "-A" ∷ "OUTPUT" ∷ "-p" ∷ "tcp" ∷ "--syn" ∷ "-j" ∷ "REDIRECT"
        ∷ "--to-ports" ∷ "9040" ∷ [])
    ∷ ("iptables" ∷ "-t" ∷ "nat" ∷ "-A" ∷ "OUTPUT" ∷ "-p" ∷ "udp" ∷ "--dport" ∷ "53" ∷ "-j"
        ∷ "REDIRECT" ∷ "--to-ports" ∷ "5353" ∷ [])
    ∷ ("iptables" ∷ "-A" ∷ "OUTPUT" ∷ "-m" ∷ "state" ∷ "--state" ∷ "ESTABLISHED,RELATED" ∷ "-j"
        ∷ "ACCEPT" ∷ [])
    ∷ ("iptables" ∷ "-A" ∷ "OUTPUT" ∷ "-p" ∷ "tcp" ∷ "--dport" ∷ "9040" ∷ "-j" ∷ "ACCEPT" ∷ [])
    ∷ ("iptables" ∷ "-A" ∷ "OUTPUT" ∷ "-j" ∷ "DROP" ∷ [])
    ∷ []

-- A backup path as it is stored, and as it is read back for `restore_rules`.
abbrev pub stored_path : Option String → Json
stored_path none = null
stored_path (some path) = text path

abbrev pub path_of : Json → Option String
path_of (text path) = some path
path_of v = none

abbrev is_answer : Option TorAnswer → Bool
is_answer none = false
is_answer (some _) = true

-- `torrc_path or Path("/etc/tor/torrc")`
abbrev pub torrc : String
torrc = "/etc/tor/torrc"

module _ (H : Host) where
  abbrev Act : Type 0 → Type 0
  Act A = Exec (World H) A

  -- `path.read_text() if path.exists() else ""`
  unfoldable pub read_if_exists : String → Call H String
  read_if_exists path = do here ← gets (H.exists path); if here then read_text H path else pure ""

  abbrev write_torrc : String → Chars → Call H Bool
  write_torrc path content = do write_text H path (of_chars content); pure true

  -- `_ensure_transparent_proxy_torrc`: true if torrc was changed
  unfoldable pub ensure_transparent_proxy_torrc : String → Call H Bool
  unfolding rewritten same chars of_chars
  ensure_transparent_proxy_torrc path =
      catch_if is_permission_error
        (do
          original ← read_if_exists path
          if same (rewritten (chars original)) (chars original)
              then pure false
              else catch_if is_permission_error (write_torrc path (rewritten (chars original)))
                  (pure false))
        (pure false)

  -- The `while waited < timeout` loop, on fuel.
  unfoldable pub poll_tor : ℕ → ℕ → ℕ → Call H Bool
  poll_tor zero waited timeout = pure false
  poll_tor (suc fuel) waited timeout =
      if ltb waited timeout
      then (do
        wait H 2
        check ← check_tor_active H 8
        if is_answer check then pure true else poll_tor fuel (waited + 2) timeout)
      else pure false

  -- `_wait_for_tor_bootstrap`: the loop has at most one round for each second of the timeout.
  unfoldable pub wait_for_tor_bootstrap : Environment → ℕ → Act Bool
  wait_for_tor_bootstrap env timeout = do
    check ← on_sys H (check_tor_active H 8)
    if is_answer check
        then pure true
        else (do start_tor H env; on_sys H (poll_tor (suc timeout) 0 timeout))

  -- `if torrc_changed and envmod.have("systemctl")`
  unfoldable pub restart_if_changed : Bool → Act (Unit {0})
  restart_if_changed changed = do
    systemctl ← gets (λ w. H.which "systemctl" w.sys)
    if changed && systemctl
        then (do
          unit ← resolve_tor_systemd_unit H
          on_sys H (run H ("systemctl" ∷ "restart" ∷ unit ∷ []))
          on_sys H (wait H 2))
        else pure tt

  -- The part of `enable_kill_switch` that changes the firewall and then the state.
  unfoldable pub apply_kill_switch : Environment → Act Bool
  apply_kill_switch env = do
    applied ← on_sys H (apply_ruleset H env kill_switch_rules "pre-tor-killswitch" [])
    if not applied.0 then pure false else (do
      update H (
          ("tor_kill_switch", flag true)
          ∷ ("iptables_backup", stored_path applied.1.ipv4)
          ∷ ("ip6tables_backup", stored_path applied.1.ipv6)
          ∷ [])
      block_ipv6 H env
      pure true)

  -- The rest of `enable_kill_switch`, once the saved state allows it: Tor has to be reachable before
  -- any rule is applied.
  unfoldable pub start_kill_switch : Environment → ℕ → Act Bool
  start_kill_switch env bootstrap_timeout = do
    changed ← on_sys H (ensure_transparent_proxy_torrc torrc)
    restart_if_changed changed
    up ← wait_for_tor_bootstrap env bootstrap_timeout
    if up then apply_kill_switch env else pure false

  unfoldable pub enable_kill_switch : Environment → Bool → ℕ → Act Bool
  enable_kill_switch env force bootstrap_timeout =
      if env.termux
      then pure false
      else if not env.root || not env.has_iptables
      then pure false
      else if not env.has_tor
      then pure false
      else do
        st ← load H
        if is_set st "tor_kill_switch" && not force
            then pure true
            else if is_set st "proxy_only_kill_switch"
            then pure false
            else start_kill_switch env bootstrap_timeout

  -- The end of `disable_kill_switch`, from the state `st` that was loaded.
  unfoldable pub end_kill_switch : Environment → Dict → Act (Unit {0})
  end_kill_switch env st = do
    on_sys H (
        restore_rules H env (path_of (get st "iptables_backup"))
          (path_of (get st "ip6tables_backup")))
    update H (
        ("tor_kill_switch", flag false)
        ∷ ("ipv6_blocked", flag false)
        ∷ ("iptables_backup", null)
        ∷ ("ip6tables_backup", null)
        ∷ [])
    pure tt

  unfoldable pub disable_kill_switch : Environment → Act (Unit {0})
  disable_kill_switch env =
      if env.termux || not env.root || not env.has_iptables then pure tt else do
        st ← load H
        if not (is_set st "tor_kill_switch") then pure tt else end_kill_switch env st
