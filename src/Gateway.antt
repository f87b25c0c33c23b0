-- ===== src/Gateway.antt =====
-- privacyguard/gateway.py: the transparent Tor router for a workstation VM.
pub mod Contract
use privacy_toolkit.Prelude.{
  String, Bool, true, false, not, ◌||◌, ◌&&◌, Option, none, some, List, [], ◌∷◌, ◌++◌,
  if◌then◌else◌,
}
use privacy_toolkit.Exec.{Exec, pure, ◌>>=◌, ◌>>◌}
use privacy_toolkit.Host.{Host, Call, run, write_text}
use privacy_toolkit.Text.{
  Chars, chars, of_chars, occurs, before_first, after_last, drop_end, is_newline, length,
}
use privacy_toolkit.State.{
  Dict, World, Scalar, nothing, words, null, flag, object, get, is_set, on_sys, load, update,
}
use privacy_toolkit.Environment.{Environment}
use privacy_toolkit.FirewallBackup.{Argv, apply_ruleset, restore_rules}
use privacy_toolkit.Core.{tor_uid, block_ipv6, stored_path, path_of, read_if_exists, torrc}

unfoldable pub gateway_start : Chars
unfolding chars
gateway_start = chars "# --- PrivacyGuard gateway mode (managed block) ---"

unfoldable pub gateway_end : Chars
unfolding chars
gateway_end = chars "# --- end PrivacyGuard gateway mode ---"

unfoldable pub gateway_block : Chars → Chars
unfolding gateway_start gateway_end chars
gateway_block ip =
    gateway_start
    ++ (chars "\nTransPort 127.0.0.1:9040\nTransPort "
        ++ (ip
            ++ (chars ":9040\nDNSPort 127.0.0.1:5353\nDNSPort "
                ++ (ip
                    ++ (chars ":5353\nAutomapHostsOnResolve 1\n" ++ (gateway_end ++ chars "\n"))))))

-- What `_write_gateway_torrc_snippet` makes of the text of torrc.
unfoldable pub gateway_torrc : Chars → Chars → Chars
unfolding gateway_block gateway_start gateway_end drop_end
gateway_torrc ip existing =
    if occurs gateway_start existing
    then before_first gateway_start existing
      ++ (gateway_block ip ++ after_last (length existing) gateway_end existing)
    else drop_end is_newline existing ++ ("\n" ∷ "\n" ∷ gateway_block ip)

-- The rules of `enable_gateway`, for the interface of the workstation.
abbrev pub gateway_rules : String → List Argv
gateway_rules iface =
    ("iptables" ∷ "-F" ∷ [])
    ∷ ("iptables" ∷ "-t" ∷ "nat" ∷ "-F" ∷ [])
    ∷ ("iptables" ∷ "-F" ∷ "FORWARD" ∷ [])
    ∷ ("iptables" ∷ "-A" ∷ "OUTPUT" ∷ "-o" ∷ "lo" ∷ "-j" ∷ "ACCEPT" ∷ [])
    ∷ ("iptables" ∷ "-A" ∷ "OUTPUT" ∷ "-m" ∷ "owner" ∷ "--uid-owner" ∷ tor_uid ∷ "-j" ∷ "ACCEPT"
        ∷ [])
    ∷ ("iptables" ∷ "-t" ∷ "nat" ∷ "-A" ∷ "OUTPUT" ∷ "-p" ∷ "tcp" ∷ "--syn" ∷ "-j" ∷ "REDIRECT"
        ∷ "--to-ports" ∷ "9040" ∷ [])
    ∷ ("iptables" ∷ "-t" ∷ "nat" ∷ "-A" ∷ "OUTPUT" ∷ "-p" ∷ "udp" ∷ "--dport" ∷ "53" ∷ "-j"
        ∷ "REDIRECT" ∷ "--to-ports" ∷ "5353" ∷ [])
    ∷ ("iptables" ∷ "-A" ∷ "OUTPUT" ∷ "-m" ∷ "state" ∷ "--state" ∷ "ESTABLISHED,RELATED" ∷ "-j"
        ∷ "ACCEPT" ∷ [])
    ∷ ("iptables" ∷ "-A" ∷ "OUTPUT" ∷ "-p" ∷ "tcp" ∷ "--dport" ∷ "9040" ∷ "-j" ∷ "ACCEPT" ∷ [])
    ∷ ("iptables" ∷ "-A" ∷ "OUTPUT" ∷ "-j" ∷ "DROP" ∷ [])
    ∷ ("iptables" ∷ "-t" ∷ "nat" ∷ "-A" ∷ "PREROUTING" ∷ "-i" ∷ iface ∷ "-p" ∷ "tcp" ∷ "--syn"
        ∷ "-j" ∷ "REDIRECT" ∷ "--to-ports" ∷ "9040" ∷ [])
    ∷ ("iptables" ∷ "-t" ∷ "nat" ∷ "-A" ∷ "PREROUTING" ∷ "-i" ∷ iface ∷ "-p" ∷ "udp" ∷ "--dport"
        ∷ "53" ∷ "-j" ∷ "REDIRECT" ∷ "--to-ports" ∷ "5353" ∷ [])
    ∷ ("iptables" ∷ "-P" ∷ "FORWARD" ∷ "DROP" ∷ [])
    ∷ ("iptables" ∷ "-A" ∷ "FORWARD" ∷ "-j" ∷ "DROP" ∷ [])
    ∷ ("iptables" ∷ "-A" ∷ "INPUT" ∷ "-i" ∷ iface ∷ "-p" ∷ "tcp" ∷ "--dport" ∷ "9040" ∷ "-j"
        ∷ "ACCEPT" ∷ [])
    ∷ ("iptables" ∷ "-A" ∷ "INPUT" ∷ "-i" ∷ iface ∷ "-p" ∷ "udp" ∷ "--dport" ∷ "5353" ∷ "-j"
        ∷ "ACCEPT" ∷ [])
    ∷ []

abbrev pub word_or_none : Option String → Scalar
word_or_none none = nothing
word_or_none (some s) = words s

module _ (H : Host) where
  abbrev Act : Type 0 → Type 0
  Act A = Exec (World H) A

  -- `_write_gateway_torrc_snippet`
  unfoldable pub write_gateway_torrc_snippet : String → Call H (Unit {0})
  unfolding gateway_torrc chars of_chars
  write_gateway_torrc_snippet ip = do
    existing ← read_if_exists H torrc
    write_text H torrc (of_chars (gateway_torrc (chars ip) (chars existing)))

  -- The IPv6 FORWARD chain; its failure is only reported.
  unfoldable pub lock_forward6 : Environment → Call H (Unit {0})
  lock_forward6 env =
      if env.has_ip6tables
      then (do
        run H ("ip6tables" ∷ "-P" ∷ "FORWARD" ∷ "DROP" ∷ [])
        run H ("ip6tables" ∷ "-F" ∷ "FORWARD" ∷ [])
        pure tt)
      else pure tt

  unfoldable pub apply_gateway : Environment → String → String → Option String → Act Bool
  apply_gateway env iface ip external = do
    applied ← on_sys H (apply_ruleset H env (gateway_rules iface) "pre-gateway-mode" [])
    if not applied.0 then pure false else (do
      on_sys H (lock_forward6 env)
      update H (
          ("gateway_mode_active", flag true)
          ∷ ("gateway_iptables_backup", stored_path applied.1.ipv4)
          ∷ ("gateway_ip6tables_backup", stored_path applied.1.ipv6)
          ∷ (
            "gateway_config",
            object (
                ("internal_iface", words iface)
                ∷ ("internal_ip", words ip)
                ∷ ("external_iface", word_or_none external)
                ∷ []),
          )
          ∷ [])
      block_ipv6 H env
      pure true)

  -- The rest of `enable_gateway`, once the saved state allows it.
  unfoldable pub start_gateway : Environment → String → String → Option String → Act Bool
  start_gateway env iface ip external = do
    on_sys H (write_gateway_torrc_snippet ip)
    apply_gateway env iface ip external

  unfoldable pub enable_gateway : Environment → String → String → Option String → Bool → Act Bool
  enable_gateway env iface ip external force =
      if env.termux
      then pure false
      else if not env.root || not env.has_iptables
      then pure false
      else if not env.has_tor
      then pure false
      else do
        st ← load H
        if is_set st "gateway_mode_active" && not force
            then pure true
            else if is_set st "tor_kill_switch" || is_set st "proxy_only_kill_switch"
            then pure false
            else start_gateway env iface ip external

  -- The end of `disable_gateway`, from the state `st` that was loaded.
  unfoldable pub end_gateway : Environment → Dict → Act (Unit {0})
  end_gateway env st = do
    on_sys H (
        restore_rules H env (path_of (get st "gateway_iptables_backup"))
          (path_of (get st "gateway_ip6tables_backup")))
    update H (
        ("gateway_mode_active", flag false)
        ∷ ("ipv6_blocked", flag false)
        ∷ ("gateway_iptables_backup", null)
        ∷ ("gateway_ip6tables_backup", null)
        ∷ ("gateway_config", null)
        ∷ [])
    pure tt

  unfoldable pub disable_gateway : Environment → Act (Unit {0})
  disable_gateway env = if env.termux || not env.root || not env.has_iptables then pure tt else do
    st ← load H
    if not (is_set st "gateway_mode_active") then pure tt else end_gateway env st
