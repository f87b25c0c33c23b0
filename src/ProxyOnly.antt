-- ===== src/ProxyOnly.antt =====
-- privacyguard/proxy_only.py: the kill switch that routes through a plain proxy by redsocks.
pub mod Contract
pub mod Starts
use privacy_toolkit.Prelude.{
  ℕ, String, Bool, true, false, not, ◌||◌, ◌&&◌, Option, none, some, List, [], ◌∷◌, ◌==◌, str_eq,
  format, if◌then◌else◌,
}
use privacy_toolkit.Exec.{Exec, Exn, raise, pure, gets, ◌>>=◌, ◌>>◌}
use privacy_toolkit.Host.{Host, Call, run, popen, write_text}
use privacy_toolkit.Text.{decimal}
use privacy_toolkit.State.{Dict, World, null, flag, text, get, is_set, on_sys, load, update}
use privacy_toolkit.Environment.{Environment}
use privacy_toolkit.FirewallBackup.{Argv, apply_ruleset, restore_rules}
use privacy_toolkit.Core.{block_ipv6, stored_path, path_of}

abbrev pub redsocks_conf : String
redsocks_conf = "/etc/redsocks.conf"

-- `proxy_type in ("socks5", …)`
abbrev pub known_type : String → Bool
known_type t =
    str_eq t "socks5" || str_eq t "socks4" || str_eq t "http-connect" || str_eq t "http-relay"

-- A missing or empty text is false.
abbrev given : Option String → Bool
given none = false
given (some s) = not (str_eq s "")

abbrev shown : Option String → String
shown none = "None"
shown (some s) = s

-- The text that `generate_redsocks_conf` writes.
unfoldable pub redsocks_text : String → ℕ → String → Option String → Option String → String
unfolding decimal
redsocks_text host port proxy_type username password =
    let kind = if known_type proxy_type then proxy_type else "socks5" in
    let auth =
      if given username && given password
      then format (
          "    login = \""
          ∷ shown username
          ∷ "\";\n    password = \""
          ∷ shown password
          ∷ "\";\n"
          ∷ [])
      else "" in
    format (
      "base {\n    log_debug = off;\n    log_info = on;\n    log = \"syslog:daemon\";\n"
      ∷ "    daemon = on;\n    redirector = iptables;\n}\n\nredsocks {\n"
      ∷ "    local_ip = 127.0.0.1;\n    local_port = 12345;\n    ip = "
      ∷ host
      ∷ ";\n    port = "
      ∷ decimal port
      ∷ ";\n    type = "
      ∷ kind
      ∷ ";\n"
      ∷ auth
      ∷ "}\n"
      ∷ [])

abbrev pub proxy_rules : List Argv
proxy_rules =
    ("iptables" ∷ "-t" ∷ "nat" ∷ "-N" ∷ "PG_REDSOCKS" ∷ [])
    ∷ ("iptables" ∷ "-t" ∷ "nat" ∷ "-A" ∷ "PG_REDSOCKS" ∷ "-d" ∷ "127.0.0.0/8" ∷ "-j" ∷ "RETURN"
        ∷ [])
    ∷ ("iptables" ∷ "-t" ∷ "nat" ∷ "-A" ∷ "PG_REDSOCKS" ∷ "-p" ∷ "tcp" ∷ "-j" ∷ "REDIRECT"
        ∷ "--to-ports" ∷ "12345" ∷ [])
    ∷ ("iptables" ∷ "-t" ∷ "nat" ∷ "-A" ∷ "OUTPUT" ∷ "-p" ∷ "tcp" ∷ "-j" ∷ "PG_REDSOCKS" ∷ [])
    ∷ []

-- The arguments of `enable_proxy_kill_switch` that say which proxy.
pub record Proxy : Type 0 where
  pub host : String
  pub port : ℕ
  pub proxy_type : String
  pub username : Option String
  pub password : Option String

module _ (H : Host) where
  abbrev Act : Type 0 → Type 0
  Act A = Exec (World H) A

  unfoldable pub generate_redsocks_conf : Proxy → Call H (Unit {0})
  unfolding redsocks_text
  generate_redsocks_conf p =
      write_text H redsocks_conf (redsocks_text p.host p.port p.proxy_type p.username p.password)

  abbrev pub reached_or_raised : Option Bool → Call H Bool
  reached_or_raised none = raise Exn.bad_value
  reached_or_raised (some b) = pure b

  -- `_proxy_reachable`: an exception that is no OSError goes on to the caller
  unfoldable pub proxy_reachable : String → ℕ → Call H Bool
  proxy_reachable host port s =
      let (reached, s') = H.connects host port s in reached_or_raised reached s'

  -- systemd's redsocks, or a redsocks of its own where that fails
  unfoldable pub start_redsocks : Call H (Unit {0})
  start_redsocks = do
    started ← run H ("systemctl" ∷ "restart" ∷ "redsocks" ∷ [])
    if started.returncode == 0 then pure tt else popen H ("redsocks" ∷ "-c" ∷ redsocks_conf ∷ [])

  unfoldable pub apply_proxy_kill_switch : Environment → Proxy → Act Bool
  unfolding decimal
  apply_proxy_kill_switch env p = do
    applied ←
        on_sys H
          (apply_ruleset H env proxy_rules "pre-proxy-killswitch" ("Chain already exists" ∷ []))
    if not applied.0 then pure false else (do
      update H (
          ("proxy_only_kill_switch", flag true)
          ∷ ("nat_iptables_backup", stored_path applied.1.ipv4)
          ∷ ("ip6tables_backup", stored_path applied.1.ipv6)
          ∷ (
            "active_proxy",
            text (format (p.proxy_type ∷ "://" ∷ p.host ∷ ":" ∷ decimal p.port ∷ [])),
          )
          ∷ [])
      block_ipv6 H env
      pure true)

  -- The rest of `enable_proxy_kill_switch`, once the saved state allows it.
  unfoldable pub start_proxy_kill_switch : Environment → Proxy → Act Bool
  start_proxy_kill_switch env p = do
    on_sys H (generate_redsocks_conf p)
    on_sys H start_redsocks
    apply_proxy_kill_switch env p

  -- The tests of the saved state.
  unfoldable pub admit_proxy_kill_switch : Environment → Proxy → Bool → Act Bool
  admit_proxy_kill_switch env p force = do
    st ← load H
    if is_set st "proxy_only_kill_switch" && not force
        then pure true
        else if is_set st "tor_kill_switch"
        then pure false
        else start_proxy_kill_switch env p

  unfoldable pub enable_proxy_kill_switch : Environment → Proxy → Bool → Act Bool
  enable_proxy_kill_switch env p force =
      if env.termux
      then pure false
      else if not env.root || not env.has_iptables
      then pure false
      else do
        installed ← gets (λ w. H.which "redsocks" w.sys)
        if not installed then pure false else (do
          reached ← on_sys H (proxy_reachable p.host p.port)
          if not reached then pure false else admit_proxy_kill_switch env p force)

  -- The end of `disable_proxy_kill_switch`, from the state `st` that was loaded.
  unfoldable pub end_proxy_kill_switch : Environment → Dict → Act (Unit {0})
  end_proxy_kill_switch env st = do
    on_sys H (
        restore_rules H env (path_of (get st "nat_iptables_backup"))
          (path_of (get st "ip6tables_backup")))
    on_sys H (run H ("systemctl" ∷ "stop" ∷ "redsocks" ∷ []))
    update H (
        ("proxy_only_kill_switch", flag false)
        ∷ ("ipv6_blocked", flag false)
        ∷ ("nat_iptables_backup", null)
        ∷ ("ip6tables_backup", null)
        ∷ ("active_proxy", null)
        ∷ [])
    pure tt

  unfoldable pub disable_proxy_kill_switch : Environment → Act (Unit {0})
  disable_proxy_kill_switch env =
      if env.termux || not env.root || not env.has_iptables then pure tt else do
        st ← load H
        if not (is_set st "proxy_only_kill_switch") then pure tt else end_proxy_kill_switch env st
