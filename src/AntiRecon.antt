-- ===== src/AntiRecon.antt =====
-- privacyguard/anti_recon.py: the sysctls that hide the machine, with their values from before, and
-- the port-scan rules. The live detectors are in Detector.
pub mod Detector
pub mod Contract
use privacy_toolkit.Prelude.{
  ℕ, zero, suc, String, Bool, true, false, not, ◌||◌, ◌&&◌, ◌==◌, Option, none, some, List, [], ◌∷◌,
  str_eq, format, if◌then◌else◌,
}
use privacy_toolkit.Exec.{
  Exec, pure, raise, key_missing, catch_all, catch_if, is_process_error, ◌>>=◌, ◌>>◌,
}
use privacy_toolkit.Host.{Host, Call, run, run_checked}
use privacy_toolkit.Text.{decimal, strip, contains}
use privacy_toolkit.State.{
  Dict, Scalar, nothing, number, words, Json, World, on_sys, load, update, null, flag, text, object,
  get, is_set,
}
use privacy_toolkit.Environment.{Environment}
use privacy_toolkit.FirewallBackup.{Argv}

abbrev pub Fields : Type 0
Fields = List (String × Scalar)

abbrev pub stealth_sysctls : List (String × String)
stealth_sysctls =
    ("net.ipv4.icmp_echo_ignore_all", "1")
    ∷ ("net.ipv4.tcp_timestamps", "0")
    ∷ ("net.ipv4.conf.all.log_martians", "1")
    ∷ ("net.ipv4.conf.all.rp_filter", "1")
    ∷ ("net.ipv4.icmp_ignore_bogus_error_responses", "1")
    ∷ []

-- `value or default` of a value that is a dict or `None`
abbrev pub fields_or : Fields → Json → Fields
fields_or default null = default
fields_or default (flag b) = default
fields_or default (text s) = default
fields_or default (object []) = default
fields_or default (object (f ∷ fields)) = f ∷ fields

-- `str(v)`
abbrev pub shown : Scalar → String
unfolding decimal
shown nothing = "None"
shown (number n) = decimal n
shown (words s) = s

abbrev pub field : String → Fields → Option Scalar
field k [] = none
field k ((j, v) ∷ rest) = if str_eq j k then some v else field k rest

-- The two rules of INPUT, after `-I` or `-A` and after `-D`.
abbrev pub update_rule : String → String → String → Argv
update_rule option seconds hitcount =
    "iptables" ∷ option ∷ "INPUT" ∷ "!" ∷ "-i" ∷ "lo" ∷ "-p" ∷ "tcp" ∷ "--syn" ∷ "-m" ∷ "recent"
    ∷ "--name" ∷ "pg_scan" ∷ "--update" ∷ "--seconds" ∷ seconds ∷ "--hitcount" ∷ hitcount ∷ "-j"
    ∷ "PG_PORTSCAN" ∷ []

abbrev pub set_rule : String → Argv
set_rule option =
    "iptables" ∷ option ∷ "INPUT" ∷ "!" ∷ "-i" ∷ "lo" ∷ "-p" ∷ "tcp" ∷ "--syn" ∷ "-m" ∷ "recent"
    ∷ "--name" ∷ "pg_scan" ∷ "--set" ∷ "-j" ∷ "ACCEPT" ∷ []

abbrev pub portscan_rules : ℕ → ℕ → List Argv
unfolding decimal
portscan_rules hitcount seconds =
    ("iptables" ∷ "-N" ∷ "PG_PORTSCAN" ∷ [])
    ∷ ("iptables" ∷ "-F" ∷ "PG_PORTSCAN" ∷ [])
    ∷ ("iptables" ∷ "-A" ∷ "PG_PORTSCAN" ∷ "-m" ∷ "recent" ∷ "--name" ∷ "pg_scan" ∷ "--set" ∷ "-j"
        ∷ "LOG" ∷ "--log-prefix" ∷ "PrivacyGuard-SCAN-BLOCK: " ∷ [])
    ∷ ("iptables" ∷ "-A" ∷ "PG_PORTSCAN" ∷ "-j" ∷ "DROP" ∷ [])
    ∷ update_rule "-I" (decimal seconds) (decimal hitcount)
    ∷ set_rule "-A"
    ∷ []

abbrev pub default_params : Fields
default_params = ("hitcount", number 15) ∷ ("seconds", number 60) ∷ []

module _ (H : Host) where
  abbrev Act : Type 0 → Type 0
  Act A = Exec (World H) A

  -- `_read_sysctl`
  unfoldable pub read_sysctl : String → Call H Scalar
  read_sysctl key =
      catch_all
        (do out ← run_checked H ("sysctl" ∷ "-n" ∷ key ∷ []); pure (words (strip out.stdout)))
        (pure nothing)

  -- `{key: _read_sysctl(key) for key in STEALTH_SYSCTLS}`
  unfoldable pub read_sysctls : List (String × String) → Call H Fields
  read_sysctls [] = pure []
  read_sysctls ((key, _) ∷ rest) = do
    v ← read_sysctl key
    fields ← read_sysctls rest
    pure ((key, v) ∷ fields)

  abbrev pub write_sysctl : String → String → Argv
  write_sysctl key val = "sysctl" ∷ "-w" ∷ format (key ∷ "=" ∷ val ∷ []) ∷ []

  -- The loop that sets them: a key that fails is passed over.
  unfoldable pub write_sysctls : List (String × String) → Bool → Call H Bool
  write_sysctls [] all_ok = pure all_ok
  write_sysctls ((key, val) ∷ rest) all_ok = do
    ok ←
        catch_if is_process_error (do run_checked H (write_sysctl key val); pure all_ok)
          (pure false)
    write_sysctls rest ok

  abbrev lacks_sysctl : Environment → Bool
  lacks_sysctl env = env.termux || not env.root || not env.has_sysctl

  -- The part of `enable_stealth_sysctls` after its guards.
  unfoldable pub apply_stealth_sysctls : Act Bool
  apply_stealth_sysctls = do
    previous ← on_sys H (read_sysctls stealth_sysctls)
    all_ok ← on_sys H (write_sysctls stealth_sysctls true)
    update H (("stealth_sysctls", flag true) ∷ ("stealth_sysctls_backup", object previous) ∷ [])
    pure all_ok

  unfoldable pub enable_stealth_sysctls : Environment → Act Bool
  enable_stealth_sysctls env =
      if lacks_sysctl env
      then pure false
      else do st ← load H; if is_set st "stealth_sysctls" then pure true else apply_stealth_sysctls

  unfoldable pub restore_sysctls : Fields → Call H (Unit {0})
  restore_sysctls [] = pure tt
  restore_sysctls ((key, nothing) ∷ rest) = restore_sysctls rest
  restore_sysctls ((key, number n) ∷ rest) = do
    run H (write_sysctl key (shown (number n)))
    restore_sysctls rest
  restore_sysctls ((key, words s) ∷ rest) = do run H (write_sysctl key s); restore_sysctls rest

  -- The part of `disable_stealth_sysctls` after its guards, from the state `st` that is loaded.
  unfoldable pub revert_stealth_sysctls : Dict → Act (Unit {0})
  revert_stealth_sysctls st = do
    on_sys H (restore_sysctls (fields_or [] (get st "stealth_sysctls_backup")))
    update H (("stealth_sysctls", flag false) ∷ ("stealth_sysctls_backup", null) ∷ [])
    pure tt

  unfoldable pub disable_stealth_sysctls : Environment → Act (Unit {0})
  disable_stealth_sysctls env = if lacks_sysctl env then pure tt else do
    st ← load H
    if not (is_set st "stealth_sysctls")
        then pure tt
        else (do again ← load H; revert_stealth_sysctls again)

  -- The loop over the port-scan rules: a chain that is there already is no failure.
  unfoldable pub run_portscan_rules : List Argv → Bool → Call H Bool
  run_portscan_rules [] ok = pure ok
  run_portscan_rules (rule ∷ rules) ok = do
    r ← run H rule
    run_portscan_rules rules (ok && (r.returncode == 0 || contains "Chain already exists" r.stderr))

  -- The part of `enable_portscan_protection` after its guards.
  unfoldable pub apply_portscan_protection : ℕ → ℕ → Act Bool
  apply_portscan_protection hitcount seconds = do
    ok ← on_sys H (run_portscan_rules (portscan_rules hitcount seconds) true)
    if ok
        then (do
          update H (
              ("portscan_protection", flag true)
              ∷ (
                "portscan_params",
                object (("hitcount", number hitcount) ∷ ("seconds", number seconds) ∷ []),
              )
              ∷ [])
          pure true)
        else pure false

  unfoldable pub enable_portscan_protection : Environment → ℕ → ℕ → Bool → Act Bool
  enable_portscan_protection env hitcount seconds force =
      if env.termux
      then pure false
      else if not env.root || not env.has_iptables
      then pure false
      else do
        st ← load H
        if is_set st "portscan_protection" && not force
            then pure true
            else apply_portscan_protection hitcount seconds

  -- `str(params[key])`
  abbrev pub param : String → Fields → Call H String
  param k fields = elim (field k fields) [ none ↦ raise key_missing | some v ↦ pure (shown v) ]

  unfoldable pub remove_portscan_rules : Fields → Call H (Unit {0})
  remove_portscan_rules params = do
    seconds ← param "seconds" params
    hitcount ← param "hitcount" params
    run H (update_rule "-D" seconds hitcount)
    run H (set_rule "-D")
    run H ("iptables" ∷ "-F" ∷ "PG_PORTSCAN" ∷ [])
    run H ("iptables" ∷ "-X" ∷ "PG_PORTSCAN" ∷ [])
    pure tt

  -- The part of `disable_portscan_protection` after its guards, from the state `st` that is loaded.
  unfoldable pub revert_portscan_protection : Dict → Act (Unit {0})
  revert_portscan_protection st = do
    on_sys H (remove_portscan_rules (fields_or default_params (get st "portscan_params")))
    update H (("portscan_protection", flag false) ∷ ("portscan_params", null) ∷ [])
    pure tt

  unfoldable pub disable_portscan_protection : Environment → Act (Unit {0})
  disable_portscan_protection env =
      if env.termux || not env.root || not env.has_iptables then pure tt else do
        st ← load H
        if not (is_set st "portscan_protection")
            then pure tt
            else (do again ← load H; revert_portscan_protection again)
