-- ===== src/FirewallBackup.antt =====
-- privacyguard/firewall_backup.py: the rule set is saved before a kill switch changes it, and put
-- back when one of the switch's rules fails. Messages on the terminal are not modelled.
pub mod Laws
pub mod Paths
pub mod Tools
pub mod Restore
pub mod Backup
pub mod Rollback
use privacy_toolkit.Prelude.{
  String, Bool, true, false, not, ◌&&◌, ◌||◌, Option, none, some, List, [], ◌∷◌, ◌==◌, str_eq,
  format, if◌then◌else◌,
}
use privacy_toolkit.Exec.{pure, gets, catch_all, ◌>>=◌, ◌>>◌}
use privacy_toolkit.Host.{
  Host, Call, Finished, run, run_checked, run_checked_with, read_text, write_text, make_dirs,
}
use privacy_toolkit.Environment.{Environment}
use privacy_toolkit.Text.{strip, contains}

abbrev pub Argv : Type 0
Argv = List String

-- The dict {'ipv4': …, 'ipv6': …} of `backup_rules`: the path of each backup, or `None`.
pub record Backups : Type 0 where
  pub ipv4 : Option String
  pub ipv6 : Option String

abbrev pub no_backups : Backups
no_backups = record { ipv4 = none; ipv6 = none }

-- `marker in stderr` for one of the markers
unfoldable pub tolerated : List String → String → Bool
unfolding contains
tolerated [] stderr = false
tolerated (marker ∷ rest) stderr = contains marker stderr || tolerated rest stderr

-- The commands of `_open_default_v4` and `_open_default_v6`, in order.
abbrev pub open_commands4 : List Argv
open_commands4 =
    ("iptables" ∷ "-F" ∷ [])
    ∷ ("iptables" ∷ "-t" ∷ "nat" ∷ "-F" ∷ [])
    ∷ ("iptables" ∷ "-P" ∷ "INPUT" ∷ "ACCEPT" ∷ [])
    ∷ ("iptables" ∷ "-P" ∷ "OUTPUT" ∷ "ACCEPT" ∷ [])
    ∷ ("iptables" ∷ "-P" ∷ "FORWARD" ∷ "ACCEPT" ∷ [])
    ∷ []

abbrev pub open_commands6 : List Argv
open_commands6 =
    ("ip6tables" ∷ "-F" ∷ [])
    ∷ ("ip6tables" ∷ "-P" ∷ "INPUT" ∷ "ACCEPT" ∷ [])
    ∷ ("ip6tables" ∷ "-P" ∷ "OUTPUT" ∷ "ACCEPT" ∷ [])
    ∷ ("ip6tables" ∷ "-P" ∷ "FORWARD" ∷ "ACCEPT" ∷ [])
    ∷ []

module _ (H : Host) where
  -- `BACKUP_DIR / f"iptables-{label}-{ts}.rules"`
  abbrev pub backup_path4 : String → String → String
  backup_path4 label ts =
      format (H.home ∷ "/.privacyguard_backups/ip" ∷ "tables-" ∷ label ∷ "-" ∷ ts ∷ ".rules" ∷ [])

  abbrev pub backup_path6 : String → String → String
  backup_path6 label ts =
      format (H.home ∷ "/.privacyguard_backups/ip" ∷ "6tables-" ∷ label ∷ "-" ∷ ts ∷ ".rules" ∷ [])

  -- One of the two `try` blocks of `backup_rules`.
  unfoldable pub backup_family : String → String → Call H (Option String)
  backup_family program path =
      catch_all
        (do out ← run_checked H (program ∷ []); write_text H path out.stdout; pure (some path))
        (pure none)

  unfoldable pub backup_rules : Environment → String → Call H Backups
  backup_rules env label = if env.termux || not env.root then pure no_backups else do
    make_dirs H (format (H.home ∷ "/.privacyguard_backups" ∷ []))
    ts ← gets (H.stamp "%Y%m%d-%H%M%S")
    ipv4 ←
        if env.has_iptables
        then backup_family "iptables-save" (backup_path4 label ts)
        else pure none
    ipv6 ←
        if env.has_ip6tables
        then backup_family "ip6tables-save" (backup_path6 label ts)
        else pure none
    pure (record { ipv4 = ipv4; ipv6 = ipv6 })

  -- Commands in a row, each with no `check`.
  unfoldable pub run_each : List Argv → Call H (Unit {0})
  run_each [] = pure tt
  run_each (argv ∷ rest) = do run H argv; run_each rest

  unfoldable pub open_default_v4 : Call H (Unit {0})
  open_default_v4 = run_each open_commands4

  unfoldable pub open_default_v6 : Environment → Call H (Unit {0})
  open_default_v6 env = if not env.has_ip6tables then pure tt else run_each open_commands6

  -- `path and Path(path).exists()`
  unfoldable pub on_record : Option String → H.Sys → Bool
  on_record none s = false
  on_record (some path) s = not (str_eq path "") && H.exists path s

  abbrev path_or_empty : Option String → String
  path_or_empty none = ""
  path_or_empty (some path) = path

  -- The `try` block that feeds a backup to `iptables-restore` or `ip6tables-restore`.
  unfoldable pub restore_family : String → String → Call H (Unit {0}) → Call H (Unit {0})
  restore_family program path fallback =
      catch_all (do text ← read_text H path; run_checked_with H (program ∷ []) text; pure tt)
        fallback

  unfoldable pub restore_v4 : Option String → Call H (Unit {0})
  unfolding on_record
  restore_v4 path = do
    here ← gets (on_record path)
    if here
        then restore_family "iptables-restore" (path_or_empty path) open_default_v4
        else open_default_v4

  unfoldable pub restore_v6 : Environment → Option String → Call H (Unit {0})
  unfolding on_record
  restore_v6 env path = do
    here ← gets (on_record path)
    if here
        then restore_family "ip6tables-restore" (path_or_empty path) (open_default_v6 env)
        else if env.has_ip6tables
        then open_default_v6 env
        else pure tt

  unfoldable pub restore_rules : Environment → Option String → Option String → Call H (Unit {0})
  restore_rules env ipv4 ipv6 =
      if env.termux || not env.root then pure tt else do restore_v4 ipv4; restore_v6 env ipv6

  -- The loop of `apply_ruleset`: every rule is tried, and `ok` tells whether all were accepted.
  unfoldable pub apply_rules : List Argv → List String → Bool → Call H Bool
  unfolding tolerated
  apply_rules [] tolerate ok = pure ok
  apply_rules (rule ∷ rules) tolerate ok = do
    result ← run H rule
    apply_rules rules tolerate
        (ok && (result.returncode == 0 || tolerated tolerate (strip result.stderr)))

  unfoldable pub apply_ruleset :
      Environment → List Argv → String → List String → Call H (Bool × Backups)
  apply_ruleset env rules label tolerate = do
    backups ← backup_rules env label
    ok ← apply_rules rules tolerate true
    if ok
        then pure (true, backups)
        else do restore_rules env backups.ipv4 backups.ipv6; pure (false, backups)
