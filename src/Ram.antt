-- ===== src/Ram.antt =====
-- privacyguard/ram_wipe.py: closing applications, overwriting free memory, and the unit that does the
-- latter at shutdown.
use privacy_toolkit.Prelude.{
  String, Bool, not, ◌||◌, ◌==◌, List, [], ◌∷◌, ◌++◌, str_eq, format, if◌then◌else◌,
}
use privacy_toolkit.Exec.{pure, gets, catch_all, catch_if, is_process_error, ◌>>=◌, ◌>>◌}
use privacy_toolkit.Host.{Host, Call, run, run_checked, write_text, chmod, remove_file}
use privacy_toolkit.Environment.{Environment}
use privacy_toolkit.FirewallBackup.{Argv}

abbrev pub risky_apps : List String
risky_apps =
    "firefox" ∷ "firefox-esr" ∷ "chromium" ∷ "chromium-browser" ∷ "google-chrome" ∷ "thunderbird"
    ∷ "skype" ∷ "telegram-desktop" ∷ "discord" ∷ "signal-desktop" ∷ "slack" ∷ "zoom" ∷ []

abbrev pub script_path : String
script_path = "/usr/local/bin/privacyguard-ramwipe.sh"

abbrev pub unit_path : String
unit_path = "/etc/systemd/system/privacyguard-ramwipe.service"

abbrev pub unit_name : String
unit_name = "privacyguard-ramwipe.service"

abbrev pub is_fast : String → Bool
is_fast mode = str_eq mode "fast"

abbrev pub sdmem_command : String → Argv
sdmem_command mode =
    if is_fast mode then "sdmem" ∷ "-f" ∷ "-v" ∷ "-l" ∷ [] else "sdmem" ∷ "-f" ∷ "-v" ∷ []

-- The line of the script that wipes.
abbrev pub wipe_line : Bool → String → String
wipe_line has_sdmem mode =
    if has_sdmem
    then format ("sdmem -f -v" ∷ (if is_fast mode then " -l" else "") ∷ [])
    else "sync; echo 3 > /proc/sys/vm/drop_caches  # sdmem not installed — cache drop only, not a real wipe"

unfoldable pub script : Bool → String → String
script has_sdmem mode = format (
    "#!/bin/sh\n# Installed by PrivacyGuard — overwrites free RAM on shutdown.\n"
    ∷ wipe_line has_sdmem mode
    ∷ "\n"
    ∷ [])

unfoldable pub unit : String
unit = format (
    "[Unit]\nDescription=PrivacyGuard RAM wipe on shutdown\nDefaultDependencies=no\nBefore=shutdown.target reboot.target halt.target\n\n[Service]\nType=oneshot\nExecStart=/bin/true\nExecStop="
    ∷ script_path
    ∷ "\nRemainAfterExit=yes\nTimeoutStopSec=180\n\n[Install]\nWantedBy=shutdown.target reboot.target halt.target\n"
    ∷ [])

module _ (H : Host) where
  -- The applications that were killed, in order.
  unfoldable pub kill_apps : List String → Call H (List String)
  kill_apps [] = pure []
  kill_apps (app ∷ apps) = do
    result ← run H ("pkill" ∷ "-9" ∷ "-x" ∷ app ∷ [])
    killed ← kill_apps apps
    pure (if result.returncode == 0 then app ∷ killed else killed)

  unfoldable pub kill_risky_apps : Environment → List String → Call H (List String)
  kill_risky_apps env extra = kill_apps (risky_apps ++ extra)

  -- `subprocess.run("sync", shell=True)` is `/bin/sh -c sync`.
  unfoldable pub drop_caches : Call H (Unit {0})
  drop_caches =
      catch_all
        (do
          run_checked H ("/bin/sh" ∷ "-c" ∷ "sync" ∷ [])
          write_text H "/proc/sys/vm/drop_caches" "3")
        (pure tt)

  unfoldable pub wipe_free_ram : Environment → String → Call H (Unit {0})
  wipe_free_ram env mode =
      if env.termux
      then pure tt
      else if not env.root
      then pure tt
      else if env.has_sdmem
      then catch_if is_process_error (do run_checked H (sdmem_command mode); pure tt) (pure tt)
      else drop_caches

  -- What `install_shutdown_hook` does after its guards; 493 is 0o755.
  unfoldable pub write_hook : Bool → String → Call H (Unit {0})
  unfolding script unit
  write_hook has_sdmem mode = do
    write_text H script_path (script has_sdmem mode)
    chmod H script_path 493
    write_text H unit_path unit
    run H ("systemctl" ∷ "daemon-reload" ∷ [])
    run H ("systemctl" ∷ "enable" ∷ unit_name ∷ [])
    pure tt

  unfoldable pub install_shutdown_hook : Environment → String → Call H (Unit {0})
  install_shutdown_hook env mode =
      if env.termux || not env.root
      then pure tt
      else if not env.has_systemctl
      then pure tt
      else write_hook env.has_sdmem mode

  unfoldable pub remove_if_there : String → Call H (Unit {0})
  remove_if_there path = do
    here ← gets (H.exists path)
    if here then remove_file H path else pure tt

  unfoldable pub remove_shutdown_hook : Environment → Call H (Unit {0})
  remove_shutdown_hook env = if env.termux || not env.root then pure tt else do
    run H ("systemctl" ∷ "disable" ∷ unit_name ∷ [])
    remove_if_there unit_path
    remove_if_there script_path
    run H ("systemctl" ∷ "daemon-reload" ∷ [])
    pure tt
