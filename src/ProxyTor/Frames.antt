-- ===== src/ProxyTor/Frames.antt =====
-- Starting and stopping Tor leaves the state file alone.
use privacy_toolkit.Prelude.{String, Option, none, some, refl}
use privacy_toolkit.Exec.{ok}
use privacy_toolkit.Exec.Ends.{Ends-pure}
use privacy_toolkit.Host.{Host}
use privacy_toolkit.State.Frames.{KeepsFile, file_rules}
use privacy_toolkit.Environment.{Environment}
use privacy_toolkit.ProxyTor.{resolve_tor_systemd_unit, cached_or_found, start_tor, stop_tor}

module _ (H : Host) where
  remember_unit :
      (unit : String)
      → KeepsFile H {A = Unit {0}} (λ w. (ok tt, record w { tor_unit_cache = some unit }))
  remember_unit unit = record { at = λ w. Ends-pure refl }

  cached_or_found-KeepsFile : (cache : Option String) → KeepsFile H (cached_or_found H cache)
  cached_or_found-KeepsFile none = search (file_rules, remember_unit)
  cached_or_found-KeepsFile (some unit) = search file_rules

  pub resolve_tor_systemd_unit-KeepsFile : KeepsFile H (resolve_tor_systemd_unit H)
  unfolding resolve_tor_systemd_unit
  resolve_tor_systemd_unit-KeepsFile = search (file_rules, cached_or_found-KeepsFile)

  pub start_tor-KeepsFile : (env : Environment) → KeepsFile H (start_tor H env)
  unfolding start_tor
  start_tor-KeepsFile env = search (file_rules, resolve_tor_systemd_unit-KeepsFile) depth 12

  pub stop_tor-KeepsFile : (env : Environment) → KeepsFile H (stop_tor H env)
  unfolding stop_tor
  stop_tor-KeepsFile env = search (file_rules, resolve_tor_systemd_unit-KeepsFile) depth 12
