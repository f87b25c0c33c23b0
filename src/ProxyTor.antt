-- ===== src/ProxyTor.antt =====
-- privacyguard/proxy_tor.py: starting and stopping Tor, and asking whether traffic leaves by it.
pub mod Frames
pub mod Config
use privacy_toolkit.Prelude.{
  ℕ, String, Bool, true, false, not, Option, none, some, [], ◌∷◌, if◌then◌else◌,
}
use privacy_toolkit.Exec.{Exec, ok, pure, gets, modify, catch_all, ◌>>=◌, ◌>>◌}
use privacy_toolkit.Host.{Host, TorAnswer, Call, run, popen}
use privacy_toolkit.State.{World, on_sys}
use privacy_toolkit.Environment.{Environment}
use privacy_toolkit.Text.{contains}

module _ (H : Host) where
  abbrev Act : Type 0 → Type 0
  Act A = Exec (World H) A

  -- The `try` block of `_resolve_tor_systemd_unit`.
  unfoldable pub find_tor_unit : Call H String
  find_tor_unit =
      catch_all
        (do
          result ← run H ("systemctl" ∷ "list-unit-files" ∷ "tor@default.service" ∷ [])
          pure (if contains "tor@default.service" result.stdout then "tor@default" else "tor"))
        (pure "tor")

  abbrev pub cached_or_found : Option String → Act String
  cached_or_found (some unit) = pure unit
  cached_or_found none = do
    unit ← on_sys H find_tor_unit
    modify (λ w. record w { tor_unit_cache = some unit })
    pure unit

  -- `_resolve_tor_systemd_unit`
  unfoldable pub resolve_tor_systemd_unit : Act String
  resolve_tor_systemd_unit = do cache ← gets (λ w. w.tor_unit_cache); cached_or_found cache

  unfoldable pub start_tor : Environment → Act Bool
  start_tor env =
      if not env.has_tor
      then pure false
      else catch_all
          (if env.termux then (do on_sys H (popen H ("tor" ∷ [])); pure true) else (do
            unit ← resolve_tor_systemd_unit
            on_sys H (run H ("systemctl" ∷ "start" ∷ unit ∷ []))
            on_sys H (run H ("service" ∷ "tor" ∷ "start" ∷ []))
            pure true))
          (pure false)

  unfoldable pub stop_tor : Environment → Act (Unit {0})
  stop_tor env =
      catch_all
        (if env.termux then (do on_sys H (run H ("pkill" ∷ "-x" ∷ "tor" ∷ [])); pure tt) else (do
          unit ← resolve_tor_systemd_unit
          on_sys H (run H ("systemctl" ∷ "stop" ∷ unit ∷ []))
          on_sys H (run H ("service" ∷ "tor" ∷ "stop" ∷ []))
          pure tt))
        (pure tt)

  abbrev answered : ℕ → Call H (Option TorAnswer)
  answered timeout s = let (answer, s') = H.ask_tor timeout s in (ok answer, s')

  -- `none` is the dict {'error': …}.
  unfoldable pub check_tor_active : ℕ → Call H (Option TorAnswer)
  check_tor_active timeout = do
    installed ← gets (H.has_module "socks")
    if not installed then pure none else answered timeout
