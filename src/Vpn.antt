-- ===== src/Vpn.antt =====
-- privacyguard/vpn.py: OpenVPN and WireGuard. One key of the state file says which VPN is up.
pub mod Contract
use privacy_toolkit.Prelude.{
  ℕ, String, Bool, true, false, not, ◌||◌, ◌&&◌, Option, none, some, List, [], ◌∷◌, ◌++◌, str_eq,
  format, if◌then◌else◌,
}
use privacy_toolkit.Exec.{Exec, pure, gets, catch_all, catch_if, is_process_error, ◌>>=◌, ◌>>◌}
use privacy_toolkit.Host.{Host, Call, run, run_checked, read_text, remove_file, wait}
use privacy_toolkit.Text.{chars, starts_with, strip}
use privacy_toolkit.State.{Json, World, on_sys, load, update, text, null, get, is_set}
use privacy_toolkit.Environment.{Environment}
use privacy_toolkit.FirewallBackup.{Argv}

abbrev pub openvpn_pid_file : String
openvpn_pid_file = "/var/run/privacyguard-openvpn.pid"

-- `(value or "")` of a value that is a text or `None`
abbrev pub words_of : Json → String
words_of (text s) = s
words_of null = ""
words_of (Json.flag _) = ""
words_of (Json.object _) = ""

-- `s.startswith(p)`
unfoldable pub has_prefix : String → String → Bool
unfolding starts_with chars
has_prefix p s = starts_with (chars p) (chars s)

-- `if auth_file:`
abbrev pub auth_args : Option String → Argv
auth_args none = []
auth_args (some f) = if str_eq f "" then [] else "--auth-user-pass" ∷ f ∷ []

unfoldable pub openvpn_command : String → Option String → Argv
openvpn_command config auth =
    ("openvpn" ∷ "--config" ∷ config ∷ "--daemon" ∷ "privacyguard-openvpn" ∷ "--writepid"
      ∷ openvpn_pid_file ∷ [])
    ++ auth_args auth

module _ (H : Host) where
  abbrev Act : Type 0 → Type 0
  Act A = Exec (World H) A

  -- The program is run and the outcome recorded.
  unfoldable pub launch_openvpn : String → Option String → Act Bool
  launch_openvpn config auth =
      catch_if is_process_error
        (do
          on_sys H (run_checked H (openvpn_command config auth))
          on_sys H (wait H 3)
          here ← gets (λ w. H.exists openvpn_pid_file w.sys)
          if here
              then (do
                update H (("vpn_active", text (format ("openvpn:" ∷ config ∷ []))) ∷ [])
                pure true)
              else pure false)
        (pure false)

  unfoldable pub start_openvpn : Environment → String → Option String → Act Bool
  start_openvpn env config auth = if env.termux || not env.root then pure false else do
    installed ← gets (λ w. H.which "openvpn" w.sys)
    if not installed then pure false else (do
      here ← gets (λ w. H.exists config w.sys)
      if not here then pure false else (do
        st ← load H
        if is_set st "vpn_active" then pure false else launch_openvpn config auth))

  -- The daemon is stopped by its pid file, or by its name where there is none.
  unfoldable pub kill_openvpn : Call H (Unit {0})
  kill_openvpn = do
    here ← gets (H.exists openvpn_pid_file)
    if here
        then catch_all
            (do
              content ← read_text H openvpn_pid_file
              run H ("kill" ∷ strip content ∷ [])
              remove_file H openvpn_pid_file)
            (pure tt)
        else do run H ("pkill" ∷ "-x" ∷ "openvpn" ∷ []); pure tt

  -- `if (statemod.get("vpn_active") or "").startswith(prefix): update(vpn_active=None)`
  unfoldable pub forget_vpn : String → Act (Unit {0})
  unfolding has_prefix
  forget_vpn prefix = do
    st ← load H
    if has_prefix prefix (words_of (get st "vpn_active"))
        then (do update H (("vpn_active", null) ∷ []); pure tt)
        else pure tt

  unfoldable pub stop_openvpn : Environment → Act (Unit {0})
  stop_openvpn env =
      if env.termux || not env.root
      then pure tt
      else do on_sys H kill_openvpn; forget_vpn "openvpn:"

  unfoldable pub launch_wireguard : String → Act Bool
  launch_wireguard interface =
      catch_if is_process_error
        (do
          on_sys H (run_checked H ("wg-quick" ∷ "up" ∷ interface ∷ []))
          update H (("vpn_active", text (format ("wireguard:" ∷ interface ∷ []))) ∷ [])
          pure true)
        (pure false)

  unfoldable pub start_wireguard : Environment → String → Act Bool
  start_wireguard env interface = if env.termux || not env.root then pure false else do
    installed ← gets (λ w. H.which "wg-quick" w.sys)
    if not installed then pure false else (do
      st ← load H
      if is_set st "vpn_active" then pure false else launch_wireguard interface)

  -- `wg-quick down`, whose failure is only reported
  abbrev down_wireguard : String → Call H (Unit {0})
  down_wireguard interface =
      catch_if is_process_error (do run_checked H ("wg-quick" ∷ "down" ∷ interface ∷ []); pure tt)
        (pure tt)

  unfoldable pub stop_wireguard : Environment → String → Act (Unit {0})
  stop_wireguard env interface =
      if env.termux || not env.root
      then pure tt
      else do on_sys H (down_wireguard interface); forget_vpn "wireguard:"

  unfoldable pub vpn_status : Act String
  vpn_status = do
    st ← load H
    pure (if is_set st "vpn_active" then words_of (get st "vpn_active") else "none")
