-- ===== src/ProxyTor/Config.antt =====
-- The rotation of circuits, the bridges and the proxychains configuration of privacyguard/proxy_tor.py.
use privacy_toolkit.Prelude.{
  String, Bool, true, false, not, ◌||◌, Option, none, some, List, [], ◌∷◌, ◌++◌, str_eq, format,
  if◌then◌else◌,
}
use privacy_toolkit.Exec.{ok, pure, gets, catch_all, catch_if, is_permission_error, ◌>>=◌, ◌>>◌}
use privacy_toolkit.Host.{Host, Call, run, run_checked, read_text, write_text, make_dirs}
use privacy_toolkit.Text.{
  Chars, chars, of_chars, strip, strip_chars, starts_with, splitlines, join_lines,
}
use privacy_toolkit.Environment.{Environment}

-- `l.strip().startswith(("UseBridges", "Bridge "))`
unfoldable pub is_bridge_line : Chars → Bool
unfolding chars strip_chars starts_with
is_bridge_line line =
    let bare = strip_chars line in
    starts_with (chars "UseBridges") bare || starts_with (chars "Bridge ") bare

unfoldable pub other_lines : List Chars → List Chars
unfolding is_bridge_line
other_lines [] = []
other_lines (line ∷ lines) =
    let others = other_lines lines in if is_bridge_line line then others else line ∷ others

-- `f"Bridge {b.strip()}"` for each
unfoldable pub bridge_lines_of : List Chars → List Chars
unfolding chars strip_chars
bridge_lines_of [] = []
bridge_lines_of (b ∷ bs) = (chars "Bridge " ++ strip_chars b) ∷ bridge_lines_of bs

-- The lines that are written to torrc.
unfoldable pub with_bridges : List Chars → List Chars → List Chars
unfolding other_lines bridge_lines_of chars
with_bridges existing bridges =
    other_lines existing ++ (chars "UseBridges 1" ∷ bridge_lines_of bridges)

abbrev pub mode_line : String → String
mode_line mode =
    if str_eq mode "dynamic"
    then "dynamic_chain"
    else if str_eq mode "strict"
    then "strict_chain"
    else if str_eq mode "random"
    then "random_chain"
    else "dynamic_chain"

unfoldable pub stripped : List String → List String
unfolding strip
stripped [] = []
stripped (p ∷ ps) = strip p ∷ stripped ps

unfoldable pub proxychains_lines : List String → String → Bool → List String
unfolding stripped
proxychains_lines proxies mode include_tor =
    (mode_line mode
      ∷ "proxy_dns"
      ∷ "remote_dns_subnet 224"
      ∷ "tcp_read_time_out 15000"
      ∷ "tcp_connect_time_out 8000"
      ∷ "[ProxyList]"
      ∷ [])
    ++ ((if include_tor then "socks5 127.0.0.1 9050" ∷ [] else []) ++ stripped proxies)

-- `"\n".join(lines) + "\n"`, for one line or more
unfoldable pub with_newlines : List String → String
with_newlines [] = ""
with_newlines (l ∷ ls) = format (l ∷ "\n" ∷ with_newlines ls ∷ [])

abbrev all_chars : List String → List Chars
unfolding chars
all_chars [] = []
all_chars (s ∷ ss) = chars s ∷ all_chars ss

abbrev pub is_none_given : List String → Bool
is_none_given [] = true
is_none_given (_ ∷ _) = false

module _ (H : Host) where
  -- `if control_password`
  abbrev pub given : Option String → Option String
  given none = none
  given (some p) = if str_eq p "" then none else some p

  abbrev pub send_newnym : Option String → Call H Bool
  send_newnym password s = let (sent, s') = H.newnym (given password) s in (ok sent, s')

  unfoldable pub send_hup : Call H Bool
  send_hup =
      catch_all (do run_checked H ("pkill" ∷ "-HUP" ∷ "-x" ∷ "tor" ∷ []); pure true) (pure false)

  unfoldable pub rotate_tor_circuit : Environment → Option String → Call H Bool
  rotate_tor_circuit env control_password =
      if env.has_stem
      then (do sent ← send_newnym control_password; if sent then pure true else send_hup)
      else send_hup

  abbrev pub default_torrc_path : Environment → String
  default_torrc_path env =
      if env.termux then format (H.home ∷ "/../usr/etc/tor/torrc" ∷ []) else "/etc/tor/torrc"

  unfoldable pub read_existing : String → Call H String
  read_existing path = do here ← gets (H.exists path); if here then read_text H path else pure ""

  unfoldable pub write_bridges : String → List String → String → Call H (Unit {0})
  unfolding with_bridges splitlines join_lines chars of_chars
  write_bridges path bridges existing =
      catch_if is_permission_error
        (write_text H path (
          format (
            of_chars (join_lines (with_bridges (splitlines (chars existing)) (all_chars bridges)))
            ∷ "\n"
            ∷ [])))
        (pure tt)

  -- What `configure_bridges` reads first; `none` where it has no permission.
  abbrev pub existing_torrc : String → Call H (Option String)
  existing_torrc path =
      catch_if is_permission_error (do t ← read_existing path; pure (some t)) (pure none)

  -- `torrc_path or default_torrc_path(env)`
  abbrev pub path_or : String → Option String → String
  path_or default none = default
  path_or default (some p) = p

  unfoldable pub configure_bridges : Environment → List String → Option String → Call H (Unit {0})
  configure_bridges env bridges torrc_path = if is_none_given bridges then pure tt else do
    existing ← existing_torrc (path_or (default_torrc_path env) torrc_path)
    elim existing [
      | none ↦ pure tt
      | some t ↦ write_bridges (path_or (default_torrc_path env) torrc_path) bridges t
    ]

  unfoldable pub proxychains_conf_path : Environment → Call H String
  proxychains_conf_path env =
      if env.termux then pure (format (H.home ∷ "/.proxychains/proxychains.conf" ∷ [])) else do
        here ← gets (H.exists "/etc/proxychains.conf")
        pure (if here then "/etc/proxychains.conf" else "/etc/proxychains4.conf")

  abbrev pub conf_dir : Environment → String
  conf_dir env = if env.termux then format (H.home ∷ "/.proxychains" ∷ []) else "/etc"

  unfoldable pub generate_proxychains_conf :
      Environment → List String → String → Bool → Call H String
  unfolding proxychains_lines with_newlines
  generate_proxychains_conf env proxies chain_mode include_tor = do
    path ← proxychains_conf_path env
    make_dirs H (conf_dir env)
    write_text H path (with_newlines (proxychains_lines proxies chain_mode include_tor))
    pure path

  unfoldable pub test_proxychains : Environment → Call H (Unit {0})
  test_proxychains env = if not env.has_proxychains then pure tt else do
    four ← gets (H.which "proxychains4")
    conf ← proxychains_conf_path env
    here ← gets (H.exists conf)
    if not here
        then pure tt
        else catch_all
            (do
              run H (
                  (if four then "proxychains4" else "proxychains")
                  ∷ "-f"
                  ∷ conf
                  ∷ "curl"
                  ∷ "-s"
                  ∷ "https://api.ipify.org"
                  ∷ [])
              pure tt)
            (pure tt)
