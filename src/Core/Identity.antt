-- ===== src/Core/Identity.antt =====
-- The change of MAC address and host name of privacyguard/core.py, and `clean_traces`.
pub mod Addresses
pub mod Carrier
use privacy_toolkit.Prelude.{
  ℕ, zero, suc, ◌+◌, ◌/◌, ◌%◌, String, Bool, true, false, not, ◌||◌, ◌&&◌, ◌==◌, ltb, List, [], ◌∷◌,
  ◌++◌, str_eq, format, if◌then◌else◌,
}
use Prim.Native.Char.{Char}
use privacy_toolkit.Exec.{
  Exec, ok, pure, gets, modify, catch_all, catch_if, is_process_error, ◌>>=◌, ◌>>◌,
}
use privacy_toolkit.Host.{Host, Call, run, run_checked, read_text, write_text, draw}
use privacy_toolkit.Text.{Chars, chars, of_chars, strip, decimal, digit_of}
use privacy_toolkit.Environment.{Environment}
use privacy_toolkit.FirewallBackup.{Argv}

-- `f"{b:02x}"` of a byte
unfoldable pub hex : ℕ → String
unfolding chars of_chars
hex b =
    let digits = chars "0123456789abcdef" in
    of_chars (digit_of digits (b / 16) ∷ digit_of digits (b % 16) ∷ [])

-- `":".join(…)`
unfoldable pub join_colons : List String → String
join_colons [] = ""
join_colons (s ∷ []) = s
join_colons (s ∷ t ∷ rest) = format (s ∷ ":" ∷ join_colons (t ∷ rest) ∷ [])

unfoldable pub hexes : List ℕ → List String
unfolding hex
hexes [] = []
hexes (b ∷ bs) = hex b ∷ hexes bs

-- The element of a list that `random.choice` takes.
abbrev pub nth_or {ℓ} : {A : Type ℓ} → A → List A → ℕ → A
nth_or d [] n = d
nth_or d (x ∷ xs) zero = x
nth_or d (x ∷ xs) (suc n) = nth_or d xs n

-- the local, unicast first bytes
abbrev pub first_bytes : List ℕ
first_bytes = 2 ∷ 6 ∷ 10 ∷ 14 ∷ []

abbrev pub adjectives : List String
adjectives = "quiet" ∷ "amber" ∷ "lunar" ∷ "cobalt" ∷ "hidden" ∷ "swift" ∷ "gray" ∷ "silent" ∷ []

abbrev pub nouns : List String
nouns = "desk" ∷ "station" ∷ "node" ∷ "host" ∷ "unit" ∷ "box" ∷ "term" ∷ "relay" ∷ []

abbrev pub linux_targets : List String
linux_targets =
    "/.bash_history" ∷ "/.zsh_history" ∷ "/.python_history" ∷ "/.wget-hsts" ∷ "/.lesshst" ∷ []

abbrev pub termux_targets : List String
termux_targets = "/.bash_history" ∷ "/.python_history" ∷ []

abbrev pub log_files : List String
log_files = "/var/log/auth.log" ∷ "/var/log/syslog" ∷ "/var/log/kern.log" ∷ []

abbrev pub set_mac : Bool → String → String → Argv
set_mac has_macchanger iface mac =
    if has_macchanger
    then "macchanger" ∷ "-m" ∷ mac ∷ iface ∷ []
    else "ip" ∷ "link" ∷ "set" ∷ "dev" ∷ iface ∷ "address" ∷ mac ∷ []

module _ (H : Host) where
  unfoldable pub draws : ℕ → Call H (List ℕ)
  draws zero = pure []
  draws (suc n) = do b ← draw H 255; bs ← draws n; pure (b ∷ bs)

  -- The bytes of `random_mac`.
  unfoldable pub random_mac_bytes : Call H (List ℕ)
  unfolding draws
  random_mac_bytes = do k ← draw H 3; rest ← draws 5; pure (nth_or 2 first_bytes k ∷ rest)

  unfoldable pub random_mac : Call H String
  unfolding join_colons hexes
  random_mac = do bytes ← random_mac_bytes; pure (join_colons (hexes bytes))

  abbrev pub carrier_path : String → String
  carrier_path iface = format ("/sys/class/net/" ∷ iface ∷ "/carrier" ∷ [])

  -- The `try` block in the loop of `_wait_for_carrier`.
  unfoldable pub has_carrier : String → Call H Bool
  unfolding strip
  has_carrier iface =
      catch_all (do content ← read_text H (carrier_path iface); pure (str_eq (strip content) "1"))
        (pure false)

  -- The `while time.time() < deadline` loop, on fuel.
  unfoldable pub poll_carrier : ℕ → String → ℕ → Call H Bool
  poll_carrier zero iface deadline = pure false
  poll_carrier (suc fuel) iface deadline = do
    now ← gets H.clock
    if not (ltb now deadline) then pure false else (do
      up ← has_carrier iface
      if up then pure true else (do modify (H.pause 300); poll_carrier fuel iface deadline))

  -- `_wait_for_carrier`, within `timeout` milliseconds; each round waits for 300.
  unfoldable pub wait_for_carrier : String → ℕ → Call H Bool
  wait_for_carrier iface timeout = do
    now ← gets H.clock
    poll_carrier (suc (timeout / 300)) iface (now + timeout)

  -- The `try` block of `randomize_mac`, which answers whether the address was set.
  unfoldable pub change_mac : Bool → String → String → Call H Bool
  change_mac has_macchanger iface mac =
      catch_if is_process_error
        (do
          run_checked H ("ip" ∷ "link" ∷ "set" ∷ "dev" ∷ iface ∷ "down" ∷ [])
          run_checked H (set_mac has_macchanger iface mac)
          run_checked H ("ip" ∷ "link" ∷ "set" ∷ "dev" ∷ iface ∷ "up" ∷ [])
          pure true)
        (pure false)

  -- The end of `randomize_mac`: a lease for the new address.
  unfoldable pub renew_lease : String → Call H (Unit {0})
  renew_lease iface = do
    nmcli ← gets (H.which "nmcli")
    if not nmcli then pure tt else (do
      up ← wait_for_carrier iface 5000
      if not up then pure tt else do run H ("nmcli" ∷ "device" ∷ "connect" ∷ iface ∷ []); pure tt)

  unfoldable pub randomize_mac : Environment → String → Bool → Call H (Unit {0})
  randomize_mac env iface renew_dhcp =
      if env.termux then pure tt else if not env.root then pure tt else do
        mac ← random_mac
        changed ← change_mac env.has_macchanger iface mac
        if not changed || not renew_dhcp then pure tt else renew_lease iface

  unfoldable pub random_hostname : Call H String
  unfolding decimal
  random_hostname = do
    a ← draw H 7
    n ← draw H 7
    k ← draw H 899
    pure (format (nth_or "" adjectives a ∷ "-" ∷ nth_or "" nouns n ∷ "-" ∷ decimal (100 + k) ∷ []))

  unfoldable pub randomize_hostname : Environment → Call H (Unit {0})
  randomize_hostname env = if env.termux then pure tt else if not env.root then pure tt else do
    host ← random_hostname
    catch_if is_process_error
        (do run_checked H ("hostnamectl" ∷ "set-hostname" ∷ host ∷ []); pure tt)
        (catch_if is_process_error (do run_checked H ("hostname" ∷ host ∷ []); pure tt) (pure tt))

  -- One history file: it is emptied where it is there.
  unfoldable pub clear_file : String → Call H (Unit {0})
  clear_file path = do
    here ← gets (H.exists path)
    if here then catch_all (write_text H path "") (pure tt) else pure tt

  unfoldable pub clear_files : List String → Call H (Unit {0})
  clear_files [] = pure tt
  clear_files (t ∷ targets) = do clear_file (format (H.home ∷ t ∷ [])); clear_files targets

  unfoldable pub truncate_logs : List String → Call H (Unit {0})
  truncate_logs [] = pure tt
  truncate_logs (log ∷ logs) = do
    here ← gets (H.exists log)
    if here
        then catch_all (do run_checked H ("truncate" ∷ "-s" ∷ "0" ∷ log ∷ []); pure tt) (pure tt)
        else pure tt
    truncate_logs logs

  unfoldable pub clean_traces : Environment → Bool → Call H (Unit {0})
  clean_traces env wipe_logs = do
    clear_files (if env.termux then termux_targets else linux_targets)
    if wipe_logs && not env.termux && env.root then truncate_logs log_files else pure tt
