-- ===== src/Monitor.antt =====
-- privacyguard/monitor.py: the rounds of the leak monitor, and `get_public_ip` of privacyguard/core.py.
-- An alert is kept in a list in place of the call of `on_alert`, by what it is about.
pub mod Rounds
pub mod Thread
pub mod Loop
use privacy_toolkit.Prelude.{
  ℕ, String, Bool, true, false, not, ◌||◌, ◌&&◌, Option, none, some, List, [], ◌∷◌, str_eq,
  if◌then◌else◌,
}
use privacy_toolkit.Exec.{Exec, Res, ok, pure, gets, modify, catch_all, ◌>>=◌, ◌>>◌}
use privacy_toolkit.Host.{Host, TorAnswer, Call, wait}
use privacy_toolkit.Text.{contains, strip, chars, starts_with}
use privacy_toolkit.ProxyTor.{check_tor_active}
use privacy_toolkit.Dns.{DnsReport, dns_leak_check}

pub data Alert : Type 0 where
  ip_unknown : Alert
  not_tor : String → Alert
  dns_leak : String → Alert
  ip_changed : String → String → Alert
  check_failed : Alert

-- `self._baseline_ip`, the machine, and the alerts, the newest first.
pub record Monitor (H : Host) : Type 0 where
  pub sys : H.Sys
  pub baseline_ip : Option String
  pub alerts : List Alert

-- `ip.startswith("error")`
unfoldable pub is_error : String → Bool
unfolding starts_with chars
is_error ip = starts_with (chars "error") (chars ip)

module _ (H : Host) where
  abbrev pub Round : Type 0 → Type 0
  Round A = Exec (Monitor H) A

  -- A call of the machine.
  unfoldable pub at_sys : {A : Type 0} → Call H A → Round A
  at_sys m v = let (r, s) = m v.sys in (r, record v { sys = s })

  abbrev pub fetched : Option String → String
  unfolding strip
  fetched none = "error: "
  fetched (some body) = strip body

  -- `get_public_ip`; of the text of an exception only its beginning is kept.
  unfoldable pub get_public_ip : Call H String
  get_public_ip s = let (answer, s') = H.ask_ip 8 s in (ok (fetched answer), s')

  abbrev pub push : Alert → Monitor H → Monitor H
  push a v = record v { alerts = a ∷ v.alerts }

  abbrev pub alert : Alert → Round (Unit {0})
  alert a = modify (push a)

  abbrev pub denies_tor : Option TorAnswer → Bool
  denies_tor none = false
  denies_tor (some a) = not a.is_tor

  -- The part under `if self.expect_tunnel`.
  unfoldable pub check_tunnel : String → Round (Unit {0})
  unfolding contains
  check_tunnel ip = do
    tor ← at_sys (check_tor_active H 10)
    if denies_tor tor then alert (not_tor ip) else pure tt
    report ← at_sys (dns_leak_check H true)
    if contains "LIKELY LEAKING" report.leak_verdict
        then alert (dns_leak report.leak_verdict)
        else pure tt

  -- The end of `_check_once`.
  unfoldable pub compare_ip : String → String → Round (Unit {0})
  compare_ip ip baseline =
      if str_eq ip baseline
      then pure tt
      else (do alert (ip_changed baseline ip); modify (λ v. record v { baseline_ip = some ip }))

  -- What follows once the address is known, by the baseline of before.
  unfoldable pub check_ip : Bool → String → Option String → Round (Unit {0})
  check_ip expect_tunnel ip none = modify (λ v. record v { baseline_ip = some ip })
  check_ip expect_tunnel ip (some baseline) = do
    if expect_tunnel then check_tunnel ip else pure tt
    compare_ip ip baseline

  -- `_check_once`
  unfoldable pub check_once : Bool → Round (Unit {0})
  check_once expect_tunnel = do
    ip ← at_sys get_public_ip
    baseline ← gets (λ v. v.baseline_ip)
    if is_error ip then alert ip_unknown else check_ip expect_tunnel ip baseline

  -- The `try` block of `_loop`.
  unfoldable pub check_guarded : Bool → Round (Unit {0})
  check_guarded expect_tunnel = catch_all (check_once expect_tunnel) (alert check_failed)

  -- `_loop`, by what `is_set` answers at each of its tests; where the list ends, the loop is looked at
  -- no further.
  unfoldable pub loop : List Bool → Bool → ℕ → Round (Unit {0})
  loop [] expect_tunnel interval = pure tt
  loop (true ∷ tests) expect_tunnel interval = pure tt
  loop (false ∷ tests) expect_tunnel interval = do
    check_guarded expect_tunnel
    at_sys (wait H interval)
    loop tests expect_tunnel interval
