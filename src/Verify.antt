-- ===== src/Verify.antt =====
-- privacyguard/verify.py: tests of what a switch promises, on the live machine. A report is its list
-- of checks, each with a name in place of its line on the terminal.
use privacy_toolkit.Prelude.{
  ℕ, zero, suc, String, Bool, true, false, not, ◌&&◌, ◌==◌, Option, none, some, List, [], ◌∷◌,
  str_eq, if◌then◌else◌,
}
use privacy_toolkit.Exec.{Exec, Exn, pure, catch_all, catch_if, ◌>>=◌, ◌>>◌}
use privacy_toolkit.Host.{Host, TorAnswer, Call, run, wait}
use privacy_toolkit.Text.{chars, of_chars, before_first, contains}
use privacy_toolkit.Environment.{Environment}
use privacy_toolkit.State.{World, on_sys, load, is_set}
use privacy_toolkit.ProxyTor.{check_tor_active}
use privacy_toolkit.Dns.{dns_leak_check}

abbrev pub Checks : Type 0
Checks = List (String × Bool)

-- `all(ok for _, ok in report["checks"])`
unfoldable pub passed : Checks → Bool
passed [] = true
passed ((_, ok) ∷ checks) = ok && passed checks

abbrev unanswered : Exn → Bool
unanswered Exn.timed_out = true
unanswered Exn.not_started = true
unanswered _ = false

-- `"error" not in tor_check and tor_check.get("IsTor")`
abbrev pub is_tor : Option TorAnswer → Bool
is_tor none = false
is_tor (some a) = a.is_tor

module _ (H : Host) where
  -- `_direct_traffic_blocked`
  unfoldable pub direct_traffic_blocked : Call H Bool
  direct_traffic_blocked =
      catch_if unanswered
        (do
          result ← run H ("ping" ∷ "-c" ∷ "1" ∷ "-W" ∷ "4" ∷ "1.1.1.1" ∷ [])
          pure (not (result.returncode == 0)))
        (pure true)

  -- The loop `for attempt in range(4)`, with the answer of the attempt before.
  unfoldable pub ask_tor_again : ℕ → Option TorAnswer → Call H (Option TorAnswer)
  ask_tor_again zero last = pure last
  ask_tor_again (suc attempts) last = do
    check ← check_tor_active H 10
    elim check [ none ↦ (do wait H 3; ask_tor_again attempts none) | some a ↦ pure (some a) ]

  -- `"LIKELY LEAKING" not in dns_report["leak_verdict"]`
  unfoldable pub dns_ok : Call H Bool
  unfolding contains
  dns_ok = do
    report ← dns_leak_check H true
    pure (not (contains "LIKELY LEAKING" report.leak_verdict))

  unfoldable pub verify_tor_kill_switch : Call H Checks
  verify_tor_kill_switch = do
    blocked ← direct_traffic_blocked
    tor ← ask_tor_again 4 none
    dns ← dns_ok
    pure (("blocked", blocked) ∷ ("tor", is_tor tor) ∷ ("dns", dns) ∷ [])

  abbrev is_some : Option String → Bool
  is_some none = false
  is_some (some _) = true

  abbrev asked_ip : Call H (Option String)
  asked_ip s = let (answer, s') = H.ask_ip 8 s in (pure answer) s'

  -- The parameter `proxy_host` is not used.
  unfoldable pub verify_proxy_kill_switch : Call H Checks
  verify_proxy_kill_switch = do
    blocked ← direct_traffic_blocked
    seen ← asked_ip
    dns ← dns_ok
    pure (("blocked", blocked) ∷ ("reachable", is_some seen) ∷ ("dns", dns) ∷ [])

  -- `"policy DROP" in out.stdout.split("\n")[0] if out.stdout else False`
  unfoldable pub policy_drop : String → Bool
  unfolding contains before_first chars of_chars
  policy_drop out =
      if str_eq out ""
      then false
      else contains "policy DROP" (of_chars (before_first ("\n" ∷ []) (chars out)))

  unfoldable pub verify_ipv6_blocked : Environment → Call H Checks
  verify_ipv6_blocked env =
      if not env.has_ip6tables
      then pure (("available", false) ∷ [])
      else catch_all
          (do
            out ← run H ("ip6tables" ∷ "-L" ∷ "OUTPUT" ∷ [])
            pure (("policy", policy_drop out.stdout) ∷ []))
          (pure (("policy", false) ∷ []))

  -- The reports of `verify_active`, each where it was made.
  pub record ActiveReport : Type 0 where
    pub kill_switch : Option Checks
    pub ipv6 : Option Checks

  abbrev verify_switch : Bool → Bool → Exec (World H) (Option Checks)
  verify_switch tor proxy =
      if tor
      then (do r ← on_sys H verify_tor_kill_switch; pure (some r))
      else if proxy
      then (do r ← on_sys H verify_proxy_kill_switch; pure (some r))
      else pure none

  unfoldable pub verify_active : Environment → Exec (World H) ActiveReport
  verify_active env = do
    st ← load H
    switch ← verify_switch (is_set st "tor_kill_switch") (is_set st "proxy_only_kill_switch")
    if is_set st "ipv6_blocked"
        then (do
          r ← on_sys H (verify_ipv6_blocked env)
          pure (record { kill_switch = switch; ipv6 = some r }))
        else pure (record { kill_switch = switch; ipv6 = none })
