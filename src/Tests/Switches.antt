-- ===== src/Tests/Switches.antt =====
-- The theorems on the kill switches, the state file and the firewall, at concrete inputs.
use privacy_toolkit.Prelude.{
  ◌≢◌, arith, eq_iff, ◌≡◌, refl, String, Bool, true, false, Option, some, none, List, [], ◌∷◌,
  str_eq,
}
use privacy_toolkit.Exec.Ends.{Ends}
use privacy_toolkit.State.{
  default_state, World, absent, saved, Json, flag, text, dict_of, load_unlocked,
}
use privacy_toolkit.State.Frames.{SameExcept, Switched}
use privacy_toolkit.Core.{enable_kill_switch, disable_kill_switch, apply_kill_switch}
use privacy_toolkit.Core.KillSwitch.Contract.{kill_switch_keys, enable_kill_switch-Switched}
use privacy_toolkit.Core.KillSwitch.Recovery.{
  Recoverable, Back, disable_kill_switch_restores, apply_kill_switch-Recoverable,
}
use privacy_toolkit.ProxyOnly.{Proxy, enable_proxy_kill_switch}
use privacy_toolkit.ProxyOnly.Contract.{proxy_keys, enable_proxy_kill_switch-Switched}
use privacy_toolkit.Gateway.{enable_gateway}
use privacy_toolkit.Gateway.Contract.{gateway_keys, enable_gateway-Switched}
use privacy_toolkit.Exclusion.{
  Op, enable_tor, enable_proxy, disable_tor, Exclusive, run_ops, kill_switches-Exclusive,
}
use privacy_toolkit.Exclusion.Typed.{run_ops-Typed}
use privacy_toolkit.State.Typed.{Typed}
use privacy_toolkit.Tests.Sim.{sim, sim_laws, kali, clean}

abbrev pub fresh : World sim
fresh = record { sys = clean; file = absent; tor_unit_cache = none }

abbrev if_path : Bool → Option String
if_path true = some "old"
if_path false = none

abbrev with_state : List (String × Json) → World sim
with_state d = record {
  sys = record { rules4 = "switch"; rules6 = ""; files = λ p. if_path (str_eq p "/b") };
  file = saved (dict_of d);
  tor_unit_cache = none;
}

abbrev pub tor_on : World sim
tor_on = with_state (("tor_kill_switch", flag true) ∷ ("iptables_backup", text "/b") ∷ [])

abbrev proxy_on : World sim
proxy_on = with_state (("proxy_only_kill_switch", flag true) ∷ [])

abbrev home_proxy : Proxy
home_proxy = record {
  host = "203.0.113.5";
  port = 1080;
  proxy_type = "socks5";
  username = none;
  password = none;
}

abbrev session : List Op
session =
    enable_tor kali false 45
    ∷ enable_proxy kali home_proxy true
    ∷ disable_tor kali
    ∷ enable_proxy kali home_proxy false
    ∷ enable_tor kali true 45
    ∷ []

run_ops-Typed_example : Typed (run_ops sim session fresh).file
run_ops-Typed_example = run_ops-Typed sim session fresh refl

kill_switches-Exclusive_example : Exclusive (run_ops sim session fresh).file
kill_switches-Exclusive_example = kill_switches-Exclusive sim session fresh refl

enable_kill_switch-Switched_example :
    Ends
      (λ b w'. Switched kill_switch_keys "tor_kill_switch" fresh.file b w'.file)
      (λ w'. SameExcept kill_switch_keys fresh.file w'.file)
      (enable_kill_switch sim kali false 45 fresh)
enable_kill_switch-Switched_example = enable_kill_switch-Switched sim kali false 45 fresh

enable_proxy_kill_switch-Switched_example :
    Ends
      (λ b w'. Switched proxy_keys "proxy_only_kill_switch" fresh.file b w'.file)
      (λ w'. SameExcept proxy_keys fresh.file w'.file)
      (enable_proxy_kill_switch sim kali home_proxy false fresh)
enable_proxy_kill_switch-Switched_example =
    enable_proxy_kill_switch-Switched sim kali home_proxy false fresh

enable_gateway-Switched_example :
    Ends
      (λ b w'. Switched gateway_keys "gateway_mode_active" fresh.file b w'.file)
      (λ w'. SameExcept gateway_keys fresh.file w'.file)
      (enable_gateway sim kali "eth1" "10.152.152.10" none false fresh)
enable_gateway-Switched_example =
    enable_gateway-Switched sim kali "eth1" "10.152.152.10" none false fresh

text_path : (p : String) → ◌≡◌ {A = Option Json} (some (text "/b")) (some (text p)) → "/b" ≡ p
text_path p e = cc

tor_on-Recoverable : Recoverable sim sim_laws "old" tor_on
unfolding load_unlocked default_state
tor_on-Recoverable p e = rw (← text_path p e) ((refl, refl), refl)

disable_kill_switch_restores_example :
    Ends
      (λ _. Back sim sim_laws "old" "/b")
      (Back sim sim_laws "old" "/b")
      (disable_kill_switch sim kali tor_on)
unfolding load_unlocked default_state
disable_kill_switch_restores_example =
    disable_kill_switch_restores sim sim_laws kali "old" "/b" tor_on refl refl refl refl refl
      tor_on-Recoverable

apply_kill_switch-Recoverable_example :
    Ends
      (λ b w'. b ≡ true → Recoverable sim sim_laws "custom" w')
      (λ _. Unit {0})
      (apply_kill_switch sim kali fresh)
apply_kill_switch-Recoverable_example =
    apply_kill_switch-Recoverable sim sim_laws kali fresh refl refl

abbrev two_rules : List (List String)
two_rules = ("iptables" ∷ "-F" ∷ []) ∷ ("iptables" ∷ "-P" ∷ "FORWARD" ∷ "DROP" ∷ []) ∷ []

not_stamp : ◌≢◌ {A = String} "tor_kill_switch" "last_updated"
not_stamp = ground (arith, eq_iff "tor_kill_switch" "last_updated")
