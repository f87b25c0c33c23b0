-- ===== src/Tests/Filtering.antt =====
-- The theorems on the packet filter, on a machine that keeps the tables themselves.
use privacy_toolkit.Prelude.{
  ◌≡◌, refl, ap, String, Bool, true, false, none, some, [], ◌∷◌, str_eq, eq_iff, Bool-cases, inl,
  inr, if◌then◌else◌,
}
use privacy_toolkit.Exec.Ends.{Ends}
use privacy_toolkit.Host.{Host, exited, done}
use privacy_toolkit.State.{World, absent, saved, flag, dict_of, load_unlocked, default_state}
use privacy_toolkit.State.Frames.{is_on}
use privacy_toolkit.Exclusion.OverGateway.{enable_kill_switch_over_gateway}
use privacy_toolkit.ProxyOnly.{Proxy, enable_proxy_kill_switch}
use privacy_toolkit.ProxyOnly.Starts.{Proxied}
use privacy_toolkit.Gui.Race.{interrupted, enable_kill_switch_races}
use privacy_toolkit.FirewallBackup.{Argv}
use privacy_toolkit.FirewallBackup.Laws.{is_tool6}
use privacy_toolkit.Core.{enable_kill_switch}
use privacy_toolkit.Core.KillSwitch.Starts.{Healthy, enable_kill_switch_starts}
use privacy_toolkit.Gateway.{enable_gateway}
use privacy_toolkit.Filter.{Tables, edit_of, edited_if, FilterLaws, Packets}
use privacy_toolkit.Filter.Verdicts.{FailClosed, Redirected, NeverForwards}
use privacy_toolkit.Filter.FailClosed.{enable_kill_switch-FailClosed, enable_gateway-NeverForwards}
use privacy_toolkit.Tests.Blank.{blank}
use privacy_toolkit.Tests.Sim.{kali}

-- Every command is accepted, and Tor is reachable.
abbrev router : Host
router = record (blank Tables) {
  exec = λ argv _ t. (exited 0 "" "", edited_if (edit_of argv) t);
  ask_tor = λ _ t. (some (record { is_tor = true; ip = "192.0.2.1" }), t);
}

other_program : (p : String) → is_tool6 (p ∷ []) ≡ true → str_eq p "iptables" ≡ false
other_program p six = elim (Bool-cases (str_eq p "iptables")) [
  | inl e ↦ (let same = ap (λ q. is_tool6 (q ∷ [])) ((eq_iff p "iptables").0 e) in cc)
  | inr e ↦ e
]

unread : (p : String) (args : Argv) → str_eq p "iptables" ≡ false → edit_of (p ∷ args) ≡ none
unread p args h = rw h refl

kept : (argv : Argv) (t : Tables) → is_tool6 argv ≡ true → edited_if (edit_of argv) t ≡ t
kept [] t six = refl
kept (p ∷ args) t six = ap (λ o. edited_if o t) (unread p args (other_program p six))

abbrev router_laws : FilterLaws router
router_laws = record {
  tables = λ t. t;
  accepted = λ argv e t reads ran. ap (λ o. edited_if o t) reads;
  frame6 = λ argv _ t six. kept argv t six;
}

-- A packet by its interface and its protocol.
record Datagram : Type 0 where
  out : String
  protocol : String

abbrev fits_words : Argv → Datagram → Bool
fits_words [] p = true
fits_words (w ∷ []) p = false
fits_words (w ∷ x ∷ _) p =
    if str_eq w "-o" then str_eq x p.out else if str_eq w "-p" then str_eq x p.protocol else false

abbrev datagrams : Packets
datagrams = record { Packet = Datagram; fits = fits_words; fits_all = λ _. refl }

-- Every chain is empty, and every policy lets everything through.
abbrev open_tables : Tables
open_tables = record { rules = λ _ _. []; policy = λ _ _. "ACCEPT" ∷ [] }

abbrev open_world : World router
open_world = record { sys = open_tables; file = absent; tor_unit_cache = none }

enable_kill_switch-FailClosed_example :
    Ends
      (λ b w'. b ≡ true → FailClosed datagrams w'.sys × Redirected datagrams w'.sys)
      (λ _. Unit {0})
      (enable_kill_switch router kali false 45 open_world)
unfolding load_unlocked default_state
enable_kill_switch-FailClosed_example =
    enable_kill_switch-FailClosed router router_laws datagrams kali false 45 open_world refl

enable_gateway-NeverForwards_example :
    Ends
      (λ b w'. b ≡ true → NeverForwards datagrams w'.sys × FailClosed datagrams w'.sys)
      (λ _. Unit {0})
      (enable_gateway router kali "eth1" "10.152.152.10" none false open_world)
unfolding load_unlocked default_state
enable_gateway-NeverForwards_example =
    enable_gateway-NeverForwards router router_laws datagrams kali "eth1" "10.152.152.10" none false
      open_world refl

-- The same machine with a disk that reads.
abbrev reader : Host
reader = record router {
  read = λ _ _. done "";
  which = λ _ _. true;
  connects = λ _ _ t. (some true, t);
}

abbrev reader-Healthy : Healthy reader
reader-Healthy = record {
  succeeds = λ argv _ t. ("", "", refl);
  readable = λ path t. ("", refl);
  writable = λ path text t. refl;
  storable = λ t. refl;
  mkdir_done = λ path t. refl;
  has_socks = λ t. refl;
  reachable = λ n t. (record { is_tor = true; ip = "192.0.2.1" }, refl);
}

enable_kill_switch_starts_example :
    Ends
      (λ b _. b ≡ true)
      (λ _. ⊥)
      (enable_kill_switch reader kali true 45
        (record { sys = open_tables; file = absent; tor_unit_cache = none }))
unfolding load_unlocked default_state
enable_kill_switch_starts_example =
    enable_kill_switch_starts reader reader-Healthy kali true 45
      (record { sys = open_tables; file = absent; tor_unit_cache = none }) refl refl refl refl refl

abbrev reader-Proxied : Proxied reader
reader-Proxied = record { has_redsocks = λ t. refl; accepts = λ host port t. refl }

abbrev at_start : World reader
at_start = record { sys = open_tables; file = absent; tor_unit_cache = none }

abbrev as_gateway : World reader
as_gateway = record {
  sys = open_tables;
  file = saved (dict_of (("gateway_mode_active", flag true) ∷ []));
  tor_unit_cache = none;
}

abbrev home_proxy : Proxy
home_proxy = record {
  host = "203.0.113.5";
  port = 1080;
  proxy_type = "socks5";
  username = none;
  password = none;
}

enable_kill_switch_over_gateway_example :
    Ends
      (λ b w'.
        (b ≡ true)
        × (is_on w'.file "tor_kill_switch" ≡ true)
        × (is_on w'.file "gateway_mode_active" ≡ true))
      (λ _. ⊥)
      (enable_kill_switch reader kali false 45 as_gateway)
unfolding load_unlocked default_state
enable_kill_switch_over_gateway_example =
    enable_kill_switch_over_gateway reader reader-Healthy kali false 45 as_gateway refl refl refl
      refl refl refl

enable_kill_switch_races_example :
    Ends
      (λ b w'.
        (b ≡ true)
        × (is_on w'.file "tor_kill_switch" ≡ true)
        × (is_on w'.file "proxy_only_kill_switch" ≡ true))
      (λ _. ⊥)
      (interrupted reader
        (enable_proxy_kill_switch reader kali home_proxy false)
        kali
        false
        45
        at_start)
unfolding load_unlocked default_state
enable_kill_switch_races_example =
    enable_kill_switch_races reader reader-Healthy reader-Proxied kali home_proxy false false 45
      at_start refl refl refl refl refl refl
