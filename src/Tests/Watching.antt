-- ===== src/Tests/Watching.antt =====
-- The theorems on the VPN, the sysctls, the port-scan rules, the detectors, the DNS check, the monitor
-- and the wait for Tor at concrete inputs.
use privacy_toolkit.Prelude.{
  ◌+◌, ◌≡◌, ◌<◌, refl, arith, String, true, false, not, ◌&&◌, none, some, List, [], ◌∷◌, ◌++◌,
  str_eq, if◌then◌else◌,
}
use privacy_toolkit.Exec.Ends.{Ends}
use privacy_toolkit.State.{World, absent, saved, dict_of, flag, text, Json}
use privacy_toolkit.State.Frames.{is_on, Switched}
use privacy_toolkit.AntiRecon.{enable_portscan_protection}
use privacy_toolkit.AntiRecon.Contract.{
  portscan_keys, Recorded, enable_portscan_protection-Switched,
}
use privacy_toolkit.AntiRecon.Detector.{
  Packet, Hit, Settings, LogWatch, Line, drop_old, distinct_ports, handle_all, quiet_watch, length,
}
use privacy_toolkit.AntiRecon.Detector.Bounds.{Calm, recent, drop_old-recent, handle_all-Calm}
use privacy_toolkit.Text.{Chars, chars, splitlines}
use privacy_toolkit.Dns.{
  dns_leak_check, verdict, non_local, nameservers, is_nameserver, second_word, resolv_conf,
}
use privacy_toolkit.Dns.Verdicts.{bare_nameserver_hides}
use privacy_toolkit.Monitor.{Monitor}
use privacy_toolkit.Core.KillSwitch.{poll_tor}
use privacy_toolkit.Core.KillSwitch.Polling.{poll_tor-fuel}
use privacy_toolkit.Tests.Sim.{Machine, sim, kali, clean}

abbrev plain : World sim
plain = record { sys = clean; file = absent; tor_unit_cache = none }

abbrev recording : List (String × Json) → World sim
recording d = record { sys = clean; file = saved (dict_of d); tor_unit_cache = none }

abbrev tunnelled : World sim
tunnelled = recording (("vpn_active", text "wireguard:wg0") ∷ [])

abbrev hardened : World sim
hardened = recording (("stealth_sysctls", flag true) ∷ ("portscan_protection", flag true) ∷ [])

enable_portscan_protection-Switched_example :
    Ends
      (λ b w'.
        Switched portscan_keys "portscan_protection" hardened.file b w'.file
        × ((is_on hardened.file "portscan_protection" && not true) ≡ false
            → b ≡ true
            → Recorded sim 20 30 w'.file))
      (λ w'. w'.file ≡ hardened.file)
      (enable_portscan_protection sim kali 20 30 true hardened)
enable_portscan_protection-Switched_example =
    enable_portscan_protection-Switched sim kali 20 30 true hardened

abbrev touched : List Hit
touched = (3, 22) ∷ (8, 80) ∷ (12, 443) ∷ []

drop_old-recent_example : drop_old 15 10 touched ≡ recent 15 10 touched
drop_old-recent_example = drop_old-recent 15 10 touched refl

abbrev strict : Settings
strict = record { port_threshold = 2; window_seconds = 10; auto_block = true }

abbrev scan : List Packet
scan =
    record { src = "198.51.100.7"; dport = 22; now = 3 }
    ∷ record { src = "198.51.100.7"; dport = 80; now = 4 }
    ∷ record { src = "198.51.100.9"; dport = 80; now = 5 }
    ∷ []

quiet_watch-Calm : Calm sim strict (quiet_watch sim clean)
unfolding distinct_ports
quiet_watch-Calm = record { under = λ ip. omega arith; once = refl }

handle_all-Calm_example :
    Ends
      (λ _ v'. Calm sim strict v')
      (λ _. Unit {0})
      (handle_all sim kali strict scan (quiet_watch sim clean))
handle_all-Calm_example =
    handle_all-Calm sim kali strict scan (quiet_watch sim clean) (omega arith) quiet_watch-Calm

abbrev burst : List Line
burst = record { now = 1; suspicious = false } ∷ record { now = 2; suspicious = true } ∷ []

abbrev unseen : LogWatch
unseen = record { times = []; signatures = 0; bursts = 0 }

unseen_under : length unseen.times < 2
unfolding length
unseen_under = omega arith

abbrev bare_line : Chars
unfolding chars
bare_line = chars "nameserver"

abbrev lines_before : List Chars
unfolding chars
lines_before = chars "nameserver 127.0.0.1" ∷ []

abbrev lines_after : List Chars
unfolding chars
lines_after = chars "nameserver 8.8.8.8" ∷ []

abbrev resolvers_text : String
resolvers_text = "nameserver 127.0.0.1\nnameserver\nnameserver 8.8.8.8\n"

abbrev resolving : Machine
resolving = record clean { files = λ q. if str_eq resolv_conf q then some resolvers_text else none }

bare_line-is_nameserver : is_nameserver bare_line ≡ true
unfolding is_nameserver bare_line
bare_line-is_nameserver = refl

bare_line-second_word : second_word bare_line ≡ none
unfolding second_word bare_line
bare_line-second_word = refl

resolvers_lines : splitlines (chars resolvers_text) ≡ lines_before ++ (bare_line ∷ lines_after)
unfolding splitlines chars
resolvers_lines = refl

bare_nameserver_hides_example :
    Ends
      (λ report _.
        (report.configured_resolvers ≡ nameservers lines_before)
        × (report.leak_verdict ≡ verdict true (non_local (nameservers lines_before))))
      (λ _. ⊥)
      (dns_leak_check sim true resolving)
bare_nameserver_hides_example =
    bare_nameserver_hides sim true resolvers_text lines_before bare_line lines_after resolving refl
      refl resolvers_lines bare_line-is_nameserver bare_line-second_word

abbrev pub watching : Monitor sim
watching = record { sys = clean; baseline_ip = some "198.51.100.1"; alerts = [] }

poll_tor-fuel_example : poll_tor sim (46 + 100) 0 45 ≡ poll_tor sim 46 0 45
poll_tor-fuel_example = poll_tor-fuel sim 46 100 0 45 (omega arith)
