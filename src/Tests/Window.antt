-- ===== src/Tests/Window.antt =====
-- The theorems on the window, at concrete presses and fields.
use privacy_toolkit.Prelude.{
  ℕ, ◌≡◌, ◌≢◌, ◌≤◌, refl, arith, true, false, none, List, [], ◌∷◌, ◌++◌, map,
}
use privacy_toolkit.ProxyOnly.{Proxy}
use privacy_toolkit.Exclusion.{Exclusive}
use privacy_toolkit.Cli.{answers, is_lower, or_default, int, digits_value}
use privacy_toolkit.Text.{strip, chars, of_chars, strip_chars, drop_while, drop_end, is_space}
use privacy_toolkit.Cli.Handlers.{choose_proxy_switch}
use privacy_toolkit.Cli.Monitors.{running}
use privacy_toolkit.Gui.{Form}
use privacy_toolkit.Gui.Handlers.{enable_proxy_only}
use privacy_toolkit.Gui.Buttons.{TorTab, ProxyTab, Button, Click, outcome, run_clicks}
use privacy_toolkit.Gui.Exclusive.{run_clicks-Exclusive}
use privacy_toolkit.Gui.SameAsMenu.{enable_proxy_only-as_in_menu}
use privacy_toolkit.Gui.Console.{
  Screen, ThreadAct, terminal, redirector, wrote, drained, queued, as_line, threads, all_texts,
  drain_log_queue, write, leave,
}
use privacy_toolkit.Gui.Console.Order.{threads_in_order}
use privacy_toolkit.Gui.Console.Overlap.{crossed, crossed_loses}
use privacy_toolkit.Gui.Monitors.{Moment, pass_all, one_monitor}
use privacy_toolkit.Tests.Sim.{sim, kali}
use privacy_toolkit.Tests.Switches.{fresh}

abbrev pub fields : Form
fields = record {
  dns_tunnel_var = false;
  bootstrap_timeout_var = "45";
  bridges_text = "";
  randomize_identity_var = true;
  proxy_list_text = "";
  chain_mode_var = "dynamic";
  include_tor_var = false;
  px_host = "203.0.113.5";
  px_port = "1080";
  px_type = "socks5";
  px_user = "";
  px_pass = "";
  hv_var = "vbox";
  vm_name = "";
  vm_snap = "";
  wipe_logs_var = false;
  save_pass = "";
  decrypt_path_var = "";
  decrypt_pass = "";
  ram_mode_var = "fast";
  ovpn_config_var = "";
  ovpn_auth_var = "";
  wg_iface_var = "wg0";
  profile_name_var = "home";
  profile_pass_var = "secret";
  profile_proxies_text = "socks5 203.0.113.5 1080\n\nhttp 203.0.113.6 80\n";
  profile_bridges_text = "\n";
  gw_hv_var = "vbox";
  gw_vm_var = "";
  ws_vm_var = "";
  gw_iface_var = "eth1";
  gw_ip_var = "10.152.152.10";
  ws_iface_var = "eth0";
  ws_ip_var = "10.152.152.11";
  ws_gwip_var = "10.152.152.10";
}

abbrev click : Button → Click
click b = record { env = kali; form = fields; button = b }

abbrev clicks : List Click
clicks =
    click (Button.on_tor TorTab.tor_enable)
    ∷ click (Button.on_proxy ProxyTab.proxy_enable)
    ∷ click (Button.on_tor TorTab.tor_disable)
    ∷ click (Button.on_proxy ProxyTab.proxy_enable)
    ∷ click (Button.on_tor TorTab.full_on)
    ∷ []

run_clicks-Exclusive_example : Exclusive (run_clicks sim clicks fresh).1.file
run_clicks-Exclusive_example = run_clicks-Exclusive sim clicks fresh refl

abbrev a_proxy : Proxy
a_proxy = record {
  host = "203.0.113.5";
  port = 1080;
  proxy_type = "socks5";
  username = none;
  password = none;
}

enable_proxy_only-as_in_menu_example :
    (outcome (enable_proxy_only sim kali fields) fresh).1
    ≡ (choose_proxy_switch sim kali (record {
      world = fresh;
      typed = "enable" ∷ "203.0.113.5" ∷ "1080" ∷ "" ∷ "" ∷ "" ∷ "n" ∷ [];
    })).1.world
unfolding int digits_value strip chars of_chars strip_chars drop_while drop_end is_space answers
    is_lower or_default
enable_proxy_only-as_in_menu_example =
    enable_proxy_only-as_in_menu sim kali fields "enable" "" "n" 1080 fresh refl refl refl refl refl

abbrev quiet : Screen
quiet = record {
  stdout = terminal;
  old_stdout = λ _. terminal;
  log_q = [];
  console = [];
  printed = [];
}

abbrev jobs : List (ℕ × List ThreadAct)
jobs =
    (1, wrote "[+] Tor started." ∷ wrote "\n" ∷ drained ∷ [])
    ∷ (2, wrote "" ∷ queued "[!] Exception: x\n" ∷ [])
    ∷ []

threads_in_order_example :
    ((drain_log_queue (threads jobs quiet)).console
      ≡ [] ++ map as_line [] ++ map as_line (all_texts jobs))
    × ((drain_log_queue (threads jobs quiet)).log_q ≡ [])
    × ((drain_log_queue (threads jobs quiet)).printed ≡ [])
    × ((drain_log_queue (threads jobs quiet)).stdout ≡ terminal)
threads_in_order_example = threads_in_order jobs quiet

one_is_not_two : ◌≢◌ {A = ℕ} 1 2
one_is_not_two e = absurd (ground (arith, e))

crossed_loses_example :
    ((write (crossed 1 2 quiet).stdout "done" (crossed 1 2 quiet)).log_q ≡ [])
    × ((write (crossed 1 2 quiet).stdout "done" (crossed 1 2 quiet)).printed ≡ [] ++ ("done" ∷ []))
    × ((leave 2 (write (crossed 1 2 quiet).stdout "done" (crossed 1 2 quiet))).stdout
        ≡ redirector 1)
crossed_loses_example = crossed_loses 1 2 "done" quiet one_is_not_two refl

abbrev moments : List Moment
moments =
    Moment.start_pressed
    ∷ Moment.start_pressed
    ∷ Moment.steps 2
    ∷ Moment.stop_pressed
    ∷ Moment.steps 3
    ∷ Moment.start_pressed
    ∷ []

one_monitor_example : running (pass_all moments []) ≤ 1
one_monitor_example = one_monitor moments
