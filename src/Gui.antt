-- ===== src/Gui.antt =====
-- gui.py: what the window's buttons start. The widgets themselves are Tk's; of each there is only the
-- value that the code reads from it when a button is pressed.
pub mod Handlers
pub mod Buttons
pub mod Threads
pub mod Exclusive
pub mod Race
pub mod Console
pub mod Monitors
pub mod SameAsMenu
pub mod Vault
use privacy_toolkit.Prelude.{
  ℕ, String, Bool, true, false, Option, none, some, List, [], ◌∷◌, str_eq, if◌then◌else◌,
}
use privacy_toolkit.Exec.{Exec, pure, catch_all, ◌>>=◌, ◌>>◌}
use privacy_toolkit.Host.{Host, Call}
use privacy_toolkit.State.{World, on_sys}
use privacy_toolkit.Text.{Chars, chars, of_chars, strip_chars, strip, splitlines}
use privacy_toolkit.Cli.{int}

-- The values of the fields, the check boxes and the lists of choices, by the names of gui.py.
pub record Form : Type 0 where
  pub dns_tunnel_var : Bool
  pub bootstrap_timeout_var : String
  pub bridges_text : String
  pub randomize_identity_var : Bool
  pub proxy_list_text : String
  pub chain_mode_var : String
  pub include_tor_var : Bool
  pub px_host : String
  pub px_port : String
  pub px_type : String
  pub px_user : String
  pub px_pass : String
  pub hv_var : String
  pub vm_name : String
  pub vm_snap : String
  pub wipe_logs_var : Bool
  pub save_pass : String
  pub decrypt_path_var : String
  pub decrypt_pass : String
  pub ram_mode_var : String
  pub ovpn_config_var : String
  pub ovpn_auth_var : String
  pub wg_iface_var : String
  pub profile_name_var : String
  pub profile_pass_var : String
  pub profile_proxies_text : String
  pub profile_bridges_text : String
  pub gw_hv_var : String
  pub gw_vm_var : String
  pub ws_vm_var : String
  pub gw_iface_var : String
  pub gw_ip_var : String
  pub ws_iface_var : String
  pub ws_ip_var : String
  pub ws_gwip_var : String

-- What a handler does: it shows a message box with a title and returns, or starts a thread, which
-- acts on a state.
pub data Press (S : Type 0) : Type 0 where
  refused : String → Press S
  started : Exec S (Unit {0}) → Press S

abbrev pub is_blank : Chars → Bool
is_blank line = elim (strip_chars line) [ [] ↦ true | _ ∷ _ ↦ false ]

abbrev pub nonblank : List Chars → List String
nonblank [] = []
nonblank (l ∷ ls) = let rest = nonblank ls in if is_blank l then rest else of_chars l ∷ rest

-- `[l for l in text.splitlines() if l.strip()]`
unfoldable pub nonblank_lines : String → List String
unfolding splitlines chars of_chars strip_chars
nonblank_lines text = nonblank (splitlines (chars text))

abbrev number_or_default : ℕ → Option ℕ → ℕ
number_or_default default none = default
number_or_default default (some n) = n

-- `int(text.strip())`, or the default where that raises `ValueError`
unfoldable pub int_or_default : ℕ → String → ℕ
unfolding int chars strip
int_or_default default text = number_or_default default (int (chars (strip text)))

-- `text.strip() or None`
unfoldable pub strip_or_none : String → Option String
unfolding strip
strip_or_none text = let s = strip text in if str_eq s "" then none else some s

abbrev pub empty : String → Bool
empty text = str_eq text ""

-- `target` of `_run_bg`: an exception of the call ends the thread with a line in the queue.
unfoldable pub target : {S A : Type 0} → Exec S A → Exec S (Unit {0})
target m = catch_all (do m; pure tt) (pure tt)

-- `_run_bg`
abbrev pub run_bg : {S A : Type 0} → Exec S A → Press S
run_bg m = started (target m)

-- The same for a call that does not look at the state file.
abbrev pub run_bg_on_sys : (H : Host) {A : Type 0} → Call H A → Press (World H)
run_bg_on_sys H m = run_bg (on_sys H m)
