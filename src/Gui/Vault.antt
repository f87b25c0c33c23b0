-- ===== src/Gui/Vault.antt =====
-- The handlers of gui.py for the encrypted log and for the profiles. Their threads act on the logger of
-- the window, on the machine, or on two fields of the window.
pub mod Lines
pub mod RoundTrip
use privacy_toolkit.Prelude.{
  String, Bool, true, false, ◌||◌, Option, none, some, List, [], ◌∷◌, ◌++◌, map, if◌then◌else◌,
}
use privacy_toolkit.Exec.{Exec, Res, ok, raised, pure, catch_all, modify, ◌>>=◌, ◌>>◌}
use privacy_toolkit.Host.{Host, Call}
use privacy_toolkit.Text.{chars, of_chars, strip, join_lines}
use privacy_toolkit.Crypto.{Cipher, Codec}
use privacy_toolkit.Crypto.Log.{Entry, Logger, save_log, decrypt_log}
use privacy_toolkit.Crypto.Profiles.{save_profile, load_profile}
use privacy_toolkit.Gui.{Form, Press, refused, started, nonblank_lines, empty, run_bg}

-- The dict of a profile; a key may be missing from one that was not saved here.
pub record Profile : Type 0 where
  pub proxies : Option (List String)
  pub bridges : Option (List String)

-- `"\n".join(data.get(key, []))`, as the widget gives it back, which adds a newline at its end
unfoldable pub shown_lines : Option (List String) → String
unfolding join_lines chars of_chars
shown_lines none = "\n"
shown_lines (some lines) = of_chars (join_lines (map chars lines) ++ ("\n" ∷ []))

unfoldable pub show_profile : Profile → Form → Form
unfolding shown_lines
show_profile d f = record f {
  profile_proxies_text = shown_lines d.proxies;
  profile_bridges_text = shown_lines d.bridges;
}

-- The dict `data` of `_save_profile`.
unfoldable pub profile_of : Form → Profile
unfolding nonblank_lines
profile_of f = record {
  proxies = some (nonblank_lines f.profile_proxies_text);
  bridges = some (nonblank_lines f.profile_bridges_text);
}

-- The machine, and the fields of the window.
pub record Window (H : Host) : Type 0 where
  pub sys : H.Sys
  pub form : Form

module _ (H : Host) where
  unfoldable pub on_window : {A : Type 0} → Call H A → Exec (Window H) A
  on_window m v = let (r, s) = m v.sys in (r, record v { sys = s })

  abbrev show : Profile → Window H → Window H
  show d v = record v { form = show_profile d v.form }

  module _ (C : Cipher H) (J : Codec (List Entry)) where
    -- `_save_log`
    unfoldable pub press_save_log : Form → Press (Logger H)
    press_save_log f =
        if empty f.save_pass
        then refused "Missing passphrase"
        else run_bg (save_log H C J f.save_pass none)

    -- `_decrypt_log`, whose thread prints the entries
    unfoldable pub press_decrypt_log : Form → Press H.Sys
    unfolding strip
    press_decrypt_log f =
        let path = strip f.decrypt_path_var in
        if empty path || empty f.decrypt_pass
        then refused "Missing info"
        else run_bg (catch_all (do decrypt_log H C J path f.decrypt_pass; pure tt) (pure tt))

  module _ (C : Cipher H) (J : Codec Profile) where
    -- `_save_profile`
    unfoldable pub press_save_profile : Form → Press (Window H)
    unfolding strip profile_of
    press_save_profile f =
        let name = strip f.profile_name_var in
        if empty name || empty f.profile_pass_var
        then refused "Missing info"
        else run_bg (on_window (save_profile H C J name (profile_of f) f.profile_pass_var))

    -- The function `do` of `_load_profile`.
    unfoldable pub load_into_fields : String → String → Exec (Window H) (Unit {0})
    unfolding show_profile
    load_into_fields name passphrase =
        catch_all (do d ← on_window (load_profile H C J name passphrase); modify (show d)) (pure tt)

    -- `_load_profile`
    unfoldable pub press_load_profile : Form → Press (Window H)
    unfolding strip
    press_load_profile f =
        let name = strip f.profile_name_var in
        if empty name || empty f.profile_pass_var
        then refused "Missing info"
        else run_bg (load_into_fields name f.profile_pass_var)
