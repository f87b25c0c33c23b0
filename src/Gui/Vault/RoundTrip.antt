-- ===== src/Gui/Vault/RoundTrip.antt =====
-- The tab of the profiles: `Save Profile` and then `Load Profile`.
use privacy_toolkit.Prelude.{◌≡◌, sym, subst, ◌∙◌, ap, false, String}
use privacy_toolkit.Exec.{Res, ok, raised, catch_all, modify, proceed, ◌>>=◌}
use privacy_toolkit.Exec.Ends.{Ends}
use privacy_toolkit.Host.{Host}
use privacy_toolkit.Text.{strip}
use privacy_toolkit.Crypto.{Cipher, Codec}
use privacy_toolkit.Crypto.Laws.{Works, BytesLaws, CipherLaws, CodecLaws}
use privacy_toolkit.Crypto.Profiles.{profile_dir, profile_path, save_profile, load_profile}
use privacy_toolkit.Crypto.RoundTrip.{Refused, Refused-Works, loaded_if, load_profile-save_profile}
use privacy_toolkit.Gui.{Form, empty, nonblank_lines}
use privacy_toolkit.Gui.Buttons.{outcome}
use privacy_toolkit.Gui.Threads.{target-state}
use privacy_toolkit.Gui.Vault.{
  Profile, Window, on_window, profile_of, show_profile, load_into_fields, press_save_profile,
  press_load_profile,
}
use privacy_toolkit.Gui.Vault.Lines.{nonblank_lines-shown_lines}

module _ (H : Host) (B : BytesLaws H) (works : Works H) (C : Cipher H) (L : CipherLaws C)
    (J : Codec Profile) (K : CodecLaws J) where
  -- The world in which a load finds the settings.
  abbrev Found : String → String → Profile → H.Sys → Type 0
  Found name passphrase d s = load_profile H C J name passphrase s ≡ (ok d, s)

  found :
      (name passphrase : String) (d : Profile) (s : H.Sys) (r : Res String × H.Sys)
      → Ends
          (λ _ s'.
            load_profile H C J name passphrase s'
            ≡ (loaded_if (H.has_module "cryptography" s') d, s'))
          (λ _. Refused H C J (profile_dir H) (λ _. profile_path H name) d passphrase s)
          r
      → Found name passphrase d r.1
  found name passphrase d s (ok path, s') h =
      h.at ∙ ap (λ b. (loaded_if b d, s')) (works.has_cryptography s')
  found name passphrase d s (raised e, s') h =
      absurd
        (Refused-Works H C J (profile_dir H) (λ _. profile_path H name) d passphrase s works h.at)

  saved-Found :
      (f : Form) (v : Window H)
      → empty (strip f.profile_name_var) ≡ false
      → empty f.profile_pass_var ≡ false
      → Found
          (strip f.profile_name_var)
          f.profile_pass_var
          (profile_of f)
          (outcome (press_save_profile H C J f) v).1.sys
  unfolding press_save_profile on_window
  saved-Found f v name pass =
      simp (name, pass)
        (subst (λ u. Found (strip f.profile_name_var) f.profile_pass_var (profile_of f) u.sys)
          (sym (
            target-state
              (on_window H
                (save_profile H C J (strip f.profile_name_var) (profile_of f) f.profile_pass_var))
              v))
          (found (strip f.profile_name_var) f.profile_pass_var (profile_of f) v.sys _ (
            load_profile-save_profile H B C L J K (strip f.profile_name_var) f.profile_pass_var
              (profile_of f) v.sys)))

  abbrev shown : Res Profile × H.Sys → Window H → Res (Unit {0}) × Window H
  shown r v =
      proceed r.0 (λ d. modify (λ u. record u { form = show_profile d u.form }))
        (record v { sys = r.1 })

  abbrev loaded : Res Profile × H.Sys → Window H → Res (Unit {0}) × Window H
  loaded r v = elim (shown r v).0 as (λ _. Res (Unit {0}) × Window H) [
    | ok u ↦ (ok u, (shown r v).1)
    | raised e ↦ (ok tt, (shown r v).1)
  ]

  -- Where the settings are found, loading shows them.
  loaded-shows :
      (name passphrase : String) (d : Profile) (v : Window H)
      → Found name passphrase d v.sys
      → (load_into_fields H C J name passphrase v).1.form ≡ show_profile d v.form
  unfolding load_into_fields on_window catch_all ◌>>=◌
  loaded-shows name passphrase d v h = ap (λ r. (loaded r v).1.form) h

  press_load-shows :
      (f : Form) (d : Profile) (v : Window H)
      → empty (strip f.profile_name_var) ≡ false
      → empty f.profile_pass_var ≡ false
      → Found (strip f.profile_name_var) f.profile_pass_var d v.sys
      → (outcome (press_load_profile H C J f) v).1.form ≡ show_profile d v.form
  unfolding press_load_profile
  press_load-shows f d v name pass h =
      simp (name, pass)
        (ap (λ u. u.form)
            (target-state (load_into_fields H C J (strip f.profile_name_var) f.profile_pass_var) v)
          ∙ loaded-shows (strip f.profile_name_var) f.profile_pass_var d v h)

  -- `Save Profile` and then `Load Profile`, under one profile name that is not blank and one passphrase
  -- that is not empty, where the cryptography package is there and files can be written: whatever was
  -- typed in the two fields in between, they have the lines again that were saved, without the blank
  -- ones.
  pub press_load_profile-press_save_profile :
      (f g : Form) (v : Window H)
      → empty (strip f.profile_name_var) ≡ false
      → empty f.profile_pass_var ≡ false
      → let v' =
          (outcome
            (press_load_profile H C J f)
            (record (outcome (press_save_profile H C J f) v).1 { form = g })).1 in
        (nonblank_lines v'.form.profile_proxies_text ≡ nonblank_lines f.profile_proxies_text)
        × (nonblank_lines v'.form.profile_bridges_text ≡ nonblank_lines f.profile_bridges_text)
  unfolding show_profile profile_of
  press_load_profile-press_save_profile f g v name pass =
      let v1 = record (outcome (press_save_profile H C J f) v).1 { form = g } in
      let shows = press_load-shows f (profile_of f) v1 name pass (saved-Found f v name pass) in
      (
        ap (λ u. nonblank_lines u.profile_proxies_text) shows
            ∙ nonblank_lines-shown_lines f.profile_proxies_text,
        ap (λ u. nonblank_lines u.profile_bridges_text) shows
            ∙ nonblank_lines-shown_lines f.profile_bridges_text,
      )
