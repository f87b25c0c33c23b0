-- ===== src/Crypto/Profiles.antt =====
-- privacyguard/profiles.py: named settings, each in an encrypted file of its own.
use privacy_toolkit.Prelude.{String, Bool, true, false, not, [], ◌∷◌, format, if◌then◌else◌}
use privacy_toolkit.Exec.{Exn, pure, raise, gets, ◌>>=◌, ◌>>◌}
use privacy_toolkit.Host.{Host, Call, make_dirs, remove_file}
use privacy_toolkit.Crypto.{Cipher, Codec, require_cryptography, store_bytes, seal, unseal}

module _ (H : Host) where
  abbrev pub profile_dir : String
  profile_dir = format (H.home ∷ "/.privacyguard_profiles" ∷ [])

  -- `PROFILE_DIR / f"{name}.profile.enc"`
  abbrev pub profile_path : String → String
  profile_path name = format (profile_dir ∷ "/" ∷ name ∷ ".profile.enc" ∷ [])

  unfoldable pub delete_profile : String → Call H Bool
  delete_profile name = do
    here ← gets (H.exists (profile_path name))
    if here then (do remove_file H (profile_path name); pure true) else pure false

  module _ (C : Cipher H) {D : Type 0} (J : Codec D) where
    unfoldable pub save_profile : String → D → String → Call H String
    save_profile name settings passphrase = do
      require_cryptography H
      make_dirs H profile_dir
      raw ← seal H C J settings passphrase
      store_bytes H (profile_path name) raw
      pure (profile_path name)

    unfoldable pub load_profile : String → String → Call H D
    load_profile name passphrase = do
      require_cryptography H
      here ← gets (H.exists (profile_path name))
      if not here then raise Exn.no_file else unseal H C J (profile_path name) passphrase
