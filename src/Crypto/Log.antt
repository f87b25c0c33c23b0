-- ===== src/Crypto/Log.antt =====
-- privacyguard/crypto_log.py: the encrypted record of a session.
pub mod Decrypt
use privacy_toolkit.Prelude.{
  String, Bool, true, false, Option, none, some, List, [], ◌∷◌, ◌++◌, str_eq, format, if◌then◌else◌,
}
use privacy_toolkit.Exec.{Exec, ok, pure, gets, ◌>>=◌, ◌>>◌}
use privacy_toolkit.Host.{Host, Call, make_dirs}
use privacy_toolkit.Crypto.{Cipher, Codec, require_cryptography, store_bytes, seal, unseal}

-- `{"ts": …, "msg": …}`
pub record Entry : Type 0 where
  pub ts : String
  pub msg : String

module _ (H : Host) where
  -- An `EncryptedLogger`, and the machine that it runs on.
  pub record Logger : Type 0 where
    pub sys : H.Sys
    pub buffer : List Entry

  abbrev pub new_logger : H.Sys → Logger
  new_logger s = record { sys = s; buffer = [] }

  unfoldable pub log : String → Exec Logger (Unit {0})
  log message l = (
    ok tt,
    record l {
      buffer = l.buffer ++ (record { ts = H.stamp "%Y-%m-%d %H:%M:%S" l.sys; msg = message } ∷ []);
    },
  )

  unfoldable pub log_all : List String → Exec Logger (Unit {0})
  log_all [] = pure tt
  log_all (message ∷ rest) = do log message; log_all rest

  abbrev pub log_dir : String
  log_dir = format (H.home ∷ "/.privacyguard_logs" ∷ [])

  -- `label or time.strftime('%Y%m%d-%H%M%S')`
  abbrev pub label_or : Option String → String → String
  label_or none now = now
  label_or (some label) now = if str_eq label "" then now else label

  -- `LOG_DIR / f"session-{…}.enc"`
  abbrev pub log_path : Option String → String → String
  log_path label now = format (log_dir ∷ "/session-" ∷ label_or label now ∷ ".enc" ∷ [])

  module _ (C : Cipher H) (J : Codec (List Entry)) where
    -- `save`, with the buffer of the logger. The file's name may be read off the
    -- clock.
    unfoldable pub save_entries : List Entry → String → Option String → Call H String
    save_entries buffer passphrase label = do
      require_cryptography H
      make_dirs H log_dir
      raw ← seal H C J buffer passphrase
      now ← gets (H.stamp "%Y%m%d-%H%M%S")
      store_bytes H (log_path label now) raw
      pure (log_path label now)

    unfoldable pub save_log : String → Option String → Exec Logger String
    save_log passphrase label l =
        let (r, s) = save_entries l.buffer passphrase label l.sys in (r, record l { sys = s })

    -- `decrypt`
    unfoldable pub decrypt_log : String → String → Call H (List Entry)
    decrypt_log path passphrase = do require_cryptography H; unseal H C J path passphrase
