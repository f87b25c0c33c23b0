-- ===== src/Crypto/Laws.antt =====
-- What the round trips rely on, as the documentation of each library has it.
use privacy_toolkit.Prelude.{ℕ, suc, String, ◌≡◌, true, some, [], ◌∷◌}
use privacy_toolkit.Host.{Host, done}
use privacy_toolkit.Crypto.{Bytes, Cipher, Codec}

unfoldable pub length : Bytes → ℕ
length [] = 0
length (_ ∷ bs) = suc (length bs)

-- `os.urandom(n)` gives `n` bytes, and a file has the bytes that were written to it last.
pub record BytesLaws (H : Host) : Type 0 where
  pub random_length : (n : ℕ) (s : H.Sys) → length (H.random n s).0 ≡ n
  pub read_written :
      (path : String) (bs : Bytes) (s : H.Sys)
      → (H.write_bytes path bs s).0 ≡ done tt
      → (H.read_bytes path (H.write_bytes path bs s).1 ≡ done bs)
        × (H.exists path (H.write_bytes path bs s).1 ≡ true)

-- The cryptography package is there, and directories and files can be written.
pub record Works (H : Host) : Type 0 where
  pub has_cryptography : (s : H.Sys) → H.has_module "cryptography" s ≡ true
  pub mkdir_done : (path : String) (s : H.Sys) → (H.mkdir path s).0 ≡ done tt
  pub write_done : (path : String) (bs : Bytes) (s : H.Sys) → (H.write_bytes path bs s).0 ≡ done tt

-- `Fernet(key).decrypt` undoes `Fernet(key).encrypt`.
pub record CipherLaws {H : Host} (C : Cipher H) : Type 0 where
  pub decrypt-encrypt :
      (key plaintext : Bytes) (s : H.Sys)
      → C.decrypt key (C.encrypt key plaintext s).0 ≡ some plaintext

-- `json.loads` undoes `json.dumps` on dicts of texts, numbers and lists of them.
pub record CodecLaws {D : Type 0} (J : Codec D) : Type 0 where
  pub loads-dumps : (d : D) → J.loads (J.dumps d) ≡ some d
