-- ===== src/Crypto.antt =====
-- What privacyguard/profiles.py and privacyguard/crypto_log.py share: a value is written as JSON,
-- encrypted under a key that is derived from a passphrase and a salt, and stored behind the salt. The
-- cryptography package and the json module are parameters.
pub mod Laws
pub mod Profiles
pub mod Log
pub mod RoundTrip
use privacy_toolkit.Prelude.{
  ℕ, zero, suc, String, Bool, true, false, not, Option, none, some, List, [], ◌∷◌, ◌++◌,
  if◌then◌else◌,
}
use privacy_toolkit.Exec.{Exec, Exn, pure, raise, gets, ◌>>=◌, ◌>>◌}
use privacy_toolkit.Host.{Host, Io, done, denied, broken, Call}

abbrev pub Bytes : Type 0
Bytes = List ℕ

-- `raw[:n]` and `raw[n:]`
unfoldable pub take : ℕ → Bytes → Bytes
take zero bs = []
take (suc n) [] = []
take (suc n) (b ∷ bs) = b ∷ take n bs

unfoldable pub drop : ℕ → Bytes → Bytes
drop zero bs = bs
drop (suc n) [] = []
drop (suc n) (b ∷ bs) = drop n bs

-- The calls of the cryptography package, and `str.encode`. A token depends on the random numbers that
-- the machine gives for it; a token that the key does not fit is refused.
pub record Cipher (H : Host) : Type 0 where
  pub encode : String → Bytes
  -- `PBKDF2HMAC(algorithm=SHA256(), length, salt, iterations).derive(passphrase)`
  pub pbkdf2 : ℕ → Bytes → ℕ → Bytes → Bytes
  pub urlsafe_b64encode : Bytes → Bytes
  pub encrypt : Bytes → Bytes → H.Sys → Bytes × H.Sys
  pub decrypt : Bytes → Bytes → Option Bytes

-- `json.dumps(value).encode()` and `json.loads(text.decode())`
pub record Codec (D : Type 0) : Type 0 where
  pub dumps : D → Bytes
  pub loads : Bytes → Option D

module _ (H : Host) where
  abbrev pub from_done : {A : Type 0} → Io A → Call H A
  from_done (done a) = pure a
  from_done denied = raise Exn.permission_denied
  from_done broken = raise Exn.io_failed

  abbrev pub random_bytes : ℕ → Call H Bytes
  random_bytes n s = let (bs, s') = H.random n s in (pure bs) s'

  unfoldable pub store_bytes : String → Bytes → Call H (Unit {0})
  store_bytes path bs s = let (r, s') = H.write_bytes path bs s in from_done r s'

  unfoldable pub fetch_bytes : String → Call H Bytes
  fetch_bytes path s = from_done (H.read_bytes path s) s

  abbrev pub or_bad : {A : Type 0} → Option A → Call H A
  or_bad none = raise Exn.bad_value
  or_bad (some a) = pure a

  -- `from cryptography.fernet import Fernet`, where a failure is raised as `RuntimeError`
  unfoldable pub require_cryptography : Call H (Unit {0})
  require_cryptography = do
    there ← gets (H.has_module "cryptography")
    if there then pure tt else raise Exn.runtime_error

  module _ (C : Cipher H) {D : Type 0} (J : Codec D) where
    -- `_derive_key`
    unfoldable pub derive_key : String → Bytes → Bytes
    derive_key passphrase salt = C.urlsafe_b64encode (C.pbkdf2 32 salt 390000 (C.encode passphrase))

    abbrev pub encrypted : Bytes → Bytes → Call H Bytes
    encrypted key plaintext s = let (token, s') = C.encrypt key plaintext s in (pure token) s'

    -- From `salt = os.urandom(16)` to `salt + token`.
    unfoldable pub seal : D → String → Call H Bytes
    unfolding derive_key
    seal value passphrase = do
      salt ← random_bytes 16
      token ← encrypted (derive_key passphrase salt) (J.dumps value)
      pure (salt ++ token)

    -- From `raw = path.read_bytes()` to the value.
    unfoldable pub unseal : String → String → Call H D
    unfolding derive_key take drop
    unseal path passphrase = do
      raw ← fetch_bytes path
      plaintext ← or_bad (C.decrypt (derive_key passphrase (take 16 raw)) (drop 16 raw))
      or_bad (J.loads plaintext)
