-- ===== src/Crypto/RoundTrip.antt =====
-- Saving and loading a profile under a passphrase.
use privacy_toolkit.Prelude.{
  ℕ, zero, suc, ◌≡◌, ◌≢◌, ◌⊎◌, refl, ap, arith, String, Bool, true, false, some, [], ◌∷◌, ◌++◌,
  Bool-cases, inl, inr,
}
use privacy_toolkit.Exec.{Exn, Res, ok, raised, ◌>>=◌}
use privacy_toolkit.Exec.Ends.{Ends, Ends-imp, Ends-pure, Ends-bind, Ends-if}
use privacy_toolkit.Host.{Host, Io, done, denied, broken, from_io, make_dirs}
use privacy_toolkit.Crypto.{
  Bytes, take, drop, Cipher, Codec, from_done, store_bytes, fetch_bytes, require_cryptography,
  derive_key, seal, unseal,
}
use privacy_toolkit.Crypto.Laws.{Works, length, BytesLaws, CipherLaws, CodecLaws}
use privacy_toolkit.Crypto.Profiles.{profile_dir, profile_path, save_profile, load_profile}

take-append : (n : ℕ) (a b : Bytes) → length a ≡ n → take n (a ++ b) ≡ a
unfolding take length
take-append zero [] b h = refl
take-append zero (x ∷ a) b h = absurd (ground (arith, h))
take-append (suc n) [] b h = absurd (ground (arith, h))
take-append (suc n) (x ∷ a) b h = ap (λ r. x ∷ r) (take-append n a b (omega (arith, h)))

drop-append : (n : ℕ) (a b : Bytes) → length a ≡ n → drop n (a ++ b) ≡ b
unfolding drop length
drop-append zero [] b h = refl
drop-append zero (x ∷ a) b h = absurd (ground (arith, h))
drop-append (suc n) [] b h = absurd (ground (arith, h))
drop-append (suc n) (x ∷ a) b h = drop-append n a b (omega (arith, h))

-- The answer of a load that needs the cryptography package.
abbrev pub loaded_if : {A : Type 0} → Bool → A → Res A
loaded_if true a = ok a
loaded_if false a = raised Exn.runtime_error

module _ (H : Host) (C : Cipher H) {D : Type 0} (J : Codec D) where
  -- The bytes of a file that opens with the passphrase to the value.
  abbrev pub Opens : String → D → Bytes → Type 0
  Opens passphrase d raw =
      C.decrypt (derive_key H C J passphrase (take 16 raw)) (drop 16 raw) ≡ some (J.dumps d)

  unseal-Opens :
      (path passphrase : String) (d : D) (raw : Bytes) (s : H.Sys)
      → CodecLaws J
      → H.read_bytes path s ≡ done raw
      → Opens passphrase d raw
      → unseal H C J path passphrase s ≡ (ok d, s)
  unfolding unseal fetch_bytes ◌>>=◌
  unseal-Opens path passphrase d raw s L read opens = rw (read, opens, L.loads-dumps d) refl

  -- The salt and the token, and the machine after making them.
  abbrev pub sealed_at : D → String → H.Sys → Bytes × H.Sys
  sealed_at d passphrase s =
      let (salt, s1) = H.random 16 s in
      let (token, s2) = C.encrypt (derive_key H C J passphrase salt) (J.dumps d) s1 in
      (salt ++ token, s2)

  pub seal_lem :
      {T : Type 0} (d : D) (passphrase : String) (s : H.Sys)
      → BytesLaws H
      → CipherLaws C
      → Ends
          (λ raw s'.
            Opens passphrase d raw
            × (raw ≡ (sealed_at d passphrase s).0)
            × (s' ≡ (sealed_at d passphrase s).1))
          (λ _. T)
          (seal H C J d passphrase s)
  unfolding seal ◌>>=◌
  seal_lem d passphrase s B L = Ends-pure (
    rw
        (
          take-append 16 (H.random 16 s).0 _ (B.random_length 16 s),
          drop-append 16 (H.random 16 s).0 _ (B.random_length 16 s),
        )
        (L.decrypt-encrypt _ (J.dumps d) _),
    refl,
    refl,
  )

  -- The answer of the machine when the bytes are written, to a file that may be named by the clock.
  abbrev pub stores : (H.Sys → String) → Bytes × H.Sys → Io (Unit {0})
  stores path made = (H.write_bytes (path made.1) made.0 made.1).0

  -- What can keep the machine `s` from storing a value: it has no cryptography package, it refuses to
  -- make this directory, or it refuses to write these bytes to this file.
  abbrev pub Refused : String → (H.Sys → String) → D → String → H.Sys → Type 0
  Refused dir path d passphrase s =
      (H.has_module "cryptography" s ≡ false)
      ⊎ (((H.mkdir dir s).0 ≢ done tt)
          ⊎ (stores path (sealed_at d passphrase (H.mkdir dir s).1) ≢ done tt))

  -- Where everything works nothing is refused.
  pub Refused-Works :
      (dir : String) (path : H.Sys → String) (d : D) (passphrase : String) (s : H.Sys)
      → Works H
      → ¬ Refused dir path d passphrase s
  Refused-Works dir path d passphrase s works (inl missing) =
      let there = works.has_cryptography s in cc
  Refused-Works dir path d passphrase s works (inr (inl refused)) = refused (works.mkdir_done dir s)
  Refused-Works dir path d passphrase s works (inr (inr refused)) = refused (works.write_done _ _ _)

module _ (H : Host) {T : Type 0} where
  pub required :
      (s : H.Sys)
      → (H.has_module "cryptography" s ≡ false → T)
      → Ends (λ _ s'. s' ≡ s) (λ _. T) (require_cryptography H s)
  unfolding require_cryptography ◌>>=◌
  required s h =
      Ends-if (H.has_module "cryptography" s) _ _ (λ _. Ends-pure refl) (λ no. record { at = h no })

  done_or :
      (r : Io (Unit {0})) (s : H.Sys)
      → (r ≢ done tt → T)
      → Ends {S = H.Sys} {A = Unit {0}}
          (λ _ s'. (r ≡ done tt) × (s' ≡ s))
          (λ _. T)
          (from_done H r s)
  done_or (done u) s h = Ends-pure (refl, refl)
  done_or denied s h = record { at = h (λ e. cc) }
  done_or broken s h = record { at = h (λ e. cc) }

  from_io_or :
      (r : Io (Unit {0})) (s : H.Sys)
      → (r ≢ done tt → T)
      → Ends {S = H.Sys} {A = Unit {0}} (λ _ s'. s' ≡ s) (λ _. T) (from_io H r s)
  from_io_or (done u) s h = Ends-pure refl
  from_io_or denied s h = record { at = h (λ e. cc) }
  from_io_or broken s h = record { at = h (λ e. cc) }

  pub made :
      (path : String) (s : H.Sys)
      → ((H.mkdir path s).0 ≢ done tt → T)
      → Ends (λ _ s'. s' ≡ (H.mkdir path s).1) (λ _. T) (make_dirs H path s)
  unfolding make_dirs
  made path s h = from_io_or _ (H.mkdir path s).1 h

  store_bytes_lem :
      (path : String) (raw : Bytes) (s : H.Sys)
      → BytesLaws H
      → ((H.write_bytes path raw s).0 ≢ done tt → T)
      → Ends
          (λ _ s'. (H.read_bytes path s' ≡ done raw) × (H.exists path s' ≡ true))
          (λ _. T)
          (store_bytes H path raw s)
  unfolding store_bytes
  store_bytes_lem path raw s B h =
      Ends-imp _ (λ _ s' k. rw k.1 (B.read_written path raw s k.0)) (λ _ z. z)
        (done_or _ (H.write_bytes path raw s).1 h)

module _ (H : Host) (B : BytesLaws H) where
  module _ (C : Cipher H) (L : CipherLaws C) {D : Type 0} (J : Codec D) (K : CodecLaws J) where
    -- A file that holds what opens to a value.
    abbrev pub Kept : String → String → D → H.Sys → Type 0
    Kept path passphrase d s =
        (unseal H C J path passphrase s ≡ (ok d, s)) × (H.exists path s ≡ true)

    pub stored-Kept :
        {T : Type 0} (path passphrase : String) (d : D) (raw : Bytes) (s : H.Sys)
        → Opens H C J passphrase d raw
        → ((H.write_bytes path raw s).0 ≢ done tt → T)
        → Ends (λ _ s'. Kept path passphrase d s') (λ _. T) (store_bytes H path raw s)
    stored-Kept path passphrase d raw s opens h =
        Ends-imp _ (λ _ s2 k. (unseal-Opens H C J path passphrase d raw s2 K k.0 opens, k.1))
          (λ _ z. z) (store_bytes_lem H path raw s B h)

    load_back :
        (name passphrase : String) (d : D) (s : H.Sys)
        → Kept (profile_path H name) passphrase d s
        → load_profile H C J name passphrase s ≡ (loaded_if (H.has_module "cryptography" s) d, s)
    unfolding load_profile require_cryptography ◌>>=◌
    load_back name passphrase d s kept = elim (Bool-cases (H.has_module "cryptography" s)) [
      | inl there ↦ simp (there, kept.1) kept.0
      | inr missing ↦ simp missing refl
    ]

    -- Saving a profile raises only where, on the machine that it finds, the cryptography package is
    -- missing, or the directory of the profiles cannot be made, or the encrypted bytes cannot be
    -- written to the file of this profile. Right after a save that does not raise, `load_profile` under
    -- the same name and passphrase gives the same value and changes nothing, or raises `RuntimeError`
    -- where the package has gone missing.
    pub load_profile-save_profile :
        (name passphrase : String) (d : D) (s : H.Sys)
        → Ends
            (λ _ s'.
              load_profile H C J name passphrase s'
              ≡ (loaded_if (H.has_module "cryptography" s') d, s'))
            (λ _. Refused H C J (profile_dir H) (λ _. profile_path H name) d passphrase s)
            (save_profile H C J name d passphrase s)
    unfolding save_profile
    load_profile-save_profile name passphrase d s =
        Ends-bind (λ _ s1. s1 ≡ s) _ (required H s inl)
          (λ _ s1 e1. rw e1 (
            Ends-bind (λ _ s2. s2 ≡ (H.mkdir (profile_dir H) s).1) _
              (made H (profile_dir H) s (λ no. inr (inl no)))
              (λ _ s2 e2. rw e2 (
                Ends-bind
                  (λ raw s3.
                    Opens H C J passphrase d raw
                    × (raw ≡ (sealed_at H C J d passphrase (H.mkdir (profile_dir H) s).1).0)
                    × (s3 ≡ (sealed_at H C J d passphrase (H.mkdir (profile_dir H) s).1).1))
                  _ (seal_lem H C J d passphrase (H.mkdir (profile_dir H) s).1 B L)
                  (λ raw s3 k.
                    Ends-bind (λ _ s'. Kept (profile_path H name) passphrase d s') _
                      (stored-Kept (profile_path H name) passphrase d raw s3 k.0
                        (λ no. inr (inr (rw (← k.1, ← k.2) no))))
                      (λ _ s4 kept. Ends-pure (load_back name passphrase d s4 kept)))))))
