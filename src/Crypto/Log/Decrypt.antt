-- ===== src/Crypto/Log/Decrypt.antt =====
-- Decrypting what a session log has saved.
use privacy_toolkit.Prelude.{
  ◌≡◌, refl, ◌∙◌, ap, sym, subst, String, Bool-cases, inl, inr, Option, List, [], ◌∷◌, ◌++◌,
}
use privacy_toolkit.Exec.{Res, ok, raised, gets, ◌>>=◌, ◌>>◌}
use privacy_toolkit.Exec.Ends.{Ends, Ends-imp, Ends-pure, Ends-bind}
use privacy_toolkit.Host.{Host}
use privacy_toolkit.Crypto.{Cipher, Codec, require_cryptography, unseal}
use privacy_toolkit.Crypto.Laws.{BytesLaws, CipherLaws, CodecLaws}
use privacy_toolkit.Crypto.RoundTrip.{
  Opens, Kept, loaded_if, Refused, required, made, stored-Kept, sealed_at, seal_lem,
}
use privacy_toolkit.Crypto.Log.{
  Entry, Logger, log, log_all, log_dir, log_path, save_entries, save_log, decrypt_log,
}

append_to_nil : {A : Type 0} (xs : List A) → xs ++ [] ≡ xs
append_to_nil [] = refl
append_to_nil (x ∷ xs) = ap (λ r. x ∷ r) (append_to_nil xs)

-- the messages of a record
abbrev pub msgs : List Entry → List String
msgs [] = []
msgs (e ∷ es) = e.msg ∷ msgs es

msgs-snoc :
    (es : List Entry) (e : Entry) (rest : List String)
    → msgs (es ++ (e ∷ [])) ++ rest ≡ msgs es ++ (e.msg ∷ rest)
msgs-snoc [] e rest = refl
msgs-snoc (x ∷ es) e rest = ap (λ r. x.msg ∷ r) (msgs-snoc es e rest)

module _ (H : Host) (B : BytesLaws H) where
  lifted :
      {A T : Type 0} {P : A → H.Sys → Type 0} (l : Logger H) (r : Res A × H.Sys)
      → Ends P (λ _. T) r
      → Ends (λ a (l' : Logger H). P a l'.sys) (λ _. T) (r.0, record l { sys = r.1 })
  lifted l (ok a, s) h = Ends-pure h.at
  lifted l (raised e, s) h = record { at = h.at }

  decrypt_back :
      (C : Cipher H) (J : Codec (List Entry)) (path passphrase : String) (es : List Entry)
      (s : H.Sys)
      → unseal H C J path passphrase s ≡ (ok es, s)
      → decrypt_log H C J path passphrase s ≡ (loaded_if (H.has_module "cryptography" s) es, s)
  unfolding decrypt_log require_cryptography ◌>>=◌
  decrypt_back C J path passphrase es s opens = elim (Bool-cases (H.has_module "cryptography" s)) [
    | inl there ↦ simp there opens
    | inr missing ↦ simp missing refl
  ]

  module _ (C : Cipher H) (L : CipherLaws C) (J : Codec (List Entry)) (K : CodecLaws J) where
    -- What can keep the machine from saving these entries.
    abbrev pub SaveRefused : List Entry → String → Option String → H.Sys → Type 0
    SaveRefused es passphrase label s =
        Refused H C J (log_dir H) (λ m. log_path H label (H.stamp "%Y%m%d-%H%M%S" m)) es passphrase
          s

    save_entries_lem :
        (es : List Entry) (passphrase : String) (label : Option String) (s : H.Sys)
        → Ends
            (λ path s'.
              decrypt_log H C J path passphrase s'
              ≡ (loaded_if (H.has_module "cryptography" s') es, s'))
            (λ _. SaveRefused es passphrase label s)
            (save_entries H C J es passphrase label s)
    unfolding save_entries
    save_entries_lem es passphrase label s =
        Ends-bind (λ _ s1. s1 ≡ s) _ (required H s inl)
          (λ _ s1 e1. rw e1 (
            Ends-bind (λ _ s2. s2 ≡ (H.mkdir (log_dir H) s).1) _
              (made H (log_dir H) s (λ no. inr (inl no)))
              (λ _ s2 e2. rw e2 (
                Ends-bind
                  (λ raw s3.
                    Opens H C J passphrase es raw
                    × (raw ≡ (sealed_at H C J es passphrase (H.mkdir (log_dir H) s).1).0)
                    × (s3 ≡ (sealed_at H C J es passphrase (H.mkdir (log_dir H) s).1).1))
                  _ (seal_lem H C J es passphrase (H.mkdir (log_dir H) s).1 B L)
                  (λ raw s3 k.
                    Ends-bind (λ now s4. (now ≡ H.stamp "%Y%m%d-%H%M%S" s3) × (s4 ≡ s3))
                      (gets (H.stamp "%Y%m%d-%H%M%S")) (Ends-pure (refl, refl))
                      (λ now s4 t.
                        rw (t.0, t.1)
                          (Ends-bind
                            (λ _ s'.
                              Kept H B C L J K (log_path H label (H.stamp "%Y%m%d-%H%M%S" s3))
                                passphrase es s')
                            _
                            (stored-Kept H B C L J K _ passphrase es raw s3 k.0
                              (λ no. inr (inr (rw (← k.1, ← k.2) no))))
                            (λ _ s5 kept.
                              Ends-pure (decrypt_back C J _ passphrase es s5 kept.0)))))))))

    log_all_lem :
        (messages : List String) (l : Logger H)
        → Ends
            (λ _ l'. (msgs l'.buffer ≡ msgs l.buffer ++ messages) × (l'.sys ≡ l.sys))
            (λ _. ⊥)
            (log_all H messages l)
    unfolding log_all log ◌>>=◌
    log_all_lem [] l = Ends-pure (sym (append_to_nil (msgs l.buffer)), refl)
    log_all_lem (message ∷ rest) l =
        Ends-imp _ (λ _ _ k. (k.0 ∙ msgs-snoc l.buffer _ rest, k.1)) (λ _ z. z) (log_all_lem rest _)

    save_log_lem :
        (passphrase : String) (label : Option String) (l : Logger H)
        → Ends
            (λ path l'.
              decrypt_log H C J path passphrase l'.sys
              ≡ (loaded_if (H.has_module "cryptography" l'.sys) l.buffer, l'.sys))
            (λ _. SaveRefused l.buffer passphrase label l.sys)
            (save_log H C J passphrase label l)
    unfolding save_log
    save_log_lem passphrase label l =
        lifted l (save_entries H C J l.buffer passphrase label l.sys)
          (save_entries_lem l.buffer passphrase label l.sys)

    -- A session: messages are recorded by a new logger, and saved. That raises only where, on the
    -- machine that it finds, the cryptography package is missing, or the directory of the logs cannot be
    -- made, or the encrypted bytes of entries with these messages cannot be written to the file of this
    -- log. Right after a save that does not raise, decrypting the file under the same passphrase gives
    -- entries whose messages are those, in the order in which they were recorded, or raises
    -- `RuntimeError` where the package has gone missing.
    pub decrypt_log-save_log :
        (messages : List String) (passphrase : String) (label : Option String) (l : Logger H)
        → l.buffer ≡ []
        → Ends
            (λ path l'.
              (es : List Entry) × (decrypt_log H C J path passphrase l'.sys
                ≡ (loaded_if (H.has_module "cryptography" l'.sys) es, l'.sys))
              × (msgs es ≡ messages))
            (λ _. (es : List Entry) × (msgs es ≡ messages) × SaveRefused es passphrase label l.sys)
            ((do log_all H messages; save_log H C J passphrase label) l)
    decrypt_log-save_log messages passphrase label l fresh =
        Ends-bind (λ _ l'. (msgs l'.buffer ≡ messages) × (l'.sys ≡ l.sys)) (log_all H messages)
          (Ends-imp _ (λ _ _ k. (k.0 ∙ ap (λ es. msgs es ++ messages) fresh, k.1)) (λ _ z. absurd z)
            (log_all_lem messages l))
          (λ _ l1 k.
            Ends-imp _ (λ _ _ back. (l1.buffer, back, k.0))
              (λ _ no.
                (l1.buffer, k.0, subst (λ s. SaveRefused l1.buffer passphrase label s) k.1 no))
              (save_log_lem passphrase label l1))
