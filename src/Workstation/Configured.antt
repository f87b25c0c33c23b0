-- ===== src/Workstation/Configured.antt =====
-- What `configure_networking` of privacyguard/workstation.py records.
use privacy_toolkit.Prelude.{
  ℕ, ◌≡◌, refl, ◌∙◌, ap, arith, String, true, not, List, [], ◌∷◌, eq_iff, ◌⊎◌, inl, inr,
}
use privacy_toolkit.Exec.Ends.{Ends, Ends-imp, Ends-pure, Ends-bind, Ends-if, Ends-catch_if}
use privacy_toolkit.Host.{Host}
use privacy_toolkit.State.{World, StateFile, load_unlocked}
use privacy_toolkit.State.Frames.{
  SameExcept, KeepsFile-on_sys, KeepsFile-Ends, is_on, is_on_flag, update-SameExcept,
}
use privacy_toolkit.Environment.{Environment}
use privacy_toolkit.Workstation.{set_network, configure_networking}

abbrev pub workstation_keys : List String
workstation_keys = "workstation_configured" ∷ "last_updated" ∷ []

-- Nothing was written, or the workstation is recorded as configured and nothing else has changed.
abbrev pub Outcome : StateFile → StateFile → Type 0
Outcome f f' =
    (f' ≡ f) ⊎ (SameExcept workstation_keys f f' × (is_on f' "workstation_configured" ≡ true))

module _ (H : Host) where
  set_network-Outcome :
      (iface static_ip gateway_ip : String) (cidr_prefix : ℕ) (w : World H)
      → Ends
          (λ _ w'. Outcome w.file w'.file)
          (λ w'. w'.file ≡ w.file)
          (set_network H iface static_ip gateway_ip cidr_prefix w)
  unfolding set_network
  set_network-Outcome iface static_ip gateway_ip cidr_prefix w =
      Ends-bind (λ _ w'. w'.file ≡ w.file) _
        (KeepsFile-Ends H (λ g. g ≡ w.file) _ w (KeepsFile-on_sys H _) refl)
        (λ _ w1 e1.
          Ends-bind (λ _ w'. w'.file ≡ w.file) _
            (KeepsFile-Ends H (λ g. g ≡ w.file) _ w1 (KeepsFile-on_sys H _) e1)
            (λ _ w2 e2.
              Ends-bind (λ _ w'. Outcome w.file w'.file) _
                (Ends-imp _
                  (λ _ w' k. inr (
                    λ j m. k.0 j m ∙ ap (λ g. load_unlocked g j) e2,
                    is_on_flag w'.file "workstation_configured" (
                        k.1 "workstation_configured"
                          (ground (arith, eq_iff "workstation_configured" "last_updated"))),
                  ))
                  (λ _ e. rw e e2) (update-SameExcept H _ workstation_keys w2 refl))
                (λ _ w3 k. Ends-pure k)))

  -- Configuring the workstation's network: where it returns, either the state file is as it was, or the
  -- workstation is recorded as configured and only that key and the time stamp have changed. Where it
  -- raises, the state file is as it was.
  pub configure_networking-Outcome :
      (env : Environment) (iface static_ip gateway_ip : String) (cidr_prefix : ℕ) (w : World H)
      → Ends
          (λ _ w'. Outcome w.file w'.file)
          (λ w'. w'.file ≡ w.file)
          (configure_networking H env iface static_ip gateway_ip cidr_prefix w)
  unfolding configure_networking
  configure_networking-Outcome env iface static_ip gateway_ip cidr_prefix w =
      Ends-if env.termux _ _ (λ _. Ends-pure (inl refl))
        (λ _.
          Ends-if (not env.root) _ _ (λ _. Ends-pure (inl refl))
            (λ _.
              Ends-catch_if _ _ (set_network-Outcome iface static_ip gateway_ip cidr_prefix w)
                (λ w' e. Ends-pure (inl e))))
