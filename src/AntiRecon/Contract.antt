-- ===== src/AntiRecon/Contract.antt =====
-- What the sysctl and port-scan switches do to the state file.
use privacy_toolkit.Prelude.{
  ℕ, ◌≡◌, refl, ◌∙◌, ap, String, Bool, true, false, not, ◌||◌, ◌&&◌, none, some, List, [], ◌∷◌,
  arith, eq_iff,
}
use privacy_toolkit.Exec.{Exec, ◌>>=◌}
use privacy_toolkit.Exec.Ends.{Ends, Ends-imp, Ends-pure, Ends-bind, Ends-if}
use privacy_toolkit.Host.{Host}
use privacy_toolkit.State.{Dict, World, StateFile, null, number, load_unlocked, load, get, object}
use privacy_toolkit.State.Frames.{
  quiet, recorded_off, not-true, and_true, Switched, Switched-unchanged, SameExcept,
  KeepsFile-on_sys, KeepsFile-Ends, is_on, is_on_flag, update-SameExcept, KeepsFile,
}
use privacy_toolkit.Environment.{Environment}
use privacy_toolkit.AntiRecon.{
  apply_stealth_sysctls, enable_stealth_sysctls, revert_stealth_sysctls, disable_stealth_sysctls,
  apply_portscan_protection, enable_portscan_protection, revert_portscan_protection,
  disable_portscan_protection, fields_or, default_params, field,
}

abbrev pub sysctl_keys : List String
sysctl_keys = "stealth_sysctls" ∷ "stealth_sysctls_backup" ∷ "last_updated" ∷ []

abbrev pub portscan_keys : List String
portscan_keys = "portscan_protection" ∷ "portscan_params" ∷ "last_updated" ∷ []

module _ (H : Host) where
  still :
      {A : Type 0} {m : Exec (World H) A} (f : StateFile) (w : World H)
      → KeepsFile H m
      → w.file ≡ f
      → Ends (λ _ w'. w'.file ≡ f) (λ w'. w'.file ≡ f) (m w)
  still f w k start = KeepsFile-Ends H (λ g. g ≡ f) _ w k start

  apply_stealth_sysctls-on :
      (w : World H)
      → Ends
          (λ _ w'. SameExcept sysctl_keys w.file w'.file × (is_on w'.file "stealth_sysctls" ≡ true))
          (λ w'. w'.file ≡ w.file)
          (apply_stealth_sysctls H w)
  unfolding apply_stealth_sysctls
  apply_stealth_sysctls-on w =
      Ends-bind (λ _ w'. w'.file ≡ w.file) _ ((KeepsFile-on_sys H _).at w)
        (λ previous w1 e1.
          Ends-bind (λ _ w'. w'.file ≡ w.file) _ (still w.file w1 (KeepsFile-on_sys H _) e1)
            (λ all_ok w2 e2.
              Ends-bind
                (λ _ w'.
                  SameExcept sysctl_keys w.file w'.file × (is_on w'.file "stealth_sysctls" ≡ true))
                _
                (Ends-imp _
                  (λ _ w' k. (
                    λ j m. k.0 j m ∙ ap (λ g. load_unlocked g j) e2,
                    is_on_flag w'.file "stealth_sysctls" (
                        k.1 "stealth_sysctls"
                          (ground (arith, eq_iff "stealth_sysctls" "last_updated"))),
                  ))
                  (λ _ e. rw e e2) (update-SameExcept H _ sysctl_keys w2 refl))
                (λ _ w3 k. Ends-pure k)))

  -- Hardening the sysctls with root and sysctl, outside Termux. When it returns, also where a key
  -- could not be set, it is recorded as on; a second call while it is recorded does nothing at all, so
  -- that the saved values stay those from before the first. Only its two keys and the time stamp
  -- change, and where it raises the state file is as it was.
  pub enable_stealth_sysctls-on :
      (env : Environment) (w : World H)
      → env.termux ≡ false
      → env.root ≡ true
      → env.has_sysctl ≡ true
      → Ends
          (λ _ w'.
            SameExcept sysctl_keys w.file w'.file
            × (is_on w'.file "stealth_sysctls" ≡ true)
            × (is_on w.file "stealth_sysctls" ≡ true → w' ≡ w))
          (λ w'. w'.file ≡ w.file)
          (enable_stealth_sysctls H env w)
  unfolding enable_stealth_sysctls load ◌>>=◌
  enable_stealth_sysctls-on env w termux root sysctl =
      simp (termux, root, sysctl)
        (Ends-if (is_on w.file "stealth_sysctls") _ _ (λ on. Ends-pure (λ j m. refl, on, λ _. refl))
          (λ off.
            Ends-imp _ (λ _ w' k. (k.0, k.1, λ on. cc)) (λ _ e. e) (apply_stealth_sysctls-on w)))

  revert_stealth_sysctls-off :
      (st : Dict) (w : World H)
      → Ends
          (λ _ w'.
            SameExcept sysctl_keys w.file w'.file × (is_on w'.file "stealth_sysctls" ≡ false))
          (λ w'. SameExcept sysctl_keys w.file w'.file)
          (revert_stealth_sysctls H st w)
  unfolding revert_stealth_sysctls
  revert_stealth_sysctls-off st w =
      Ends-bind (λ _ w'. w'.file ≡ w.file) _ (quiet H sysctl_keys (KeepsFile-on_sys H _) w refl)
        (λ _ w1 e1.
          recorded_off H _ sysctl_keys "stealth_sysctls" w.file w1 e1 refl refl
            (ground (arith, eq_iff "stealth_sysctls" "last_updated")))

  -- Reverting the sysctls with root and sysctl, outside Termux: when it returns the hardening is
  -- recorded as off, and only its two keys and the time stamp change, also where it raises.
  pub disable_stealth_sysctls-off :
      (env : Environment) (w : World H)
      → env.termux ≡ false
      → env.root ≡ true
      → env.has_sysctl ≡ true
      → Ends
          (λ _ w'.
            SameExcept sysctl_keys w.file w'.file × (is_on w'.file "stealth_sysctls" ≡ false))
          (λ w'. SameExcept sysctl_keys w.file w'.file)
          (disable_stealth_sysctls H env w)
  unfolding disable_stealth_sysctls load ◌>>=◌
  disable_stealth_sysctls-off env w termux root sysctl =
      simp (termux, root, sysctl)
        (Ends-if (not (is_on w.file "stealth_sysctls")) _ _
          (λ off. Ends-pure (λ k m. refl, not-true _ off)) (λ _. revert_stealth_sysctls-off _ w))

  -- Where the port-scan rules answer true, the parameters that they were made with are on record, as
  -- the values that taking them out reads.
  abbrev pub Recorded : ℕ → ℕ → StateFile → Type 0
  Recorded hitcount seconds f =
      (field "hitcount" (fields_or default_params (get (load_unlocked f) "portscan_params"))
        ≡ some (number hitcount))
      × (field "seconds" (fields_or default_params (get (load_unlocked f) "portscan_params"))
          ≡ some (number seconds))

  pub Recorded-params :
      (hitcount seconds : ℕ) (f : StateFile)
      → load_unlocked f "portscan_params"
        ≡ some (object (("hitcount", number hitcount) ∷ ("seconds", number seconds) ∷ []))
      → Recorded hitcount seconds f
  Recorded-params hitcount seconds f e = (
    ap (λ o. field "hitcount" (fields_or default_params (elim o [ none ↦ null | some v ↦ v ]))) e,
    ap (λ o. field "seconds" (fields_or default_params (elim o [ none ↦ null | some v ↦ v ]))) e,
  )

  apply_portscan_protection-Switched :
      (hitcount seconds : ℕ) (w : World H)
      → Ends
          (λ b w'.
            Switched portscan_keys "portscan_protection" w.file b w'.file
            × (b ≡ true → Recorded hitcount seconds w'.file))
          (λ w'. w'.file ≡ w.file)
          (apply_portscan_protection H hitcount seconds w)
  unfolding apply_portscan_protection
  apply_portscan_protection-Switched hitcount seconds w =
      Ends-bind (λ _ w'. w'.file ≡ w.file) _ ((KeepsFile-on_sys H _).at w)
        (λ ok w1 e1.
          Ends-if ok _ _
            (λ _.
              Ends-bind
                (λ _ w'.
                  Switched portscan_keys "portscan_protection" w.file true w'.file
                  × Recorded hitcount seconds w'.file)
                _
                (Ends-imp _
                  (λ _ w' k. (
                    (
                      λ j m. k.0 j m ∙ ap (λ g. load_unlocked g j) e1,
                      λ _. is_on_flag w'.file "portscan_protection" (
                          k.1 "portscan_protection"
                            (ground (arith, eq_iff "portscan_protection" "last_updated"))),
                      λ z. cc,
                    ),
                    Recorded-params hitcount seconds w'.file (
                        k.1 "portscan_params"
                          (ground (arith, eq_iff "portscan_params" "last_updated"))),
                  ))
                  (λ _ e. rw e e1) (update-SameExcept H _ portscan_keys w1 refl))
                (λ _ w2 k. Ends-pure (k.0, λ _. k.1)))
            (λ _. Ends-pure (
              Switched-unchanged portscan_keys "portscan_protection" w.file w1.file false (λ z. cc)
                  e1,
              λ z. cc,
            )))

  unchanged : (f f' : StateFile) → f' ≡ f → Switched portscan_keys "portscan_protection" f false f'
  unchanged f f' e = Switched-unchanged portscan_keys "portscan_protection" f f' false (λ z. cc) e

  -- Switching the port-scan rules on, forced or not. Where it answers true the protection is recorded
  -- as on; unless it was recorded already and the call was not forced, the parameters on record are
  -- then those of this call, which are what the removal of the rules reads. Where it answers false or
  -- raises, the state file is as it was. Only its two keys and the time stamp change.
  pub enable_portscan_protection-Switched :
      (env : Environment) (hitcount seconds : ℕ) (force : Bool) (w : World H)
      → Ends
          (λ b w'.
            Switched portscan_keys "portscan_protection" w.file b w'.file
            × ((is_on w.file "portscan_protection" && not force) ≡ false
                → b ≡ true
                → Recorded hitcount seconds w'.file))
          (λ w'. w'.file ≡ w.file)
          (enable_portscan_protection H env hitcount seconds force w)
  unfolding enable_portscan_protection load ◌>>=◌
  enable_portscan_protection-Switched env hitcount seconds force w =
      Ends-if env.termux _ _ (λ _. Ends-pure (unchanged w.file w.file refl, λ _ z. cc))
        (λ _.
          Ends-if (not env.root || not env.has_iptables) _ _
            (λ _. Ends-pure (unchanged w.file w.file refl, λ _ z. cc))
            (λ _.
              Ends-if (is_on w.file "portscan_protection" && not force) _ _
                (λ on. Ends-pure (
                  Switched-unchanged portscan_keys "portscan_protection" w.file w.file true
                      (λ _. (and_true (is_on w.file "portscan_protection") (not force) on).0) refl,
                  λ off. cc,
                ))
                (λ _.
                  Ends-imp _ (λ _ w' k. (k.0, λ _. k.1)) (λ _ e. e)
                    (apply_portscan_protection-Switched hitcount seconds w))))

  revert_portscan_protection-off :
      (st : Dict) (w : World H)
      → Ends
          (λ _ w'.
            SameExcept portscan_keys w.file w'.file × (is_on w'.file "portscan_protection" ≡ false))
          (λ w'. SameExcept portscan_keys w.file w'.file)
          (revert_portscan_protection H st w)
  unfolding revert_portscan_protection
  revert_portscan_protection-off st w =
      Ends-bind (λ _ w'. w'.file ≡ w.file) _ (quiet H portscan_keys (KeepsFile-on_sys H _) w refl)
        (λ _ w1 e1.
          recorded_off H _ portscan_keys "portscan_protection" w.file w1 e1 refl refl
            (ground (arith, eq_iff "portscan_protection" "last_updated")))

  -- Taking the port-scan rules out with root and iptables, outside Termux: when it returns the
  -- protection is recorded as off, and only its two keys and the time stamp change, also where it
  -- raises.
  pub disable_portscan_protection-off :
      (env : Environment) (w : World H)
      → env.termux ≡ false
      → env.root ≡ true
      → env.has_iptables ≡ true
      → Ends
          (λ _ w'.
            SameExcept portscan_keys w.file w'.file × (is_on w'.file "portscan_protection" ≡ false))
          (λ w'. SameExcept portscan_keys w.file w'.file)
          (disable_portscan_protection H env w)
  unfolding disable_portscan_protection load ◌>>=◌
  disable_portscan_protection-off env w termux root iptables =
      simp (termux, root, iptables)
        (Ends-if (not (is_on w.file "portscan_protection")) _ _
          (λ off. Ends-pure (λ k m. refl, not-true _ off))
          (λ _. revert_portscan_protection-off _ w))

  -- On any machine, these calls change no key but their own.
  pub enable_stealth_sysctls-keeps :
      (env : Environment) (w : World H)
      → Ends
          (λ _ w'. SameExcept sysctl_keys w.file w'.file)
          (λ w'. SameExcept sysctl_keys w.file w'.file)
          (enable_stealth_sysctls H env w)
  unfolding enable_stealth_sysctls load ◌>>=◌
  enable_stealth_sysctls-keeps env w =
      Ends-if (env.termux || not env.root || not env.has_sysctl) _ _ (λ _. Ends-pure (λ k m. refl))
        (λ _.
          Ends-if (is_on w.file "stealth_sysctls") _ _ (λ _. Ends-pure (λ k m. refl))
            (λ _.
              Ends-imp _ (λ _ _ k. k.0) (λ _ e j m. ap (λ g. load_unlocked g j) e)
                (apply_stealth_sysctls-on w)))

  pub disable_stealth_sysctls-keeps :
      (env : Environment) (w : World H)
      → Ends
          (λ _ w'. SameExcept sysctl_keys w.file w'.file)
          (λ w'. SameExcept sysctl_keys w.file w'.file)
          (disable_stealth_sysctls H env w)
  unfolding disable_stealth_sysctls load ◌>>=◌
  disable_stealth_sysctls-keeps env w =
      Ends-if (env.termux || not env.root || not env.has_sysctl) _ _ (λ _. Ends-pure (λ k m. refl))
        (λ _.
          Ends-if (not (is_on w.file "stealth_sysctls")) _ _ (λ _. Ends-pure (λ k m. refl))
            (λ _. Ends-imp _ (λ _ _ k. k.0) (λ _ k. k) (revert_stealth_sysctls-off _ w)))

  pub disable_portscan_protection-keeps :
      (env : Environment) (w : World H)
      → Ends
          (λ _ w'. SameExcept portscan_keys w.file w'.file)
          (λ w'. SameExcept portscan_keys w.file w'.file)
          (disable_portscan_protection H env w)
  unfolding disable_portscan_protection load ◌>>=◌
  disable_portscan_protection-keeps env w =
      Ends-if (env.termux || not env.root || not env.has_iptables) _ _
        (λ _. Ends-pure (λ k m. refl))
        (λ _.
          Ends-if (not (is_on w.file "portscan_protection")) _ _ (λ _. Ends-pure (λ k m. refl))
            (λ _. Ends-imp _ (λ _ _ k. k.0) (λ _ k. k) (revert_portscan_protection-off _ w)))
