-- ===== src/Orchestrate/Contract.antt =====
-- What `full_start` and `full_stop` of privacyguard/orchestrate.py leave in the state file.
use privacy_toolkit.Prelude.{
  ℕ, ◌≡◌, refl, subst, ◌∙◌, ap, sym, arith, String, Bool, true, false, List, [], ◌∷◌,
}
use privacy_toolkit.Exec.{Exec, pure, ◌>>=◌, ◌>>◌}
use privacy_toolkit.Exec.Ends.{Ends, Ends-imp, Ends-pure, Ends-bind, Ends-if}
use privacy_toolkit.Host.{Host}
use privacy_toolkit.State.{World, StateFile, on_sys}
use privacy_toolkit.State.Frames.{
  SameExcept, KeepsFile, KeepsFile-on_sys, KeepsFile-Ends, Switched, is_on, is_on-same, member,
}
use privacy_toolkit.Environment.{Environment}
use privacy_toolkit.Core.{enable_kill_switch}
use privacy_toolkit.Core.KillSwitch.Contract.{
  enable_kill_switch-Switched, disable_kill_switch-off, kill_switch_keys,
}
use privacy_toolkit.ProxyTor.Frames.{start_tor-KeepsFile, stop_tor-KeepsFile}
use privacy_toolkit.AntiRecon.{enable_stealth_sysctls, enable_portscan_protection}
use privacy_toolkit.AntiRecon.Contract.{
  sysctl_keys, portscan_keys, enable_stealth_sysctls-keeps, enable_portscan_protection-Switched,
  disable_stealth_sysctls-off, disable_portscan_protection-off,
}
use privacy_toolkit.Orchestrate.{verify_started, start_linux, full_start, stop_linux, full_stop}

-- Every key that the calls of both change.
abbrev pub mode_keys : List String
mode_keys =
    "tor_kill_switch" ∷ "iptables_backup" ∷ "ip6tables_backup" ∷ "ipv6_blocked" ∷ "stealth_sysctls"
    ∷ "stealth_sysctls_backup" ∷ "portscan_protection" ∷ "portscan_params" ∷ "last_updated" ∷ []

of_kill_switch : (k : String) → member k mode_keys ≡ false → member k kill_switch_keys ≡ false
of_kill_switch k m = ground arith

of_sysctl : (k : String) → member k mode_keys ≡ false → member k sysctl_keys ≡ false
of_sysctl k m = ground arith

of_portscan : (k : String) → member k mode_keys ≡ false → member k portscan_keys ≡ false
of_portscan k m = ground arith

-- A call that changes only keys of the mode, after what did so too.
then_within :
    (ks : List String) (f g h : StateFile)
    → ((k : String) → member k mode_keys ≡ false → member k ks ≡ false)
    → SameExcept mode_keys f g
    → SameExcept ks g h
    → SameExcept mode_keys f h
then_within ks f g h within before same k m = same k (within k m) ∙ before k m

module _ (H : Host) where
  -- How `full_start` leaves the state file: only keys of the mode change, and the answer says whether
  -- the Tor kill switch is recorded as on, or has been left as it was recorded.
  abbrev pub Started : StateFile → Bool → StateFile → Type 0
  Started f b f' =
      SameExcept mode_keys f f'
      × (b ≡ true → is_on f' "tor_kill_switch" ≡ true)
      × (b ≡ false → is_on f' "tor_kill_switch" ≡ is_on f "tor_kill_switch")

  -- What holds in front of `enable_kill_switch`.
  abbrev Prepared : StateFile → StateFile → Type 0
  Prepared f g = SameExcept mode_keys f g × (is_on g "tor_kill_switch" ≡ is_on f "tor_kill_switch")

  still_Prepared :
      {A : Type 0} (m : Exec (World H) A) (f : StateFile) (w : World H)
      → KeepsFile H m
      → Prepared f w.file
      → Ends (λ _ w'. Prepared f w'.file) (λ w'. SameExcept mode_keys f w'.file) (m w)
  still_Prepared m f w k h =
      Ends-imp _ (λ _ _ p. p) (λ _ p. p.0) (KeepsFile-Ends H (Prepared f) m w k h)

  Switched-Started :
      (f g g' : StateFile) (b : Bool)
      → Prepared f g
      → Switched kill_switch_keys "tor_kill_switch" g b g'
      → Started f b g'
  Switched-Started f g g' b h k = (
    then_within kill_switch_keys f g g' of_kill_switch h.0 k.0,
    k.1,
    λ no. ap (λ x. is_on x "tor_kill_switch") (k.2 no) ∙ h.1,
  )

  -- The kill switch and the verification, from there.
  switch_on-Started :
      (env : Environment) (verified : Bool) (timeout : ℕ) (f : StateFile) (w : World H)
      → Prepared f w.file
      → Ends
          (λ b w'. Started f b w'.file)
          (λ w'. SameExcept mode_keys f w'.file)
          ((do
            active ← enable_kill_switch H env false timeout
            on_sys H (verify_started H active verified)
            pure active)
            w)
  switch_on-Started env verified timeout f w h =
      Ends-bind (λ b w'. Started f b w'.file) _
        (Ends-imp _ (λ b w' k. Switched-Started f w.file w'.file b h k)
          (λ w' k. then_within kill_switch_keys f w.file w'.file of_kill_switch h.0 k)
          (enable_kill_switch-Switched H env false timeout w))
        (λ b w1 s.
          Ends-bind (λ _ w'. Started f b w'.file) _
            (Ends-imp _ (λ _ _ p. p) (λ _ p. p.0)
              (KeepsFile-Ends H (Started f b) _ w1 (KeepsFile-on_sys H _) s))
            (λ _ w2 p. Ends-pure p))

  sysctls-Prepared :
      (env : Environment) (f : StateFile) (w : World H)
      → Prepared f w.file
      → Ends
          (λ _ w'. Prepared f w'.file)
          (λ w'. SameExcept mode_keys f w'.file)
          (enable_stealth_sysctls H env w)
  sysctls-Prepared env f w h =
      Ends-imp _
        (λ _ w' k. (
          then_within sysctl_keys f w.file w'.file of_sysctl h.0 k,
          is_on-same w.file w'.file "tor_kill_switch" (k "tor_kill_switch" refl) ∙ h.1,
        ))
        (λ w' k. then_within sysctl_keys f w.file w'.file of_sysctl h.0 k)
        (enable_stealth_sysctls-keeps H env w)

  portscan-Prepared :
      (env : Environment) (f : StateFile) (w : World H)
      → Prepared f w.file
      → Ends
          (λ _ w'. Prepared f w'.file)
          (λ w'. SameExcept mode_keys f w'.file)
          (enable_portscan_protection H env 15 60 false w)
  portscan-Prepared env f w h =
      Ends-imp _
        (λ _ w' k. (
          then_within portscan_keys f w.file w'.file of_portscan h.0 k.0.0,
          is_on-same w.file w'.file "tor_kill_switch" (k.0.0 "tor_kill_switch" refl) ∙ h.1,
        ))
        (λ w' e. subst (SameExcept mode_keys f) (sym e) h.0)
        (enable_portscan_protection-Switched H env 15 60 false w)

  start_linux-Started :
      (env : Environment) (verified : Bool) (timeout : ℕ) (identity : Bool) (f : StateFile)
      (w : World H)
      → Prepared f w.file
      → Ends
          (λ b w'. Started f b w'.file)
          (λ w'. SameExcept mode_keys f w'.file)
          (start_linux H env verified timeout identity w)
  unfolding start_linux
  start_linux-Started env verified timeout identity f w h =
      Ends-bind (λ _ w'. Prepared f w'.file) _ (still_Prepared _ f w (KeepsFile-on_sys H _) h)
        (λ _ w1 h1.
          Ends-bind (λ _ w'. Prepared f w'.file) _ (sysctls-Prepared env f w1 h1)
            (λ _ w2 h2.
              Ends-bind (λ _ w'. Prepared f w'.file) _ (portscan-Prepared env f w2 h2)
                (λ _ w3 h3. switch_on-Started env verified timeout f w3 h3)))

  -- Starting the anonymity mode, on any machine. Where it answers true the Tor kill switch is
  -- recorded as on, and where it answers false the switch is recorded as it was before. Nothing of
  -- the state file changes but the keys of the three switches and the time stamp, also where a call
  -- on the way raises.
  pub full_start-Started :
      (env : Environment) (verified : Bool) (timeout : ℕ) (identity : Bool) (w : World H)
      → Ends
          (λ b w'. Started w.file b w'.file)
          (λ w'. SameExcept mode_keys w.file w'.file)
          (full_start H env verified timeout identity w)
  unfolding full_start
  full_start-Started env verified timeout identity w =
      Ends-bind (λ _ w'. Prepared w.file w'.file) _
        (still_Prepared _ w.file w (start_tor-KeepsFile H env) (λ k m. refl, refl))
        (λ _ w1 h.
          Ends-if env.termux _ _ (λ _. Ends-pure (h.0, λ z. cc, λ _. h.1))
            (λ _. start_linux-Started env verified timeout identity w.file w1 h))

  -- How `full_stop` leaves the state file.
  abbrev pub Stopped : StateFile → StateFile → Type 0
  Stopped f f' =
      SameExcept mode_keys f f'
      × (is_on f' "tor_kill_switch" ≡ false)
      × (is_on f' "portscan_protection" ≡ false)
      × (is_on f' "stealth_sysctls" ≡ false)

  stop_linux-Stopped :
      (env : Environment) (w : World H)
      → env.termux ≡ false
      → env.root ≡ true
      → env.has_iptables ≡ true
      → env.has_sysctl ≡ true
      → Ends
          (λ _ w'. Stopped w.file w'.file)
          (λ w'. SameExcept mode_keys w.file w'.file)
          (stop_linux H env w)
  unfolding stop_linux
  stop_linux-Stopped env w termux root iptables sysctl =
      Ends-bind
        (λ _ w'. SameExcept mode_keys w.file w'.file × (is_on w'.file "tor_kill_switch" ≡ false)) _
        (Ends-imp _ (λ _ w' k. (λ j m. k.0 j (of_kill_switch j m), k.1))
          (λ w' k j m. k j (of_kill_switch j m))
          (disable_kill_switch-off H env w termux root iptables))
        (λ _ w1 h1.
          Ends-bind
            (λ _ w'.
              SameExcept mode_keys w.file w'.file
              × (is_on w'.file "tor_kill_switch" ≡ false)
              × (is_on w'.file "portscan_protection" ≡ false))
            _
            (Ends-imp _
              (λ _ w' k. (
                then_within portscan_keys w.file w1.file w'.file of_portscan h1.0 k.0,
                is_on-same w1.file w'.file "tor_kill_switch" (k.0 "tor_kill_switch" refl) ∙ h1.1,
                k.1,
              ))
              (λ w' k. then_within portscan_keys w.file w1.file w'.file of_portscan h1.0 k)
              (disable_portscan_protection-off H env w1 termux root iptables))
            (λ _ w2 h2.
              Ends-imp _
                (λ _ w' k. (
                  then_within sysctl_keys w.file w2.file w'.file of_sysctl h2.0 k.0,
                  is_on-same w2.file w'.file "tor_kill_switch" (k.0 "tor_kill_switch" refl) ∙ h2.1,
                  is_on-same w2.file w'.file "portscan_protection" (k.0 "portscan_protection" refl)
                      ∙ h2.2,
                  k.1,
                ))
                (λ w' k. then_within sysctl_keys w.file w2.file w'.file of_sysctl h2.0 k)
                (disable_stealth_sysctls-off H env w2 termux root sysctl)))

  -- Stopping the anonymity mode with root, iptables and sysctl, outside Termux: when it returns, the
  -- Tor kill switch, the port-scan rules and the hardened sysctls are all recorded as off, whatever
  -- was recorded before. Nothing of the state file changes but their keys and the time stamp, also
  -- where a call on the way raises.
  pub full_stop-Stopped :
      (env : Environment) (kill_apps wipe_ram : Bool) (mode : String) (w : World H)
      → env.termux ≡ false
      → env.root ≡ true
      → env.has_iptables ≡ true
      → env.has_sysctl ≡ true
      → Ends
          (λ _ w'. Stopped w.file w'.file)
          (λ w'. SameExcept mode_keys w.file w'.file)
          (full_stop H env kill_apps wipe_ram mode w)
  unfolding full_stop
  full_stop-Stopped env kill_apps wipe_ram mode w termux root iptables sysctl = simp (termux) (
      Ends-bind (λ _ w'. Stopped w.file w'.file) _
        (stop_linux-Stopped env w termux root iptables sysctl)
        (λ _ w1 h1.
          Ends-bind (λ _ w'. Stopped w.file w'.file) _
            (Ends-imp _ (λ _ _ p. p) (λ _ p. p.0)
              (KeepsFile-Ends H (Stopped w.file) _ w1 (stop_tor-KeepsFile H env) h1))
            (λ _ w2 h2.
              Ends-imp _ (λ _ _ p. p) (λ _ p. p.0)
                (KeepsFile-Ends H (Stopped w.file) _ w2 (KeepsFile-on_sys H _) h2))))
