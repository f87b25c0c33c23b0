-- ===== src/Exclusion/OverGateway.antt =====
-- The Tor kill switch beside gateway mode, which it does not look at.
use privacy_toolkit.Prelude.{ℕ, ◌≡◌, refl, ◌∙◌, Bool, true, false}
use privacy_toolkit.Exec.Ends.{Ends, Ends-imp, Ends-and}
use privacy_toolkit.Host.{Host}
use privacy_toolkit.State.{World}
use privacy_toolkit.State.Frames.{is_on, is_on-same}
use privacy_toolkit.Environment.{Environment}
use privacy_toolkit.Core.{enable_kill_switch}
use privacy_toolkit.Core.KillSwitch.Contract.{enable_kill_switch-Switched}
use privacy_toolkit.Core.KillSwitch.Starts.{Healthy, enable_kill_switch_starts}

module _ (H : Host) (N : Healthy H) where
  -- On a machine on which every program exits with 0, files can be read and written, the state file
  -- too, and Tor is reachable, with root, iptables and Tor, outside Termux, with the proxy kill
  -- switch not recorded as on and gateway mode recorded as active: `enable_kill_switch`, forced or
  -- not, does not decline. It returns and answers true, and both the Tor switch and gateway mode
  -- are then recorded as on.
  pub enable_kill_switch_over_gateway :
      (env : Environment) (force : Bool) (timeout : ℕ) (w : World H)
      → env.termux ≡ false
      → env.root ≡ true
      → env.has_iptables ≡ true
      → env.has_tor ≡ true
      → is_on w.file "proxy_only_kill_switch" ≡ false
      → is_on w.file "gateway_mode_active" ≡ true
      → Ends
          (λ b w'.
            (b ≡ true)
            × (is_on w'.file "tor_kill_switch" ≡ true)
            × (is_on w'.file "gateway_mode_active" ≡ true))
          (λ _. ⊥)
          (enable_kill_switch H env force timeout w)
  enable_kill_switch_over_gateway env force timeout w termux root iptables has_tor proxy gate =
      Ends-imp _
        (λ _ w' k.
          (k.0, k.1.1 k.0, is_on-same w.file w'.file "gateway_mode_active" (k.1.0 _ refl) ∙ gate))
        (λ _ z. z.0)
        (Ends-and _
          (enable_kill_switch_starts H N env force timeout w termux root iptables has_tor proxy)
          (enable_kill_switch-Switched H env force timeout w))
