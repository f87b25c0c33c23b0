-- ===== src/Gui/Race.antt =====
-- Two threads of the window that overlap: the Tor kill switch and the proxy kill switch, enabled one
-- directly after the other. Each call looks at the state file first, and records itself last.
use privacy_toolkit.Prelude.{ℕ, ◌≡◌, refl, ◌∙◌, Bool, true, false, not, ◌||◌, ◌&&◌, if◌then◌else◌}
use privacy_toolkit.Exec.{Exec, pure, ◌>>=◌, ◌>>◌}
use privacy_toolkit.Exec.Ends.{Ends, Ends-imp, Ends-and, Ends-pure, Ends-bind}
use privacy_toolkit.Host.{Host}
use privacy_toolkit.State.{World, load, load_unlocked, is_set}
use privacy_toolkit.State.Frames.{is_on, is_on-same}
use privacy_toolkit.Environment.{Environment}
use privacy_toolkit.Core.{enable_kill_switch}
use privacy_toolkit.Core.KillSwitch.{start_kill_switch}
use privacy_toolkit.Core.KillSwitch.Contract.{start_kill_switch-Switched}
use privacy_toolkit.Core.KillSwitch.Starts.{Healthy, start_kill_switch-Gives}
use privacy_toolkit.ProxyOnly.{Proxy, enable_proxy_kill_switch}
use privacy_toolkit.ProxyOnly.Contract.{enable_proxy_kill_switch-Switched}
use privacy_toolkit.ProxyOnly.Starts.{Proxied, enable_proxy_kill_switch_starts}

module _ (H : Host) where
  -- `enable_kill_switch`, where another thread gets its turn directly after `st = statemod.load()`.
  unfoldable pub interrupted :
      {B : Type 0} → Exec (World H) B → Environment → Bool → ℕ → Exec (World H) Bool
  interrupted other env force bootstrap_timeout =
      if env.termux
      then pure false
      else if not env.root || not env.has_iptables
      then pure false
      else if not env.has_tor
      then pure false
      else do
        st ← load H
        other
        if is_set st "tor_kill_switch" && not force
            then pure true
            else if is_set st "proxy_only_kill_switch"
            then pure false
            else start_kill_switch H env bootstrap_timeout

  -- With no other thread it is `enable_kill_switch`.
  interrupted_by_none :
      (env : Environment) (force : Bool) (timeout : ℕ)
      → interrupted (pure tt) env force timeout ≡ enable_kill_switch H env force timeout
  unfolding interrupted enable_kill_switch load ◌>>=◌
  interrupted_by_none env force timeout = refl

  module _ (N : Healthy H) (P : Proxied H) where
    -- Directly after the load, with both switches off in the state that was loaded.
    started :
        (env : Environment) (timeout : ℕ) (w : World H)
        → is_on w.file "proxy_only_kill_switch" ≡ true
        → Ends
            (λ b w'.
              (b ≡ true)
              × (is_on w'.file "tor_kill_switch" ≡ true)
              × (is_on w'.file "proxy_only_kill_switch" ≡ true))
            (λ _. ⊥)
            (start_kill_switch H env timeout w)
    started env timeout w on =
        Ends-imp _
          (λ _ w' k. (
            k.0,
            k.1.1 k.0,
            is_on-same w.file w'.file "proxy_only_kill_switch" (k.1.0 _ refl) ∙ on,
          ))
          (λ _ z. z.0)
          (Ends-and _ ((start_kill_switch-Gives H N env timeout).at w)
            (start_kill_switch-Switched H env timeout w.file w refl))

    recorded :
        (env : Environment) (p : Proxy) (force : Bool) (w : World H)
        → env.termux ≡ false
        → env.root ≡ true
        → env.has_iptables ≡ true
        → is_on w.file "tor_kill_switch" ≡ false
        → Ends
            (λ _ w'. is_on w'.file "proxy_only_kill_switch" ≡ true)
            (λ _. ⊥)
            (enable_proxy_kill_switch H env p force w)
    recorded env p force w termux root iptables tor =
        Ends-imp _ (λ _ w' k. k.1.1 k.0) (λ _ z. z.0)
          (Ends-and _ (enable_proxy_kill_switch_starts H N P env p force w termux root iptables tor)
            (enable_proxy_kill_switch-Switched H env p force w))

    -- A machine on which every program exits with 0, files can be read and written, the state file
    -- too, Tor is reachable, redsocks is installed and the proxy accepts connections, with root,
    -- iptables and Tor, outside Termux, and both switches off. `enable_kill_switch` loads the
    -- state; then the other thread's whole call of `enable_proxy_kill_switch` runs; then
    -- `enable_kill_switch` goes on. It returns and answers true, and both switches are recorded as
    -- on.
    pub enable_kill_switch_races :
        (env : Environment) (p : Proxy) (force force' : Bool) (timeout : ℕ) (w : World H)
        → env.termux ≡ false
        → env.root ≡ true
        → env.has_iptables ≡ true
        → env.has_tor ≡ true
        → is_on w.file "tor_kill_switch" ≡ false
        → is_on w.file "proxy_only_kill_switch" ≡ false
        → Ends
            (λ b w'.
              (b ≡ true)
              × (is_on w'.file "tor_kill_switch" ≡ true)
              × (is_on w'.file "proxy_only_kill_switch" ≡ true))
            (λ _. ⊥)
            (interrupted (enable_proxy_kill_switch H env p force') env force timeout w)
    unfolding interrupted load
    enable_kill_switch_races env p force force' timeout w termux root iptables has_tor tor proxy =
        simp (termux, root, iptables, has_tor)
          (Ends-bind (λ st w'. (st ≡ load_unlocked w.file) × (w' ≡ w)) _ (Ends-pure (refl, refl))
            (λ st w1 e.
              rw (e.0, e.1)
                (Ends-bind (λ _ w'. is_on w'.file "proxy_only_kill_switch" ≡ true) _
                  (recorded env p force' w termux root iptables tor)
                  (λ _ w2 on. rw (tor, proxy) (started env timeout w2 on)))))
