-- ===== src/Filter/FailClosed.antt =====
-- The tables of the packet filter after `enable_kill_switch` of privacyguard/core.py and
-- `enable_gateway` of privacyguard/gateway.py.
use privacy_toolkit.Prelude.{
  ℕ, ◌≡◌, refl, sym, subst, arith, String, Bool, true, false, not, ◌&&◌, ◌||◌, Option, List, [],
}
use privacy_toolkit.Exec.{Exec, ◌>>=◌}
use privacy_toolkit.Exec.Ends.{
  Ends, Ends-any, Ends-imp, Ends-pure, Ends-if, Ends-bind, Ends-of_state,
}
use privacy_toolkit.Host.{Host}
use privacy_toolkit.State.{World, load, on_sys}
use privacy_toolkit.State.Frames.{is_on, Ends-on_sys}
use privacy_toolkit.Environment.{Environment}
use privacy_toolkit.FirewallBackup.{Argv, apply_ruleset}
use privacy_toolkit.Core.KillSwitch.{
  kill_switch_rules, apply_kill_switch, start_kill_switch, enable_kill_switch,
}
use privacy_toolkit.Gateway.{gateway_rules, apply_gateway, start_gateway, enable_gateway}
use privacy_toolkit.Filter.{Tables, replay, AllEdits, FilterLaws, Packets}
use privacy_toolkit.Filter.Untouched.{
  Untouched, update-Untouched, block_ipv6-Untouched, lock_forward6-Untouched,
}
use privacy_toolkit.Filter.Verdicts.{
  kill_switch_rules-AllEdits, gateway_rules-AllEdits, kill_switch_rules-FailClosed,
  kill_switch_rules-Redirected, gateway_rules-FailClosed, gateway_rules-NeverForwards, FailClosed,
  Redirected, NeverForwards,
}
use privacy_toolkit.Filter.Replay.{apply_ruleset-replay}

not-false : (b : Bool) → not b ≡ false → b ≡ true
not-false b h = ground arith

module _ (H : Host) (L : FilterLaws H) where
  open L use {tables}

  -- Where a rule set is answered with true, what follows from its rules holds of the tables.
  apply_ruleset_lem :
      (P : Tables → Type 0) (env : Environment) (rules : List Argv) (label : String) (w : World H)
      → AllEdits rules
      → ((t : Tables) → P (replay rules t))
      → Ends
          (λ res w'. res.0 ≡ true → P (tables w'.sys))
          (λ _. Unit {0})
          (on_sys H (apply_ruleset H env rules label []) w)
  apply_ruleset_lem P env rules label w all holds =
      Ends-on_sys H (λ res w'. res.0 ≡ true → P (tables w'.sys)) (λ _. Unit {0}) _ w
        (Ends-imp _ (λ res s k b. let (t, now) = k b in subst P (sym now) (holds t)) (λ _ _. tt)
          (apply_ruleset-replay H L env rules label w.sys all))

  module _ (P : Tables → Type 0) where
    abbrev Holds : World H → Type 0
    Holds w = P (tables w.sys)

    abbrev WhenTrue : Bool → World H → Type 0
    WhenTrue b w = b ≡ true → Holds w

    -- A call that leaves the tables alone.
    stays :
        {A : Type 0} (m : Exec (World H) A) (w : World H)
        → Untouched H L (tables w.sys) m
        → Holds w
        → Ends (λ _. Holds) (λ _. Unit {0}) (m w)
    stays m w k h =
        Ends-imp _ (λ _ _ z. z) (λ _ _. tt)
          (Ends-of_state {P = Holds} (m w) (subst P (sym (k.at w refl)) h))

    pub apply_kill_switch_holds :
        (env : Environment) (w : World H)
        → ((t : Tables) → P (replay kill_switch_rules t))
        → Ends WhenTrue (λ _. Unit {0}) (apply_kill_switch H env w)
    unfolding apply_kill_switch
    apply_kill_switch_holds env w holds =
        Ends-bind (λ res w'. WhenTrue res.0 w') _
          (apply_ruleset_lem P env kill_switch_rules _ w kill_switch_rules-AllEdits holds)
          (λ applied w1 k.
            Ends-if (not applied.0) _ _ (λ _. Ends-pure (λ z. cc))
              (λ good.
                Ends-bind (λ _. Holds) _
                  (stays _ w1 (update-Untouched H L _ _) (k (not-false applied.0 good)))
                  (λ _ w2 h2.
                    Ends-bind (λ _. Holds) _ (stays _ w2 (block_ipv6-Untouched H L _ env) h2)
                      (λ _ w3 h3. Ends-pure (λ _. h3)))))

    start_kill_switch_holds :
        (env : Environment) (timeout : ℕ) (w : World H)
        → ((t : Tables) → P (replay kill_switch_rules t))
        → Ends WhenTrue (λ _. Unit {0}) (start_kill_switch H env timeout w)
    unfolding start_kill_switch
    start_kill_switch_holds env timeout w holds =
        Ends-bind (λ _ _. Unit {0}) _ (Ends-any _)
          (λ changed w1 _.
            Ends-bind (λ _ _. Unit {0}) _ (Ends-any _)
              (λ _ w2 _.
                Ends-bind (λ _ _. Unit {0}) _ (Ends-any _)
                  (λ up w3 _.
                    Ends-if up _ _ (λ _. apply_kill_switch_holds env w3 holds)
                      (λ _. Ends-pure (λ z. cc)))))

    pub enable_kill_switch_holds :
        (env : Environment) (force : Bool) (timeout : ℕ) (w : World H)
        → ((t : Tables) → P (replay kill_switch_rules t))
        → (is_on w.file "tor_kill_switch" && not force) ≡ false
        → Ends WhenTrue (λ _. Unit {0}) (enable_kill_switch H env force timeout w)
    unfolding enable_kill_switch load ◌>>=◌
    enable_kill_switch_holds env force timeout w holds fresh =
        Ends-if env.termux _ _ (λ _. Ends-pure (λ z. cc))
          (λ _.
            Ends-if (not env.root || not env.has_iptables) _ _ (λ _. Ends-pure (λ z. cc))
              (λ _.
                Ends-if (not env.has_tor) _ _ (λ _. Ends-pure (λ z. cc))
                  (λ _.
                    Ends-if (is_on w.file "tor_kill_switch" && not force) _ _ (λ on. cc)
                      (λ _.
                        Ends-if (is_on w.file "proxy_only_kill_switch") _ _
                          (λ _. Ends-pure (λ z. cc))
                          (λ _. start_kill_switch_holds env timeout w holds)))))

    apply_gateway_holds :
        (env : Environment) (iface ip : String) (external : Option String) (w : World H)
        → ((t : Tables) → P (replay (gateway_rules iface) t))
        → Ends WhenTrue (λ _. Unit {0}) (apply_gateway H env iface ip external w)
    unfolding apply_gateway
    apply_gateway_holds env iface ip external w holds =
        Ends-bind (λ res w'. WhenTrue res.0 w') _
          (apply_ruleset_lem P env (gateway_rules iface) _ w (gateway_rules-AllEdits iface) holds)
          (λ applied w1 k.
            Ends-if (not applied.0) _ _ (λ _. Ends-pure (λ z. cc))
              (λ good.
                Ends-bind (λ _. Holds) _
                  (stays _ w1 (lock_forward6-Untouched H L _ env) (k (not-false applied.0 good)))
                  (λ _ w2 h2.
                    Ends-bind (λ _. Holds) _ (stays _ w2 (update-Untouched H L _ _) h2)
                      (λ _ w3 h3.
                        Ends-bind (λ _. Holds) _ (stays _ w3 (block_ipv6-Untouched H L _ env) h3)
                          (λ _ w4 h4. Ends-pure (λ _. h4))))))

    start_gateway_holds :
        (env : Environment) (iface ip : String) (external : Option String) (w : World H)
        → ((t : Tables) → P (replay (gateway_rules iface) t))
        → Ends WhenTrue (λ _. Unit {0}) (start_gateway H env iface ip external w)
    unfolding start_gateway
    start_gateway_holds env iface ip external w holds =
        Ends-bind (λ _ _. Unit {0}) _ (Ends-any _)
          (λ _ w1 _. apply_gateway_holds env iface ip external w1 holds)

    enable_gateway_holds :
        (env : Environment) (iface ip : String) (external : Option String) (force : Bool)
        (w : World H)
        → ((t : Tables) → P (replay (gateway_rules iface) t))
        → (is_on w.file "gateway_mode_active" && not force) ≡ false
        → Ends WhenTrue (λ _. Unit {0}) (enable_gateway H env iface ip external force w)
    unfolding enable_gateway load ◌>>=◌
    enable_gateway_holds env iface ip external force w holds fresh =
        Ends-if env.termux _ _ (λ _. Ends-pure (λ z. cc))
          (λ _.
            Ends-if (not env.root || not env.has_iptables) _ _ (λ _. Ends-pure (λ z. cc))
              (λ _.
                Ends-if (not env.has_tor) _ _ (λ _. Ends-pure (λ z. cc))
                  (λ _.
                    Ends-if (is_on w.file "gateway_mode_active" && not force) _ _ (λ on. cc)
                      (λ _.
                        Ends-if
                          (is_on w.file "tor_kill_switch" || is_on w.file "proxy_only_kill_switch")
                          _ _ (λ _. Ends-pure (λ z. cc))
                          (λ _. start_gateway_holds env iface ip external w holds)))))

  -- Enabling the Tor kill switch, forced or where it is not recorded as on, on a machine whose
  -- iptables does what it documents. Whenever the call answers true, whatever rules and policies
  -- were in force before: the chain `OUTPUT` lets out only packets to loopback, of Tor's user, of an
  -- established connection or to port 9040, and drops every other; and the `nat` table sends each
  -- new TCP connection to port 9040, Tor's own too, and each other UDP query for DNS to port 5353.
  pub enable_kill_switch-FailClosed :
      (K : Packets) (env : Environment) (force : Bool) (timeout : ℕ) (w : World H)
      → (is_on w.file "tor_kill_switch" && not force) ≡ false
      → Ends
          (λ b w'. b ≡ true → FailClosed K (tables w'.sys) × Redirected K (tables w'.sys))
          (λ _. Unit {0})
          (enable_kill_switch H env force timeout w)
  enable_kill_switch-FailClosed K env force timeout w fresh =
      enable_kill_switch_holds (λ t. FailClosed K t × Redirected K t) env force timeout w
        (λ t. (kill_switch_rules-FailClosed K t, kill_switch_rules-Redirected K t)) fresh

  -- Enabling gateway mode, forced or where it is not recorded as active, on such a machine. Whenever
  -- the call answers true: no packet is forwarded, whatever the rules and the policies were before,
  -- and of the machine's own packets only those leave that the Tor kill switch lets out.
  pub enable_gateway-NeverForwards :
      (K : Packets) (env : Environment) (iface ip : String) (external : Option String)
      (force : Bool) (w : World H)
      → (is_on w.file "gateway_mode_active" && not force) ≡ false
      → Ends
          (λ b w'. b ≡ true → NeverForwards K (tables w'.sys) × FailClosed K (tables w'.sys))
          (λ _. Unit {0})
          (enable_gateway H env iface ip external force w)
  enable_gateway-NeverForwards K env iface ip external force w fresh =
      enable_gateway_holds (λ t. NeverForwards K t × FailClosed K t) env iface ip external force w
        (λ t. (gateway_rules-NeverForwards K iface t, gateway_rules-FailClosed K iface t)) fresh
