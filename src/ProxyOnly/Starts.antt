-- ===== src/ProxyOnly/Starts.antt =====
-- `enable_proxy_kill_switch` of privacyguard/proxy_only.py on a machine on which nothing fails.
use privacy_toolkit.Prelude.{ℕ, ◌≡◌, refl, Bool, true, false, not, ◌&&◌, String, some}
use privacy_toolkit.Exec.{◌>>=◌}
use privacy_toolkit.Exec.Ends.{Ends, Ends-pure, Ends-if}
use privacy_toolkit.Exec.Gives.{Gives, Returns, Gives-bind, Gives-pure, Returns-pure}
use privacy_toolkit.Host.{Host}
use privacy_toolkit.State.{World, load, on_sys}
use privacy_toolkit.State.Frames.{is_on}
use privacy_toolkit.Environment.{Environment}
use privacy_toolkit.Core.KillSwitch.Starts.{
  Healthy, run-Gives, on_sys-Gives, on_sys-Returns, update-Returns, write_text-Returns,
  block_ipv6-Returns, apply_ruleset-Gives,
}
use privacy_toolkit.ProxyOnly.{
  Proxy, proxy_rules, generate_redsocks_conf, start_redsocks, proxy_reachable,
  apply_proxy_kill_switch, start_proxy_kill_switch, admit_proxy_kill_switch,
  enable_proxy_kill_switch,
}

-- redsocks is installed, and every proxy accepts a connection.
pub record Proxied (H : Host) : Type 0 where
  pub has_redsocks : (s : H.Sys) → H.which "redsocks" s ≡ true
  pub accepts : (host : String) (port : ℕ) (s : H.Sys) → (H.connects host port s).0 ≡ some true

module _ (H : Host) (N : Healthy H) where
  start_redsocks-Returns : Returns (start_redsocks H)
  unfolding start_redsocks
  start_redsocks-Returns =
      Gives-bind (λ f. f.returncode ≡ 0) (λ _. Unit {0}) _ _ (run-Gives H N _)
        (λ f zero. rw zero (Returns-pure tt))

  generate_redsocks_conf-Returns : (p : Proxy) → Returns (generate_redsocks_conf H p)
  unfolding generate_redsocks_conf
  generate_redsocks_conf-Returns p = write_text-Returns H N _ _

  apply_proxy_kill_switch-Gives :
      (env : Environment) (p : Proxy) → Gives (λ b. b ≡ true) (apply_proxy_kill_switch H env p)
  unfolding apply_proxy_kill_switch
  apply_proxy_kill_switch-Gives env p =
      Gives-bind (λ r. r.0 ≡ true) (λ b. b ≡ true) _ _
        (on_sys-Gives H N (λ r. r.0 ≡ true) _
          (apply_ruleset-Gives H N env proxy_rules "pre-proxy-killswitch" _))
        (λ applied e. rw e (
          Gives-bind (λ _. Unit {0}) (λ b. b ≡ true) _ _ (update-Returns H N _)
            (λ _ _.
              Gives-bind (λ _. Unit {0}) (λ b. b ≡ true) _ _ (block_ipv6-Returns H N env)
                (λ _ _. Gives-pure (λ b. b ≡ true) true refl))))

  start_proxy_kill_switch-Gives :
      (env : Environment) (p : Proxy) → Gives (λ b. b ≡ true) (start_proxy_kill_switch H env p)
  unfolding start_proxy_kill_switch
  start_proxy_kill_switch-Gives env p =
      Gives-bind (λ _. Unit {0}) (λ b. b ≡ true) _ _
        (on_sys-Returns H N _ (generate_redsocks_conf-Returns p))
        (λ _ _.
          Gives-bind (λ _. Unit {0}) (λ b. b ≡ true) _ _
            (on_sys-Returns H N _ start_redsocks-Returns)
            (λ _ _. apply_proxy_kill_switch-Gives env p))

  admit-starts :
      (env : Environment) (p : Proxy) (force : Bool) (w : World H)
      → is_on w.file "tor_kill_switch" ≡ false
      → Ends (λ b _. b ≡ true) (λ _. ⊥) (admit_proxy_kill_switch H env p force w)
  unfolding admit_proxy_kill_switch load ◌>>=◌
  admit-starts env p force w tor =
      Ends-if (is_on w.file "proxy_only_kill_switch" && not force) _ _ (λ _. Ends-pure refl)
        (λ _. rw tor ((start_proxy_kill_switch-Gives env p).at w))

  pub enable_proxy_kill_switch_starts :
      (P : Proxied H) (env : Environment) (p : Proxy) (force : Bool) (w : World H)
      → env.termux ≡ false
      → env.root ≡ true
      → env.has_iptables ≡ true
      → is_on w.file "tor_kill_switch" ≡ false
      → Ends (λ b _. b ≡ true) (λ _. ⊥) (enable_proxy_kill_switch H env p force w)
  unfolding enable_proxy_kill_switch proxy_reachable on_sys ◌>>=◌
  enable_proxy_kill_switch_starts P env p force w termux root iptables tor =
      simp (termux, root, iptables, P.has_redsocks w.sys, P.accepts p.host p.port w.sys)
        (admit-starts env p force (record w { sys = (H.connects p.host p.port w.sys).1 }) tor)
