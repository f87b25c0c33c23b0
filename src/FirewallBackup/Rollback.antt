-- ===== src/FirewallBackup/Rollback.antt =====
-- `apply_ruleset` against the laws of iptables: what a rule set that is not accepted as a whole
-- leaves, and how the rules are run.
use privacy_toolkit.Prelude.{
  ◌==◌, ◌&&◌, ◌||◌, String, ◌≡◌, Bool, true, false, List, [], ◌∷◌, Option, some, str_eq,
}
use privacy_toolkit.Exec.Ends.{Ends, Ends-imp, Ends-pure, Ends-if, Ends-bind}
use privacy_toolkit.Text.{strip}
use privacy_toolkit.Host.{Reply, exited, Host, run}
use privacy_toolkit.Environment.{Environment}
use privacy_toolkit.FirewallBackup.{tolerated, Argv, apply_rules, apply_ruleset}
use privacy_toolkit.FirewallBackup.Laws.{FirewallLaws}
use privacy_toolkit.FirewallBackup.Backup.{backup_rules_lem}
use privacy_toolkit.FirewallBackup.Tools.{AllTools, Holds, Holds-exec, run_with_tool}
use privacy_toolkit.FirewallBackup.Restore.{restore_rules-rolls_back, RolledBack}

module _ (H : Host) (L : FirewallLaws H) where
  open L use {Rules, v4, dump}

  pub apply_rules-Holds :
      (rules : List Argv) (tolerate : List String) (sofar : Bool) (path : Option String) (r : Rules)
      (s : H.Sys)
      → AllTools rules
      → ((p : String) → path ≡ some p → Holds H L p r s)
      → Ends
          (λ _ s'. (p : String) → path ≡ some p → Holds H L p r s')
          (λ _. ⊥)
          (apply_rules H rules tolerate sofar s)
  unfolding apply_rules run
  apply_rules-Holds [] tolerate sofar path r s all h = Ends-pure h
  apply_rules-Holds (rule ∷ rules) tolerate sofar path r s all h =
      Ends-bind (λ _ s'. (p : String) → path ≡ some p → Holds H L p r s') _
        (Ends-imp _ (λ f s' e p ep. rw e.0 (Holds-exec H L rule "" p r s all.0 (h p ep))) (λ _ e. e)
          (run_with_tool H L rule "" s all.0))
        (λ f s' k. apply_rules-Holds rules tolerate _ path r s' all.1 k)

  pub apply_ruleset_lem :
      (env : Environment) (rules : List Argv) (label : String) (tolerate : List String) (s : H.Sys)
      → env.termux ≡ false
      → env.root ≡ true
      → AllTools rules
      → Ends
          (λ res s'.
            (res.0 ≡ false → RolledBack H L res.1.ipv4 (v4 s) (v4 s'))
            × (res.0 ≡ true
                → (p : String) → res.1.ipv4 ≡ some p
                → Holds H L p (v4 s) s' × (str_eq p "" ≡ false)))
          (λ _. ⊥)
          (apply_ruleset H env rules label tolerate s)
  unfolding apply_ruleset
  apply_ruleset_lem env rules label tolerate s termux root all =
      Ends-bind
        (λ b s'.
          (v4 s' ≡ v4 s)
          × ((p : String) → b.ipv4 ≡ some p → Holds H L p (v4 s) s' × (str_eq p "" ≡ false)))
        _ (backup_rules_lem H L env label s termux root)
        (λ b s1 k.
          Ends-bind (λ _ s'. (p : String) → b.ipv4 ≡ some p → Holds H L p (v4 s) s') _
            (apply_rules-Holds rules tolerate true b.ipv4 (v4 s) s1 all (λ p e. (k.1 p e).0))
            (λ good s2 held.
              Ends-if good _ _ (λ went. Ends-pure (λ bad. cc, λ _ p e. (held p e, (k.1 p e).1)))
                (λ bad.
                  Ends-bind (λ _ s'. RolledBack H L b.ipv4 (v4 s) (v4 s')) _
                    (restore_rules-rolls_back H L env b.ipv4 b.ipv6 (v4 s) s2 termux root
                      (λ p e. (held p e, (k.1 p e).1)))
                    (λ _ s3 back. Ends-pure (λ _. back, λ good. cc)))))

  abbrev pub accepts : List String → Reply → Bool
  accepts tolerate (exited code out err) = code == 0 || tolerated tolerate (strip err)
  accepts tolerate Reply.missing = false
  accepts tolerate Reply.late = false

  -- Each rule exits with 0, or with an error that is tolerated, where it is run.
  abbrev pub all_accepted : List String → List Argv → H.Sys → Bool
  all_accepted tolerate [] s = true
  all_accepted tolerate (rule ∷ rules) s =
      accepts tolerate (H.exec rule "" s).0 && all_accepted tolerate rules (H.exec rule "" s).1
