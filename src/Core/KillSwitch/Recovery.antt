-- ===== src/Core/KillSwitch/Recovery.antt =====
-- The firewall through the Tor kill switch: enabling leaves on record a file with the IPv4 rules
-- that it replaced, and disabling gives the rules on record to iptables-restore.
use privacy_toolkit.Prelude.{
  subst, ◌==◌, ◌≢◌, eq_iff, ◌≡◌, refl, ◌∙◌, sym, ap, arith, Bool, true, false, not, ◌||◌, String,
  Option, some, none, List, [], ◌∷◌, str_eq,
}
use privacy_toolkit.Exec.{is_process_error, ◌>>=◌}
use privacy_toolkit.Exec.Ends.{Ends, Ends-imp, Ends-pure, Ends-bind, Ends-if, Ends-catch_if}
use privacy_toolkit.Host.{Host, run, run_checked}
use privacy_toolkit.State.{
  Json, Dict, get, World, StateFile, load_unlocked, load, text, null, is_set,
}
use privacy_toolkit.State.Frames.{Ends-on_sys, update-SameExcept, is_on}
use privacy_toolkit.Environment.{Environment}
use privacy_toolkit.FirewallBackup.{Argv}
use privacy_toolkit.FirewallBackup.Laws.{FirewallLaws, is_tool}
use privacy_toolkit.FirewallBackup.Tools.{AllTools, Holds, Holds-exec, run_with_tool}
use privacy_toolkit.FirewallBackup.Restore.{RolledBack, restore_rules-rolls_back}
use privacy_toolkit.FirewallBackup.Rollback.{apply_ruleset_lem}
use privacy_toolkit.Core.Ipv6.Frames.{ipv6_keys}
use privacy_toolkit.Core.Ipv6.{block_ipv6, run_all_checked, block_commands}
use privacy_toolkit.Core.KillSwitch.{
  kill_switch_rules, apply_kill_switch, end_kill_switch, disable_kill_switch, path_of, stored_path,
}
use privacy_toolkit.Core.KillSwitch.Contract.{kill_switch_keys}

path_of_saved :
    (d : Dict) {p : String} {k : String} → d k ≡ some (text p) → path_of (get d k) ≡ some p
path_of_saved d e = ap (λ o. path_of (elim o [ none ↦ null | some v ↦ v ])) e

kill_switch_rules-AllTools : AllTools kill_switch_rules
kill_switch_rules-AllTools =
    (refl, (refl, (refl, (refl, (refl, (refl, (refl, (refl, (refl, tt)))))))))

stored_path-some :
    (o : Option String) {p : String}
    → ◌≡◌ {A = Option Json} (some (stored_path o)) (some (text p))
    → o ≡ some p
stored_path-some none e = cc
stored_path-some (some q) e = cc

not-false : (b : Bool) → not b ≡ false → b ≡ true
not-false b h = ground arith

stamp_differs : (k : String) → str_eq k "last_updated" ≡ false → k ≢ "last_updated"
stamp_differs k h e = ground (arith, eq_iff k "last_updated")

block_commands-AllTools : AllTools block_commands
block_commands-AllTools = (refl, (refl, (refl, (refl, (refl, (refl, tt))))))

module _ (H : Host) (L : FirewallLaws H) where
  open L use {Rules, v4}

  -- If a backup is on record in the state file, it is the path of a file that holds the rules `r`.
  abbrev pub Recoverable : Rules → World H → Type 0
  Recoverable r w =
      (p : String)
      → load_unlocked w.file "iptables_backup" ≡ some (text p)
      → Holds H L p r w.sys × (str_eq p "" ≡ false)

  -- What is to become of the rules `r` of the backup at `p`.
  abbrev pub Back : Rules → String → World H → Type 0
  Back r p w = RolledBack H L (some p) r (v4 w.sys)

  end_kill_switch_restores :
      (env : Environment) (r : Rules) (p : String) (w : World H)
      → env.termux ≡ false
      → env.root ≡ true
      → load_unlocked w.file "iptables_backup" ≡ some (text p)
      → Recoverable r w
      → Ends (λ _ w'. Back r p w') (Back r p) (end_kill_switch H env (load_unlocked w.file) w)
  unfolding end_kill_switch
  end_kill_switch_restores env r p w termux root saved rec =
      let held = rec p saved in
      Ends-bind (λ _ w'. Back r p w') _
        (Ends-on_sys H (λ _ w'. Back r p w') (Back r p) _ w
          (rw (path_of_saved (load_unlocked w.file) saved) (
            Ends-imp _ (λ _ _ k. k) (λ _ z. absurd z)
              (restore_rules-rolls_back H L env (some p) _ r w.sys termux root
                (λ q e. let same : p ≡ q = cc in rw (sym same) held)))))
        (λ _ w1 e1.
          Ends-bind (λ _ w'. Back r p w') _
            (Ends-imp _ (λ _ w2 k. subst (λ m. RolledBack H L (some p) r (v4 m)) (sym k.2) e1)
              (λ _ e. rw e e1) (update-SameExcept H _ kill_switch_keys w1 refl))
            (λ _ w2 e2. Ends-pure e2))

  -- Disabling, with root and iptables and outside Termux, a Tor kill switch that is recorded as on, with
  -- the path of a backup on record that holds `r`: however the call ends, `r` is in force in each of its
  -- tables, or iptables-restore has exited with another code than 0 and the commands of the open default
  -- were run on what it left.
  pub disable_kill_switch_restores :
      (env : Environment) (r : Rules) (p : String) (w : World H)
      → env.termux ≡ false
      → env.root ≡ true
      → env.has_iptables ≡ true
      → is_on w.file "tor_kill_switch" ≡ true
      → load_unlocked w.file "iptables_backup" ≡ some (text p)
      → Recoverable r w
      → Ends (λ _. Back r p) (Back r p) (disable_kill_switch H env w)
  unfolding disable_kill_switch load ◌>>=◌
  disable_kill_switch_restores env r p w termux root iptables on saved rec =
      simp (termux, root, iptables, on) (end_kill_switch_restores env r p w termux root saved rec)

  -- Commands of iptables keep what each of them keeps.
  run_all_checked-keeps :
      (P : H.Sys → Type 0) (argvs : List Argv) (s : H.Sys)
      → ((argv : Argv) (s : H.Sys) → is_tool argv ≡ true → P s → P (H.exec argv "" s).1)
      → AllTools argvs
      → P s
      → Ends (λ _. P) P (run_all_checked H argvs s)
  unfolding run_all_checked run_checked run
  run_all_checked-keeps P [] s step all h = Ends-pure h
  run_all_checked-keeps P (argv ∷ rest) s step all h =
      Ends-bind (λ _. P) _
        (Ends-bind (λ _. P) _
          (Ends-imp _ (λ f s' k. rw k.0 (step argv s all.0 h)) (λ _ z. absurd z)
            (run_with_tool H L argv "" s all.0))
          (λ f s' k. Ends-if (f.returncode == 0) _ _ (λ _. Ends-pure k) (λ _. record { at = k })))
        (λ _ s' k. run_all_checked-keeps P rest s' step all.1 k)

  -- The backup on record, at the machine alone.
  abbrev RecoverableAt : Rules → StateFile → H.Sys → Type 0
  RecoverableAt r f s =
      (p : String)
      → load_unlocked f "iptables_backup" ≡ some (text p)
      → Holds H L p r s × (str_eq p "" ≡ false)

  RecoverableAt-exec :
      (r : Rules) (f : StateFile) (argv : Argv) (s : H.Sys)
      → is_tool argv ≡ true
      → RecoverableAt r f s
      → RecoverableAt r f (H.exec argv "" s).1
  RecoverableAt-exec r f argv s tool rec p saved =
      (Holds-exec H L argv "" p r s tool (rec p saved).0, (rec p saved).1)

  -- Blocking IPv6 keeps what is on record recoverable.
  block_ipv6-Recoverable :
      (env : Environment) (r : Rules) (w : World H)
      → Recoverable r w
      → Ends (λ _. Recoverable r) (Recoverable r) (block_ipv6 H env w)
  unfolding block_ipv6 load
  block_ipv6-Recoverable env r w rec =
      Ends-if (env.termux || not env.root || not env.has_ip6tables) _ _ (λ _. Ends-pure rec)
        (λ _.
          Ends-bind (λ _ w'. w' ≡ w) (load H) (Ends-pure refl)
            (λ st w1 e. rw e (
              Ends-if (is_set st "ipv6_blocked") _ _ (λ _. Ends-pure rec)
                (λ _.
                  Ends-catch_if is_process_error _
                    (Ends-bind (λ _. Recoverable r) _
                      (Ends-on_sys H (λ _. Recoverable r) (Recoverable r) _ w
                        (run_all_checked-keeps (RecoverableAt r w.file) block_commands w.sys
                          (RecoverableAt-exec r w.file) block_commands-AllTools rec))
                      (λ _ w2 rec2.
                        Ends-bind (λ _. Recoverable r) _
                          (Ends-imp _
                            (λ _ w3 u p saved.
                              rw u.2 (rec2 p (sym (u.0 "iptables_backup" refl) ∙ saved)))
                            (λ _ e. rw e rec2) (update-SameExcept H _ ipv6_keys w2 refl))
                          (λ _ w3 rec3. Ends-pure rec3)))
                    (λ w' k. Ends-pure k)))))

  -- Applying the Tor kill switch with root, outside Termux: where it answers true, a backup path that
  -- is then in the state file is a file that holds the IPv4 rules that were in force when it began.
  pub apply_kill_switch-Recoverable :
      (env : Environment) (w : World H)
      → env.termux ≡ false
      → env.root ≡ true
      → Ends
          (λ b w'. b ≡ true → Recoverable (v4 w.sys) w')
          (λ _. Unit {0})
          (apply_kill_switch H env w)
  unfolding apply_kill_switch
  apply_kill_switch-Recoverable env w termux root =
      Ends-bind
        (λ applied w1.
          (p : String)
          → applied.1.ipv4 ≡ some p
          → applied.0 ≡ true
          → Holds H L p (v4 w.sys) w1.sys × (str_eq p "" ≡ false))
        _
        (Ends-imp _ (λ _ _ k. k) (λ _ z. tt)
          (Ends-on_sys H
            (λ applied w1.
              (p : String)
              → applied.1.ipv4 ≡ some p
              → applied.0 ≡ true
              → Holds H L p (v4 w.sys) w1.sys × (str_eq p "" ≡ false))
            (λ _. ⊥) _ w
            (Ends-imp _ (λ res s' k p e good. k.1 good p e) (λ _ z. z)
              (apply_ruleset_lem H L env kill_switch_rules "pre-tor-killswitch" [] w.sys termux root
                kill_switch_rules-AllTools))))
        (λ applied w1 k.
          Ends-if (not applied.0) _ _ (λ _. Ends-pure (λ z. cc))
            (λ good.
              Ends-bind (λ _. Recoverable (v4 w.sys)) _
                (Ends-imp _
                  (λ _ w2 u p saved.
                    let o = stored_path-some applied.1.ipv4 (
                      sym (u.1 "iptables_backup" (stamp_differs "iptables_backup" refl)) ∙ saved) in
                    rw u.2 (k p o (not-false applied.0 good)))
                  (λ _ z. tt) (update-SameExcept H _ kill_switch_keys w1 refl))
                (λ _ w2 rec.
                  Ends-bind (λ _. Recoverable (v4 w.sys)) _
                    (Ends-imp _ (λ _ _ r. r) (λ _ _. tt)
                      (block_ipv6-Recoverable env (v4 w.sys) w2 rec))
                    (λ _ w3 rec3. Ends-pure (λ _. rec3)))))
