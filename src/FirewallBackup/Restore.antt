-- ===== src/FirewallBackup/Restore.antt =====
-- Restoring a backup against the laws of iptables: it returns, and then the tables of the backup are in
-- force, or iptables-restore has refused them and the open default is.
use privacy_toolkit.Prelude.{
  ℕ, String, ◌≡◌, refl, sym, ap, subst, ◌∙◌, true, false, List, [], ◌∷◌, Option, none, some, arith,
  str_eq, ◌==◌, ◌⊎◌, inl, inr,
}
use privacy_toolkit.Exec.Ends.{Ends, Ends-imp, Ends-pure, Ends-if, Ends-catch_all, Ends-bind}
use privacy_toolkit.Host.{Host, Reply, exited, run, run_checked_with, read_text}
use privacy_toolkit.Environment.{Environment}
use privacy_toolkit.FirewallBackup.{
  Argv, run_each, open_commands4, open_default_v4, restore_family, restore_v4, restore_v6,
  restore_rules,
}
use privacy_toolkit.FirewallBackup.Laws.{FirewallLaws}
use privacy_toolkit.FirewallBackup.Tools.{AllTools, Holds, run_with_tool, restore_v6-v4}

module _ (H : Host) (L : FirewallLaws H) where
  open L use {Rules, Chains, table, v4, dump}

  read_text-Holds :
      (path : String) (r : Rules) (s : H.Sys)
      → Holds H L path r s
      → Ends (λ text s'. (text ≡ dump r) × (s' ≡ s)) (λ _. ⊥) (read_text H path s)
  unfolding read_text
  read_text-Holds path r s h = rw (h.0) (Ends-pure (refl, refl))

  -- The machine after commands have been run one after the other.
  abbrev pub after_all : List Argv → H.Sys → H.Sys
  after_all [] s = s
  after_all (rule ∷ rules) s = after_all rules (H.exec rule "" s).1

  run_each_lem :
      (argvs : List Argv) (s : H.Sys)
      → AllTools argvs
      → Ends (λ _ s'. s' ≡ after_all argvs s) (λ _. ⊥) (run_each H argvs s)
  unfolding run_each run
  run_each_lem [] s all = Ends-pure refl
  run_each_lem (argv ∷ rest) s all =
      Ends-bind (λ _ s'. s' ≡ (H.exec argv "" s).1) _
        (Ends-imp _ (λ _ _ k. k.0) (λ _ k. k) (run_with_tool H L argv "" s all.0))
        (λ _ s' k.
          Ends-imp _ (λ _ _ e. e ∙ ap (after_all rest) k) (λ _ z. z) (run_each_lem rest s' all.1))

  open_default_v4_lem :
      (s : H.Sys) → Ends (λ _ s'. s' ≡ after_all open_commands4 s) (λ _. ⊥) (open_default_v4 H s)
  unfolding open_default_v4
  open_default_v4_lem s = run_each_lem open_commands4 s (refl, (refl, (refl, (refl, (refl, tt)))))

  -- iptables-restore, given the rule set `r` on the machine `m`.
  abbrev pub restored : Rules → H.Sys → Reply × H.Sys
  restored r m = H.exec ("iptables-restore" ∷ []) (dump r) m

  -- Every table of `r` is in force.
  abbrev pub InForce : Rules → Rules → Type 0
  InForce r now = (t : String) (c : Chains) → table r t ≡ some c → table now t ≡ some c

  -- The machine is as iptables-restore has left it, with an exit code that is not 0.
  abbrev pub RefusedBy : Rules → H.Sys → Type 0
  RefusedBy r s =
      (m : H.Sys) × (code : ℕ) × (out : String) × (err : String) × ((restored r m).0
        ≡ exited code out err)
      × ((code == 0) ≡ false)
      × (s ≡ (restored r m).1)

  -- The rules are those that the five commands of the open default leave of some machine.
  abbrev pub OpenedFrom : (H.Sys → Type 0) → Rules → Type 0
  OpenedFrom P now = (s : H.Sys) × P s × (now ≡ v4 (after_all open_commands4 s))

  -- What restoring comes to where a backup of `r` is on disk, and where there is none.
  abbrev pub RolledBack : Option String → Rules → Rules → Type 0
  RolledBack none r now = OpenedFrom (λ _. Unit {0}) now
  RolledBack (some _) r now = InForce r now ⊎ OpenedFrom (RefusedBy r) now

  is_zero : (n : ℕ) → (n == 0) ≡ true → n ≡ 0
  is_zero n h = ground arith

  run_restore4 :
      (r : Rules) (s : H.Sys)
      → Ends
          (λ _ s'. InForce r (v4 s'))
          (RefusedBy r)
          (run_checked_with H ("iptables-restore" ∷ []) (dump r) s)
  unfolding run_checked_with
  run_restore4 r s =
      Ends-bind
        (λ f s'.
          (s' ≡ (restored r s).1) × ((restored r s).0 ≡ exited f.returncode f.stdout f.stderr))
        _
        (Ends-imp _ (λ _ _ k. k) (λ _ z. absurd z)
          (run_with_tool H L ("iptables-restore" ∷ []) (dump r) s refl))
        (λ f s' k.
          Ends-if (f.returncode == 0) _ _
            (λ zero. Ends-pure (λ t c e. rw k.0 (
              L.restore4 r s t c
                (k.1 ∙ ap (λ n. exited n f.stdout f.stderr) (is_zero f.returncode zero)) e)))
            (λ not_zero. record { at = (s, f.returncode, f.stdout, f.stderr, k.1, not_zero, k.0) }))

  restore_family-restores :
      (path : String) (r : Rules) (s : H.Sys)
      → Holds H L path r s
      → Ends
          (λ _ s'. RolledBack (some path) r (v4 s'))
          (λ _. ⊥)
          (restore_family H "iptables-restore" path (open_default_v4 H) s)
  unfolding restore_family
  restore_family-restores path r s h =
      Ends-catch_all (RefusedBy r) _
        (Ends-bind (λ text s'. (text ≡ dump r) × (s' ≡ s)) _
          (Ends-imp _ (λ _ _ k. k) (λ _ z. absurd z) (read_text-Holds path r s h))
          (λ text s1 e.
            Ends-bind (λ _ s'. InForce r (v4 s')) _ (rw e.0 (run_restore4 r s1))
              (λ _ s2 k. Ends-pure (inl k))))
        (λ s' refused.
          Ends-imp _ (λ _ s2 e. inr (s', refused, ap v4 e)) (λ _ z. z) (open_default_v4_lem s'))

  -- A backup that is on disk is put back, or refused.
  pub restore_v4-restores :
      (path : String) (r : Rules) (s : H.Sys)
      → Holds H L path r s
      → str_eq path "" ≡ false
      → Ends (λ _ s'. RolledBack (some path) r (v4 s')) (λ _. ⊥) (restore_v4 H (some path) s)
  unfolding restore_v4
  restore_v4-restores path r s h ne =
      Ends-bind (λ here s'. (here ≡ true) × (s' ≡ s)) _ (Ends-pure (rw (ne, h.1) refl, refl))
        (λ here s' e. rw (e.0, e.1) (restore_family-restores path r s h))

  restore_v4-none :
      (r : Rules) (s : H.Sys)
      → Ends (λ _ s'. RolledBack none r (v4 s')) (λ _. ⊥) (restore_v4 H none s)
  unfolding restore_v4
  restore_v4-none r s =
      Ends-bind (λ here _. here ≡ false) _ (Ends-pure refl)
        (λ here s' e.
          rw e (Ends-imp _ (λ _ _ k. (s', tt, ap v4 k)) (λ _ z. z) (open_default_v4_lem s')))

  -- What is known of the IPv4 rules stays so while the IPv6 rules are restored.
  restore_v6-any :
      (P : Rules → Type 0) (env : Environment) (path : Option String) (s : H.Sys)
      → P (v4 s)
      → Ends (λ _ s'. P (v4 s')) (λ _. ⊥) (restore_v6 H env path s)
  restore_v6-any P env path s h =
      Ends-imp _ (λ _ _ e. subst P (sym e) h) (λ _ z. z) (restore_v6-v4 H L env path s refl)

  -- With root, outside Termux, restoring returns, whatever the path of the IPv6 backup is and whatever
  -- comes of it. From a backup of IPv4 rules on disk, these are then in force in each of their tables,
  -- or iptables-restore has refused them and the open default is in force; with no backup the open
  -- default is.
  pub restore_rules-rolls_back :
      (env : Environment) (backup ipv6 : Option String) (r : Rules) (s : H.Sys)
      → env.termux ≡ false
      → env.root ≡ true
      → ((p : String) → backup ≡ some p → Holds H L p r s × (str_eq p "" ≡ false))
      → Ends (λ _ s'. RolledBack backup r (v4 s')) (λ _. ⊥) (restore_rules H env backup ipv6 s)
  unfolding restore_rules
  restore_rules-rolls_back env none ipv6 r s termux root h =
      simp (termux, root)
        (Ends-bind (λ _ s'. RolledBack none r (v4 s')) _ (restore_v4-none r s)
          (λ _ s' k. restore_v6-any (RolledBack none r) env ipv6 s' k))
  restore_rules-rolls_back env (some p) ipv6 r s termux root h =
      simp (termux, root)
        (Ends-bind (λ _ s'. RolledBack (some p) r (v4 s')) _
          (restore_v4-restores p r s (h p refl).0 (h p refl).1)
          (λ _ s' k. restore_v6-any (RolledBack (some p) r) env ipv6 s' k))
