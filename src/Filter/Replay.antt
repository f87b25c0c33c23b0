-- ===== src/Filter/Replay.antt =====
-- Rules that `apply_ruleset` has run, against the laws of the packet filter.
use privacy_toolkit.Prelude.{
  ℕ, ◌≡◌, refl, ◌∙◌, ap, arith, String, Bool, true, false, ◌&&◌, ◌||◌, some, List, [], ◌∷◌, ◌==◌,
}
use privacy_toolkit.Exec.Ends.{Ends, Ends-any, Ends-imp, Ends-pure, Ends-if, Ends-bind}
use privacy_toolkit.Host.{Host, Reply, exited, settle, run}
use privacy_toolkit.Environment.{Environment}
use privacy_toolkit.FirewallBackup.{Argv, apply_rules, apply_ruleset, tolerated}
use privacy_toolkit.Filter.{Edit, Tables, edit_of, edited_if, replay, AllEdits, FilterLaws}

module _ (H : Host) where
  settle_lem :
      (r : Reply) (s : H.Sys)
      → Ends
          (λ f s'. (s' ≡ s) × (r ≡ exited f.returncode f.stdout f.stderr))
          (λ s'. s' ≡ s)
          (settle H r s)
  settle_lem (exited code out err) s = Ends-pure (refl, refl)
  settle_lem Reply.missing s = record { at = refl }
  settle_lem Reply.late s = record { at = refl }

  pub run_lem :
      (argv : Argv) (s : H.Sys)
      → Ends
          (λ f s'.
            (s' ≡ (H.exec argv "" s).1)
            × ((H.exec argv "" s).0 ≡ exited f.returncode f.stdout f.stderr))
          (λ s'. s' ≡ (H.exec argv "" s).1)
          (run H argv s)
  unfolding run
  run_lem argv s = settle_lem (H.exec argv "" s).0 (H.exec argv "" s).1

on_course : (a b : Bool) → (a && (b || false)) ≡ true → (a ≡ true) × (b ≡ true)
on_course true true h = (refl, refl)
on_course true false h = cc
on_course false b h = cc

is_zero : (n : ℕ) → (n == 0) ≡ true → n ≡ 0
is_zero n h = ground arith

module _ (H : Host) (L : FilterLaws H) where
  open L use {tables}

  -- One rule that is accepted.
  replayed_one :
      (argv : Argv) (code : ℕ) (out err : String) (s : H.Sys)
      → ((e : Edit) × (edit_of argv ≡ some e))
      → (H.exec argv "" s).0 ≡ exited code out err
      → (code == 0) ≡ true
      → tables (H.exec argv "" s).1 ≡ edited_if (edit_of argv) (tables s)
  replayed_one argv code out err s (e, reads) ran zero =
      rw reads (L.accepted argv e s reads (ran ∙ ap (λ c. exited c out err) (is_zero code zero)))

  -- With nothing tolerated, an answer of true means that the tables are those of the rules.
  pub apply_rules-replay :
      (rules : List Argv) (sofar : Bool) (s : H.Sys)
      → AllEdits rules
      → Ends
          (λ good s'. good ≡ true → (sofar ≡ true) × (tables s' ≡ replay rules (tables s)))
          (λ _. Unit {0})
          (apply_rules H rules [] sofar s)
  unfolding apply_rules tolerated
  apply_rules-replay [] sofar s all = Ends-pure (λ good. (good, refl))
  apply_rules-replay (argv ∷ rest) sofar s all =
      Ends-bind
        (λ f s'.
          (s' ≡ (H.exec argv "" s).1)
          × ((H.exec argv "" s).0 ≡ exited f.returncode f.stdout f.stderr))
        _ (Ends-imp _ (λ _ _ k. k) (λ _ _. tt) (run_lem H argv s))
        (λ f s' k.
          Ends-imp _
            (λ good s2 m g.
              let (both, now) = m g in
              let (before, zero) = on_course sofar (f.returncode == 0) both in
              (
                before,
                now
                    ∙ ap (replay rest) (
                        ap tables k.0
                        ∙ replayed_one argv f.returncode f.stdout f.stderr s all.0 k.1 zero),
              ))
            (λ _ _. tt) (apply_rules-replay rest _ s' all.1))

  -- What the tables are where a rule set is answered with true, whatever they were after the backup.
  pub apply_ruleset-replay :
      (env : Environment) (rules : List Argv) (label : String) (s : H.Sys)
      → AllEdits rules
      → Ends
          (λ res s'. res.0 ≡ true → (t : Tables) × (tables s' ≡ replay rules t))
          (λ _. Unit {0})
          (apply_ruleset H env rules label [] s)
  unfolding apply_ruleset
  apply_ruleset-replay env rules label s all =
      Ends-bind (λ _ _. Unit {0}) _ (Ends-any _)
        (λ b s1 _.
          Ends-bind (λ good s2. good ≡ true → tables s2 ≡ replay rules (tables s1)) _
            (Ends-imp _ (λ _ _ k g. (k g).1) (λ _ _. tt) (apply_rules-replay rules true s1 all))
            (λ good s2 k.
              Ends-if good _ _ (λ g. Ends-pure (λ _. (tables s1, k g)))
                (λ _. Ends-bind (λ _ _. Unit {0}) _ (Ends-any _) (λ _ s3 _. Ends-pure (λ g. cc)))))
