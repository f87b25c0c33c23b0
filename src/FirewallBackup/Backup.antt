-- ===== src/FirewallBackup/Backup.antt =====
-- Backing up against the laws of iptables: the rules stay as they are, and what is on record is on
-- disk.
use privacy_toolkit.Prelude.{
  subst, ℕ, String, ◌≡◌, refl, sym, ◌∙◌, ap, true, false, [], ◌∷◌, Option, some, arith, str_eq,
  ◌==◌,
}
use privacy_toolkit.Exec.Ends.{Ends, Ends-imp, Ends-pure, Ends-if, Ends-catch_all, Ends-bind}
use privacy_toolkit.Host.{Host, exited, Io, run, run_checked, write_text, make_dirs, from_io}
use privacy_toolkit.Environment.{Environment}
use privacy_toolkit.FirewallBackup.{Argv, backup_family, backup_rules, backup_path4}
use privacy_toolkit.FirewallBackup.Laws.{FirewallLaws, is_tool6}
use privacy_toolkit.FirewallBackup.Tools.{tool6-is_tool, Holds, Holds-exec, run_with_tool}
use privacy_toolkit.FirewallBackup.Paths.{backup_path4-ne-empty, backup_paths_differ}

is_zero : (n : ℕ) → (n == 0) ≡ true → n ≡ 0
is_zero n h = ground arith

module _ (H : Host) (L : FirewallLaws H) where
  open L use {Rules, v4, dump}

  written4 :
      (path : String) (r : Rules) (s : H.Sys) (io : Io (Unit {0}))
      → v4 s ≡ r
      → (H.write path (dump r) s).0 ≡ io
      → Ends
          (λ _ s'. (v4 s' ≡ r) × Holds H L path r s')
          (λ s'. v4 s' ≡ r)
          (from_io H io (H.write path (dump r) s).1)
  written4 path r s (Io.done tt) e w =
      Ends-pure (L.v4-write path (dump r) s ∙ e, L.read-write path (dump r) s w)
  written4 path r s Io.denied e w = record { at = L.v4-write path (dump r) s ∙ e }
  written4 path r s Io.broken e w = record { at = L.v4-write path (dump r) s ∙ e }

  write_text4 :
      (path : String) (r : Rules) (s : H.Sys)
      → v4 s ≡ r
      → Ends
          (λ _ s'. (v4 s' ≡ r) × Holds H L path r s')
          (λ s'. v4 s' ≡ r)
          (write_text H path (dump r) s)
  unfolding write_text
  write_text4 path r s e = written4 path r s _ e refl

  save4_lem :
      (s : H.Sys)
      → Ends
          (λ f s'. (v4 s' ≡ v4 s) × (f.stdout ≡ dump (v4 s)))
          (λ s'. v4 s' ≡ v4 s)
          (run_checked H ("iptables-save" ∷ []) s)
  unfolding run_checked run
  save4_lem s =
      Ends-bind
        (λ f s'.
          (s' ≡ (H.exec ("iptables-save" ∷ []) "" s).1)
          × ((H.exec ("iptables-save" ∷ []) "" s).0 ≡ exited f.returncode f.stdout f.stderr))
        _
        (Ends-imp _ (λ f s' k. k) (λ _ k. absurd k)
          (run_with_tool H L ("iptables-save" ∷ []) "" s refl))
        (λ f s1 k.
          Ends-if (f.returncode == 0) _ _
            (λ z. Ends-pure (
              rw k.0 (L.save4 "" s),
              L.save4_out "" s
                  (k.1 ∙ ap (λ c. exited c f.stdout f.stderr) (is_zero f.returncode z)),
            ))
            (λ _. record { at = rw k.0 (L.save4 "" s) }))

  backup4_lem :
      (path : String) (s : H.Sys)
      → Ends
          (λ o s'.
            (v4 s' ≡ v4 s) × ((p : String) → o ≡ some p → (p ≡ path) × Holds H L p (v4 s) s'))
          (λ _. ⊥)
          (backup_family H "iptables-save" path s)
  unfolding backup_family
  backup4_lem path s =
      Ends-catch_all (λ s'. v4 s' ≡ v4 s) _
        (Ends-bind (λ f s'. (v4 s' ≡ v4 s) × (f.stdout ≡ dump (v4 s))) _ (save4_lem s)
          (λ f s1 k.
            Ends-bind (λ _ s'. (v4 s' ≡ v4 s) × Holds H L path (v4 s) s') _
              (rw k.1 (write_text4 path (v4 s) s1 k.0))
              (λ _ s2 m. Ends-pure (
                m.0,
                λ p e. let q : path ≡ p = cc in (sym q, subst (λ p. Holds H L p (v4 s) s2) q m.1),
              ))))
        (λ s' k. Ends-pure (k, λ p e. cc))

  -- What the IPv4 half of the backup has left, through the IPv6 half.
  abbrev BackedUp : Option String → String → Rules → H.Sys → Type 0
  BackedUp saved path r s =
      (v4 s ≡ r) × ((p : String) → saved ≡ some p → (p ≡ path) × Holds H L p r s)

  BackedUp-exec6 :
      (argv : Argv) (saved : Option String) (path : String) (r : Rules) (s : H.Sys)
      → is_tool6 argv ≡ true
      → BackedUp saved path r s
      → BackedUp saved path r (H.exec argv "" s).1
  BackedUp-exec6 argv saved path r s h b = (
    L.v4_frame argv "" s h ∙ b.0,
    λ p e.
        let (same, held) = b.1 p e in
        (same, Holds-exec H L argv "" p r s (tool6-is_tool H L argv h) held),
  )

  BackedUp-write :
      (other text : String) (saved : Option String) (path : String) (r : Rules) (s : H.Sys)
      → str_eq other path ≡ false
      → BackedUp saved path r s
      → BackedUp saved path r (H.write other text s).1
  BackedUp-write other text saved path r s ne b = (
    L.v4-write other text s ∙ b.0,
    λ p e.
        let (same, held) = b.1 p e in
        let kept = L.write_frame other p text s (rw same ne) in
        (same, (kept.0 ∙ held.0, kept.1 ∙ held.1)),
  )

  from_io_both :
      {A : Type 0} (P : H.Sys → Type 0) (io : Io A) (s : H.Sys)
      → P s
      → Ends (λ _. P) P (from_io H io s)
  from_io_both P (Io.done a) s h = Ends-pure h
  from_io_both P Io.denied s h = record { at = h }
  from_io_both P Io.broken s h = record { at = h }

  backup6_lem :
      (other : String) (saved : Option String) (path : String) (r : Rules) (s : H.Sys)
      → str_eq other path ≡ false
      → BackedUp saved path r s
      → Ends (λ _. BackedUp saved path r) (λ _. ⊥) (backup_family H "ip6tables-save" other s)
  unfolding backup_family run_checked run write_text
  backup6_lem other saved path r s ne b =
      Ends-catch_all (BackedUp saved path r) _
        (Ends-bind (λ _. BackedUp saved path r) _
          (Ends-bind (λ _. BackedUp saved path r) _
            (Ends-imp _
              (λ f s' k. rw k.0 (BackedUp-exec6 ("ip6tables-save" ∷ []) saved path r s refl b))
              (λ _ k. absurd k) (run_with_tool H L ("ip6tables-save" ∷ []) "" s refl))
            (λ f s' k. Ends-if (f.returncode == 0) _ _ (λ _. Ends-pure k) (λ _. record { at = k })))
          (λ f s1 k.
            Ends-bind (λ _. BackedUp saved path r) _
              (from_io_both (BackedUp saved path r) _ _
                (BackedUp-write other f.stdout saved path r s1 ne k))
              (λ _ s2 m. Ends-pure m)))
        (λ s' k. Ends-pure k)

  make_dirs_lem :
      (path : String) (s : H.Sys) {r : Rules}
      → v4 s ≡ r
      → Ends (λ _ s'. v4 s' ≡ r) (λ _. ⊥) (make_dirs H path s)
  unfolding make_dirs
  make_dirs_lem path s e = rw (L.mkdir_done path s) (Ends-pure (L.v4-mkdir path s ∙ e))

  -- With root, outside Termux, a backup returns; the IPv4 rules are as before, and a path that it
  -- reports for them is not empty and is a file that holds them.
  pub backup_rules_lem :
      (env : Environment) (label : String) (s : H.Sys)
      → env.termux ≡ false
      → env.root ≡ true
      → Ends
          (λ b s'.
            (v4 s' ≡ v4 s)
            × ((p : String) → b.ipv4 ≡ some p → Holds H L p (v4 s) s' × (str_eq p "" ≡ false)))
          (λ _. ⊥)
          (backup_rules H env label s)
  unfolding backup_rules
  backup_rules_lem env label s termux root =
      simp (termux, root)
        (Ends-bind (λ _ s'. v4 s' ≡ v4 s) _ (make_dirs_lem _ s refl)
          (λ _ s1 e1.
            Ends-bind (λ _ s'. v4 s' ≡ v4 s) _ (Ends-pure e1)
              (λ ts s2 e2.
                Ends-bind (λ o. BackedUp o (backup_path4 H label ts) (v4 s)) _
                  (Ends-if env.has_iptables _ _
                    (λ _. rw (← e2) (backup4_lem (backup_path4 H label ts) s2))
                    (λ _. Ends-pure (e2, λ p e. cc)))
                  (λ o s3 b.
                    Ends-bind (λ _. BackedUp o (backup_path4 H label ts) (v4 s)) _
                      (Ends-if env.has_ip6tables _ _
                        (λ _. backup6_lem _ o _ _ s3 (backup_paths_differ H label ts) b)
                        (λ _. Ends-pure b))
                      (λ o6 s4 b. Ends-pure (
                        b.0,
                        λ p e. ((b.1 p e).1, rw (b.1 p e).0 (backup_path4-ne-empty H label ts)),
                      ))))))
