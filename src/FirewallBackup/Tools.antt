-- ===== src/FirewallBackup/Tools.antt =====
-- What the commands of iptables and ip6tables leave alone: files, and the rules of the other family,
-- also while the IPv6 rules are restored.
use privacy_toolkit.Prelude.{String, ◌≡◌, refl, ◌∙◌, true, not, List, [], ◌∷◌, Option, arith, ◌==◌}
use privacy_toolkit.Exec.Ends.{Ends, Ends-imp, Ends-pure, Ends-if, Ends-catch_all, Ends-bind}
use privacy_toolkit.Host.{
  Host, Call, exited, Io, done, run_with, run, run_checked_with, read_text, from_io,
}
use privacy_toolkit.Environment.{Environment}
use privacy_toolkit.FirewallBackup.{
  Argv, run_each, open_commands6, open_default_v6, restore_family, restore_v6,
}
use privacy_toolkit.FirewallBackup.Laws.{FirewallLaws, is_tool, is_tool6}

abbrev pub AllTools : List Argv → Type 0
AllTools [] = Unit
AllTools (argv ∷ rest) = (is_tool argv ≡ true) × AllTools rest

module _ (H : Host) (L : FirewallLaws H) where
  open L use {Rules, v4, dump}

  -- The file at `path` holds the rule set `r`.
  abbrev pub Holds : String → Rules → H.Sys → Type 0
  Holds path r s = (H.read path s ≡ done (dump r)) × (H.exists path s ≡ true)

  pub run_with_tool :
      (argv : Argv) (t : String) (s : H.Sys)
      → is_tool argv ≡ true
      → Ends
          (λ f s'.
            (s' ≡ (H.exec argv t s).1)
            × ((H.exec argv t s).0 ≡ exited f.returncode f.stdout f.stderr))
          (λ _. ⊥)
          (run_with H argv t s)
  unfolding run_with
  run_with_tool argv t s h =
      let (code, out, err, e) = L.answers argv t s h in rw e (Ends-pure (refl, refl))

  -- A file of saved rules outlives any command of iptables.
  pub Holds-exec :
      (argv : Argv) (t path : String) (r : Rules) (s : H.Sys)
      → is_tool argv ≡ true
      → Holds path r s
      → Holds path r (H.exec argv t s).1
  Holds-exec argv t path r s h k =
      (L.read_frame argv t path s h ∙ k.0, L.exists_frame argv t path s h ∙ k.1)

  read_text-v4 :
      (path : String) (s : H.Sys) {r : Rules}
      → v4 s ≡ r
      → Ends (λ _ s'. v4 s' ≡ r) (λ s'. v4 s' ≡ r) (read_text H path s)
  unfolding read_text
  read_text-v4 path s {r} e =
      elim (H.read path s) as (λ io. Ends (λ _ s'. v4 s' ≡ r) (λ s'. v4 s' ≡ r) (from_io H io s)) [
        | Io.done t ↦ Ends-pure e
        | Io.denied ↦ record { at = e }
        | Io.broken ↦ record { at = e }
      ]

  pub tool6-is_tool : (argv : Argv) → is_tool6 argv ≡ true → is_tool argv ≡ true
  tool6-is_tool argv h = ground arith

  -- A command of the IPv6 family, checked or not, leaves the IPv4 rules alone.
  run_tool6 :
      (argv : Argv) (t : String) (s : H.Sys) {r : Rules}
      → is_tool6 argv ≡ true
      → v4 s ≡ r
      → Ends (λ _ s'. v4 s' ≡ r) (λ _. ⊥) (run_with H argv t s)
  run_tool6 argv t s h e =
      Ends-imp _ (λ f s' k. rw k.0 (L.v4_frame argv t s h ∙ e)) (λ _ k. k)
        (run_with_tool argv t s (tool6-is_tool argv h))

  run_checked_tool6 :
      (argv : Argv) (t : String) (s : H.Sys) {r : Rules}
      → is_tool6 argv ≡ true
      → v4 s ≡ r
      → Ends (λ _ s'. v4 s' ≡ r) (λ s'. v4 s' ≡ r) (run_checked_with H argv t s)
  unfolding run_checked_with
  run_checked_tool6 argv t s h e =
      Ends-bind (λ _ s'. v4 s' ≡ _) _
        (Ends-imp _ (λ f s' k. k) (λ _ k. absurd k) (run_tool6 argv t s h e))
        (λ f s' k. Ends-if (f.returncode == 0) _ _ (λ _. Ends-pure k) (λ _. record { at = k }))

  abbrev All6 : List Argv → Type 0
  All6 [] = Unit
  All6 (argv ∷ rest) = (is_tool6 argv ≡ true) × All6 rest

  run_each-v4 :
      (argvs : List Argv) (s : H.Sys) {r : Rules}
      → All6 argvs
      → v4 s ≡ r
      → Ends (λ _ s'. v4 s' ≡ r) (λ _. ⊥) (run_each H argvs s)
  unfolding run_each run
  run_each-v4 [] s all e = Ends-pure e
  run_each-v4 (argv ∷ rest) s {r} all e =
      Ends-bind (λ _ s'. v4 s' ≡ r) _ (run_tool6 argv "" s all.0 e)
        (λ _ s' k. run_each-v4 rest s' all.1 k)

  open_default_v6-v4 :
      (env : Environment) (s : H.Sys) {r : Rules}
      → v4 s ≡ r
      → Ends (λ _ s'. v4 s' ≡ r) (λ _. ⊥) (open_default_v6 H env s)
  unfolding open_default_v6
  open_default_v6-v4 env s e =
      Ends-if (not env.has_ip6tables) _ _ (λ _. Ends-pure e)
        (λ _. run_each-v4 open_commands6 s (refl, (refl, (refl, (refl, tt)))) e)

  restore_family-v4 :
      (program path : String) (fallback : Call H (Unit {0})) (s : H.Sys) {r : Rules}
      → is_tool6 (program ∷ []) ≡ true
      → v4 s ≡ r
      → ((s' : H.Sys) → v4 s' ≡ r → Ends (λ _ s'. v4 s' ≡ r) (λ _. ⊥) (fallback s'))
      → Ends (λ _ s'. v4 s' ≡ r) (λ _. ⊥) (restore_family H program path fallback s)
  unfolding restore_family
  restore_family-v4 program path fallback s {r} h e k =
      Ends-catch_all (λ s'. v4 s' ≡ r) _
        (Ends-bind (λ _ s'. v4 s' ≡ r) _ (read_text-v4 path s e)
          (λ text s1 e1.
            Ends-bind (λ _ s'. v4 s' ≡ r) _ (run_checked_tool6 _ text s1 h e1)
              (λ _ s2 e2. Ends-pure e2)))
        k

  pub restore_v6-v4 :
      (env : Environment) (path : Option String) (s : H.Sys) {r : Rules}
      → v4 s ≡ r
      → Ends (λ _ s'. v4 s' ≡ r) (λ _. ⊥) (restore_v6 H env path s)
  unfolding restore_v6
  restore_v6-v4 env path s {r} e =
      Ends-bind (λ _ s'. v4 s' ≡ r) _ (Ends-pure e)
        (λ here s' k.
          Ends-if here _ _
            (λ _. restore_family-v4 _ _ _ s' refl k (λ s1 e1. open_default_v6-v4 env s1 e1))
            (λ _.
              Ends-if env.has_ip6tables _ _ (λ _. open_default_v6-v4 env s' k) (λ _. Ends-pure k)))
