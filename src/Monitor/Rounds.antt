-- ===== src/Monitor/Rounds.antt =====
-- What a round of the monitor leaves as its baseline, and what it raises an alert about.
use privacy_toolkit.Prelude.{
  ◌≡◌, refl, ◌∙◌, sym, ap, String, Bool, true, false, Option, none, some, ◌∷◌, str_eq, eq_iff,
}
use privacy_toolkit.Exec.{Res, ok, raised, ◌>>=◌}
use privacy_toolkit.Exec.Ends.{Ends, Ends-imp, Ends-pure, Ends-bind, Ends-if}
use privacy_toolkit.Host.{Host, Call}
use privacy_toolkit.Text.{contains}
use privacy_toolkit.Monitor.{
  Alert, Monitor, is_error, at_sys, get_public_ip, fetched, denies_tor, check_tunnel, compare_ip,
  check_ip, check_once,
}

module _ (H : Host) where
  sys_result :
      {A : Type 0} (v : Monitor H) (r : Res A × H.Sys)
      → Ends {A = A}
          (λ _ v'. v'.baseline_ip ≡ v.baseline_ip)
          (λ v'. v'.baseline_ip ≡ v.baseline_ip)
          (r.0, record v { sys = r.1 })
  sys_result v (ok a, s) = Ends-pure refl
  sys_result v (raised e, s) = record { at = refl }

  at_sys-baseline :
      {A : Type 0} (m : Call H A) (b : Option String) (v : Monitor H)
      → v.baseline_ip ≡ b
      → Ends (λ _ v'. v'.baseline_ip ≡ b) (λ v'. v'.baseline_ip ≡ b) (at_sys H m v)
  unfolding at_sys
  at_sys-baseline m b v e = Ends-imp _ (λ _ _ k. k ∙ e) (λ _ k. k ∙ e) (sys_result v (m v.sys))

  check_tunnel-baseline :
      (ip : String) (b : Option String) (v : Monitor H)
      → v.baseline_ip ≡ b
      → Ends (λ _ v'. v'.baseline_ip ≡ b) (λ v'. v'.baseline_ip ≡ b) (check_tunnel H ip v)
  unfolding check_tunnel
  check_tunnel-baseline ip b v e =
      Ends-bind (λ _ v'. v'.baseline_ip ≡ b) _ (at_sys-baseline _ b v e)
        (λ tor v1 e1.
          Ends-bind (λ _ v'. v'.baseline_ip ≡ b) _
            (Ends-if (denies_tor H tor) _ _ (λ _. Ends-pure e1) (λ _. Ends-pure e1))
            (λ _ v2 e2.
              Ends-bind (λ _ v'. v'.baseline_ip ≡ b) _ (at_sys-baseline _ b v2 e2)
                (λ report v3 e3.
                  Ends-if (contains "LIKELY LEAKING" report.leak_verdict) _ _ (λ _. Ends-pure e3)
                    (λ _. Ends-pure e3))))

  compare_ip-baseline :
      (ip b : String) (v : Monitor H)
      → v.baseline_ip ≡ some b
      → Ends (λ _ v'. v'.baseline_ip ≡ some ip) (λ _. Unit {0}) (compare_ip H ip b v)
  unfolding compare_ip ◌>>=◌
  compare_ip-baseline ip b v e =
      Ends-if (str_eq ip b) _ _ (λ same. Ends-pure (e ∙ ap some (sym ((eq_iff ip b).0 same))))
        (λ _. Ends-pure refl)

  check_ip-baseline :
      (expect_tunnel : Bool) (ip : String) (b : Option String) (v : Monitor H)
      → v.baseline_ip ≡ b
      → Ends (λ _ v'. v'.baseline_ip ≡ some ip) (λ _. Unit {0}) (check_ip H expect_tunnel ip b v)
  unfolding check_ip
  check_ip-baseline expect_tunnel ip none v e = Ends-pure refl
  check_ip-baseline expect_tunnel ip (some b) v e =
      Ends-bind (λ _ v'. v'.baseline_ip ≡ some b) _
        (Ends-if expect_tunnel _ _
          (λ _. Ends-imp _ (λ _ _ k. k) (λ _ _. tt) (check_tunnel-baseline ip (some b) v e))
          (λ _. Ends-pure e))
        (λ _ v1 e1. compare_ip-baseline ip b v1 e1)

  -- The address that a round of the monitor sees.
  abbrev pub seen : Monitor H → String
  seen v = fetched H (H.ask_ip 8 v.sys).0

  -- A round of the monitor that does not raise. Where the public address could be fetched, it is the
  -- baseline of the next round, whatever the baseline was; where it could not, one alert says so and
  -- the baseline stays.
  pub check_once-baseline :
      (expect_tunnel : Bool) (v : Monitor H)
      → Ends
          (λ _ v'.
            (is_error (seen v) ≡ false → v'.baseline_ip ≡ some (seen v))
            × (is_error (seen v) ≡ true
                → (v'.baseline_ip ≡ v.baseline_ip) × (v'.alerts ≡ Alert.ip_unknown ∷ v.alerts)))
          (λ _. Unit {0})
          (check_once H expect_tunnel v)
  unfolding check_once get_public_ip at_sys ◌>>=◌
  check_once-baseline expect_tunnel v =
      Ends-if (is_error (seen v)) _ _ (λ bad. Ends-pure (λ good. cc, λ _. (refl, refl)))
        (λ good.
          Ends-imp _ (λ _ v' k. (λ _. k, λ bad. cc)) (λ _ e. e)
            (check_ip-baseline expect_tunnel (seen v) v.baseline_ip _ refl))
