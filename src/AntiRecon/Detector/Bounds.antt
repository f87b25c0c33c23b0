-- ===== src/AntiRecon/Detector/Bounds.antt =====
-- What the detectors of privacyguard/anti_recon.py keep: which hits stay in a queue, how long the
-- queues get, and that a source is blocked once.
use privacy_toolkit.Prelude.{
  ℕ, ◌+◌, ◌<◌, ◌≡◌, refl, ◌∙◌, ap, sym, subst, arith, String, Bool, true, false, not, ◌||◌, ◌&&◌,
  ltb, leb, List, [], ◌∷◌, str_eq, if◌then◌else◌, Bool-cases, inl, inr,
}
use privacy_toolkit.Exec.{Res, ok, raised, modify, ◌>>=◌}
use privacy_toolkit.Exec.Ends.{Ends, Ends-imp, Ends-pure, Ends-bind, Ends-if}
use privacy_toolkit.Host.{Host, Finished}
use privacy_toolkit.State.Frames.{and_true}
use privacy_toolkit.Environment.{Environment}
use privacy_toolkit.AntiRecon.Detector.{
  Packet, Hit, Watch, Settings, drop_old, distinct_ports, is_blocked, put, block, drop_source,
  add_alert, report, handle, handle_all, LogWatch, Line, length, read_line, read_lines,
}

-- The hits that are not older than the window.
abbrev pub recent : ℕ → ℕ → List Hit → List Hit
recent now window [] = []
recent now window ((t, port) ∷ hits) =
    let rest = recent now window hits in if ltb (t + window) now then rest else (t, port) ∷ rest

-- Every hit is at `t` or later.
abbrev pub all_from : ℕ → List Hit → Bool
all_from t [] = true
all_from t ((u, _) ∷ hits) = leb t u && all_from t hits

-- The oldest hit stands first.
abbrev pub in_order : List Hit → Bool
in_order [] = true
in_order ((t, _) ∷ hits) = all_from t hits && in_order hits

later :
    (t u window now : ℕ)
    → ltb (t + window) now ≡ false
    → leb t u ≡ true
    → ltb (u + window) now ≡ false
later t u window now young le = ground arith

recent-all_from :
    (now window t : ℕ) (hits : List Hit)
    → ltb (t + window) now ≡ false
    → all_from t hits ≡ true
    → recent now window hits ≡ hits
recent-all_from now window t [] young from = refl
recent-all_from now window t ((u, port) ∷ hits) young from =
    let both = and_true (leb t u) (all_from t hits) from in
    let ih = recent-all_from now window t hits young both.1 in
    rw (later t u window now young both.0) (ap (λ r. (u, port) ∷ r) ih)

-- The loop that takes old hits off the front leaves exactly the hits within the window, where the
-- hits are in order of time.
pub drop_old-recent :
    (now window : ℕ) (hits : List Hit)
    → in_order hits ≡ true
    → drop_old now window hits ≡ recent now window hits
unfolding drop_old
drop_old-recent now window [] ordered = refl
drop_old-recent now window ((t, port) ∷ hits) ordered =
    let both = and_true (all_from t hits) (in_order hits) ordered in
    elim (Bool-cases (ltb (t + window) now)) [
      | inl old ↦ rw old (drop_old-recent now window hits both.1)
      | inr young ↦
          rw young (ap (λ r. (t, port) ∷ r) (sym (recent-all_from now window t hits young both.0)))
    ]

abbrev pub no_repeats : List String → Bool
no_repeats [] = true
no_repeats (ip ∷ ips) = not (is_blocked ip ips) && no_repeats ips

-- Between two packets: every queue is under the threshold, and no source was blocked twice.
pub record Calm (H : Host) (cfg : Settings) (v : Watch H) : Type 0 where
  pub under : (ip : String) → distinct_ports (v.hits ip) < cfg.port_threshold
  pub once : no_repeats v.blocked ≡ true

below : (threshold n : ℕ) → leb threshold n ≡ false → n < threshold
below threshold n h = ground arith

fresh :
    (known without : Bool) (rest : Bool)
    → (known || without) ≡ false
    → rest ≡ true
    → (not known && rest) ≡ true
fresh known without rest go once = ground arith

module _ (H : Host) where
  sourced :
      (v : Watch H) (r : Res (Finished H) × H.Sys)
      → Ends {S = Watch H} {A = Unit {0}}
          (λ _ v'. (v'.hits ≡ v.hits) × (v'.blocked ≡ v.blocked))
          (λ _. Unit {0})
          (elim r.0 [ ok _ ↦ ok tt | raised e ↦ raised e ], record v { sys = r.1 })
  sourced v (ok a, s) = Ends-pure (refl, refl)
  sourced v (raised e, s) = record { at = tt }

  block-keeps :
      (env : Environment) (ip : String) (v : Watch H)
      → no_repeats v.blocked ≡ true
      → Ends
          (λ _ v'. (v'.hits ≡ v.hits) × (no_repeats v'.blocked ≡ true))
          (λ _. Unit {0})
          (block H env ip v)
  unfolding block ◌>>=◌
  block-keeps env ip v once =
      Ends-if (is_blocked ip v.blocked || not env.has_iptables) _ _ (λ _. Ends-pure (refl, once))
        (λ go.
          Ends-bind (λ _ v'. (v'.hits ≡ v.hits) × (v'.blocked ≡ v.blocked)) (drop_source H ip)
            (sourced v _)
            (λ _ v1 k.
              Ends-pure
                (k.0, rw k.1 (fresh (is_blocked ip v.blocked) (not env.has_iptables) _ go once))))

  cleared :
      (cfg : Settings) (ip : String) (hits hits' : String → List Hit)
      → hits' ≡ hits
      → 0 < cfg.port_threshold
      → ((other : String)
          → str_eq ip other ≡ false
          → distinct_ports (hits other) < cfg.port_threshold)
      → (other : String) → distinct_ports (put ip [] hits' other) < cfg.port_threshold
  unfolding distinct_ports
  cleared cfg ip hits hits' same pos others other = elim (Bool-cases (str_eq ip other)) [
    | inl e ↦ rw e pos
    | inr e ↦ rw (e, same) (others other e)
  ]

  report-Calm :
      (env : Environment) (cfg : Settings) (ip : String) (q : List Hit) (v : Watch H)
      → 0 < cfg.port_threshold
      → ((other : String)
          → str_eq ip other ≡ false
          → distinct_ports (v.hits other) < cfg.port_threshold)
      → ((other : String) → str_eq ip other ≡ true → v.hits other ≡ q)
      → no_repeats v.blocked ≡ true
      → Ends (λ _ v'. Calm H cfg v') (λ _. Unit {0}) (report H env cfg ip q v)
  unfolding report
  report-Calm env cfg ip q v pos others own once =
      Ends-if (leb cfg.port_threshold (distinct_ports q)) _ _
        (λ _.
          Ends-bind Kept (modify (add_alert H ip (distinct_ports q))) (Ends-pure (refl, once))
            (λ _ v1 k1.
              Ends-bind Kept _
                (Ends-if cfg.auto_block _ _
                  (λ _.
                    Ends-imp _ (λ _ v2 k2. (k2.0 ∙ k1.0, k2.1)) (λ _ e. e)
                      (block-keeps env ip v1 k1.1))
                  (λ _. Ends-pure k1))
                (λ _ v2 k2.
                  Ends-pure (record {
                    under = cleared cfg ip v.hits v2.hits k2.0 pos others;
                    once = k2.1;
                  }))))
        (λ low. Ends-pure (record {
          under = λ other. elim (Bool-cases (str_eq ip other)) [
            | inl e ↦
                subst (λ r. distinct_ports r < cfg.port_threshold) (sym (own other e))
                  (below cfg.port_threshold (distinct_ports q) low)
            | inr e ↦ others other e
          ];
          once = once;
        }))
    where
      Kept : Unit {0} → Watch H → Type 0
      Kept _ v' = (v'.hits ≡ v.hits) × (no_repeats v'.blocked ≡ true)

  handle-Calm :
      (env : Environment) (cfg : Settings) (pkt : Packet) (v : Watch H)
      → 0 < cfg.port_threshold
      → Calm H cfg v
      → Ends (λ _ v'. Calm H cfg v') (λ _. Unit {0}) (handle H env cfg pkt v)
  unfolding handle ◌>>=◌
  handle-Calm env cfg pkt v pos calm =
      report-Calm env cfg pkt.src _ _ pos (λ other e. rw e (calm.under other))
        (λ other e. rw e refl) calm.once

  -- While it handles packets, set to block or not: after each batch that is handled without a raise,
  -- every queue holds fewer distinct ports than the threshold, and no source has been blocked twice.
  -- The threshold is not nothing, and it was so before the batch.
  pub handle_all-Calm :
      (env : Environment) (cfg : Settings) (pkts : List Packet) (v : Watch H)
      → 0 < cfg.port_threshold
      → Calm H cfg v
      → Ends (λ _ v'. Calm H cfg v') (λ _. Unit {0}) (handle_all H env cfg pkts v)
  unfolding handle_all
  handle_all-Calm env cfg [] v pos calm = Ends-pure calm
  handle_all-Calm env cfg (pkt ∷ pkts) v pos calm =
      Ends-bind (λ _ v'. Calm H cfg v') _ (handle-Calm env cfg pkt v pos calm)
        (λ _ v1 calm1. handle_all-Calm env cfg pkts v1 pos calm1)

read_line-length :
    (window threshold : ℕ) (line : Line) (v : LogWatch)
    → 0 < threshold
    → length (read_line window threshold line v).times < threshold
unfolding read_line length
read_line-length window threshold line v pos = ground arith

-- The queue of the log detector stays under its threshold, unless that is nothing.
pub read_lines-length :
    (window threshold : ℕ) (lines : List Line) (v : LogWatch)
    → 0 < threshold
    → length v.times < threshold
    → length (read_lines window threshold lines v).times < threshold
unfolding read_lines
read_lines-length window threshold [] v pos start = start
read_lines-length window threshold (line ∷ lines) v pos start =
    read_lines-length window threshold lines (read_line window threshold line v) pos
      (read_line-length window threshold line v pos)
