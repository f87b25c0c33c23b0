-- ===== src/AntiRecon/Detector.antt =====
-- The detectors of privacyguard/anti_recon.py: `live_scan_watch` counts the ports that each source
-- touches, and `watch_http_access_log` counts requests. Time is a whole number of clock ticks; what
-- is sniffed or read off the log is the list of events that a detector handles. An alert is kept in a
-- list in place of a line on the terminal.
pub mod Bounds
use privacy_toolkit.Prelude.{
  ℕ, zero, suc, ◌+◌, String, Bool, true, false, not, ◌||◌, ◌&&◌, ◌==◌, ltb, leb, List, [], ◌∷◌,
  ◌++◌, str_eq, if◌then◌else◌,
}
use privacy_toolkit.Exec.{
  catch_if, is_permission_error, Exec, Res, ok, pure, gets, modify, ◌>>=◌, ◌>>◌,
}
use privacy_toolkit.Host.{Host, run}
use privacy_toolkit.Environment.{Environment}

-- A packet with an IP and a TCP part, at the time it is handled.
pub record Packet : Type 0 where
  pub src : String
  pub dport : ℕ
  pub now : ℕ

-- A time stamp and a port.
abbrev pub Hit : Type 0
Hit = ℕ × ℕ

-- `while dq and now - dq[0][0] > window_seconds: dq.popleft()`
unfoldable pub drop_old : ℕ → ℕ → List Hit → List Hit
drop_old now window [] = []
drop_old now window ((t, port) ∷ hits) =
    let rest = drop_old now window hits in if ltb (t + window) now then rest else (t, port) ∷ hits

abbrev pub port_in : ℕ → List Hit → Bool
port_in port [] = false
port_in port ((_, p) ∷ hits) = p == port || port_in port hits

-- `len({p for _, p in dq})`
unfoldable pub distinct_ports : List Hit → ℕ
distinct_ports [] = 0
distinct_ports ((_, port) ∷ hits) =
    let n = distinct_ports hits in if port_in port hits then n else suc n

-- `ip in blocked`
unfoldable pub is_blocked : String → List String → Bool
is_blocked ip [] = false
is_blocked ip (b ∷ bs) = str_eq b ip || is_blocked ip bs

-- The deques of `hits`, the set `blocked`, and the alerts that were printed.
pub record Watch (H : Host) : Type 0 where
  pub sys : H.Sys
  pub hits : String → List Hit
  pub blocked : List String
  pub alerts : List (String × ℕ)

-- The parameters of `live_scan_watch`.
pub record Settings : Type 0 where
  pub port_threshold : ℕ
  pub window_seconds : ℕ
  pub auto_block : Bool

abbrev pub put : String → List Hit → (String → List Hit) → String → List Hit
put ip q hits other = if str_eq ip other then q else hits other

module _ (H : Host) where
  abbrev pub quiet_watch : H.Sys → Watch H
  quiet_watch s = record { sys = s; hits = λ _. []; blocked = []; alerts = [] }

  abbrev pub set_hits : String → List Hit → Watch H → Watch H
  set_hits ip q v = record v { hits = put ip q v.hits }

  abbrev pub add_blocked : String → Watch H → Watch H
  add_blocked ip v = record v { blocked = ip ∷ v.blocked }

  abbrev pub add_alert : String → ℕ → Watch H → Watch H
  add_alert ip n v = record v { alerts = (ip, n) ∷ v.alerts }

  -- The firewall rule of `block`, run on the machine under the detector.
  abbrev pub drop_source : String → Exec (Watch H) (Unit {0})
  drop_source ip v =
      let (r, s) = run H ("iptables" ∷ "-I" ∷ "INPUT" ∷ "-s" ∷ ip ∷ "-j" ∷ "DROP" ∷ []) v.sys in
      (elim r [ ok _ ↦ ok tt | Res.raised e ↦ Res.raised e ], record v { sys = s })

  unfoldable pub block : Environment → String → Exec (Watch H) (Unit {0})
  block env ip = do
    known ← gets (λ v. is_blocked ip v.blocked)
    if known || not env.has_iptables then pure tt else (do drop_source ip; modify (add_blocked ip))

  -- The end of `handle`: a source over the threshold is reported, perhaps blocked, and forgotten.
  unfoldable pub report : Environment → Settings → String → List Hit → Exec (Watch H) (Unit {0})
  report env cfg ip q =
      if leb cfg.port_threshold (distinct_ports q)
      then (do
        modify (add_alert ip (distinct_ports q))
        if cfg.auto_block then block env ip else pure tt
        modify (set_hits ip []))
      else pure tt

  unfoldable pub handle : Environment → Settings → Packet → Exec (Watch H) (Unit {0})
  unfolding drop_old
  handle env cfg pkt = do
    dq ← gets (λ v. v.hits pkt.src)
    let q = drop_old pkt.now cfg.window_seconds (dq ++ ((pkt.now, pkt.dport) ∷ []))
    modify (set_hits pkt.src q)
    report env cfg pkt.src q

  -- What `sniff` does with `prn=handle`.
  unfoldable pub handle_all : Environment → Settings → List Packet → Exec (Watch H) (Unit {0})
  handle_all env cfg [] = pure tt
  handle_all env cfg (pkt ∷ pkts) = do handle env cfg pkt; handle_all env cfg pkts

  -- `live_scan_watch`, given the packets that are sniffed within its duration.
  unfoldable pub live_scan_watch : Environment → Settings → List Packet → Exec (Watch H) (Unit {0})
  live_scan_watch env cfg pkts =
      if env.termux
      then pure tt
      else if not env.has_scapy
      then pure tt
      else if not env.root
      then pure tt
      else catch_if is_permission_error (handle_all env cfg pkts) (pure tt)

-- The state of `watch_http_access_log`: the times of the last requests, how many signature alerts
-- and how many burst alerts were printed.
pub record LogWatch : Type 0 where
  pub times : List ℕ
  pub signatures : ℕ
  pub bursts : ℕ

-- A line of the log, when it was read, and whether the pattern of scanner signatures is in it.
pub record Line : Type 0 where
  pub now : ℕ
  pub suspicious : Bool

-- `while hits and now - hits[0] > window_seconds: hits.popleft()`
unfoldable pub drop_old_times : ℕ → ℕ → List ℕ → List ℕ
drop_old_times now window [] = []
drop_old_times now window (t ∷ times) =
    let rest = drop_old_times now window times in if ltb (t + window) now then rest else t ∷ times

-- `len(hits)`
unfoldable pub length : List ℕ → ℕ
length [] = 0
length (_ ∷ times) = suc (length times)

-- One round of the loop, for a line that was read.
unfoldable pub read_line : ℕ → ℕ → Line → LogWatch → LogWatch
unfolding drop_old_times
read_line window threshold line v =
    let q = drop_old_times line.now window (v.times ++ (line.now ∷ [])) in
    let signatures = if line.suspicious then suc v.signatures else v.signatures in
    if leb threshold (length q)
    then record { times = []; signatures = signatures; bursts = suc v.bursts }
    else record { times = q; signatures = signatures; bursts = v.bursts }

unfoldable pub read_lines : ℕ → ℕ → List Line → LogWatch → LogWatch
read_lines window threshold [] v = v
read_lines window threshold (line ∷ lines) v =
    read_lines window threshold lines (read_line window threshold line v)
