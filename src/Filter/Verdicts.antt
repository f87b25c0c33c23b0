-- ===== src/Filter/Verdicts.antt =====
-- What the rule lists of `enable_kill_switch` and `enable_gateway` make of packets.
use privacy_toolkit.Prelude.{
  ◌≡◌, refl, arith, String, Bool, true, false, ◌||◌, [], ◌∷◌, if◌then◌else◌,
}
use privacy_toolkit.FirewallBackup.{Argv}
use privacy_toolkit.Core.KillSwitch.{tor_uid, kill_switch_rules}
use privacy_toolkit.Gateway.{gateway_rules}
use privacy_toolkit.Filter.{Tables, replay, AllEdits, Packets, verdict}

pub kill_switch_rules-AllEdits : AllEdits kill_switch_rules
kill_switch_rules-AllEdits = (
  (_, refl),
  (
    (_, refl),
    ((_, refl), ((_, refl), ((_, refl), ((_, refl), ((_, refl), ((_, refl), ((_, refl), tt))))))),
  ),
)

pub gateway_rules-AllEdits : (iface : String) → AllEdits (gateway_rules iface)
gateway_rules-AllEdits iface = (
  (_, refl),
  (
    (_, refl),
    (
      (_, refl),
      (
        (_, refl),
        (
          (_, refl),
          (
            (_, refl),
            (
              (_, refl),
              (
                (_, refl),
                (
                  (_, refl),
                  (
                    (_, refl),
                    (
                      (_, refl),
                      ((_, refl), ((_, refl), ((_, refl), ((_, refl), ((_, refl), tt))))),
                    ),
                  ),
                ),
              ),
            ),
          ),
        ),
      ),
    ),
  ),
)

abbrev pub accept : Argv
accept = "ACCEPT" ∷ []

abbrev pub drop : Argv
drop = "DROP" ∷ []

abbrev pub redirect : String → Argv
redirect port = "REDIRECT" ∷ "--to-ports" ∷ port ∷ []

abbrev pub tcp_opening : Argv
tcp_opening = "-p" ∷ "tcp" ∷ "--syn" ∷ []

abbrev pub dns_query : Argv
dns_query = "-p" ∷ "udp" ∷ "--dport" ∷ "53" ∷ []

abbrev pub to_loopback : Argv
to_loopback = "-o" ∷ "lo" ∷ []

abbrev pub of_tor : Argv
of_tor = "-m" ∷ "owner" ∷ "--uid-owner" ∷ tor_uid ∷ []

abbrev pub established : Argv
established = "-m" ∷ "state" ∷ "--state" ∷ "ESTABLISHED,RELATED" ∷ []

abbrev pub to_tor : Argv
to_tor = "-p" ∷ "tcp" ∷ "--dport" ∷ "9040" ∷ []

module _ (K : Packets) where
  open K use {Packet, fits}

  -- The packets that the Tor kill switch lets out: to loopback, of Tor's user, of an established
  -- connection, or to Tor's transparent port.
  abbrev pub let_out : Packet → Bool
  let_out p = fits to_loopback p || fits of_tor p || fits established p || fits to_tor p

  -- A chain `OUTPUT` that drops every packet but those, whatever its policy is.
  abbrev pub FailClosed : Tables → Type 0
  FailClosed t =
      (p : Packet) → verdict K t "filter" "OUTPUT" p ≡ (if let_out p then accept else drop)

  -- A packet that opens a TCP connection goes to Tor's transparent port, whoever sends it, and a DNS
  -- query over UDP to Tor's DNS port.
  abbrev pub Redirected : Tables → Type 0
  Redirected t =
      (p : Packet)
      → (fits tcp_opening p ≡ true → verdict K t "nat" "OUTPUT" p ≡ redirect "9040")
        × (fits tcp_opening p ≡ false
            → fits dns_query p ≡ true
            → verdict K t "nat" "OUTPUT" p ≡ redirect "5353")

  tested :
      (a b c d e : Bool) (rest : Argv)
      → e ≡ true
      → (if a
          then accept
          else if b
          then accept
          else if c
          then accept
          else if d
          then accept
          else if e
          then drop
          else rest)
        ≡ (if a || b || c || d then accept else drop)
  tested a b c d e rest h = ground arith

  pub kill_switch_rules-FailClosed : (t : Tables) → FailClosed (replay kill_switch_rules t)
  kill_switch_rules-FailClosed t p =
      tested (fits to_loopback p) (fits of_tor p) (fits established p) (fits to_tor p) (fits [] p)
        (t.policy "filter" "OUTPUT") (K.fits_all p)

  pub kill_switch_rules-Redirected : (t : Tables) → Redirected (replay kill_switch_rules t)
  kill_switch_rules-Redirected t p = (λ h. rw h refl, λ h k. rw (h, k) refl)

  -- A gateway whose chain `FORWARD` drops every packet, whatever its policy was.
  abbrev pub NeverForwards : Tables → Type 0
  NeverForwards t = (p : Packet) → verdict K t "filter" "FORWARD" p ≡ drop

  pub gateway_rules-FailClosed :
      (iface : String) (t : Tables) → FailClosed (replay (gateway_rules iface) t)
  gateway_rules-FailClosed iface t p =
      tested (fits to_loopback p) (fits of_tor p) (fits established p) (fits to_tor p) (fits [] p)
        (t.policy "filter" "OUTPUT") (K.fits_all p)

  pub gateway_rules-NeverForwards :
      (iface : String) (t : Tables) → NeverForwards (replay (gateway_rules iface) t)
  gateway_rules-NeverForwards iface t p = rw (K.fits_all p) refl
