-- ===== src/Topology/Cards.antt =====
-- Which network cards a workstation has once `vbox_wire_workstation` of
-- privacyguard/gateway_topology.py has answered true.
use privacy_toolkit.Prelude.{ℕ, String, ◌≡◌, refl, ◌∙◌, ap, arith, true, not, [], ◌∷◌, ◌==◌}
use privacy_toolkit.Exec.{gets}
use privacy_toolkit.Exec.Ends.{Ends, Ends-imp, Ends-pure, Ends-bind, Ends-if, Ends-catch_if}
use privacy_toolkit.Host.{
  Host, Reply, exited, missing, late, settle, Finished, run, run_with, run_checked,
}
use privacy_toolkit.FirewallBackup.{Argv}
use privacy_toolkit.Core.Ipv6.{run_all_checked}
use privacy_toolkit.Topology.{workstation_cards, wired, vbox_wire_workstation}

-- What the manual of VBoxManage says of `modifyvm`: on success it sets the card that is named, and
-- leaves the other card alone.
pub record CardLaws (H : Host) : Type 1 where
  -- the network that the first and the second card of a machine are attached to; "" for none
  pub card1 : String → H.Sys → String
  pub card2 : String → H.Sys → String
  pub set_card1 :
      (vm net out err : String) (s : H.Sys)
      → (H.exec
          ("VBoxManage" ∷ "modifyvm" ∷ vm ∷ "--nic1" ∷ "intnet" ∷ "--intnet1" ∷ net ∷ [])
          ""
          s).0
        ≡ exited 0 out err
      → card1 vm
          (H.exec
            ("VBoxManage" ∷ "modifyvm" ∷ vm ∷ "--nic1" ∷ "intnet" ∷ "--intnet1" ∷ net ∷ [])
            ""
            s).1
        ≡ net
  pub unset_card2 :
      (vm out err : String) (s : H.Sys)
      → (H.exec ("VBoxManage" ∷ "modifyvm" ∷ vm ∷ "--nic2" ∷ "none" ∷ []) "" s).0 ≡ exited 0 out err
      → (card2 vm (H.exec ("VBoxManage" ∷ "modifyvm" ∷ vm ∷ "--nic2" ∷ "none" ∷ []) "" s).1 ≡ "")
        × (card1 vm (H.exec ("VBoxManage" ∷ "modifyvm" ∷ vm ∷ "--nic2" ∷ "none" ∷ []) "" s).1
            ≡ card1 vm s)

is_zero : (n : ℕ) → (n == 0) ≡ true → n ≡ 0
is_zero n h = ground arith

module _ (H : Host) where
  settled :
      (r : Reply) (s : H.Sys)
      → Ends {S = H.Sys} {A = Finished H}
          (λ f s'. (r ≡ exited f.returncode f.stdout f.stderr) × (s' ≡ s))
          (λ _. Unit {0})
          (settle H r s)
  settled (exited code out err) s = Ends-pure (refl, refl)
  settled missing s = record { at = tt }
  settled late s = record { at = tt }

  run_checked_lem :
      (argv : Argv) (s : H.Sys)
      → Ends
          (λ f s'.
            ((H.exec argv "" s).0 ≡ exited 0 f.stdout f.stderr) × (s' ≡ (H.exec argv "" s).1))
          (λ _. Unit {0})
          (run_checked H argv s)
  unfolding run_checked run run_with
  run_checked_lem argv s =
      Ends-bind
        (λ f s'.
          ((H.exec argv "" s).0 ≡ exited f.returncode f.stdout f.stderr)
          × (s' ≡ (H.exec argv "" s).1))
        _ (settled (H.exec argv "" s).0 (H.exec argv "" s).1)
        (λ f s' k.
          Ends-if (f.returncode == 0) _ _
            (λ zero_code.
              Ends-pure
                (k.0 ∙ ap (λ n. exited n f.stdout f.stderr) (is_zero f.returncode zero_code), k.1))
            (λ _. record { at = tt }))

  module _ (L : CardLaws H) where
    open L use {card1, card2}

    wire_workstation_cards :
        (vm net : String) (s : H.Sys)
        → Ends
            (λ _ s'. (card1 vm s' ≡ net) × (card2 vm s' ≡ ""))
            (λ _. Unit {0})
            (run_all_checked H (workstation_cards vm net) s)
    unfolding run_all_checked
    wire_workstation_cards vm net s =
        Ends-bind (λ _ s'. card1 vm s' ≡ net) _
          (Ends-imp _ (λ f s1 k. ap (card1 vm) k.1 ∙ L.set_card1 vm net f.stdout f.stderr s k.0)
            (λ _ e. e) (run_checked_lem _ s))
          (λ _ s1 first.
            Ends-bind (λ _ s'. (card1 vm s' ≡ net) × (card2 vm s' ≡ "")) _
              (Ends-imp _
                (λ f s2 k.
                  let both = L.unset_card2 vm f.stdout f.stderr s1 k.0 in
                  (ap (card1 vm) k.1 ∙ both.1 ∙ first, ap (card2 vm) k.1 ∙ both.0))
                (λ _ e. e) (run_checked_lem _ s1))
              (λ _ s2 k. Ends-pure k))

    -- Wiring a workstation in VirtualBox, on a host where `modifyvm` does what its manual says of the
    -- first two cards: where it answers true, the first card is on the internal network and the second
    -- card is on none.
    pub vbox_wire_workstation_lem :
        (vm net : String) (s : H.Sys)
        → Ends
            (λ b s'. b ≡ true → (card1 vm s' ≡ net) × (card2 vm s' ≡ ""))
            (λ _. Unit {0})
            (vbox_wire_workstation H vm net s)
    unfolding vbox_wire_workstation wired
    vbox_wire_workstation_lem vm net s =
        Ends-bind (λ _ _. Unit {0}) (gets (H.which "VBoxManage")) (Ends-pure tt)
          (λ installed s1 _.
            Ends-if (not installed) _ _ (λ _. Ends-pure (λ z. cc))
              (λ _.
                Ends-catch_if _ _
                  (Ends-bind (λ _ s'. (card1 vm s' ≡ net) × (card2 vm s' ≡ "")) _
                    (wire_workstation_cards vm net s1) (λ _ s2 k. Ends-pure (λ _. k)))
                  (λ s2 _. Ends-pure (λ z. cc))))
