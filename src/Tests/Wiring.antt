-- ===== src/Tests/Wiring.antt =====
-- A host with one virtual machine of two network cards, and the theorem on its wiring.
use privacy_toolkit.Prelude.{◌≡◌, refl, String, true, [], ◌∷◌, str_eq, if◌then◌else◌}
use privacy_toolkit.Exec.Ends.{Ends}
use privacy_toolkit.Host.{Host, exited}
use privacy_toolkit.FirewallBackup.{Argv}
use privacy_toolkit.Tests.Blank.{blank}
use privacy_toolkit.Topology.{vbox_wire_workstation}
use privacy_toolkit.Topology.Cards.{CardLaws, vbox_wire_workstation_lem}

pub record Cards : Type 0 where
  pub first : String
  pub second : String

abbrev last : String → Argv → String
last s [] = s
last s (t ∷ rest) = last t rest

abbrev modified : Argv → Cards → Cards
modified (_ ∷ _ ∷ _ ∷ option ∷ rest) c =
    if str_eq option "--nic1"
    then record c { first = last "" rest }
    else if str_eq option "--nic2"
    then record c { second = "" }
    else c
modified _ c = c

abbrev vbox : Host
vbox = record (blank Cards) { exec = λ argv _ c. (exited 0 "" "", modified argv c) }

abbrev vbox_laws : CardLaws vbox
vbox_laws = record {
  card1 = λ _ c. c.first;
  card2 = λ _ c. c.second;
  set_card1 = λ vm net out err c e. refl;
  unset_card2 = λ vm out err c e. (refl, refl);
}

abbrev unwired : Cards
unwired = record { first = "nat"; second = "bridged" }

vbox_wire_workstation_lem_example :
    Ends
      (λ b c. b ≡ true → (c.first ≡ "pg-gateway-net") × (c.second ≡ ""))
      (λ _. Unit {0})
      (vbox_wire_workstation vbox "kali" "pg-gateway-net" unwired)
vbox_wire_workstation_lem_example =
    vbox_wire_workstation_lem vbox vbox_laws "kali" "pg-gateway-net" unwired
