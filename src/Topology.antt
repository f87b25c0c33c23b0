-- ===== src/Topology.antt =====
-- privacyguard/gateway_topology.py: the network cards of the gateway's and the workstation's virtual
-- machine, in VirtualBox and in libvirt.
pub mod Cards
use privacy_toolkit.Prelude.{String, Bool, true, false, not, List, [], ◌∷◌, format, if◌then◌else◌}
use privacy_toolkit.Exec.{Exec, pure, gets, catch_if, is_process_error, ◌>>=◌, ◌>>◌}
use privacy_toolkit.Host.{Host, Call, run_checked, run_checked_with}
use privacy_toolkit.FirewallBackup.{Argv}
use privacy_toolkit.Core.Ipv6.{run_all_checked}

abbrev pub gateway_cards : String → String → String → List Argv
gateway_cards vm adapter net =
    ("VBoxManage" ∷ "modifyvm" ∷ vm ∷ "--nic1" ∷ adapter ∷ [])
    ∷ ("VBoxManage" ∷ "modifyvm" ∷ vm ∷ "--nic2" ∷ "intnet" ∷ "--intnet2" ∷ net ∷ [])
    ∷ []

abbrev pub workstation_cards : String → String → List Argv
workstation_cards vm net =
    ("VBoxManage" ∷ "modifyvm" ∷ vm ∷ "--nic1" ∷ "intnet" ∷ "--intnet1" ∷ net ∷ [])
    ∷ ("VBoxManage" ∷ "modifyvm" ∷ vm ∷ "--nic2" ∷ "none" ∷ [])
    ∷ []

abbrev pub attach : String → String → Argv
attach vm network =
    "virsh" ∷ "attach-interface" ∷ vm ∷ "network" ∷ network ∷ "--model" ∷ "virtio" ∷ "--config" ∷ []

-- `ISOLATED_NETWORK_XML.format(…)`
unfoldable pub isolated_network_xml : String → String → String
isolated_network_xml name gateway_ip = format (
    "<network>\n  <name>" ∷ name
    ∷ "</name>\n  <bridge name=\"virbr-pg-gw\" stp=\"on\" delay=\"0\"/>\n  <ip address=\""
    ∷ gateway_ip ∷ "\" netmask=\"255.255.255.0\">\n  </ip>\n</network>" ∷ [])

module _ (H : Host) where
  -- The course of every function here: without the program nothing is done, and a command that fails
  -- ends it.
  unfoldable pub wired : String → Call H (Unit {0}) → Call H Bool
  wired program commands = do
    installed ← gets (H.which program)
    if not installed
        then pure false
        else catch_if is_process_error (do commands; pure true) (pure false)

  unfoldable pub vbox_wire_gateway : String → String → String → Call H Bool
  unfolding wired
  vbox_wire_gateway vm adapter net =
      wired "VBoxManage" (run_all_checked H (gateway_cards vm adapter net))

  unfoldable pub vbox_wire_workstation : String → String → Call H Bool
  unfolding wired
  vbox_wire_workstation vm net = wired "VBoxManage" (run_all_checked H (workstation_cards vm net))

  unfoldable pub define_network : String → String → Call H (Unit {0})
  define_network name gateway_ip = do
    run_checked_with H ("virsh" ∷ "net-define" ∷ "/dev/stdin" ∷ [])
        (isolated_network_xml name gateway_ip)
    run_checked H ("virsh" ∷ "net-start" ∷ name ∷ [])
    run_checked H ("virsh" ∷ "net-autostart" ∷ name ∷ [])
    pure tt

  unfoldable pub virsh_create_isolated_network : String → String → Call H Bool
  unfolding wired define_network
  virsh_create_isolated_network name gateway_ip = wired "virsh" (define_network name gateway_ip)

  unfoldable pub virsh_wire_gateway : String → String → String → Call H Bool
  unfolding wired
  virsh_wire_gateway vm external internal =
      wired "virsh" (run_all_checked H (attach vm external ∷ attach vm internal ∷ []))

  unfoldable pub virsh_wire_workstation : String → String → Call H Bool
  unfolding wired
  virsh_wire_workstation vm internal = wired "virsh" (run_all_checked H (attach vm internal ∷ []))

  abbrev show_cards : String → Call H (Unit {0})
  show_cards vm =
      catch_if is_process_error
        (do run_checked H ("VBoxManage" ∷ "showvminfo" ∷ vm ∷ "--machinereadable" ∷ []); pure tt)
        (pure tt)

  -- What is read is only printed.
  unfoldable pub vbox_verify_topology : String → String → Call H (Unit {0})
  vbox_verify_topology gateway_vm workstation_vm = do
    there ← gets (H.which "VBoxManage")
    if there then (do show_cards gateway_vm; show_cards workstation_vm) else pure tt
