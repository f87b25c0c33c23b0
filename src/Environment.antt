-- ===== src/Environment.antt =====
-- privacyguard/environment.py: what was found out about the machine at the start.
pub mod Detect
use privacy_toolkit.Prelude.{String, Bool, List}

pub record Environment : Type 0 where
  pub termux : Bool
  pub root : Bool
  pub distro : String
  pub has_iproute2 : Bool
  pub has_tor : Bool
  pub has_obfs4proxy : Bool
  pub has_proxychains : Bool
  pub has_torsocks : Bool
  pub has_macchanger : Bool
  pub has_iptables : Bool
  pub has_ip6tables : Bool
  pub has_sysctl : Bool
  pub has_systemctl : Bool
  pub has_sdmem : Bool
  pub has_vboxmanage : Bool
  pub has_virsh : Bool
  pub has_scapy : Bool
  pub has_stem : Bool
  pub has_cryptography : Bool
  pub interfaces : List String
