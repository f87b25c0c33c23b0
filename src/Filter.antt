-- ===== src/Filter.antt =====
-- What the commands of iptables in the rule lists of privacyguard/core.py and
-- privacyguard/gateway.py make of the tables of the packet filter, as the manual of iptables
-- documents it. None of this is code of the repository: the machine's tables and its packets are
-- parameters of the proofs, with the laws that the proofs rely on.
pub mod Replay
pub mod Verdicts
pub mod Untouched
pub mod FailClosed
use privacy_toolkit.Prelude.{
  ℕ, String, ◌≡◌, Bool, true, ◌&&◌, Option, none, some, List, [], ◌∷◌, ◌++◌, str_eq, if◌then◌else◌,
}
use privacy_toolkit.Host.{Host, exited}
use privacy_toolkit.FirewallBackup.{Argv}
use privacy_toolkit.FirewallBackup.Laws.{is_tool6}

-- A rule: the words that a packet is tested by, and the words after `-j`.
pub record FilterRule : Type 0 where
  pub matched : Argv
  pub target : Argv

-- The rules of each chain of each table, and the policy of each chain.
pub record Tables : Type 0 where
  pub rules : String → String → List FilterRule
  pub policy : String → String → Argv

pub data Edit : Type 0 where
  flush_table : String → Edit
  flush_chain : String → String → Edit
  append : String → String → FilterRule → Edit
  set_policy : String → String → Argv → Edit

abbrev split_rule : Argv → FilterRule
split_rule [] = record { matched = []; target = [] }
split_rule (word ∷ words) =
    let rest = split_rule words in
    if str_eq word "-j"
    then record { matched = []; target = words }
    else record { matched = word ∷ rest.matched; target = rest.target }

-- The arguments after the name of the table.
abbrev edit_in : String → Argv → Option Edit
edit_in table [] = none
edit_in table (command ∷ []) = if str_eq command "-F" then some (Edit.flush_table table) else none
edit_in table (command ∷ chain ∷ args) =
    if str_eq command "-A"
    then some (Edit.append table chain (split_rule args))
    else if str_eq command "-P"
    then some (Edit.set_policy table chain args)
    else if str_eq command "-F"
    then some (Edit.flush_chain table chain)
    else none

abbrev edit_args : Argv → Option Edit
edit_args (option ∷ table ∷ args) =
    if str_eq option "-t" then edit_in table args else edit_in "filter" (option ∷ table ∷ args)
edit_args args = edit_in "filter" args

-- What a command asks for; without `-t` it is about the table `filter`.
abbrev pub edit_of : Argv → Option Edit
edit_of [] = none
edit_of (program ∷ args) = if str_eq program "iptables" then edit_args args else none

abbrev pub edited : Edit → Tables → Tables
edited (Edit.flush_table table) t = record t {
  rules = λ u c. if str_eq table u then [] else t.rules u c;
}
edited (Edit.flush_chain table chain) t = record t {
  rules = λ u c. if str_eq table u && str_eq chain c then [] else t.rules u c;
}
edited (Edit.append table chain rule) t = record t {
  rules =
      λ u c. if str_eq table u && str_eq chain c then t.rules u c ++ (rule ∷ []) else t.rules u c;
}
edited (Edit.set_policy table chain target) t = record t {
  policy = λ u c. if str_eq table u && str_eq chain c then target else t.policy u c;
}

abbrev pub edited_if : Option Edit → Tables → Tables
edited_if none t = t
edited_if (some e) t = edited e t

-- The tables after commands that are all accepted.
abbrev pub replay : List Argv → Tables → Tables
replay [] t = t
replay (argv ∷ rest) t = replay rest (edited_if (edit_of argv) t)

-- Each of the commands is one that `edit_of` reads.
abbrev pub AllEdits : List Argv → Type 0
AllEdits [] = Unit
AllEdits (argv ∷ rest) = ((e : Edit) × (edit_of argv ≡ some e)) × AllEdits rest

pub record FilterLaws (H : Host) : Type 1 where
  pub tables : H.Sys → Tables
  -- a command that exits with 0 has done what it asks for
  pub accepted :
      (argv : Argv) (e : Edit) (s : H.Sys) {out err : String}
      → edit_of argv ≡ some e
      → (H.exec argv "" s).0 ≡ exited 0 out err
      → tables (H.exec argv "" s).1 ≡ edited e (tables s)
  -- the programs of the IPv6 family leave the tables of IPv4 alone
  pub frame6 :
      (argv : Argv) (t : String) (s : H.Sys)
      → is_tool6 argv ≡ true
      → tables (H.exec argv t s).1 ≡ tables s

-- The packets, and whether the words of a rule fit one; no words fit every packet.
pub record Packets : Type 1 where
  pub Packet : Type 0
  pub fits : Argv → Packet → Bool
  pub fits_all : (p : Packet) → fits [] p ≡ true

module _ (K : Packets) where
  open K use {Packet, fits}

  -- The target of the first rule that fits, or the policy of the chain.
  abbrev verdict_of : List FilterRule → Argv → Packet → Argv
  verdict_of [] policy p = policy
  verdict_of (rule ∷ rules) policy p =
      if fits rule.matched p then rule.target else verdict_of rules policy p

  abbrev pub verdict : Tables → String → String → Packet → Argv
  verdict t table chain p = verdict_of (t.rules table chain) (t.policy table chain) p
