-- ===== src/FirewallBackup/Laws.antt =====
-- What the proofs rely on of iptables and of the file system, as their manuals document it.
use privacy_toolkit.Prelude.{ℕ, String, ◌≡◌, Bool, true, false, ◌||◌, [], ◌∷◌, Option, some, str_eq}
use privacy_toolkit.Host.{Host, exited, done}
use privacy_toolkit.FirewallBackup.{Argv}

-- The programs that act on IPv4 rules and those that act on IPv6 rules.
abbrev pub is_tool4 : Argv → Bool
is_tool4 [] = false
is_tool4 (p ∷ _) = str_eq p "iptables" || str_eq p "iptables-save" || str_eq p "iptables-restore"

abbrev pub is_tool6 : Argv → Bool
is_tool6 [] = false
is_tool6 (p ∷ _) = str_eq p "ip6tables" || str_eq p "ip6tables-save" || str_eq p "ip6tables-restore"

abbrev pub is_tool : Argv → Bool
is_tool argv = is_tool4 argv || is_tool6 argv

pub record FirewallLaws (H : Host) : Type 1 where
  -- the whole rule set of one family, and the text that the save program prints of it
  pub Rules : Type 0
  -- the chains of a table, where the table is loaded
  pub Chains : Type 0
  pub table : Rules → String → Option Chains
  pub v4 : H.Sys → Rules
  pub v6 : H.Sys → Rules
  pub dump : Rules → String
  -- the programs of one family leave the other family alone
  pub v4_frame :
      (argv : Argv) (t : String) (s : H.Sys) → is_tool6 argv ≡ true → v4 (H.exec argv t s).1 ≡ v4 s
  pub v6_frame :
      (argv : Argv) (t : String) (s : H.Sys) → is_tool4 argv ≡ true → v6 (H.exec argv t s).1 ≡ v6 s
  -- saving changes nothing, and prints the rule set when it succeeds
  pub save4 : (t : String) (s : H.Sys) → v4 (H.exec ("iptables-save" ∷ []) t s).1 ≡ v4 s
  pub save4_out :
      (t : String) (s : H.Sys) {out err : String}
      → (H.exec ("iptables-save" ∷ []) t s).0 ≡ exited 0 out err
      → out ≡ dump (v4 s)
  -- a saved rule set that is accepted is in force, table by table; a table that it does not name is
  -- another matter
  pub restore4 :
      (r : Rules) (s : H.Sys) {out err : String} (t : String) (c : Chains)
      → (H.exec ("iptables-restore" ∷ []) (dump r) s).0 ≡ exited 0 out err
      → table r t ≡ some c
      → table (v4 (H.exec ("iptables-restore" ∷ []) (dump r) s).1) t ≡ some c
  -- the programs are installed, and write no files
  pub answers :
      (argv : Argv) (t : String) (s : H.Sys)
      → is_tool argv ≡ true
      → (code : ℕ) × (out : String) × (err : String) × ((H.exec argv t s).0 ≡ exited code out err)
  pub read_frame :
      (argv : Argv) (t path : String) (s : H.Sys)
      → is_tool argv ≡ true
      → H.read path (H.exec argv t s).1 ≡ H.read path s
  pub exists_frame :
      (argv : Argv) (t path : String) (s : H.Sys)
      → is_tool argv ≡ true
      → H.exists path (H.exec argv t s).1 ≡ H.exists path s
  -- files and the firewall are separate, and a file that was written is there and reads back
  pub mkdir_done : (path : String) (s : H.Sys) → (H.mkdir path s).0 ≡ done tt
  pub v4-mkdir : (path : String) (s : H.Sys) → v4 (H.mkdir path s).1 ≡ v4 s
  pub v4-write : (path text : String) (s : H.Sys) → v4 (H.write path text s).1 ≡ v4 s
  pub read-write :
      (path text : String) (s : H.Sys)
      → (H.write path text s).0 ≡ done tt
      → (H.read path (H.write path text s).1 ≡ done text)
        × (H.exists path (H.write path text s).1 ≡ true)
  pub write_frame :
      (path other text : String) (s : H.Sys)
      → str_eq path other ≡ false
      → (H.read other (H.write path text s).1 ≡ H.read other s)
        × (H.exists other (H.write path text s).1 ≡ H.exists other s)
