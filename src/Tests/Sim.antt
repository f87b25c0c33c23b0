-- ===== src/Tests/Sim.antt =====
-- A machine on which every program succeeds: a rule set is the text of the commands that made it, and
-- a file is its text. It meets the laws that the proofs rely on.
use text.Mathlib.TextPositions.{eq_refl}
use privacy_toolkit.Prelude.{
  ◌≡◌, refl, String, Bool, true, false, ◌||◌, Option, some, none, [], ◌∷◌, str_eq, eq_iff, format,
  if◌then◌else◌, ◌⊎◌, inl, inr, arith,
}
use privacy_toolkit.Host.{Host, Reply, exited, Io, done, broken}
use privacy_toolkit.Environment.{Environment}
use privacy_toolkit.FirewallBackup.{Argv}
use privacy_toolkit.FirewallBackup.Laws.{FirewallLaws, is_tool4, is_tool6}

pub record Machine : Type 0 where
  pub rules4 : String
  pub rules6 : String
  pub files : String → Option String

-- The rule set after a command of the family whose three programs are named.
abbrev pub stepped : String → String → Argv → String → String → String
stepped tool restore [] stdin rules = rules
stepped tool restore (p ∷ args) stdin rules =
    if str_eq p tool
    then format (rules ∷ format args ∷ [])
    else if str_eq p restore
    then stdin
    else rules

abbrev pub printed : Argv → Machine → String
printed [] m = ""
printed (p ∷ _) m =
    if str_eq p "iptables-save"
    then m.rules4
    else if str_eq p "ip6tables-save"
    then m.rules6
    else ""

abbrev pub sim_exec : Argv → String → Machine → Reply × Machine
sim_exec argv stdin m = (
  exited 0 (printed argv m) "",
  record m {
    rules4 = stepped "iptables" "iptables-restore" argv stdin m.rules4;
    rules6 = stepped "ip6tables" "ip6tables-restore" argv stdin m.rules6;
  },
)

abbrev pub is_file : Option String → Bool
is_file none = false
is_file (some _) = true

abbrev pub content : Option String → Io String
content none = broken
content (some t) = done t

abbrev pub sim : Host
sim = record {
  Sys = Machine;
  exec = sim_exec;
  which = λ _ _. true;
  exists = λ path m. is_file (m.files path);
  read = λ path m. content (m.files path);
  write = λ path text m.
      (done tt, record m { files = λ q. if str_eq path q then some text else m.files q });
  read_bytes = λ _ _. broken;
  write_bytes = λ _ _ m. (done tt, m);
  random = λ _ m. ([], m);
  mkdir = λ _ m. (done tt, m);
  set_mode = λ _ _ m. (done tt, m);
  unlink = λ path m. (done tt, record m { files = λ q. if str_eq path q then none else m.files q });
  has_module = λ _ _. true;
  ask_tor = λ _ m. (some (record { is_tor = true; ip = "192.0.2.1" }), m);
  ask_ip = λ _ m. (some "192.0.2.1", m);
  connects = λ _ _ m. (some true, m);
  spawn = λ _ m. (true, m);
  stamp = λ _ _. "20260101-000000";
  home = "/root";
  sleep = λ _ m. m;
  clock = λ _. 0;
  pause = λ _ m. m;
  randint = λ _ m. (0, m);
  getenv = λ _ _. "";
  is_superuser = λ _. true;
  newnym = λ _ m. (true, m);
  storable = λ _. done tt;
}

or_cases3 : (a b c : Bool) → (a || b || c) ≡ true → (a ≡ true) ⊎ ((b ≡ true) ⊎ (c ≡ true))
or_cases3 a b c h = ground arith

pub stepped4_of_6 :
    (argv : Argv) (stdin rules : String)
    → is_tool6 argv ≡ true
    → stepped "iptables" "iptables-restore" argv stdin rules ≡ rules
stepped4_of_6 [] stdin rules h = cc
stepped4_of_6 (p ∷ args) stdin rules h = elim (or_cases3 _ _ _ h) [
  | inl e ↦ rw ((eq_iff p "ip6tables").0 e) refl
  | inr (inl e) ↦ rw ((eq_iff p "ip6tables-save").0 e) refl
  | inr (inr e) ↦ rw ((eq_iff p "ip6tables-restore").0 e) refl
]

pub stepped6_of_4 :
    (argv : Argv) (stdin rules : String)
    → is_tool4 argv ≡ true
    → stepped "ip6tables" "ip6tables-restore" argv stdin rules ≡ rules
stepped6_of_4 [] stdin rules h = cc
stepped6_of_4 (p ∷ args) stdin rules h = elim (or_cases3 _ _ _ h) [
  | inl e ↦ rw ((eq_iff p "iptables").0 e) refl
  | inr (inl e) ↦ rw ((eq_iff p "iptables-save").0 e) refl
  | inr (inr e) ↦ rw ((eq_iff p "iptables-restore").0 e) refl
]

pub saved_out :
    (m : Machine) {out err : String}
    → ◌≡◌ {A = Reply} (exited 0 m.rules4 "") (exited 0 out err)
    → out ≡ m.rules4
saved_out m e = cc

abbrev pub sim_laws : FirewallLaws sim
sim_laws = record {
  Rules = String;
  Chains = String;
  table = λ r t. some r;
  v4 = λ m. m.rules4;
  v6 = λ m. m.rules6;
  dump = λ r. r;
  v4_frame = λ argv t m h. stepped4_of_6 argv t m.rules4 h;
  v6_frame = λ argv t m h. stepped6_of_4 argv t m.rules6 h;
  save4 = λ t m. refl;
  save4_out = λ t m e. saved_out m e;
  restore4 = λ r m t c _ e. e;
  answers = λ argv t m h. (0, printed argv m, "", refl);
  read_frame = λ argv t path m h. refl;
  exists_frame = λ argv t path m h. refl;
  mkdir_done = λ path m. refl;
  v4-mkdir = λ path m. refl;
  v4-write = λ path text m. refl;
  read-write = λ path text m _. (rw (eq_refl path) refl, rw (eq_refl path) refl);
  write_frame = λ path other text m h. (rw h refl, rw h refl);
}

-- A full Linux system with root and every tool.
abbrev pub kali : Environment
kali = record {
  termux = false;
  root = true;
  distro = "Kali";
  has_iproute2 = true;
  has_tor = true;
  has_obfs4proxy = true;
  has_proxychains = true;
  has_torsocks = true;
  has_macchanger = true;
  has_iptables = true;
  has_ip6tables = true;
  has_sysctl = true;
  has_systemctl = true;
  has_sdmem = true;
  has_vboxmanage = true;
  has_virsh = true;
  has_scapy = true;
  has_stem = true;
  has_cryptography = true;
  interfaces = "eth0" ∷ [];
}

abbrev pub clean : Machine
clean = record { rules4 = "custom"; rules6 = ""; files = λ _. none }
