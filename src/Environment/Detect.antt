-- ===== src/Environment/Detect.antt =====
-- `detect_environment` of privacyguard/environment.py.
use privacy_toolkit.Prelude.{
  String, Bool, not, ◌||◌, ◌==◌, Option, none, some, List, [], ◌∷◌, str_eq, if◌then◌else◌,
}
use Prim.Native.Char.{Char, code}
use privacy_toolkit.Exec.{pure, gets, catch_all, ◌>>=◌}
use privacy_toolkit.Host.{Host, Call, run, read_text}
use privacy_toolkit.Text.{
  Chars, chars, of_chars, contains, strip_chars, before_first, after_first, splitlines,
}
use privacy_toolkit.Environment.{Environment}

-- The name in `line`, which is `line.split(":")[1].strip().split("@")[0]`; a line without a colon has
-- none.
unfoldable pub link_name : Chars → Option String
unfolding chars of_chars strip_chars before_first after_first
link_name line = elim (after_first (chars ":") line) [
  | none ↦ none
  | some rest ↦
      some (of_chars (before_first (chars "@") (strip_chars (before_first (chars ":") rest))))
]

-- The loop over the lines of `ip -o link show`.
unfoldable pub link_names : List Chars → List String
unfolding link_name
link_names [] = []
link_names (line ∷ lines) =
    let rest = link_names lines in
    elim (link_name line) [
      | none ↦ rest
      | some name ↦ if str_eq name "lo" then rest else name ∷ rest
    ]

abbrev pub ends_name : Char → Bool
ends_name c = code c == 34 || code c == 10

-- `[^"\n]+`, as much of it as there is
unfoldable pub name_part : Chars → Chars
name_part [] = []
name_part (c ∷ s) = let rest = name_part s in if ends_name c then [] else c ∷ rest

abbrev pub without_quote : Chars → Chars
without_quote [] = []
without_quote (c ∷ s) = if code c == 34 then s else c ∷ s

-- What `PRETTY_NAME="?([^"\n]+)"?` captures where it is tried after `PRETTY_NAME=`.
unfoldable pub captured : Chars → Option Chars
unfolding name_part
captured rest = elim (name_part (without_quote rest)) [ [] ↦ none | c ∷ s ↦ some (c ∷ s) ]

-- `re.search`: the first place where the pattern fits. The fuel is a round for each character.
unfoldable pub pretty_name : List (Unit {0}) → Chars → Option Chars
unfolding chars after_first captured
pretty_name [] text = none
pretty_name (_ ∷ fuel) text = elim (after_first (chars "PRETTY_NAME=") text) [
  | none ↦ none
  | some rest ↦ elim (captured rest) [ some name ↦ some name | none ↦ pretty_name fuel rest ]
]

unfoldable pub rounds : Chars → List (Unit {0})
rounds [] = []
rounds (_ ∷ s) = tt ∷ rounds s

unfoldable pub distro_of : String → String
unfolding chars of_chars pretty_name rounds
distro_of text = elim (pretty_name (rounds (chars text)) (chars text)) [
  | none ↦ "unknown"
  | some name ↦ of_chars name
]

module _ (H : Host) where
  abbrev pub have : String → H.Sys → Bool
  have = H.which

  unfoldable pub is_termux : H.Sys → Bool
  unfolding contains
  is_termux s = contains "com.termux" (H.getenv "PREFIX" s) || have "termux-info" s

  unfoldable pub find_distro : Call H String
  unfolding distro_of is_termux
  find_distro = do
    here ← gets (H.exists "/etc/os-release")
    if here
        then catch_all (do text ← read_text H "/etc/os-release"; pure (distro_of text))
            (pure "unknown")
        else do
          termux ← gets is_termux
          pure (if termux then "Termux (Android userland)" else "unknown")

  unfoldable pub find_interfaces : Call H (List String)
  unfolding link_names splitlines chars
  find_interfaces = do
    ip ← gets (have "ip")
    if not ip
        then pure []
        else catch_all
            (do
              out ← run H ("ip" ∷ "-o" ∷ "link" ∷ "show" ∷ [])
              pure (link_names (splitlines (chars out.stdout))))
            (pure [])

  unfoldable pub detect_environment : Call H Environment
  unfolding is_termux
  detect_environment = do
    distro ← find_distro
    interfaces ← find_interfaces
    gets (λ s. record {
      termux = is_termux s;
      root = H.is_superuser s;
      distro = distro;
      has_iproute2 = have "ip" s;
      has_tor = have "tor" s;
      has_obfs4proxy = have "obfs4proxy" s;
      has_proxychains = have "proxychains" s || have "proxychains4" s;
      has_torsocks = have "torsocks" s;
      has_macchanger = have "macchanger" s;
      has_iptables = have "iptables" s;
      has_ip6tables = have "ip6tables" s;
      has_sysctl = have "sysctl" s;
      has_systemctl = have "systemctl" s;
      has_sdmem = have "sdmem" s;
      has_vboxmanage = have "VBoxManage" s;
      has_virsh = have "virsh" s;
      has_scapy = H.has_module "scapy" s;
      has_stem = H.has_module "stem" s;
      has_cryptography = H.has_module "cryptography" s;
      interfaces = interfaces;
    })
