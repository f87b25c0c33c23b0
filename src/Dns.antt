-- ===== src/Dns.antt =====
-- privacyguard/dns_check.py: which resolvers are configured, and whether that is a leak.
pub mod Verdicts
use Prim.Native.Char.{Char, code}
use privacy_toolkit.Prelude.{
  ℕ, String, Bool, true, false, not, ◌||◌, ◌&&◌, ◌==◌, Option, none, some, List, [], ◌∷◌, ◌++◌,
  str_eq, if◌then◌else◌,
}
use privacy_toolkit.Exec.{pure, gets, catch_all, ◌>>=◌, ◌>>◌}
use privacy_toolkit.Host.{Host, TorAnswer, Call, run, read_text}
use privacy_toolkit.Text.{
  Chars, chars, of_chars, strip, strip_chars, starts_with, splitlines, is_space, drop_while,
  drop_end,
}
use privacy_toolkit.ProxyTor.{check_tor_active}

abbrev pub resolv_conf : String
resolv_conf = "/etc/resolv.conf"

-- The first word of a text that does not begin with white space, and what follows it.
unfoldable pub first_word : Chars → Chars × Chars
unfolding is_space
first_word [] = ([], [])
first_word (c ∷ s) =
    let (word, rest) = first_word s in if is_space c then ([], c ∷ s) else (c ∷ word, rest)

-- `line.split()[1]`; there is none on a line of one word
unfoldable pub second_word : Chars → Option Chars
unfolding first_word drop_while is_space
second_word line =
    let after = drop_while is_space (first_word (drop_while is_space line)).1 in
    let word = (first_word after).0 in elim word [ [] ↦ none | c ∷ s ↦ some (c ∷ s) ]

-- `line.strip().startswith("nameserver")`
unfoldable pub is_nameserver : Chars → Bool
unfolding strip_chars starts_with chars
is_nameserver line = starts_with (chars "nameserver") (strip_chars line)

-- The loop over the lines: at a line with no address `line.split()[1]` raises, and the loop ends with
-- what was found until then.
unfoldable pub nameservers : List Chars → List String
unfolding of_chars
nameservers [] = []
nameservers (line ∷ lines) =
    let rest = nameservers lines in
    if is_nameserver line
    then elim (second_word line) [ none ↦ [] | some s ↦ of_chars s ∷ rest ]
    else rest

-- `r.startswith("127.") or r == "::1"`
unfoldable pub is_local : String → Bool
unfolding starts_with chars
is_local r = starts_with (chars "127.") (chars r) || str_eq r "::1"

-- `[r for r in resolvers if not (…)]`
unfoldable pub non_local : List String → List String
non_local [] = []
non_local (r ∷ rs) = let rest = non_local rs in if is_local r then rest else r ∷ rest

abbrev pub leaking : String
leaking =
    "LIKELY LEAKING — non-local resolver(s) configured while a tunnel is supposed to be active."

abbrev pub direct : String
direct = "No tunnel claimed active — resolvers going direct (expected)."

abbrev pub all_local : String
all_local =
    "All configured resolvers are local/loopback (good — assuming the local stub genuinely forwards through your tunnel)."

-- `if non_local`
abbrev pub is_any : List String → Bool
is_any [] = false
is_any (_ ∷ _) = true

unfoldable pub verdict : Bool → List String → String
verdict expect_local_only found =
    if expect_local_only && is_any found
    then leaking
    else if is_any found
    then direct
    else all_local

-- The dict that `dns_leak_check` answers; `noted` is whether it has a "tor_dns_note".
pub record DnsReport : Type 0 where
  pub configured_resolvers : List String
  pub non_local_resolvers : List String
  pub leak_verdict : String
  pub resolver_identifying_ip : String
  pub tor_exit_ip : Option String
  pub noted : Bool

abbrev pub is_quote : Char → Bool
is_quote c = code c == 34

-- `s or None`
abbrev pub text_or_none : String → Option String
text_or_none s = if str_eq s "" then none else some s

module _ (H : Host) where
  unfoldable pub configured_resolvers : Call H (List String)
  unfolding nameservers splitlines chars
  configured_resolvers = do
    here ← gets (H.exists resolv_conf)
    if here
        then catch_all
            (do content ← read_text H resolv_conf; pure (nameservers (splitlines (chars content))))
            (pure [])
        else pure []

  -- `_dig`
  unfoldable pub dig : List String → Call H (Option String)
  unfolding strip
  dig args = do
    installed ← gets (H.which "dig")
    if not installed
        then pure none
        else catch_all
            (do
              out ← run H ("dig" ∷ "+short" ∷ "+time=5" ∷ args)
              pure (text_or_none (strip out.stdout)))
            (pure none)

  unfoldable pub find_resolver_ip : Call H (Option String)
  unfolding drop_end drop_while chars of_chars
  find_resolver_ip = do
    result ← dig ("-c" ∷ "CHAOS" ∷ "-t" ∷ "TXT" ∷ "o-o.myaddr.l.google.com" ∷ [])
    pure (elim result [
      | none ↦ none
      | some s ↦ some (of_chars (drop_end is_quote (drop_while is_quote (chars s))))
    ])

  abbrev pub or_unavailable : Option String → String
  or_unavailable none = "unavailable (install `dig`, or query was blocked)"
  or_unavailable (some ip) =
      if str_eq ip "" then "unavailable (install `dig`, or query was blocked)" else ip

  abbrev pub exit_ip : Option TorAnswer → Option String
  exit_ip none = none
  exit_ip (some a) = some a.ip

  -- `resolver_ip and IsTor and resolver_ip != IP`
  abbrev pub differs : Option String → Option TorAnswer → Bool
  differs none answer = false
  differs (some ip) none = false
  differs (some ip) (some a) = not (str_eq ip "") && a.is_tor && not (str_eq ip a.ip)

  unfoldable pub dns_leak_check : Bool → Call H DnsReport
  dns_leak_check expect_local_only = do
    resolvers ← configured_resolvers
    resolver_ip ← find_resolver_ip
    tor ← check_tor_active H 10
    pure (record {
      configured_resolvers = resolvers;
      non_local_resolvers = non_local resolvers;
      leak_verdict = verdict expect_local_only (non_local resolvers);
      resolver_identifying_ip = or_unavailable resolver_ip;
      tor_exit_ip = exit_ip tor;
      noted = differs resolver_ip tor;
    })
