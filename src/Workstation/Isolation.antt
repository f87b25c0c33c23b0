-- ===== src/Workstation/Isolation.antt =====
-- `verify_isolation` of privacyguard/workstation.py. A report is its list of checks, each with a name
-- in place of its line on the terminal.
use privacy_toolkit.Prelude.{
  ℕ, suc, String, Bool, true, false, not, ◌||◌, ◌==◌, leb, Option, none, some, List, [], ◌∷◌, ◌++◌,
  str_eq, if◌then◌else◌,
}
use privacy_toolkit.Exec.{Exn, pure, raise, gets, catch_all, ◌>>=◌}
use privacy_toolkit.Host.{Host, Call, run_checked, read_text}
use privacy_toolkit.Text.{Chars, chars, of_chars, occurs, strip_chars, splitlines, contains}
use privacy_toolkit.Dns.{resolv_conf, second_word, is_nameserver}
use privacy_toolkit.Verify.{Checks}

-- `len(…)`
abbrev pub count {ℓ} : {A : Type ℓ} → List A → ℕ
count [] = 0
count (_ ∷ xs) = suc (count xs)

abbrev pub is_empty : Chars → Bool
is_empty [] = true
is_empty (_ ∷ _) = false

-- `[l for l in … if ": lo:" not in l and l.strip()]`
unfoldable pub other_links : List Chars → List Chars
unfolding chars occurs strip_chars
other_links [] = []
other_links (l ∷ ls) =
    let rest = other_links ls in
    if occurs (chars ": lo:") l || is_empty (strip_chars l) then rest else l ∷ rest

-- `[l.split()[1] for l in … if l.strip().startswith("nameserver")]`; `none` where a line has no second
-- word, which raises `IndexError`
unfoldable pub dns_servers : List Chars → Option (List String)
unfolding is_nameserver second_word of_chars
dns_servers [] = some []
dns_servers (l ∷ ls) =
    let rest = dns_servers ls in
    if is_nameserver l
    then elim (second_word l) [
      | none ↦ none
      | some s ↦ elim rest [ none ↦ none | some servers ↦ some (of_chars s ∷ servers) ]
    ]
    else rest

abbrev pub listed : String → List String → Bool
listed s [] = false
listed s (t ∷ ts) = str_eq t s || listed s ts

-- `len(set(servers))`
unfoldable pub distinct : List String → ℕ
distinct [] = 0
distinct (s ∷ ss) = let n = distinct ss in if listed s ss then n else suc n

-- `servers == [gateway]`
abbrev pub is_only : String → List String → Bool
is_only gateway [] = false
is_only gateway (s ∷ []) = str_eq s gateway
is_only gateway (s ∷ t ∷ rest) = false

-- `if expected_gateway_ip`
abbrev pub expected : Option String → Option String
expected none = none
expected (some ip) = if str_eq ip "" then none else some ip

abbrev pub route_check : Option String → List Chars → Checks
unfolding contains of_chars
route_check none routes = []
route_check (some gateway) [] = []
route_check (some gateway) (r ∷ rs) = ("gateway route", contains gateway (of_chars r)) ∷ []

abbrev pub dns_check : Option String → List String → Checks
dns_check none servers = []
dns_check (some gateway) servers = ("gateway resolver", is_only gateway servers) ∷ []

module _ (H : Host) where
  unfoldable pub check_links : Call H Checks
  unfolding other_links splitlines chars
  check_links =
      catch_all
        (do
          out ← run_checked H ("ip" ∷ "-o" ∷ "link" ∷ "show" ∷ [])
          pure (("one link", count (other_links (splitlines (chars out.stdout))) == 1) ∷ []))
        (pure (("one link", false) ∷ []))

  unfoldable pub check_routes : Option String → Call H Checks
  unfolding splitlines strip_chars chars
  check_routes gateway =
      catch_all
        (do
          out ← run_checked H ("ip" ∷ "route" ∷ "show" ∷ "default" ∷ [])
          let routes = splitlines (strip_chars (chars out.stdout))
          pure (("one route", count routes == 1) ∷ route_check (expected gateway) routes))
        (pure (("one route", false) ∷ []))

  abbrev pub found_servers : Option String → Option (List String) → Call H Checks
  found_servers gateway none = raise Exn.key_missing
  found_servers gateway (some servers) =
      pure (("one resolver", leb (distinct servers) 1) ∷ dns_check (expected gateway) servers)

  unfoldable pub check_dns : Option String → Call H Checks
  unfolding dns_servers distinct splitlines chars
  check_dns gateway = do
    here ← gets (H.exists resolv_conf)
    if not here then pure [] else (do
      content ← read_text H resolv_conf
      found_servers gateway (dns_servers (splitlines (chars content))))

  unfoldable pub verify_isolation : Option String → Call H Checks
  verify_isolation gateway = do
    links ← check_links
    routes ← check_routes gateway
    dns ← check_dns gateway
    pure (links ++ (routes ++ dns))
