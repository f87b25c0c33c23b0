-- ===== src/Dns/Verdicts.antt =====
-- When `dns_leak_check` of privacyguard/dns_check.py speaks of a leak.
use privacy_toolkit.Prelude.{
  ℕ, ◌≡◌, refl, ap, String, Bool, true, false, not, ◌||◌, none, some, List, [], ◌∷◌, ◌++◌, ◌∙◌,
  str_eq, if◌then◌else◌,
}
use privacy_toolkit.Exec.{Exec, Res, ok, raised, pure, gets, catch_all}
use privacy_toolkit.Exec.Ends.{Ends, Ends-pure, Ends-bind, Ends-if, Ends-catch_all}
use privacy_toolkit.Host.{Host, done, read_text}
use privacy_toolkit.Text.{Chars, chars, of_chars, splitlines}
use privacy_toolkit.ProxyTor.{check_tor_active}
use privacy_toolkit.Dns.{
  resolv_conf, second_word, is_nameserver, nameservers, non_local, verdict, configured_resolvers,
  dig, find_resolver_ip, dns_leak_check,
}

-- `r in resolvers`
abbrev pub listed : String → List String → Bool
listed r [] = false
listed r (s ∷ rs) = str_eq s r || listed r rs

-- A `nameserver` line with no address ends the search.
nameservers_end :
    (before : List Chars) (line : Chars) (after : List Chars)
    → is_nameserver line ≡ true
    → second_word line ≡ none
    → nameservers (before ++ (line ∷ after)) ≡ nameservers before
unfolding nameservers
nameservers_end [] line after is bare = rw (is, bare) refl
nameservers_end (l ∷ before) line after is bare =
    ap
      (λ rest.
        if is_nameserver l
        then elim (second_word l) as (λ _. List String) [ none ↦ [] | some s ↦ of_chars s ∷ rest ]
        else rest)
      (nameservers_end before line after is bare)

module _ (H : Host) where
  abbrev Returns : {A : Type 0} → Exec H.Sys A → H.Sys → Type 0
  Returns m s = Ends (λ _ _. Unit {0}) (λ _. ⊥) (m s)

  ended : {A : Type 0} (r : Res A × H.Sys) → Ends (λ _ _. Unit {0}) (λ _. Unit {0}) r
  ended (ok a, s) = Ends-pure tt
  ended (raised e, s) = record { at = tt }

  -- A call whose exceptions are all caught returns.
  caught : {A : Type 0} (m : Exec H.Sys A) (a : A) (s : H.Sys) → Returns (catch_all m (pure a)) s
  caught m a s = Ends-catch_all (λ _. Unit {0}) m (ended (m s)) (λ s' _. Ends-pure tt)

  dig-Returns : (args : List String) (s : H.Sys) → Returns (dig H args) s
  unfolding dig
  dig-Returns args s =
      Ends-bind (λ _ _. Unit {0}) (gets (H.which "dig")) (Ends-pure tt)
        (λ installed s1 _. Ends-if (not installed) _ _ (λ _. Ends-pure tt) (λ _. caught _ none s1))

  find_resolver_ip-Returns : (s : H.Sys) → Returns (find_resolver_ip H) s
  unfolding find_resolver_ip
  find_resolver_ip-Returns s =
      Ends-bind (λ _ _. Unit {0}) _ (dig-Returns _ s) (λ _ s1 _. Ends-pure tt)

  check_tor_active-Returns : (timeout : ℕ) (s : H.Sys) → Returns (check_tor_active H timeout) s
  unfolding check_tor_active
  check_tor_active-Returns timeout s =
      Ends-bind (λ _ _. Unit {0}) (gets (H.has_module "socks")) (Ends-pure tt)
        (λ installed s1 _. Ends-if (not installed) _ _ (λ _. Ends-pure tt) (λ _. Ends-pure tt))

  read_done :
      (text : String) (s : H.Sys)
      → H.read resolv_conf s ≡ done text
      → Ends (λ t _. t ≡ text) (λ _. ⊥) (read_text H resolv_conf s)
  unfolding read_text
  read_done text s read = rw read (Ends-pure refl)

  configured_resolvers_end :
      (text : String) (before : List Chars) (line : Chars) (after : List Chars) (s : H.Sys)
      → H.exists resolv_conf s ≡ true
      → H.read resolv_conf s ≡ done text
      → splitlines (chars text) ≡ before ++ (line ∷ after)
      → is_nameserver line ≡ true
      → second_word line ≡ none
      → Ends (λ rs _. rs ≡ nameservers before) (λ _. ⊥) (configured_resolvers H s)
  unfolding configured_resolvers
  configured_resolvers_end text before line after s here read lines is bare =
      Ends-bind (λ there s'. (there ≡ true) × (s' ≡ s)) _ (Ends-pure (here, refl))
        (λ there s' e.
          rw (e.0, e.1)
            (Ends-catch_all (λ _. ⊥) _
              (Ends-bind (λ t _. t ≡ text) _ (read_done text s read)
                (λ t s2 same.
                  Ends-pure
                    (rw same (ap nameservers lines ∙ nameservers_end before line after is bare))))
              (λ _ impossible. absurd impossible)))

  -- A `nameserver` line of /etc/resolv.conf with no address, where the file can be read: the check
  -- returns, the resolvers that it reports are those of the lines before this one, and its verdict is
  -- the verdict on these, whatever the lines after it name.
  pub bare_nameserver_hides :
      (expect_local_only : Bool) (text : String) (before : List Chars) (line : Chars)
      (after : List Chars) (s : H.Sys)
      → H.exists resolv_conf s ≡ true
      → H.read resolv_conf s ≡ done text
      → splitlines (chars text) ≡ before ++ (line ∷ after)
      → is_nameserver line ≡ true
      → second_word line ≡ none
      → Ends
          (λ report _.
            (report.configured_resolvers ≡ nameservers before)
            × (report.leak_verdict ≡ verdict expect_local_only (non_local (nameservers before))))
          (λ _. ⊥)
          (dns_leak_check H expect_local_only s)
  unfolding dns_leak_check
  bare_nameserver_hides expect text before line after s here read lines is bare =
      Ends-bind (λ rs _. rs ≡ nameservers before) _
        (configured_resolvers_end text before line after s here read lines is bare)
        (λ resolvers s1 e.
          Ends-bind (λ _ _. Unit {0}) _ (find_resolver_ip-Returns s1)
            (λ ip s2 _.
              Ends-bind (λ _ _. Unit {0}) _ (check_tor_active-Returns 10 s2)
                (λ tor s3 _. Ends-pure (e, ap (λ rs. verdict expect (non_local rs)) e))))
