-- ===== src/State/Typed.antt =====
-- The kinds of value in the state file: a reader of a key of `DEFAULT_STATE` relies on them.
use privacy_toolkit.Prelude.{
  ◌≡◌, refl, sym, subst, Bool, true, false, ◌&&◌, String, Option, none, some, List, [], ◌∷◌, str_eq,
  eq_iff, if◌then◌else◌, Bool-cases, inl, inr,
}
use privacy_toolkit.Exec.Ends.{Ends-imp, Ends-state}
use privacy_toolkit.Host.{Host}
use privacy_toolkit.State.{
  Json, null, flag, text, object, StateFile, World, absent, load_unlocked, default_state, dict_of,
  or_else, replaced, update,
}
use privacy_toolkit.State.Laws.{changed, load-replaced, update_lem}
use privacy_toolkit.State.Frames.{member, and_true}

abbrev is_flag : Json → Bool
is_flag (flag _) = true
is_flag _ = false

abbrev text_or_null : Json → Bool
text_or_null null = true
text_or_null (text _) = true
text_or_null _ = false

abbrev object_or_null : Json → Bool
object_or_null null = true
object_or_null (object _) = true
object_or_null _ = false

abbrev switches : List String
switches =
    "tor_kill_switch" ∷ "proxy_only_kill_switch" ∷ "ipv6_blocked" ∷ "portscan_protection"
    ∷ "stealth_sysctls" ∷ "ram_wipe_hook" ∷ "gateway_mode_active" ∷ "workstation_configured" ∷ []

abbrev objects : List String
objects = "portscan_params" ∷ "stealth_sysctls_backup" ∷ "gateway_config" ∷ []

abbrev texts : List String
texts =
    "iptables_backup" ∷ "ip6tables_backup" ∷ "nat_iptables_backup" ∷ "active_proxy" ∷ "vpn_active"
    ∷ "gateway_iptables_backup" ∷ "gateway_ip6tables_backup" ∷ "last_updated" ∷ []

-- A switch is a Boolean, parameters are an object or `None`, and paths, names and times are texts or
-- `None`. Of other keys nothing is asked.
abbrev pub conforms : String → Json → Bool
conforms k v =
    if member k switches
    then is_flag v
    else if member k objects
    then object_or_null v
    else if member k texts
    then text_or_null v
    else true

abbrev pub all_conform : List (String × Json) → Bool
all_conform [] = true
all_conform ((k, v) ∷ rest) = conforms k v && all_conform rest

abbrev ValueConforms : String → Option Json → Type 0
ValueConforms k none = Unit
ValueConforms k (some v) = conforms k v ≡ true

-- What is loaded at each key is of its kind.
abbrev pub Typed : StateFile → Type 0
Typed f = (k : String) → ValueConforms k (load_unlocked f k)

dict_of-ValueConforms :
    (changes : List (String × Json)) (k : String)
    → all_conform changes ≡ true
    → ValueConforms k (dict_of changes k)
dict_of-ValueConforms [] k all = tt
dict_of-ValueConforms ((j, v) ∷ rest) k all =
    let (first, later) = and_true (conforms j v) (all_conform rest) all in
    elim (Bool-cases (str_eq j k)) [
      | inl e ↦ rw e (subst (λ i. conforms i v ≡ true) ((eq_iff j k).0 e) first)
      | inr e ↦ rw e (dict_of-ValueConforms rest k later)
    ]

or_else-ValueConforms :
    (k : String) (o p : Option Json)
    → ValueConforms k o
    → ValueConforms k p
    → ValueConforms k (or_else o p)
or_else-ValueConforms k none p ho hp = hp
or_else-ValueConforms k (some v) p ho hp = ho

-- With no state file the defaults are loaded, which are of their kinds.
pub absent-Typed : Typed absent
unfolding load_unlocked default_state
absent-Typed k = dict_of-ValueConforms default_state k refl

module _ (H : Host) where
  replaced-Typed :
      (changes : List (String × Json)) (w : World H)
      → all_conform changes ≡ true
      → Typed w.file
      → Typed (replaced H (changed H changes w) w).file
  unfolding load_unlocked
  replaced-Typed changes w all h k = elim (Bool-cases (str_eq k "last_updated")) [
    | inl e ↦
        subst (λ i. ValueConforms i (load_unlocked (replaced H (changed H changes w) w).file i))
          (sym ((eq_iff k "last_updated").0 e)) refl
    | inr ne ↦
        subst (ValueConforms k)
          (sym (load-replaced H changes w k (λ e. let same = (eq_iff k "last_updated").1 e in cc)))
          (or_else-ValueConforms k (dict_of changes k) (load_unlocked w.file k)
            (dict_of-ValueConforms changes k all) (h k))
  ]

  -- A change of keys to values of their kinds keeps all of them so.
  pub update-Typed :
      (changes : List (String × Json)) (w : World H)
      → all_conform changes ≡ true
      → Typed w.file
      → Typed (update H changes w).1.file
  update-Typed changes w all h = Ends-state {P = λ w'. Typed w'.file} (update H changes w) (
      Ends-imp _ (λ _ _ e. rw e.1 (replaced-Typed changes w all h)) (λ _ e. rw e h)
        (update_lem H changes w))
