-- ===== src/Tests/Profiles.antt =====
-- The tab of the profiles on the machine of Tests/Vault, with a codec for what it saves.
use privacy_toolkit.Prelude.{
  ◌≡◌, refl, String, Option, none, some, List, [], ◌∷◌, str_eq, if◌then◌else◌,
}
use privacy_toolkit.Crypto.{Codec}
use privacy_toolkit.Crypto.Laws.{Works, CodecLaws}
use privacy_toolkit.Text.{strip, chars, of_chars, strip_chars, drop_while, drop_end, is_space}
use privacy_toolkit.Gui.{nonblank_lines}
use privacy_toolkit.Gui.Buttons.{outcome}
use privacy_toolkit.Gui.Vault.{Profile, Window, press_save_profile, press_load_profile}
use privacy_toolkit.Gui.Vault.RoundTrip.{press_load_profile-press_save_profile}
use privacy_toolkit.Tests.Vault.{
  put_texts, get_texts, get_texts-put_texts, vault, vault_laws, cipher, cipher_laws, empty_disk,
}
use privacy_toolkit.Tests.Window.{fields}

abbrev Lines : Type 0
Lines = List String

-- A list, item by item, and then what follows it.
put_list : Lines → Lines → Lines
put_list [] rest = "e" ∷ rest
put_list (l ∷ ls) rest = "i" ∷ l ∷ put_list ls rest

with_item : String → Option (Lines × Lines) → Option (Lines × Lines)
with_item l none = none
with_item l (some (ls, rest)) = some (l ∷ ls, rest)

get_list : Lines → Option (Lines × Lines)
unfolding with_item
get_list [] = none
get_list (t ∷ []) = if str_eq t "e" then some ([], []) else none
get_list (t ∷ l ∷ rest) =
    let r = get_list rest in if str_eq t "e" then some ([], l ∷ rest) else with_item l r

get_end : (rest : Lines) → get_list ("e" ∷ rest) ≡ some ([], rest)
unfolding get_list
get_end [] = refl
get_end (l ∷ rest) = refl

get_list-put_list : (ls rest : Lines) → get_list (put_list ls rest) ≡ some (ls, rest)
unfolding get_list put_list with_item
get_list-put_list [] rest = get_end rest
get_list-put_list (l ∷ ls) rest = rw (get_list-put_list ls rest) refl

put_field : Option Lines → Lines → Lines
unfolding put_list
put_field none rest = "n" ∷ rest
put_field (some ls) rest = "s" ∷ put_list ls rest

as_some : Option (Lines × Lines) → Option (Option Lines × Lines)
as_some none = none
as_some (some (ls, rest)) = some (some ls, rest)

get_field : Lines → Option (Option Lines × Lines)
unfolding get_list as_some
get_field [] = none
get_field (t ∷ rest) = if str_eq t "n" then some (none, rest) else as_some (get_list rest)

get_field-put_field :
    (o : Option Lines) (rest : Lines) → get_field (put_field o rest) ≡ some (o, rest)
unfolding get_field put_field as_some
get_field-put_field none rest = refl
get_field-put_field (some ls) rest = rw (get_list-put_list ls rest) refl

put_settings : Profile → Lines
unfolding put_field
put_settings d = put_field d.proxies (put_field d.bridges [])

with_bridges : Option Lines → Option (Option Lines × Lines) → Option Profile
with_bridges p none = none
with_bridges p (some (b, _)) = some (record { proxies = p; bridges = b })

with_proxies : Option (Option Lines × Lines) → Option Profile
unfolding get_field with_bridges
with_proxies none = none
with_proxies (some (p, rest)) = with_bridges p (get_field rest)

get_settings : Option Lines → Option Profile
unfolding get_field with_proxies
get_settings none = none
get_settings (some ts) = with_proxies (get_field ts)

settings_back : (d : Profile) → get_settings (some (put_settings d)) ≡ some d
unfolding get_settings put_settings with_proxies with_bridges
settings_back d =
    rw (get_field-put_field d.proxies (put_field d.bridges []), get_field-put_field d.bridges [])
      refl

abbrev settings : Codec Profile
settings = record {
  dumps = λ d. put_texts (put_settings d);
  loads = λ bs. get_settings (get_texts bs);
}

abbrev settings_laws : CodecLaws settings
settings_laws = record {
  loads-dumps = λ d. rw (get_texts-put_texts (put_settings d)) (settings_back d);
}

abbrev works : Works vault
works = record {
  has_cryptography = λ _. refl;
  mkdir_done = λ _ _. refl;
  write_done = λ _ _ _. refl;
}

abbrev window : Window vault
window = record { sys = empty_disk; form = fields }

press_load_profile-press_save_profile_example :
    let v' =
      (outcome
        (press_load_profile vault cipher settings fields)
        (record (outcome (press_save_profile vault cipher settings fields) window).1 {
          form = record fields { profile_proxies_text = "typed over\n" };
        })).1 in
    (nonblank_lines v'.form.profile_proxies_text ≡ nonblank_lines fields.profile_proxies_text)
    × (nonblank_lines v'.form.profile_bridges_text ≡ nonblank_lines fields.profile_bridges_text)
unfolding strip chars of_chars strip_chars drop_while drop_end is_space
press_load_profile-press_save_profile_example =
    press_load_profile-press_save_profile vault vault_laws works cipher cipher_laws settings
      settings_laws fields (record fields { profile_proxies_text = "typed over\n" }) window refl
      refl
