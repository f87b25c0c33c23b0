-- ===== src/State.antt =====
-- privacyguard/state.py: the JSON file that records what is switched on. A Python dict is the
-- function of its keys; the order of its keys only shows in the file's layout.
pub mod Laws
pub mod Frames
pub mod Threads
pub mod Typed
use privacy_toolkit.Prelude.{
  ℕ, String, Bool, true, false, not, Option, none, some, List, [], ◌∷◌, str_eq, if◌then◌else◌,
}
use privacy_toolkit.Exec.{Exec, Exn, ok, raised, pure, ◌>>=◌, ◌>>◌}
use privacy_toolkit.Host.{Host, Io, done, denied, broken}

-- The JSON values that the program stores: an object holds no further object.
pub data Scalar : Type 0 where
  nothing : Scalar
  number : ℕ → Scalar
  words : String → Scalar

pub data Json : Type 0 where
  null : Json
  flag : Bool → Json
  text : String → Json
  object : List (String × Scalar) → Json

abbrev pub Dict : Type 0
Dict = String → Option Json

abbrev pub insert : String → Json → Dict → Dict
insert k v d j = if str_eq k j then some v else d j

abbrev pub or_else : Option Json → Option Json → Option Json
or_else none o = o
or_else (some v) o = some v

-- `d.update(e)`
abbrev pub merge : Dict → Dict → Dict
merge d e k = or_else (e k) (d k)

abbrev pub dict_of : List (String × Json) → Dict
dict_of [] k = none
dict_of ((j, v) ∷ rest) k = if str_eq j k then some v else dict_of rest k

unfoldable pub default_state : List (String × Json)
default_state =
    ("tor_kill_switch", flag false)
    ∷ ("proxy_only_kill_switch", flag false)
    ∷ ("ipv6_blocked", flag false)
    ∷ ("portscan_protection", flag false)
    ∷ ("portscan_params", null)
    ∷ ("stealth_sysctls", flag false)
    ∷ ("stealth_sysctls_backup", null)
    ∷ ("ram_wipe_hook", flag false)
    ∷ ("iptables_backup", null)
    ∷ ("ip6tables_backup", null)
    ∷ ("nat_iptables_backup", null)
    ∷ ("active_proxy", null)
    ∷ ("vpn_active", null)
    ∷ ("gateway_mode_active", flag false)
    ∷ ("gateway_iptables_backup", null)
    ∷ ("gateway_ip6tables_backup", null)
    ∷ ("gateway_config", null)
    ∷ ("workstation_configured", flag false)
    ∷ ("last_updated", null)
    ∷ []

-- The state file: not there, there and no JSON object, or a complete one. `os.replace` swaps a
-- whole file in, so no other content is ever seen.
pub data StateFile : Type 0 where
  absent unreadable : StateFile
  saved : Dict → StateFile

-- `_load_unlocked`
unfoldable pub load_unlocked : StateFile → Dict
load_unlocked absent = dict_of default_state
load_unlocked unreadable = dict_of default_state
load_unlocked (saved d) = merge (dict_of default_state) d

-- Python's truth of a value.
abbrev pub truthy : Json → Bool
truthy null = false
truthy (flag b) = b
truthy (text s) = not (str_eq s "")
truthy (object []) = false
truthy (object (_ ∷ _)) = true

-- `d.get(key)`: a missing key is `None`.
abbrev pub get : Dict → String → Json
get d k = elim (d k) [ none ↦ null | some v ↦ v ]

-- `if d[key]`
abbrev pub is_set : Dict → String → Bool
is_set d k = truthy (get d k)

-- What a call of the program reads and writes: the machine, the state file, and the variable
-- `_TOR_UNIT_CACHE` of proxy_tor.py.
pub record World (H : Host) : Type 0 where
  pub sys : H.Sys
  pub file : StateFile
  pub tor_unit_cache : Option String

module _ (H : Host) where
  -- A call that only touches the machine.
  unfoldable pub on_sys : {A : Type 0} → Exec H.Sys A → Exec (World H) A
  on_sys m w = let (r, s) = m w.sys in (r, record w { sys = s })

  -- `state["last_updated"] = …` changes the caller's dict too.
  abbrev stamped : Dict → World H → Dict
  stamped d w = insert "last_updated" (text (H.stamp "%Y-%m-%d %H:%M:%S" w.sys)) d

  -- The dict is stamped, and the file has been swapped.
  abbrev pub replaced : Dict → World H → World H
  replaced d w = record w { file = saved (stamped d w) }

  -- Where the temporary file cannot be written or `os.replace` fails, the old file stays.
  abbrev pub stored_if : Io (Unit {0}) → Dict → Exec (World H) (Unit {0})
  stored_if (done _) d w = (ok tt, replaced d w)
  stored_if denied d w = (raised Exn.permission_denied, w)
  stored_if broken d w = (raised Exn.io_failed, w)

  -- `_save_unlocked`
  unfoldable pub save_unlocked : Dict → Exec (World H) (Unit {0})
  save_unlocked d w = stored_if (H.storable w.sys) d w

  unfoldable pub load : Exec (World H) Dict
  load w = (ok (load_unlocked w.file), w)

  unfoldable pub save : Dict → Exec (World H) (Unit {0})
  unfolding save_unlocked
  save d = save_unlocked d

  -- The load, the change and the save stand under one acquisition of the lock.
  unfoldable pub update : List (String × Json) → Exec (World H) Dict
  unfolding save_unlocked
  update changes w =
      let d = merge (load_unlocked w.file) (dict_of changes) in
      (do save_unlocked d; pure (stamped d w)) w
