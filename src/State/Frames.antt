-- ===== src/State/Frames.antt =====
-- What a call leaves alone of the state file.
use privacy_toolkit.Prelude.{
  subst, String, ◌≡◌, refl, sym, ◌∙◌, ap, ◌≢◌, arith, Bool, true, false, ◌&&◌, ◌||◌, not, none,
  some, List, [], ◌∷◌, str_eq, eq_iff, if◌then◌else◌, Bool-cases, inl, inr,
}
use privacy_toolkit.Exec.{Res, ok, raised, Exec, pure, gets, catch_all, ◌>>=◌, ◌>>◌}
use privacy_toolkit.Exec.Ends.{Ends, Ends-imp, Ends-pure, Ends-bind, Ends-catch_all}
use privacy_toolkit.Host.{Host}
use privacy_toolkit.State.Laws.{load-replaced, update_lem}
use privacy_toolkit.State.{
  Json, StateFile, World, load_unlocked, load, dict_of, or_else, load, update, is_set, truthy, flag,
  on_sys,
}

-- `key in keys`
abbrev pub member : String → List String → Bool
member k [] = false
member k (j ∷ ks) = str_eq j k || member k ks

-- Every key of the changes is listed, and the time stamp too.
abbrev pub covered : List (String × Json) → List String → Bool
covered [] ks = member "last_updated" ks
covered ((j, v) ∷ rest) ks = member j ks && covered rest ks

-- Loading gives the same value at each key that is not listed.
abbrev pub SameExcept : List String → StateFile → StateFile → Type 0
SameExcept ks f f' = (k : String) → member k ks ≡ false → load_unlocked f' k ≡ load_unlocked f k

-- `if state[key]` on a loaded state file
abbrev pub is_on : StateFile → String → Bool
is_on f k = is_set (load_unlocked f) k

pub is_on-same :
    (f f' : StateFile) (k : String)
    → load_unlocked f' k ≡ load_unlocked f k
    → is_on f' k ≡ is_on f k
is_on-same f f' k e = ap (λ o. truthy (elim o [ none ↦ Json.null | some v ↦ v ])) e

pub is_on_flag :
    (f : StateFile) (k : String) {b : Bool} → load_unlocked f k ≡ some (flag b) → is_on f k ≡ b
is_on_flag f k e = ap (λ o. truthy (elim o [ none ↦ Json.null | some v ↦ v ])) e

-- How a switch with the key `key` leaves the state file: only the listed keys change; where it
-- answers true the switch is recorded as on, and where it answers false nothing is written.
abbrev pub Switched : List String → String → StateFile → Bool → StateFile → Type 0
Switched ks key f b f' =
    SameExcept ks f f' × (b ≡ true → is_on f' key ≡ true) × (b ≡ false → f' ≡ f)

pub Switched-unchanged :
    (ks : List String) (key : String) (f f' : StateFile) (b : Bool)
    → (b ≡ true → is_on f key ≡ true)
    → f' ≡ f
    → Switched ks key f b f'
Switched-unchanged ks key f f' b on e =
    (λ k m. ap (λ g. load_unlocked g k) e, λ h. rw e (on h), λ _. e)

pub not-true : (b : Bool) → not b ≡ true → b ≡ false
not-true b h = ground arith

pub and_true : (a b : Bool) → (a && b) ≡ true → (a ≡ true) × (b ≡ true)
and_true true b h = (refl, h)
and_true false b h = cc

dict_of-covered :
    (changes : List (String × Json)) (ks : List String) (k : String)
    → covered changes ks ≡ true
    → member k ks ≡ false
    → dict_of changes k ≡ none
dict_of-covered [] ks k c m = refl
dict_of-covered ((j, v) ∷ rest) ks k c m = elim (Bool-cases (str_eq j k)) [
  | inl e ↦
      (let listed = (and_true (member j ks) (covered rest ks) c).0 in
        let same = ap (λ i. member i ks) ((eq_iff j k).0 e) in cc)
  | inr e ↦ rw e (dict_of-covered rest ks k (and_true (member j ks) (covered rest ks) c).1 m)
]

covered-stamp :
    (changes : List (String × Json)) (ks : List String)
    → covered changes ks ≡ true
    → member "last_updated" ks ≡ true
covered-stamp [] ks c = c
covered-stamp ((j, v) ∷ rest) ks c =
    covered-stamp rest ks (and_true (member j ks) (covered rest ks) c).1

unlisted :
    (changes : List (String × Json)) (ks : List String) (k : String)
    → covered changes ks ≡ true
    → member k ks ≡ false
    → k ≢ "last_updated"
unlisted changes ks k c m e =
    let listed = covered-stamp changes ks c in let same = ap (λ i. member i ks) e in cc

module _ (H : Host) where
  -- An update changes its keys and the time stamp, and no other key; where it raises it changes nothing.
  pub update-SameExcept :
      (changes : List (String × Json)) (ks : List String) (w : World H)
      → covered changes ks ≡ true
      → Ends
          (λ _ w'.
            SameExcept ks w.file w'.file
            × ((k : String)
                → k ≢ "last_updated"
                → load_unlocked w'.file k ≡ or_else (dict_of changes k) (load_unlocked w.file k))
            × (w'.sys ≡ w.sys))
          (λ w'. w' ≡ w)
          (update H changes w)
  update-SameExcept changes ks w c =
      Ends-imp _
        (λ _ w' e. rw e.1 (
          λ k m.
              load-replaced H changes w k (unlisted changes ks k c m)
              ∙ rw (dict_of-covered changes ks k c m) refl,
          load-replaced H changes w,
          refl,
        ))
        (λ _ e. e) (update_lem H changes w)

  -- A call that does not write the state file.
  pub record KeepsFile {A : Type 0} (m : Exec (World H) A) : Type 0 where
    pub at : (w : World H) → Ends (λ _ w'. w'.file ≡ w.file) (λ w'. w'.file ≡ w.file) (m w)

  module _ {A : Type 0} where
    on_sys_result :
        (w : World H) (r : Res A × H.Sys)
        → Ends {A = A}
            (λ _ w'. w'.file ≡ w.file)
            (λ w'. w'.file ≡ w.file)
            (r.0, record w { sys = r.1 })
    on_sys_result w (ok a, s) = Ends-pure refl
    on_sys_result w (raised e, s) = record { at = refl }

    pub KeepsFile-on_sys : (m : Exec H.Sys A) → KeepsFile (on_sys H m)
    unfolding on_sys
    KeepsFile-on_sys m = record { at = λ w. on_sys_result w (m w.sys) }

    pub KeepsFile-pure : (a : A) → KeepsFile (λ w. (ok a, w))
    KeepsFile-pure a = record { at = λ w. Ends-pure refl }

    pub KeepsFile-gets : (f : World H → A) → KeepsFile (gets f)
    KeepsFile-gets f = record { at = λ w. Ends-pure refl }

    pub KeepsFile-if :
        (b : Bool) (m n : Exec (World H) A)
        → KeepsFile m
        → KeepsFile n
        → KeepsFile (if b then m else n)
    KeepsFile-if true m n km kn = km
    KeepsFile-if false m n km kn = kn

    pub KeepsFile-catch_all :
        (m h : Exec (World H) A) → KeepsFile m → KeepsFile h → KeepsFile (catch_all m h)
    KeepsFile-catch_all m h km kh = record {
      at = λ w.
          Ends-catch_all (λ w'. w'.file ≡ w.file) m (km.at w)
            (λ w' e. Ends-imp _ (λ _ _ k. k ∙ e) (λ _ k. k ∙ e) (kh.at w'));
    }

  pub KeepsFile-bind :
      {A B : Type 0} (m : Exec (World H) A) (f : A → Exec (World H) B)
      → KeepsFile m
      → ((a : A) → KeepsFile (f a))
      → KeepsFile (m >>= f)
  KeepsFile-bind m f km kf = record {
    at = λ w.
        Ends-bind (λ _ w'. w'.file ≡ w.file) m (km.at w)
          (λ a w' e. Ends-imp _ (λ _ _ k. k ∙ e) (λ _ k. k ∙ e) ((kf a).at w'));
  }

  -- A call that leaves the file alone keeps what is known of it.
  pub KeepsFile-Ends :
      {A : Type 0} (P : StateFile → Type 0) (m : Exec (World H) A) (w : World H)
      → KeepsFile m
      → P w.file
      → Ends (λ _ w'. P w'.file) (λ w'. P w'.file) (m w)
  KeepsFile-Ends P m w k h =
      Ends-imp _ (λ _ _ e. subst P (sym e) h) (λ _ e. subst P (sym e) h) (k.at w)

  -- The same, towards a raise that has changed nothing.
  pub quiet :
      {A : Type 0} {m : Exec (World H) A} (ks : List String) {f : StateFile}
      → KeepsFile m
      → (w : World H) → w.file ≡ f
      → Ends (λ _ w'. w'.file ≡ f) (λ w'. SameExcept ks f w'.file) (m w)
  quiet ks k w start =
      Ends-imp _ (λ _ _ e. e ∙ start) (λ _ e j m. ap (λ g. load_unlocked g j) (e ∙ start)) (k.at w)

  pub load-keeps :
      (P : StateFile → Type 0) (w : World H)
      → P w.file
      → Ends (λ _ w'. P w'.file) (λ w'. P w'.file) (load H w)
  unfolding load
  load-keeps P w h = Ends-pure h

  pub update-keeps :
      (changes : List (String × Json)) (ks : List String) (f : StateFile) (w : World H)
      → covered changes ks ≡ true
      → SameExcept ks f w.file
      → Ends (λ _ w'. SameExcept ks f w'.file) (λ w'. SameExcept ks f w'.file) (update H changes w)
  update-keeps changes ks f w c same =
      Ends-imp _ (λ _ w' k j m. k.0 j m ∙ same j m) (λ _ e. rw e same)
        (update-SameExcept changes ks w c)

  on_sys_ended :
      {A : Type 0} (Q : A → World H → Type 0) (E : World H → Type 0) (w : World H)
      (r : Res A × H.Sys)
      → Ends (λ a s. Q a (record w { sys = s })) (λ s. E (record w { sys = s })) r
      → Ends Q E (r.0, record w { sys = r.1 })
  on_sys_ended Q E w (ok a, s) h = Ends-pure h.at
  on_sys_ended Q E w (raised e, s) h = record { at = h.at }

  -- A call of the machine, with what is known of the world around it.
  pub Ends-on_sys :
      {A : Type 0} (Q : A → World H → Type 0) (E : World H → Type 0) (m : Exec H.Sys A)
      (w : World H)
      → Ends (λ a s. Q a (record w { sys = s })) (λ s. E (record w { sys = s })) (m w.sys)
      → Ends Q E (on_sys H m w)
  unfolding on_sys
  Ends-on_sys Q E m w h = on_sys_ended Q E w (m w.sys) h

  -- The end of every disable: the switch is recorded as off.
  pub recorded_off :
      (changes : List (String × Json)) (ks : List String) (key : String) (f : StateFile)
      (w : World H)
      → w.file ≡ f
      → covered changes ks ≡ true
      → dict_of changes key ≡ some (flag false)
      → key ≢ "last_updated"
      → Ends
          (λ _ w'. SameExcept ks f w'.file × (is_on w'.file key ≡ false))
          (λ w'. SameExcept ks f w'.file)
          ((do update H changes; pure tt) w)
  recorded_off changes ks key f w start cov off own =
      Ends-bind (λ _ w'. SameExcept ks f w'.file × (is_on w'.file key ≡ false)) (update H changes)
        (Ends-imp _
          (λ _ w' k. (
            λ j m. k.0 j m ∙ ap (λ g. load_unlocked g j) start,
            is_on_flag w'.file key (k.1 key own ∙ rw off refl),
          ))
          (λ _ e. rw e (λ j m. ap (λ g. load_unlocked g j) start))
          (update-SameExcept changes ks w cov))
        (λ _ w' r. Ends-pure r)

pub ruleset file_rules = (
  KeepsFile-on_sys, KeepsFile-pure, KeepsFile-gets, KeepsFile-if, KeepsFile-catch_all,
  KeepsFile-bind,
)
