-- ===== src/State/Laws.antt =====
-- What the state file keeps.
use privacy_toolkit.Prelude.{String, ◌≡◌, ◌≢◌, refl, arith, none, List, eq_iff}
use privacy_toolkit.Exec.{pure, ◌>>=◌, ◌>>◌}
use privacy_toolkit.Exec.Ends.{Ends, Ends-pure}
use privacy_toolkit.Host.{Host, Io, done, denied, broken}
use privacy_toolkit.State.{
  Json, Dict, StateFile, World, saved, merge, replaced, stored_if, load_unlocked, default_state,
  dict_of, or_else, update, save_unlocked,
}

-- Every key that `DEFAULT_STATE` has is there after a load, whatever the file holds: nothing, a text
-- that is no JSON, or a dict that lacks the key.
pub load_has_key :
    (f : StateFile) (k : String) → dict_of default_state k ≢ none → load_unlocked f k ≢ none
unfolding load_unlocked
load_has_key StateFile.absent k h = h
load_has_key StateFile.unreadable k h = h
load_has_key (saved d) k h = ground arith

module _ (H : Host) where
  -- The changes over what is loaded.
  abbrev pub changed : List (String × Json) → World H → Dict
  changed changes w = merge (load_unlocked w.file) (dict_of changes)

  -- After the file has been swapped, a load gives the new value at each key that was changed, and at
  -- any other key but `last_updated` what a load gave before.
  pub load-replaced :
      (changes : List (String × Json)) (w : World H) (k : String)
      → k ≢ "last_updated"
      → load_unlocked (replaced H (changed changes w) w).file k
        ≡ or_else (dict_of changes k) (load_unlocked w.file k)
  unfolding load_unlocked
  load-replaced changes w k h = ground (arith, eq_iff "last_updated" k)

  stored :
      {A : Type 0} (io : Io (Unit {0})) (d : Dict) (a : A) (w : World H)
      → Ends
          (λ _ w'. (io ≡ done tt) × (w' ≡ replaced H d w))
          (λ w'. w' ≡ w)
          ((do stored_if H io d; pure a) w)
  unfolding ◌>>=◌
  stored (done u) d a w = Ends-pure (refl, refl)
  stored denied d a w = record { at = refl }
  stored broken d a w = record { at = refl }

  -- An `update` swaps the file where the disk takes it, and raises and leaves it where it does not.
  pub update_lem :
      (changes : List (String × Json)) (w : World H)
      → Ends
          (λ _ w'. (H.storable w.sys ≡ done tt) × (w' ≡ replaced H (changed changes w) w))
          (λ w'. w' ≡ w)
          (update H changes w)
  unfolding update save_unlocked ◌>>=◌
  update_lem changes w = stored (H.storable w.sys) (changed changes w) _ w
