-- ===== src/Core/Ipv6/Frames.antt =====
-- What blocking and unblocking IPv6 do to the state file.
use privacy_toolkit.Prelude.{
  ◌≡◌, some, ◌≢◌, ap, ◌∙◌, refl, true, false, not, ◌||◌, String, List, [], ◌∷◌,
}
use privacy_toolkit.Exec.{is_process_error, pure, ◌>>◌}
use privacy_toolkit.Exec.Ends.{Ends, Ends-imp, Ends-pure, Ends-bind, Ends-if, Ends-catch_if}
use privacy_toolkit.Host.{Host}
use privacy_toolkit.State.{
  World, StateFile, Json, flag, dict_of, load_unlocked, load, update, is_set,
}
use privacy_toolkit.State.Frames.{
  Switched, is_on_flag, member, covered, is_on, is_on-same, update-SameExcept, SameExcept,
  KeepsFile-Ends, KeepsFile-on_sys, load-keeps, update-keeps,
}
use privacy_toolkit.Environment.{Environment}
use privacy_toolkit.Core.Ipv6.{block_ipv6, unblock_ipv6}

abbrev pub ipv6_keys : List String
ipv6_keys = "ipv6_blocked" ∷ "last_updated" ∷ []

not_stamp : (key : String) → member key ipv6_keys ≡ false → key ≢ "last_updated"
not_stamp key own e = let same = ap (λ k. member k ipv6_keys) e in cc

module _ (H : Host) where
  -- Blocking IPv6 changes no key but its own and the time stamp, whether it returns or raises.
  pub block_ipv6-SameExcept :
      (env : Environment) (w : World H)
      → Ends
          (λ _ w'. SameExcept ipv6_keys w.file w'.file)
          (λ w'. SameExcept ipv6_keys w.file w'.file)
          (block_ipv6 H env w)
  unfolding block_ipv6
  block_ipv6-SameExcept env w =
      Ends-if (env.termux || not env.root || not env.has_ip6tables) _ _
        (λ _. Ends-pure (λ k m. refl))
        (λ _.
          Ends-bind (λ _ w'. SameExcept ipv6_keys w.file w'.file) (load H)
            (load-keeps H (SameExcept ipv6_keys w.file) w (λ k m. refl))
            (λ st w1 same1.
              Ends-if (is_set st "ipv6_blocked") _ _ (λ _. Ends-pure same1)
                (λ _.
                  Ends-catch_if is_process_error _
                    (Ends-bind (λ _ w'. SameExcept ipv6_keys w.file w'.file) _
                      (KeepsFile-Ends H (SameExcept ipv6_keys w.file) _ w1 (KeepsFile-on_sys H _)
                        same1)
                      (λ _ w2 same2.
                        Ends-bind (λ _ w'. SameExcept ipv6_keys w.file w'.file) _
                          (update-keeps H _ ipv6_keys w.file w2 refl same2)
                          (λ _ w3 same3. Ends-pure same3)))
                    (λ w' s. Ends-pure s))))

  -- So does unblocking it.
  pub unblock_ipv6-SameExcept :
      (env : Environment) (w : World H)
      → Ends
          (λ _ w'. SameExcept ipv6_keys w.file w'.file)
          (λ w'. SameExcept ipv6_keys w.file w'.file)
          (unblock_ipv6 H env w)
  unfolding unblock_ipv6
  unblock_ipv6-SameExcept env w =
      Ends-if (env.termux || not env.root || not env.has_ip6tables) _ _
        (λ _. Ends-pure (λ k m. refl))
        (λ _.
          Ends-bind (λ _ w'. SameExcept ipv6_keys w.file w'.file) (load H)
            (load-keeps H (SameExcept ipv6_keys w.file) w (λ k m. refl))
            (λ st w1 same1.
              Ends-if (not (is_set st "ipv6_blocked")) _ _ (λ _. Ends-pure same1)
                (λ _.
                  Ends-catch_if is_process_error _
                    (Ends-bind (λ _ w'. SameExcept ipv6_keys w.file w'.file) _
                      (KeepsFile-Ends H (SameExcept ipv6_keys w.file) _ w1 (KeepsFile-on_sys H _)
                        same1)
                      (λ _ w2 same2.
                        Ends-bind (λ _ w'. SameExcept ipv6_keys w.file w'.file) _
                          (update-keeps H _ ipv6_keys w.file w2 refl same2)
                          (λ _ w3 same3. Ends-pure same3)))
                    (λ w' s. Ends-pure s))))

  -- The end of every switch: it is recorded as on, and then IPv6 is blocked.
  pub recorded_and_blocked :
      (env : Environment) (changes : List (String × Json)) (ks : List String) (key : String)
      (f : StateFile) (w : World H)
      → w.file ≡ f
      → covered changes ks ≡ true
      → ((k : String) → member k ks ≡ false → member k ipv6_keys ≡ false)
      → dict_of changes key ≡ some (flag true)
      → member key ipv6_keys ≡ false
      → Ends
          (λ b w'. Switched ks key f b w'.file)
          (λ w'. SameExcept ks f w'.file)
          ((do update H changes; block_ipv6 H env; pure true) w)
  recorded_and_blocked env changes ks key f w start cov wider on own =
      Ends-bind (λ _ w'. SameExcept ks f w'.file × (is_on w'.file key ≡ true)) (update H changes)
        (Ends-imp _
          (λ _ w' k. (
            λ j m. k.0 j m ∙ ap (λ g. load_unlocked g j) start,
            is_on_flag w'.file key (k.1 key (not_stamp key own) ∙ rw on refl),
          ))
          (λ _ e. rw e (λ j m. ap (λ g. load_unlocked g j) start))
          (update-SameExcept H changes ks w cov))
        (λ _ w2 r.
          Ends-bind (λ _ w'. SameExcept ks f w'.file × (is_on w'.file key ≡ true))
            (block_ipv6 H env)
            (Ends-imp _
              (λ _ w3 k. (
                λ j m. k j (wider j m) ∙ r.0 j m,
                is_on-same w2.file w3.file key (k key own) ∙ r.1,
              ))
              (λ w3 k j m. k j (wider j m) ∙ r.0 j m) (block_ipv6-SameExcept env w2))
            (λ _ w3 r3. Ends-pure (r3.0, λ _. r3.1, λ z. cc)))
