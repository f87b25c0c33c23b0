-- ===== src/Vpn/Contract.antt =====
-- What starting and stopping a VPN does to the state file.
use privacy_toolkit.Prelude.{
  ◌≡◌, refl, ◌∙◌, ap, subst, String, Bool, true, false, not, ◌||◌, Option, some, List, [], ◌∷◌,
  format, arith, eq_iff,
}
use privacy_toolkit.Exec.{Exec, pure, ◌>>=◌, ◌>>◌}
use privacy_toolkit.Exec.Ends.{Ends, Ends-imp, Ends-pure, Ends-bind, Ends-if, Ends-catch_if}
use privacy_toolkit.Host.{Host}
use privacy_toolkit.State.{World, StateFile, update, load_unlocked, load, text, null, get}
use privacy_toolkit.State.Frames.{
  SameExcept, KeepsFile, KeepsFile-Ends, KeepsFile-on_sys, is_on, update-SameExcept,
}
use privacy_toolkit.Environment.{Environment}
use privacy_toolkit.Vpn.{
  start_openvpn, launch_openvpn, start_wireguard, launch_wireguard, stop_openvpn, stop_wireguard,
  forget_vpn, kill_openvpn, has_prefix, words_of,
}

abbrev pub vpn_keys : List String
vpn_keys = "vpn_active" ∷ "last_updated" ∷ []

-- How starting a VPN leaves the state file: where it answers true, none was recorded before and the
-- name of this one is recorded; where it answers false nothing is written.
abbrev pub Started : String → StateFile → Bool → StateFile → Type 0
Started name f b f' =
    SameExcept vpn_keys f f'
    × (b ≡ true
        → (is_on f "vpn_active" ≡ false) × (load_unlocked f' "vpn_active" ≡ some (text name)))
    × (b ≡ false → f' ≡ f)

Started-declined : (name : String) (f f' : StateFile) → f' ≡ f → Started name f false f'
Started-declined name f f' e = (λ k m. ap (λ g. load_unlocked g k) e, λ z. cc, λ _. e)

module _ (H : Host) where
  still :
      {A : Type 0} {m : Exec (World H) A} (f : StateFile) (w : World H)
      → KeepsFile H m
      → w.file ≡ f
      → Ends (λ _ w'. w'.file ≡ f) (λ w'. w'.file ≡ f) (m w)
  still f w k start = KeepsFile-Ends H (λ g. g ≡ f) _ w k start

  recorded :
      (name : String) (f : StateFile) (w : World H)
      → w.file ≡ f
      → is_on f "vpn_active" ≡ false
      → Ends
          (λ b w'. Started name f b w'.file)
          (λ w'. w'.file ≡ f)
          ((do update H (("vpn_active", text name) ∷ []); pure true) w)
  recorded name f w start off =
      Ends-bind (λ _ w'. Started name f true w'.file) _
        (Ends-imp _
          (λ _ w' k. (
            λ j m. k.0 j m ∙ ap (λ g. load_unlocked g j) start,
            λ _. (off, k.1 "vpn_active" (ground (arith, eq_iff "vpn_active" "last_updated"))),
            λ z. cc,
          ))
          (λ _ e. rw e start) (update-SameExcept H _ vpn_keys w refl))
        (λ _ w' k. Ends-pure k)

  declined :
      (name : String) (f : StateFile) (w : World H)
      → w.file ≡ f
      → Ends (λ b w'. Started name f b w'.file) (λ w'. w'.file ≡ f) (pure {S = World H} false w)
  declined name f w e = Ends-pure (Started-declined name f w.file e)

  launch_openvpn-Started :
      (config : String) (auth : Option String) (f : StateFile) (w : World H)
      → w.file ≡ f
      → is_on f "vpn_active" ≡ false
      → Ends
          (λ b w'. Started (format ("openvpn:" ∷ config ∷ [])) f b w'.file)
          (λ w'. w'.file ≡ f)
          (launch_openvpn H config auth w)
  unfolding launch_openvpn
  launch_openvpn-Started config auth f w start off =
      Ends-catch_if _ _
        (Ends-bind (λ _ w'. w'.file ≡ f) _ (still f w (KeepsFile-on_sys H _) start)
          (λ _ w1 e1.
            Ends-bind (λ _ w'. w'.file ≡ f) _ (still f w1 (KeepsFile-on_sys H _) e1)
              (λ _ w2 e2.
                Ends-bind (λ _ w'. w'.file ≡ f) _ (Ends-pure e2)
                  (λ here w3 e3.
                    Ends-if here _ _ (λ _. recorded _ f w3 e3 off) (λ _. declined _ f w3 e3)))))
        (λ w' e. declined _ f w' e)

  -- Starting OpenVPN. Where it answers true, no VPN was recorded before and `openvpn:` with the path
  -- of the configuration is recorded; where it answers false or raises, the state file is as it was.
  -- No key but `vpn_active` and the time stamp changes.
  pub start_openvpn-Started :
      (env : Environment) (config : String) (auth : Option String) (w : World H)
      → Ends
          (λ b w'. Started (format ("openvpn:" ∷ config ∷ [])) w.file b w'.file)
          (λ w'. w'.file ≡ w.file)
          (start_openvpn H env config auth w)
  unfolding start_openvpn load ◌>>=◌
  start_openvpn-Started env config auth w =
      Ends-if (env.termux || not env.root) _ _ (λ _. declined _ w.file w refl)
        (λ _.
          Ends-if (not (H.which "openvpn" w.sys)) _ _ (λ _. declined _ w.file w refl)
            (λ _.
              Ends-if (not (H.exists config w.sys)) _ _ (λ _. declined _ w.file w refl)
                (λ _.
                  Ends-if (is_on w.file "vpn_active") _ _ (λ _. declined _ w.file w refl)
                    (λ off. launch_openvpn-Started config auth w.file w refl off))))

  launch_wireguard-Started :
      (interface : String) (f : StateFile) (w : World H)
      → w.file ≡ f
      → is_on f "vpn_active" ≡ false
      → Ends
          (λ b w'. Started (format ("wireguard:" ∷ interface ∷ [])) f b w'.file)
          (λ w'. w'.file ≡ f)
          (launch_wireguard H interface w)
  unfolding launch_wireguard
  launch_wireguard-Started interface f w start off =
      Ends-catch_if _ _
        (Ends-bind (λ _ w'. w'.file ≡ f) _ (still f w (KeepsFile-on_sys H _) start)
          (λ _ w1 e1. recorded _ f w1 e1 off))
        (λ w' e. declined _ f w' e)

  -- Starting WireGuard. Where it answers true, no VPN was recorded before and `wireguard:` with the
  -- name of the interface is recorded; where it answers false or raises, the state file is as it was.
  -- No key but `vpn_active` and the time stamp changes.
  pub start_wireguard-Started :
      (env : Environment) (interface : String) (w : World H)
      → Ends
          (λ b w'. Started (format ("wireguard:" ∷ interface ∷ [])) w.file b w'.file)
          (λ w'. w'.file ≡ w.file)
          (start_wireguard H env interface w)
  unfolding start_wireguard load ◌>>=◌
  start_wireguard-Started env interface w =
      Ends-if (env.termux || not env.root) _ _ (λ _. declined _ w.file w refl)
        (λ _.
          Ends-if (not (H.which "wg-quick" w.sys)) _ _ (λ _. declined _ w.file w refl)
            (λ _.
              Ends-if (is_on w.file "vpn_active") _ _ (λ _. declined _ w.file w refl)
                (λ off. launch_wireguard-Started interface w.file w refl off)))

  -- What stopping a VPN whose names begin with `prefix` does to the state file: a record of such a
  -- name is taken out, and a record of any other leaves the whole file as it is.
  abbrev pub Forgotten : String → StateFile → StateFile → Type 0
  Forgotten prefix f f' =
      SameExcept vpn_keys f f'
      × (has_prefix prefix (words_of (get (load_unlocked f) "vpn_active")) ≡ true
          → load_unlocked f' "vpn_active" ≡ some null)
      × (has_prefix prefix (words_of (get (load_unlocked f) "vpn_active")) ≡ false → f' ≡ f)

  forget_vpn-Forgotten :
      (prefix : String) (w : World H)
      → Ends
          (λ _ w'. Forgotten prefix w.file w'.file)
          (λ w'. w'.file ≡ w.file)
          (forget_vpn H prefix w)
  unfolding forget_vpn load ◌>>=◌
  forget_vpn-Forgotten prefix w =
      Ends-if (has_prefix prefix (words_of (get (load_unlocked w.file) "vpn_active"))) _ _
        (λ yes.
          Ends-bind (λ _ w'. Forgotten prefix w.file w'.file) (update H (("vpn_active", null) ∷ []))
            (Ends-imp _
              (λ _ w' k. (
                k.0,
                λ _. k.1 "vpn_active" (ground (arith, eq_iff "vpn_active" "last_updated")),
                λ no. cc,
              ))
              (λ _ e. rw e refl) (update-SameExcept H _ vpn_keys w refl))
            (λ _ w' k. Ends-pure k))
        (λ no. Ends-pure (λ k m. refl, λ yes. cc, λ _. refl))

  pub stopped :
      (prefix : String) (m : Exec (World H) (Unit {0})) (w : World H)
      → KeepsFile H m
      → Ends
          (λ _ w'. Forgotten prefix w.file w'.file)
          (λ w'. w'.file ≡ w.file)
          ((do m; forget_vpn H prefix) w)
  stopped prefix m w k =
      Ends-bind (λ _ w'. w'.file ≡ w.file) m (k.at w)
        (λ _ w1 e1.
          Ends-imp _ (λ _ w' z. subst (λ g. Forgotten prefix g w'.file) e1 z) (λ _ z. z ∙ e1)
            (forget_vpn-Forgotten prefix w1))

  -- Stopping OpenVPN with root: the record is taken out if it names an OpenVPN, and otherwise, or if
  -- the call raises, the state file is as it was, so that a recorded WireGuard stays recorded.
  pub stop_openvpn-Forgotten :
      (env : Environment) (w : World H)
      → env.termux ≡ false
      → env.root ≡ true
      → Ends
          (λ _ w'. Forgotten "openvpn:" w.file w'.file)
          (λ w'. w'.file ≡ w.file)
          (stop_openvpn H env w)
  unfolding stop_openvpn
  stop_openvpn-Forgotten env w termux root =
      simp (termux, root) (stopped "openvpn:" _ w (KeepsFile-on_sys H (kill_openvpn H)))

  -- Stopping WireGuard with root, in the same way.
  pub stop_wireguard-Forgotten :
      (env : Environment) (interface : String) (w : World H)
      → env.termux ≡ false
      → env.root ≡ true
      → Ends
          (λ _ w'. Forgotten "wireguard:" w.file w'.file)
          (λ w'. w'.file ≡ w.file)
          (stop_wireguard H env interface w)
  unfolding stop_wireguard
  stop_wireguard-Forgotten env interface w termux root =
      simp (termux, root) (stopped "wireguard:" _ w (KeepsFile-on_sys H _))
