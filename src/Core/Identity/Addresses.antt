-- ===== src/Core/Identity/Addresses.antt =====
-- The MAC addresses that privacyguard/core.py makes up.
use privacy_toolkit.Prelude.{ℕ, zero, suc, ◌/◌, ◌%◌, ◌≤◌, ◌<◌, ◌≡◌, refl, arith, List, [], ◌∷◌}
use privacy_toolkit.Exec.Ends.{Ends, Ends-pure, Ends-bind}
use privacy_toolkit.Host.{Host, draw}
use privacy_toolkit.Core.Identity.{nth_or, first_bytes, draws, random_mac_bytes}

-- `random.randint(0, n)` is at most `n`.
pub record RandomLaws (H : Host) : Type 0 where
  pub randint_at_most : (n : ℕ) (s : H.Sys) → (H.randint n s).0 ≤ n

-- That many bytes.
abbrev pub IsBytes : ℕ → List ℕ → Type 0
IsBytes zero [] = Unit
IsBytes zero (b ∷ bs) = ⊥
IsBytes (suc n) [] = ⊥
IsBytes (suc n) (b ∷ bs) = (b < 256) × IsBytes n bs

-- A first byte whose lowest bit is 0, so that the address is no group's, and whose next bit is 1, so
-- that it is no manufacturer's.
abbrev pub IsLocalUnicast : List ℕ → Type 0
IsLocalUnicast [] = ⊥
IsLocalUnicast (b ∷ bs) = (b % 2 ≡ 0) × (b / 2 % 2 ≡ 1)

first_byte : (k : ℕ) → IsLocalUnicast (nth_or 2 first_bytes k ∷ []) × (nth_or 2 first_bytes k < 256)
first_byte zero = ((refl, refl), omega arith)
first_byte (suc zero) = ((refl, refl), omega arith)
first_byte (suc (suc zero)) = ((refl, refl), omega arith)
first_byte (suc (suc (suc zero))) = ((refl, refl), omega arith)
first_byte (suc (suc (suc (suc k)))) = ((refl, refl), omega arith)

module _ (H : Host) (L : RandomLaws H) where
  draw_lem : (n : ℕ) (s : H.Sys) → Ends (λ k _. k ≤ n) (λ _. ⊥) (draw H n s)
  draw_lem n s = Ends-pure (L.randint_at_most n s)

  draws-IsBytes : (n : ℕ) (s : H.Sys) → Ends (λ bs _. IsBytes n bs) (λ _. ⊥) (draws H n s)
  unfolding draws
  draws-IsBytes zero s = Ends-pure tt
  draws-IsBytes (suc n) s =
      Ends-bind (λ k _. k ≤ 255) _ (draw_lem 255 s)
        (λ b s1 small.
          Ends-bind (λ bs _. IsBytes n bs) _ (draws-IsBytes n s1)
            (λ bs s2 rest. Ends-pure (omega (arith, small), rest)))

  -- Where `random.randint` keeps to its range, a made-up MAC address has six bytes below 256, and it
  -- is a locally administered address of a single card; making it up never raises.
  pub random_mac_bytes-IsLocalUnicast :
      (s : H.Sys)
      → Ends (λ bytes _. IsBytes 6 bytes × IsLocalUnicast bytes) (λ _. ⊥) (random_mac_bytes H s)
  unfolding random_mac_bytes
  random_mac_bytes-IsLocalUnicast s =
      Ends-bind (λ k _. k ≤ 3) _ (draw_lem 3 s)
        (λ k s1 _.
          Ends-bind (λ bs _. IsBytes 5 bs) _ (draws-IsBytes 5 s1)
            (λ bs s2 rest. Ends-pure (((first_byte k).1, rest), (first_byte k).0)))
