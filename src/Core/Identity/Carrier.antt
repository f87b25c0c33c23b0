-- ===== src/Core/Identity/Carrier.antt =====
-- The loop of `_wait_for_carrier` and its fuel.
use privacy_toolkit.Prelude.{
  ℕ, zero, suc, ◌+◌, ◌*◌, ◌/◌, ◌≤◌, ◌≡◌, refl, sym, arith, Bool, true, false, not, ltb, String,
  Bool-cases, inl, inr, if◌then◌else◌,
}
use privacy_toolkit.Exec.{Res, ok, raised, Exec, pure, modify, proceed, ◌>>=◌, ◌>>◌}
use privacy_toolkit.Exec.Ends.{Ends, Ends-state, Ends-pure, Ends-bind, Ends-catch_all}
use privacy_toolkit.Host.{Host, Io, done, denied, broken, from_io, read_text}
use privacy_toolkit.Core.Identity.{has_carrier, poll_carrier, wait_for_carrier}

-- A machine on which nobody sets the clock back: over a sleep `time.time` goes on by its length at
-- least. Python does not promise that of `time.time`; the lemmas below are about such machines.
pub record ClockLaws (H : Host) : Type 0 where
  pub clock-pause : (n : ℕ) (s : H.Sys) → H.clock s + n ≤ H.clock (H.pause n s)

proceed_same :
    {S A B : Type 0} (r : Res A × S) (f g : A → Exec S B)
    → ((a : A) → f a r.1 ≡ g a r.1)
    → proceed r.0 f r.1 ≡ proceed r.0 g r.1
proceed_same (ok a, s) f g h = h a
proceed_same (raised e, s) f g h = refl

no_more : (extra : ℕ) → 0 + extra ≡ extra
no_more extra = omega arith

one_more : (fuel extra : ℕ) → suc fuel + extra ≡ suc (fuel + extra)
one_more fuel extra = omega arith

no_fuel : (deadline now : ℕ) → deadline ≤ now + 300 * 0 → deadline ≤ now
no_fuel deadline now h = omega arith

one_round :
    (fuel deadline now later : ℕ)
    → deadline ≤ now + 300 * suc fuel
    → now + 300 ≤ later
    → deadline ≤ later + 300 * fuel
one_round fuel deadline now later h k = omega arith

enough : (timeout now : ℕ) → now + timeout ≤ now + 300 * suc (timeout / 300)
enough timeout now = omega arith

module _ (H : Host) (L : ClockLaws H) where
  read_still : (r : Io String) (s : H.Sys) → Ends (λ _ s'. s' ≡ s) (λ s'. s' ≡ s) (from_io H r s)
  read_still (done t) s = Ends-pure refl
  read_still denied s = record { at = refl }
  read_still broken s = record { at = refl }

  has_carrier-still : (iface : String) (s : H.Sys) → (has_carrier H iface s).1 ≡ s
  unfolding has_carrier read_text
  has_carrier-still iface s = Ends-state (has_carrier H iface s) (
      Ends-catch_all (λ s'. s' ≡ s) _
        (Ends-bind (λ _ s'. s' ≡ s) _ (read_still _ s) (λ _ _ e. Ends-pure e)) (λ _ e. Ends-pure e))

  -- The clock has passed the deadline.
  poll_carrier-late :
      (fuel : ℕ) (iface : String) (deadline : ℕ) (s : H.Sys)
      → deadline ≤ H.clock s
      → poll_carrier H fuel iface deadline s ≡ (ok false, s)
  unfolding poll_carrier ◌>>=◌
  poll_carrier-late zero iface deadline s h = refl
  poll_carrier-late (suc fuel) iface deadline s h =
      let late : not (ltb (H.clock s) deadline) ≡ true = ground (arith, h) in rw late refl

  next :
      (fuel : ℕ) (iface : String) (deadline : ℕ) (s : H.Sys)
      → deadline ≤ H.clock s + 300 * suc fuel
      → deadline ≤ H.clock (H.pause 300 (has_carrier H iface s).1) + 300 * fuel
  next fuel iface deadline s h =
      one_round fuel deadline (H.clock s) _ h (rw (has_carrier-still iface s) (L.clock-pause 300 s))

  -- What a round does after it has looked.
  abbrev going_on : Exec H.Sys Bool → Bool → Exec H.Sys Bool
  going_on rest up = if up then pure true else (modify (H.pause 300) >> rest)

  going_on_same :
      (rest rest' : Exec H.Sys Bool) (up : Bool) (s : H.Sys)
      → rest (H.pause 300 s) ≡ rest' (H.pause 300 s)
      → going_on rest up s ≡ going_on rest' up s
  unfolding ◌>>=◌
  going_on_same rest rest' true s h = refl
  going_on_same rest rest' false s h = h

  -- One round of 300 milliseconds at the least for each unit of fuel: where the fuel reaches the
  -- deadline, more fuel changes nothing.
  pub poll_carrier-fuel :
      (fuel extra : ℕ) (iface : String) (deadline : ℕ) (s : H.Sys)
      → deadline ≤ H.clock s + 300 * fuel
      → poll_carrier H (fuel + extra) iface deadline s ≡ poll_carrier H fuel iface deadline s
  unfolding poll_carrier ◌>>=◌
  poll_carrier-fuel zero extra iface deadline s h =
      rw (no_more extra) (poll_carrier-late extra iface deadline s (no_fuel deadline (H.clock s) h))
  poll_carrier-fuel (suc fuel) extra iface deadline s h =
      rw (one_more fuel extra) (elim (Bool-cases (not (ltb (H.clock s) deadline))) [
        | inl late ↦ rw late refl
        | inr early ↦ rw early (
            proceed_same (has_carrier H iface s)
              (going_on (poll_carrier H (fuel + extra) iface deadline))
              (going_on (poll_carrier H fuel iface deadline))
              (λ up.
                going_on_same (poll_carrier H (fuel + extra) iface deadline)
                  (poll_carrier H fuel iface deadline) up _
                  (poll_carrier-fuel fuel extra iface deadline _ (next fuel iface deadline s h))))
      ])

  -- Where no sleep of 0.3 seconds sees the clock set back, the rounds that `_wait_for_carrier` is
  -- given reach past its deadline: with any more of them it does the same, so it ends of itself.
  pub wait_for_carrier_lem :
      (extra : ℕ) (iface : String) (timeout : ℕ) (s : H.Sys)
      → wait_for_carrier H iface timeout s
        ≡ poll_carrier H (suc (timeout / 300) + extra) iface (H.clock s + timeout) s
  unfolding wait_for_carrier ◌>>=◌
  wait_for_carrier_lem extra iface timeout s = sym (
      poll_carrier-fuel (suc (timeout / 300)) extra iface (H.clock s + timeout) s
        (enough timeout (H.clock s)))
