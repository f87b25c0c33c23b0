-- ===== src/Core/KillSwitch/Polling.antt =====
-- The wait for Tor of privacyguard/core.py: the fuel of its loop is enough.
use privacy_toolkit.Prelude.{ℕ, zero, suc, ◌+◌, ◌<◌, ◌≡◌, refl, arith, false, ltb}
use privacy_toolkit.Exec.{pure}
use privacy_toolkit.Host.{Host}
use privacy_toolkit.Core.KillSwitch.{poll_tor}

late_enough : (waited timeout : ℕ) → timeout < waited → ltb waited timeout ≡ false
late_enough waited timeout h = ground arith

one_round : (fuel waited timeout : ℕ) → timeout < waited + suc fuel → timeout < (waited + 2) + fuel
one_round fuel waited timeout h = omega arith

no_fuel : (waited timeout : ℕ) → timeout < waited + 0 → timeout < waited
no_fuel waited timeout h = omega arith

no_more : (extra : ℕ) → 0 + extra ≡ extra
no_more extra = omega arith

one_more : (fuel extra : ℕ) → suc fuel + extra ≡ suc (fuel + extra)
one_more fuel extra = omega arith

module _ (H : Host) where
  poll_tor-late :
      (fuel waited timeout : ℕ) → timeout < waited → poll_tor H fuel waited timeout ≡ pure false
  unfolding poll_tor
  poll_tor-late zero waited timeout h = refl
  poll_tor-late (suc fuel) waited timeout h = rw (late_enough waited timeout h) refl

  -- The loop that waits for Tor: where the seconds waited and the fuel together are more than the
  -- timeout, more fuel changes nothing, so that the loop has ended of itself. The code starts it with
  -- no second waited, and the model gives it one round more than the timeout.
  pub poll_tor-fuel :
      (fuel extra waited timeout : ℕ)
      → timeout < waited + fuel
      → poll_tor H (fuel + extra) waited timeout ≡ poll_tor H fuel waited timeout
  unfolding poll_tor
  poll_tor-fuel zero extra waited timeout h =
      rw (no_more extra) (poll_tor-late extra waited timeout (no_fuel waited timeout h))
  poll_tor-fuel (suc fuel) extra waited timeout h =
      rw
        (
          one_more fuel extra,
          poll_tor-fuel fuel extra (waited + 2) timeout (one_round fuel waited timeout h),
        )
        refl
