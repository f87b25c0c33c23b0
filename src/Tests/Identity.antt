-- ===== src/Tests/Identity.antt =====
-- A machine with a clock, and the theorems on the change of identity on it.
use privacy_toolkit.Prelude.{ℕ, ◌+◌, arith}
use privacy_toolkit.Exec.Ends.{Ends}
use privacy_toolkit.Host.{Host}
use privacy_toolkit.Core.Identity.{random_mac_bytes}
use privacy_toolkit.Core.Identity.Addresses.{
  RandomLaws, IsBytes, IsLocalUnicast, random_mac_bytes-IsLocalUnicast,
}
use privacy_toolkit.Tests.Blank.{blank}

-- The state is the time in milliseconds; every draw gives the largest number.
abbrev clockwork : Host
clockwork = record (blank ℕ) { clock = λ t. t; pause = λ n t. t + n; randint = λ n t. (n, t) }

abbrev random_laws : RandomLaws clockwork
random_laws = record { randint_at_most = λ n t. omega arith }

random_mac_bytes-IsLocalUnicast_example :
    Ends (λ bytes _. IsBytes 6 bytes × IsLocalUnicast bytes) (λ _. ⊥) (random_mac_bytes clockwork 7)
random_mac_bytes-IsLocalUnicast_example = random_mac_bytes-IsLocalUnicast clockwork random_laws 7
