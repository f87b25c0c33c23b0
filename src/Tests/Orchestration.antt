-- ===== src/Tests/Orchestration.antt =====
-- Starting and stopping the anonymity mode on the simulated machine.
use privacy_toolkit.Prelude.{refl, true}
use privacy_toolkit.Exec.Ends.{Ends}
use privacy_toolkit.State.Frames.{SameExcept}
use privacy_toolkit.Orchestrate.{full_start, full_stop}
use privacy_toolkit.Orchestrate.Contract.{
  mode_keys, Started, Stopped, full_start-Started, full_stop-Stopped,
}
use privacy_toolkit.Tests.Sim.{sim, kali}
use privacy_toolkit.Tests.Switches.{fresh, tor_on}

full_start-Started_example :
    Ends
      (λ b w'. Started sim fresh.file b w'.file)
      (λ w'. SameExcept mode_keys fresh.file w'.file)
      (full_start sim kali true 45 true fresh)
full_start-Started_example = full_start-Started sim kali true 45 true fresh

full_stop-Stopped_example :
    Ends
      (λ _ w'. Stopped sim tor_on.file w'.file)
      (λ w'. SameExcept mode_keys tor_on.file w'.file)
      (full_stop sim kali true true "fast" tor_on)
full_stop-Stopped_example = full_stop-Stopped sim kali true true "fast" tor_on refl refl refl refl
