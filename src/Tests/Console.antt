-- ===== src/Tests/Console.antt =====
-- A session of the menu on the simulated machine.
use privacy_toolkit.Prelude.{refl, List, [], ◌∷◌}
use privacy_toolkit.Exclusion.{Exclusive}
use privacy_toolkit.Cli.{Session}
use privacy_toolkit.Cli.Menu.{Choice, run_choices}
use privacy_toolkit.Cli.Exclusive.{run_choices-Exclusive}
use privacy_toolkit.Tests.Sim.{sim, kali}
use privacy_toolkit.Tests.Switches.{fresh}

-- The Tor switch is enabled, then the proxy switch is asked for, then the mode is stopped.
abbrev evening : List Choice
evening = Choice.tor_switch ∷ Choice.proxy_switch ∷ Choice.stop_mode ∷ []

abbrev console : Session sim
console = record {
  world = fresh;
  typed = "Enable" ∷ "" ∷ "enable" ∷ "203.0.113.5" ∷ "1080" ∷ "" ∷ "" ∷ "" ∷ "y" ∷ "n" ∷ [];
}

run_choices-Exclusive_example : Exclusive (run_choices sim kali evening console).1.world.file
run_choices-Exclusive_example = run_choices-Exclusive sim kali evening console refl
