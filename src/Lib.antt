-- ===== src/Lib.antt =====
-- Privacy Toolkit: the program that switches a Linux machine between privacy states. A Tor kill
-- switch sends all traffic through Tor and drops the rest, a proxy-only switch sends TCP through
-- redsocks, gateway mode routes other machines through Tor, and both the firewall rules before a
-- switch and what is on are kept so that they can be restored and recorded.
--
-- How the parts interact. Every switch of privacyguard/core.py, proxy_only.py and gateway.py follows
-- one course: it tests the machine (environment.py) and the state file (state.py), prepares what
-- carries the traffic (Tor, proxy_tor.py), applies its rule set after a backup (firewall_backup.py),
-- blocks IPv6 (core.py), and records the outcome by `update`. Turning it off restores the backup.
-- Between two calls the program remembers by the state file, its backups, the files of Tor and of
-- redsocks, and the kernel's rules.
--
-- Which file models which part:
--   Host             what the program gets from outside: programs that are run, files, the network,
--                    the clock. It is a record `Host`, a parameter of every definition. Running a
--                    program answers an exit code and texts, or raises: it is missing, or it is late.
--   Exec, Exec/Ends  state, exception and return, as a monad; `Ends Q E r` is a contract that speaks
--                    of both ends of a run: `Q` of a value returned, `E` of the state after a raise.
--                    `Keeps P m` in Exec/Keeps has one predicate for both, and `Gives R m` in
--                    Exec/Gives is of calls that return from any state.
--   Text             the text operations of Python that the code calls.
--   Environment      privacyguard/environment.py: the dataclass; Environment/Detect is
--                    `detect_environment`.
--   State            privacyguard/state.py: `DEFAULT_STATE`, load, save and update over one file,
--                    which is absent, unreadable or a dict; where the disk refuses a save, this
--                    raises and leaves the old file. State/Laws is about a load after an update,
--                    State/Frames about which keys a call leaves alone, State/Typed about the
--                    kinds of their values. State/Threads has the threads
--                    that call `update` and the lock, as a step relation; Sequential is about it.
--   FirewallBackup   privacyguard/firewall_backup.py, every function. FirewallBackup/Laws states what
--                    the manuals of iptables-save and iptables-restore promise, as a record that the
--                    theorems on rules take; Backup, Restore and Rollback hold those theorems, and
--                    Tools what they share.
--   Core/Ipv6        `block_ipv6` and `unblock_ipv6` of privacyguard/core.py; Frames is about their keys.
--   Core/Torrc       the text that `_ensure_transparent_proxy_torrc` makes of torrc.
--   Core/KillSwitch  the Tor kill switch of privacyguard/core.py. Contract is about the state file,
--                    Recovery about the firewall rules, Polling about the wait for Tor, Starts
--                    about a machine on which nothing fails.
--   Core/Identity    the MAC address and the host name of privacyguard/core.py, and `clean_traces`.
--                    Addresses is about the former, Carrier about the wait for the link.
--   ProxyTor         privacyguard/proxy_tor.py: start, stop and test of the Tor service; ProxyTor/Config
--                    has new circuits, bridges and proxychains.
--   ProxyOnly        privacyguard/proxy_only.py, with its Contract; Starts is about a machine on which
--                    nothing fails.
--   Gateway          privacyguard/gateway.py, with its Contract.
--   AntiRecon        privacyguard/anti_recon.py: the sysctls and their backup, the port-scan rules, and
--                    in Detector what watches packets and logs. Contract is about the former,
--                    Detector/Bounds about the latter.
--   Vpn              privacyguard/vpn.py, with its Contract.
--   Dns              privacyguard/dns_check.py; Dns/Verdicts is about when it speaks of a leak.
--   Verify           privacyguard/verify.py: the checks of a switch that is on.
--   Monitor          the rounds and the loop of privacyguard/monitor.py, and `get_public_ip`; Monitor/Rounds
--                    and Monitor/Loop are about them. Monitor/Thread is start, stop and the thread, as
--                    steps that the caller and the thread take in any order.
--   Topology         privacyguard/gateway_topology.py; Topology/Cards states what the manual of VBoxManage
--                    promises of the network cards, and what follows for a workstation.
--   Workstation      `configure_networking` of privacyguard/workstation.py; Configured is about it.
--                    Workstation/Isolation is `verify_isolation`.
--   Crypto           what privacyguard/profiles.py and crypto_log.py share, with the cryptography package
--                    and json as parameters; Laws states what their documentation promises. Profiles
--                    and Log are the two files, RoundTrip and Log/Decrypt about them.
--   Ram              privacyguard/ram_wipe.py.
--   Orchestrate      `full_start` and `full_stop` of privacyguard/orchestrate.py, with their Contract.
--   Exclusion        the calls of all the switches as steps, and what no sequence of them can reach;
--                    Exclusion/Calls is about every other call that writes the state file, and
--                    Exclusion/Typed about the kinds of value that the calls write, and
--                    Exclusion/OverGateway about the Tor switch beside gateway mode.
--   Filter           what the rule lists of privacyguard/core.py and privacyguard/gateway.py make of
--                    packets, by the manual of iptables: the tables of the machine and the packets
--                    are parameters, with their laws in FilterLaws and Packets.
--   Gui              gui.py: the values that are read from the widgets, and threads of `_run_bg`.
--                    Handlers has the handlers, Buttons the commands of the buttons, Vault the
--                    encrypted log and the profiles, Monitors the tab of the leak monitor, Console
--                    the swap of `sys.stdout` and the queue, Race two switches that overlap.
--   VmSnapshot       privacyguard/vm_snapshot.py.
--   Cli              main.py: how what is typed is read; Cli/Handlers and Cli/Menu have the
--                    choices of the menu, Cli/Monitors its choice 27, Cli/Main the flags of the command
--                    line; Cli/Exclusive is about the menu.
--   Tests            a host that can be run, and an example for each theorem with conditions.
--
-- Correspondence. A definition has the name of the function that it models. Where a function is long,
-- what comes after its guards is a definition of its own: `start_kill_switch`, `apply_kill_switch` and
-- `end_kill_switch` for `enable_kill_switch` and `disable_kill_switch`, `admit_proxy_kill_switch` for the
-- rest of `enable_proxy_kill_switch` after its tests of the machine. A function of Python is an action
-- on the state `World`: the machine of the host, the state file and the cached unit name of Tor. What
-- has changed before a raise stays changed. A print has no part in the model. A value of the state file
-- is a `Json`, and a load answers a function from keys to values.
--
-- Bounds and fuel. Loops over lists are structural. The wait for Tor has one round of fuel more than
-- the timeout has seconds, where a round waits two; Core/KillSwitch/Polling is about that. A decimal
-- text of `n` has `n + 1` rounds for its digits. The wait for the carrier counts milliseconds, and has
-- a round for each 300 of its timeout and one more, which Core/Identity/Carrier shows to be enough
-- where nobody sets the clock back meanwhile. The search for
-- the name of a distribution has a round for each character. The loops that drop old packets take them
-- off a list.
--
-- Not modelled. Of gui.py the widgets, the status bar, the file dialogs and the buttons of the
-- refreshed environment, of the two watches and of the list of profiles are left out. Of main.py
-- the menu's choices 9, 10, 16, 19, 23 and 26 are left out, and of the answers that `int` accepts those
-- that are not plain decimal digits. Left out of privacyguard/ is what only prints or lists: the summaries, `list_profiles` and
-- `list_saved_logs`. State/Threads speaks of the threads that call `update`, Gui/Race and
-- Gui/Console of threads of the window; everywhere else a call is a whole that no other one interrupts.
pub mod Prelude
pub mod Exec
pub mod Host
pub mod Text
pub mod Environment
pub mod FirewallBackup
pub mod Filter
pub mod ProxyTor
pub mod Core
pub mod ProxyOnly
pub mod Gateway
pub mod Exclusion
pub mod Vpn
pub mod Orchestrate
pub mod VmSnapshot
pub mod Cli
pub mod Gui
pub mod Ram
pub mod Crypto
pub mod Workstation
pub mod Topology
pub mod Monitor
pub mod Dns
pub mod Verify
pub mod AntiRecon
mod Tests
pub mod State
