-- ===== src/Core.antt =====
-- privacyguard/core.py: the Tor kill switch and the IPv6 block. `Core.Torrc` is the text that the
-- switch writes to torrc.
mod Torrc
pub mod Identity
pub mod Ipv6
pub mod KillSwitch
unfoldable pub use Torrc.{rewritten, block}
unfoldable pub use Ipv6.{block_ipv6, unblock_ipv6}
unfoldable pub use KillSwitch.{
  tor_uid, kill_switch_rules, wait_for_tor_bootstrap, enable_kill_switch, disable_kill_switch,
  stored_path, path_of, read_if_exists, torrc, apply_kill_switch, ensure_transparent_proxy_torrc,
}
