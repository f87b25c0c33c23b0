-- ===== src/Tests/Blank.antt =====
-- A machine with any state, on which nothing is there and nothing happens.
use privacy_toolkit.Prelude.{true, false, none, some, []}
use privacy_toolkit.Host.{Host, exited, done, broken}

abbrev pub blank : Type 0 → Host
blank S = record {
  Sys = S;
  exec = λ _ _ s. (exited 0 "" "", s);
  which = λ _ _. true;
  exists = λ _ _. false;
  read = λ _ _. broken;
  write = λ _ _ s. (done tt, s);
  read_bytes = λ _ _. broken;
  write_bytes = λ _ _ s. (done tt, s);
  random = λ _ s. ([], s);
  mkdir = λ _ s. (done tt, s);
  set_mode = λ _ _ s. (done tt, s);
  unlink = λ _ s. (done tt, s);
  has_module = λ _ _. true;
  ask_tor = λ _ s. (none, s);
  ask_ip = λ _ s. (none, s);
  connects = λ _ _ s. (some false, s);
  spawn = λ _ s. (true, s);
  stamp = λ _ _. "20260101-000000";
  home = "/root";
  sleep = λ _ s. s;
  clock = λ _. 0;
  pause = λ _ s. s;
  randint = λ _ s. (0, s);
  getenv = λ _ _. "";
  is_superuser = λ _. true;
  newnym = λ _ s. (true, s);
  storable = λ _. done tt;
}
