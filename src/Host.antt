-- ===== src/Host.antt =====
-- The machine that the program drives: the programs that it starts by `subprocess.run`, the files
-- that it reads and writes, the clock and the network probe. None of it is code of the repository,
-- so it is a parameter, the record `Host`; what a proof relies on is a record of laws beside it.
-- `World` adds the one file that the program reads back itself, `~/.privacyguard_state.json`.
use privacy_toolkit.Prelude.{ℕ, String, Bool, List, Option, ◌==◌, if◌then◌else◌}
use privacy_toolkit.Exec.{Exec, Exn, ok, raise, pure, ◌>>=◌}

-- What comes of starting a program: it exits with a code, its stdout and its stderr; or it is not
-- there to start; or it runs past the `timeout` that the call gave.
pub data Reply : Type 0 where
  exited : ℕ → String → String → Reply
  missing late : Reply

-- A file operation: it succeeds, or raises `PermissionError`, or raises something else.
pub data Io (A : Type 0) : Type 0 where
  done : A → Io A
  denied broken : Io A

-- The answer of check.torproject.org: its fields `IsTor` and `IP`.
pub record TorAnswer : Type 0 where
  pub is_tor : Bool
  pub ip : String

pub record Host : Type 1 where
  pub Sys : Type 0
  -- argv and the text on stdin
  pub exec : List String → String → Sys → Reply × Sys
  -- `shutil.which`
  pub which : String → Sys → Bool
  pub exists : String → Sys → Bool
  pub read : String → Sys → Io String
  pub write : String → String → Sys → Io (Unit {0}) × Sys
  -- what comes of writing the temporary file of the state and of `os.replace`
  pub storable : Sys → Io (Unit {0})
  -- `read_text` and `write_text` for the bytes of a file
  pub read_bytes : String → Sys → Io (List ℕ)
  pub write_bytes : String → List ℕ → Sys → Io (Unit {0}) × Sys
  -- `os.urandom`
  pub random : ℕ → Sys → List ℕ × Sys
  -- `mkdir(parents=True, exist_ok=True)`
  pub mkdir : String → Sys → Io (Unit {0}) × Sys
  pub set_mode : String → ℕ → Sys → Io (Unit {0}) × Sys
  -- `unlink`
  pub unlink : String → Sys → Io (Unit {0}) × Sys
  -- `__import__` finds the module
  pub has_module : String → Sys → Bool
  -- what the worker thread of `check_tor_active` puts on its queue within the time allowed;
  -- `none` if it raises or is late
  pub ask_tor : ℕ → Sys → Option TorAnswer × Sys
  -- the body that https://api.ipify.org answers with in the time allowed; `none` if that raises
  pub ask_ip : ℕ → Sys → Option String × Sys
  -- whether `socket.create_connection` succeeds or raises an OSError; `none` where it raises something
  -- else, as for a port that is out of range
  pub connects : String → ℕ → Sys → Option Bool × Sys
  -- `subprocess.Popen` of a program that goes on in the background
  pub spawn : List String → Sys → Bool × Sys
  -- `time.strftime`
  pub stamp : String → Sys → String
  -- `Path.home()`
  pub home : String
  pub sleep : ℕ → Sys → Sys
  -- `time.time` and `time.sleep` in milliseconds
  pub clock : Sys → ℕ
  pub pause : ℕ → Sys → Sys
  -- `random.randint(0, n)`, and so a choice among `n + 1`
  pub randint : ℕ → Sys → ℕ × Sys
  -- `os.environ.get(name, "")`, and `os.geteuid() == 0`
  pub getenv : String → Sys → String
  pub is_superuser : Sys → Bool
  -- a stem controller on port 9051: `authenticate`, with a password if there is one, and the signal
  -- `NEWNYM`; false where any of them raises
  pub newnym : Option String → Sys → Bool × Sys

module _ (H : Host) where
  open H use {Sys, exec, exists, read, write, mkdir, unlink, spawn, sleep, randint, set_mode}

  abbrev pub Call : Type 0 → Type 0
  Call A = Exec Sys A

  pub record Finished : Type 0 where
    pub returncode : ℕ
    pub stdout : String
    pub stderr : String

  abbrev pub settle : Reply → Call Finished
  settle (exited code out err) = pure (record { returncode = code; stdout = out; stderr = err })
  settle missing = raise Exn.not_started
  settle late = raise Exn.timed_out

  -- `subprocess.run(argv, input=text)` with no `check`
  unfoldable pub run_with : List String → String → Call Finished
  run_with argv text s = let (r, s') = exec argv text s in settle r s'

  unfoldable pub run : List String → Call Finished
  unfolding run_with
  run argv = run_with argv ""

  abbrev pub checked : Finished → Call Finished
  checked f = if f.returncode == 0 then pure f else raise Exn.process_failed

  -- `subprocess.run(argv, check=True)`
  unfoldable pub run_checked : List String → Call Finished
  unfolding run
  run_checked argv = do f ← run argv; checked f

  unfoldable pub run_checked_with : List String → String → Call Finished
  unfolding run_with
  run_checked_with argv text = do f ← run_with argv text; checked f

  abbrev pub from_io : {A : Type 0} → Io A → Call A
  from_io (done a) = pure a
  from_io denied = raise Exn.permission_denied
  from_io broken = raise Exn.io_failed

  unfoldable pub read_text : String → Call String
  read_text path s = from_io (read path s) s

  unfoldable pub write_text : String → String → Call (Unit {0})
  write_text path text s = let (r, s') = write path text s in from_io r s'

  unfoldable pub make_dirs : String → Call (Unit {0})
  make_dirs path s = let (r, s') = mkdir path s in from_io r s'

  unfoldable pub chmod : String → ℕ → Call (Unit {0})
  chmod path mode s = let (r, s') = H.set_mode path mode s in from_io r s'

  unfoldable pub remove_file : String → Call (Unit {0})
  remove_file path s = let (r, s') = unlink path s in from_io r s'

  abbrev pub draw : ℕ → Call ℕ
  draw n s = let (k, s') = randint n s in (ok k, s')

  abbrev pub wait : ℕ → Call (Unit {0})
  wait seconds s = (ok tt, sleep seconds s)

  -- `subprocess.Popen` raises `FileNotFoundError` where the program is not there.
  unfoldable pub popen : List String → Call (Unit {0})
  popen argv s =
      let (started, s') = spawn argv s in (if started then pure tt else raise Exn.not_started) s'
