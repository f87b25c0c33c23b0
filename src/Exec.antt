-- ===== src/Exec.antt =====
-- A Python call: it reads and writes a state `S`, and returns or raises. What was done before a
-- raise stays done, so the state comes back beside the exception too.
pub mod Ends
pub mod Keeps
pub mod Gives
use privacy_toolkit.Prelude.{Bool, true, false, if◌then◌else◌}

-- The exceptions that the program tells apart: `CalledProcessError`, `FileNotFoundError` of a
-- program that cannot be started, `TimeoutExpired`, `PermissionError`, any other `OSError`, `LookupError`,
-- `RuntimeError`, `FileNotFoundError` of a file, `ValueError` or what a library raises for data that
-- it does not accept, and `EOFError`.
pub data Exn : Type 0 where
  process_failed not_started timed_out permission_denied io_failed key_missing runtime_error no_file
        bad_value end_of_input :
      Exn

pub data Res (A : Type 0) : Type 0 where
  ok : A → Res A
  raised : Exn → Res A

abbrev pub Exec : Type 0 → Type 0 → Type 0
Exec S A = S → Res A × S

module _ {S A : Type 0} where
  abbrev pub pure : A → Exec S A
  pure a s = (ok a, s)

  abbrev pub raise : Exn → Exec S A
  raise e s = (raised e, s)

  -- `try: m except Exception: h`
  unfoldable pub catch_all : Exec S A → Exec S A → Exec S A
  catch_all m h s = let (r, s') = m s in elim r [ ok a ↦ (ok a, s') | raised e ↦ h s' ]

  -- `try: m except X: h`, for the exceptions that `caught` admits; the others go on up.
  unfoldable pub catch_if : (Exn → Bool) → Exec S A → Exec S A → Exec S A
  catch_if caught m h s =
      let (r, s') = m s in
      elim r [ ok a ↦ (ok a, s') | raised e ↦ (if caught e then h else raise e) s' ]

abbrev pub is_process_error : Exn → Bool
is_process_error Exn.process_failed = true
is_process_error _ = false

abbrev pub is_permission_error : Exn → Bool
is_permission_error Exn.permission_denied = true
is_permission_error _ = false

abbrev pub gets : {S A : Type 0} → (S → A) → Exec S A
gets f s = (ok (f s), s)

abbrev pub modify : {S : Type 0} → (S → S) → Exec S (Unit {0})
modify f s = (ok tt, f s)

module _ {S A B : Type 0} where
  abbrev pub proceed : Res A → (A → Exec S B) → Exec S B
  proceed (ok a) f s = f a s
  proceed (raised e) f s = (raised e, s)

  infixl 5 ◌>>=◌ ◌>>◌
  unfoldable pub ◌>>=◌ : Exec S A → (A → Exec S B) → Exec S B
  ◌>>=◌ m f s = let (r, s') = m s in proceed r f s'

  abbrev pub ◌>>◌ : Exec S A → Exec S B → Exec S B
  m >> n = m >>= λ _. n
