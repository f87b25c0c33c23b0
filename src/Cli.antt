-- ===== src/Cli.antt =====
-- How main.py reads what is typed. A line that is typed is the next of a list; where there is none
-- left, `input` raises.
pub mod Handlers
pub mod Menu
pub mod Main
pub mod Monitors
pub mod Exclusive
use Prim.Native.Char.{Char, code}
use privacy_toolkit.Prelude.{
  ℕ, zero, suc, ◌+◌, ◌*◌, ◌-◌, String, Bool, true, false, not, ◌&&◌, leb, Option, none, some, List,
  [], ◌∷◌, str_eq, if◌then◌else◌,
}
use privacy_toolkit.Exec.{Exec, Exn, Res, ok, raised, pure, raise, ◌>>=◌, ◌>>◌}
use privacy_toolkit.Host.{Host, Call}
use privacy_toolkit.Text.{Chars, chars, of_chars, strip}
use privacy_toolkit.State.{World, on_sys}

-- `str.lower` of the letters of ASCII. The texts that an answer is compared with are of ASCII, and no
-- letter outside it becomes one of theirs.
abbrev lower_code : ℕ → ℕ
lower_code n = if leb 65 n && leb n 90 then n + 32 else n

-- `s.lower() == word`, for a word in small letters
unfoldable pub is_lower : Chars → Chars → Bool
is_lower [] [] = true
is_lower [] (_ ∷ _) = false
is_lower (_ ∷ _) [] = false
is_lower (c ∷ s) (d ∷ word) =
    let rest = is_lower s word in
    leb (lower_code (code c)) (code d) && leb (code d) (lower_code (code c)) && rest

-- `line.strip().lower() == word`
unfoldable pub answers : String → String → Bool
unfolding is_lower strip chars
answers word line = is_lower (chars (strip line)) (chars word)

-- `line.strip() or default`
unfoldable pub or_default : String → String → String
unfolding strip
or_default default line = let s = strip line in if str_eq s "" then default else s

-- `line.strip() or None`
unfoldable pub or_none : String → Option String
unfolding strip
or_none line = let s = strip line in if str_eq s "" then none else some s

-- The value of decimal digits, after what came before them.
unfoldable pub digits_value : ℕ → Chars → Option ℕ
digits_value n [] = some n
digits_value n (c ∷ s) =
    let rest = digits_value (n * 10 + (code c - 48)) s in
    if leb 48 (code c) && leb (code c) 57 then rest else none

-- `int(s)` of a text of decimal digits of ASCII. A sign, an underscore and other digits, which Python
-- takes too, are out: they raise here.
unfoldable pub int : Chars → Option ℕ
unfolding digits_value
int [] = none
int (c ∷ s) = digits_value 0 (c ∷ s)

module _ (H : Host) where
  pub record Session : Type 0 where
    pub world : World H
    pub typed : List String

  abbrev pub Sess : Type 0 → Type 0
  Sess A = Exec Session A

  -- A call of the program.
  unfoldable pub on_world : {A : Type 0} → Exec (World H) A → Sess A
  on_world m v = let (r, w) = m v.world in (r, record v { world = w })

  -- The same for a call whose answer is not used.
  unfoldable pub call : {A : Type 0} → Exec (World H) A → Sess (Unit {0})
  unfolding on_world
  call m = do on_world m; pure tt

  abbrev next_line : World H → List String → Session
  next_line w rest = record { world = w; typed = rest }

  abbrev pub next_typed : World H → List String → Res String × Session
  next_typed w [] = (raised Exn.end_of_input, next_line w [])
  next_typed w (line ∷ rest) = (ok line, next_line w rest)

  -- `input()`
  unfoldable pub input : Sess String
  input v = next_typed v.world v.typed

  -- `_prompt_enable`
  unfoldable pub prompt_enable : Sess Bool
  unfolding answers
  prompt_enable = do line ← input; pure (answers "enable" line)

  unfoldable pub prompt_yes : Sess Bool
  unfolding answers
  prompt_yes = do line ← input; pure (answers "y" line)

  unfoldable pub prompt_or : String → Sess String
  unfolding or_default
  prompt_or default = do line ← input; pure (or_default default line)

  unfoldable pub prompt_or_none : Sess (Option String)
  unfolding or_none
  prompt_or_none = do line ← input; pure (or_none line)

  unfoldable pub prompt_text : Sess String
  unfolding strip
  prompt_text = do line ← input; pure (strip line)

  abbrev pub or_value_error : Option ℕ → Sess ℕ
  or_value_error none = raise Exn.bad_value
  or_value_error (some n) = pure n

  -- `int(text)`
  unfoldable pub to_int : String → Sess ℕ
  unfolding int chars
  to_int text = or_value_error (int (chars text))

  -- `int(text) if text else default`
  unfoldable pub int_or : ℕ → String → Sess ℕ
  unfolding to_int
  int_or default text = if str_eq text "" then pure default else to_int text

  unfoldable pub lines_of : List String → List String
  lines_of [] = []
  lines_of (l ∷ ls) = let rest = lines_of ls in if str_eq l "" then [] else l ∷ rest

  -- What is left after the empty line; `none` where there is no such line.
  unfoldable pub after_blank : List String → Option (List String)
  after_blank [] = none
  after_blank (l ∷ ls) = let rest = after_blank ls in if str_eq l "" then some ls else rest

  abbrev pub lines_left : World H → List String → Option (List String) → Sess (List String)
  lines_left w typed none v = (raised Exn.end_of_input, next_line w [])
  lines_left w typed (some rest) v = (ok (lines_of typed), next_line w rest)

  -- `_read_lines`
  unfoldable pub read_lines : Sess (List String)
  unfolding lines_of after_blank
  read_lines v = lines_left v.world v.typed (after_blank v.typed) v
