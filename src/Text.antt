-- ===== src/Text.antt =====
-- The text operations of Python that the program uses, on texts as lists of characters.
use Prim.Native.Char.{Char, code}
use text.Mathlib.Text.{find?}
use privacy_toolkit.Prelude.{
  ltb, ◌%◌, ◌/◌, ◌≡◌, refl, ℕ, zero, suc, String, Bool, true, false, ◌||◌, ◌&&◌, Option, none, some,
  List, [], ◌∷◌, ◌++◌, leb, ◌==◌, if◌then◌else◌,
}

abbrev pub Chars : Type 0
Chars = List Char

unfoldable pub chars : String → Chars
chars String.[] = []
chars (String.◌∷◌ c s) = c ∷ chars s

unfoldable pub of_chars : Chars → String
of_chars [] = String.[]
of_chars (c ∷ s) = String.◌∷◌ c (of_chars s)

-- `str.isspace` of one character
unfoldable pub is_space : Char → Bool
is_space ch =
    let c = code ch in
    (leb 9 c && leb c 13)
    || (leb 28 c && leb c 32)
    || c == 133
    || c == 160
    || c == 5760
    || (leb 8192 c && leb c 8202)
    || c == 8232
    || c == 8233
    || c == 8239
    || c == 8287
    || c == 12288

-- Drops the characters at the front that pass the test.
unfoldable pub drop_while : (Char → Bool) → Chars → Chars
drop_while p [] = []
drop_while p (c ∷ s) = elim (p c) [ true ↦ drop_while p s | false ↦ c ∷ s ]

abbrev pub keep_before : (Char → Bool) → Char → Chars → Chars
keep_before p c [] = if p c then [] else c ∷ []
keep_before p c (d ∷ s) = c ∷ d ∷ s

-- Drops those at the end.
unfoldable pub drop_end : (Char → Bool) → Chars → Chars
drop_end p [] = []
drop_end p (c ∷ s) = keep_before p c (drop_end p s)

-- `s.strip()`
unfoldable pub strip_chars : Chars → Chars
unfolding drop_while drop_end is_space
strip_chars s = drop_end is_space (drop_while is_space s)

unfoldable pub strip : String → String
unfolding strip_chars chars of_chars
strip s = of_chars (strip_chars (chars s))

-- `part in s`
unfoldable pub contains : String → String → Bool
contains part s = elim (find? s part) [ none ↦ false | some _ ↦ true ]

-- What follows `p` at the front of `s`, if `s.startswith(p)`.
unfoldable pub after_prefix : Chars → Chars → Option Chars
after_prefix [] s = some s
after_prefix (d ∷ p) [] = none
after_prefix (d ∷ p) (c ∷ s) =
    let rest = after_prefix p s in if code d == code c then rest else none

unfoldable pub starts_with : Chars → Chars → Bool
unfolding after_prefix
starts_with p s = elim (after_prefix p s) [ none ↦ false | some _ ↦ true ]

-- `s.split(p)[0]`
unfoldable pub before_first : Chars → Chars → Chars
unfolding after_prefix
before_first p [] = []
before_first p (c ∷ s) = elim (after_prefix p (c ∷ s)) [ none ↦ c ∷ before_first p s | some _ ↦ [] ]

-- What follows the first `p` in `s`.
unfoldable pub after_first : Chars → Chars → Option Chars
unfolding after_prefix
after_first p [] = none
after_first p (c ∷ s) = elim (after_prefix p (c ∷ s)) [
  | none ↦ after_first p s
  | some rest ↦ some rest
]

-- `s.split(p)[-1]`, with one round of fuel for each `p` that is passed.
unfoldable pub after_last : ℕ → Chars → Chars → Chars
unfolding after_first
after_last zero p s = s
after_last (suc fuel) p s = elim (after_first p s) [ none ↦ s | some rest ↦ after_last fuel p rest ]

-- `p in s`
unfoldable pub occurs : Chars → Chars → Bool
unfolding after_first
occurs p s = elim (after_first p s) [ none ↦ false | some _ ↦ true ]

-- The characters at which `splitlines` ends a line.
unfoldable pub is_break : ℕ → Bool
is_break c = (leb 10 c && leb c 13) || (leb 28 c && leb c 30) || c == 133 || c == 8232 || c == 8233

unfoldable pub snoc : Chars → Char → Chars
snoc s c = s ++ (c ∷ [])

abbrev last_line : Chars → List Chars
last_line [] = []
last_line (c ∷ s) = (c ∷ s) ∷ []

-- `splitlines` in the middle of the line `line`; a newline directly after a carriage return belongs
-- to it.
unfoldable pub lines_from : Bool → Chars → Chars → List Chars
unfolding is_break snoc
lines_from after_cr line [] = last_line line
lines_from after_cr line (c ∷ s) =
    let ended = line ∷ lines_from (code c == 13) [] s in
    let skipped = lines_from false [] s in
    let longer = lines_from false (snoc line c) s in
    if after_cr && code c == 10 then skipped else if is_break (code c) then ended else longer

unfoldable pub splitlines : Chars → List Chars
unfolding lines_from
splitlines s = lines_from false [] s

-- `"\n".join(lines)`
unfoldable pub join_lines : List Chars → Chars
join_lines [] = []
join_lines (line ∷ []) = line
join_lines (line ∷ next ∷ rest) = line ++ ("\n" ∷ join_lines (next ∷ rest))

abbrev pub is_newline : Char → Bool
is_newline c = code c == 10

unfoldable pub length : Chars → ℕ
length [] = 0
length (c ∷ s) = suc (length s)

-- Equality of texts, character by character.
unfoldable pub same : Chars → Chars → Bool
same [] [] = true
same [] (d ∷ t) = false
same (c ∷ s) [] = false
same (c ∷ s) (d ∷ t) = code c == code d && same s t

abbrev pub digit_of : Chars → ℕ → Char
digit_of [] d = "0"
digit_of (c ∷ s) zero = c
digit_of (c ∷ s) (suc d) = digit_of s d

-- The digits of `n` before `rest`; there are at most `n + 1` rounds.
unfoldable pub digits_before : ℕ → ℕ → Chars → Chars
unfolding chars
digits_before zero n rest = rest
digits_before (suc fuel) n rest =
    let here = digit_of (chars "0123456789") (n % 10) ∷ rest in
    let more = digits_before fuel (n / 10) here in if ltb n 10 then here else more

-- `str(n)`
unfoldable pub decimal : ℕ → String
unfolding digits_before of_chars
decimal n = of_chars (digits_before (suc n) n [])

decimal_port : decimal 12345 ≡ "12345"
unfolding decimal
decimal_port = refl
