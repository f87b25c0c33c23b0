-- ===== src/Gui/Vault/Lines.antt =====
-- The lines of a field of the window, joined and split again.
use Prim.Native.Char.{Char, code}
use mathlib.Core.List.{append_assoc, append-nil}
use privacy_toolkit.Prelude.{
  ◌==◌, ◌≡◌, refl, sym, ◌∙◌, ap, Bool, false, ◌&&◌, String, some, List, [], ◌∷◌, ◌++◌, map,
  if◌then◌else◌, Bool-cases, inl, inr,
}
use privacy_toolkit.Text.{
  Chars, chars, of_chars, strip_chars, drop_while, drop_end, is_break, snoc, lines_from, splitlines,
  join_lines,
}
use privacy_toolkit.Gui.{is_blank, nonblank, nonblank_lines}
use privacy_toolkit.Gui.Vault.{shown_lines}

chars-of_chars : (s : Chars) → chars (of_chars s) ≡ s
unfolding chars of_chars
chars-of_chars [] = refl
chars-of_chars (c ∷ s) = ap (λ t. c ∷ t) (chars-of_chars s)

abbrev NoBreak : Chars → Type 0
NoBreak [] = Unit
NoBreak (c ∷ s) = (is_break (code c) ≡ false) × NoBreak s

abbrev AllNoBreak : List Chars → Type 0
AllNoBreak [] = Unit
AllNoBreak (l ∷ ls) = NoBreak l × AllNoBreak ls

scan :
    (line l rest : Chars)
    → NoBreak l
    → lines_from false line (l ++ rest) ≡ lines_from false (line ++ l) rest
unfolding lines_from snoc
scan line [] rest nb = ap (λ s. lines_from false s rest) (sym (append-nil line))
scan line (c ∷ l) rest nb = rw (nb.0) (
    scan (line ++ (c ∷ [])) l rest nb.1
    ∙ ap (λ s. lines_from false s rest) (append_assoc line (c ∷ []) l))

abbrev ended : Chars
ended = "\n" ∷ []

-- Lines that are joined with a newline at the end, and split.
split_joined :
    (l : Chars) (ls : List Chars)
    → NoBreak l
    → AllNoBreak ls
    → lines_from false [] (join_lines (l ∷ ls) ++ ended) ≡ l ∷ ls
unfolding join_lines lines_from is_break
split_joined l [] nb all = scan [] l ended nb
split_joined l (m ∷ ls) nb all =
    ap (lines_from false []) (append_assoc l ("\n" ∷ join_lines (m ∷ ls)) ended)
    ∙ (scan [] l ("\n" ∷ (join_lines (m ∷ ls) ++ ended)) nb
        ∙ ap (λ r. l ∷ r) (split_joined m ls all.0 all.1))

NoBreak-snoc :
    (s : Chars) (c : Char) → NoBreak s → is_break (code c) ≡ false → NoBreak (s ++ (c ∷ []))
NoBreak-snoc [] c nb e = (e, tt)
NoBreak-snoc (d ∷ s) c nb e = (nb.0, NoBreak-snoc s c nb.1 e)

lines_from-AllNoBreak :
    (after_cr : Bool) (line s : Chars) → NoBreak line → AllNoBreak (lines_from after_cr line s)
unfolding lines_from snoc
lines_from-AllNoBreak after_cr [] [] nb = tt
lines_from-AllNoBreak after_cr (d ∷ line) [] nb = (nb, tt)
lines_from-AllNoBreak after_cr line (c ∷ s) nb = elim (Bool-cases (after_cr && code c == 10)) [
  | inl skip ↦ rw skip (lines_from-AllNoBreak false [] s tt)
  | inr e ↦ elim (Bool-cases (is_break (code c))) [
    | inl ends ↦ rw (e, ends) (nb, lines_from-AllNoBreak (code c == 13) [] s tt)
    | inr inside ↦
        rw (e, inside)
          (lines_from-AllNoBreak false (line ++ (c ∷ [])) s (NoBreak-snoc line c nb inside))
  ]
]

-- The lines that are kept, as characters.
abbrev kept : List Chars → List Chars
kept [] = []
kept (l ∷ ls) = let rest = kept ls in if is_blank l then rest else l ∷ rest

kept-nonblank : (ls : List Chars) → map chars (nonblank ls) ≡ kept ls
kept-nonblank [] = refl
kept-nonblank (l ∷ ls) = elim (Bool-cases (is_blank l)) [
  | inl blank ↦ rw blank (kept-nonblank ls)
  | inr solid ↦ rw (solid, chars-of_chars l) (ap (λ r. l ∷ r) (kept-nonblank ls))
]

kept-AllNoBreak : (ls : List Chars) → AllNoBreak ls → AllNoBreak (kept ls)
kept-AllNoBreak [] all = tt
kept-AllNoBreak (l ∷ ls) all = elim (Bool-cases (is_blank l)) [
  | inl blank ↦ rw blank (kept-AllNoBreak ls all.1)
  | inr solid ↦ rw solid (all.0, kept-AllNoBreak ls all.1)
]

nonblank-kept : (ls : List Chars) → nonblank (kept ls) ≡ nonblank ls
nonblank-kept [] = refl
nonblank-kept (l ∷ ls) = elim (Bool-cases (is_blank l)) [
  | inl blank ↦ rw blank (nonblank-kept ls)
  | inr solid ↦ rw solid (rw solid (ap (λ r. of_chars l ∷ r) (nonblank-kept ls)))
]

-- Split again, and without the blank lines; no line at all gives one that is blank.
nonblank-joined :
    (ls : List Chars) → AllNoBreak ls → nonblank (splitlines (join_lines ls ++ ended)) ≡ nonblank ls
unfolding splitlines join_lines lines_from is_break strip_chars drop_while drop_end
nonblank-joined [] all = refl
nonblank-joined (l ∷ ls) all = ap nonblank (split_joined l ls all.0 all.1)

-- A field that was saved and is shown again has the same lines, without the blank ones.
pub nonblank_lines-shown_lines :
    (text : String)
    → nonblank_lines (shown_lines (some (nonblank_lines text))) ≡ nonblank_lines text
unfolding nonblank_lines shown_lines splitlines
nonblank_lines-shown_lines text =
    let ls = splitlines (chars text) in
    let whole = lines_from-AllNoBreak false [] (chars text) tt in
    ap (λ s. nonblank (splitlines s))
      (chars-of_chars (join_lines (map chars (nonblank ls)) ++ ended))
    ∙ (ap (λ ks. nonblank (splitlines (join_lines ks ++ ended))) (kept-nonblank ls)
        ∙ (nonblank-joined (kept ls) (kept-AllNoBreak ls whole) ∙ nonblank-kept ls))
