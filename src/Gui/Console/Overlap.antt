-- ===== src/Gui/Console/Overlap.antt =====
-- What the console loses where two threads of the window overlap.
use privacy_toolkit.Prelude.{
  ℕ, ◌==◌, ◌≡◌, ◌≢◌, refl, sym, subst, ◌∙◌, arith, String, [], ◌∷◌, ◌++◌, if◌then◌else◌,
}
use privacy_toolkit.Gui.Console.{Out, Screen, terminal, redirector, write, enter, leave}

-- The second thread starts while the first runs, and the first ends before the second.
unfoldable pub crossed : ℕ → ℕ → Screen → Screen
unfolding enter leave
crossed i j s = leave i (enter j (enter i s))

other : (i j : ℕ) (a b : Out) → i ≢ j → (if i == j then a else b) ≡ b
other i j a b h = ground arith

own : (i : ℕ) (a b : Out) → (if i == i then a else b) ≡ a
own i a b = ground arith

restored : (i j : ℕ) (s : Screen) → i ≢ j → s.stdout ≡ terminal → (crossed i j s).stdout ≡ terminal
unfolding crossed enter leave
restored i j s h start =
    other j i (redirector i) (if i == i then s.stdout else s.old_stdout i) (λ e. h (sym e))
    ∙ (own i s.stdout (s.old_stdout i) ∙ start)

-- What is written where `sys.stdout` is `o`.
abbrev Lost : ℕ → ℕ → String → Screen → Out → Type 0
Lost i j text s o =
    ((write o text (crossed i j s)).log_q ≡ s.log_q)
    × ((write o text (crossed i j s)).printed ≡ s.printed ++ (text ∷ []))
    × ((leave j (write o text (crossed i j s))).stdout ≡ redirector i)

to_terminal : (i j : ℕ) (text : String) (s : Screen) → Lost i j text s terminal
unfolding crossed write enter leave
to_terminal i j text s = (refl, refl, own j (redirector i) _)

-- Two threads that overlap and end in the order in which they began: what the second still writes goes
-- to where `sys.stdout` was before both, such as the terminal, and not to the queue; and when both
-- have ended, `sys.stdout` is the redirector of the first.
pub crossed_loses :
    (i j : ℕ) (text : String) (s : Screen)
    → i ≢ j
    → s.stdout ≡ terminal
    → ((write (crossed i j s).stdout text (crossed i j s)).log_q ≡ s.log_q)
      × ((write (crossed i j s).stdout text (crossed i j s)).printed ≡ s.printed ++ (text ∷ []))
      × ((leave j (write (crossed i j s).stdout text (crossed i j s))).stdout ≡ redirector i)
crossed_loses i j text s h start =
    subst (Lost i j text s) (sym (restored i j s h start)) (to_terminal i j text s)
