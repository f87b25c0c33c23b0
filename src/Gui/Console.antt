-- ===== src/Gui/Console.antt =====
-- The console of the window in gui.py: `_run_bg` puts a redirector in place of `sys.stdout`, which all
-- threads share, for as long as its thread runs; what is written there goes to a queue, and
-- `_drain_log_queue` moves it to the widget.
pub mod Order
pub mod Overlap
use privacy_toolkit.Prelude.{
  ℕ, ◌==◌, ◌≡◌, ◌≢◌, refl, sym, ◌∙◌, ap, arith, String, Bool, true, false, List, [], ◌∷◌, ◌++◌, map,
  str_eq, format, if◌then◌else◌,
}
use privacy_toolkit.Text.{Chars, chars, is_newline}

-- `sys.stdout`: the terminal, or the `ConsoleRedirector` of a thread.
pub data Out : Type 0 where
  terminal : Out
  redirector : ℕ → Out

pub record Screen : Type 0 where
  pub stdout : Out
  -- `old_stdout` of each thread
  pub old_stdout : ℕ → Out
  pub log_q : List String
  -- what was inserted in the widget, and what was written to the terminal
  pub console : List String
  pub printed : List String

unfoldable pub ends_line : Chars → Bool
ends_line [] = false
ends_line (c ∷ []) = is_newline c
ends_line (c ∷ d ∷ s) = ends_line (d ∷ s)

-- `text if text.endswith("\n") else text + "\n"`
unfoldable pub as_line : String → String
unfolding ends_line chars
as_line text = if ends_line (chars text) then text else format (text ∷ "\n" ∷ [])

abbrev pub enqueue : String → Screen → Screen
enqueue text s = record s { log_q = s.log_q ++ (text ∷ []) }

-- `sys.stdout.write`: a redirector drops the empty text.
unfoldable pub write : Out → String → Screen → Screen
write terminal text s = record s { printed = s.printed ++ (text ∷ []) }
write (redirector i) text s = if str_eq text "" then s else enqueue text s

-- `_drain_log_queue`, which finds the texts in the order in which they were put
unfoldable pub drain_log_queue : Screen → Screen
drain_log_queue s = record s { console = s.console ++ map as_line s.log_q; log_q = [] }

-- The lines of `target` before the call.
unfoldable pub enter : ℕ → Screen → Screen
enter i s = record s {
  old_stdout = λ j. if i == j then s.stdout else s.old_stdout j;
  stdout = redirector i;
}

-- The `finally` of `target`.
unfoldable pub leave : ℕ → Screen → Screen
leave i s = record s { stdout = s.old_stdout i }

-- While a thread runs: it writes to what `sys.stdout` is then, a text is put in the queue directly, as
-- `_monitor_alert` and the `except` of `target` do, or the main loop drains the queue.
pub data ThreadAct : Type 0 where
  wrote queued : String → ThreadAct
  drained : ThreadAct

unfoldable pub act : ThreadAct → Screen → Screen
unfolding write drain_log_queue
act (wrote text) s = write s.stdout text s
act (queued text) s = enqueue text s
act drained s = drain_log_queue s

unfoldable pub act_all : List ThreadAct → Screen → Screen
unfolding act
act_all [] s = s
act_all (a ∷ acts) s = act_all acts (act a s)

-- `target`, with what happens while it runs.
unfoldable pub thread : ℕ → List ThreadAct → Screen → Screen
unfolding enter leave act_all
thread i acts s = leave i (act_all acts (enter i s))

-- Threads that do not overlap.
unfoldable pub threads : List (ℕ × List ThreadAct) → Screen → Screen
unfolding thread
threads [] s = s
threads ((i, acts) ∷ rest) s = threads rest (thread i acts s)

-- The texts, without the empty ones that are written.
abbrev pub texts : List ThreadAct → List String
texts [] = []
texts (wrote text ∷ acts) = let rest = texts acts in if str_eq text "" then rest else text ∷ rest
texts (queued text ∷ acts) = text ∷ texts acts
texts (drained ∷ acts) = texts acts

abbrev pub all_texts : List (ℕ × List ThreadAct) → List String
all_texts [] = []
all_texts ((i, acts) ∷ rest) = texts acts ++ all_texts rest
