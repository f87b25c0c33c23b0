-- ===== src/Gui/Console/Order.antt =====
-- What the console shows of threads that do not overlap.
use mathlib.Core.List.{append_assoc, append-nil, map-append}
use privacy_toolkit.Prelude.{
  ℕ, ◌==◌, ◌≡◌, refl, sym, subst, ◌∙◌, ap, arith, String, List, [], ◌∷◌, ◌++◌, map, str_eq,
  if◌then◌else◌, Bool-cases, inl, inr,
}
use privacy_toolkit.Gui.Console.{
  Out, Screen, redirector, as_line, enqueue, write, drain_log_queue, enter, leave, ThreadAct, wrote,
  queued, drained, act, act_all, thread, threads, texts, all_texts,
}

-- What the console shows once the queue is drained.
abbrev shown : Screen → List String
shown s = s.console ++ map as_line s.log_q

-- All but the two ends of the queue.
abbrev Same : Screen → Screen → Type 0
Same s s' = (s'.stdout ≡ s.stdout) × (s'.old_stdout ≡ s.old_stdout) × (s'.printed ≡ s.printed)

shown-enqueue :
    (text : String) (s : Screen) → shown (enqueue text s) ≡ shown s ++ (as_line text ∷ [])
shown-enqueue text s =
    ap (λ l. s.console ++ l) (map-append as_line s.log_q (text ∷ []))
    ∙ sym (append_assoc s.console (map as_line s.log_q) (as_line text ∷ []))

shown-drain : (s : Screen) → shown (drain_log_queue s) ≡ shown s
unfolding drain_log_queue
shown-drain s = append-nil (s.console ++ map as_line s.log_q)

-- What a run through a redirector does, where the texts `ts` are added.
abbrev Added : List String → Screen → Screen → Type 0
Added ts s s' = Same s s' × (shown s' ≡ shown s ++ map as_line ts)

Added-enqueue : (text : String) (s : Screen) → Added (text ∷ []) s (enqueue text s)
Added-enqueue text s = ((refl, refl, refl), shown-enqueue text s)

Added-none : (s s' : Screen) → Same s s' → shown s' ≡ shown s → Added [] s s'
Added-none s s' same e = (same, e ∙ sym (append-nil (shown s)))

Added-then :
    (ts us : List String) (s s' s'' : Screen)
    → Added ts s s'
    → Added us s' s''
    → Added (ts ++ us) s s''
Added-then ts us s s' s'' a b = (
  (b.0.0 ∙ a.0.0, b.0.1 ∙ a.0.1, b.0.2 ∙ a.0.2),
  b.1
      ∙ (ap (λ l. l ++ map as_line us) a.1
          ∙ (append_assoc (shown s) (map as_line ts) (map as_line us)
              ∙ ap (λ l. shown s ++ l) (sym (map-append as_line ts us)))),
)

abbrev texts_of : ThreadAct → List String
texts_of a = texts (a ∷ [])

write-Added :
    (i : ℕ) (text : String) (s : Screen)
    → Added (texts_of (wrote text)) s (write (redirector i) text s)
unfolding write
write-Added i text s = elim (Bool-cases (str_eq text "")) [
  | inl e ↦ rw e (Added-none s s (refl, refl, refl) refl)
  | inr e ↦ rw e (Added-enqueue text s)
]

act-Added :
    (i : ℕ) (a : ThreadAct) (s : Screen) → s.stdout ≡ redirector i → Added (texts_of a) s (act a s)
unfolding act drain_log_queue
act-Added i (wrote text) s h =
    subst (λ o. Added (texts_of (wrote text)) s (write o text s)) (sym h) (write-Added i text s)
act-Added i (queued text) s h = Added-enqueue text s
act-Added i drained s h = Added-none s (drain_log_queue s) (refl, refl, refl) (shown-drain s)

texts-cons : (a : ThreadAct) (acts : List ThreadAct) → texts (a ∷ acts) ≡ texts_of a ++ texts acts
texts-cons (wrote text) acts = elim (Bool-cases (str_eq text "")) [
  | inl e ↦ rw e refl
  | inr e ↦ rw e refl
]
texts-cons (queued text) acts = refl
texts-cons drained acts = refl

act_all-Added :
    (i : ℕ) (acts : List ThreadAct) (s : Screen)
    → s.stdout ≡ redirector i
    → Added (texts acts) s (act_all acts s)
unfolding act_all
act_all-Added i [] s h = Added-none s s (refl, refl, refl) refl
act_all-Added i (a ∷ acts) s h =
    let first = act-Added i a s h in
    rw (texts-cons a acts) (
      Added-then (texts_of a) (texts acts) s (act a s) _ first
        (act_all-Added i acts (act a s) (first.0.0 ∙ h)))

-- What a whole thread does.
abbrev Ran : List String → Screen → Screen → Type 0
Ran ts s s' =
    (s'.stdout ≡ s.stdout) × (s'.printed ≡ s.printed) × (shown s' ≡ shown s ++ map as_line ts)

own : (i : ℕ) (a b : Out) → (if i == i then a else b) ≡ a
own i a b = ground arith

thread-Ran : (i : ℕ) (acts : List ThreadAct) (s : Screen) → Ran (texts acts) s (thread i acts s)
unfolding thread enter leave
thread-Ran i acts s =
    let ran = act_all-Added i acts (enter i s) refl in
    (ap (λ g. g i) ran.0.1 ∙ own i s.stdout (s.old_stdout i), ran.0.2, ran.1)

threads-Ran :
    (jobs : List (ℕ × List ThreadAct)) (s : Screen) → Ran (all_texts jobs) s (threads jobs s)
unfolding threads
threads-Ran [] s = (refl, refl, sym (append-nil (shown s)))
threads-Ran ((i, acts) ∷ rest) s =
    let first = thread-Ran i acts s in
    let later = threads-Ran rest (thread i acts s) in
    (
      later.0 ∙ first.0,
      later.1 ∙ first.1,
      later.2
          ∙ (ap (λ l. l ++ map as_line (all_texts rest)) first.2
              ∙ (append_assoc (shown s) (map as_line (texts acts)) (map as_line (all_texts rest))
                  ∙ ap (λ l. shown s ++ l)
                      (sym (map-append as_line (texts acts) (all_texts rest))))),
    )

-- Threads that run one after the other, with whatever they write, with texts put in the queue directly
-- and with drains in between, and then a drain: the widget has what it had, what was in the queue,
-- and every text in order, each with a newline at its end and without the empty ones; the queue is
-- empty, nothing went to the terminal, and `sys.stdout` is what it was.
pub threads_in_order :
    (jobs : List (ℕ × List ThreadAct)) (s : Screen)
    → ((drain_log_queue (threads jobs s)).console
        ≡ s.console ++ map as_line s.log_q ++ map as_line (all_texts jobs))
      × ((drain_log_queue (threads jobs s)).log_q ≡ [])
      × ((drain_log_queue (threads jobs s)).printed ≡ s.printed)
      × ((drain_log_queue (threads jobs s)).stdout ≡ s.stdout)
unfolding drain_log_queue
threads_in_order jobs s = let ran = threads-Ran jobs s in (ran.2, refl, ran.1, ran.0)
