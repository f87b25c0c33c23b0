-- ===== src/Exec/Ends.antt =====
-- Contracts of calls, read at one start state: the call ends in `Q` with its value, or raises and
-- ends in `E`. With `E` the empty type the call does not raise. One rule for each way to build a
-- call.
use privacy_toolkit.Prelude.{◌≡◌, refl, Bool, true, false, if◌then◌else◌}
use privacy_toolkit.Exec.{Exn, Res, ok, raised, raise, Exec, catch_all, catch_if, ◌>>=◌, proceed}

module _ {S A : Type 0} where
  abbrev pub EndsIn : (A → S → Type 0) → (S → Type 0) → Res A × S → Type 0
  EndsIn Q E (ok a, s) = Q a s
  EndsIn Q E (raised e, s) = E s

  pub record Ends (Q : A → S → Type 0) (E : S → Type 0) (r : Res A × S) : Type 0 where
    pub at : EndsIn Q E r

  -- What holds of the state whether the call returns or raises.
  pub Ends-state : {P : S → Type 0} (r : Res A × S) → Ends (λ _. P) P r → P r.1
  Ends-state (ok a, s) h = h.at
  Ends-state (raised e, s) h = h.at

  pub Ends-of_state : {P : S → Type 0} (r : Res A × S) → P r.1 → Ends (λ _. P) P r
  Ends-of_state (ok a, s) h = record { at = h }
  Ends-of_state (raised e, s) h = record { at = h }

  pub Ends-imp :
      {P Q : A → S → Type 0} {D E : S → Type 0} (r : Res A × S)
      → ((a : A) (s : S) → P a s → Q a s)
      → ((s : S) → D s → E s)
      → Ends P D r
      → Ends Q E r
  Ends-imp (ok a, s) f g h = record { at = f a s h.at }
  Ends-imp (raised e, s) f g h = record { at = g s h.at }

  -- Two contracts of one call.
  pub Ends-and :
      {P Q : A → S → Type 0} {D E : S → Type 0} (r : Res A × S)
      → Ends P D r
      → Ends Q E r
      → Ends (λ a s. P a s × Q a s) (λ s. D s × E s) r
  Ends-and (ok a, s) h k = record { at = (h.at, k.at) }
  Ends-and (raised e, s) h k = record { at = (h.at, k.at) }

  -- Nothing is asked of the call.
  pub Ends-any : (r : Res A × S) → Ends (λ _ _. Unit {0}) (λ _. Unit {0}) r
  Ends-any (ok a, s) = record { at = tt }
  Ends-any (raised e, s) = record { at = tt }

  module _ {Q : A → S → Type 0} {E : S → Type 0} where
    pub Ends-pure : {a : A} {s : S} → Q a s → Ends Q E (ok a, s)
    Ends-pure h = record { at = h }

    pub Ends-if :
        (b : Bool) (m n : Exec S A) {s : S}
        → (b ≡ true → Ends Q E (m s))
        → (b ≡ false → Ends Q E (n s))
        → Ends Q E ((if b then m else n) s)
    Ends-if true m n hm hn = hm refl
    Ends-if false m n hm hn = hn refl

    Ends-handled :
        (D : S → Type 0) (h : Exec S A) (m : Exec S A) (s : S) (r : Res A × S)
        → Ends Q D r
        → ((s' : S) → D s' → Ends Q E (h s'))
        → Ends Q E (elim r.0 [ ok a ↦ (ok a, r.1) | raised e ↦ h r.1 ])
    Ends-handled D h m s (ok a, s') k c = Ends-pure k.at
    Ends-handled D h m s (raised e, s') k c = c s' k.at

    -- Where the body raises, the handler goes on from what the body left.
    pub Ends-catch_all :
        (D : S → Type 0) (m : Exec S A) {h : Exec S A} {s : S}
        → Ends Q D (m s)
        → ((s' : S) → D s' → Ends Q E (h s'))
        → Ends Q E (catch_all m h s)
    unfolding catch_all
    Ends-catch_all D m {h} {s} k c = Ends-handled D h m s (m s) k c

module _ {S A : Type 0} {Q : A → S → Type 0} {E : S → Type 0} where
  Ends-filtered :
      (caught : Exn → Bool) (h : Exec S A) (r : Res A × S)
      → Ends Q E r
      → ((s' : S) → E s' → Ends Q E (h s'))
      → Ends Q E
          (elim r.0 [ ok a ↦ (ok a, r.1) | raised e ↦ (if caught e then h else raise e) r.1 ])
  Ends-filtered caught h (ok a, s') k c = Ends-pure k.at
  Ends-filtered caught h (raised e, s') k c =
      Ends-if (caught e) h (raise e) (λ _. c s' k.at) (λ _. record { at = k.at })

  pub Ends-catch_if :
      (caught : Exn → Bool) (m : Exec S A) {h : Exec S A} {s : S}
      → Ends Q E (m s)
      → ((s' : S) → E s' → Ends Q E (h s'))
      → Ends Q E (catch_if caught m h s)
  unfolding catch_if
  Ends-catch_if caught m {h} {s} k c = Ends-filtered caught h (m s) k c

module _ {S A B : Type 0} {Q : B → S → Type 0} {E : S → Type 0} (R : A → S → Type 0) where
  Ends-proceed :
      (r : Res A × S) (f : A → Exec S B)
      → Ends R E r
      → ((a : A) (s' : S) → R a s' → Ends Q E (f a s'))
      → Ends Q E (proceed r.0 f r.1)
  Ends-proceed (ok a, s) f h k = k a s h.at
  Ends-proceed (raised e, s) f h k = record { at = h.at }

  -- The first call ends in `R`; the rest may use that.
  pub Ends-bind :
      (m : Exec S A) {f : A → Exec S B} {s : S}
      → Ends R E (m s)
      → ((a : A) (s' : S) → R a s' → Ends Q E (f a s'))
      → Ends Q E ((m >>= f) s)
  unfolding ◌>>=◌
  Ends-bind m {f} {s} h k = Ends-proceed (m s) f h k
