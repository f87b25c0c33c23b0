-- ===== src/Exec/Gives.antt =====
-- Calls that return, from any state, with a value of which something is known.
use privacy_toolkit.Prelude.{Bool, true, false, if◌then◌else◌}
use privacy_toolkit.Exec.{Exn, Exec, pure, gets, modify, catch_all, catch_if, ◌>>=◌}
use privacy_toolkit.Exec.Ends.{Ends, Ends-any, Ends-pure, Ends-bind, Ends-catch_all, Ends-catch_if}

module _ {S : Type 0} where
  pub record Gives {A : Type 0} (R : A → Type 0) (m : Exec S A) : Type 0 where
    pub at : (s : S) → Ends (λ a _. R a) (λ _. ⊥) (m s)

  abbrev pub Returns : {A : Type 0} → Exec S A → Type 0
  Returns m = Gives (λ _. Unit {0}) m

  pub Gives-bind :
      {A B : Type 0} (R : A → Type 0) (Q : B → Type 0) (m : Exec S A) (f : A → Exec S B)
      → Gives R m
      → ((a : A) → R a → Gives Q (f a))
      → Gives Q (m >>= f)
  Gives-bind R Q m f km kf = record {
    at = λ s. Ends-bind (λ a _. R a) m (km.at s) (λ a s' h. (kf a h).at s');
  }

  module _ {A : Type 0} where
    pub Gives-pure : (R : A → Type 0) (a : A) → R a → Gives R (pure a)
    Gives-pure R a h = record { at = λ s. Ends-pure h }

    pub Returns-pure : (a : A) → Returns (pure a)
    Returns-pure a = record { at = λ s. Ends-pure tt }

    pub Returns-gets : (f : S → A) → Returns (gets f)
    Returns-gets f = record { at = λ s. Ends-pure tt }

    pub Returns-if :
        (b : Bool) (m n : Exec S A) → Returns m → Returns n → Returns (if b then m else n)
    Returns-if true m n km kn = km
    Returns-if false m n km kn = kn

    -- Whatever the body does.
    pub Returns-catch_all : (m h : Exec S A) → Returns h → Returns (catch_all m h)
    Returns-catch_all m h kh = record {
      at = λ s. Ends-catch_all (λ _. Unit {0}) m (Ends-any (m s)) (λ s' _. kh.at s');
    }

    pub Returns-catch_if :
        (caught : Exn → Bool) (m h : Exec S A) → Returns m → Returns (catch_if caught m h)
    Returns-catch_if caught m h km = record {
      at = λ s. Ends-catch_if caught m (km.at s) (λ s' none. absurd none);
    }

  pub Returns-modify : (f : S → S) → Returns (modify f)
  Returns-modify f = record { at = λ s. Ends-pure tt }

  pub Returns-bind :
      {A B : Type 0} (m : Exec S A) (f : A → Exec S B)
      → Returns m
      → ((a : A) → Returns (f a))
      → Returns (m >>= f)
  Returns-bind m f km kf = Gives-bind (λ _. Unit {0}) (λ _. Unit {0}) m f km (λ a _. kf a)

pub ruleset returns_rules = (
  Returns-pure, Returns-gets, Returns-modify, Returns-if, Returns-bind, Returns-catch_all,
  Returns-catch_if,
)
