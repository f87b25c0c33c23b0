-- ===== src/Exec/Keeps.antt =====
-- What a call keeps true of the state, whether it returns or raises: one rule for each way to build a
-- call.
use privacy_toolkit.Prelude.{Bool, true, false, if◌then◌else◌}
use privacy_toolkit.Exec.{
  Exn, Res, ok, raised, Exec, pure, raise, gets, catch_all, catch_if, ◌>>=◌, proceed,
}

module _ {S : Type 0} (P : S → Type 0) where
  pub record Keeps {A : Type 0} (m : Exec S A) : Type 0 where
    pub at : (s : S) → P s → P (m s).1

  module _ {A : Type 0} where
    pub Keeps-pure : (a : A) → Keeps (pure a)
    Keeps-pure a = record { at = λ s h. h }

    pub Keeps-raise : (e : Exn) → Keeps (raise {A = A} e)
    Keeps-raise e = record { at = λ s h. h }

    pub Keeps-gets : (f : S → A) → Keeps (gets f)
    Keeps-gets f = record { at = λ s h. h }

    pub Keeps-if : (b : Bool) (m n : Exec S A) → Keeps m → Keeps n → Keeps (if b then m else n)
    Keeps-if true m n km kn = km
    Keeps-if false m n km kn = kn

    handled :
        (caught : Exn → Bool) (h : Exec S A) (r : Res A × S)
        → Keeps h
        → P r.1
        → P
            (elim r.0 as (λ _. Res A × S) [
              | ok a ↦ (ok a, r.1)
              | raised e ↦ (if caught e then h else raise e) r.1
            ]).1
    handled caught h (ok a, s) kh p = p
    handled caught h (raised e, s) kh p =
        (Keeps-if (caught e) h (raise e) kh (Keeps-raise e)).at s p

    pub Keeps-catch_if :
        (caught : Exn → Bool) (m h : Exec S A) → Keeps m → Keeps h → Keeps (catch_if caught m h)
    unfolding catch_if
    Keeps-catch_if caught m h km kh = record { at = λ s p. handled caught h (m s) kh (km.at s p) }

    recovered :
        (h : Exec S A) (r : Res A × S)
        → Keeps h
        → P r.1
        → P (elim r.0 as (λ _. Res A × S) [ ok a ↦ (ok a, r.1) | raised e ↦ h r.1 ]).1
    recovered h (ok a, s) kh p = p
    recovered h (raised e, s) kh p = kh.at s p

    pub Keeps-catch_all : (m h : Exec S A) → Keeps m → Keeps h → Keeps (catch_all m h)
    unfolding catch_all
    Keeps-catch_all m h km kh = record { at = λ s p. recovered h (m s) kh (km.at s p) }

  module _ {A B : Type 0} where
    proceeded :
        (r : Res A × S) (f : A → Exec S B)
        → P r.1
        → ((a : A) → Keeps (f a))
        → P (proceed r.0 f r.1).1
    proceeded (ok a, s) f h k = (k a).at s h
    proceeded (raised e, s) f h k = h

    pub Keeps-bind :
        (m : Exec S A) (f : A → Exec S B) → Keeps m → ((a : A) → Keeps (f a)) → Keeps (m >>= f)
    unfolding ◌>>=◌
    Keeps-bind m f km kf = record { at = λ s h. proceeded (m s) f (km.at s h) kf }

pub ruleset keeps_rules =
    (Keeps-pure, Keeps-raise, Keeps-gets, Keeps-if, Keeps-catch_all, Keeps-catch_if, Keeps-bind)
