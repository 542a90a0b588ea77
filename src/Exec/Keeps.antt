-- ===== src/Exec/Keeps.antt =====
-- Predicates on the state that a call keeps, whether it succeeds or not.
use Prim.Native.String.{String}
use a10_certctl.Base.{Bool, true, false, if◌then◌else◌}
use a10_certctl.Errors.{Error, Result, ok, err}
use a10_certctl.Exec.{Exec, proceed, ◌>>=◌, pure, raise, lift, gets, annotate, attempt}

pub record Keeps {S A : Type 0} (Q : S → Type 0) (m : Exec S A) : Type 0 where
  pub at : (s : S) → Q s → Q (m s).1

module _ {S A : Type 0} {Q : S → Type 0} where
  pub Keeps-pure : (a : A) → Keeps Q (pure a)
  unfolding pure
  Keeps-pure a = record { at = λ s h. h }

  pub Keeps-raise : (e : Error) → Keeps Q (raise {A = A} e)
  unfolding raise
  Keeps-raise e = record { at = λ s h. h }

  pub Keeps-lift : (r : Result A) → Keeps Q (lift r)
  unfolding lift
  Keeps-lift r = record { at = λ s h. h }

  pub Keeps-gets : (f : S → A) → Keeps Q (gets f)
  unfolding gets
  Keeps-gets f = record { at = λ s h. h }

  pub Keeps-annotate : (message : String) (m : Exec S A) → Keeps Q m → Keeps Q (annotate message m)
  unfolding annotate
  Keeps-annotate message m k = record { at = λ s h. k.at s h }

  pub Keeps-attempt : (m : Exec S A) → Keeps Q m → Keeps Q (attempt m)
  unfolding attempt
  Keeps-attempt m k = record { at = λ s h. k.at s h }

  pub Keeps-if : (b : Bool) (m n : Exec S A) → Keeps Q m → Keeps Q n → Keeps Q (if b then m else n)
  Keeps-if true m n hm hn = hm
  Keeps-if false m n hm hn = hn

module _ {S A B : Type 0} {Q : S → Type 0} where
  Keeps-proceed :
      (r : Result A) (f : A → Exec S B) → ((a : A) → Keeps Q (f a)) → Keeps Q (proceed r f)
  Keeps-proceed (ok a) f k = record { at = λ s h. (k a).at s h }
  Keeps-proceed (err e) f k = record { at = λ s h. h }

  pub Keeps-bind :
      (m : Exec S A) (f : A → Exec S B) → Keeps Q m → ((a : A) → Keeps Q (f a)) → Keeps Q (m >>= f)
  unfolding ◌>>=◌
  Keeps-bind m f km kf = record {
    at = λ s h. let (r, s') = m s in (Keeps-proceed r f kf).at s' (km.at s h);
  }

pub ruleset keeps_rules = (
  Keeps-pure, Keeps-raise, Keeps-lift, Keeps-gets, Keeps-annotate, Keeps-attempt, Keeps-if,
  Keeps-bind,
)
