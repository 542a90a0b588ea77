-- ===== src/Exec/Returns.antt =====
-- What is known of the value that a call returns: `Returns Q m` says that every value with which
-- `m` succeeds satisfies `Q`.
use a10_certctl.Base.{◌≡◌, refl, subst, Bool, true, false, if◌then◌else◌}
use a10_certctl.Errors.{Error, Result, ok, err}
use a10_certctl.Exec.{Exec, proceed, ◌>>=◌, pure, raise, lift}

pub record Returns {S A : Type 0} (Q : A → Type 0) (m : Exec S A) : Type 0 where
  pub at : (s : S) (a : A) → (m s).0 ≡ ok a → Q a

-- A constructor carries its value.
abbrev pub Holds : {A : Type 0} → (A → Type 0) → Result A → Type 0
Holds Q (ok a) = Q a
Holds Q (err e) = Unit

pub Holds-of : {A : Type 0} (Q : A → Type 0) (r : Result A) → ((a : A) → r ≡ ok a → Q a) → Holds Q r
Holds-of Q (ok a) h = h a refl
Holds-of Q (err e) h = tt

pub of-Holds : {A : Type 0} (Q : A → Type 0) (r : Result A) (a : A) → Holds Q r → r ≡ ok a → Q a
of-Holds {A} Q r a h e = subst (λ (x : Result A). Holds Q x) e h

module _ {S A : Type 0} {Q : A → Type 0} where
  pub Returns-pure : (a : A) → Q a → Returns {S = S} Q (pure a)
  unfolding pure
  Returns-pure a q = record { at = λ s b e. of-Holds Q (ok a) b q e }

  pub Returns-raise : (e : Error) → Returns {S = S} Q (raise e)
  unfolding raise
  Returns-raise e = record { at = λ s b p. cc }

  pub Returns-lift : (r : Result A) → ((a : A) → r ≡ ok a → Q a) → Returns {S = S} Q (lift r)
  unfolding lift
  Returns-lift r h = record { at = λ s b p. h b p }

  pub Returns-if :
      (b : Bool) (m n : Exec S A) → Returns Q m → Returns Q n → Returns Q (if b then m else n)
  Returns-if true m n hm hn = hm
  Returns-if false m n hm hn = hn

module _ {S A B : Type 0} {Q : B → Type 0} where
  Holds-proceed :
      (R : A → Type 0) (r : Result A) (f : A → Exec S B) (s : S)
      → Holds R r
      → ((a : A) → R a → Returns Q (f a))
      → (b : B) → (proceed r f s).0 ≡ ok b
      → Q b
  Holds-proceed R (ok a) f s h k b e = (k a h).at s b e
  Holds-proceed R (err x) f s h k b e = cc

  pub Returns-bind :
      (R : A → Type 0) (m : Exec S A) (f : A → Exec S B)
      → Returns R m
      → ((a : A) → R a → Returns Q (f a))
      → Returns Q (m >>= f)
  unfolding ◌>>=◌
  Returns-bind R m f hm hf = record {
    at = λ s b e. let (r, s') = m s in Holds-proceed R r f s' (Holds-of R r (hm.at s)) hf b e;
  }

  -- Nothing need be known of the first value.
  pub Returns-next :
      (m : Exec S A) (f : A → Exec S B) → ((a : A) → Returns Q (f a)) → Returns Q (m >>= f)
  unfolding ◌>>=◌
  Returns-next m f hf = record {
    at = λ s b e.
        let (r, s') = m s in
        Holds-proceed (λ a. Unit) r f s' (Holds-of (λ a. Unit {0}) r (λ a p. tt)) (λ a u. hf a) b e;
  }
