-- ===== src/Exec/Leads.antt =====
-- What a call that succeeds has done: `Leads R m` relates the state before to the state after, for
-- a relation that is reflexive and transitive; `Ensures Q m` speaks of the state after alone.
use Prim.Native.String.{String}
use a10_certctl.Base.{◌≡◌, subst, Bool, true, false, if◌then◌else◌}
use a10_certctl.Errors.{Error, Result, ok, err}
use a10_certctl.Exec.{Exec, proceed, ◌>>=◌, pure, raise, lift, gets, annotate, wrap_result}
use a10_certctl.Exec.Returns.{Returns, Holds, Holds-of}
use a10_certctl.Exec.Keeps.{Keeps}

abbrev pub Succeeded : {A : Type 0} → Result A → Type 0 → Type 0
Succeeded (ok a) T = T
Succeeded (err e) T = Unit

pub Succeeded-of : {A : Type 0} {T : Type 0} (r : Result A) (a : A) → Succeeded r T → r ≡ ok a → T
Succeeded-of {A} {T} r a h e = subst (λ (x : Result A). Succeeded x T) e h

pub record Leads {S A : Type 0} (R : S → S → Type 0) (m : Exec S A) : Type 0 where
  pub at : (s : S) → Succeeded (m s).0 (R s (m s).1)

pub record Ensures {S A : Type 0} (Q : S → Type 0) (m : Exec S A) : Type 0 where
  pub at : (s : S) → Succeeded (m s).0 (Q (m s).1)

Succeeded-wrap :
    {A : Type 0} (T : Type 0) (message : String) (r : Result A)
    → Succeeded r T
    → Succeeded (wrap_result message r) T
Succeeded-wrap T message (ok a) h = h
Succeeded-wrap T message (err e) h = tt

pub Succeeded-all : {A : Type 0} {T : Type 0} (r : Result A) → T → Succeeded r T
Succeeded-all (ok a) t = t
Succeeded-all (err e) t = tt

module _ {S A : Type 0} {Q : S → Type 0} where
  pub Ensures-raise : (e : Error) → Ensures Q (raise {A = A} e)
  unfolding raise
  Ensures-raise e = record { at = λ s. tt }

  pub Ensures-if :
      (b : Bool) (m n : Exec S A) → Ensures Q m → Ensures Q n → Ensures Q (if b then m else n)
  Ensures-if true m n hm hn = hm
  Ensures-if false m n hm hn = hn

module _ {S A B : Type 0} {Q : S → Type 0} where
  Ensures-proceed :
      (r : Result A) (f : A → Exec S B) (s : S)
      → ((a : A) → Ensures Q (f a))
      → Succeeded (proceed r f s).0 (Q (proceed r f s).1)
  Ensures-proceed (ok a) f s h = (h a).at s
  Ensures-proceed (err e) f s h = tt

  -- The last call ensures it.
  pub Ensures-last :
      (m : Exec S A) (f : A → Exec S B) → ((a : A) → Ensures Q (f a)) → Ensures Q (m >>= f)
  unfolding ◌>>=◌
  Ensures-last m f h = record { at = λ s. let (r, s') = m s in Ensures-proceed r f s' h }

  Ensures-kept :
      (r : Result A) (f : A → Exec S B) (s : S)
      → Succeeded r (Q s)
      → ((a : A) → Keeps Q (f a))
      → Succeeded (proceed r f s).0 (Q (proceed r f s).1)
  Ensures-kept (ok a) f s q h = let (r, s') = f a s in Succeeded-all r ((h a).at s q)
  Ensures-kept (err e) f s q h = tt

  -- The first call ensures it, and the rest keeps it.
  pub Ensures-first :
      (m : Exec S A) (f : A → Exec S B)
      → Ensures Q m
      → ((a : A) → Keeps Q (f a))
      → Ensures Q (m >>= f)
  unfolding ◌>>=◌
  Ensures-first m f hm hf = record {
    at = λ s. let (r, s') = m s in Ensures-kept r f s' (hm.at s) hf;
  }

-- From a state with `I`, a call that succeeds ends in one with `Q`.
pub record Turns {S A : Type 0} (I Q : S → Type 0) (m : Exec S A) : Type 0 where
  pub at : (s : S) → I s → Succeeded (m s).0 (Q (m s).1)

module _ {S A : Type 0} {I Q : S → Type 0} where
  pub Turns-Ensures : (m : Exec S A) → Ensures Q m → Turns I Q m
  Turns-Ensures m h = record { at = λ s i. h.at s }

  pub Turns-if :
      (b : Bool) (m n : Exec S A) → Turns I Q m → Turns I Q n → Turns I Q (if b then m else n)
  Turns-if true m n hm hn = hm
  Turns-if false m n hm hn = hn

  pub Turns-annotate :
      (message : String) (m : Exec S A) → Turns I Q m → Turns I Q (annotate message m)
  unfolding annotate
  Turns-annotate message m h = record { at = λ s i. Succeeded-wrap _ message (m s).0 (h.at s i) }

module _ {S A : Type 0} {I : S → Type 0} where
  pub Turns-Keeps : (m : Exec S A) → Keeps I m → Turns I I m
  Turns-Keeps m k = record { at = λ s i. let (r, t) = m s in Succeeded-all r (k.at s i) }

module _ {S A B : Type 0} {I Q : S → Type 0} where
  Turns-proceed :
      (P : A → Type 0) (r : Result A) (f : A → Exec S B)
      → Holds P r
      → ((a : A) → P a → Turns I Q (f a))
      → Turns I Q (proceed r f)
  Turns-proceed P (ok a) f p h = record { at = λ s i. (h a p).at s i }
  Turns-proceed P (err e) f p h = record { at = λ s i. tt }

  -- The first call keeps what the rest starts from, and its value satisfies `P`.
  pub Turns-known :
      (P : A → Type 0) (m : Exec S A) (f : A → Exec S B)
      → Returns P m
      → Keeps I m
      → ((a : A) → P a → Turns I Q (f a))
      → Turns I Q (m >>= f)
  unfolding ◌>>=◌
  Turns-known P m f p k h = record {
    at = λ s i. let (r, t) = m s in (Turns-proceed P r f (Holds-of P r (p.at s)) h).at t (k.at s i);
  }

  pub Turns-next :
      (m : Exec S A) (f : A → Exec S B)
      → Keeps I m
      → ((a : A) → Turns I Q (f a))
      → Turns I Q (m >>= f)
  Turns-next m f k h = Turns-known (λ a. Unit) m f (record { at = λ s a e. tt }) k (λ a u. h a)

  -- Once the first call has brought it about, the rest keeps it.
  pub Turns-first :
      (m : Exec S A) (f : A → Exec S B)
      → Turns I Q m
      → ((a : A) → Keeps Q (f a))
      → Turns I Q (m >>= f)
  unfolding ◌>>=◌
  Turns-first m f h k = record { at = λ s i. let (r, t) = m s in Ensures-kept r f t (h.at s i) k }

module _ {S A : Type 0} {I J Q : S → Type 0} where
  pub Turns-from : ((s : S) → I s → J s) → (m : Exec S A) → Turns J Q m → Turns I Q m
  Turns-from f m h = record { at = λ s i. h.at s (f s i) }

  pub Turns-to : ((s : S) → J s → Q s) → (m : Exec S A) → Turns I J m → Turns I Q m
  Turns-to f m h = record { at = λ s i. let (r, t) = m s in mapped r t (h.at s i) }
    where
      mapped : (r : Result A) (t : S) → Succeeded r (J t) → Succeeded r (Q t)
      mapped (ok a) t x = f t x
      mapped (err e) t x = tt

  pub Turns-and : (m : Exec S A) → Turns I J m → Ensures Q m → Turns I (λ s. J s × Q s) m
  Turns-and m h k = record { at = λ s i. let (r, t) = m s in both r t (h.at s i) (k.at s) }
    where
      both :
          (r : Result A) (t : S) → Succeeded r (J t) → Succeeded r (Q t) → Succeeded r (J t × Q t)
      both (ok a) t x y = (x, y)
      both (err e) t x y = tt

module _ {S A B : Type 0} {J Q : S → Type 0} where
  then_turns :
      (r : Result A) (f : A → Exec S B) (s : S)
      → Succeeded r (J s)
      → ((a : A) → Turns J Q (f a))
      → Succeeded (proceed r f s).0 (Q (proceed r f s).1)
  then_turns (ok a) f s j h = (h a).at s j
  then_turns (err e) f s j h = tt

  -- The first call brings about what the rest starts from.
  pub Turns-then :
      {I : S → Type 0} (m : Exec S A) (f : A → Exec S B)
      → Turns I J m
      → ((a : A) → Turns J Q (f a))
      → Turns I Q (m >>= f)
  unfolding ◌>>=◌
  Turns-then m f hm hf = record { at = λ s i. let (r, t) = m s in then_turns r f t (hm.at s i) hf }

module _ {S : Type 0} {R : S → S → Type 0} (R-refl : (s : S) → R s s) where
  module _ {A : Type 0} where
    pub Leads-pure : (a : A) → Leads R (pure a)
    unfolding pure
    Leads-pure a = record { at = λ s. R-refl s }

    pub Leads-lift : (r : Result A) → Leads R (lift r)
    unfolding lift
    Leads-lift r = record { at = λ s. Succeeded-all r (R-refl s) }

    pub Leads-gets : (f : S → A) → Leads R (gets f)
    unfolding gets
    Leads-gets f = record { at = λ s. R-refl s }

module _ {S A : Type 0} {R : S → S → Type 0} where
  pub Leads-raise : (e : Error) → Leads R (raise {A = A} e)
  unfolding raise
  Leads-raise e = record { at = λ s. tt }

  pub Leads-annotate : (message : String) (m : Exec S A) → Leads R m → Leads R (annotate message m)
  unfolding annotate
  Leads-annotate message m h = record { at = λ s. Succeeded-wrap _ message (m s).0 (h.at s) }

  pub Leads-if : (b : Bool) (m n : Exec S A) → Leads R m → Leads R n → Leads R (if b then m else n)
  Leads-if true m n hm hn = hm
  Leads-if false m n hm hn = hn

module _ {S : Type 0} {R : S → S → Type 0} (R-trans : (s t u : S) → R s t → R t u → R s u) where
  module _ {A B : Type 0} where
    Leads-proceed :
        (s s' : S) (r : Result A) (f : A → Exec S B)
        → Succeeded r (R s s')
        → ((a : A) → Leads R (f a))
        → Succeeded (proceed r f s').0 (R s (proceed r f s').1)
    Leads-proceed s s' (ok a) f h k = let (r, t) = f a s' in step r t h ((k a).at s')
      where
        step : (r : Result B) (t : S) → R s s' → Succeeded r (R s' t) → Succeeded r (R s t)
        step (ok b) t h k = R-trans s s' t h k
        step (err e) t h k = tt
    Leads-proceed s s' (err e) f h k = tt

    pub Leads-bind :
        (m : Exec S A) (f : A → Exec S B)
        → Leads R m
        → ((a : A) → Leads R (f a))
        → Leads R (m >>= f)
    unfolding ◌>>=◌
    Leads-bind m f hm hf = record {
      at = λ s. let (r, s') = m s in Leads-proceed s s' r f (hm.at s) hf;
    }
