-- ===== src/Client/Releases.antt =====
-- Operations of a client that open a session of their own leave it logged off: pkg/a10/client.go
use a10_certctl.Base.{◌≡◌, refl, sym, ◌∙◌, subst, inl, inr}
use a10_certctl.Errors.{Error, Result, ok, err}
use a10_certctl.Exec.{◌>>=◌, lift, gets, pure, raise, proceed}
use a10_certctl.Axapi.{Request, World, Io}
use a10_certctl.Axapi.Sends.{Sends}
use a10_certctl.Client.{Client, close_after, in_opened, in_session, start_session}
use a10_certctl.Client.Lifecycle.{IsStarted, IsReleased, close-IsLoggedOff, start_session-IsStarted}

-- A call that leaves the world alone
pub record IsSilent {A : Type 0} (m : Io A) : Type 0 where
  pub at : (w : World) → (m w).1 ≡ w

-- A call that opens a session for itself, if at all
pub record Releases (client : Client) {A : Type 0} (m : Io A) : Type 0 where
  pub at : (w : World) → IsReleased client w (m w).1

abbrev pub Anything : Request → Type 0
Anything r = Unit

module _ {A : Type 0} where
  pub IsSilent-lift : (r : Result A) → IsSilent (lift r)
  unfolding lift
  IsSilent-lift r = record { at = λ w. refl }

  pub IsSilent-gets : (f : World → A) → IsSilent (gets f)
  unfolding gets
  IsSilent-gets f = record { at = λ w. refl }

  pub IsSilent-pure : (a : A) → IsSilent (pure a)
  unfolding pure
  IsSilent-pure a = record { at = λ w. refl }

  pub IsSilent-raise : (e : Error) → IsSilent (raise {A = A} e)
  unfolding raise
  IsSilent-raise e = record { at = λ w. refl }

module _ {A B : Type 0} where
  silent_proceed :
      (r : Result A) (f : A → Io B) (w : World) → ((a : A) → IsSilent (f a)) → (proceed r f w).1 ≡ w
  silent_proceed (ok a) f w h = (h a).at w
  silent_proceed (err e) f w h = refl

  pub IsSilent-bind :
      (m : Io A) (f : A → Io B) → IsSilent m → ((a : A) → IsSilent (f a)) → IsSilent (m >>= f)
  unfolding ◌>>=◌
  IsSilent-bind m f hm hf = record {
    at = λ w. let (r, w') = m w in silent_proceed r f w' hf ∙ hm.at w;
  }

pub ruleset silent_rules =
    (IsSilent-lift, IsSilent-gets, IsSilent-pure, IsSilent-raise, IsSilent-bind)

module _ (client : Client) where
  pub Releases-silent : {A : Type 0} (m : Io A) → IsSilent m → Releases client m
  Releases-silent m h = record { at = λ w. inl (h.at w) }

  module _ {A B : Type 0} where
    IsReleased-proceed :
        (r : Result A) (f : A → Io B) (w : World)
        → ((a : A) → Releases client (f a))
        → IsReleased client w (proceed r f w).1
    IsReleased-proceed (ok a) f w h = (h a).at w
    IsReleased-proceed (err e) f w h = inl refl

    -- What comes before the session leaves the world alone.
    pub Releases-before :
        (m : Io A) (f : A → Io B)
        → IsSilent m
        → ((a : A) → Releases client (f a))
        → Releases client (m >>= f)
    unfolding ◌>>=◌
    Releases-before m f hm hf = record {
      at = λ w.
          let (r, w') = m w in
          subst (λ u. IsReleased client u (proceed r f w').1) (hm.at w)
            (IsReleased-proceed r f w' hf);
    }

    -- What comes after it does too.
    pub Releases-after :
        (m : Io A) (f : A → Io B)
        → Releases client m
        → ((a : A) → IsSilent (f a))
        → Releases client (m >>= f)
    unfolding ◌>>=◌
    Releases-after m f hm hf = record {
      at = λ w.
          let (r, w') = m w in
          subst (IsReleased client w) (sym (silent_proceed r f w' hf)) (hm.at w);
    }

  module _ {A : Type 0} where
    opened :
        (operation : Io A)
        → Sends Anything (λ w. w) operation
        → (w : World) (x : Result (Unit {0}) × World) → IsStarted client w x
        → IsReleased client w (in_opened operation x.0 x.1).1
    unfolding in_opened close_after
    opened operation h w (ok u, w') s =
        inr (inr (close-IsLoggedOff (operation w').1 ((h.at w').closed ∙ s)))
    opened operation h w (err e, w') (inl s) = inr (inl s)
    opened operation h w (err e, w') (inr s) = inr (inr s)

    pub in_session-Releases :
        (operation : Io A)
        → Sends Anything (λ w. w) operation
        → Releases client (in_session client operation)
    unfolding in_session
    in_session-Releases operation h = record {
      at = λ w. opened operation h w (start_session client w) (start_session-IsStarted client w);
    }
