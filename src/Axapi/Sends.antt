-- ===== src/Axapi/Sends.antt =====
-- Which requests a call may send: `Sends P view m` says that `m` appends to the record requests
-- that satisfy `P`, and changes nothing else of the world. One rule for each way to build a call.
use Prim.Native.String.{String}
use a10_certctl.Base.{
  ℕ, ◌≡◌, refl, sym, ap, ◌∙◌, subst, Bool, true, false, List, [], ◌∷◌, ◌++◌, All, All-append,
  All-map, if◌then◌else◌,
}
use mathlib.Core.List.{append_assoc}
use a10_certctl.Errors.{Error, Result, ok, err}
use a10_certctl.Exec.{Exec, proceed, ◌>>=◌, pure, raise, lift, gets, modify, annotate, attempt}
use a10_certctl.Exec.Returns.{Returns, Holds, Holds-of}
use a10_certctl.Json.{Json}
use a10_certctl.Axapi.{Request, World, get_json, do_json}

pub record Extends (P : Request → Type 0) (w w' : World) : Type 0 where
  pub requests : List Request
  pub sent : w'.sent ≡ requests ++ w.sent
  pub allowed : All P requests
  pub environment : w'.environment ≡ w.environment
  pub closed : w'.closed ≡ w.closed
  pub partition : w'.partition ≡ w.partition

pub record Sends (P : Request → Type 0) {S A : Type 0} (view : S → World) (m : Exec S A)
    : Type 0 where
  pub at : (s : S) → Extends P (view s) (view (m s).1)

pub Extends-refl : (P : Request → Type 0) (w : World) → Extends P w w
Extends-refl P w = record {
  requests = [];
  sent = refl;
  allowed = tt;
  environment = refl;
  closed = refl;
  partition = refl;
}

pub Extends-trans :
    {P : Request → Type 0} {u v w : World} → Extends P u v → Extends P v w → Extends P u w
Extends-trans {P} {u} {v} {w} a b = record {
  requests = b.requests ++ a.requests;
  sent =
      b.sent ∙ ap (λ r. b.requests ++ r) a.sent ∙ sym (append_assoc b.requests a.requests u.sent);
  allowed = All-append P b.requests a.requests b.allowed a.allowed;
  environment = b.environment ∙ a.environment;
  closed = b.closed ∙ a.closed;
  partition = b.partition ∙ a.partition;
}

pub Extends-map :
    {P Q : Request → Type 0} {w w' : World}
    → ((r : Request) → P r → Q r)
    → Extends P w w'
    → Extends Q w w'
Extends-map {P} {Q} f a = record {
  requests = a.requests;
  sent = a.sent;
  allowed = All-map P Q a.requests f a.allowed;
  environment = a.environment;
  closed = a.closed;
  partition = a.partition;
}

module _ {P : Request → Type 0} {S A : Type 0} {view : S → World} where
  pub Sends-pure : (a : A) → Sends P view (pure a)
  unfolding pure
  Sends-pure a = record { at = λ s. Extends-refl P (view s) }

  pub Sends-raise : (e : Error) → Sends P view (raise {A = A} e)
  unfolding raise
  Sends-raise e = record { at = λ s. Extends-refl P (view s) }

  pub Sends-lift : (r : Result A) → Sends P view (lift r)
  unfolding lift
  Sends-lift r = record { at = λ s. Extends-refl P (view s) }

  pub Sends-gets : (f : S → A) → Sends P view (gets f)
  unfolding gets
  Sends-gets f = record { at = λ s. Extends-refl P (view s) }

  pub Sends-annotate :
      (message : String) (m : Exec S A) → Sends P view m → Sends P view (annotate message m)
  unfolding annotate
  Sends-annotate message m h = record { at = λ s. h.at s }

  pub Sends-attempt : (m : Exec S A) → Sends P view m → Sends P view (attempt m)
  unfolding attempt
  Sends-attempt m h = record { at = λ s. h.at s }

  pub Sends-if :
      (b : Bool) (m n : Exec S A)
      → Sends P view m
      → Sends P view n
      → Sends P view (if b then m else n)
  Sends-if true m n hm hn = hm
  Sends-if false m n hm hn = hn

module _ {P : Request → Type 0} {S : Type 0} {view : S → World} where
  pub Sends-when :
      (b : Bool) (m : Exec S (Unit {0}))
      → (b ≡ true → Sends P view m)
      → Sends P view (if b then m else pure tt)
  Sends-when true m h = h refl
  Sends-when false m h = Sends-pure tt

  pub Sends-modify : (f : S → S) → ((s : S) → view (f s) ≡ view s) → Sends P view (modify f)
  unfolding modify
  Sends-modify f h = record {
    at = λ s. subst (λ w. Extends P (view s) w) (sym (h s)) (Extends-refl P (view s));
  }

module _ {P : Request → Type 0} {S A B : Type 0} {view : S → World} where
  pub Sends-proceed :
      (r : Result A) (f : A → Exec S B)
      → ((a : A) → Sends P view (f a))
      → Sends P view (proceed r f)
  Sends-proceed (ok a) f h = record { at = λ s. (h a).at s }
  Sends-proceed (err e) f h = record { at = λ s. Extends-refl P (view s) }

  pub Sends-bind :
      (m : Exec S A) (f : A → Exec S B)
      → Sends P view m
      → ((a : A) → Sends P view (f a))
      → Sends P view (m >>= f)
  unfolding ◌>>=◌
  Sends-bind m f hm hf = record {
    at = λ s. let (r, s') = m s in Extends-trans (hm.at s) ((Sends-proceed r f hf).at s');
  }

  -- The rest may use what is known of the first value.
  Sends-held :
      (R : A → Type 0) (r : Result A) (f : A → Exec S B)
      → Holds R r
      → ((a : A) → R a → Sends P view (f a))
      → Sends P view (proceed r f)
  Sends-held R (ok a) f q h = record { at = λ s. (h a q).at s }
  Sends-held R (err e) f q h = record { at = λ s. Extends-refl P (view s) }

  pub Sends-bind-Returns :
      (R : A → Type 0) (m : Exec S A) (f : A → Exec S B)
      → Sends P view m
      → Returns R m
      → ((a : A) → R a → Sends P view (f a))
      → Sends P view (m >>= f)
  unfolding ◌>>=◌
  Sends-bind-Returns R m f hm returns hf = record {
    at = λ s.
        let (r, s') = m s in
        Extends-trans (hm.at s) ((Sends-held R r f (Holds-of R r (returns.at s)) hf).at s');
  }

-- A call that sends one request, at most.
module _ {P : Request → Type 0} where
  Extends-one : (w : World) (r : Request) → P r → Extends P w (record w { sent = r ∷ w.sent })
  Extends-one w r h = record {
    requests = r ∷ [];
    sent = refl;
    allowed = (h, tt);
    environment = refl;
    closed = refl;
    partition = refl;
  }

  Extends-if :
      {A : Type 0} (w : World) (b : Bool) (x y : Result A × World)
      → Extends P w x.1
      → Extends P w y.1
      → Extends P w (if b then x else y).1
  Extends-if w true x y hx hy = hx
  Extends-if w false x y hx hy = hy

  pub Sends-do_json :
      (accepted : List ℕ) (r : Request) → P r → Sends P (λ w. w) (do_json accepted r)
  unfolding do_json
  Sends-do_json accepted r h = record {
    at = λ w. Extends-if w w.closed _ _ (Extends-refl P w) (Extends-one w r h);
  }

  pub Sends-get_json :
      {A : Type 0} (accepted : List ℕ) (zero : A) (decode : Json → Result A) (r : Request)
      → P r
      → Sends P (λ w. w) (get_json accepted zero decode r)
  unfolding get_json
  Sends-get_json accepted zero decode r h = record {
    at = λ w. Extends-if w w.closed _ _ (Extends-refl P w) (Extends-one w r h);
  }

pub ruleset sends_rules = (
  Sends-pure, Sends-raise, Sends-lift, Sends-gets, Sends-annotate, Sends-attempt, Sends-if,
  Sends-bind, Sends-do_json, Sends-get_json,
)
