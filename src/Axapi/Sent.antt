-- ===== src/Axapi/Sent.antt =====
-- Which requests a call has sent where it succeeds: `Sent p rs m` says that they are `rs`, the last
-- one first. One rule for each way to build a call: pkg/a10/client.go
use Prim.Native.String.{String}
use a10_certctl.Base.{
  ℕ, ◌≡◌, ◌≢◌, refl, ap, sym, ◌∙◌, subst, Bool, true, false, List, [], ◌∷◌, ◌++◌, if◌then◌else◌,
}
use mathlib.Core.List.{append_assoc, append-nil}
use a10_certctl.Text.{Text}
use a10_certctl.Errors.{Result, ok, err}
use a10_certctl.Exec.{◌>>=◌, proceed, pure, lift, gets, when, annotate, wrap_result}
use a10_certctl.Exec.Leads.{Succeeded, Succeeded-all}
use a10_certctl.Axapi.{Request, World, Io, do_json, transmit, check_status}

-- The second world has the requests of the first and these, the last one first, in partition `p`.
pub record Grown (p : Text) (rs : List Request) (w w' : World) : Type 0 where
  pub sent : w'.sent ≡ rs ++ w.sent
  pub partition : w'.partition ≡ p

-- In partition `p`, a call that succeeds has sent just these requests, the last one first.
pub record Sent (p : Text) (rs : List Request) {A : Type 0} (m : Io A) : Type 0 where
  pub at : (w : World) → w.partition ≡ p → Succeeded (m w).0 (Grown p rs w (m w).1)

abbrev Succeeded-in :
    (p : Text) (rs : List Request) (w : World) {A : Type 0} → Result A × World → Type 0
Succeeded-in p rs w (r, w') = Succeeded r (Grown p rs w w')

Grown-trans :
    {p : Text} {rs qs : List Request} {w w' u : World}
    → Grown p rs w w'
    → Grown p qs w' u
    → Grown p (qs ++ rs) w u
Grown-trans {p} {rs} {qs} {w} h k = record {
  sent = k.sent ∙ ap (λ l. qs ++ l) h.sent ∙ sym (append_assoc qs rs w.sent);
  partition = k.partition;
}

Succeeded-map : {A T U : Type 0} (r : Result A) → (T → U) → Succeeded r T → Succeeded r U
Succeeded-map (ok a) f h = f h
Succeeded-map (err e) f h = tt

wrap_succeeded :
    {A : Type 0} (T : Type 0) (message : String) (r : Result A)
    → Succeeded r T
    → Succeeded (wrap_result message r) T
wrap_succeeded T message (ok a) h = h
wrap_succeeded T message (err e) h = tt

module _ {p : Text} where
  here : {w : World} → w.partition ≡ p → Grown p [] w w
  here h = record { sent = refl; partition = h }

  module _ {A : Type 0} where
    pub Sent-lift : (r : Result A) → Sent p [] (lift r)
    unfolding lift
    Sent-lift r = record { at = λ w h. Succeeded-all r (here h) }

    pub Sent-pure : (a : A) → Sent p [] (pure a)
    unfolding pure
    Sent-pure a = record { at = λ w h. here h }

    pub Sent-gets : (f : World → A) → Sent p [] (gets f)
    unfolding gets
    Sent-gets f = record { at = λ w h. here h }

    pub Sent-annotate :
        {rs : List Request} (message : String) (m : Io A)
        → Sent p rs m
        → Sent p rs (annotate message m)
    unfolding annotate
    Sent-annotate message m h = record { at = λ w k. wrap_succeeded _ message (m w).0 (h.at w k) }

    pub Sent-if :
        {rs qs : List Request} (b : Bool) (m n : Io A)
        → Sent p rs m
        → Sent p qs n
        → Sent p (if b then rs else qs) (if b then m else n)
    Sent-if true m n hm hn = hm
    Sent-if false m n hm hn = hn

  pub Sent-when :
      {rs : List Request} (b : Bool) (m : Io (Unit {0}))
      → Sent p rs m
      → Sent p (if b then rs else []) (when b m)
  Sent-when b m h = Sent-if b m (pure tt) h (Sent-pure tt)

  module _ {A B : Type 0} {qs : List Request} where
    -- The value of a result that is no error
    held :
        (r : Result A) (f : A → Io B) (w : World)
        → w.partition ≡ p
        → ((a : A) → r ≡ ok a → Sent p qs (f a))
        → Succeeded (proceed r f w).0 (Grown p qs w (proceed r f w).1)
    held (ok a) f w h k = (k a refl).at w h
    held (err e) f w h k = tt

    pub Sent-known :
        (r : Result A) (f : A → Io B)
        → ((a : A) → r ≡ ok a → Sent p qs (f a))
        → Sent p qs (lift r >>= f)
    unfolding lift ◌>>=◌
    Sent-known r f k = record { at = λ w h. held r f w h k }

    after :
        (rs : List Request) (w w' : World) (r : Result A) (f : A → Io B)
        → Succeeded r (Grown p rs w w')
        → ((a : A) → Sent p qs (f a))
        → Succeeded (proceed r f w').0 (Grown p (qs ++ rs) w (proceed r f w').1)
    after rs w w' (ok a) f h k =
        let (r, u) = f a w' in Succeeded-map r (Grown-trans h) ((k a).at w' h.partition)
    after rs w w' (err e) f h k = tt

    pub Sent-bind :
        {rs : List Request} (m : Io A) (f : A → Io B)
        → Sent p rs m
        → ((a : A) → Sent p qs (f a))
        → Sent p (qs ++ rs) (m >>= f)
    unfolding ◌>>=◌
    Sent-bind m f hm hf = record {
      at = λ w h. let (r, w') = m w in after _ w w' r f (hm.at w h) hf;
    }

    -- What sends nothing adds nothing to what follows.
    pub Sent-quiet :
        (m : Io A) (f : A → Io B) → Sent p [] m → ((a : A) → Sent p qs (f a)) → Sent p qs (m >>= f)
    Sent-quiet m f hm hf = subst (λ l. Sent p l (m >>= f)) (append-nil qs) (Sent-bind m f hm hf)

  by_closed :
      {rs : List Request} (b : Bool) (w : World) (x y : Result (Unit {0}) × World)
      → x.0 ≢ ok tt
      → Grown p rs w y.1
      → Succeeded-in p rs w (if b then x else y)
  by_closed true w (err e, w') y n h = tt
  by_closed true w (ok u, w') y n h = absurd (n refl)
  by_closed false w x (r, w') n h = Succeeded-all r h

  pub Sent-do_json : (accepted : List ℕ) (r : Request) → Sent p (r ∷ []) (do_json accepted r)
  unfolding do_json transmit
  Sent-do_json accepted r = record {
    at = λ w h.
        by_closed {rs = r ∷ []} w.closed w _
          (check_status accepted (transmit r w).0, (transmit r w).1) (λ e. cc)
          (record { sent = refl; partition = h });
  }

pub ruleset sent_rules = (Sent-quiet, Sent-lift, Sent-gets, Sent-annotate, Sent-do_json)
