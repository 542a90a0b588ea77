-- ===== src/Exec.antt =====
-- Go functions that change a state and return an error: what was done before the error stays
-- done, so the state comes back beside the error too.

pub mod Returns
pub mod Keeps
pub mod Leads
use a10_certctl.Base.{Bool, true, false, if◌then◌else◌, ◌≡◌, refl}
use a10_certctl.Errors.{Error, Result, ok, err, wrapped}
use Prim.Native.String.{String}

abbrev pub Exec : Type 0 → Type 0 → Type 0
Exec S A = S → Result A × S

-- The rest of a body after the result of its first call.
abbrev pub proceed : {S A B : Type 0} → Result A → (A → Exec S B) → Exec S B
proceed (ok a) f s = f a s
proceed (err e) f s = (err e, s)

infixl 5 ◌>>=◌ ◌>>◌
unfoldable pub ◌>>=◌ : {S A B : Type 0} → Exec S A → (A → Exec S B) → Exec S B
◌>>=◌ m f s = let (r, s') = m s in proceed r f s'

abbrev pub ◌>>◌ : {S A B : Type 0} → Exec S A → Exec S B → Exec S B
m >> k = m >>= λ _. k

unfoldable pub pure : {S A : Type 0} → A → Exec S A
pure a s = (ok a, s)

-- `return err`
unfoldable pub raise : {S A : Type 0} → Error → Exec S A
raise e s = (err e, s)

unfoldable pub lift : {S A : Type 0} → Result A → Exec S A
lift r s = (r, s)

unfoldable pub gets : {S A : Type 0} → (S → A) → Exec S A
gets f s = (ok (f s), s)

unfoldable pub modify : {S : Type 0} → (S → S) → Exec S (Unit {0})
modify f s = (ok tt, f s)

-- `if test { body }`
abbrev pub when : {S : Type 0} → Bool → Exec S (Unit {0}) → Exec S (Unit {0})
when b m = if b then m else pure tt

-- `if err != nil { return fmt.Errorf("message: %w", err) }`
abbrev pub wrap_result : {A : Type 0} → String → Result A → Result A
wrap_result message (ok a) = ok a
wrap_result message (err e) = err (wrapped message e)

unfoldable pub annotate : {S A : Type 0} → String → Exec S A → Exec S A
annotate message m s = let (r, s') = m s in (wrap_result message r, s')

-- The result of a call, kept as a value: `err := call()`.
unfoldable pub attempt : {S A : Type 0} → Exec S A → Exec S (Result A)
attempt m s = let (r, s') = m s in (ok r, s')

module _ {S A B C : Type 0} where
  proceed_assoc :
      (f : A → Exec S B) (g : B → Exec S C) (r : Result A) (s : S)
      → proceed r (λ a. f a >>= g) s ≡ (proceed r f >>= g) s
  unfolding ◌>>=◌
  proceed_assoc f g (ok a) s = refl
  proceed_assoc f g (err e) s = refl

  pub bind_assoc :
      (m : Exec S A) (f : A → Exec S B) (g : B → Exec S C) (s : S)
      → (m >>= λ a. f a >>= g) s ≡ (m >>= f >>= g) s
  unfolding ◌>>=◌
  bind_assoc m f g s = let (r, s') = m s in proceed_assoc f g r s'

-- A call that fails ends the body.
pub bind-err :
    {S A B : Type 0} (m : Exec S A) (f : A → Exec S B) (s : S) (e : Error)
    → (m s).0 ≡ err e
    → (m >>= f) s ≡ (err e, (m s).1)
unfolding ◌>>=◌
bind-err m f s e h = rw h refl

pub bind-ok :
    {S A B : Type 0} (m : Exec S A) (f : A → Exec S B) (s : S) (a : A)
    → (m s).0 ≡ ok a
    → (m >>= f) s ≡ f a (m s).1
unfolding ◌>>=◌
bind-ok m f s a h = rw h refl
