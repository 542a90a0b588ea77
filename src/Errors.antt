-- ===== src/Errors.antt =====
-- pkg/a10/errors.go and the typed errors of the package: `errors.Is` by category. Text that an
-- error only shows to a reader is left out; a message keeps its literal, unformatted part.
use Prim.Native.String.{String}
use a10_certctl.Base.{ℕ, Bool, true, false, ◌||◌, eqb}
use a10_certctl.Text.{Text}

-- `ErrAuthentication`, `ErrNotFound`, `ErrConflict`, `ErrUnsupportedVersion`, `ErrAmbiguousState`
pub data Category : Type 0 where
  authentication missing conflicting unsupported_version ambiguous_state : Category

pub data Error : Type 0 where
  -- `errors.New`, or `fmt.Errorf` with no `%w`
  failed : String → Error
  -- `fmt.Errorf` with `%w`
  wrapped : String → Error → Error
  -- `APIError`: method, status, code
  api_error : String → ℕ → Error
  -- `NotFoundError`: kind and name
  not_found : String → Text → Error
  -- `CompatibilityError`: version and reason
  compatibility : Text → String → Error
  -- `ConflictError`: stage, expected and actual revision
  conflict : String → Text → Text → Error
  -- `AmbiguousStateError`: expected and actual revision, cause
  ambiguous : Text → Text → Error → Error
  -- `RollbackError`: operation, cause, failure of the rollback
  rollback_failed : String → Error → Error → Error
  -- `errors.Join` of two errors
  joined : Error → Error → Error

-- `(*APIError).Is`
unfoldable pub status_category : Category → ℕ → Bool
status_category authentication status = eqb status 401 || eqb status 403
status_category missing status = eqb status 404
status_category conflicting status = eqb status 409
status_category unsupported_version status = false
status_category ambiguous_state status = false

abbrev pub is_missing : Category → Bool
is_missing missing = true
is_missing _ = false

abbrev pub is_conflicting : Category → Bool
is_conflicting conflicting = true
is_conflicting _ = false

abbrev pub is_unsupported : Category → Bool
is_unsupported unsupported_version = true
is_unsupported _ = false

abbrev pub is_ambiguous : Category → Bool
is_ambiguous ambiguous_state = true
is_ambiguous _ = false

-- `errors.Is err category`: the error's own `Is`, then what `Unwrap` gives.
unfoldable pub errors_is : Category → Error → Bool
unfolding status_category
errors_is c (failed _) = false
errors_is c (wrapped _ e) = errors_is c e
errors_is c (api_error _ status) = status_category c status
errors_is c (not_found _ _) = is_missing c
errors_is c (compatibility _ _) = is_unsupported c
errors_is c (conflict _ _ _) = is_conflicting c
errors_is c (ambiguous _ _ cause) = is_ambiguous c || errors_is c cause
errors_is c (rollback_failed _ cause rollback) =
    is_ambiguous c || errors_is c cause || errors_is c rollback
errors_is c (joined a b) = errors_is c a || errors_is c b

pub data Result {ℓ} (A : Type ℓ) : Type ℓ where
  ok : A → Result A
  err : Error → Result A

-- `if err != nil { return fmt.Errorf("...: %w", err) }`
abbrev pub wrap {ℓ} : {A : Type ℓ} → String → Result A → Result A
wrap message (ok a) = ok a
wrap message (err e) = err (wrapped message e)

infixl 5 ◌>>=◌ ◌>>◌
abbrev pub ◌>>=◌ {ℓ κ} : {A : Type ℓ} {B : Type κ} → Result A → (A → Result B) → Result B
ok a >>= f = f a
err e >>= f = err e

abbrev pub ◌>>◌ {ℓ κ} : {A : Type ℓ} {B : Type κ} → Result A → Result B → Result B
m >> k = m >>= λ _. k

-- `if test { return errors.New(message) }`
abbrev pub refuse_if : Bool → Error → Result (Unit {0})
refuse_if true e = err e
refuse_if false e = ok tt

abbrev pub is_ok {ℓ} : {A : Type ℓ} → Result A → Bool
is_ok (ok a) = true
is_ok (err e) = false
