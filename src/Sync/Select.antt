-- ===== src/Sync/Select.antt =====
-- `validateTarget`, `selectCurrentBinding`, `selectTargetBinding` and
-- `verifyManagedCertificateCollision` of pkg/a10/sync.go.
use a10_certctl.Base.{
  ℕ, Bool, not, ◌&&◌, ◌||◌, List, [], ◌∷◌, Option, none, some, is_nil, eqb, if◌then◌else◌,
}
use a10_certctl.Base.Int.{pos, int_eq}
use a10_certctl.Text.{Text, ◌==◌, codes, trim_left, trim_prefix}
use a10_certctl.Errors.{failed, Result, ok, err, refuse_if, ◌>>◌}
use a10_certctl.Names.{validate_file_name, validate_template_name}
use a10_certctl.Platform.{X509}
use a10_certctl.Bundle.{Certificate}
use a10_certctl.Bundle.Parse.{to_upper}
use a10_certctl.Template.{Binding, find_binding, same_binding}
use a10_certctl.Session.{CertificateInfo}
use a10_certctl.Sync.{Target}

-- `validateTarget`
unfoldable pub validate_target : Target → Result (Unit {0})
validate_target target = do
  validate_template_name target.client_ssl_template
  if is_nil target.current_certificate then ok tt else validate_file_name target.current_certificate

-- The switch on `len(bindings)`
unfoldable pub sole_binding : List Binding → Result (Option Binding)
sole_binding [] = ok none
sole_binding (b ∷ []) = ok (some b)
sole_binding (b ∷ c ∷ bs) =
    err (failed "client-SSL template has several certificate bindings; select one")

unfoldable pub exact_binding : List Binding → Text → Result (Option Binding)
unfolding find_binding
exact_binding bindings current = elim (find_binding bindings current) [
  | none ↦ err (failed "certificate is not bound to client-SSL template")
  | some b ↦ ok (some b)
]

-- `selectTargetBinding`
unfoldable pub select_target_binding : List Binding → Target → Result (Option Binding)
unfolding sole_binding exact_binding
select_target_binding bindings target =
    if is_nil target.current_certificate
    then sole_binding bindings
    else exact_binding bindings target.current_certificate

-- `if binding, ok := findBinding(...); ok && sameBinding(binding, desired)`
unfoldable pub desired_or_sole : List Binding → Binding → Option Binding → Result (Option Binding)
unfolding sole_binding same_binding
desired_or_sole bindings desired none = sole_binding bindings
desired_or_sole bindings desired (some b) =
    if same_binding b desired then ok (some b) else sole_binding bindings

-- `selectCurrentBinding`
unfoldable pub select_current_binding : List Binding → Target → Binding → Result (Option Binding)
unfolding desired_or_sole exact_binding find_binding
select_current_binding bindings target desired =
    if is_nil target.current_certificate
    then desired_or_sole bindings desired (find_binding bindings desired.certificate)
    else exact_binding bindings target.current_certificate

unfoldable pub is_zero_digit : ℕ → Bool
is_zero_digit c = eqb c b'0'

-- An empty serial number stands for zero.
unfoldable pub or_zero : Text → Text
or_zero s = if is_nil s then codes "0" else s

unfoldable pub actual_serial : Text → Text
unfolding to_upper trim_prefix trim_left or_zero is_zero_digit
actual_serial serial =
    or_zero (trim_left is_zero_digit (trim_prefix (to_upper serial) (codes "0X")))

unfoldable pub desired_serial : Text → Text
unfolding to_upper trim_left or_zero is_zero_digit
desired_serial serial = or_zero (trim_left is_zero_digit (to_upper serial))

-- The test on one item whose name is the managed one.
unfoldable pub is_different : CertificateInfo → Text → X509 → Bool
unfolding actual_serial desired_serial int_eq
is_different item serial x =
    not (actual_serial item.serial == desired_serial serial)
    || not (item.common_name == x.common_name)
    || (not (int_eq item.not_after_number (pos 0))
        && not (int_eq item.not_after_number (pos x.not_after)))
    || (not (int_eq item.key_size (pos 0))
        && not (eqb x.key_size 0)
        && not (int_eq item.key_size (pos x.key_size)))

-- `verifyManagedCertificateCollision`: the first item of the name decides.
unfoldable pub verify_collision : List CertificateInfo → Text → Certificate → Result (Unit {0})
unfolding is_different
verify_collision [] name desired =
    err (failed "A10 certificate file exists but has no operational certificate metadata")
verify_collision (item ∷ inventory) name desired =
    if item.name == name
    then (elim desired.parsed [
      | none ↦ err (failed "certificate was not created by ParseCertificate")
      | some x ↦
          refuse_if (is_different item desired.serial x)
            (failed "managed A10 file name already contains a different certificate")
    ])
    else verify_collision inventory name desired
