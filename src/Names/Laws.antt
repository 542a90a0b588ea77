-- ===== src/Names/Laws.antt =====
-- What the name validation accepts.
use a10_certctl.Base.{◌≤◌, ◌≡◌, ◌≢◌, ◌↔◌, [], false, arith, any}
use a10_certctl.Text.{Text, codes, len, trim_space, is_control}
use a10_certctl.Text.Laws.{==_iff}
use a10_certctl.Errors.{ok}
use a10_certctl.Names.{
  is_separator, is_delimiter, validate_object_name, validate_template_name, validate_file_name,
}

-- The names that ACOS objects may have: not blank, not a relative path segment, and free of
-- control characters, path separators and URL delimiters.
pub record IsObjectName (name : Text) : Type 0 where
  pub not_blank : trim_space name ≢ []
  pub no_control : any is_control name ≡ false
  pub no_separator : any is_separator name ≡ false
  pub not_dot : name ≢ codes "."
  pub not_dots : name ≢ codes ".."
  pub no_delimiter : any is_delimiter name ≡ false

pub validate_object_name_iff :
    (name : Text) → (validate_object_name name ≡ ok tt) ↔ IsObjectName name
unfolding validate_object_name
validate_object_name_iff name = (
  λ h. ground (arith, ==_iff name (codes "."), ==_iff name (codes "..")),
  λ h. ground (arith, ==_iff name (codes "."), ==_iff name (codes "..")),
)

-- A template name is accepted just where it is an object name of at most 127 bytes.
pub validate_template_name_iff :
    (name : Text) → (validate_template_name name ≡ ok tt) ↔ (IsObjectName name × (len name ≤ 127))
unfolding validate_template_name
validate_template_name_iff name = (
  λ h. ground (arith, ==_iff name (codes "."), ==_iff name (codes "..")),
  λ h. ground (arith, ==_iff name (codes "."), ==_iff name (codes "..")),
)

-- A file name is accepted just where it is an object name of at most 245 bytes.
pub validate_file_name_iff :
    (name : Text) → (validate_file_name name ≡ ok tt) ↔ (IsObjectName name × (len name ≤ 245))
unfolding validate_file_name
validate_file_name_iff name = (
  λ h. ground (arith, ==_iff name (codes "."), ==_iff name (codes "..")),
  λ h. ground (arith, ==_iff name (codes "."), ==_iff name (codes "..")),
)
