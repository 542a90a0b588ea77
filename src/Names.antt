-- ===== src/Names.antt =====
-- pkg/a10/identifiers.go and the name validation of pkg/a10/certificates.go
pub mod Laws
pub mod Managed
use a10_certctl.Base.{ℕ, ◌<◌, ◌^◌, Bool, true, false, ◌||◌, eqb, ltb, any, is_nil, if◌then◌else◌}
use a10_certctl.Text.{Text, ◌==◌, codes, len, trim_space, is_control}
use a10_certctl.Errors.{Error, failed, Result, ok, err, wrap, refuse_if, ◌>>=◌, ◌>>◌}

-- `strings.ContainsAny(name, "/\\")`
unfoldable pub is_separator : ℕ → Bool
is_separator c = eqb c b'/' || eqb c 0x5c

-- `strings.ContainsAny(name, "?#")`
unfoldable pub is_delimiter : ℕ → Bool
is_delimiter c = eqb c b'?' || eqb c b'#'

unfoldable pub validate_object_name : Text → Result (Unit {0})
unfolding is_separator is_delimiter
validate_object_name name = do
  refuse_if (is_nil (trim_space name)) (failed "name is empty")
  refuse_if (any is_control name) (failed "name contains a control character")
  refuse_if (any is_separator name) (failed "name must not contain a path separator")
  refuse_if (name == codes "." || name == codes "..")
      (failed "name must not be a relative path segment")
  refuse_if (any is_delimiter name)
      (failed "name must not contain URL query or fragment delimiters")

unfoldable pub validate_template_name : Text → Result (Unit {0})
unfolding validate_object_name
validate_template_name name = do
  validate_object_name name
  refuse_if (ltb 127 (len name)) (failed "name exceeds 127 characters")

unfoldable pub validate_file_name : Text → Result (Unit {0})
unfolding validate_object_name
validate_file_name name = do
  validate_object_name name
  refuse_if (ltb 245 (len name)) (failed "A10 file name exceeds 245 characters")
  refuse_if (any is_separator name) (failed "A10 file name must not contain a path separator")

unfoldable pub parse_partition_name : Text → Result Text
unfolding validate_object_name
parse_partition_name value = do validate_object_name value; ok value

-- `uint64(^PartitionID(0))`, the greatest 32-bit value
abbrev pub max_partition_id : ℕ
max_partition_id = 0xffff_ffff

unfoldable pub parse_partition_id : ℕ → Result ℕ
parse_partition_id value =
    if eqb value 0 || ltb max_partition_id value
    then err (failed "A10 partition ID is outside the supported range")
    else ok value

unfoldable pub parse_client_ssl_template_name : Text → Result Text
unfolding validate_template_name
parse_client_ssl_template_name value = do validate_template_name value; ok value

unfoldable pub parse_server_ssl_template_name : Text → Result Text
unfolding validate_template_name
parse_server_ssl_template_name value = do validate_template_name value; ok value

unfoldable pub parse_virtual_server_name : Text → Result Text
unfolding validate_template_name
parse_virtual_server_name value = do validate_template_name value; ok value

unfoldable pub parse_certificate_file_name : Text → Result Text
unfolding validate_file_name
parse_certificate_file_name value = do
  wrap "certificate file name" (validate_file_name value)
  ok value

unfoldable pub parse_key_file_name : Text → Result Text
unfolding validate_file_name
parse_key_file_name value = do wrap "key file name" (validate_file_name value); ok value

unfoldable pub parse_ca_file_name : Text → Result Text
unfolding validate_file_name
parse_ca_file_name value = do wrap "CA file name" (validate_file_name value); ok value
