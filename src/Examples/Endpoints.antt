-- ===== src/Examples/Endpoints.antt =====
-- The endpoints of requests with accepted names.
use a10_certctl.Base.{◌≡◌, refl, [], ◌++◌}
use a10_certctl.Text.{
  ◌==◌, codes, len, trim_space, trim, trim_left, trim_right, is_space, is_control, trim_suffix,
}
use a10_certctl.Errors.{ok}
use a10_certctl.Names.{
  is_separator, is_delimiter, validate_object_name, validate_template_name, validate_file_name,
}
use a10_certctl.Axapi.{delete_binding}
use a10_certctl.Axapi.Wire.{path_of, endpoint}
use a10_certctl.Axapi.Wire.Names.{endpoint-path_of, delete_binding-path_of_inj}

names_are_accepted :
    (validate_template_name (codes "web") ≡ ok tt) × (validate_file_name (codes "old.crt") ≡ ok tt)
unfolding validate_template_name validate_file_name validate_object_name is_separator is_delimiter
    ◌==◌ len trim_space trim trim_left trim_right is_space is_control
names_are_accepted = (refl, refl)

endpoint_example :
    endpoint (codes "/axapi/v3") (path_of (delete_binding (codes "web") (codes "old.crt"))) ≡ (
      trim_suffix (codes "/axapi/v3") (codes "/")
          ++ path_of (delete_binding (codes "web") (codes "old.crt")),
      [],
    )
endpoint_example =
    endpoint-path_of (codes "/axapi/v3") (delete_binding (codes "web") (codes "old.crt"))
      names_are_accepted

same_endpoint_example : (codes "web" ≡ codes "web") × (codes "old.crt" ≡ codes "old.crt")
same_endpoint_example =
    delete_binding-path_of_inj (codes "web") (codes "web") (codes "old.crt") (codes "old.crt")
      names_are_accepted.0 names_are_accepted.0 refl
