-- ===== src/Examples/Values.antt =====
-- The operations on names and templates at concrete inputs.
use a10_certctl.Base.{some, ◌≤◌, ◌≡◌, ◌↔◌, ◌⊎◌, refl, true, false, List, [], ◌∷◌, all}
use mathlib.Core.List.{Permᴰ}
use a10_certctl.Text.{
  Text, codes, len, is_space, trim_left, trim_right, trim, trim_space, trim_prefix, has_prefix,
  drop, count,
}
use a10_certctl.Errors.{ok}
use a10_certctl.Json.{arr, str, Fields, end, field}
use a10_certctl.Names.{validate_template_name, validate_file_name}
use a10_certctl.Names.Laws.{IsObjectName, validate_template_name_iff, validate_file_name_iff}
use a10_certctl.Names.Managed.{
  is_letter, is_digit, is_allowed, sanitize_from, is_edge, sanitize_name, limited_name,
  managed_names_for_prefix, managed_names,
}
use a10_certctl.Names.Managed.Valid.{managed_names-valid}
use a10_certctl.Template.{Binding, ClientSslTemplate, decode_client_ssl}
use a10_certctl.Template.Encode.{binding_items, template_fields, template_json}
use a10_certctl.Template.Encode.RoundTrip.{decode_client_ssl-template_json}
use a10_certctl.Template.Revision.{revision}
use a10_certctl.Template.Revision.Order.{SameMembers, SamePayload, revision-Perm}
use a10_certctl.Session.{zero_template}
use a10_certctl.Examples.Appliance.{toy_platform, old_binding}

file_name_example :
    (validate_file_name (codes "web.crt") ≡ ok tt)
    ↔ (IsObjectName (codes "web.crt") × (len (codes "web.crt") ≤ 245))
file_name_example = validate_file_name_iff (codes "web.crt")

template_name_example :
    (validate_template_name (codes "web") ≡ ok tt)
    ↔ (IsObjectName (codes "web") × (len (codes "web") ≤ 127))
template_name_example = validate_template_name_iff (codes "web")

abbrev checksum : Text
checksum = codes "sha256:0123456789abcdef0123456789abcdef0123456789abcdef0123456789abcdef"

abbrev expected_names : Text × Text
expected_names = (
  codes "my-site-0123456789abcdef0123456789abcdef",
  codes "my-site-chain-0123456789abcdef0123456789abcdef",
)

names_of_my_site :
    managed_names (codes "ignored") checksum true (codes " my site/ ") ≡ ok expected_names
unfolding managed_names managed_names_for_prefix sanitize_name sanitize_from limited_name is_allowed
    is_letter is_digit is_edge trim trim_left trim_right trim_space trim_prefix has_prefix drop
    count is_space len
names_of_my_site = refl

digest_is_plain : all is_allowed (trim_prefix checksum (codes "sha256:")) ≡ true
unfolding is_allowed is_letter is_digit trim_prefix has_prefix drop count
digest_is_plain = refl

managed_names_example :
    (validate_file_name expected_names.0 ≡ ok tt)
    × ((true ≡ false) × (expected_names.1 ≡ []) ⊎ (validate_file_name expected_names.1 ≡ ok tt))
managed_names_example =
    managed_names-valid (codes "ignored") checksum true (codes " my site/ ") expected_names
      digest_is_plain names_of_my_site

abbrev other_binding : Binding
other_binding = record old_binding { certificate = codes "new.crt" }

-- A payload as it is read, with the bindings under their name
abbrev payload_with : List Binding → Fields
payload_with bs =
    field (codes "certificate-list") (arr (binding_items bs))
      (field (codes "name") (str (codes "web")) end)

abbrev one_way : ClientSslTemplate
one_way = record zero_template {
  certificates = old_binding ∷ other_binding ∷ [];
  revision_payload = some (payload_with (old_binding ∷ other_binding ∷ []));
}

abbrev other_way : ClientSslTemplate
other_way = record zero_template {
  certificates = other_binding ∷ old_binding ∷ [];
  revision_payload = some (payload_with (other_binding ∷ old_binding ∷ []));
  uuid = codes "1234";
}

revision_example : revision toy_platform one_way ≡ revision toy_platform other_way
revision_example =
    revision-Perm toy_platform one_way other_way refl
      (SamePayload.members (SameMembers.bindings (codes "certificate-list") _ _ _ refl))
      ∣ Permᴰ.swap refl refl ∣₁

abbrev bound_template : ClientSslTemplate
bound_template = record zero_template { name = codes "web"; certificates = other_binding ∷ [] }

template_json_example :
    decode_client_ssl (template_json bound_template)
    ≡ ok (record bound_template { revision_payload = some (template_fields bound_template) })
template_json_example = decode_client_ssl-template_json bound_template
