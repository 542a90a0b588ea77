-- ===== src/Examples/Bundles.antt =====
-- A bundle and a JSON value at concrete inputs.
use a10_certctl.Base.{◌≡◌, ◌↔◌, refl, true, []}
use a10_certctl.Text.{codes}
use a10_certctl.Errors.{ok}
use a10_certctl.Json.{Json, Fields, remove_generated}
use a10_certctl.Json.Generated.{is_clean, remove_generated_iff}
use a10_certctl.Bundle.{bundle_checksum, new_certificate_bundle, validate, validate_for_sync}
use a10_certctl.Bundle.Laws.{IsConsistent, new_certificate_bundle_iff}
use a10_certctl.Bundle.Checksum.{checksums, bundle_checksum_inj}
use a10_certctl.Examples.Appliance.{toy_platform, bundle}

assembled_bundle : new_certificate_bundle toy_platform bundle.certificate bundle.key [] ≡ ok bundle
unfolding a10_certctl.Text.◌==◌ a10_certctl.Text.len a10_certctl.Text.is_space
    a10_certctl.Text.is_control a10_certctl.Text.trim_left a10_certctl.Text.trim_right
    a10_certctl.Text.trim a10_certctl.Text.trim_space a10_certctl.Text.has_prefix
    a10_certctl.Text.drop a10_certctl.Text.count a10_certctl.Text.trim_prefix
    a10_certctl.Text.decimal_from a10_certctl.Text.decimal_value a10_certctl.Bundle.big_endian
    a10_certctl.Bundle.part a10_certctl.Bundle.parts a10_certctl.Bundle.public_keys_match
    a10_certctl.Bundle.new_checksum a10_certctl.Bundle.certificate_valid a10_certctl.Bundle.valid_at
    a10_certctl.Bundle.key_valid a10_certctl.Bundle.certificate_matches_key
    a10_certctl.Bundle.chain_from a10_certctl.Bundle.validate_certificate_chain
    a10_certctl.Bundle.bundle_checksum a10_certctl.Bundle.new_certificate_bundle
    a10_certctl.Bundle.validate a10_certctl.Bundle.all_valid_at a10_certctl.Bundle.validate_for_sync
    a10_certctl.Bundle.chain_pem a10_certctl.Bundle.Parse.to_upper
    a10_certctl.Bundle.Parse.has_infix a10_certctl.Bundle.Parse.certificate_from_parsed
    a10_certctl.Bundle.Parse.split_from a10_certctl.Bundle.Parse.split_certificates
    a10_certctl.Bundle.Parse.parse_certificate a10_certctl.Bundle.Parse.parse_private_key_block
    a10_certctl.Bundle.Parse.parse_encrypted_key a10_certctl.Bundle.Parse.split_all
    a10_certctl.Bundle.Parse.parse_certificate_bundle
assembled_bundle = refl

new_bundle_example :
    (new_certificate_bundle toy_platform bundle.certificate bundle.key [] ≡ ok bundle) ↔ (
      (bundle ≡ record {
        certificate = bundle.certificate;
        key = bundle.key;
        chain = [];
        checksum = bundle_checksum toy_platform bundle.certificate bundle.key [];
      })
      × IsConsistent toy_platform bundle.certificate bundle.key [])
new_bundle_example = new_certificate_bundle_iff toy_platform bundle.certificate bundle.key [] bundle

bundle-IsConsistent : IsConsistent toy_platform bundle.certificate bundle.key []
bundle-IsConsistent =
    ((new_certificate_bundle_iff toy_platform bundle.certificate bundle.key [] bundle).0
      assembled_bundle).1

same_checksum_example :
    checksums bundle.certificate bundle.key [] ≡ checksums bundle.certificate bundle.key []
same_checksum_example =
    bundle_checksum_inj toy_platform (λ t. refl) bundle.certificate bundle.certificate bundle.key
      bundle.key [] [] bundle-IsConsistent bundle-IsConsistent (λ e. refl) refl

abbrev with_uuid : Json
with_uuid = Json.obj (
    Fields.field (codes "uuid") (Json.str (codes "1234"))
      (Fields.field (codes "name") (Json.str (codes "web")) Fields.end))

remove_generated_example :
    (is_clean (remove_generated with_uuid) ≡ true)
    × ((is_clean with_uuid ≡ true) ↔ (remove_generated with_uuid ≡ with_uuid))
remove_generated_example = remove_generated_iff with_uuid
