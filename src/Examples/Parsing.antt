-- ===== src/Examples/Parsing.antt =====
-- The parsers on the toy platform.
use a10_certctl.Base.{◌<◌, ◌≡◌, ◌≢◌, [], ◌∷◌, some, arith}
use a10_certctl.Text.{Text, codes, count, len}
use a10_certctl.Errors.{err, ok}
use a10_certctl.Platform.{PemBlock}
use a10_certctl.Bundle.Parse.{split_certificates}
use a10_certctl.Bundle.Parse.Terminates.{IsConsuming, out_of_fuel, split_certificates_ends}
use a10_certctl.Template.Revision.{is_hex_digit, revision, parse_template_revision}
use a10_certctl.Template.Revision.Parsed.{IsDigest, parse_template_revision-revision}
use a10_certctl.Session.{zero_template}
use a10_certctl.Examples.Appliance.{toy_platform}

toy-shorter :
    (s : Text) (block : PemBlock) (rest : Text)
    → toy_platform.pem_decode s ≡ some (block, rest)
    → count rest < count s
unfolding count
toy-shorter [] block rest e = cc
toy-shorter (c ∷ s) block rest e = ground arith

toy-IsConsuming : IsConsuming toy_platform
toy-IsConsuming = record { shorter = toy-shorter }

split_example : split_certificates toy_platform (codes "CCx") ≢ err out_of_fuel
split_example = split_certificates_ends toy_platform toy-IsConsuming (codes "CCx")

toy-IsDigest : (t : Text) → IsDigest (toy_platform.sha256 t)
unfolding len is_hex_digit
toy-IsDigest t = record { length_eq = ground arith; hex = ground arith }

parse_revision_example :
    parse_template_revision (revision toy_platform zero_template)
    ≡ ok (revision toy_platform zero_template)
parse_revision_example = parse_template_revision-revision toy_platform zero_template toy-IsDigest
