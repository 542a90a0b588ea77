-- ===== src/Template/Revision/Parsed.antt =====
-- `ParseTemplateRevision` accepts what `Revision` returns: pkg/a10/state.go
use a10_certctl.Base.{ℕ, ◌≡◌, refl, Bool, true, false, not, [], ◌∷◌, ◌++◌, all, arith, &&-eq-true}
use a10_certctl.Text.{
  Text, codes, len, is_space, trim_left, trim_right, trim, trim_space, has_prefix, trim_prefix,
  drop, count,
}
use a10_certctl.Errors.{ok}
use a10_certctl.Platform.{Platform}
use a10_certctl.Template.{ClientSslTemplate}
use a10_certctl.Template.Revision.{is_hex_digit, parse_template_revision, revision}

-- The digits of a SHA-256 sum
pub record IsDigest (digits : Text) : Type 0 where
  pub length_eq : len digits ≡ 64
  pub hex : all is_hex_digit digits ≡ true

hex_is_no_space : (c : ℕ) → is_hex_digit c ≡ true → is_space c ≡ false
unfolding is_hex_digit is_space
hex_is_no_space c h = ground arith

-- A text without a space
abbrev is_solid : ℕ → Bool
is_solid c = not (is_space c)

hex_is_solid : (s : Text) → all is_hex_digit s ≡ true → all is_solid s ≡ true
hex_is_solid [] h = refl
hex_is_solid (c ∷ s) h =
    let (first, rest) = &&-eq-true _ _ h in rw (hex_is_no_space c first) (hex_is_solid s rest)

trim_right_solid : (s : Text) → all is_solid s ≡ true → trim_right is_space s ≡ s
unfolding trim_right
trim_right_solid [] h = refl
trim_right_solid (c ∷ s) h = ground (arith, trim_right_solid s)

trim_left_solid : (s : Text) → all is_solid s ≡ true → trim_left is_space s ≡ s
unfolding trim_left
trim_left_solid [] h = refl
trim_left_solid (c ∷ s) h = ground arith

trim_space_solid : (s : Text) → all is_solid s ≡ true → trim_space s ≡ s
unfolding trim_space trim
trim_space_solid s h = rw (trim_left_solid s h) (trim_right_solid s h)

prefix_is_solid : (s : Text) → all is_solid s ≡ true → all is_solid (codes "sha256:" ++ s) ≡ true
unfolding is_space
prefix_is_solid s h = h

checked :
    (digits : Text)
    → IsDigest digits
    → parse_template_revision (codes "sha256:" ++ digits) ≡ ok (codes "sha256:" ++ digits)
unfolding parse_template_revision has_prefix trim_prefix drop count
checked digits d =
    rw
      (trim_space_solid (codes "sha256:" ++ digits)
        (prefix_is_solid digits (hex_is_solid digits d.hex)))
      (rw (d.length_eq, d.hex) refl)

-- Where the platform's SHA-256 gives 64 hexadecimal digits, the revision of every template is
-- accepted as an expected revision, unchanged.
pub parse_template_revision-revision :
    (p : Platform) (template : ClientSslTemplate)
    → ((t : Text) → IsDigest (p.sha256 t))
    → parse_template_revision (revision p template) ≡ ok (revision p template)
unfolding revision
parse_template_revision-revision p template digest = checked _ (digest _)
