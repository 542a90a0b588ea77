-- ===== src/Cli/Domain.antt =====
-- `domainMatches` of cmd/a10-certctl/main.go, and the search for the certificates of a domain.
pub mod Wildcard
use a10_certctl.Base.{ℕ, Bool, true, false, not, ◌&&◌, ◌||◌, List, [], ◌∷◌, eqb, if◌then◌else◌}
use a10_certctl.Text.{
  Text, ◌==◌, codes, trim_space, has_prefix, trim_prefix, has_suffix, trim_suffix, count_of,
}
use a10_certctl.Session.{CertificateInfo}

-- The comparison of two texts in their normal form, where the first is an IP address or is not.
unfoldable pub matches : Bool → Text → Text → Bool
unfolding has_prefix trim_prefix has_suffix count_of
matches is_ip domain common_name =
    if domain == common_name
    then true
    else if not (has_prefix common_name (codes "*.")) || is_ip
    then false
    else has_suffix domain (trim_prefix common_name (codes "*"))
      && eqb (count_of b'.' domain) (count_of b'.' common_name)

-- `strings.ToLower`, and whether `net.ParseIP` returns an address
module _ (to_lower : Text → Text) (is_ip : Text → Bool) where
  -- `strings.TrimSuffix(strings.ToLower(strings.TrimSpace(name)), ".")`
  unfoldable pub normal_name : Text → Text
  unfolding trim_suffix
  normal_name name = trim_suffix (to_lower (trim_space name)) (codes ".")

  -- `domainMatches`
  unfoldable pub domain_matches : Text → Text → Bool
  unfolding normal_name matches
  domain_matches domain common_name =
      matches (is_ip (normal_name domain)) (normal_name domain) (normal_name common_name)

  -- The loop of `find-domain`.
  unfoldable pub matching_certificates : Text → List CertificateInfo → List CertificateInfo
  unfolding domain_matches
  matching_certificates domain [] = []
  matching_certificates domain (c ∷ certificates) =
      let rest = matching_certificates domain certificates in
      if domain_matches domain c.common_name then c ∷ rest else rest
