-- ===== src/Bundle/Current.antt =====
-- What the check of a bundle before a rotation establishes of the time.
use a10_certctl.Base.{◌≡◌, ◌≤◌, ℕ, some}
use a10_certctl.Platform.{X509, Platform}
use a10_certctl.Bundle.{Certificate}

-- At this time the certificate is in its period of validity, the ends included.
pub record IsCurrent (at : ℕ) (c : Certificate) : Type 0 where
  pub parsed : X509
  pub parsed_eq : c.parsed ≡ some parsed
  pub begun : parsed.not_before ≤ at
  pub not_expired : at ≤ parsed.not_after
