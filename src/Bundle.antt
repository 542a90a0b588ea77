-- ===== src/Bundle.antt =====
-- pkg/a10/certificate.go: certificates, keys and bundles. Byte slices are texts of ASCII.
pub mod Parse
pub mod Laws
pub mod Current
pub mod Checksum
use a10_certctl.Base.{
  ℕ, zero, suc, ◌+◌, ◌/◌, ◌%◌, ◌^◌, ◌-◌, Bool, true, false, not, ◌&&◌, ◌||◌, List, [], ◌∷◌, ◌++◌,
  map, Option, none, some, is_nil, ltb, if◌then◌else◌, length,
}
use a10_certctl.Text.{Text, ◌==◌, codes, len, between}
use a10_certctl.Errors.{failed, Result, ok, err, refuse_if, wrap, is_ok, ◌>>=◌, ◌>>◌}
use a10_certctl.Platform.{X509, PrivateKey, Platform}

-- `Certificate`, less the fields that are only shown
pub record Certificate : Type 0 where
  pub checksum : Text
  pub serial : Text
  pub pem : Text
  pub parsed : Option X509

-- `Key`
pub record Key : Type 0 where
  pub checksum : Text
  pub pem : Text
  pub passphrase : Text
  pub private_key : Option PrivateKey

-- `CertificateBundle`
pub record CertificateBundle : Type 0 where
  pub certificate : Certificate
  pub key : Key
  pub chain : List Certificate
  pub checksum : Text

-- eight bytes, the most significant first: `binary.BigEndian.PutUint64`
unfoldable pub big_endian : ℕ → ℕ → Text
big_endian zero n = []
big_endian (suc k) n = (n / 256 ^ k % 256) ∷ big_endian k n

-- `writePart` of `bundleChecksum`
unfoldable pub part : Text → Text
unfolding big_endian
part bytes = big_endian 8 (len bytes) ++ bytes

unfoldable pub parts : List Text → Text
unfolding part
parts [] = []
parts (t ∷ ts) = part t ++ parts ts

-- the comparison of `certificateMatchesKey`
unfoldable pub public_keys_match : Option Text → Option Text → Result (Unit {0})
public_keys_match none k = err (failed "marshal certificate public key")
public_keys_match (some c) none = err (failed "marshal private-key public key")
public_keys_match (some c) (some k) =
    refuse_if (not (c == k)) (failed "certificate and private key do not match")

module _ (p : Platform) where
  unfoldable pub new_checksum : Text → Text
  new_checksum bytes = codes "sha256:" ++ p.sha256 bytes

  -- `Certificate.valid`
  unfoldable pub certificate_valid : Certificate → Bool
  unfolding new_checksum
  certificate_valid c = elim c.parsed [
    | none ↦ false
    | some x ↦ not (is_nil c.pem) && c.checksum == new_checksum x.raw
  ]

  -- `Certificate.ValidAt`
  unfoldable pub valid_at : Certificate → ℕ → Result (Unit {0})
  unfolding certificate_valid
  valid_at c at =
      if certificate_valid c
      then (elim c.parsed [
        | none ↦ err (failed "certificate was not created by ParseCertificate")
        | some x ↦ do
          refuse_if (ltb at x.not_before) (failed "certificate is not valid before")
          refuse_if (ltb x.not_after at) (failed "certificate expired")
      ])
      else err (failed "certificate was not created by ParseCertificate")

  -- `Key.valid`
  unfoldable pub key_valid : Key → Bool
  unfolding new_checksum
  key_valid k = elim k.private_key [
    | none ↦ false
    | some priv ↦
        not (is_nil k.pem)
        && (elim priv.canonical [ none ↦ false | some der ↦ k.checksum == new_checksum der ])
  ]

  -- `certificateMatchesKey`
  unfoldable pub certificate_matches_key : Certificate → Key → Result (Unit {0})
  unfolding public_keys_match
  certificate_matches_key c k = elim k.private_key [
    | none ↦ err (failed "unsupported private key type")
    | some priv ↦
        if priv.is_signer
        then (elim c.parsed [
          | none ↦ err (failed "no parsed certificate")
          | some x ↦ public_keys_match x.public_key priv.public_key
        ])
        else err (failed "unsupported private key type")
  ]

  -- the loop of `validateCertificateChain`
  unfoldable pub chain_from : X509 → List Certificate → Result (Unit {0})
  unfolding certificate_valid
  chain_from child [] = ok tt
  chain_from child (issuer ∷ chain) = do
    refuse_if (not (certificate_valid issuer))
        (failed "chain certificate was not created by ParseCertificate")
    elim issuer.parsed [
      | none ↦ err (failed "chain certificate was not created by ParseCertificate")
      | some x ↦ do
        refuse_if (not x.is_ca) (failed "chain certificate is not a CA certificate")
        refuse_if (not (p.check_signature_from child x))
            (failed "chain certificate does not sign the preceding certificate")
        chain_from x chain
    ]

  unfoldable pub validate_certificate_chain : Certificate → List Certificate → Result (Unit {0})
  unfolding chain_from
  validate_certificate_chain leaf chain = elim leaf.parsed [
    | none ↦ err (failed "certificate was not created by ParseCertificate")
    | some x ↦ chain_from x chain
  ]

  unfoldable pub bundle_checksum : Certificate → Key → List Certificate → Text
  unfolding parts
  bundle_checksum c k chain =
      codes "sha256:" ++ p.sha256 (parts (c.checksum ∷ k.checksum ∷ map (λ i. i.checksum) chain))

  -- `NewCertificateBundle`
  unfoldable pub new_certificate_bundle :
      Certificate → Key → List Certificate → Result CertificateBundle
  unfolding key_valid certificate_matches_key validate_certificate_chain bundle_checksum
  new_certificate_bundle c k chain = do
    refuse_if (not (certificate_valid c)) (failed "certificate was not created by ParseCertificate")
    refuse_if (not (key_valid k)) (failed "key was not created by ParseKey or ParseEncryptedKey")
    certificate_matches_key c k
    validate_certificate_chain c chain
    ok (record { certificate = c; key = k; chain = chain; checksum = bundle_checksum c k chain })

  -- `CertificateBundle.validate`
  unfoldable pub validate : CertificateBundle → Result (Unit {0})
  unfolding new_certificate_bundle
  validate b = do
    new_certificate_bundle b.certificate b.key b.chain
    refuse_if (not (b.checksum == bundle_checksum b.certificate b.key b.chain))
        (failed "certificate bundle checksum is invalid")

  unfoldable pub all_valid_at : List Certificate → ℕ → Result (Unit {0})
  unfolding valid_at
  all_valid_at [] at = ok tt
  all_valid_at (c ∷ chain) at = do wrap "chain certificate" (valid_at c at); all_valid_at chain at

  -- `validateForSync`
  unfoldable pub validate_for_sync : CertificateBundle → ℕ → Result (Unit {0})
  unfolding validate all_valid_at
  validate_for_sync b at = do
    validate b
    wrap "leaf certificate" (valid_at b.certificate at)
    all_valid_at b.chain at

-- `chainPEM`
unfoldable pub chain_pem : List Certificate → Text
chain_pem [] = []
chain_pem (c ∷ chain) = c.pem ++ chain_pem chain
