-- ===== src/Bundle/Parse.antt =====
-- The parsers of pkg/a10/certificate.go.
pub mod Terminates
use a10_certctl.Base.{
  ℕ, zero, suc, ◌-◌, Bool, not, ◌||◌, List, [], ◌∷◌, ◌++◌, Option, none, some, is_nil,
  if◌then◌else◌,
}
use a10_certctl.Text.{Text, ◌==◌, codes, count, trim_space, has_prefix, between}
use a10_certctl.Errors.{failed, Result, ok, err, refuse_if, wrap, ◌>>=◌, ◌>>◌}
use a10_certctl.Platform.{X509, PrivateKey, PemBlock, Platform}
use a10_certctl.Bundle.{Certificate, Key, CertificateBundle, new_checksum, new_certificate_bundle}

-- `strings.ToUpper` of hexadecimal digits
unfoldable pub to_upper : Text → Text
to_upper [] = []
to_upper (c ∷ s) = (if between b'a' b'z' c then c - 32 else c) ∷ to_upper s

-- `strings.Contains`
unfoldable pub has_infix : Text → Text → Bool
unfolding has_prefix
has_infix [] part = is_nil part
has_infix (c ∷ s) part = has_prefix (c ∷ s) part || has_infix s part

module _ (p : Platform) where
  unfoldable pub certificate_from_parsed : X509 → Certificate
  unfolding new_checksum to_upper
  certificate_from_parsed x = record {
    checksum = new_checksum p x.raw;
    serial = to_upper x.serial_hex;
    pem = p.pem_encode x.raw;
    parsed = some x;
  }

  -- the loop of `splitCertificates`; the fuel bounds the rounds
  unfoldable pub split_from : ℕ → Text → Result (List Certificate)
  unfolding certificate_from_parsed
  split_from zero rest = err (failed "out of fuel")
  split_from (suc fuel) [] = ok []
  split_from (suc fuel) (c ∷ s) = elim (p.pem_decode (c ∷ s)) [
    | none ↦ err (failed "certificate data must contain only PEM CERTIFICATE blocks")
    | some (block, next) ↦
        if block.block_type == codes "CERTIFICATE"
        then (elim (p.parse_certificate block.bytes) [
          | none ↦ err (failed "parse X.509 certificate")
          | some x ↦ do
            certificates ← split_from fuel (trim_space next)
            ok (certificate_from_parsed x ∷ certificates)
        ])
        else err (failed "certificate data must contain only PEM CERTIFICATE blocks")
  ]

  -- `splitCertificates`; each round takes at least one code point away
  unfoldable pub split_certificates : Text → Result (List Certificate)
  unfolding split_from
  split_certificates bytes = do
    let rest = trim_space bytes
    refuse_if (is_nil rest) (failed "certificate PEM is empty")
    split_from (suc (count rest)) rest

  -- `ParseCertificate`
  unfoldable pub parse_certificate : Text → Result Certificate
  unfolding split_certificates
  parse_certificate bytes = do
    blocks ← split_certificates bytes
    elim blocks [
      | [] ↦ err (failed "certificate must contain exactly one PEM CERTIFICATE block")
      | c ∷ more ↦
          if is_nil more
          then ok c
          else err (failed "certificate must contain exactly one PEM CERTIFICATE block")
    ]

  or_else : Option PrivateKey → Result PrivateKey → Result PrivateKey
  or_else none r = r
  or_else (some k) r = ok k

  -- `parsePrivateKeyBlock`
  unfoldable pub parse_private_key_block : PemBlock → Text → Result PrivateKey
  unfolding or_else
  parse_private_key_block block passphrase = do
    refuse_if (not (is_nil block.proc_type) || not (is_nil block.dek_info))
        (failed "legacy RFC 1423 PEM encryption is unsupported")
    if block.block_type == codes "ENCRYPTED PRIVATE KEY"
        then (do
          refuse_if (is_nil passphrase)
              (failed "private key is encrypted but no passphrase was supplied")
          or_else (p.decrypt_pkcs8 block.bytes passphrase)
              (err (failed "decrypt PKCS#8 private key")))
        else or_else (p.parse_pkcs8 block.bytes) (
            or_else (p.parse_pkcs1 block.bytes) (
              or_else (p.parse_ec block.bytes)
                (err (failed "private key is not valid PKCS#1, SEC1, or PKCS#8 data"))))

  -- `ParseEncryptedKey`; a passphrase that is not valid UTF-8 is no text
  unfoldable pub parse_encrypted_key : Text → Text → Result Key
  unfolding parse_private_key_block has_infix
  parse_encrypted_key bytes passphrase =
      let trimmed = trim_space bytes in
      elim (p.pem_decode trimmed) [
        | none ↦ err (failed "private key must contain one PEM PRIVATE KEY block")
        | some (block, rest) ↦ do
          refuse_if (not (has_infix block.block_type (codes "PRIVATE KEY")))
              (failed "private key must contain one PEM PRIVATE KEY block")
          refuse_if (not (is_nil (trim_space rest)))
              (failed "private key must contain exactly one PEM PRIVATE KEY block")
          priv ← parse_private_key_block block passphrase
          refuse_if (not priv.is_signer) (failed "unsupported private key type")
          elim priv.canonical [
            | none ↦ err (failed "canonicalize private key")
            | some der ↦ ok (record {
              checksum = new_checksum p der;
              pem = trimmed ++ 10 ∷ [];
              passphrase = passphrase;
              private_key = some priv;
            })
          ]
      ]

  unfoldable pub split_all : List Text → Result (List Certificate)
  unfolding split_certificates
  split_all [] = ok []
  split_all (bytes ∷ inputs) = do
    items ← wrap "parse chain input" (split_certificates bytes)
    more ← split_all inputs
    ok (items ++ more)

  -- `ParseCertificateBundle`
  unfoldable pub parse_certificate_bundle :
      Text → Text → Text → List Text → Result CertificateBundle
  unfolding split_all parse_encrypted_key
  parse_certificate_bundle certificate_pem private_key_pem passphrase chain_pem = do
    file ← split_certificates certificate_pem
    elim file [
      | [] ↦ err (failed "index out of range")
      | leaf ∷ chain ↦ do
        more ← split_all chain_pem
        key ← parse_encrypted_key private_key_pem passphrase
        new_certificate_bundle p leaf key (chain ++ more)
    ]
