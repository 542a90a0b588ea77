-- ===== src/Platform.antt =====
-- What the package takes from crypto/sha256, encoding/pem, crypto/x509 and github.com/youmark/pkcs8:
-- the facts of a parsed certificate or key that the package reads, and the functions that it
-- calls. None of these is modelled; a theorem that relies on one names the hypothesis.
use a10_certctl.Base.{ℕ, Bool, Option}
use a10_certctl.Text.{Text}

-- `*x509.Certificate`: the fields that the package reads
pub record X509 : Type 0 where
  pub raw : Text
  pub is_ca : Bool
  -- seconds of `NotBefore` and `NotAfter`
  pub not_before : ℕ
  pub not_after : ℕ
  pub common_name : Text
  -- `SerialNumber.Text(16)`
  pub serial_hex : Text
  -- `x509.MarshalPKIXPublicKey` of the public key; `none` where it fails
  pub public_key : Option Text
  -- bits of an RSA modulus or an elliptic curve; 0 for another key
  pub key_size : ℕ

-- A `crypto.PrivateKey`
pub record PrivateKey : Type 0 where
  -- whether it is a `crypto.Signer`
  pub is_signer : Bool
  -- `x509.MarshalPKCS8PrivateKey`; `none` where it fails
  pub canonical : Option Text
  -- `x509.MarshalPKIXPublicKey` of `Public()`
  pub public_key : Option Text

-- `*pem.Block`
pub record PemBlock : Type 0 where
  pub block_type : Text
  pub proc_type : Text
  pub dek_info : Text
  pub bytes : Text

pub record Platform : Type 0 where
  -- the hexadecimal digits of `sha256.Sum256`
  pub sha256 : Text → Text
  -- `pem.Decode`: a block and the rest
  pub pem_decode : Text → Option (PemBlock × Text)
  -- `pem.EncodeToMemory` of a CERTIFICATE block
  pub pem_encode : Text → Text
  pub parse_certificate : Text → Option X509
  pub parse_pkcs8 : Text → Option PrivateKey
  pub parse_pkcs1 : Text → Option PrivateKey
  pub parse_ec : Text → Option PrivateKey
  -- `pkcs8.ParsePKCS8PrivateKey`, with a passphrase
  pub decrypt_pkcs8 : Text → Text → Option PrivateKey
  -- `child.CheckSignatureFrom(issuer)` returns nil
  pub check_signature_from : X509 → X509 → Bool
