-- ===== src/Examples/Appliance.antt =====
-- A simulated appliance with one client-SSL template, `web`: what it stores is read off the
-- requests that it has been sent.
use a10_certctl.Base.{
  ℕ, ◌+◌, ◌%◌, Bool, true, false, List, [], ◌∷◌, ◌++◌, map, Option, none, some, eqb, if◌then◌else◌,
}
use a10_certctl.Text.{Text, ◌==◌, codes}
use a10_certctl.Json.{Json, Items, Fields}
use a10_certctl.Platform.{X509, PrivateKey, PemBlock, Platform}
use a10_certctl.Bundle.{CertificateBundle}
use a10_certctl.Template.{Binding}
use a10_certctl.Axapi.{
  FileKind, ssl_cert, ssl_key, ca_cert, Body, Reply, answered, Request, post_file, post_binding,
  delete_binding, get_version, get_certificates, get_files, get_client_templates,
  get_client_template, World,
}
use a10_certctl.Bundle.{bundle_checksum}
use a10_certctl.Sync.{Target, SyncOptions}

abbrev pub obj1 : Text → Json → Json
obj1 k v = Json.obj (Fields.field k v Fields.end)

abbrev pub items : List Json → Items
items [] = Items.nil
items (x ∷ xs) = Items.cons x (items xs)

abbrev total : Text → ℕ
total [] = 0
total (c ∷ s) = c + total s

abbrev digits_63 : Text
digits_63 = codes "123456789abcdef0123456789abcdef0123456789abcdef0123456789abcdef"

-- A toy in place of SHA-256, with 64 digits.
abbrev toy_sha256 : Text → Text
toy_sha256 t = (97 + total t % 6) ∷ digits_63

abbrev pub leaf : X509
leaf = record {
  raw = 1 ∷ [];
  is_ca = false;
  not_before = 100;
  not_after = 900;
  common_name = codes "web.example";
  serial_hex = codes "2a";
  public_key = some (7 ∷ []);
  key_size = 2048;
}

abbrev pub private_key : PrivateKey
private_key = record { is_signer = true; canonical = some (8 ∷ []); public_key = some (7 ∷ []) }

-- `C` is the PEM text of the leaf and `K` that of its key.
abbrev toy_decode : Text → Option (PemBlock × Text)
toy_decode [] = none
toy_decode (c ∷ rest) =
    if eqb c b'C'
    then some (
      record { block_type = codes "CERTIFICATE"; proc_type = []; dek_info = []; bytes = 1 ∷ [] },
      rest,
    )
    else if eqb c b'K'
    then some (
      record { block_type = codes "PRIVATE KEY"; proc_type = []; dek_info = []; bytes = 8 ∷ [] },
      rest,
    )
    else none

abbrev pub toy_platform : Platform
toy_platform = record {
  sha256 = toy_sha256;
  pem_decode = toy_decode;
  pem_encode = λ der. codes "C";
  parse_certificate = λ der. some leaf;
  parse_pkcs8 = λ der. some private_key;
  parse_pkcs1 = λ der. none;
  parse_ec = λ der. none;
  decrypt_pkcs8 = λ der p. none;
  check_signature_from = λ child issuer. false;
}

abbrev sum_of : Text → Text
sum_of t = codes "sha256:" ++ toy_sha256 t

abbrev pub bundle : CertificateBundle
bundle = record {
  certificate = record {
    checksum = sum_of (1 ∷ []);
    serial = codes "2A";
    pem = codes "C";
    parsed = some leaf;
  };
  key = record {
    checksum = sum_of (8 ∷ []);
    pem = codes "K";
    passphrase = [];
    private_key = some private_key;
  };
  chain = [];
  checksum =
      bundle_checksum toy_platform
        (record {
          checksum = sum_of (1 ∷ []);
          serial = codes "2A";
          pem = codes "C";
          parsed = some leaf;
        })
        (record {
          checksum = sum_of (8 ∷ []);
          pem = codes "K";
          passphrase = [];
          private_key = some private_key;
        })
        [];
}

abbrev pub old_binding : Binding
old_binding = record {
  certificate = codes "old.crt";
  key = codes "old.key";
  chain = [];
  shared = false;
  uuid = [];
  a10_url = [];
}

abbrev stored : FileKind → List Request → List Text
stored kind [] = elim kind [
  | ssl_cert ↦ codes "old.crt" ∷ []
  | ssl_key ↦ codes "old.key" ∷ []
  | ca_cert ↦ []
]
stored ssl_cert (post_file ssl_cert doc pem ∷ sent) = doc.file ∷ stored ssl_cert sent
stored ssl_key (post_file ssl_key doc pem ∷ sent) = doc.file ∷ stored ssl_key sent
stored kind (r ∷ sent) = stored kind sent

abbrev without : Text → List (Text × Text) → List (Text × Text)
without name [] = []
without name (b ∷ bs) = if b.0 == name then without name bs else b ∷ without name bs

abbrev bound_pairs : List Request → List (Text × Text)
bound_pairs [] = (codes "old.crt", codes "old.key") ∷ []
bound_pairs (post_binding t doc ∷ sent) =
    without doc.certificate (bound_pairs sent) ++ (doc.certificate, doc.key) ∷ []
bound_pairs (delete_binding t name ∷ sent) = without name (bound_pairs sent)
bound_pairs (r ∷ sent) = bound_pairs sent

abbrev binding_json : Text × Text → Json
binding_json b = Json.obj (
    Fields.field (codes "cert") (Json.str b.0)
      (Fields.field (codes "key") (Json.str b.1) Fields.end))

abbrev template_json : List Request → Json
template_json sent = Json.obj (
    Fields.field (codes "name") (Json.str (codes "web")) (
      Fields.field (codes "certificate-list")
        (Json.arr (items (map binding_json (bound_pairs sent)))) Fields.end))

abbrev file_json : Text → Json
file_json name = obj1 (codes "file") (Json.str name)

abbrev file_member : FileKind → Text
file_member ssl_cert = codes "ssl-cert"
file_member ssl_key = codes "ssl-key"
file_member ca_cert = codes "ca-cert"

abbrev info_json : Text → Json
info_json name = Json.obj (
    Fields.field (codes "name") (Json.str name) (
      Fields.field (codes "serial") (Json.str (codes "2a"))
        (Fields.field (codes "common-name") (Json.str (codes "web.example")) Fields.end)))

abbrev toy_respond : List Request → Request → Reply
toy_respond sent get_version = answered 200 (
    Body.value (
      obj1 (codes "version")
        (obj1 (codes "oper") (obj1 (codes "sw-version") (Json.str (codes "6.0.2-P1"))))))
toy_respond sent get_certificates = answered 200 (
    Body.value (
      obj1 (codes "ssl-cert") (
        obj1 (codes "oper")
          (obj1 (codes "ssl-certs") (Json.arr (items (map info_json (stored ssl_cert sent))))))))
toy_respond sent (get_files kind) = answered 200 (
    Body.value (
      obj1 (file_member kind) (
        obj1 (codes "oper")
          (obj1 (codes "file-list") (Json.arr (items (map file_json (stored kind sent))))))))
toy_respond sent (get_client_template name) =
    answered 200 (Body.value (obj1 (codes "client-ssl") (template_json sent)))
toy_respond sent get_client_templates =
    answered 200
      (Body.value (obj1 (codes "client-ssl-list") (Json.arr (items (template_json sent ∷ [])))))
toy_respond sent r = answered 200 Body.empty

abbrev pub world_after : List Request → World
world_after sent = record {
  environment = record { respond = toy_respond; clock = λ sent. 500; platform = toy_platform };
  sent = sent;
  closed = false;
  partition = [];
}

-- The same appliance, with every request of one kind refused.
abbrev pub world_refusing : (Request → Bool) → World
world_refusing refused = record {
  environment = record {
    respond = λ sent r. if refused r then answered 500 Body.empty else toy_respond sent r;
    clock = λ sent. 500;
    platform = toy_platform;
  };
  sent = [];
  closed = false;
  partition = [];
}

abbrev pub target : Target
target = record { client_ssl_template = codes "web"; current_certificate = [] }

abbrev pub options : SyncOptions
options = record {
  name_prefix = [];
  expected_revision = [];
  exportable_key = false;
  cleanup_old = true;
  no_write_memory = false;
  shared = false;
}
