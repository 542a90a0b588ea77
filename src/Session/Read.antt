-- ===== src/Session/Read.antt =====
-- The operations of a session that read: pkg/a10/certificates.go
use a10_certctl.Base.{ℕ, List, [], ◌∷◌, Option, none, some, is_nil, if◌then◌else◌}
use a10_certctl.Base.Int.{ℤ}
use a10_certctl.Text.{Text, ◌==◌, codes}
use a10_certctl.Errors
use a10_certctl.Errors.{Error, failed, not_found, Result, ok, err, refuse_if}
use a10_certctl.Exec.{◌>>=◌, ◌>>◌, pure, raise, lift}
use a10_certctl.Json.{Fields}
use a10_certctl.Json.Decode.{member, decode_text, decode_list, decode_struct, decode_int}
use a10_certctl.Names.{validate_file_name, validate_template_name}
use a10_certctl.Template.{
  ClientSslTemplate, ServerSslTemplate, decode_client_ssl, decode_server_ssl, contains,
}
use a10_certctl.Axapi.{
  FileKind, ssl_cert, ssl_key, ca_cert, get_version, get_certificates, get_files,
  get_client_templates, get_client_template, get_server_templates, Io, get_json,
}

-- The statuses that the calls accept.
abbrev pub only_ok : List ℕ
only_ok = 200 ∷ []

abbrev pub ok_or_empty : List ℕ
ok_or_empty = 200 ∷ 204 ∷ []

abbrev pub ok_created_empty : List ℕ
ok_created_empty = 200 ∷ 201 ∷ 204 ∷ []

-- A member of a document that is an object, as a struct field within structs is read.
abbrev pub nested : {A : Type 0} → Text → (Fields → Result A) → Fields → Result A
nested name decode fs = decode_struct decode (member name fs)

-- `VersionInfo`
pub record VersionInfo : Type 0 where
  pub hardware_platform : Text
  pub software_version : Text
  pub axapi_version : Text
  pub serial_number : Text
  pub hostname : Text
  pub current_time : Text
  pub uptime : Text

unfoldable pub decode_version_info : Fields → Result VersionInfo
decode_version_info fs =
    Errors.◌>>=◌ (decode_text (member (codes "hw-platform") fs)) λ hardware_platform.
      Errors.◌>>=◌ (decode_text (member (codes "sw-version") fs)) λ software_version.
        Errors.◌>>=◌ (decode_text (member (codes "axapi-version") fs)) λ axapi_version.
          Errors.◌>>=◌ (decode_text (member (codes "serial-number") fs)) λ serial_number.
            Errors.◌>>=◌ (decode_text (member (codes "hostname") fs)) λ hostname.
              Errors.◌>>=◌ (decode_text (member (codes "current-time") fs)) λ current_time.
                Errors.◌>>=◌ (decode_text (member (codes "up-time") fs)) λ uptime. ok (record {
                  hardware_platform = hardware_platform;
                  software_version = software_version;
                  axapi_version = axapi_version;
                  serial_number = serial_number;
                  hostname = hostname;
                  current_time = current_time;
                  uptime = uptime;
                })

-- The zero value, of a response without a body.
abbrev pub no_version : VersionInfo
no_version = record {
  hardware_platform = [];
  software_version = [];
  axapi_version = [];
  serial_number = [];
  hostname = [];
  current_time = [];
  uptime = [];
}

-- `ACOSVersion`
unfoldable pub acos_version : Io VersionInfo
unfolding decode_version_info
acos_version =
    get_json only_ok no_version
      (decode_struct (nested (codes "version") (nested (codes "oper") decode_version_info)))
      get_version

-- `CertificateInfo`
pub record CertificateInfo : Type 0 where
  pub name : Text
  pub file_type : Text
  pub serial : Text
  pub not_before : Text
  pub not_after : Text
  pub common_name : Text
  pub organization : Text
  pub subject : Text
  pub issuer : Text
  pub not_after_number : ℤ
  pub status : Text
  pub key_size : ℤ

unfoldable pub decode_certificate_info : Fields → Result CertificateInfo
decode_certificate_info fs = Errors.◌>>=◌ (decode_text (member (codes "name") fs)) λ name.
    Errors.◌>>=◌ (decode_text (member (codes "type") fs)) λ file_type.
      Errors.◌>>=◌ (decode_text (member (codes "serial") fs)) λ serial.
        Errors.◌>>=◌ (decode_text (member (codes "notbefore") fs)) λ not_before.
          Errors.◌>>=◌ (decode_text (member (codes "notafter") fs)) λ not_after.
            Errors.◌>>=◌ (decode_text (member (codes "common-name") fs)) λ common_name.
              Errors.◌>>=◌ (decode_text (member (codes "organization") fs)) λ organization.
                Errors.◌>>=◌ (decode_text (member (codes "subject") fs)) λ subject.
                  Errors.◌>>=◌ (decode_text (member (codes "issuer") fs)) λ issuer.
                    Errors.◌>>=◌ (decode_int (member (codes "notafter-number") fs))
                      λ not_after_number.
                        Errors.◌>>=◌ (decode_text (member (codes "status") fs)) λ status.
                          Errors.◌>>=◌ (decode_int (member (codes "keysize") fs)) λ key_size.
                            ok (record {
                              name = name;
                              file_type = file_type;
                              serial = serial;
                              not_before = not_before;
                              not_after = not_after;
                              common_name = common_name;
                              organization = organization;
                              subject = subject;
                              issuer = issuer;
                              not_after_number = not_after_number;
                              status = status;
                              key_size = key_size;
                            })

-- `ListCertificates`
unfoldable pub list_certificates : Io (List CertificateInfo)
unfolding decode_certificate_info
list_certificates =
    get_json ok_or_empty []
      (decode_struct (
        nested (codes "ssl-cert") (
          nested (codes "oper") (λ fs.
            decode_list (decode_struct decode_certificate_info) (member (codes "ssl-certs") fs)))))
      get_certificates

-- the loop of `GetCertificate`
unfoldable pub find_info : List CertificateInfo → Text → Option CertificateInfo
find_info [] name = none
find_info (c ∷ cs) name = if c.name == name then some c else find_info cs name

unfoldable pub info_or_missing : Text → Option CertificateInfo → Io CertificateInfo
info_or_missing name none = raise (not_found "certificate" name)
info_or_missing name (some certificate) = pure certificate

unfoldable pub get_certificate : Text → Io CertificateInfo
unfolding find_info info_or_missing
get_certificate name = do
  lift (validate_file_name name)
  certificates ← list_certificates
  info_or_missing name (find_info certificates name)

-- The member of `listFiles`' document that holds a kind's files.
unfoldable pub file_root : FileKind → Text
file_root ssl_cert = codes "ssl-cert"
file_root ssl_key = codes "ssl-key"
file_root ca_cert = codes "ca-cert"

-- `if item.File != "" { result = append(result, item.File) }`
unfoldable pub nonempty_names : List Text → List Text
nonempty_names [] = []
nonempty_names (f ∷ fs) = let rest = nonempty_names fs in if is_nil f then rest else f ∷ rest

unfoldable pub decode_file_list : Fields → Result (List Text)
decode_file_list fs =
    nested (codes "oper")
      (λ oper.
        decode_list (decode_struct (λ file. decode_text (member (codes "file") file)))
          (member (codes "file-list") oper))
      fs

-- `listFiles`: the document's three members are decoded, one is read.
unfoldable pub decode_files : FileKind → Fields → Result (List Text)
unfolding decode_file_list nonempty_names file_root
decode_files kind fs =
    Errors.◌>>=◌ (nested (file_root ssl_cert) decode_file_list fs) λ certificates.
      Errors.◌>>=◌ (nested (file_root ssl_key) decode_file_list fs) λ keys.
        Errors.◌>>=◌ (nested (file_root ca_cert) decode_file_list fs) λ cas.
          ok (
            nonempty_names (elim kind [ ssl_cert ↦ certificates | ssl_key ↦ keys | ca_cert ↦ cas ]))

unfoldable pub list_files : FileKind → Io (List Text)
unfolding decode_files
list_files kind = get_json ok_or_empty [] (decode_struct (decode_files kind)) (get_files kind)

unfoldable pub list_certificate_files : Io (List Text)
unfolding list_files
list_certificate_files = list_files ssl_cert

unfoldable pub list_key_files : Io (List Text)
unfolding list_files
list_key_files = list_files ssl_key

unfoldable pub list_ca_files : Io (List Text)
unfolding list_files
list_ca_files = list_files ca_cert

-- `GetKey`
unfoldable pub get_key : Text → Io Text
get_key name = do
  lift (validate_file_name name)
  keys ← list_key_files
  if contains keys name then pure name else raise (not_found "private key" name)

-- `ListClientSSLTemplates`
unfoldable pub list_client_ssl_templates : Io (List ClientSslTemplate)
list_client_ssl_templates =
    get_json ok_or_empty []
      (decode_struct (λ fs. decode_list decode_client_ssl (member (codes "client-ssl-list") fs)))
      get_client_templates

-- The template of a response without one: the zero value.
abbrev pub zero_template : ClientSslTemplate
zero_template = record {
  name = [];
  certificates = [];
  server_names = [];
  chain_certificate = [];
  forward_proxy = record {
    ca_certificate = [];
    ca_key = [];
    certificate = [];
    key = [];
    chain = [];
    alternate_certificate = [];
    alternate_key = [];
    alternate_chain = [];
  };
  uuid = [];
  a10_url = [];
  revision_payload = none;
}

-- `GetClientSSLTemplate`
unfoldable pub get_client_ssl_template : Text → Io ClientSslTemplate
get_client_ssl_template name = do
  lift (validate_template_name name)
  template ←
      get_json only_ok zero_template
        (decode_struct (λ fs. decode_client_ssl (member (codes "client-ssl") fs)))
        (get_client_template name)
  if template.name == name
      then pure template
      else raise (failed "A10 returned another client-SSL template than the requested one")

-- `ListServerSSLTemplates`
unfoldable pub list_server_ssl_templates : Io (List ServerSslTemplate)
list_server_ssl_templates =
    get_json ok_or_empty []
      (decode_struct (λ fs. decode_list decode_server_ssl (member (codes "server-ssl-list") fs)))
      get_server_templates
