-- ===== src/Session/Footprint.antt =====
-- Which requests each operation of a session may send.
use a10_certctl.Exec.{◌>>=◌, gets}
use a10_certctl.Base.{
  subst, [], ◌∷◌, ◌≡◌, refl, Bool, true, false, Option, none, some, if◌then◌else◌,
}
use a10_certctl.Text.{Text}
use a10_certctl.Axapi.{
  FileKind, ssl_cert, ssl_key, MaterialNames, Request, post_auth, post_active_partition, do_json,
  post_logoff, get_version, get_certificates, get_files, get_client_templates, get_client_template,
  get_server_templates, post_file, post_binding, delete_binding, post_delete, post_write_memory,
}
use a10_certctl.Axapi.Sends.{Sends, sends_rules}
use a10_certctl.Axapi.Sent.{Sent, Sent-do_json}
use a10_certctl.Template.{Binding}
use a10_certctl.Session.{
  ok_created_empty, CertificateInfo, acos_version, list_certificates, info_or_missing,
  get_certificate, list_files, list_certificate_files, list_key_files, get_key,
  list_client_ssl_templates, get_client_ssl_template, list_server_ssl_templates, UploadOptions,
  upload_action, upload_certificate_file, upload_certificate, upload_chain, upload_key,
  bind_certificate, unbind_certificate, delete_material, write_memory,
}
use a10_certctl.Compatibility.{verify_compatibility}
use a10_certctl.State.{require_template_revision}
use Prim.Native.String.{String}

-- The requests that change nothing on the appliance: every `GET`.
abbrev pub is_read : Request → Bool
is_read (post_auth _ _) = false
is_read (post_active_partition _) = false
is_read post_logoff = false
is_read (post_file _ _ _) = false
is_read (post_binding _ _) = false
is_read (delete_binding _ _) = false
is_read (post_delete _) = false
is_read (post_write_memory _) = false
is_read _ = true

abbrev pub IsRead : Request → Type 0
IsRead r = is_read r ≡ true

module _ {P : Request → Type 0} (reads : (r : Request) → IsRead r → P r) where
  pub acos_version-Sends : Sends P (λ w. w) acos_version
  unfolding acos_version
  acos_version-Sends = search (sends_rules, reads get_version refl)

  pub list_certificates-Sends : Sends P (λ w. w) list_certificates
  unfolding list_certificates
  list_certificates-Sends = search (sends_rules, reads get_certificates refl)

  pub list_files-Sends : (k : FileKind) → Sends P (λ w. w) (list_files k)
  unfolding list_files
  list_files-Sends k = search (sends_rules, reads (get_files k) refl)

  pub list_certificate_files-Sends : Sends P (λ w. w) list_certificate_files
  unfolding list_certificate_files
  list_certificate_files-Sends = search (sends_rules, reads (get_files ssl_cert) refl)

  pub list_key_files-Sends : Sends P (λ w. w) list_key_files
  unfolding list_key_files
  list_key_files-Sends = search (sends_rules, reads (get_files ssl_key) refl)

  pub get_key-Sends : (name : Text) → Sends P (λ w. w) (get_key name)
  unfolding get_key
  get_key-Sends name = search (sends_rules, list_key_files-Sends)

  info_or_missing-Sends :
      (name : Text) (o : Option CertificateInfo) → Sends P (λ w. w) (info_or_missing name o)
  unfolding info_or_missing
  info_or_missing-Sends name none = search sends_rules
  info_or_missing-Sends name (some c) = search sends_rules

  pub get_certificate-Sends : (name : Text) → Sends P (λ w. w) (get_certificate name)
  unfolding get_certificate
  get_certificate-Sends name = search (sends_rules, list_certificates-Sends, info_or_missing-Sends)

  pub list_client_ssl_templates-Sends : Sends P (λ w. w) list_client_ssl_templates
  unfolding list_client_ssl_templates
  list_client_ssl_templates-Sends = search (sends_rules, reads get_client_templates refl)

  pub list_server_ssl_templates-Sends : Sends P (λ w. w) list_server_ssl_templates
  unfolding list_server_ssl_templates
  list_server_ssl_templates-Sends = search (sends_rules, reads get_server_templates refl)

  pub get_client_ssl_template-Sends :
      (name : Text) → Sends P (λ w. w) (get_client_ssl_template name)
  unfolding get_client_ssl_template
  get_client_ssl_template-Sends name = search (sends_rules, reads (get_client_template name) refl)

  pub verify_compatibility-Sends : Sends P (λ w. w) verify_compatibility
  unfolding verify_compatibility
  verify_compatibility-Sends = search (sends_rules, acos_version-Sends)

  pub require_template_revision-Sends :
      (name expected : Text) (stage : String)
      → Sends P (λ w. w) (require_template_revision name expected stage)
  unfolding require_template_revision
  require_template_revision-Sends name expected stage =
      search (sends_rules, get_client_ssl_template-Sends)

-- The writes: each sends one request, whose content is known.
module _ {P : Request → Type 0} where
  pub upload_certificate_file-Sends :
      (name pem : Text) (options : UploadOptions)
      → P (
          post_file ssl_cert
            (record { action = upload_action options.replace_file; file = name; secured = 0 })
            pem)
      → Sends P (λ w. w) (upload_certificate_file name pem options)
  unfolding upload_certificate_file
  upload_certificate_file-Sends name pem options h = search sends_rules

  pub upload_certificate-Sends :
      (name pem : Text) (options : UploadOptions)
      → P (
          post_file ssl_cert
            (record { action = upload_action options.replace_file; file = name; secured = 0 })
            pem)
      → Sends P (λ w. w) (upload_certificate name pem options)
  unfolding upload_certificate
  upload_certificate-Sends name pem options h = search sends_rules

  pub upload_chain-Sends :
      (name pem : Text) (options : UploadOptions)
      → P (
          post_file ssl_cert
            (record { action = upload_action options.replace_file; file = name; secured = 0 })
            pem)
      → Sends P (λ w. w) (upload_chain name pem options)
  unfolding upload_chain
  upload_chain-Sends name pem options h = search sends_rules depth 7

  pub upload_key-Sends :
      (name pem : Text) (options : UploadOptions)
      → P (
          post_file ssl_key
            (record {
              action = upload_action options.replace_file;
              file = name;
              secured = if options.exportable_key then 0 else 1;
            })
            pem)
      → Sends P (λ w. w) (upload_key name pem options)
  unfolding upload_key
  upload_key-Sends name pem options h = search sends_rules depth 7

  pub bind_certificate-Sends :
      (template : Text) (b : Binding) (passphrase : Text)
      → P (
          post_binding template (record {
            certificate = b.certificate;
            key = b.key;
            chain = b.chain;
            shared = if b.shared then 1 else 0;
            passphrase = passphrase;
          }))
      → Sends P (λ w. w) (bind_certificate template b passphrase)
  unfolding bind_certificate
  bind_certificate-Sends template b passphrase h = search sends_rules depth 9

  pub unbind_certificate-Sends :
      (template certificate : Text)
      → P (delete_binding template certificate)
      → Sends P (λ w. w) (unbind_certificate template certificate)
  unfolding unbind_certificate
  unbind_certificate-Sends template certificate h = search sends_rules

  pub delete_material-Sends :
      (names : MaterialNames) → P (post_delete names) → Sends P (λ w. w) (delete_material names)
  unfolding delete_material
  delete_material-Sends names h = search sends_rules depth 9

  pub write_memory-Sends :
      ((partition : Text) → P (post_write_memory partition)) → Sends P (λ w. w) write_memory
  unfolding write_memory
  write_memory-Sends h = search sends_rules

-- Where it succeeds, `write memory` is what has been sent.
module _ {p : Text} where
  pub write_memory-Sent : Sent p (post_write_memory p ∷ []) write_memory
  unfolding write_memory ◌>>=◌ gets
  write_memory-Sent = record {
    at = λ w h.
        (subst
            (λ q.
              Sent p (post_write_memory q ∷ [])
                (do_json ok_created_empty (post_write_memory w.partition)))
            h (Sent-do_json _ (post_write_memory w.partition))).at
          w h;
  }
