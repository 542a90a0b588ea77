-- ===== src/Session/Write.antt =====
-- The operations of a session that change the appliance: pkg/a10/certificates.go
use text.Mathlib.Text.{◌==◌ as str_eq}
use a10_certctl.Base.{
  Bool, true, false, not, ◌&&◌, List, [], ◌∷◌, none, some, is_nil, if◌then◌else◌,
}
use a10_certctl.Text.{Text}
use a10_certctl.Errors.{Error, failed, Result, ok, err, refuse_if}
use a10_certctl.Exec.{◌>>=◌, ◌>>◌, lift, gets, when, annotate}
use a10_certctl.Names.{validate_file_name, validate_template_name}
use a10_certctl.Bundle.{Certificate}
use a10_certctl.Bundle.Parse.{split_certificates, parse_encrypted_key}
use a10_certctl.Template.{Binding}
use a10_certctl.Axapi.{
  ssl_cert, ssl_key, ca_cert, UploadAction, import, replace, MaterialNames, post_file, post_binding,
  delete_binding, post_delete, post_write_memory, World, Io, do_json,
}
use a10_certctl.Session.Read.{ok_or_empty, ok_created_empty}

-- `UploadOptions`
pub record UploadOptions : Type 0 where
  pub replace_file : Bool
  pub exportable_key : Bool

abbrev pub no_options : UploadOptions
no_options = record { replace_file = false; exportable_key = false }

unfoldable pub upload_action : Bool → UploadAction
upload_action b = if b then replace else import

-- `uploadCertificateFile`
unfoldable pub upload_certificate_file : Text → Text → UploadOptions → Io (Unit {0})
unfolding upload_action
upload_certificate_file name pem options = do
  lift (validate_file_name name)
  do_json ok_created_empty (
      post_file ssl_cert
        (record { action = upload_action options.replace_file; file = name; secured = 0 }) pem)

-- `UploadCertificate`
unfoldable pub upload_certificate : Text → Text → UploadOptions → Io (Unit {0})
unfolding upload_certificate_file
upload_certificate name pem options = do
  platform ← gets (λ (w : World). w.environment.platform)
  lift (split_certificates platform pem)
  upload_certificate_file name pem options

-- `certificate.parsed.IsCA` of each certificate
unfoldable pub all_cas : List Certificate → Bool
all_cas [] = true
all_cas (c ∷ cs) = elim c.parsed [ none ↦ false | some x ↦ x.is_ca && all_cas cs ]

-- `UploadChain`
unfoldable pub upload_chain : Text → Text → UploadOptions → Io (Unit {0})
unfolding upload_certificate_file all_cas
upload_chain name pem options = do
  platform ← gets (λ (w : World). w.environment.platform)
  certificates ← lift (split_certificates platform pem)
  lift (refuse_if (not (all_cas certificates)) (failed "chain certificate is not a CA certificate"))
  upload_certificate_file name pem options

-- `strings.Contains(err.Error(), "no passphrase")`
unfoldable pub is_no_passphrase : Error → Bool
is_no_passphrase (failed message) =
    str_eq message "private key is encrypted but no passphrase was supplied"
is_no_passphrase _ = false

unfoldable pub check_key : {A : Type 0} → Result A → Result (Unit {0})
unfolding is_no_passphrase
check_key (ok k) = ok tt
check_key (err e) = if is_no_passphrase e then ok tt else err e

-- `UploadKey`
unfoldable pub upload_key : Text → Text → UploadOptions → Io (Unit {0})
unfolding upload_action check_key
upload_key name pem options = do
  lift (validate_file_name name)
  platform ← gets (λ (w : World). w.environment.platform)
  lift (check_key (parse_encrypted_key platform pem []))
  do_json ok_created_empty (
      post_file ssl_key
        (record {
          action = upload_action options.replace_file;
          file = name;
          secured = if options.exportable_key then 0 else 1;
        })
        pem)

-- `UploadCA`
unfoldable pub upload_ca : Text → Text → UploadOptions → Io (Unit {0})
unfolding upload_action all_cas
upload_ca name pem options = do
  lift (validate_file_name name)
  platform ← gets (λ (w : World). w.environment.platform)
  certificates ← lift (split_certificates platform pem)
  lift (
      refuse_if (not (all_cas certificates))
        (failed "CA chain certificate is not a CA certificate"))
  do_json ok_created_empty (
      post_file ca_cert
        (record { action = upload_action options.replace_file; file = name; secured = 0 }) pem)

-- `BindCertificate`
unfoldable pub bind_certificate : Text → Binding → Text → Io (Unit {0})
bind_certificate template binding passphrase = do
  lift (validate_template_name template)
  annotate "certificate binding" (lift (validate_file_name binding.certificate))
  annotate "key binding" (lift (validate_file_name binding.key))
  when (not (is_nil binding.chain))
      (annotate "chain binding" (lift (validate_file_name binding.chain)))
  do_json ok_created_empty (
      post_binding template (record {
        certificate = binding.certificate;
        key = binding.key;
        chain = binding.chain;
        shared = if binding.shared then 1 else 0;
        passphrase = passphrase;
      }))

-- `UnbindCertificate`
unfoldable pub unbind_certificate : Text → Text → Io (Unit {0})
unbind_certificate template certificate = do
  lift (validate_template_name template)
  lift (validate_file_name certificate)
  do_json ok_or_empty (delete_binding template certificate)

-- `names == (MaterialNames{})`
unfoldable pub no_material : MaterialNames → Bool
no_material names = is_nil names.certificate && is_nil names.key && is_nil names.ca

-- `DeleteMaterial`
unfoldable pub delete_material : MaterialNames → Io (Unit {0})
unfolding no_material
delete_material names = do
  lift (
      refuse_if (no_material names)
        (failed "no A10 certificate material was selected for deletion"))
  when (not (is_nil names.certificate)) (lift (validate_file_name names.certificate))
  when (not (is_nil names.key)) (lift (validate_file_name names.key))
  when (not (is_nil names.ca)) (lift (validate_file_name names.ca))
  do_json ok_created_empty (post_delete names)

-- `WriteMemory`: an empty partition name stands for the shared partition.
unfoldable pub write_memory : Io (Unit {0})
write_memory = do
  partition ← gets (λ (w : World). w.partition)
  do_json ok_created_empty (post_write_memory partition)
