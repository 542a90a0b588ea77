-- ===== src/Sync/Material.antt =====
-- The middle of `SyncCertificate` of pkg/a10/sync.go that puts the files of a bundle on the
-- appliance.
use a10_certctl.Base.{true, false, List, [], ◌∷◌, Option, is_nil, if◌then◌else◌}
use a10_certctl.Text.{Text}
use a10_certctl.Errors.{failed, Result, err}
use a10_certctl.Exec.{◌>>=◌, ◌>>◌, pure, lift, modify, annotate}
use a10_certctl.Platform.{Platform}
use a10_certctl.Bundle.{Certificate, CertificateBundle, chain_pem}
use a10_certctl.Template.{Binding, ClientSslTemplate, contains}
use a10_certctl.Session.{
  CertificateInfo, list_certificate_files, list_key_files, list_certificates, no_options,
  upload_key, upload_certificate, upload_chain,
}
use a10_certctl.Sync.{Target, SyncOptions, Sync, material_ready, on_world, set_result}
use a10_certctl.Sync.Select.{verify_collision}

-- What `SyncCertificate` has settled before its first change to the appliance.
pub record Plan : Type 0 where
  pub platform : Platform
  pub target : Target
  pub bundle : CertificateBundle
  pub options : SyncOptions
  -- the template as it was read first, and its revision
  pub template : ClientSslTemplate
  pub baseline_revision : Text
  pub desired : Binding
  pub current : Option Binding

-- `result.Uploaded = true; result.Changed = true`
unfoldable pub note_upload : Sync (Unit {0})
note_upload = set_result (λ r. record r { uploaded = true; changed = true })

unfoldable pub ensure_key : Plan → List Text → Sync (Unit {0})
unfolding note_upload
ensure_key plan key_files = if contains key_files plan.desired.key then pure tt else (do
  annotate "upload A10 private key" (
      on_world (
        upload_key plan.desired.key plan.bundle.key.pem
          (record { replace_file = false; exportable_key = plan.options.exportable_key })))
  note_upload
  modify (λ s. record s { uploaded = record s.uploaded { key = plan.desired.key } }))

unfoldable pub ensure_certificate : Plan → List Text → List CertificateInfo → Sync (Unit {0})
unfolding note_upload
ensure_certificate plan certificate_files certificates =
    if contains certificate_files plan.desired.certificate
    then lift (verify_collision certificates plan.desired.certificate plan.bundle.certificate)
    else (do
      annotate "upload A10 certificate" (
          on_world
            (upload_certificate plan.desired.certificate plan.bundle.certificate.pem no_options))
      note_upload
      modify (λ s. record s {
        uploaded = record s.uploaded { certificate = plan.desired.certificate };
      }))

-- `bundle.Chain[0]`, which is there where the chain has a name
unfoldable pub verify_chain_collision :
    List CertificateInfo → Text → List Certificate → Result (Unit {0})
verify_chain_collision certificates name [] = err (failed "index out of range")
verify_chain_collision certificates name (c ∷ chain) = verify_collision certificates name c

unfoldable pub ensure_chain : Plan → List Text → List CertificateInfo → Sync (Unit {0})
unfolding note_upload verify_chain_collision
ensure_chain plan certificate_files certificates =
    if is_nil plan.desired.chain
    then pure tt
    else if contains certificate_files plan.desired.chain
    then lift (verify_chain_collision certificates plan.desired.chain plan.bundle.chain)
    else (do
      annotate "upload A10 server certificate chain"
          (on_world (upload_chain plan.desired.chain (chain_pem plan.bundle.chain) no_options))
      note_upload
      modify (λ s. record s { uploaded = record s.uploaded { chain = plan.desired.chain } }))

unfoldable pub ensure_material : Plan → Sync (Unit {0})
unfolding ensure_key ensure_certificate ensure_chain
ensure_material plan = do
  certificate_files ← on_world list_certificate_files
  key_files ← on_world list_key_files
  certificates ← on_world list_certificates
  ensure_key plan key_files
  ensure_certificate plan certificate_files certificates
  ensure_chain plan certificate_files certificates
  set_result (λ r. record r { stage = material_ready })
