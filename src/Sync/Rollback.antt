-- ===== src/Sync/Rollback.antt =====
-- `rollbackUploadedMaterial` and `rollbackSynchronization` of pkg/a10/sync.go
use a10_certctl.Base.{not, ◌||◌, List, [], ◌∷◌, Option, none, some, is_nil, if◌then◌else◌}
use a10_certctl.Text.{◌==◌}
use a10_certctl.Errors.{failed}
use a10_certctl.Exec.{◌>>=◌, ◌>>◌, pure, raise, when, annotate}
use a10_certctl.Platform.{Platform}
use a10_certctl.Template.{
  Binding, ClientSslTemplate, find_binding, has_binding, same_binding, contains,
}
use a10_certctl.Template.Revision.{revision}
use a10_certctl.Axapi.{Io}
use a10_certctl.Session.{
  list_certificate_files, list_key_files, get_client_ssl_template, bind_certificate,
  unbind_certificate, delete_material, write_memory,
}
use a10_certctl.Sync.{Target, UploadedMaterial}

unfoldable pub delete_uploaded : UploadedMaterial → Io (Unit {0})
delete_uploaded uploaded = do
  when (not (is_nil uploaded.certificate) || not (is_nil uploaded.key)) (
      annotate "delete newly uploaded certificate material" (
        delete_material
          (record { certificate = uploaded.certificate; key = uploaded.key; ca = [] })))
  when (not (is_nil uploaded.chain)) (
      annotate "delete newly uploaded certificate chain"
        (delete_material (record { certificate = uploaded.chain; key = []; ca = [] })))

unfoldable pub verify_absent : UploadedMaterial → Io (Unit {0})
verify_absent uploaded = do
  certificates ← annotate "verify certificate rollback" list_certificate_files
  keys ← annotate "verify private-key rollback" list_key_files
  if contains certificates uploaded.certificate
        || contains certificates uploaded.chain
        || contains keys uploaded.key
      then raise (failed "newly uploaded A10 material remained after rollback")
      else pure tt

unfoldable pub rollback_uploaded_material : UploadedMaterial → Io (Unit {0})
unfolding delete_uploaded verify_absent
rollback_uploaded_material uploaded = do delete_uploaded uploaded; verify_absent uploaded

-- The binding of the baseline that the rotation may have displaced.
unfoldable pub previous_binding : Target → List Binding → Option Binding
previous_binding target (b ∷ []) = some b
previous_binding target bs =
    if is_nil target.current_certificate then none else find_binding bs target.current_certificate

unfoldable pub restore_previous : Target → Option Binding → ClientSslTemplate → Io ClientSslTemplate
restore_previous target none current = pure current
restore_previous target (some previous) current =
    if has_binding current.certificates previous then pure current else (do
      annotate "restore previous certificate binding"
          (bind_certificate target.client_ssl_template previous [])
      annotate "verify restored certificate binding"
          (get_client_ssl_template target.client_ssl_template))

-- by what the template has under the desired name
unfoldable pub remove_found : Target → Binding → Option Binding → Io (Unit {0})
remove_found target desired none = pure tt
remove_found target desired (some b) =
    annotate "remove desired certificate binding during rollback"
      (unbind_certificate target.client_ssl_template desired.certificate)

unfoldable pub remove_desired : Target → Binding → ClientSslTemplate → Io (Unit {0})
unfolding remove_found
remove_desired target desired current =
    remove_found target desired (find_binding current.certificates desired.certificate)

-- The changes to the template, by whether the baseline had the desired name.
unfoldable pub restore_template :
    Target → ClientSslTemplate → Binding → ClientSslTemplate → Option Binding → Io (Unit {0})
unfolding previous_binding restore_previous remove_desired
restore_template target baseline desired current none = do
  restored ← restore_previous target (previous_binding target baseline.certificates) current
  remove_desired target desired restored
restore_template target baseline desired current (some b) =
    if same_binding b desired
    then pure tt
    else raise (failed "desired certificate name existed with different baseline binding")

unfoldable pub rollback_synchronization :
    Platform
    → Target
    → ClientSslTemplate
    → ClientSslTemplate
    → Binding
    → UploadedMaterial
    → Io (Unit {0})
unfolding restore_template
rollback_synchronization p target baseline expected desired uploaded = do
  current ←
      annotate "inspect template before rollback"
        (get_client_ssl_template target.client_ssl_template)
  when (not (revision p current == revision p expected))
      (raise (failed "template changed before rollback"))
  restore_template target baseline desired current
      (find_binding baseline.certificates desired.certificate)
  verified ←
      annotate "verify template rollback" (get_client_ssl_template target.client_ssl_template)
  when (not (revision p verified == revision p baseline))
      (raise (failed "template rollback verification failed"))
  rollback_uploaded_material uploaded
  annotate "persist restored baseline" write_memory
