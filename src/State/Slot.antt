-- ===== src/State/Slot.antt =====
-- `GetManagedCertificateState` of pkg/a10/state.go
use a10_certctl.Base.{Option, none, some}
use a10_certctl.Text.{Text}
use a10_certctl.Exec.{◌>>=◌, ◌>>◌, pure, lift, annotate}
use a10_certctl.Template.{Binding}
use a10_certctl.Template.Revision.{revision}
use a10_certctl.Axapi.{Io}
use a10_certctl.Session.{CertificateInfo, get_client_ssl_template, get_certificate, get_key}
use a10_certctl.Sync.{Target}
use a10_certctl.Sync.Select.{validate_target, select_target_binding}
use a10_certctl.State.{current_platform}

-- `CertificateState`
pub record CertificateState : Type 0 where
  pub target : Target
  pub template_revision : Text
  pub binding : Option Binding
  pub certificate : Option CertificateInfo
  pub key : Option Text

-- What follows the selection of a binding.
unfoldable pub resolve_binding : Target → Text → Option Binding → Io CertificateState
resolve_binding target rev none = pure (record {
  target = target;
  template_revision = rev;
  binding = none;
  certificate = none;
  key = none;
})
resolve_binding target rev (some b) = do
  certificate ← annotate "resolve bound certificate" (get_certificate b.certificate)
  key ← annotate "resolve bound private key" (get_key b.key)
  pure (record {
    target = target;
    template_revision = rev;
    binding = some b;
    certificate = some certificate;
    key = some key;
  })

unfoldable pub get_managed_certificate_state : Target → Io CertificateState
unfolding resolve_binding
get_managed_certificate_state target = do
  lift (validate_target target)
  template ← get_client_ssl_template target.client_ssl_template
  platform ← current_platform
  binding ← lift (select_target_binding template.certificates target)
  resolve_binding target (revision platform template) binding
