-- ===== src/State.antt =====
-- pkg/a10/state.go: the state of one certificate slot, and the comparison of revisions.
pub mod Slot
use Prim.Native.String.{String}
use a10_certctl.Base.{Bool, true, false, Option, none, some, if◌then◌else◌}
use a10_certctl.Text.{Text, ◌==◌}
use a10_certctl.Errors.{conflict}
use a10_certctl.Exec.{◌>>=◌, pure, raise, gets}
use a10_certctl.Platform.{Platform}
use a10_certctl.Template.{ClientSslTemplate}
use a10_certctl.Template.Revision.{revision}
use a10_certctl.Axapi.{World, Io}
use a10_certctl.Session.{get_client_ssl_template}

unfoldable pub current_platform : Io Platform
current_platform = gets (λ (w : World). w.environment.platform)

-- `requireTemplateRevision`, of the template `name`
unfoldable pub require_template_revision : Text → Text → String → Io ClientSslTemplate
unfolding current_platform
require_template_revision name expected stage = do
  template ← get_client_ssl_template name
  platform ← current_platform
  if revision platform template == expected
      then pure template
      else raise (conflict stage expected (revision platform template))
