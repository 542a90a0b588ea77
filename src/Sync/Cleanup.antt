-- ===== src/Sync/Cleanup.antt =====
-- `deleteUnreferenced` of pkg/a10/sync.go, and the end of `SyncCertificate` that calls it.
pub mod Safe
use a10_certctl.Base.{
  Bool, true, false, not, ◌&&◌, List, [], ◌∷◌, ◌++◌, Option, none, some, is_nil, if◌then◌else◌,
}
use a10_certctl.Text.{Text, ◌==◌}
use a10_certctl.Exec.{◌>>=◌, ◌>>◌, pure, when, annotate}
use a10_certctl.Template.{Binding, ClientSslTemplate, ServerSslTemplate}
use a10_certctl.Template.References.{referenced}
use a10_certctl.Axapi.{MaterialNames, Io}
use a10_certctl.Session.{
  list_client_ssl_templates, list_server_ssl_templates, delete_material, no_material, write_memory,
}
use a10_certctl.Sync
use a10_certctl.Sync.{Deleted, Sync, cleanup_complete, on_world, set_result}
use a10_certctl.Sync.Material.{Plan}

-- `name != "" && name != desired && !referenced`: whether an old file may go
unfoldable pub is_deletable : List ClientSslTemplate → List ServerSslTemplate → Text → Text → Bool
is_deletable templates server_templates name desired =
    not (is_nil name) && not (name == desired) && not (referenced templates server_templates name)

-- The certificate and key to delete, in one request.
unfoldable pub deletable_pair :
    List ClientSslTemplate → List ServerSslTemplate → Binding → Binding → MaterialNames
unfolding is_deletable
deletable_pair ts ss previous desired = record {
  certificate =
      if is_deletable ts ss previous.certificate desired.certificate
      then previous.certificate
      else [];
  key = if is_deletable ts ss previous.key desired.key then previous.key else [];
  ca = [];
}

-- The entries of `deleted` for that request.
unfoldable pub deleted_pair : MaterialNames → List Deleted
deleted_pair names =
    (if is_nil names.certificate then [] else Deleted.certificate names.certificate ∷ [])
    ++ (if is_nil names.key then [] else Deleted.key names.key ∷ [])

unfoldable pub delete_chain :
    List ClientSslTemplate → List ServerSslTemplate → Binding → Binding → Io (List Deleted)
unfolding is_deletable
delete_chain ts ss previous desired =
    if is_deletable ts ss previous.chain desired.chain
    then (do
      annotate "delete unreferenced previous certificate chain"
          (delete_material (record { certificate = previous.chain; key = []; ca = [] }))
      pure (Deleted.chain previous.chain ∷ []))
    else pure []

-- The deletions, once both kinds of templates are listed.
unfoldable pub delete_listed :
    Binding → Binding → List ClientSslTemplate → List ServerSslTemplate → Io (List Deleted)
unfolding deletable_pair deleted_pair
delete_listed previous desired ts ss = do
  let names = deletable_pair ts ss previous desired
  when (not (no_material names))
      (annotate "delete unreferenced previous certificate material" (delete_material names))
  chain ← delete_chain ts ss previous desired
  pure (deleted_pair names ++ chain)

unfoldable pub delete_unreferenced : Binding → Binding → Io (List Deleted)
delete_unreferenced previous desired = do
  templates ← annotate "check certificate references before cleanup" list_client_ssl_templates
  server_templates ←
      annotate "check server-SSL certificate references before cleanup" list_server_ssl_templates
  delete_listed previous desired templates server_templates

unfoldable pub cleanup_binding : Plan → Binding → Sync (Unit {0})
cleanup_binding plan current = do
  deleted ← on_world (delete_unreferenced current plan.desired)
  set_result (λ r. record r { deleted_old = deleted; stage = cleanup_complete })
  when (not (is_nil deleted) && not plan.options.no_write_memory)
      (annotate "persist A10 old-certificate cleanup" (on_world write_memory))

-- `if current != nil && current.Certificate != desired.Certificate && options.CleanupOld`
unfoldable pub cleanup_old : Plan → Option Binding → Sync (Unit {0})
cleanup_old plan none = pure tt
cleanup_old plan (some current) =
    if not (current.certificate == plan.desired.certificate) && plan.options.cleanup_old
    then cleanup_binding plan current
    else pure tt
