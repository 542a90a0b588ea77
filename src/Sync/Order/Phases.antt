-- ===== src/Sync/Order/Phases.antt =====
-- What each phase of a rotation sends where it succeeds: pkg/a10/sync.go
use Prim.Native.String.{String}
use a10_certctl.Base.{Bool, List, Option, none, some}
use a10_certctl.Text.{Text}
use a10_certctl.Errors.{Result, ok, err}
use a10_certctl.Axapi.{
  FileKind, UploadDocument, BindingDocument, MaterialNames, Request, post_file, post_binding,
  delete_binding, post_delete,
}
use a10_certctl.Axapi.Sends.{Sends, sends_rules}
use a10_certctl.Template.{Binding, ClientSslTemplate, ServerSslTemplate}
use a10_certctl.Session.{CertificateInfo}
use a10_certctl.Session.Footprint.{
  IsRead, list_certificates-Sends, list_certificate_files-Sends, list_key_files-Sends,
  list_client_ssl_templates-Sends, list_server_ssl_templates-Sends, get_client_ssl_template-Sends,
  require_template_revision-Sends, upload_key-Sends, upload_certificate-Sends, upload_chain-Sends,
  bind_certificate-Sends, unbind_certificate-Sends, delete_material-Sends,
}
use a10_certctl.Sync.Material.{
  Plan, note_upload, ensure_key, ensure_certificate, ensure_chain, ensure_material,
}
use a10_certctl.Sync.Rotate.{
  require_revision, note_bound, read_back, settle_binding, bind_new, bind_desired, note_unbound,
  remove_found, remove_old,
}
use a10_certctl.Sync.Cleanup.{delete_chain, delete_listed, delete_unreferenced}
use a10_certctl.Sync.Permits.Phases.{world_of, on_world-Sends, set_result-Sends, modify-Sends}

module _ {P : Request → Type 0} (reads : (r : Request) → IsRead r → P r) (plan : Plan) where
  pub require_revision-Sends :
      (expected : Text) (stage : String) → Sends P world_of (require_revision plan expected stage)
  unfolding require_revision
  require_revision-Sends expected stage =
      on_world-Sends _ (require_template_revision-Sends reads _ expected stage)

  -- Uploads
  module _
      (files : (kind : FileKind) (doc : UploadDocument) (pem : Text)
        → P (post_file kind doc pem)) where
    ensure_key-Sends : (names : List Text) → Sends P world_of (ensure_key plan names)
    unfolding ensure_key note_upload
    ensure_key-Sends names =
        search
          (sends_rules, on_world-Sends, set_result-Sends, modify-Sends, upload_key-Sends {P = P})
          depth 10

    ensure_certificate-Sends :
        (names : List Text) (infos : List CertificateInfo)
        → Sends P world_of (ensure_certificate plan names infos)
    unfolding ensure_certificate note_upload
    ensure_certificate-Sends names infos =
        search
          (
            sends_rules,
            on_world-Sends,
            set_result-Sends,
            modify-Sends,
            upload_certificate-Sends {P = P},
          )
          depth 10

    ensure_chain-Sends :
        (names : List Text) (infos : List CertificateInfo)
        → Sends P world_of (ensure_chain plan names infos)
    unfolding ensure_chain note_upload
    ensure_chain-Sends names infos =
        search
          (sends_rules, on_world-Sends, set_result-Sends, modify-Sends, upload_chain-Sends {P = P})
          depth 10

    pub ensure_material-Sends : Sends P world_of (ensure_material plan)
    unfolding ensure_material
    ensure_material-Sends =
        search
          (
            sends_rules,
            on_world-Sends,
            set_result-Sends,
            list_certificate_files-Sends {P = P},
            list_key_files-Sends {P = P},
            list_certificates-Sends {P = P},
            reads,
            ensure_key-Sends,
            ensure_certificate-Sends,
            ensure_chain-Sends,
          )
          depth 14

  -- The binding
  module _ (binds : (t : Text) (doc : BindingDocument) → P (post_binding t doc)) where
    read_back-Sends :
        (b : Result (Unit {0})) (r : Result ClientSslTemplate)
        → Sends P world_of (read_back plan b r)
    unfolding read_back settle_binding
    read_back-Sends b (ok t) = search sends_rules
    read_back-Sends b (err e) = search sends_rules

    bind_new-Sends : Sends P world_of (bind_new plan)
    unfolding bind_new note_bound
    bind_new-Sends =
        search
          (
            sends_rules,
            on_world-Sends,
            set_result-Sends,
            modify-Sends,
            bind_certificate-Sends {P = P},
            get_client_ssl_template-Sends {P = P},
            reads,
            read_back-Sends,
          )
          depth 14

    pub bind_desired-Sends : Sends P world_of (bind_desired plan)
    unfolding bind_desired
    bind_desired-Sends = search (sends_rules, require_revision-Sends, bind_new-Sends) depth 10

  -- The removal of the old binding
  module _ (unbinds : (t c : Text) → P (delete_binding t c)) where
    remove_found-Sends :
        (current : Binding) (expected : ClientSslTemplate) (implicit : Bool) (o : Option Binding)
        → Sends P world_of (remove_found plan current expected implicit o)
    unfolding remove_found note_unbound
    remove_found-Sends current expected implicit none = search (sends_rules, set_result-Sends)
    remove_found-Sends current expected implicit (some b) =
        search
          (
            sends_rules,
            on_world-Sends,
            set_result-Sends,
            require_revision-Sends,
            unbind_certificate-Sends {P = P},
          )
          depth 12

    pub remove_old-Sends :
        (o : Option Binding) (expected : ClientSslTemplate) (implicit : Bool)
        → Sends P world_of (remove_old plan o expected implicit)
    unfolding remove_old
    remove_old-Sends none expected implicit = search sends_rules
    remove_old-Sends (some b) expected implicit = search (sends_rules, remove_found-Sends)

-- The cleanup
module _ {P : Request → Type 0} (reads : (r : Request) → IsRead r → P r)
    (deletes : (m : MaterialNames) → P (post_delete m)) where
  delete_chain-Sends :
      (ts : List ClientSslTemplate) (ss : List ServerSslTemplate) (previous desired : Binding)
      → Sends P (λ w. w) (delete_chain ts ss previous desired)
  unfolding delete_chain
  delete_chain-Sends ts ss previous desired =
      search (sends_rules, delete_material-Sends {P = P}) depth 10

  delete_listed-Sends :
      (previous desired : Binding) (ts : List ClientSslTemplate) (ss : List ServerSslTemplate)
      → Sends P (λ w. w) (delete_listed previous desired ts ss)
  unfolding delete_listed
  delete_listed-Sends previous desired ts ss =
      search (sends_rules, delete_material-Sends {P = P}, delete_chain-Sends) depth 10

  pub delete_unreferenced-Sends :
      (previous desired : Binding) → Sends P (λ w. w) (delete_unreferenced previous desired)
  unfolding delete_unreferenced
  delete_unreferenced-Sends previous desired =
      search
        (
          sends_rules,
          list_client_ssl_templates-Sends {P = P},
          list_server_ssl_templates-Sends {P = P},
          reads,
          delete_listed-Sends,
        )
        depth 10
