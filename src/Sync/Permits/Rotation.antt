-- ===== src/Sync/Permits/Rotation.antt =====
-- What each phase of `SyncCertificate` may send.
use Prim.Native.String.{String}
use a10_certctl.Base.{
  ◌≡◌, refl, sym, ap, ◌∙◌, ◌⊎◌, inl, inr, Bool, true, false, not, ◌&&◌, List, Option, none, some,
  arith,
}
use a10_certctl.Text.{Text}
use a10_certctl.Errors.{Error, Result, ok, err}
use a10_certctl.Bundle.{chain_pem}
use a10_certctl.Template.{Binding, ClientSslTemplate, ServerSslTemplate}
use a10_certctl.Axapi.{FileKind, UploadAction, UploadDocument, post_file, Request}
use a10_certctl.Axapi.Sends.{Sends, Sends-when, sends_rules}
use a10_certctl.Session.{
  CertificateInfo, UploadOptions, upload_action, upload_key, upload_certificate, upload_chain,
  write_memory, no_options,
}
use a10_certctl.Session.Footprint.{
  list_certificates-Sends, list_certificate_files-Sends, list_key_files-Sends,
  get_client_ssl_template-Sends, list_client_ssl_templates-Sends, list_server_ssl_templates-Sends,
  require_template_revision-Sends, upload_key-Sends, upload_certificate-Sends, upload_chain-Sends,
  bind_certificate-Sends, unbind_certificate-Sends, delete_material-Sends, write_memory-Sends,
}
use a10_certctl.Sync.{Target, SyncOptions}
use a10_certctl.Sync.Material.{Plan, ensure_key, ensure_certificate, ensure_chain, ensure_material}
use a10_certctl.Sync.Rotate.{
  require_revision, settle_binding, read_back, bind_new, bind_desired, remove_found, remove_old,
  report_rollback, after_write, write_running, persist,
}
use a10_certctl.Sync.Cleanup.{
  delete_chain, delete_listed, delete_unreferenced, cleanup_binding, cleanup_old,
}
use a10_certctl.Sync.Run.{rotate}
use a10_certctl.Sync.Permits.{Permits, IsPlanFor}
use a10_certctl.Sync.Permits.Phases.{
  world_of, on_world-Sends, set_result-Sends, modify-Sends, rollback_synchronization-Sends,
}

module _ {P : Request → Type 0} {D : Type 0} {target : Target} {names : Text × Text}
    {options : SyncOptions} (permits : Permits P D target names options) where
  delete_chain-Sends :
      D
      → (ts : List ClientSslTemplate) (ss : List ServerSslTemplate) (previous desired : Binding)
      → Sends P (λ w. w) (delete_chain ts ss previous desired)
  unfolding delete_chain
  delete_chain-Sends d ts ss previous desired =
      search (sends_rules, delete_material-Sends {P = P}, permits.deletes)

  delete_listed-Sends :
      D
      → (previous desired : Binding) (ts : List ClientSslTemplate) (ss : List ServerSslTemplate)
      → Sends P (λ w. w) (delete_listed previous desired ts ss)
  unfolding delete_listed
  delete_listed-Sends d previous desired ts ss =
      search (sends_rules, delete_material-Sends {P = P}, permits.deletes, delete_chain-Sends)

  pub delete_unreferenced-Sends :
      D → (previous desired : Binding) → Sends P (λ w. w) (delete_unreferenced previous desired)
  unfolding delete_unreferenced
  delete_unreferenced-Sends d previous desired =
      search
        (
          sends_rules,
          list_client_ssl_templates-Sends {P = P},
          list_server_ssl_templates-Sends {P = P},
          permits.reads,
          delete_listed-Sends,
        )
        depth 9

  module _ (plan : Plan) (fits : IsPlanFor target names options plan) where
    same_template : plan.target.client_ssl_template ≡ target.client_ssl_template
    same_template = ap (λ (t : Target). t.client_ssl_template) fits.target_eq

    upload_allowed :
        (kind : FileKind) (doc : UploadDocument) (pem : Text)
        → doc.action ≡ UploadAction.import
        → (doc.file ≡ plan.desired.certificate)
          ⊎ (doc.file ≡ plan.desired.key)
          ⊎ (doc.file ≡ plan.desired.chain)
        → P (post_file kind doc pem)
    upload_allowed kind doc pem imports (inl e) =
        permits.files kind doc pem imports (inl (e ∙ fits.certificate_eq))
    upload_allowed kind doc pem imports (inr (inl e)) =
        permits.files kind doc pem imports (inl (e ∙ fits.key_eq))
    upload_allowed kind doc pem imports (inr (inr e)) =
        permits.files kind doc pem imports (inr (e ∙ fits.chain_eq))

    upload_plan_key-Sends :
        (options' : UploadOptions)
        → options'.replace_file ≡ false
        → Sends P (λ w. w) (upload_key plan.desired.key plan.bundle.key.pem options')
    unfolding upload_action
    upload_plan_key-Sends options' e =
        upload_key-Sends _ _ options'
          (upload_allowed _ _ _ (ap (λ b. upload_action b) e) (inr (inl refl)))

    ensure_key-Sends : (files : List Text) → Sends P world_of (ensure_key plan files)
    unfolding ensure_key
    ensure_key-Sends files =
        search (sends_rules, on_world-Sends, set_result-Sends, upload_plan_key-Sends, modify-Sends)

    upload_plan_certificate-Sends :
        Sends P
          (λ w. w)
          (upload_certificate plan.desired.certificate plan.bundle.certificate.pem no_options)
    unfolding upload_action
    upload_plan_certificate-Sends =
        upload_certificate-Sends _ _ no_options (upload_allowed _ _ _ refl (inl refl))

    ensure_certificate-Sends :
        (files : List Text) (infos : List CertificateInfo)
        → Sends P world_of (ensure_certificate plan files infos)
    unfolding ensure_certificate
    ensure_certificate-Sends files infos =
        search (
          sends_rules, on_world-Sends, set_result-Sends, upload_plan_certificate-Sends,
          modify-Sends,
        )

    upload_plan_chain-Sends :
        Sends P (λ w. w) (upload_chain plan.desired.chain (chain_pem plan.bundle.chain) no_options)
    unfolding upload_action
    upload_plan_chain-Sends =
        upload_chain-Sends _ _ no_options (upload_allowed _ _ _ refl (inr (inr refl)))

    ensure_chain-Sends :
        (files : List Text) (infos : List CertificateInfo)
        → Sends P world_of (ensure_chain plan files infos)
    unfolding ensure_chain
    ensure_chain-Sends files infos =
        search
          (sends_rules, on_world-Sends, set_result-Sends, upload_plan_chain-Sends, modify-Sends)
          depth 9

    pub ensure_material-Sends : Sends P world_of (ensure_material plan)
    unfolding ensure_material
    ensure_material-Sends =
        search
          (
            sends_rules,
            on_world-Sends,
            set_result-Sends,
            list_certificate_files-Sends {P = P},
            list_key_files-Sends {P = P},
            list_certificates-Sends {P = P},
            permits.reads,
            ensure_key-Sends,
            ensure_certificate-Sends,
            ensure_chain-Sends,
          )
          depth 12

    require_revision-Sends :
        (expected : Text) (stage : String) → Sends P world_of (require_revision plan expected stage)
    unfolding require_revision
    require_revision-Sends expected stage =
        search (on_world-Sends, require_template_revision-Sends {P = P}, permits.reads)

    settle_binding-Sends :
        (r : Result (Unit {0})) (t : ClientSslTemplate) → Sends P world_of (settle_binding plan r t)
    unfolding settle_binding
    settle_binding-Sends r t = search sends_rules

    read_back-Sends :
        (b : Result (Unit {0})) (r : Result ClientSslTemplate)
        → Sends P world_of (read_back plan b r)
    unfolding read_back
    read_back-Sends b (ok t) = settle_binding-Sends b t
    read_back-Sends b (err e) = search sends_rules

    bind_new-Sends : Sends P world_of (bind_new plan)
    unfolding bind_new
    bind_new-Sends =
        search
          (
            sends_rules,
            on_world-Sends,
            set_result-Sends,
            modify-Sends,
            bind_certificate-Sends {P = P},
            permits.binds,
            same_template,
            get_client_ssl_template-Sends {P = P},
            permits.reads,
            read_back-Sends,
          )
          depth 12

    pub bind_desired-Sends : Sends P world_of (bind_desired plan)
    unfolding bind_desired
    bind_desired-Sends = search (sends_rules, require_revision-Sends, bind_new-Sends)

    remove_found-Sends :
        (current : Binding) (expected : ClientSslTemplate) (implicit : Bool) (o : Option Binding)
        → Sends P world_of (remove_found plan current expected implicit o)
    unfolding remove_found
    remove_found-Sends current expected implicit none = search (sends_rules, set_result-Sends)
    remove_found-Sends current expected implicit (some b) =
        search
          (
            sends_rules,
            on_world-Sends,
            set_result-Sends,
            require_revision-Sends,
            unbind_certificate-Sends {P = P},
            permits.unbinds,
            same_template,
          )
          depth 12

    pub remove_old-Sends :
        (o : Option Binding) (expected : ClientSslTemplate) (implicit : Bool)
        → Sends P world_of (remove_old plan o expected implicit)
    unfolding remove_old
    remove_old-Sends none expected implicit = search sends_rules
    remove_old-Sends (some b) expected implicit = search (sends_rules, remove_found-Sends)

    report_rollback-Sends :
        (e : Error) (r : Result (Unit {0})) → Sends P world_of (report_rollback e r)
    unfolding report_rollback
    report_rollback-Sends e (ok u) = search (sends_rules, set_result-Sends)
    report_rollback-Sends e (err x) = search sends_rules

    module _ (saving : options.no_write_memory ≡ false) where
      after_write-Sends :
          D
          → (expected : ClientSslTemplate) (r : Result (Unit {0}))
          → Sends P world_of (after_write plan expected r)
      unfolding after_write
      after_write-Sends d expected (ok u) = search set_result-Sends
      after_write-Sends d expected (err e) = search (
        sends_rules,
        on_world-Sends,
        rollback_synchronization-Sends permits plan.target same_template d saving,
        report_rollback-Sends,
      )

      save-Sends : Sends P (λ w. w) write_memory
      save-Sends = write_memory-Sends (λ partition. permits.saves partition saving)

      write_running-Sends :
          D → (expected : ClientSslTemplate) → Sends P world_of (write_running plan expected)
      unfolding write_running
      write_running-Sends d expected =
          search
            (sends_rules, on_world-Sends, require_revision-Sends, save-Sends, after_write-Sends)
            depth 9

    -- Memory is written only where the options allow it.
    saving_of :
        (changed : Bool)
        → (changed && not plan.options.no_write_memory) ≡ true
        → options.no_write_memory ≡ false
    saving_of changed h =
        sym (ap (λ (o : SyncOptions). o.no_write_memory) fits.options_eq) ∙ ground arith

    pub persist-Sends :
        D → (expected : ClientSslTemplate) → Sends P world_of (persist plan expected)
    unfolding persist
    persist-Sends d expected =
        search (sends_rules, set_result-Sends, Sends-when, saving_of, write_running-Sends) depth 12

    cleanup_binding-Sends : D → (b : Binding) → Sends P world_of (cleanup_binding plan b)
    unfolding cleanup_binding
    cleanup_binding-Sends d b =
        search
          (
            sends_rules, set_result-Sends, Sends-when, saving_of, on_world-Sends,
            delete_unreferenced-Sends, save-Sends,
          )
          depth 12

    pub cleanup_old-Sends : D → (o : Option Binding) → Sends P world_of (cleanup_old plan o)
    unfolding cleanup_old
    cleanup_old-Sends d none = search sends_rules
    cleanup_old-Sends d (some b) = search (sends_rules, cleanup_binding-Sends)

    pub rotate-Sends : D → Sends P world_of (rotate plan)
    unfolding rotate
    rotate-Sends d =
        search
          (
            sends_rules, set_result-Sends, ensure_material-Sends, bind_desired-Sends,
            remove_old-Sends, persist-Sends, cleanup_old-Sends,
          )
          depth 12
