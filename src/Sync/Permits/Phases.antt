-- ===== src/Sync/Permits/Phases.antt =====
-- What each phase of a rotation may send.
use a10_certctl.Base.{◌≡◌, false, [], Option, none, some}
use a10_certctl.Text.{Text}
use a10_certctl.Exec.{modify}
use a10_certctl.Platform.{Platform}
use a10_certctl.Template.{Binding, ClientSslTemplate}
use a10_certctl.Session.Footprint.{IsRead}
use a10_certctl.Axapi.{post_delete, Request, MaterialNames, World, Io}
use a10_certctl.Axapi.Sends.{Sends, Extends-refl, Sends-modify, sends_rules}
use a10_certctl.Session.Footprint.{
  list_certificate_files-Sends, list_key_files-Sends, get_client_ssl_template-Sends,
  bind_certificate-Sends, unbind_certificate-Sends, delete_material-Sends, write_memory-Sends,
}
use a10_certctl.Sync.{
  Target, SyncOptions, SyncResult, SyncState, UploadedMaterial, on_world, set_result,
}
use a10_certctl.Sync.Rollback.{
  delete_uploaded, verify_absent, rollback_uploaded_material, restore_previous, remove_found,
  remove_desired, restore_template, rollback_synchronization,
}
use a10_certctl.Sync.Permits.{Permits}

abbrev pub world_of : SyncState → World
world_of s = s.world

module _ {P : Request → Type 0} where
  pub on_world-Sends : {A : Type 0} (m : Io A) → Sends P (λ w. w) m → Sends P world_of (on_world m)
  unfolding on_world
  on_world-Sends m h = record { at = λ s. h.at s.world }

  pub set_result-Sends : (f : SyncResult → SyncResult) → Sends P world_of (set_result f)
  unfolding set_result
  set_result-Sends f = record { at = λ s. Extends-refl P s.world }

  pub modify-Sends :
      (f : SyncState → SyncState)
      → ((s : SyncState) → (f s).world ≡ s.world)
      → Sends P world_of (modify f)
  modify-Sends f h = Sends-modify f h

module _ {P : Request → Type 0} (reads : (r : Request) → IsRead r → P r)
    (deletes : (m : MaterialNames) → m.ca ≡ [] → P (post_delete m)) where
  -- The roll-back of uploads needs no more than reading and deleting.
  pub delete_uploaded-Sends : (m : UploadedMaterial) → Sends P (λ w. w) (delete_uploaded m)
  unfolding delete_uploaded
  delete_uploaded-Sends m = search (sends_rules, delete_material-Sends {P = P}, deletes)

  pub verify_absent-Sends : (m : UploadedMaterial) → Sends P (λ w. w) (verify_absent m)
  unfolding verify_absent
  verify_absent-Sends m =
      search
        (sends_rules, list_certificate_files-Sends {P = P}, list_key_files-Sends {P = P}, reads)

  pub rollback_uploaded_material-Sends :
      (m : UploadedMaterial) → Sends P (λ w. w) (rollback_uploaded_material m)
  unfolding rollback_uploaded_material
  rollback_uploaded_material-Sends m =
      search (sends_rules, delete_uploaded-Sends, verify_absent-Sends)

module _ {P : Request → Type 0} {D : Type 0} {target : Target} {names : Text × Text}
    {options : SyncOptions} (permits : Permits P D target names options) where
  module _ (t : Target) (same : t.client_ssl_template ≡ target.client_ssl_template) where
    restore_previous-Sends :
        (o : Option Binding) (current : ClientSslTemplate)
        → Sends P (λ w. w) (restore_previous t o current)
    unfolding restore_previous
    restore_previous-Sends none current = search sends_rules
    restore_previous-Sends (some b) current = search (
      sends_rules,
      bind_certificate-Sends {P = P},
      permits.binds,
      get_client_ssl_template-Sends {P = P},
      permits.reads,
    )

    remove_found-Sends :
        (desired : Binding) (o : Option Binding) → Sends P (λ w. w) (remove_found t desired o)
    unfolding remove_found
    remove_found-Sends desired none = search sends_rules
    remove_found-Sends desired (some b) =
        search (sends_rules, unbind_certificate-Sends {P = P}, permits.unbinds)

    restore_template-Sends :
        (baseline : ClientSslTemplate) (desired : Binding) (current : ClientSslTemplate)
        (o : Option Binding)
        → Sends P (λ w. w) (restore_template t baseline desired current o)
    unfolding restore_template remove_desired
    restore_template-Sends baseline desired current none =
        search (sends_rules, restore_previous-Sends, remove_found-Sends)
    restore_template-Sends baseline desired current (some b) = search sends_rules

    pub rollback_synchronization-Sends :
        D
        → options.no_write_memory ≡ false
        → (p : Platform) (baseline expected : ClientSslTemplate) (desired : Binding)
          (m : UploadedMaterial)
        → Sends P (λ w. w) (rollback_synchronization p t baseline expected desired m)
    unfolding rollback_synchronization
    rollback_synchronization-Sends d saving p baseline expected desired m =
        search
          (
            sends_rules,
            get_client_ssl_template-Sends {P = P},
            permits.reads,
            restore_template-Sends,
            rollback_uploaded_material-Sends {P = P},
            permits.deletes d,
            write_memory-Sends {P = P},
            permits.saves,
          )
          depth 12
