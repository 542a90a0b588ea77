-- ===== src/Sync/Footprint.antt =====
-- What a synchronization changes on the appliance, and when it changes nothing.
use a10_certctl.Base.{◌≡◌, refl, sym, ◌∙◌, subst, ap, ◌⊎◌, false, []}
use a10_certctl.Text.{Text}
use a10_certctl.Errors.{Error, Result, err}
use a10_certctl.Exec.{◌>>=◌, bind_assoc, bind-err}
use a10_certctl.Exec.Keeps.{Keeps, keeps_rules}
use a10_certctl.Bundle.{CertificateBundle}
use a10_certctl.Axapi.{
  UploadAction, Request, post_auth, post_active_partition, post_logoff, post_file, post_binding,
  delete_binding, post_delete, post_write_memory, World, Io,
}
use a10_certctl.Axapi.Sends.{Extends, Sends, Sends-bind}
use a10_certctl.Session.Footprint.{IsRead}
use a10_certctl.Sync.{
  Target, SyncOptions, SyncResult, SyncState, Sync, is_empty, nothing_uploaded, on_world,
  set_result,
}
use a10_certctl.Sync.Material.{Plan}
use a10_certctl.Sync.Run.{
  validate_inputs, prepare, inspect, sync_body, deferred, initial_state, sync_certificate, rotate,
}
use a10_certctl.Sync.Permits.{Permits}
use a10_certctl.Sync.Permits.Phases.{world_of}
use a10_certctl.Sync.Permits.Whole.{
  AreManaged, prepare-Sends, inspect-Sends, sync_certificate-Sends,
}

-- The requests of a synchronization of `target`: reads; imports (never replacements) of files with
-- one of the two managed names; bindings and unbindings in the target's template; deletions of
-- certificate and key files; `write memory`.
abbrev pub InFootprint : Target → CertificateBundle → SyncOptions → Request → Type 0
InFootprint target bundle options (post_auth _ _) = ⊥
InFootprint target bundle options (post_active_partition _) = ⊥
InFootprint target bundle options post_logoff = ⊥
InFootprint target bundle options (post_file kind doc pem) =
    (doc.action ≡ UploadAction.import)
    × ((names : Text × Text) × AreManaged target bundle options names
        × ((doc.file ≡ names.0) ⊎ (doc.file ≡ names.1)))
InFootprint target bundle options (post_binding t doc) = t ≡ target.client_ssl_template
InFootprint target bundle options (delete_binding t c) = t ≡ target.client_ssl_template
InFootprint target bundle options (post_delete m) = m.ca ≡ []
InFootprint target bundle options (post_write_memory p) = options.no_write_memory ≡ false
InFootprint target bundle options _ = Unit

reads-InFootprint :
    (target : Target) (bundle : CertificateBundle) (options : SyncOptions) (r : Request)
    → IsRead r
    → InFootprint target bundle options r
reads-InFootprint target bundle options (post_auth _ _) h = cc
reads-InFootprint target bundle options (post_active_partition _) h = cc
reads-InFootprint target bundle options post_logoff h = cc
reads-InFootprint target bundle options (post_file _ _ _) h = cc
reads-InFootprint target bundle options (post_binding _ _) h = cc
reads-InFootprint target bundle options (delete_binding _ _) h = cc
reads-InFootprint target bundle options (post_delete _) h = cc
reads-InFootprint target bundle options (post_write_memory _) h = cc
reads-InFootprint target bundle options _ h = tt

module _ (target : Target) (bundle : CertificateBundle) (options : SyncOptions) where
  footprint-Permits :
      (names : Text × Text)
      → AreManaged target bundle options names
      → Permits (InFootprint target bundle options) (Unit {0}) target names options
  footprint-Permits names managed = record {
    reads = reads-InFootprint target bundle options;
    files = λ kind doc pem imports named. (imports, (names, managed, named));
    binds = λ t doc e. e;
    unbinds = λ t c e. e;
    deletes = λ d m e. e;
    saves = λ p e. e;
  }

  -- Whatever the appliance answers, and however the call ends, it adds to the requests sent before
  -- none but those of the footprint: reads; imports, which never replace a file, of files with a
  -- managed name; bindings and unbindings in the target's template; deletions that spare the CA
  -- store; and `write memory` if the options allow it. It leaves the session's partition as it was.
  pub sync_certificate-InFootprint :
      (w : World)
      → Extends
          (InFootprint target bundle options)
          w
          (sync_certificate target bundle options w).1.world
  sync_certificate-InFootprint =
      sync_certificate-Sends target bundle options (reads-InFootprint target bundle options)
        (λ m e. e) footprint-Permits

-- Nothing has been uploaded and no change of the template has been tried.
abbrev pub IsUntouched : SyncState → Type 0
IsUntouched s = (s.uploaded ≡ nothing_uploaded) × (s.template_mutated ≡ false)

on_world-IsUntouched : {A : Type 0} (m : Io A) → Keeps IsUntouched (on_world m)
unfolding on_world
on_world-IsUntouched m = record { at = λ s h. h }

set_result-IsUntouched : (f : SyncResult → SyncResult) → Keeps IsUntouched (set_result f)
unfolding set_result
set_result-IsUntouched f = record { at = λ s h. h }

module _ (target : Target) (bundle : CertificateBundle) (options : SyncOptions) where
  validate_inputs-IsUntouched : Keeps IsUntouched (validate_inputs target bundle)
  unfolding validate_inputs
  validate_inputs-IsUntouched = search keeps_rules

  prepare-IsUntouched : Keeps IsUntouched (prepare target bundle options)
  unfolding prepare
  prepare-IsUntouched =
      search
        (keeps_rules, on_world-IsUntouched, set_result-IsUntouched, validate_inputs-IsUntouched)
        depth 12

  inspect-IsUntouched :
      (names : Text × Text) → Keeps IsUntouched (inspect target bundle options names)
  unfolding inspect
  inspect-IsUntouched names =
      search (keeps_rules, on_world-IsUntouched, set_result-IsUntouched) depth 12

  -- Everything before the first upload: validation, the version, the names, the template, the
  -- expected revision and the choice of the current binding.
  abbrev pub inspection : Sync Plan
  inspection = prepare target bundle options >>= inspect target bundle options

  inspection-IsUntouched : Keeps IsUntouched inspection
  inspection-IsUntouched = search (keeps_rules, prepare-IsUntouched, inspect-IsUntouched)

  inspection-Sends : Sends IsRead world_of inspection
  inspection-Sends =
      Sends-bind _ _ (prepare-Sends target bundle options (λ r h. h))
        (inspect-Sends target bundle options (λ r h. h))

  -- With nothing uploaded the deferred function does nothing.
  deferred-IsUntouched :
      (e : Error) (s : SyncState) → IsUntouched s → deferred (err e) s ≡ (err e, s)
  unfolding deferred is_empty
  deferred-IsUntouched e s h = rw (h.0)

  failed_sync_body :
      (s : SyncState) (e : Error)
      → (inspection s).0 ≡ err e
      → sync_body target bundle options s ≡ (err e, (inspection s).1)
  unfolding sync_body
  failed_sync_body s e h =
      bind_assoc (prepare target bundle options) (inspect target bundle options) rotate s
      ∙ bind-err inspection rotate s e h

  -- Where the inspection fails (an invalid bundle or target, an unsupported version, unusable
  -- names, an unreadable template, an unexpected revision, an unknown or ambiguous slot), the call
  -- returns that error and has sent nothing but reads.
  pub failed_inspection_reads :
      (w : World) (e : Error)
      → (inspection (initial_state w)).0 ≡ err e
      → ((sync_certificate target bundle options w).0 ≡ err e)
        × Extends IsRead w (sync_certificate target bundle options w).1.world
  unfolding sync_certificate initial_state
  failed_inspection_reads w e h =
      let s = initial_state w in
      let same =
        ap (λ (x : Result (Unit {0}) × SyncState). deferred x.0 x.1) (failed_sync_body s e h)
        ∙ deferred-IsUntouched e (inspection s).1 (inspection-IsUntouched.at s (refl, refl)) in
      (
        ap (λ (x : Result (Unit {0}) × SyncState). x.0) same,
        subst (λ (x : Result (Unit {0}) × SyncState). Extends IsRead w x.1.world) (sym same)
            (inspection-Sends.at s),
      )
