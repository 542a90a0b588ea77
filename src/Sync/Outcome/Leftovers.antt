-- ===== src/Sync/Outcome/Leftovers.antt =====
-- How a synchronization that fails before it tries to bind reports its files: pkg/a10/sync.go
use Prim.Native.String.{String}
use a10_certctl.Base.{◌≡◌, ◌⊎◌, refl, Bool, true, false, if◌then◌else◌}
use a10_certctl.Text.{Text}
use a10_certctl.Errors.{Error, Result, err, errors_is, ambiguous_state}
use a10_certctl.Exec.{Exec, ◌>>=◌, ◌>>◌, modify, annotate}
use a10_certctl.Exec.Keeps.{Keeps, keeps_rules}
use a10_certctl.Bundle.{CertificateBundle}
use a10_certctl.Axapi.{World, Io}
use a10_certctl.Axapi.Sends.{Sends}
use a10_certctl.Sync.{
  Target, SyncOptions, SyncResult, SyncState, Sync, UploadedMaterial, on_world, set_result,
}
use a10_certctl.Sync.Material.{note_upload, ensure_material}
use a10_certctl.Sync.Rollback.{rollback_uploaded_material}
use a10_certctl.Sync.Run.{prepare, inspect, finish_deferred}
use a10_certctl.Sync.Recorded.{IsNoUpload, uploads, IsRecorded, reads-IsNoUpload, quiet-Keeps}
use a10_certctl.Sync.Permits.Phases.{world_of}

abbrev material_of : SyncState → UploadedMaterial
material_of s = s.uploaded

-- The call up to the point where the files are in place, which comes before the attempt to bind
abbrev pub uploading : Target → CertificateBundle → SyncOptions → Sync (Unit {0})
uploading target bundle options = prepare target bundle options >>= λ names.
    inspect target bundle options names >>= λ plan. ensure_material plan

module _ (w₀ : World) where
  -- The record is complete, and no change of the template has been tried.
  abbrev IsUploading : SyncState → Type 0
  IsUploading s = IsRecorded world_of material_of w₀ s × (s.template_mutated ≡ false)

  on_world-Keeps :
      {A : Type 0} (m : Io A) → Sends IsNoUpload (λ w. w) m → Keeps IsUploading (on_world m)
  unfolding on_world
  on_world-Keeps m h =
      let k =
        quiet-Keeps world_of material_of w₀ (on_world m) (record { at = λ s. h.at s.world })
          (λ s. refl) in
      record { at = λ s i. (k.at s i.0, i.1) }

  set_result-Keeps : (f : SyncResult → SyncResult) → Keeps IsUploading (set_result f)
  unfolding set_result
  set_result-Keeps f = record { at = λ s i. i }

  -- An upload with its note
  abbrev new_file : Io (Unit {0}) → String → (UploadedMaterial → UploadedMaterial) → Sync (Unit {0})
  new_file m message f =
      annotate message (on_world m)
      >> (note_upload >> modify (λ s. record s { uploaded = f s.uploaded }))

  abbrev IsUntried : SyncState → Type 0
  IsUntried s = s.template_mutated ≡ false

  ruleset uploading_rules = (keeps_rules, on_world-Keeps, set_result-Keeps, reads-IsNoUpload)

  -- How a call has ended: with an error and no file taken; with an error and the files rolled back;
  -- or with an ambiguous state.
  abbrev pub IsAccounted : Result (Unit {0}) × SyncState → Type 0
  IsAccounted (r, s) =
      (e : Error) × (r ≡ err e)
      × ((uploads s.world ≡ uploads w₀)
          ⊎ (s.result.rolled_back ≡ true)
          ⊎ (errors_is ambiguous_state e ≡ true))

  -- The deferred function after an error, by whether there is anything to roll back
  abbrev ended : Error → SyncState → Bool → Result (Unit {0}) × SyncState
  ended e s idle =
      if idle
      then (err e, s)
      else (let (r, t) = on_world (rollback_uploaded_material s.uploaded) s in
          finish_deferred e r t)
