-- ===== src/Sync/Create/Leftovers.antt =====
-- How a pre-staging that fails reports the files that it leaves behind: pkg/a10/sync.go
use a10_certctl.Base.{refl, Bool, true, if◌then◌else◌}
use a10_certctl.Text.{Text}
use a10_certctl.Errors.{Error, Result, err}
use a10_certctl.Exec.{◌>>=◌, modify}
use a10_certctl.Exec.Keeps.{Keeps, keeps_rules}
use a10_certctl.Axapi.{World, Io}
use a10_certctl.Axapi.Sends.{Sends}
use a10_certctl.Sync.{UploadedMaterial}
use a10_certctl.Sync.Recorded.{IsNoUpload, IsRecorded, quiet-Keeps}
use a10_certctl.Sync.Create.{
  CreateResult, CreateState, in_world, set_create, clean_created, finish_create,
}

abbrev created_world : CreateState → World
created_world s = s.world

abbrev created_material : CreateState → UploadedMaterial
created_material s = s.material

module _ (w₀ : World) where
  abbrev Recorded : CreateState → Type 0
  Recorded = IsRecorded created_world created_material w₀

  in_world-Keeps :
      {A : Type 0} (m : Io A) → Sends IsNoUpload (λ w. w) m → Keeps Recorded (in_world m)
  unfolding in_world
  in_world-Keeps m h =
      quiet-Keeps created_world created_material w₀ _ (record { at = λ s. h.at s.world })
        (λ s. refl)

  set_create-Keeps : (f : CreateResult → CreateResult) → Keeps Recorded (set_create f)
  unfolding set_create
  set_create-Keeps f = record { at = λ s i. i }

  attempted-Keeps : Keeps Recorded (modify (λ s. record s { persistence_attempted = true }))
  unfolding modify
  attempted-Keeps = record { at = λ s i. i }

  ruleset recorded_rules = (keeps_rules, in_world-Keeps, set_create-Keeps, attempted-Keeps)

  -- The deferred function after an error, by whether the record is empty
  abbrev ended : Error → CreateState → Bool → Result (Unit {0}) × CreateState
  ended e s empty =
      if empty
      then (err e, s)
      else (let (r, t) = in_world (clean_created s.material s.persistence_attempted) s in
          finish_create e r t)
