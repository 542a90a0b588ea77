-- ===== src/Sync/Create.antt =====
-- `CreateManagedCertificate` of pkg/a10/sync.go: material without a binding.
pub mod Footprint
pub mod Leftovers
use a10_certctl.Base.{Bool, true, false, not, ◌&&◌, List, is_nil, if◌then◌else◌}
use a10_certctl.Text.{Text}
use a10_certctl.Errors.{Error, rollback_failed, Result, ok, err}
use a10_certctl.Exec.{Exec, ◌>>=◌, ◌>>◌, pure, lift, gets, modify, when, annotate}
use a10_certctl.Bundle.{CertificateBundle, chain_pem, validate_for_sync}
use a10_certctl.Names.Managed.{managed_names_for_prefix}
use a10_certctl.Template.{contains}
use a10_certctl.Axapi.{World, Io}
use a10_certctl.Session.{
  CertificateInfo, list_certificate_files, list_key_files, list_certificates, no_options,
  upload_key, upload_certificate, upload_chain, write_memory,
}
use a10_certctl.Compatibility.{verify_compatibility}
use a10_certctl.Sync.{
  Stage, started, compatibility_verified, material_ready, persisted, rolled_back, complete,
  ManagedCertificate, no_certificate, UploadedMaterial, nothing_uploaded, is_empty,
}
use a10_certctl.Sync.Select.{verify_collision}
use a10_certctl.Sync.Material.{verify_chain_collision}
use a10_certctl.Sync.Rollback.{rollback_uploaded_material}

-- `CreateOptions`
pub record CreateOptions : Type 0 where
  pub name_prefix : Text
  pub exportable_key : Bool
  pub no_write_memory : Bool

-- `CreateResult`
pub record CreateResult : Type 0 where
  pub stage : Stage
  pub changed : Bool
  pub uploaded : Bool
  pub wrote_memory : Bool
  pub rolled_back : Bool
  pub certificate : ManagedCertificate

-- The named results and the variables that the deferred function reads.
pub record CreateState : Type 0 where
  pub world : World
  pub result : CreateResult
  pub material : UploadedMaterial
  pub persistence_attempted : Bool

abbrev pub Create : Type 0 → Type 0
Create A = Exec CreateState A

unfoldable pub in_world : {A : Type 0} → Io A → Create A
in_world m s = let (r, w) = m s.world in (r, record s { world = w })

unfoldable pub set_create : (CreateResult → CreateResult) → Create (Unit {0})
set_create f s = (ok tt, record s { result = f s.result })

unfoldable pub note_created : (UploadedMaterial → UploadedMaterial) → Create (Unit {0})
note_created f s = (
  ok tt,
  record s {
    result = record s.result { uploaded = true; changed = true };
    material = f s.material;
  },
)

unfoldable pub create_key : Text → CertificateBundle → CreateOptions → List Text → Create (Unit {0})
unfolding note_created
create_key name bundle options key_files = if contains key_files name then pure tt else (do
  annotate "upload A10 private key" (
      in_world (
        upload_key name bundle.key.pem
          (record { replace_file = false; exportable_key = options.exportable_key })))
  note_created (λ m. record m { key = name }))

unfoldable pub create_certificate :
    Text → CertificateBundle → List Text → List CertificateInfo → Create (Unit {0})
unfolding note_created
create_certificate name bundle files certificates =
    if contains files name
    then lift (verify_collision certificates name bundle.certificate)
    else (do
      annotate "upload A10 certificate"
          (in_world (upload_certificate name bundle.certificate.pem no_options))
      note_created (λ m. record m { certificate = name }))

unfoldable pub create_chain :
    Text → CertificateBundle → List Text → List CertificateInfo → Create (Unit {0})
unfolding note_created
create_chain name bundle files certificates =
    if is_nil name
    then pure tt
    else if contains files name
    then lift (verify_chain_collision certificates name bundle.chain)
    else (do
      annotate "upload A10 certificate chain"
          (in_world (upload_chain name (chain_pem bundle.chain) no_options))
      note_created (λ m. record m { chain = name }))

unfoldable pub persist_created : CreateOptions → Create (Unit {0})
persist_created options = do
  changed ← gets (λ (s : CreateState). s.result.changed)
  when (changed && not options.no_write_memory) (do
    modify (λ s. record s { persistence_attempted = true })
    annotate "persist A10 pre-staged certificate material" (in_world write_memory)
    set_create (λ r. record r { wrote_memory = true; stage = persisted }))

-- The checks before the first request that matters: the names of the files.
unfoldable pub prepare_create : CertificateBundle → CreateOptions → Create (Text × Text)
prepare_create bundle options = do
  world ← gets (λ (s : CreateState). s.world)
  lift (validate_for_sync world.environment.platform bundle (world.environment.clock world.sent))
  in_world verify_compatibility
  set_create (λ r. record r { stage = compatibility_verified })
  names ←
      lift
        (managed_names_for_prefix bundle.checksum (not (is_nil bundle.chain)) options.name_prefix)
  set_create (λ r. record r {
    certificate = record {
      name = names.0;
      chain_name = names.1;
      certificate_checksum = bundle.certificate.checksum;
      key_checksum = bundle.key.checksum;
      bundle_checksum = bundle.checksum;
    };
  })
  pure names

unfoldable pub create_body : CertificateBundle → CreateOptions → Create (Unit {0})
unfolding prepare_create create_key create_certificate create_chain persist_created
create_body bundle options = do
  names ← prepare_create bundle options
  files ← in_world list_certificate_files
  key_files ← in_world list_key_files
  certificates ← in_world list_certificates
  create_key names.0 bundle options key_files
  create_certificate names.0 bundle files certificates
  create_chain names.1 bundle files certificates
  set_create (λ r. record r { stage = material_ready })
  persist_created options
  set_create (λ r. record r { stage = complete })

abbrev pub create_failed : Error → Error → Error
create_failed = rollback_failed "create managed certificate"

-- The deferred function's cleanup: the files first, then memory if it may have been written.
unfoldable pub clean_created : UploadedMaterial → Bool → Io (Unit {0})
clean_created material attempted = do
  rollback_uploaded_material material
  when attempted (annotate "persist cleaned state" write_memory)

unfoldable pub finish_create : Error → Result (Unit {0}) → Create (Unit {0})
finish_create cause (err e) s = (err (create_failed cause e), s)
finish_create cause (ok _) s =
    (err cause, record s { result = record s.result { rolled_back = true; stage = rolled_back } })

unfoldable pub deferred_create : Result (Unit {0}) → Create (Unit {0})
unfolding clean_created finish_create
deferred_create (ok _) s = (ok tt, s)
deferred_create (err e) s =
    if is_empty s.material
    then (err e, s)
    else (let (r, s') = in_world (clean_created s.material s.persistence_attempted) s in
        finish_create e r s')

unfoldable pub initial_create : World → CreateState
initial_create world = record {
  world = world;
  result = record {
    stage = started;
    changed = false;
    uploaded = false;
    wrote_memory = false;
    rolled_back = false;
    certificate = no_certificate;
  };
  material = nothing_uploaded;
  persistence_attempted = false;
}

unfoldable pub create_managed_certificate :
    CertificateBundle → CreateOptions → World → Result (Unit {0}) × CreateState
unfolding create_body deferred_create initial_create
create_managed_certificate bundle options world =
    let (r, s) = create_body bundle options (initial_create world) in deferred_create r s
