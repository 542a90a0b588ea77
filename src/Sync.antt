-- ===== src/Sync.antt =====
-- The certificate rotation of pkg/a10/sync.go: its types, and the state that a call carries.
pub mod Select
pub mod Rollback
pub mod Material
pub mod Rotate
pub mod Cleanup
pub mod Run
pub mod Create
pub mod Recorded
pub mod Permits
pub mod Footprint
pub mod Outcome
pub mod Order
use Prim.Native.String.{String}
use a10_certctl.Base.{Bool, true, false, ◌&&◌, List, [], Option, none, is_nil}
use a10_certctl.Text.{Text}
use a10_certctl.Errors.{ok}
use a10_certctl.Exec.{Exec}
use a10_certctl.Template.{Binding}
use a10_certctl.Axapi.{World, Io}

-- `CertificateTarget`
pub record Target : Type 0 where
  pub client_ssl_template : Text
  pub current_certificate : Text

-- `ForClientSSLTemplate`, `ForCertificateBinding`
unfoldable pub for_client_ssl_template : Text → Target
for_client_ssl_template name = record { client_ssl_template = name; current_certificate = [] }

unfoldable pub for_certificate_binding : Text → Text → Target
for_certificate_binding template current = record {
  client_ssl_template = template;
  current_certificate = current;
}

-- `SyncOptions`
pub record SyncOptions : Type 0 where
  pub name_prefix : Text
  pub expected_revision : Text
  pub exportable_key : Bool
  pub cleanup_old : Bool
  pub no_write_memory : Bool
  pub shared : Bool

-- `SyncStage`
pub data Stage : Type 0 where
  started compatibility_verified state_inspected material_ready bound : Stage
  old_binding_removed cleanup_complete persisted rolled_back complete : Stage

-- `ManagedCertificate`, less its target
pub record ManagedCertificate : Type 0 where
  pub name : Text
  pub chain_name : Text
  pub certificate_checksum : Text
  pub key_checksum : Text
  pub bundle_checksum : Text

abbrev pub no_certificate : ManagedCertificate
no_certificate = record {
  name = [];
  chain_name = [];
  certificate_checksum = [];
  key_checksum = [];
  bundle_checksum = [];
}

-- An entry of `DeletedOld`: "certificate:", "key:" or "chain:" before the name
pub data Deleted : Type 0 where
  certificate key chain : Text → Deleted

-- `SyncResult`
pub record SyncResult : Type 0 where
  pub stage : Stage
  pub changed : Bool
  pub uploaded : Bool
  pub bound : Bool
  pub unbound_old : Bool
  pub deleted_old : List Deleted
  pub wrote_memory : Bool
  pub rolled_back : Bool
  pub previous_binding : Option Binding
  pub certificate : ManagedCertificate
  pub initial_revision : Text
  pub final_revision : Text

-- `SyncResult{Stage: SyncStageStarted}`
abbrev pub initial_result : SyncResult
initial_result = record {
  stage = started;
  changed = false;
  uploaded = false;
  bound = false;
  unbound_old = false;
  deleted_old = [];
  wrote_memory = false;
  rolled_back = false;
  previous_binding = none;
  certificate = no_certificate;
  initial_revision = [];
  final_revision = [];
}

-- `uploadedMaterial`: the files that this call has uploaded
pub record UploadedMaterial : Type 0 where
  pub certificate : Text
  pub key : Text
  pub chain : Text

abbrev pub nothing_uploaded : UploadedMaterial
nothing_uploaded = record { certificate = []; key = []; chain = [] }

-- `uploadedMaterial.empty`
unfoldable pub is_empty : UploadedMaterial → Bool
is_empty m = is_nil m.certificate && is_nil m.key && is_nil m.chain

-- What a call of `SyncCertificate` holds: the named results and the variables that its deferred
-- function reads.
pub record SyncState : Type 0 where
  pub world : World
  pub result : SyncResult
  pub uploaded : UploadedMaterial
  pub template_mutated : Bool

abbrev pub Sync : Type 0 → Type 0
Sync A = Exec SyncState A

-- A call of the session.
unfoldable pub on_world : {A : Type 0} → Io A → Sync A
on_world m s = let (r, w) = m s.world in (r, record s { world = w })

-- An assignment to fields of `result`.
unfoldable pub set_result : (SyncResult → SyncResult) → Sync (Unit {0})
set_result f s = (ok tt, record s { result = f s.result })
