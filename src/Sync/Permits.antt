-- ===== src/Sync/Permits.antt =====
-- Which requests a rotation may send. `Permits P D …` says of a predicate that it admits what the
-- code may send, deletions under the condition `D`; `sync_certificate-Sends` that the code sends nothing else.
pub mod Phases
pub mod Rotation
pub mod Whole
use a10_certctl.Base.{◌≡◌, ◌⊎◌, true, false, []}
use a10_certctl.Text.{Text}
use a10_certctl.Template.{Binding}
use a10_certctl.Axapi.{
  FileKind, UploadDocument, UploadAction, BindingDocument, MaterialNames, Request, post_file,
  post_binding, delete_binding, post_delete, post_write_memory,
}
use a10_certctl.Session.Footprint.{IsRead}
use a10_certctl.Sync.{Target, SyncOptions}
use a10_certctl.Sync.Material.{Plan}

pub record Permits (P : Request → Type 0) (D : Type 0) (target : Target) (names : Text × Text)
    (options : SyncOptions) : Type 0 where
  pub reads : (r : Request) → IsRead r → P r
  pub files :
      (kind : FileKind) (doc : UploadDocument) (pem : Text)
      → doc.action ≡ UploadAction.import
      → (doc.file ≡ names.0) ⊎ (doc.file ≡ names.1)
      → P (post_file kind doc pem)
  pub binds :
      (t : Text) (doc : BindingDocument) → t ≡ target.client_ssl_template → P (post_binding t doc)
  pub unbinds :
      (t certificate : Text) → t ≡ target.client_ssl_template → P (delete_binding t certificate)
  pub deletes : D → (m : MaterialNames) → m.ca ≡ [] → P (post_delete m)
  pub saves : (partition : Text) → options.no_write_memory ≡ false → P (post_write_memory partition)

-- A plan for this target, these names and these options.
pub record IsPlanFor (target : Target) (names : Text × Text) (options : SyncOptions) (plan : Plan)
    : Type 0 where
  pub target_eq : plan.target ≡ target
  pub options_eq : plan.options ≡ options
  pub certificate_eq : plan.desired.certificate ≡ names.0
  pub key_eq : plan.desired.key ≡ names.0
  pub chain_eq : plan.desired.chain ≡ names.1
