-- ===== src/Sync/Create/Footprint.antt =====
-- What the pre-staging of a certificate changes on the appliance: `CreateManagedCertificate` of
-- pkg/a10/sync.go
use a10_certctl.Base.{◌≡◌, refl, Bool, true, false, List, [], if◌then◌else◌}
use a10_certctl.Text.{Text}
use a10_certctl.Errors.{Error, Result, ok, err}
use a10_certctl.Exec.{modify}
use a10_certctl.Axapi.{
  FileKind, UploadDocument, UploadAction, MaterialNames, Request, post_auth, post_active_partition,
  post_logoff, post_file, post_binding, delete_binding, post_delete, post_write_memory, World, Io,
}
use a10_certctl.Axapi.Sends.{Extends, Extends-refl, Extends-trans, Sends, Sends-modify, sends_rules}
use a10_certctl.Bundle.{CertificateBundle}
use a10_certctl.Session.{
  CertificateInfo, no_options, upload_action, upload_key, upload_certificate, upload_chain,
}
use a10_certctl.Session.Footprint.{
  IsRead, list_certificates-Sends, list_certificate_files-Sends, list_key_files-Sends,
  verify_compatibility-Sends, upload_key-Sends, upload_certificate-Sends, upload_chain-Sends,
  write_memory-Sends,
}
use a10_certctl.Sync.{UploadedMaterial, is_empty}
use a10_certctl.Sync.Permits.Phases.{rollback_uploaded_material-Sends}
use a10_certctl.Sync.Create.{
  CreateOptions, CreateResult, CreateState, in_world, set_create, note_created, create_key,
  create_certificate, create_chain, persist_created, prepare_create, create_body, clean_created,
  finish_create, deferred_create, initial_create, create_managed_certificate,
}

-- The requests of a pre-staging: reads, imports, deletions outside the CA store and `write memory`.
abbrev pub IsStaging : Request → Type 0
IsStaging (post_auth _ _) = ⊥
IsStaging (post_active_partition _) = ⊥
IsStaging post_logoff = ⊥
IsStaging (post_file kind doc pem) = doc.action ≡ UploadAction.import
IsStaging (post_binding _ _) = ⊥
IsStaging (delete_binding _ _) = ⊥
IsStaging (post_delete m) = m.ca ≡ []
IsStaging _ = Unit

reads-IsStaging : (r : Request) → IsRead r → IsStaging r
reads-IsStaging (post_auth _ _) h = cc
reads-IsStaging (post_active_partition _) h = cc
reads-IsStaging post_logoff h = cc
reads-IsStaging (post_file _ _ _) h = cc
reads-IsStaging (post_binding _ _) h = cc
reads-IsStaging (delete_binding _ _) h = cc
reads-IsStaging (post_delete _) h = cc
reads-IsStaging _ h = tt

abbrev created_world : CreateState → World
created_world s = s.world

module _ {P : Request → Type 0} (reads : (r : Request) → IsRead r → P r)
    (files : (kind : FileKind) (doc : UploadDocument) (pem : Text)
      → doc.action ≡ UploadAction.import
      → P (post_file kind doc pem))
    (deletes : (m : MaterialNames) → m.ca ≡ [] → P (post_delete m))
    (saves : (partition : Text) → P (post_write_memory partition)) where
  in_world-Sends : {A : Type 0} (m : Io A) → Sends P (λ w. w) m → Sends P created_world (in_world m)
  unfolding in_world
  in_world-Sends m h = record { at = λ s. h.at s.world }

  set_create-Sends : (f : CreateResult → CreateResult) → Sends P created_world (set_create f)
  unfolding set_create
  set_create-Sends f = record { at = λ s. Extends-refl P s.world }

  note_created-Sends :
      (f : UploadedMaterial → UploadedMaterial) → Sends P created_world (note_created f)
  unfolding note_created
  note_created-Sends f = record { at = λ s. Extends-refl P s.world }

  new_key-Sends :
      (name pem : Text) (exportable : Bool)
      → Sends P
          (λ w. w)
          (upload_key name pem (record { replace_file = false; exportable_key = exportable }))
  unfolding upload_action
  new_key-Sends name pem exportable = upload_key-Sends name pem _ (files _ _ _ refl)

  new_certificate-Sends :
      (name pem : Text) → Sends P (λ w. w) (upload_certificate name pem no_options)
  unfolding upload_action
  new_certificate-Sends name pem = upload_certificate-Sends name pem no_options (files _ _ _ refl)

  new_chain-Sends : (name pem : Text) → Sends P (λ w. w) (upload_chain name pem no_options)
  unfolding upload_action
  new_chain-Sends name pem = upload_chain-Sends name pem no_options (files _ _ _ refl)

  create_key-Sends :
      (name : Text) (b : CertificateBundle) (o : CreateOptions) (names : List Text)
      → Sends P created_world (create_key name b o names)
  unfolding create_key
  create_key-Sends name b o names =
      search (sends_rules, in_world-Sends, note_created-Sends, new_key-Sends) depth 10

  create_certificate-Sends :
      (name : Text) (b : CertificateBundle) (names : List Text) (infos : List CertificateInfo)
      → Sends P created_world (create_certificate name b names infos)
  unfolding create_certificate
  create_certificate-Sends name b names infos =
      search (sends_rules, in_world-Sends, note_created-Sends, new_certificate-Sends) depth 10

  create_chain-Sends :
      (name : Text) (b : CertificateBundle) (names : List Text) (infos : List CertificateInfo)
      → Sends P created_world (create_chain name b names infos)
  unfolding create_chain
  create_chain-Sends name b names infos =
      search (sends_rules, in_world-Sends, note_created-Sends, new_chain-Sends) depth 10

  modify-Sends :
      (f : CreateState → CreateState)
      → ((s : CreateState) → (f s).world ≡ s.world)
      → Sends P created_world (modify f)
  modify-Sends f h = Sends-modify f h

  persist_created-Sends : (o : CreateOptions) → Sends P created_world (persist_created o)
  unfolding persist_created
  persist_created-Sends o =
      search
        (
          sends_rules,
          in_world-Sends,
          set_create-Sends,
          modify-Sends,
          write_memory-Sends {P = P},
          saves,
        )
        depth 14

  prepare_create-Sends :
      (b : CertificateBundle) (o : CreateOptions) → Sends P created_world (prepare_create b o)
  unfolding prepare_create
  prepare_create-Sends b o =
      search
        (sends_rules, in_world-Sends, set_create-Sends, verify_compatibility-Sends {P = P}, reads)
        depth 14

  create_body-Sends :
      (b : CertificateBundle) (o : CreateOptions) → Sends P created_world (create_body b o)
  unfolding create_body
  create_body-Sends b o =
      search
        (
          sends_rules,
          in_world-Sends,
          set_create-Sends,
          prepare_create-Sends,
          list_certificate_files-Sends {P = P},
          list_key_files-Sends {P = P},
          list_certificates-Sends {P = P},
          reads,
          create_key-Sends,
          create_certificate-Sends,
          create_chain-Sends,
          persist_created-Sends,
        )
        depth 16

  clean_created-Sends :
      (m : UploadedMaterial) (attempted : Bool) → Sends P (λ w. w) (clean_created m attempted)
  unfolding clean_created
  clean_created-Sends m attempted =
      search
        (
          sends_rules,
          rollback_uploaded_material-Sends reads deletes,
          write_memory-Sends {P = P},
          saves,
        )
        depth 10

  finished-Extends :
      (e f : Error) (r : Result (Unit {0})) (s : CreateState)
      → Extends P s.world (finish_create e r s).1.world
  unfolding finish_create
  finished-Extends e f (ok u) s = Extends-refl P s.world
  finished-Extends e f (err x) s = Extends-refl P s.world

  by_material :
      (empty : Bool) (r : Result (Unit {0})) (s : CreateState) (x : Result (Unit {0}) × CreateState)
      → Extends P s.world x.1.world
      → Extends P s.world (if empty then (r, s) else x).1.world
  by_material true r s x h = Extends-refl P s.world
  by_material false r s x h = h

  deferred_create-Extends :
      (r : Result (Unit {0})) (s : CreateState) → Extends P s.world (deferred_create r s).1.world
  unfolding deferred_create
  deferred_create-Extends (ok u) s = Extends-refl P s.world
  deferred_create-Extends (err e) s = by_material (is_empty s.material) (err e) s _ (
      Extends-trans
        ((in_world-Sends _ (clean_created-Sends s.material s.persistence_attempted)).at s)
        (finished-Extends e e _ _))

-- However the pre-staging of a certificate ends, it adds to the requests sent before only reads,
-- imports (which never replace a file), deletions that spare the CA store and `write memory`: no
-- template is changed.
pub create-IsStaging :
    (bundle : CertificateBundle) (options : CreateOptions) (w : World)
    → Extends IsStaging w (create_managed_certificate bundle options w).1.world
unfolding create_managed_certificate initial_create
create-IsStaging bundle options w =
    let s = initial_create w in
    let (r, t) = create_body bundle options s in
    Extends-trans
      ((create_body-Sends reads-IsStaging (λ k d p e. e) (λ m e. e) (λ p. tt) bundle options).at s)
      (deferred_create-Extends reads-IsStaging (λ k d p e. e) (λ m e. e) (λ p. tt) r t)
