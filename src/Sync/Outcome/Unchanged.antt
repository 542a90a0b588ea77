-- ===== src/Sync/Outcome/Unchanged.antt =====
-- A synchronization that succeeds and reports no change has sent nothing but reads.
use Prim.Native.String.{String}
use a10_certctl.Base.{
  ◌≡◌, ◌≢◌, refl, sym, ap, ◌∙◌, Bool, true, false, not, ◌&&◌, List, Option, none, some, arith,
  Bool-cases, inl, inr,
}
use a10_certctl.Text.{Text, ◌==◌}
use a10_certctl.Errors.{Error, Result, ok, err}
use a10_certctl.Exec.{◌>>=◌, ◌>>◌, pure, modify, gets, when}
use a10_certctl.Exec.Keeps.{Keeps, Keeps-bind, Keeps-pure, Keeps-if, keeps_rules}
use a10_certctl.Exec.Leads.{
  Succeeded, Succeeded-all, Leads, Ensures, Ensures-raise, Ensures-if, Ensures-last, Ensures-first,
  Leads-pure, Leads-lift, Leads-gets, Leads-raise, Leads-annotate, Leads-if, Leads-bind,
}
use a10_certctl.Bundle.{CertificateBundle}
use a10_certctl.Template.{Binding, ClientSslTemplate}
use a10_certctl.Axapi.{Request, World, Io}
use a10_certctl.Axapi.Sends.{Extends, Extends-refl, Extends-trans, Sends}
use a10_certctl.Session.{CertificateInfo}
use a10_certctl.Session.Footprint.{
  IsRead, list_certificates-Sends, list_certificate_files-Sends, list_key_files-Sends,
  require_template_revision-Sends, verify_compatibility-Sends, get_client_ssl_template-Sends,
}
use a10_certctl.Sync.Run.{
  prepare, inspect, validate_inputs, rotate, sync_body, finish_deferred, deferred, initial_state,
  sync_certificate,
}
use a10_certctl.Sync.{
  Target, SyncOptions, complete, SyncResult, SyncState, Sync, on_world, set_result,
}
use a10_certctl.Sync.Material.{
  Plan, note_upload, ensure_key, ensure_certificate, ensure_chain, ensure_material,
}
use a10_certctl.Sync.Cleanup.{cleanup_old, cleanup_binding}
use a10_certctl.Sync.Rotate.{
  require_revision, note_bound, bind_new, bind_desired, note_unbound, remove_found, remove_old,
  report_rollback, after_write, write_running, persist,
}

-- If nothing is reported as changed afterwards, nothing was before, and only reads were sent.
abbrev pub IsQuiet : SyncState → SyncState → Type 0
IsQuiet s t = t.result.changed ≡ false → (s.result.changed ≡ false) × Extends IsRead s.world t.world

IsQuiet-refl : (s : SyncState) → IsQuiet s s
IsQuiet-refl s h = (h, Extends-refl IsRead s.world)

IsQuiet-trans : (s t u : SyncState) → IsQuiet s t → IsQuiet t u → IsQuiet s u
IsQuiet-trans s t u f g h = let b = g h in let a = f b.0 in (a.0, Extends-trans a.1 b.1)

-- A change is on record.
abbrev pub IsLoud : SyncState → Type 0
IsLoud s = s.result.changed ≡ true

loud-IsQuiet : (s t : SyncState) → IsLoud t → IsQuiet s t
loud-IsQuiet s t h e = cc

Succeeded-loud :
    {A : Type 0} (r : Result A) (s t : SyncState)
    → Succeeded r (IsLoud t)
    → Succeeded r (IsQuiet s t)
Succeeded-loud (ok a) s t h = loud-IsQuiet s t h
Succeeded-loud (err e) s t h = tt

Keeps-on_world : {A : Type 0} (m : Io A) → Keeps IsLoud (on_world m)
unfolding on_world
Keeps-on_world m = record { at = λ s h. h }

-- A call that ends with a change on record may send what it likes.
Leads-loud : {A : Type 0} (m : Sync A) → Ensures IsLoud m → Leads IsQuiet m
Leads-loud m h = record { at = λ s. let (r, t) = m s in Succeeded-loud r s t (h.at s) }

Leads-read : {A : Type 0} (m : Io A) → Sends IsRead (λ w. w) m → Leads IsQuiet (on_world m)
unfolding on_world
Leads-read m h = record {
  at = λ s. let (r, w) = m s.world in Succeeded-all r (λ e. (e, h.at s.world));
}

-- An assignment to the result that keeps `changed`.
Leads-set :
    (f : SyncResult → SyncResult)
    → ((r : SyncResult) → (f r).changed ≡ r.changed)
    → Leads IsQuiet (set_result f)
unfolding set_result
Leads-set f h = record { at = λ s e. (sym (h s.result) ∙ e, Extends-refl IsRead s.world) }

Ensures-set :
    (f : SyncResult → SyncResult)
    → ((r : SyncResult) → (f r).changed ≡ true)
    → Ensures IsLoud (set_result f)
unfolding set_result
Ensures-set f h = record { at = λ s. h s.result }

Keeps-set :
    (f : SyncResult → SyncResult)
    → ((r : SyncResult) → (f r).changed ≡ r.changed)
    → Keeps IsLoud (set_result f)
unfolding set_result
Keeps-set f h = record { at = λ s e. h s.result ∙ e }

Keeps-modify :
    (f : SyncState → SyncState)
    → ((s : SyncState) → (f s).result ≡ s.result)
    → Keeps IsLoud (modify f)
unfolding modify
Keeps-modify f h = record { at = λ s e. ap (λ (r : SyncResult). r.changed) (h s) ∙ e }

ruleset quiet_rules = (
  Leads-pure, Leads-lift, Leads-gets, Leads-raise, Leads-annotate, Leads-if, Leads-bind,
  IsQuiet-refl, IsQuiet-trans, Leads-read,
)

IsRead-self : (r : Request) → IsRead r → IsRead r
IsRead-self r h = h

module _ (plan : Plan) where
  ensure_key-IsQuiet : (files : List Text) → Leads IsQuiet (ensure_key plan files)
  unfolding ensure_key note_upload
  ensure_key-IsQuiet files = Leads-if _ _ _ (Leads-pure IsQuiet-refl tt) (
      Leads-loud _ (
        Ensures-last _ _
          λ a. Ensures-first _ _ (Ensures-set _ (λ r. refl)) λ b. Keeps-modify _ (λ s. refl)))

  ensure_certificate-IsQuiet :
      (files : List Text) (infos : List CertificateInfo)
      → Leads IsQuiet (ensure_certificate plan files infos)
  unfolding ensure_certificate note_upload
  ensure_certificate-IsQuiet files infos = Leads-if _ _ _ (Leads-lift IsQuiet-refl _) (
      Leads-loud _ (
        Ensures-last _ _
          λ a. Ensures-first _ _ (Ensures-set _ (λ r. refl)) λ b. Keeps-modify _ (λ s. refl)))

  ensure_chain-IsQuiet :
      (files : List Text) (infos : List CertificateInfo)
      → Leads IsQuiet (ensure_chain plan files infos)
  unfolding ensure_chain note_upload
  ensure_chain-IsQuiet files infos = Leads-if _ _ _ (Leads-pure IsQuiet-refl tt) (
      Leads-if _ _ _ (Leads-lift IsQuiet-refl _) (
        Leads-loud _ (
          Ensures-last _ _
            λ a. Ensures-first _ _ (Ensures-set _ (λ r. refl)) λ b. Keeps-modify _ (λ s. refl))))

  ensure_material-IsQuiet : Leads IsQuiet (ensure_material plan)
  unfolding ensure_material
  ensure_material-IsQuiet =
      search
        (
          quiet_rules,
          Leads-set,
          list_certificate_files-Sends {P = IsRead},
          list_key_files-Sends {P = IsRead},
          list_certificates-Sends {P = IsRead},
          IsRead-self,
          ensure_key-IsQuiet,
          ensure_certificate-IsQuiet,
          ensure_chain-IsQuiet,
        )
        depth 12

  require_revision-IsQuiet :
      (expected : Text) (stage : String) → Leads IsQuiet (require_revision plan expected stage)
  unfolding require_revision
  require_revision-IsQuiet expected stage =
      Leads-read _ (require_template_revision-Sends IsRead-self _ expected stage)

  bind_new-IsQuiet : Leads IsQuiet (bind_new plan)
  unfolding bind_new note_bound
  bind_new-IsQuiet = Leads-loud _ (
      Ensures-last _ _ λ a. Ensures-last _ _ λ b. Ensures-last _ _ λ c. Ensures-last _ _ λ d.
        Ensures-last _ _ λ e.
          Ensures-first _ _ (Ensures-set _ (λ r. refl))
            λ u. Keeps-bind _ _ (Keeps-set _ (λ r. refl)) λ v. Keeps-pure e)

  bind_desired-IsQuiet : Leads IsQuiet (bind_desired plan)
  unfolding bind_desired
  bind_desired-IsQuiet = search (quiet_rules, require_revision-IsQuiet, bind_new-IsQuiet) depth 9

  note_unbound-IsLoud : (t : ClientSslTemplate) → Ensures IsLoud (note_unbound >>= λ a. pure t)
  unfolding note_unbound
  note_unbound-IsLoud t = Ensures-first _ _ (Ensures-set _ (λ r. refl)) λ a. Keeps-pure t

  remove_found-IsQuiet :
      (current : Binding) (expected : ClientSslTemplate) (implicit : Bool) (o : Option Binding)
      → Leads IsQuiet (remove_found plan current expected implicit o)
  unfolding remove_found
  remove_found-IsQuiet current expected implicit none =
      Leads-if _ _ _ (Leads-loud _ (note_unbound-IsLoud expected)) (Leads-raise _)
  remove_found-IsQuiet current expected implicit (some b) =
      Leads-if _ _ _
        (Leads-loud _
          (Ensures-last _ _ λ a. Ensures-last _ _ λ b. Ensures-last _ _ λ c. note_unbound-IsLoud _))
        (Leads-raise _)

  remove_old-IsQuiet :
      (o : Option Binding) (expected : ClientSslTemplate) (implicit : Bool)
      → Leads IsQuiet (remove_old plan o expected implicit)
  unfolding remove_old
  remove_old-IsQuiet none expected implicit = Leads-pure IsQuiet-refl expected
  remove_old-IsQuiet (some b) expected implicit =
      Leads-if _ _ _ (Leads-pure IsQuiet-refl expected) (remove_found-IsQuiet b expected implicit _)

  report_rollback-IsLoud : (e : Error) (r : Result (Unit {0})) → Keeps IsLoud (report_rollback e r)
  unfolding report_rollback
  report_rollback-IsLoud e (ok u) = search (keeps_rules, Keeps-set)
  report_rollback-IsLoud e (err x) = search keeps_rules

  after_write-IsLoud :
      (expected : ClientSslTemplate) (r : Result (Unit {0}))
      → Keeps IsLoud (after_write plan expected r)
  unfolding after_write
  after_write-IsLoud expected (ok u) = Keeps-set _ (λ r. refl)
  after_write-IsLoud expected (err e) = search (keeps_rules, Keeps-on_world, report_rollback-IsLoud)

  pub write_running-IsLoud :
      (expected : ClientSslTemplate) → Keeps IsLoud (write_running plan expected)
  unfolding write_running require_revision
  write_running-IsLoud expected = search (keeps_rules, Keeps-on_world, after_write-IsLoud)

  persist-IsLoud : (expected : ClientSslTemplate) → Keeps IsLoud (persist plan expected)
  unfolding persist
  persist-IsLoud expected = search (keeps_rules, Keeps-set, write_running-IsLoud)

  cleanup_binding-IsLoud : (b : Binding) → Keeps IsLoud (cleanup_binding plan b)
  unfolding cleanup_binding
  cleanup_binding-IsLoud b = search (keeps_rules, Keeps-set, Keeps-on_world) depth 9

  -- Memory is written only where a change is on record.
  write_if_changed :
      (expected : ClientSslTemplate) (b : Bool) (s : SyncState)
      → s.result.changed ≡ b
      → Succeeded (when (b && not plan.options.no_write_memory) (write_running plan expected) s).0 (
          IsQuiet s
            (when (b && not plan.options.no_write_memory) (write_running plan expected) s).1)
  write_if_changed expected true s e =
      let m = when (not plan.options.no_write_memory) (write_running plan expected) in
      Succeeded-all _ (
        loud-IsQuiet s (m s).1
          ((Keeps-if {Q = IsLoud} _ _ _ (write_running-IsLoud expected) (Keeps-pure tt)).at s e))
  write_if_changed expected false s e = unfold pure in IsQuiet-refl s

  persist-IsQuiet : (expected : ClientSslTemplate) → Leads IsQuiet (persist plan expected)
  unfolding persist
  persist-IsQuiet expected =
      Leads-bind IsQuiet-trans _ _ (Leads-set _ (λ r. refl))
        λ u. unfold gets ◌>>=◌ in record { at = λ s. write_if_changed expected _ s refl }

  remove_found-IsLoud :
      (current : Binding) (expected : ClientSslTemplate) (implicit : Bool) (o : Option Binding)
      → Ensures IsLoud (remove_found plan current expected implicit o)
  unfolding remove_found
  remove_found-IsLoud current expected implicit none =
      Ensures-if _ _ _ (note_unbound-IsLoud expected) (Ensures-raise _)
  remove_found-IsLoud current expected implicit (some b) =
      Ensures-if _ _ _
        (Ensures-last _ _ λ a. Ensures-last _ _ λ b. Ensures-last _ _ λ c. note_unbound-IsLoud _)
        (Ensures-raise _)

  -- What follows the binding of the desired pair.
  abbrev pub finish : Option Binding → ClientSslTemplate × Bool → Sync (Unit {0})
  finish o bound = do
    expected ← remove_old plan o bound.0 bound.1
    persist plan expected
    cleanup_old plan o
    set_result (λ r. record r { stage = complete })

  -- Either the call replaces the current binding, and has a change on record, or there is nothing
  -- to clean up.
  finish-IsQuiet :
      (o : Option Binding) (bound : ClientSslTemplate × Bool) → Leads IsQuiet (finish o bound)
  unfolding remove_old cleanup_old
  finish-IsQuiet none bound = Leads-bind IsQuiet-trans _ _ (Leads-pure IsQuiet-refl _) λ expected.
      Leads-bind IsQuiet-trans _ _ (persist-IsQuiet expected)
        λ a. Leads-bind IsQuiet-trans _ _ (Leads-pure IsQuiet-refl tt) λ b. Leads-set _ (λ r. refl)
  finish-IsQuiet (some b) bound = elim (Bool-cases (b.certificate == plan.desired.certificate)) [
    | inl same ↦ rw same (
        Leads-bind IsQuiet-trans _ _ (Leads-pure IsQuiet-refl _) λ expected.
          Leads-bind IsQuiet-trans _ _ (persist-IsQuiet expected) λ a.
            Leads-bind IsQuiet-trans _ _ (Leads-pure IsQuiet-refl tt) λ c. Leads-set _ (λ r. refl))
    | inr other ↦ rw other (
        Leads-loud _ (
          Ensures-first _ _ (remove_found-IsLoud b _ _ _) λ expected.
            Keeps-bind _ _ (persist-IsLoud expected) λ a.
              Keeps-bind _ _ (Keeps-if _ _ _ (cleanup_binding-IsLoud b) (Keeps-pure tt))
                λ c. Keeps-set _ (λ r. refl)))
  ]

  rotate-IsQuiet : Leads IsQuiet (rotate plan)
  unfolding rotate
  rotate-IsQuiet = Leads-bind IsQuiet-trans _ _ ensure_material-IsQuiet λ a.
      Leads-bind IsQuiet-trans _ _ bind_desired-IsQuiet λ bound. finish-IsQuiet plan.current bound

-- A call of which it is known that it sends only reads and keeps `changed`.
module _ (target : Target) (bundle : CertificateBundle) (options : SyncOptions) where
  validate_inputs-IsQuiet : Leads IsQuiet (validate_inputs target bundle)
  unfolding validate_inputs
  validate_inputs-IsQuiet = search quiet_rules

  prepare-IsQuiet : Leads IsQuiet (prepare target bundle options)
  unfolding prepare
  prepare-IsQuiet =
      search
        (
          quiet_rules,
          Leads-set,
          validate_inputs-IsQuiet,
          verify_compatibility-Sends {P = IsRead},
          IsRead-self,
        )
        depth 12

  inspect-IsQuiet : (names : Text × Text) → Leads IsQuiet (inspect target bundle options names)
  unfolding inspect
  inspect-IsQuiet names =
      search (quiet_rules, Leads-set, get_client_ssl_template-Sends {P = IsRead}, IsRead-self) depth
        12

  sync_body-IsQuiet : Leads IsQuiet (sync_body target bundle options)
  unfolding sync_body
  sync_body-IsQuiet =
      Leads-bind IsQuiet-trans _ _ prepare-IsQuiet
        λ names. Leads-bind IsQuiet-trans _ _ (inspect-IsQuiet names) λ plan. rotate-IsQuiet plan

  pub deferred-fails : (e : Error) (t : SyncState) → (deferred (err e) t).0 ≢ ok tt
  unfolding deferred finish_deferred
  deferred-fails e t h = ground arith

  deferred-IsQuiet :
      (r : Result (Unit {0})) (s t : SyncState)
      → Succeeded r (IsQuiet s t)
      → (deferred r t).0 ≡ ok tt
      → IsQuiet s (deferred r t).1
  unfolding deferred
  deferred-IsQuiet (ok u) s t h e = h
  deferred-IsQuiet (err x) s t h e = absurd (deferred-fails x t e)

  -- A call that succeeds and reports no change has added nothing but reads to the requests sent.
  pub unchanged_sends_reads :
      (w : World)
      → (sync_certificate target bundle options w).0 ≡ ok tt
      → (sync_certificate target bundle options w).1.result.changed ≡ false
      → Extends IsRead w (sync_certificate target bundle options w).1.world
  unfolding sync_certificate initial_state
  unchanged_sends_reads w e unchanged =
      let s = initial_state w in
      let (r, t) = sync_body target bundle options s in
      (deferred-IsQuiet r s t (sync_body-IsQuiet.at s) e unchanged).1
