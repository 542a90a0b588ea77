-- ===== src/Sync/Outcome/Saved.antt =====
-- What a synchronization that succeeds reports of its stage and of memory: pkg/a10/sync.go
use a10_certctl.Base.{
  ◌≡◌, refl, sym, ap, ◌∙◌, Bool, true, false, not, ◌&&◌, Option, none, some, arith, subst,
}
use a10_certctl.Text.{Text}
use a10_certctl.Errors.{Error, Result, ok, err}
use a10_certctl.Exec.{◌>>=◌, pure, modify, gets, when}
use a10_certctl.Exec.Keeps.{Keeps, Keeps-bind, keeps_rules}
use a10_certctl.Exec.Leads.{
  Succeeded, Ensures, Ensures-raise, Ensures-last, Turns, Turns-known, Turns-next, Turns-first,
}
use a10_certctl.Bundle.{CertificateBundle}
use a10_certctl.Template.{Binding, ClientSslTemplate}
use a10_certctl.Axapi.{World, Io}
use a10_certctl.Sync.Run.{
  prepare, inspect, validate_inputs, rotate, sync_body, deferred, initial_state, sync_certificate,
}
use a10_certctl.Sync.{Target, SyncOptions, complete, SyncResult, SyncState, on_world, set_result}
use a10_certctl.Sync.Material.{
  Plan, note_upload, ensure_key, ensure_certificate, ensure_chain, ensure_material,
}
use a10_certctl.Sync.Cleanup.{cleanup_old, cleanup_binding}
use a10_certctl.Sync.Rotate.{
  require_revision, note_bound, read_back, settle_binding, bind_new, bind_desired, note_unbound,
  remove_found, remove_old, report_rollback, after_write, write_running, persist,
}
use a10_certctl.Sync.Outcome.Unchanged.{write_running-IsLoud, deferred-fails}
use a10_certctl.Sync.Permits.{IsPlanFor}
use a10_certctl.Sync.Permits.Whole.{inspect-Returns}

-- Memory has not been written yet.
abbrev pub IsUnsaved : SyncState → Type 0
IsUnsaved s = s.result.wrote_memory ≡ false

-- Memory has been written where there is a change and the options allow it.
abbrev pub IsSaved : Bool → SyncState → Type 0
IsSaved no_write_memory s = s.result.wrote_memory ≡ (s.result.changed && not no_write_memory)

pub on_world-Keeps : {A : Type 0} (m : Io A) → Keeps IsUnsaved (on_world m)
unfolding on_world
on_world-Keeps m = record { at = λ s h. h }

pub set_result-Keeps :
    (f : SyncResult → SyncResult)
    → ((r : SyncResult) → (f r).wrote_memory ≡ r.wrote_memory)
    → Keeps IsUnsaved (set_result f)
unfolding set_result
set_result-Keeps f h = record { at = λ s e. h s.result ∙ e }

pub modify-Keeps :
    (f : SyncState → SyncState)
    → ((s : SyncState) → (f s).result ≡ s.result)
    → Keeps IsUnsaved (modify f)
unfolding modify
modify-Keeps f h = record { at = λ s e. ap (λ (r : SyncResult). r.wrote_memory) (h s) ∙ e }

pub ruleset unsaved_rules = (keeps_rules, on_world-Keeps, set_result-Keeps, modify-Keeps)

module _ (plan : Plan) where
  pub ensure_material-Keeps : Keeps IsUnsaved (ensure_material plan)
  unfolding ensure_material ensure_key ensure_certificate ensure_chain note_upload
  ensure_material-Keeps = search unsaved_rules depth 16

  read_back-Keeps :
      (b : Result (Unit {0})) (r : Result ClientSslTemplate) → Keeps IsUnsaved (read_back plan b r)
  unfolding read_back settle_binding
  read_back-Keeps b (err e) = search unsaved_rules
  read_back-Keeps b (ok t) = search unsaved_rules

  pub bind_desired-Keeps : Keeps IsUnsaved (bind_desired plan)
  unfolding bind_desired bind_new require_revision note_bound
  bind_desired-Keeps = search (unsaved_rules, read_back-Keeps) depth 16

  remove_found-Keeps :
      (current : Binding) (expected : ClientSslTemplate) (implicit : Bool) (o : Option Binding)
      → Keeps IsUnsaved (remove_found plan current expected implicit o)
  unfolding remove_found require_revision note_unbound
  remove_found-Keeps current expected implicit none = search unsaved_rules
  remove_found-Keeps current expected implicit (some b) = search unsaved_rules depth 12

  pub remove_old-Keeps :
      (o : Option Binding) (expected : ClientSslTemplate) (implicit : Bool)
      → Keeps IsUnsaved (remove_old plan o expected implicit)
  unfolding remove_old
  remove_old-Keeps none expected implicit = search unsaved_rules
  remove_old-Keeps (some b) expected implicit = search (unsaved_rules, remove_found-Keeps)

  pub report_rollback-Ensures :
      (Q : SyncState → Type 0) (e : Error) (r : Result (Unit {0})) → Ensures Q (report_rollback e r)
  unfolding report_rollback
  report_rollback-Ensures Q e (ok u) = Ensures-last _ _ λ a. Ensures-raise e
  report_rollback-Ensures Q e (err x) = Ensures-raise _

  -- A failure of `write memory` is a failure of the call.
  after_write-Ensures :
      (expected : ClientSslTemplate) (r : Result (Unit {0}))
      → Ensures (λ s. s.result.wrote_memory ≡ true) (after_write plan expected r)
  unfolding after_write set_result
  after_write-Ensures expected (ok u) = record { at = λ s. refl }
  after_write-Ensures expected (err e) =
      Ensures-last _ _ λ a. Ensures-last _ _ λ b. report_rollback-Ensures _ _ b

  write_running-Ensures :
      (expected : ClientSslTemplate)
      → Ensures (λ s. s.result.wrote_memory ≡ true) (write_running plan expected)
  unfolding write_running
  write_running-Ensures expected =
      Ensures-last _ _ λ a. Ensures-last _ _ λ b. after_write-Ensures expected b

  Succeeded-both :
      {A : Type 0} (r : Result A) (t : SyncState)
      → Succeeded r (t.result.wrote_memory ≡ true)
      → t.result.changed ≡ true
      → Succeeded r (t.result.wrote_memory ≡ (t.result.changed && true))
  Succeeded-both (ok a) t h c = ground arith
  Succeeded-both (err e) t h c = tt

  -- by whether there is a change and whether the options forbid the writing
  write_if :
      (expected : ClientSslTemplate) (changed forbidden : Bool) (s : SyncState)
      → s.result.changed ≡ changed
      → IsUnsaved s
      → Succeeded
          (when (changed && not forbidden) (write_running plan expected) s).0
          (IsSaved forbidden (when (changed && not forbidden) (write_running plan expected) s).1)
  write_if expected true false s c u =
      let (r, t) = write_running plan expected s in
      Succeeded-both r t ((write_running-Ensures expected).at s)
        ((write_running-IsLoud plan expected).at s c)
  write_if expected true true s c u = unfold pure in ground arith
  write_if expected false forbidden s c u = unfold pure in ground arith

  persist-Turns :
      (expected : ClientSslTemplate)
      → Turns IsUnsaved (IsSaved plan.options.no_write_memory) (persist plan expected)
  unfolding persist
  persist-Turns expected =
      Turns-next _ _ (set_result-Keeps _ (λ r. refl))
        λ u. unfold gets ◌>>=◌ in record { at = λ s i. write_if expected _ _ s refl i }

  module _ (b : Bool) where
    world-Keeps : {A : Type 0} (m : Io A) → Keeps (IsSaved b) (on_world m)
    unfolding on_world
    world-Keeps m = record { at = λ s h. h }

    result-Keeps :
        (f : SyncResult → SyncResult)
        → ((r : SyncResult) → ((f r).wrote_memory ≡ r.wrote_memory) × ((f r).changed ≡ r.changed))
        → Keeps (IsSaved b) (set_result f)
    unfolding set_result
    result-Keeps f h = record {
      at = λ s e. (h s.result).0 ∙ e ∙ ap (λ c. c && not b) (sym (h s.result).1);
    }

    cleanup_old-Keeps : (o : Option Binding) → Keeps (IsSaved b) (cleanup_old plan o)
    unfolding cleanup_old cleanup_binding
    cleanup_old-Keeps none = search keeps_rules
    cleanup_old-Keeps (some c) = search (keeps_rules, world-Keeps, result-Keeps) depth 10

  rotate-Turns : Turns IsUnsaved (IsSaved plan.options.no_write_memory) (rotate plan)
  unfolding rotate
  rotate-Turns = Turns-next _ _ ensure_material-Keeps λ a.
      Turns-next _ _ bind_desired-Keeps λ bound. Turns-next _ _ (remove_old-Keeps _ _ _) λ expected.
        Turns-first _ _ (persist-Turns expected) λ u.
          Keeps-bind _ _ (cleanup_old-Keeps _ plan.current)
            λ v. result-Keeps _ _ (λ r. (refl, refl))

  rotate-Ensures : Ensures (λ s. s.result.stage ≡ complete) (rotate plan)
  unfolding rotate set_result
  rotate-Ensures = Ensures-last _ _ λ a. Ensures-last _ _ λ b.
      Ensures-last _ _ λ c. Ensures-last _ _ λ d. Ensures-last _ _ λ e. record { at = λ s. refl }

module _ (target : Target) (bundle : CertificateBundle) (options : SyncOptions) where
  pub prepare-Keeps : Keeps IsUnsaved (prepare target bundle options)
  unfolding prepare validate_inputs
  prepare-Keeps = search unsaved_rules depth 16

  pub inspect-Keeps : (names : Text × Text) → Keeps IsUnsaved (inspect target bundle options names)
  unfolding inspect
  inspect-Keeps names = search unsaved_rules depth 16

  sync_body-Turns :
      Turns IsUnsaved (IsSaved options.no_write_memory) (sync_body target bundle options)
  unfolding sync_body
  sync_body-Turns = Turns-next _ _ prepare-Keeps λ names.
      Turns-known (IsPlanFor target names options) _ _ (inspect-Returns target bundle options names)
        (inspect-Keeps names)
        λ plan fits.
          subst (λ (o : SyncOptions). Turns IsUnsaved (IsSaved o.no_write_memory) (rotate plan))
            fits.options_eq (rotate-Turns plan)

  sync_body-Ensures : Ensures (λ s. s.result.stage ≡ complete) (sync_body target bundle options)
  unfolding sync_body
  sync_body-Ensures = Ensures-last _ _ λ names. Ensures-last _ _ λ plan. rotate-Ensures plan

  pub deferred-Succeeded :
      (Q : SyncState → Type 0) (r : Result (Unit {0})) (t : SyncState)
      → Succeeded r (Q t)
      → (deferred r t).0 ≡ ok tt
      → Q (deferred r t).1
  unfolding deferred
  deferred-Succeeded Q (ok u) t h e = h
  deferred-Succeeded Q (err x) t h e = absurd (deferred-fails target bundle options x t e)

  -- The stage and the flag of a call that succeeds
  pub success_is_saved :
      (w : World)
      → (sync_certificate target bundle options w).0 ≡ ok tt
      → ((sync_certificate target bundle options w).1.result.stage ≡ complete)
        × ((sync_certificate target bundle options w).1.result.wrote_memory ≡ (
            (sync_certificate target bundle options w).1.result.changed
            && not options.no_write_memory))
  unfolding sync_certificate initial_state
  success_is_saved w e =
      let s = initial_state w in
      let (r, t) = sync_body target bundle options s in
      (
        deferred-Succeeded (λ s. s.result.stage ≡ complete) r t (sync_body-Ensures.at s) e,
        deferred-Succeeded (IsSaved options.no_write_memory) r t (sync_body-Turns.at s refl) e,
      )
