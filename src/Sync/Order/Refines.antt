-- ===== src/Sync/Order/Refines.antt =====
-- A rotation that succeeds has followed the protocol: pkg/a10/sync.go
use a10_certctl.Base.{
  ◌≡◌, refl, ap, subst, Bool, true, false, List, ◌++◌, [], Option, none, some, Bool-cases, inl, inr,
}
use a10_certctl.Text.{◌==◌}
use a10_certctl.Errors.{ok}
use a10_certctl.Exec.{◌>>=◌, ◌>>◌}
use a10_certctl.Exec.Keeps.{Keeps, Keeps-pure, Keeps-bind, keeps_rules}
use a10_certctl.Exec.Leads.{
  Turns, Turns-Keeps, Turns-next, Turns-known, Turns-from, Turns-then, Turns-and, Turns-if, Ensures,
  Ensures-last, Ensures-first, Ensures-if, Ensures-raise,
}
use a10_certctl.Bundle.{CertificateBundle}
use a10_certctl.Template.{Binding, ClientSslTemplate}
use a10_certctl.Axapi.{Request, World}
use a10_certctl.Sync.{Target, SyncOptions, SyncResult, Sync, complete, set_result}
use a10_certctl.Sync.Material.{Plan}
use a10_certctl.Sync.Outcome.Unchanged.{IsLoud}
use a10_certctl.Sync.Rotate.{note_unbound, remove_found, remove_old, persist}
use a10_certctl.Sync.Cleanup.{cleanup_old}
use a10_certctl.Sync.Run.{rotate, sync_body, initial_state, sync_certificate}
use a10_certctl.Sync.Permits.{IsPlanFor}
use a10_certctl.Sync.Permits.Whole.{prepare-Sends, inspect-Sends, inspect-Returns}
use a10_certctl.Sync.Outcome.Saved.{deferred-Succeeded}
use a10_certctl.Sync.Order.{
  Phase, uploading, binding, unbinding, saved, Run, start, bind_next, unbind_next, HasRun,
  phase-Keeps, AreDeletionsSaved, run-AreDeletionsSaved,
}
use a10_certctl.Sync.Order.Steps.{
  Ends, reads-Lets, pass, set_result-Keeps, persist-Turns, persist-saves, cleanup_binding-Turns,
}
use a10_certctl.Sync.Order.Phases.{ensure_material-Sends, bind_desired-Sends, remove_old-Sends}

module _ (no_save : Bool) (w₀ : World) (plan : Plan)
    (same : plan.options.no_write_memory ≡ no_save) where
  remove_old-Keeps :
      (current : Option Binding) (expected : ClientSslTemplate) (implicit : Bool)
      → Keeps (HasRun no_save w₀ unbinding) (remove_old plan current expected implicit)
  remove_old-Keeps current expected implicit =
      phase-Keeps _
        (remove_old-Sends (reads-Lets unbinding) plan (λ t c. refl) current expected implicit)

  remove_found-Ensures :
      (current : Binding) (expected : ClientSslTemplate) (implicit : Bool) (o : Option Binding)
      → Ensures IsLoud (remove_found plan current expected implicit o)
  unfolding remove_found note_unbound set_result
  remove_found-Ensures current expected implicit none =
      Ensures-if _ _ _ (Ensures-first _ _ (record { at = λ s. refl }) (λ a. search keeps_rules))
        (Ensures-raise _)
  remove_found-Ensures current expected implicit (some b) =
      Ensures-if _ _ _
        (Ensures-last _ _ λ a. Ensures-last _ _ λ c.
          Ensures-last _ _
            λ d. Ensures-first _ _ (record { at = λ s. refl }) (λ e. search keeps_rules))
        (Ensures-raise _)

  Ends-Keeps : (f : SyncResult → SyncResult) → Keeps (Ends no_save w₀) (set_result f)
  Ends-Keeps f = record { at = λ s h. (h.0, (set_result-Keeps no_save w₀ f).at s h.1) }

  remove_old-Ensures :
      (b : Binding) (expected : ClientSslTemplate) (implicit : Bool)
      → (b.certificate == plan.desired.certificate) ≡ false
      → Ensures IsLoud (remove_old plan (some b) expected implicit)
  unfolding remove_old
  remove_old-Ensures b expected implicit e = rw e (remove_found-Ensures b expected implicit _)

  cleanup_idle :
      (b : Binding)
      → (b.certificate == plan.desired.certificate) ≡ true
      → Keeps (Ends no_save w₀) (cleanup_old plan (some b))
  unfolding cleanup_old
  cleanup_idle b e = rw e (Keeps-pure tt)

  cleanup_old-Turns :
      (b : Binding) → Turns (HasRun no_save w₀ saved) (Ends no_save w₀) (cleanup_old plan (some b))
  unfolding cleanup_old
  cleanup_old-Turns b =
      Turns-if _ _ _ (cleanup_binding-Turns no_save w₀ plan same b)
        (Turns-from (λ s h. (saved, h)) _ (Turns-Keeps _ (Keeps-pure tt)))

  -- The rest of a rotation, from the removal of the old binding
  abbrev rest_of : Option Binding → ClientSslTemplate → Bool → Sync (Unit {0})
  rest_of current expected implicit = do
    reduced ← remove_old plan current expected implicit
    persist plan reduced
    cleanup_old plan current
    set_result (λ r. record r { stage = complete })

  idle-Turns :
      (current : Option Binding) (expected : ClientSslTemplate) (implicit : Bool)
      → Keeps (Ends no_save w₀) (cleanup_old plan current)
      → Turns (HasRun no_save w₀ unbinding) (Ends no_save w₀) (rest_of current expected implicit)
  idle-Turns current expected implicit k =
      Turns-next _ _ (remove_old-Keeps current expected implicit) λ reduced.
        Turns-then _ _ (persist-Turns no_save w₀ plan same reduced)
          λ u. Turns-Keeps _ (Keeps-bind _ _ k λ v. Ends-Keeps _)

  rest-Turns :
      (current : Option Binding) (expected : ClientSslTemplate) (implicit : Bool)
      → Turns (HasRun no_save w₀ unbinding) (Ends no_save w₀) (rest_of current expected implicit)
  rest-Turns none expected implicit =
      idle-Turns none expected implicit (unfold cleanup_old in Keeps-pure tt)
  rest-Turns (some b) expected implicit =
      elim (Bool-cases (b.certificate == plan.desired.certificate)) [
        | inl e ↦ idle-Turns (some b) expected implicit (cleanup_idle b e)
        | inr e ↦
            Turns-then _ _
              (Turns-and _ (Turns-Keeps _ (remove_old-Keeps (some b) expected implicit))
                (remove_old-Ensures b expected implicit e))
              λ reduced.
                Turns-then _ _ (persist-saves no_save w₀ plan same reduced)
                  λ u. Turns-then _ _ (cleanup_old-Turns b) λ v. Turns-Keeps _ (Ends-Keeps _)
      ]

  rotate-Turns : Turns (HasRun no_save w₀ uploading) (Ends no_save w₀) (rotate plan)
  unfolding rotate
  rotate-Turns =
      Turns-next _ _
        (phase-Keeps _ (ensure_material-Sends (reads-Lets uploading) plan (λ k d p. refl)))
        λ u. Turns-from (pass no_save w₀ (λ rs run. bind_next run)) _ (
          Turns-next _ _
            (phase-Keeps _ (bind_desired-Sends (reads-Lets binding) plan (λ t d. refl)))
            λ bound.
              Turns-from (pass no_save w₀ (λ rs run. unbind_next run)) _
                (rest-Turns plan.current bound.0 bound.1))

module _ (target : Target) (bundle : CertificateBundle) (options : SyncOptions) where
  module _ (w₀ : World) where
    sync_body-Turns :
        Turns
          (HasRun options.no_write_memory w₀ uploading)
          (λ s. (p : Phase) × HasRun options.no_write_memory w₀ p s)
          (sync_body target bundle options)
    unfolding sync_body
    sync_body-Turns =
        Turns-next _ _ (phase-Keeps _ (prepare-Sends target bundle options (reads-Lets uploading)))
          λ names.
            Turns-known (IsPlanFor target names options) _ _
              (inspect-Returns target bundle options names)
              (phase-Keeps _ (inspect-Sends target bundle options (reads-Lets uploading) names))
              λ plan fits.
                rotate-Turns options.no_write_memory w₀ plan
                  (ap (λ (o : SyncOptions). o.no_write_memory) fits.options_eq)

  -- The requests of a call that succeeds follow the protocol: reads may come at any time; uploads
  -- come first, then bindings, then removals of bindings, then one request to write memory (none, if
  -- the options forbid it); deletions come only after that, and at most one request to write memory
  -- follows them.
  pub success_follows_protocol :
      (w : World)
      → (sync_certificate target bundle options w).0 ≡ ok tt
      → (p : Phase) × HasRun options.no_write_memory w p
          (sync_certificate target bundle options w).1
  unfolding sync_certificate initial_state
  success_follows_protocol w e =
      let s = initial_state w in
      let (r, t) = sync_body target bundle options s in
      deferred-Succeeded target bundle options
        (λ s. (p : Phase) × HasRun options.no_write_memory w p s) r t
        ((sync_body-Turns w).at s (record { requests = []; sent = refl; run = start })) e

  -- The requests of a call that succeeds and may write memory delete nothing before a request to
  -- write memory.
  pub success_deletes_after_saving :
      (w : World)
      → options.no_write_memory ≡ false
      → (sync_certificate target bundle options w).0 ≡ ok tt
      → (requests : List Request) × (((sync_certificate target bundle options w).1.world.sent
            ≡ requests ++ w.sent)
          × AreDeletionsSaved requests)
  success_deletes_after_saving w saving e =
      let (p, h) = success_follows_protocol w e in
      (h.requests, (h.sent, run-AreDeletionsSaved (subst (λ b. Run b p h.requests) saving h.run)))
