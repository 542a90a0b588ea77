-- ===== src/Sync/Order/Steps.antt =====
-- The steps from phase to phase: writing memory, and the cleanup: pkg/a10/sync.go
use a10_certctl.Base.{◌≡◌, refl, sym, subst, Bool, true, false, not, ◌&&◌, List, [], ◌∷◌}
use a10_certctl.Text.{Text}
use a10_certctl.Errors.{Result, ok, err}
use a10_certctl.Exec.{◌>>=◌, pure, gets, when, attempt}
use a10_certctl.Exec.Keeps.{Keeps, Keeps-pure}
use a10_certctl.Exec.Leads.{
  Succeeded, Turns, Turns-Keeps, Turns-next, Turns-from, Turns-to, Turns-annotate, Turns-if,
  Ensures-last,
}
use a10_certctl.Template.{Binding, ClientSslTemplate}
use a10_certctl.Axapi.{
  Request, post_file, post_binding, delete_binding, post_delete, post_write_memory, World,
}
use a10_certctl.Axapi.Sent.{Grown}
use a10_certctl.Session.{write_memory}
use a10_certctl.Session.Footprint.{IsRead, write_memory-Sent}
use a10_certctl.Sync.{SyncResult, SyncState, on_world, set_result}
use a10_certctl.Sync.Material.{Plan}
use a10_certctl.Sync.Rotate.{after_write, write_running, persist}
use a10_certctl.Sync.Cleanup.{cleanup_binding}
use a10_certctl.Sync.Permits.Phases.{set_result-Sends, on_world-Sends}
use a10_certctl.Sync.Outcome.Saved.{report_rollback-Ensures}
use a10_certctl.Sync.Order.{
  Phase, uploading, binding, unbinding, saved, finished, Lets, Run, save, skip, save_again, HasRun,
  phase-Keeps, HasRun-next,
}
use a10_certctl.Sync.Order.Phases.{require_revision-Sends, delete_unreferenced-Sends}

pub reads-Lets : (p : Phase) (r : Request) → IsRead r → Lets p r
reads-Lets uploading (post_file _ _ _) h = cc
reads-Lets uploading r h = h
reads-Lets binding (post_binding _ _) h = cc
reads-Lets binding r h = h
reads-Lets unbinding (delete_binding _ _) h = cc
reads-Lets unbinding r h = h
reads-Lets saved (post_delete _) h = cc
reads-Lets saved r h = h
reads-Lets finished r h = h

module _ (no_save : Bool) (w₀ : World) where
  -- A run to some phase
  abbrev pub Ends : SyncState → Type 0
  Ends s = (p : Phase) × HasRun no_save w₀ p s

  -- A step to the next phase without a request
  pub pass :
      {p q : Phase}
      → ((rs : List Request) → Run no_save p rs → Run no_save q rs)
      → (s : SyncState) → HasRun no_save w₀ p s
      → HasRun no_save w₀ q s
  pass f s h = record { requests = h.requests; sent = h.sent; run = f h.requests h.run }

  write_step :
      {p q : Phase} (r : Result (Unit {0})) (s : SyncState) (w : World)
      → ((name : Text) (rs : List Request)
          → Run no_save p rs
          → Run no_save q (post_write_memory name ∷ rs))
      → HasRun no_save w₀ p s
      → Succeeded r (Grown s.world.partition (post_write_memory s.world.partition ∷ []) s.world w)
      → Succeeded r (HasRun no_save w₀ q (record s { world = w }))
  write_step (ok u) s w f h g =
      HasRun-next s (record s { world = w }) (post_write_memory s.world.partition ∷ []) g.sent
        (f s.world.partition) h
  write_step (err e) s w f h g = tt

  -- A request to write memory that succeeds
  write-Turns :
      {p q : Phase}
      → ((name : Text) (rs : List Request)
          → Run no_save p rs
          → Run no_save q (post_write_memory name ∷ rs))
      → Turns (HasRun no_save w₀ p) (HasRun no_save w₀ q) (on_world write_memory)
  unfolding on_world
  write-Turns f = record {
    at = λ s h.
        write_step (write_memory s.world).0 s (write_memory s.world).1 f h
          (write_memory-Sent.at s.world refl);
  }

  pub set_result-Keeps :
      {p : Phase} (f : SyncResult → SyncResult) → Keeps (HasRun no_save w₀ p) (set_result f)
  set_result-Keeps f = phase-Keeps (set_result f) (set_result-Sends f)

  module _ (plan : Plan) where
    -- `write memory` succeeds, or the rotation fails.
    after_attempt :
        (expected : ClientSslTemplate) (r : Result (Unit {0})) (s : SyncState)
        → Succeeded r (HasRun no_save w₀ saved s)
        → Succeeded
            (after_write plan expected r s).0
            (HasRun no_save w₀ saved (after_write plan expected r s).1)
    unfolding after_write set_result
    after_attempt expected (ok u) s h = record { requests = h.requests; sent = h.sent; run = h.run }
    after_attempt expected (err e) s h =
        (Ensures-last {Q = HasRun no_save w₀ saved} _ _
            (λ a. Ensures-last _ _ λ b. report_rollback-Ensures plan _ _ b)).at
          s

    attempt-Turns :
        (expected : ClientSslTemplate)
        → Turns
            (HasRun no_save w₀ unbinding)
            (HasRun no_save w₀ saved)
            (on_world (attempt write_memory) >>= after_write plan expected)
    unfolding on_world attempt ◌>>=◌
    attempt-Turns expected = record {
      at = λ s h.
          after_attempt expected (write_memory s.world).0
            (record s { world = (write_memory s.world).1 })
            ((write-Turns (λ name rs run. save name run)).at s h);
    }

    write_running-Turns :
        (expected : ClientSslTemplate)
        → Turns
            (HasRun no_save w₀ unbinding)
            (HasRun no_save w₀ saved)
            (write_running plan expected)
    unfolding write_running
    write_running-Turns expected =
        Turns-next _ _ (phase-Keeps _ (require_revision-Sends (reads-Lets unbinding) plan _ _))
          λ u. attempt-Turns expected

    -- Where `persist` may end: past the write if there is a change to save, or where it started.
    abbrev IsPersisted : Bool → SyncState → Type 0
    IsPersisted true s = HasRun no_save w₀ saved s
    IsPersisted false s = HasRun no_save w₀ unbinding s

    by_change :
        (expected : ClientSslTemplate) (changed forbidden : Bool) (s : SyncState)
        → forbidden ≡ no_save
        → HasRun no_save w₀ unbinding s
        → Succeeded (when (changed && not forbidden) (write_running plan expected) s).0 (
            IsPersisted changed (when (changed && not forbidden) (write_running plan expected) s).1)
    unfolding pure
    by_change expected true false s e h = (write_running-Turns expected).at s h
    by_change expected true true s e h = pass (λ rs run. skip (sym e) run) s h
    by_change expected false forbidden s e h = h

    module _ (same : plan.options.no_write_memory ≡ no_save) where
      persist-at :
          (expected : ClientSslTemplate) (s : SyncState)
          → HasRun no_save w₀ unbinding s
          → Succeeded
              (persist plan expected s).0
              (IsPersisted s.result.changed (persist plan expected s).1)
      unfolding persist ◌>>=◌ gets set_result
      persist-at expected s h =
          by_change expected s.result.changed plan.options.no_write_memory _ same
            (record { requests = h.requests; sent = h.sent; run = h.run })

      some_phase : (changed : Bool) (s : SyncState) → IsPersisted changed s → Ends s
      some_phase true s h = (saved, h)
      some_phase false s h = (unbinding, h)

      Succeeded-map : {A T U : Type 0} (r : Result A) → (T → U) → Succeeded r T → Succeeded r U
      Succeeded-map (ok a) f h = f h
      Succeeded-map (err e) f h = tt

      pub persist-Turns :
          (expected : ClientSslTemplate)
          → Turns (HasRun no_save w₀ unbinding) Ends (persist plan expected)
      persist-Turns expected = record {
        at = λ s h.
            let (r, t) = persist plan expected s in
            Succeeded-map r (some_phase s.result.changed t) (persist-at expected s h);
      }

      pub persist-saves :
          (expected : ClientSslTemplate)
          → Turns
              (λ s. HasRun no_save w₀ unbinding s × (s.result.changed ≡ true))
              (HasRun no_save w₀ saved)
              (persist plan expected)
      persist-saves expected = record {
        at = λ s h.
            let (r, t) = persist plan expected s in
            Succeeded-map r (λ x. subst (λ b. IsPersisted b t) h.1 x) (persist-at expected s h.0);
      }

      pub cleanup_binding-Turns :
          (current : Binding) → Turns (HasRun no_save w₀ saved) Ends (cleanup_binding plan current)
      unfolding cleanup_binding
      cleanup_binding-Turns current =
          Turns-next _ _
            (phase-Keeps _ (
              on_world-Sends _
                (delete_unreferenced-Sends (reads-Lets saved) (λ m. refl) current plan.desired)))
            λ deleted. Turns-next _ _ (set_result-Keeps _) λ u.
              Turns-if _ _ _
                (Turns-annotate _ _ (
                  Turns-to (λ s h. (finished, h)) _
                    (write-Turns (λ name rs run. save_again name run))))
                (Turns-from (λ s h. (saved, h)) _ (Turns-Keeps _ (Keeps-pure tt)))
