-- ===== src/Sync/Outcome/Deletions.antt =====
-- A synchronization that succeeds deletes files only where its options ask for the cleanup.
use a10_certctl.Base.{
  ◌≡◌, refl, sym, ap, ◌∙◌, Bool, true, false, Option, none, some, Bool-cases, inl, inr,
}
use a10_certctl.Text.{Text, ◌==◌}
use a10_certctl.Errors.{Result, ok, err}
use a10_certctl.Exec.{gets}
use a10_certctl.Exec.Keeps.{Keeps, Keeps-pure, Keeps-bind}
use a10_certctl.Exec.Leads.{
  Ensures-last, Turns, Turns-known, Turns-next, Turns-first, Turns-if, Turns-Keeps, Turns-Ensures,
}
use a10_certctl.Bundle.{CertificateBundle}
use a10_certctl.Template.{Binding, ClientSslTemplate}
use a10_certctl.Axapi.{Request, post_delete, World}
use a10_certctl.Axapi.Sends.{Extends, Extends-refl, Extends-trans, Sends, Sends-attempt}
use a10_certctl.Session.Footprint.{IsRead, require_template_revision-Sends, write_memory-Sends}
use a10_certctl.Sync.Run.{rotate, sync_body, initial_state, sync_certificate}
use a10_certctl.Sync.{Target, SyncOptions, SyncState, Sync}
use a10_certctl.Sync.Material.{Plan}
use a10_certctl.Sync.Cleanup.{cleanup_old}
use a10_certctl.Sync.Rotate.{require_revision, after_write, write_running, persist}
use a10_certctl.Sync.Permits.{Permits, IsPlanFor}
use a10_certctl.Sync.Permits.Phases.{world_of, on_world-Sends, set_result-Sends}
use a10_certctl.Sync.Permits.Rotation.{ensure_material-Sends, bind_desired-Sends, remove_old-Sends}
use a10_certctl.Sync.Permits.Whole.{prepare-Sends, inspect-Sends, inspect-Returns}
use a10_certctl.Sync.Outcome.Saved.{report_rollback-Ensures, deferred-Succeeded}

abbrev pub is_deletion : Request → Bool
is_deletion (post_delete _) = true
is_deletion _ = false

abbrev pub IsKeeping : Request → Type 0
IsKeeping r = is_deletion r ≡ false

reads-IsKeeping : (r : Request) → IsRead r → IsKeeping r
reads-IsKeeping (post_delete _) h = sym h
reads-IsKeeping _ h = refl

IsKeeping-Permits :
    (target : Target) (names : Text × Text) (options : SyncOptions)
    → Permits IsKeeping ⊥ target names options
IsKeeping-Permits target names options = record {
  reads = reads-IsKeeping;
  files = λ kind doc pem e h. refl;
  binds = λ t doc e. refl;
  unbinds = λ t c e. refl;
  deletes = λ d m e. absurd d;
  saves = λ partition e. refl;
}

-- Nothing has been deleted since the call began in `w`.
abbrev HasKept : World → SyncState → Type 0
HasKept w s = Extends IsKeeping w s.world

module _ (w : World) where
  keeps : {A : Type 0} (m : Sync A) → Sends IsKeeping world_of m → Keeps (HasKept w) m
  keeps m h = record { at = λ s k. Extends-trans k (h.at s) }

  module _ (target : Target) (names : Text × Text) (options : SyncOptions) (plan : Plan)
      (fits : IsPlanFor target names options plan) where
    after_write-Turns :
        (expected : ClientSslTemplate) (r : Result (Unit {0}))
        → Turns (HasKept w) (HasKept w) (after_write plan expected r)
    unfolding after_write
    after_write-Turns expected (ok u) = Turns-Keeps _ (keeps _ (set_result-Sends _))
    after_write-Turns expected (err e) =
        Turns-Ensures _
          (Ensures-last _ _ λ a. Ensures-last _ _ λ b. report_rollback-Ensures plan _ _ b)

    persist-Turns :
        (expected : ClientSslTemplate) → Turns (HasKept w) (HasKept w) (persist plan expected)
    unfolding persist write_running require_revision
    persist-Turns expected = Turns-next _ _ (keeps _ (set_result-Sends _)) λ a.
        Turns-next _ _ (unfold gets in record { at = λ s k. k }) λ changed.
          Turns-if _ _ _
            (Turns-next _ _
              (keeps _ (on_world-Sends _ (require_template_revision-Sends reads-IsKeeping _ _ _)))
              λ t.
                Turns-next _ _
                  (keeps _
                    (on_world-Sends _ (Sends-attempt _ (write_memory-Sends (λ partition. refl)))))
                  λ r. after_write-Turns expected r)
            (Turns-Keeps _ (Keeps-pure tt))

    cleanup_old-Turns :
        options.cleanup_old ≡ false → (o : Option Binding) → Keeps (HasKept w) (cleanup_old plan o)
    unfolding cleanup_old
    cleanup_old-Turns off none = Keeps-pure tt
    cleanup_old-Turns off (some b) =
        let same : plan.options.cleanup_old ≡ false =
          ap (λ (o : SyncOptions). o.cleanup_old) fits.options_eq ∙ off in
        elim (Bool-cases (b.certificate == plan.desired.certificate)) [
          | inl e ↦ rw (same, e) (Keeps-pure tt)
          | inr e ↦ rw (same, e) (Keeps-pure tt)
        ]

    rotate-Turns : options.cleanup_old ≡ false → Turns (HasKept w) (HasKept w) (rotate plan)
    unfolding rotate
    rotate-Turns off =
        let allowed = IsKeeping-Permits target names options in
        Turns-next _ _ (keeps _ (ensure_material-Sends allowed plan fits)) λ a.
          Turns-next _ _ (keeps _ (bind_desired-Sends allowed plan fits)) λ bound.
            Turns-next _ _ (keeps _ (remove_old-Sends allowed plan fits _ _ _)) λ expected.
              Turns-first _ _ (persist-Turns expected) λ u.
                Keeps-bind _ _ (cleanup_old-Turns off plan.current)
                  λ v. keeps _ (set_result-Sends _)

module _ (target : Target) (bundle : CertificateBundle) (options : SyncOptions) where
  sync_body-Turns :
      (w : World)
      → options.cleanup_old ≡ false
      → Turns (HasKept w) (HasKept w) (sync_body target bundle options)
  unfolding sync_body
  sync_body-Turns w off =
      Turns-next _ _ (keeps w _ (prepare-Sends target bundle options reads-IsKeeping)) λ names.
        Turns-known (IsPlanFor target names options) _ _
          (inspect-Returns target bundle options names)
          (keeps w _ (inspect-Sends target bundle options reads-IsKeeping names))
          λ plan fits. rotate-Turns w target names options plan fits off

  -- A call that succeeds without the option to clean up has deleted no file.
  pub success_keeps_files :
      (w : World)
      → options.cleanup_old ≡ false
      → (sync_certificate target bundle options w).0 ≡ ok tt
      → Extends IsKeeping w (sync_certificate target bundle options w).1.world
  unfolding sync_certificate initial_state
  success_keeps_files w off e =
      let s = initial_state w in
      let (r, t) = sync_body target bundle options s in
      deferred-Succeeded target bundle options (HasKept w) r t
        ((sync_body-Turns w off).at s (Extends-refl IsKeeping w)) e
