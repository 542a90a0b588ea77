-- ===== src/Sync/Rotate.antt =====
-- The middle of `SyncCertificate` of pkg/a10/sync.go that binds the new pair, removes the old
-- binding and writes memory.
use Prim.Native.String.{String}
use a10_certctl.Base.{Bool, true, false, not, ◌&&◌, Option, none, some, if◌then◌else◌}
use a10_certctl.Text.{Text, ◌==◌}
use a10_certctl.Errors.{
  Error, wrapped, conflict, ambiguous, rollback_failed, joined, Result, ok, err,
}
use a10_certctl.Exec.{◌>>=◌, ◌>>◌, pure, raise, gets, modify, when, annotate, attempt}
use a10_certctl.Template.{
  Binding, ClientSslTemplate, find_binding, has_binding, same_binding, template_with_binding,
  template_without_certificate,
}
use a10_certctl.Template.Revision.{revision}
use a10_certctl.Session.{
  get_client_ssl_template, bind_certificate, unbind_certificate, write_memory,
}
use a10_certctl.State.{require_template_revision}
use a10_certctl.Sync.{
  SyncState, Sync, bound, old_binding_removed, persisted, rolled_back, on_world, set_result,
}
use a10_certctl.Sync.Material.{Plan}
use a10_certctl.Sync.Rollback.{rollback_synchronization}

-- `current != nil && current.Certificate != desired.Certificate`
unfoldable pub replaces : Option Binding → Binding → Bool
replaces none desired = false
replaces (some current) desired = not (current.certificate == desired.certificate)

unfoldable pub require_revision : Plan → Text → String → Sync ClientSslTemplate
require_revision plan expected stage =
    on_world (require_template_revision plan.target.client_ssl_template expected stage)

unfoldable pub appended_template : Plan → ClientSslTemplate
appended_template plan = template_with_binding plan.template plan.desired

unfoldable pub replaced_template : Plan → ClientSslTemplate
unfolding appended_template
replaced_template plan = elim plan.current [
  | none ↦ appended_template plan
  | some current ↦
      if current.certificate == plan.desired.certificate
      then appended_template plan
      else template_without_certificate (appended_template plan) current.certificate
]

-- The cases of the switch that return an error.
unfoldable pub bind_failure : Plan → Result (Unit {0}) → Text → Error
unfolding appended_template
bind_failure plan (err e) actual =
    if actual == plan.baseline_revision
    then wrapped "bind A10 certificate to client-SSL template" e
    else ambiguous (revision plan.platform (appended_template plan)) actual e
bind_failure plan (ok _) actual =
    conflict "post-bind verification" (revision plan.platform (appended_template plan)) actual

-- The switch on the revision that was read back: the template to go on with, and whether ACOS has
-- replaced the old binding by itself.
unfoldable pub settle_binding :
    Plan → Result (Unit {0}) → ClientSslTemplate → Sync (ClientSslTemplate × Bool)
unfolding appended_template replaced_template bind_failure replaces
settle_binding plan bind_result verified =
    if revision plan.platform verified == revision plan.platform (appended_template plan)
    then pure (verified, false)
    else if replaces plan.current plan.desired
        && revision plan.platform verified == revision plan.platform (replaced_template plan)
    then pure (verified, true)
    else raise (bind_failure plan bind_result (revision plan.platform verified))

-- The error where the template cannot be read back.
unfoldable pub unread_binding : Plan → Result (Unit {0}) → Error → Error
unfolding appended_template
unread_binding plan (err bind_error) e =
    ambiguous (revision plan.platform (appended_template plan)) plan.baseline_revision
      (joined bind_error e)
unread_binding plan (ok _) e = wrapped "read back A10 certificate binding" e

-- `result.Bound = true; result.Changed = true`
unfoldable pub note_bound : Sync (Unit {0})
note_bound = set_result (λ r. record r { bound = true; changed = true })

unfoldable pub succeeded : Result (Unit {0}) → Bool
succeeded (ok _) = true
succeeded (err _) = false

unfoldable pub read_back :
    Plan → Result (Unit {0}) → Result ClientSslTemplate → Sync (ClientSslTemplate × Bool)
unfolding unread_binding settle_binding
read_back plan bind_result (err e) = raise (unread_binding plan bind_result e)
read_back plan bind_result (ok verified) = settle_binding plan bind_result verified

unfoldable pub bind_new : Plan → Sync (ClientSslTemplate × Bool)
unfolding note_bound succeeded read_back
bind_new plan = do
  modify (λ s. record s { template_mutated = true })
  bind_result ← on_world (
      attempt
        (bind_certificate plan.target.client_ssl_template plan.desired plan.bundle.key.passphrase))
  when (succeeded bind_result) note_bound
  verified ← on_world (attempt (get_client_ssl_template plan.target.client_ssl_template))
  settled ← read_back plan bind_result verified
  note_bound
  set_result (λ r. record r { stage = bound })
  pure settled

unfoldable pub bind_desired : Plan → Sync (ClientSslTemplate × Bool)
unfolding bind_new require_revision
bind_desired plan = do
  require_revision plan plan.baseline_revision "pre-bind verification"
  if has_binding plan.template.certificates plan.desired
      then (do
        verified ←
            require_revision plan (revision plan.platform plan.template) "post-bind verification"
        pure (verified, false))
      else bind_new plan

unfoldable pub note_unbound : Sync (Unit {0})
note_unbound =
    set_result (λ r. record r { unbound_old = true; changed = true; stage = old_binding_removed })

abbrev old_binding_conflict : Plan → ClientSslTemplate → Error
old_binding_conflict plan expected =
    conflict "old-binding verification" (revision plan.platform expected)
      (revision plan.platform expected)

-- `remove previous binding`, by what the expected template has under the old name
unfoldable pub remove_found :
    Plan → Binding → ClientSslTemplate → Bool → Option Binding → Sync ClientSslTemplate
unfolding require_revision note_unbound
remove_found plan current expected implicit none =
    if implicit
    then (do note_unbound; pure expected)
    else raise (old_binding_conflict plan expected)
remove_found plan current expected implicit (some actual) =
    if same_binding actual current
    then (do
      require_revision plan (revision plan.platform expected) "pre-unbind verification"
      annotate "remove previous A10 certificate binding"
          (on_world (unbind_certificate plan.target.client_ssl_template current.certificate))
      let reduced = template_without_certificate expected current.certificate
      require_revision plan (revision plan.platform reduced) "post-unbind verification"
      note_unbound
      pure reduced)
    else raise (old_binding_conflict plan expected)

unfoldable pub remove_old :
    Plan → Option Binding → ClientSslTemplate → Bool → Sync ClientSslTemplate
remove_old plan none expected implicit = pure expected
remove_old plan (some current) expected implicit =
    if current.certificate == plan.desired.certificate
    then pure expected
    else remove_found plan current expected implicit
        (find_binding expected.certificates current.certificate)

-- What follows a rollback after a failed `write memory`.
unfoldable pub report_rollback : Error → Result (Unit {0}) → Sync (Unit {0})
report_rollback cause (err e) = raise (rollback_failed "certificate synchronization" cause e)
report_rollback cause (ok _) = do
  set_result (λ r. record r { rolled_back = true; stage = rolled_back })
  raise cause

unfoldable pub after_write : Plan → ClientSslTemplate → Result (Unit {0}) → Sync (Unit {0})
unfolding report_rollback
after_write plan expected (ok _) =
    set_result (λ r. record r { wrote_memory = true; stage = persisted })
after_write plan expected (err e) = do
  uploaded ← gets (λ (s : SyncState). s.uploaded)
  rollback ← on_world (
      attempt (
        rollback_synchronization plan.platform plan.target plan.template expected plan.desired
          uploaded))
  report_rollback (wrapped "persist A10 certificate synchronization" e) rollback

unfoldable pub write_running : Plan → ClientSslTemplate → Sync (Unit {0})
unfolding after_write require_revision
write_running plan expected = do
  require_revision plan (revision plan.platform expected) "pre-persistence verification"
  written ← on_world (attempt write_memory)
  after_write plan expected written

unfoldable pub persist : Plan → ClientSslTemplate → Sync (Unit {0})
unfolding write_running
persist plan expected = do
  set_result (λ r. record r { final_revision = revision plan.platform expected })
  changed ← gets (λ (s : SyncState). s.result.changed)
  when (changed && not plan.options.no_write_memory) (write_running plan expected)
