-- ===== src/Sync/Run.antt =====
-- `(*Session).SyncCertificate` and `(*Session).ReconcileCertificate` of pkg/a10/sync.go
use a10_certctl.Base.{Bool, true, false, not, ◌&&◌, ◌||◌, [], is_nil, if◌then◌else◌}
use a10_certctl.Text.{Text, ◌==◌}
use a10_certctl.Errors.{Error, conflict, rollback_failed, Result, ok, err}
use a10_certctl.Exec.{◌>>=◌, ◌>>◌, pure, raise, lift, gets, when}
use a10_certctl.Bundle.{CertificateBundle, validate_for_sync}
use a10_certctl.Names.Managed.{managed_names}
use a10_certctl.Template.{Binding}
use a10_certctl.Template.Revision.{revision}
use a10_certctl.Axapi.{World}
use a10_certctl.Session.{get_client_ssl_template}
use a10_certctl.Compatibility.{verify_compatibility}
use a10_certctl.Sync.{
  Target, SyncOptions, initial_result, nothing_uploaded, is_empty, SyncState, Sync,
  compatibility_verified, state_inspected, rolled_back, complete, on_world, set_result,
}
use a10_certctl.Sync.Select.{validate_target, select_current_binding}
use a10_certctl.Sync.Rollback.{rollback_uploaded_material}
use a10_certctl.Sync.Material.{Plan, ensure_material}
use a10_certctl.Sync.Rotate.{bind_desired, remove_old, persist}
use a10_certctl.Sync.Cleanup.{cleanup_old}

unfoldable pub desired_binding : Text → Text → SyncOptions → Binding
desired_binding name chain_name options = record {
  certificate = name;
  key = name;
  chain = chain_name;
  shared = options.shared;
  uuid = [];
  a10_url = [];
}

unfoldable pub validate_inputs : Target → CertificateBundle → Sync (Unit {0})
validate_inputs target bundle = do
  world ← gets (λ (s : SyncState). s.world)
  lift (validate_for_sync world.environment.platform bundle (world.environment.clock world.sent))
  lift (validate_target target)

-- The names of the managed files, after the appliance's version is known to be supported.
unfoldable pub prepare : Target → CertificateBundle → SyncOptions → Sync (Text × Text)
unfolding validate_inputs
prepare target bundle options = do
  validate_inputs target bundle
  on_world verify_compatibility
  set_result (λ r. record r { stage = compatibility_verified })
  names ← lift (
      managed_names target.client_ssl_template bundle.checksum (not (is_nil bundle.chain))
        options.name_prefix)
  set_result (λ r. record r {
    certificate = record {
      name = names.0;
      chain_name = names.1;
      certificate_checksum = bundle.certificate.checksum;
      key_checksum = bundle.key.checksum;
      bundle_checksum = bundle.checksum;
    };
  })
  pure names

-- `options.ExpectedRevision != "" && options.ExpectedRevision != baselineRevision`
unfoldable pub is_unexpected : SyncOptions → Text → Bool
is_unexpected options baseline =
    not (is_nil options.expected_revision) && not (options.expected_revision == baseline)

-- The state of the slot, as the rotation finds it.
unfoldable pub inspect : Target → CertificateBundle → SyncOptions → Text × Text → Sync Plan
unfolding desired_binding is_unexpected
inspect target bundle options names = do
  template ← on_world (get_client_ssl_template target.client_ssl_template)
  platform ← gets (λ (s : SyncState). s.world.environment.platform)
  let baseline = revision platform template
  set_result (λ r. record r {
    initial_revision = baseline;
    final_revision = baseline;
    stage = state_inspected;
  })
  when (is_unexpected options baseline)
      (raise (conflict "initial compare" options.expected_revision baseline))
  let desired = desired_binding names.0 names.1 options
  current ← lift (select_current_binding template.certificates target desired)
  set_result (λ r. record r { previous_binding = current })
  pure (record {
    platform = platform;
    target = target;
    bundle = bundle;
    options = options;
    template = template;
    baseline_revision = baseline;
    desired = desired;
    current = current;
  })

-- From the first change to the end.
unfoldable pub rotate : Plan → Sync (Unit {0})
rotate plan = do
  ensure_material plan
  bound ← bind_desired plan
  expected ← remove_old plan plan.current bound.0 bound.1
  persist plan expected
  cleanup_old plan plan.current
  set_result (λ r. record r { stage = complete })

unfoldable pub sync_body : Target → CertificateBundle → SyncOptions → Sync (Unit {0})
unfolding prepare inspect rotate
sync_body target bundle options = do
  names ← prepare target bundle options
  plan ← inspect target bundle options names
  rotate plan

-- How the deferred function ends, by the result of its rollback.
unfoldable pub finish_deferred : Error → Result (Unit {0}) → Sync (Unit {0})
finish_deferred cause (err e) s =
    (err (rollback_failed "synchronize certificate material" cause e), s)
finish_deferred cause (ok _) s =
    (err cause, record s { result = record s.result { rolled_back = true; stage = rolled_back } })

-- The deferred function. It is set up before the first upload; until then it does nothing.
unfoldable pub deferred : Result (Unit {0}) → Sync (Unit {0})
unfolding finish_deferred
deferred (ok _) s = (ok tt, s)
deferred (err e) s =
    if is_empty s.uploaded || s.template_mutated
    then (err e, s)
    else (let (r, s') = on_world (rollback_uploaded_material s.uploaded) s in
        finish_deferred e r s')

unfoldable pub initial_state : World → SyncState
initial_state world = record {
  world = world;
  result = initial_result;
  uploaded = nothing_uploaded;
  template_mutated = false;
}

-- The error and, in the state, the result and the world that the call leaves.
unfoldable pub sync_certificate :
    Target → CertificateBundle → SyncOptions → World → Result (Unit {0}) × SyncState
unfolding sync_body deferred initial_state
sync_certificate target bundle options world =
    let (r, s) = sync_body target bundle options (initial_state world) in deferred r s

unfoldable pub reconcile_certificate :
    Target → CertificateBundle → SyncOptions → World → Result (Unit {0}) × SyncState
unfolding sync_certificate
reconcile_certificate = sync_certificate
