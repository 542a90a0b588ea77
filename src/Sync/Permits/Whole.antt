-- ===== src/Sync/Permits/Whole.antt =====
-- What a whole call of `SyncCertificate` may send.
use a10_certctl.Base.{◌≡◌, refl, Bool, true, false, not, [], is_nil, if◌then◌else◌}
use a10_certctl.Text.{Text}
use a10_certctl.Errors.{Error, Result, ok, err}
use a10_certctl.Exec.Returns.{Returns, Returns-bind, Returns-next, Returns-lift, Returns-pure}
use a10_certctl.Bundle.{CertificateBundle}
use a10_certctl.Names.Managed.{managed_names}
use a10_certctl.Axapi.{MaterialNames, Request, post_delete, World}
use a10_certctl.Axapi.Sends.{
  Extends, Extends-refl, Extends-trans, Sends, Sends-bind-Returns, sends_rules,
}
use a10_certctl.Session.Footprint.{
  IsRead, get_client_ssl_template-Sends, verify_compatibility-Sends,
}
use a10_certctl.Sync.{Target, SyncOptions, SyncState, UploadedMaterial, on_world}
use a10_certctl.Sync.Rollback.{rollback_uploaded_material}
use a10_certctl.Sync.Run.{
  validate_inputs, prepare, inspect, desired_binding, sync_body, finish_deferred, deferred,
  initial_state, sync_certificate,
}
use a10_certctl.Sync.Permits.{Permits, IsPlanFor}
use a10_certctl.Sync.Permits.Phases.{
  world_of, on_world-Sends, set_result-Sends, rollback_uploaded_material-Sends,
}
use a10_certctl.Sync.Permits.Rotation.{rotate-Sends}

module _ (target : Target) (bundle : CertificateBundle) (options : SyncOptions) where
  -- The names that `managed_names` gives.
  abbrev pub AreManaged : Text × Text → Type 0
  AreManaged names =
      managed_names target.client_ssl_template bundle.checksum (not (is_nil bundle.chain))
        options.name_prefix
      ≡ ok names

  pub prepare-Returns : Returns AreManaged (prepare target bundle options)
  unfolding prepare
  prepare-Returns = Returns-next _ _ λ a. Returns-next _ _ λ b. Returns-next _ _ λ c.
      Returns-bind AreManaged _ _ (Returns-lift _ (λ names e. e))
        λ names e. Returns-next _ _ λ d. Returns-pure names e

  pub inspect-Returns :
      (names : Text × Text)
      → Returns (IsPlanFor target names options) (inspect target bundle options names)
  unfolding inspect desired_binding
  inspect-Returns names = Returns-next _ _ λ a. Returns-next _ _ λ b. Returns-next _ _ λ c.
      Returns-next _ _ λ d. Returns-next _ _ λ e. Returns-next _ _ λ f. Returns-pure _ (record {
        target_eq = refl;
        options_eq = refl;
        certificate_eq = refl;
        key_eq = refl;
        chain_eq = refl;
      })

  module _ {P : Request → Type 0} (reads : (r : Request) → IsRead r → P r) where
    validate_inputs-Sends : Sends P world_of (validate_inputs target bundle)
    unfolding validate_inputs
    validate_inputs-Sends = search sends_rules

    pub prepare-Sends : Sends P world_of (prepare target bundle options)
    unfolding prepare
    prepare-Sends =
        search
          (
            sends_rules,
            set_result-Sends,
            on_world-Sends,
            validate_inputs-Sends,
            verify_compatibility-Sends {P = P},
          )
          depth 12

    pub inspect-Sends :
        (names : Text × Text) → Sends P world_of (inspect target bundle options names)
    unfolding inspect
    inspect-Sends names =
        search
          (sends_rules, set_result-Sends, on_world-Sends, get_client_ssl_template-Sends {P = P})
          depth 12

  module _ {P : Request → Type 0} (reads : (r : Request) → IsRead r → P r)
      (deletes : (m : MaterialNames) → m.ca ≡ [] → P (post_delete m))
      (permits : (names : Text × Text)
        → AreManaged names
        → Permits P (Unit {0}) target names options) where
    pub sync_body-Sends : Sends P world_of (sync_body target bundle options)
    unfolding sync_body
    sync_body-Sends =
        Sends-bind-Returns AreManaged _ _ (prepare-Sends reads) prepare-Returns λ names managed.
          Sends-bind-Returns (IsPlanFor target names options) _ _ (inspect-Sends reads names)
            (inspect-Returns names) λ plan fits. rotate-Sends (permits names managed) plan fits tt

    finish_deferred-Sends :
        (e : Error) (r : Result (Unit {0})) → Sends P world_of (finish_deferred e r)
    unfolding finish_deferred
    finish_deferred-Sends e (ok u) = record { at = λ s. Extends-refl P s.world }
    finish_deferred-Sends e (err x) = record { at = λ s. Extends-refl P s.world }

    roll_back : (m : UploadedMaterial) → Sends P world_of (on_world (rollback_uploaded_material m))
    roll_back m = on_world-Sends _ (rollback_uploaded_material-Sends reads deletes m)

    Extends-either :
        (w : World) (b : Bool) (x y : Result (Unit {0}) × SyncState)
        → Extends P w x.1.world
        → Extends P w y.1.world
        → Extends P w (if b then x else y).1.world
    Extends-either w true x y hx hy = hx
    Extends-either w false x y hx hy = hy

    deferred-Sends : (r : Result (Unit {0})) → Sends P world_of (deferred r)
    unfolding deferred
    deferred-Sends (ok u) = record { at = λ s. Extends-refl P s.world }
    deferred-Sends (err e) = record {
      at = λ s.
          let (r, s') = on_world (rollback_uploaded_material s.uploaded) s in
          Extends-either s.world _ _ _ (Extends-refl P s.world)
            (Extends-trans ((roll_back s.uploaded).at s) ((finish_deferred-Sends e r).at s'));
    }

    -- A whole call sends what is permitted, and nothing else.
    pub sync_certificate-Sends :
        (w : World) → Extends P w (sync_certificate target bundle options w).1.world
    unfolding sync_certificate initial_state
    sync_certificate-Sends w =
        let (r, s) = sync_body target bundle options (initial_state w) in
        Extends-trans (sync_body-Sends.at (initial_state w)) ((deferred-Sends r).at s)
