-- ===== src/Client/Create.antt =====
-- `(*Client).CreateManagedCertificate` of pkg/a10/sync.go: pre-staging in a session of its own.
use a10_certctl.Base.{refl, ◌∙◌, inl, inr, Option, none, some}
use a10_certctl.Errors.{Result, ok, err}
use a10_certctl.Bundle.{CertificateBundle, validate_for_sync}
use a10_certctl.Axapi.{World}
use a10_certctl.Sync.Create.{CreateOptions, CreateResult, create_managed_certificate}
use a10_certctl.Sync.Create.Footprint.{create-IsStaging}
use a10_certctl.Client.{Client, start_session, close, join_close}
use a10_certctl.Client.Lifecycle.{IsStarted, IsReleased, close-IsLoggedOff, start_session-IsStarted}

-- What follows the opening of the session; the result is `none` for the zero value of a call that
-- returns before the pre-staging.
unfoldable pub create_started :
    CertificateBundle
    → CreateOptions
    → Result (Unit {0}) × World
    → (Result (Unit {0}) × Option CreateResult) × World
unfolding join_close
create_started bundle options (err e, w) = ((err e, none), w)
create_started bundle options (ok _, w) =
    let (r, s) = create_managed_certificate bundle options w in
    let (c, w') = close s.world in ((join_close r c, some s.result), w')

unfoldable pub create_checked :
    Client
    → CertificateBundle
    → CreateOptions
    → Result (Unit {0})
    → World
    → (Result (Unit {0}) × Option CreateResult) × World
unfolding create_started
create_checked client bundle options (err e) w = ((err e, none), w)
create_checked client bundle options (ok _) w =
    create_started bundle options (start_session client w)

-- `(*Client).CreateManagedCertificate`
unfoldable pub client_create_managed_certificate :
    Client
    → CertificateBundle
    → CreateOptions
    → World
    → (Result (Unit {0}) × Option CreateResult) × World
unfolding create_checked
client_create_managed_certificate client bundle options w =
    create_checked client bundle options
      (validate_for_sync w.environment.platform bundle (w.environment.clock w.sent)) w

module _ (client : Client) (bundle : CertificateBundle) (options : CreateOptions) where
  created-IsReleased :
      (w : World) (x : Result (Unit {0}) × World)
      → IsStarted client w x
      → IsReleased client w (create_started bundle options x).1
  unfolding create_started
  created-IsReleased w (ok u, w') h = inr (
      inr (
        close-IsLoggedOff (create_managed_certificate bundle options w').1.world
          ((create-IsStaging bundle options w').closed ∙ h)))
  created-IsReleased w (err e, w') (inl h) = inr (inl h)
  created-IsReleased w (err e, w') (inr h) = inr (inr h)

  checked-IsReleased :
      (r : Result (Unit {0})) (w : World)
      → IsReleased client w (create_checked client bundle options r w).1
  unfolding create_checked
  checked-IsReleased (ok u) w = created-IsReleased w _ (start_session-IsStarted client w)
  checked-IsReleased (err e) w = inl refl

  -- However a client's `CreateManagedCertificate` ends, it has sent nothing; or nothing but the
  -- authentication, to which the appliance's reply has granted no session; or its last request is the
  -- log-off and the session is closed.
  pub client_create-IsReleased :
      (w : World)
      → IsReleased client w (client_create_managed_certificate client bundle options w).1
  unfolding client_create_managed_certificate
  client_create-IsReleased w = checked-IsReleased _ w
