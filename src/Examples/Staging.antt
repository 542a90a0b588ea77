-- ===== src/Examples/Staging.antt =====
-- The pre-staging of a certificate on the simulated appliance.
use a10_certctl.Base.{true, false, []}
use a10_certctl.Text.{codes}
use a10_certctl.Errors.{Error, api_error, Result, ok, err}
use a10_certctl.Axapi.{ssl_cert, Request, post_file, post_delete, World}
use a10_certctl.Axapi.Sends.{Extends}
use a10_certctl.Client.Create.{client_create_managed_certificate, client_create-IsReleased}
use a10_certctl.Client.{Client}
use a10_certctl.Client.Lifecycle.{IsReleased}
use a10_certctl.Sync.Create.{CreateOptions, CreateState, create_managed_certificate}
use a10_certctl.Sync.Create.Footprint.{IsStaging, create-IsStaging}
use a10_certctl.Examples.Appliance.{bundle, world_after, world_refusing}

abbrev staging : CreateOptions
staging = record { name_prefix = codes "web"; exportable_key = false; no_write_memory = false }

IsStaging-example :
    Extends IsStaging
      (world_after [])
      (create_managed_certificate bundle staging (world_after [])).1.world
IsStaging-example = create-IsStaging bundle staging (world_after [])

abbrev operator : Client
operator = record {
  username = codes "admin";
  password = codes "secret";
  partition = [];
  partition_id = 0;
}

created_session_example :
    IsReleased operator
      (world_after [])
      (client_create_managed_certificate operator bundle staging (world_after [])).1
created_session_example = client_create-IsReleased operator bundle staging (world_after [])

-- An appliance that takes a key, but neither a certificate nor a deletion.
abbrev stuck : World
stuck =
    world_refusing λ r. elim r [ post_file ssl_cert _ _ ↦ true | post_delete _ ↦ true | _ ↦ false ]

abbrev pre_stage : World → Result (Unit {0}) × CreateState
pre_stage = create_managed_certificate bundle staging

abbrev left_staged : Error
left_staged = elim (pre_stage stuck).0 [ ok _ ↦ api_error "aXAPI request failed" 500 | err e ↦ e ]
