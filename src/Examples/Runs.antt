-- ===== src/Examples/Runs.antt =====
-- A rotation on the simulated appliance, and the theorems at concrete inputs.
use a10_certctl.Base.{◌≡◌, refl, List, [], ◌++◌, true, false, not, ◌&&◌}
use a10_certctl.Text.{codes}
use a10_certctl.Errors.{Error, Result, ok, err, api_error, wrapped}
use a10_certctl.Axapi.{
  ssl_cert, Request, post_file, post_delete, delete_binding, get_version, World,
}
use a10_certctl.Axapi.Sends.{Extends}
use a10_certctl.Session.Footprint.{IsRead}
use a10_certctl.Template.{Binding}
use a10_certctl.Sync.{SyncState, SyncOptions, complete}
use a10_certctl.Sync.Run.{sync_certificate, initial_state}
use a10_certctl.Sync.Cleanup.{delete_unreferenced}
use a10_certctl.Sync.Cleanup.Safe.{IsSafeCleanup, delete_unreferenced-IsSafe}
use a10_certctl.Sync.Footprint.{
  InFootprint, inspection, sync_certificate-InFootprint, failed_inspection_reads,
}
use a10_certctl.Sync.Outcome.Leftovers.{uploading}
use a10_certctl.Sync.Outcome.Unchanged.{unchanged_sends_reads}
use a10_certctl.Sync.Outcome.Written.{IsWritten, success-IsWritten}
use a10_certctl.Sync.Order.{Phase, HasRun, AreDeletionsSaved}
use a10_certctl.Sync.Order.Refines.{success_follows_protocol, success_deletes_after_saving}
use a10_certctl.Sync.Outcome.Deletions.{IsKeeping, success_keeps_files}
use a10_certctl.Examples.Appliance.{
  target, bundle, options, old_binding, world_after, world_refusing,
}

abbrev run : World → Result (Unit {0}) × SyncState
run = sync_certificate target bundle options

-- The appliance after a rotation, and one on which the new pair is bound already.
abbrev fresh : World
fresh = world_after []

abbrev rotated : World
rotated = (run fresh).1.world

-- An appliance that refuses to tell its version.
abbrev silent : World
silent = world_refusing λ r. elim r [ get_version ↦ true | _ ↦ false ]

-- An appliance that takes a key, but neither a certificate nor a deletion.
abbrev stuck : World
stuck =
    world_refusing λ r. elim r [ post_file ssl_cert _ _ ↦ true | post_delete _ ↦ true | _ ↦ false ]

abbrev unanswered_version : Error
unanswered_version = wrapped "read ACOS version" (api_error "aXAPI request failed" 500)

abbrev untaken_certificate : Error
untaken_certificate = wrapped "upload A10 certificate" (api_error "aXAPI request failed" 500)

abbrev no_cleanup : SyncOptions
no_cleanup = record options { cleanup_old = false }

-- A rotation succeeds, and the next one succeeds and changes nothing; without the version nothing
-- is inspected; a stuck appliance takes no certificate; and a rotation without the cleanup succeeds.
outcomes :
    ((run fresh).0 ≡ ok tt)
    × ((run rotated).0 ≡ ok tt)
    × ((run rotated).1.result.changed ≡ false)
    × ((inspection target bundle options (initial_state silent)).0 ≡ err unanswered_version)
    × ((uploading target bundle options (initial_state stuck)).0 ≡ err untaken_certificate)
    × ((sync_certificate target bundle no_cleanup fresh).0 ≡ ok tt)
unfolding a10_certctl.Exec.◌>>=◌ a10_certctl.Exec.pure a10_certctl.Exec.raise a10_certctl.Exec.lift
    a10_certctl.Exec.gets a10_certctl.Exec.modify a10_certctl.Exec.annotate a10_certctl.Exec.attempt
    a10_certctl.Text.◌==◌ a10_certctl.Text.len a10_certctl.Text.is_space a10_certctl.Text.is_control
    a10_certctl.Names.parse_client_ssl_template_name
    a10_certctl.Names.parse_server_ssl_template_name a10_certctl.Names.parse_virtual_server_name
    a10_certctl.Names.parse_certificate_file_name a10_certctl.Names.parse_key_file_name
    a10_certctl.Names.parse_ca_file_name a10_certctl.Names.Managed.is_letter
    a10_certctl.Names.Managed.is_digit a10_certctl.Names.Managed.is_allowed
    a10_certctl.Names.Managed.limited_name a10_certctl.Names.Managed.managed_names_for_prefix
    a10_certctl.Names.Managed.managed_names a10_certctl.Json.contains_string
    a10_certctl.Json.items_contain a10_certctl.Json.fields_contain a10_certctl.Json.axapi_boolean
    a10_certctl.Json.text_le a10_certctl.Json.escape a10_certctl.Json.Decode.fold_case
    a10_certctl.Json.Decode.fold_eq a10_certctl.Json.Decode.last_member
    a10_certctl.Json.Decode.decode_text a10_certctl.Json.Decode.decode_items
    a10_certctl.Json.Decode.decode_list a10_certctl.Json.Decode.decode_struct
    a10_certctl.Json.Decode.integer_digits a10_certctl.Json.Decode.integer_value
    a10_certctl.Json.Decode.decode_int a10_certctl.Bundle.big_endian a10_certctl.Bundle.part
    a10_certctl.Bundle.certificate_valid a10_certctl.Bundle.all_valid_at
    a10_certctl.Bundle.validate_for_sync a10_certctl.Bundle.Parse.split_all
    a10_certctl.Bundle.Parse.parse_certificate_bundle a10_certctl.Template.decode_binding_fields
    a10_certctl.Template.decode_client_fields a10_certctl.Template.decode_client_ssl
    a10_certctl.Template.decode_server_binding a10_certctl.Template.has_binding
    a10_certctl.Template.contains a10_certctl.Template.template_with_binding
    a10_certctl.Template.bindings_without a10_certctl.Template.template_without_certificate
    a10_certctl.Template.Revision.binding_text a10_certctl.Template.Revision.revision
    a10_certctl.Template.References.raw_payload_references
    a10_certctl.Template.References.binding_names
    a10_certctl.Template.References.server_binding_names
    a10_certctl.Template.References.server_template_references
    a10_certctl.Template.References.referenced a10_certctl.Axapi.check_response
    a10_certctl.Axapi.transmit a10_certctl.Axapi.get_json a10_certctl.Axapi.do_json
    a10_certctl.Session.acos_version a10_certctl.Session.decode_certificate_info
    a10_certctl.Session.list_certificates a10_certctl.Session.find_info
    a10_certctl.Session.info_or_missing a10_certctl.Session.list_certificate_files
    a10_certctl.Session.list_key_files a10_certctl.Session.list_ca_files a10_certctl.Session.get_key
    a10_certctl.Session.list_client_ssl_templates a10_certctl.Session.get_client_ssl_template
    a10_certctl.Session.list_server_ssl_templates a10_certctl.Session.upload_action
    a10_certctl.Session.upload_certificate_file a10_certctl.Session.upload_certificate
    a10_certctl.Session.all_cas a10_certctl.Session.upload_chain
    a10_certctl.Session.is_no_passphrase a10_certctl.Session.check_key
    a10_certctl.Session.upload_key a10_certctl.Session.upload_ca
    a10_certctl.Session.bind_certificate a10_certctl.Session.unbind_certificate
    a10_certctl.Session.no_material a10_certctl.Session.delete_material
    a10_certctl.Session.write_memory a10_certctl.Compatibility.release_major
    a10_certctl.Compatibility.validate_compatibility a10_certctl.Compatibility.verify_compatibility
    a10_certctl.State.current_platform a10_certctl.State.require_template_revision
    a10_certctl.Sync.for_client_ssl_template a10_certctl.Sync.for_certificate_binding
    a10_certctl.Sync.is_empty a10_certctl.Sync.on_world a10_certctl.Sync.set_result
    a10_certctl.Sync.Select.validate_target a10_certctl.Sync.Select.sole_binding
    a10_certctl.Sync.Select.select_current_binding a10_certctl.Sync.Select.is_zero_digit
    a10_certctl.Sync.Select.or_zero a10_certctl.Sync.Select.actual_serial
    a10_certctl.Sync.Select.desired_serial a10_certctl.Sync.Select.is_different
    a10_certctl.Sync.Select.verify_collision a10_certctl.Sync.Rollback.delete_uploaded
    a10_certctl.Sync.Rollback.verify_absent a10_certctl.Sync.Rollback.rollback_uploaded_material
    a10_certctl.Sync.Rollback.previous_binding a10_certctl.Sync.Rollback.restore_previous
    a10_certctl.Sync.Rollback.remove_found a10_certctl.Sync.Material.ensure_material
    a10_certctl.Sync.Rotate.replaces a10_certctl.Sync.Rotate.require_revision
    a10_certctl.Sync.Rotate.appended_template a10_certctl.Sync.Rotate.replaced_template
    a10_certctl.Sync.Rotate.bind_failure a10_certctl.Sync.Rotate.settle_binding
    a10_certctl.Sync.Rotate.unread_binding a10_certctl.Sync.Rotate.note_bound
    a10_certctl.Sync.Rotate.succeeded a10_certctl.Sync.Rotate.read_back
    a10_certctl.Sync.Rotate.bind_new a10_certctl.Sync.Rotate.bind_desired
    a10_certctl.Sync.Rotate.note_unbound a10_certctl.Sync.Rotate.remove_found
    a10_certctl.Sync.Rotate.remove_old a10_certctl.Sync.Rotate.report_rollback
    a10_certctl.Sync.Rotate.after_write a10_certctl.Sync.Rotate.write_running
    a10_certctl.Sync.Rotate.persist a10_certctl.Sync.Cleanup.is_deletable
    a10_certctl.Sync.Cleanup.deletable_pair a10_certctl.Sync.Cleanup.deleted_pair
    a10_certctl.Sync.Cleanup.delete_chain a10_certctl.Sync.Cleanup.delete_listed
    a10_certctl.Sync.Cleanup.delete_unreferenced a10_certctl.Sync.Cleanup.cleanup_binding
    a10_certctl.Sync.Cleanup.cleanup_old a10_certctl.Sync.Run.desired_binding
    a10_certctl.Sync.Run.validate_inputs a10_certctl.Sync.Run.prepare
    a10_certctl.Sync.Run.is_unexpected a10_certctl.Sync.Run.inspect a10_certctl.Sync.Run.rotate
    a10_certctl.Sync.Run.sync_body a10_certctl.Sync.Run.finish_deferred
    a10_certctl.Sync.Run.deferred a10_certctl.Sync.Run.initial_state
    a10_certctl.Sync.Run.sync_certificate a10_certctl.Sync.Run.reconcile_certificate
    a10_certctl.Session.decode_version_info
outcomes = (refl, refl, refl, refl, refl, refl)

sync_footprint_example : Extends (InFootprint target bundle options) fresh (run fresh).1.world
sync_footprint_example = sync_certificate-InFootprint target bundle options fresh

failed_inspection_example :
    ((run silent).0 ≡ err unanswered_version) × Extends IsRead silent (run silent).1.world
failed_inspection_example =
    failed_inspection_reads target bundle options silent unanswered_version outcomes.3

unchanged_example : Extends IsRead rotated (run rotated).1.world
unchanged_example = unchanged_sends_reads target bundle options rotated outcomes.1 outcomes.2

abbrev new_binding : Binding
new_binding = record old_binding { certificate = codes "web-new"; key = codes "web-new" }

IsSafeCleanup-example :
    Extends
      (IsSafeCleanup rotated old_binding new_binding)
      rotated
      (delete_unreferenced old_binding new_binding rotated).1
IsSafeCleanup-example = delete_unreferenced-IsSafe old_binding new_binding rotated

success_saved_example :
    ((run fresh).1.result.stage ≡ complete)
    × ((run fresh).1.result.wrote_memory
        ≡ ((run fresh).1.result.changed && not options.no_write_memory))
    × ((run fresh).1.result.wrote_memory ≡ true → IsWritten fresh (run fresh).1.world)
success_saved_example = success-IsWritten target bundle options fresh outcomes.0

kept_files_example :
    Extends IsKeeping fresh (sync_certificate target bundle no_cleanup fresh).1.world
kept_files_example = success_keeps_files target bundle no_cleanup fresh refl outcomes.5

protocol_example : (p : Phase) × HasRun options.no_write_memory fresh p (run fresh).1
protocol_example = success_follows_protocol target bundle options fresh outcomes.0

saved_deletions_example :
    (requests : List Request) × (((run fresh).1.world.sent ≡ requests ++ fresh.sent)
      × AreDeletionsSaved requests)
saved_deletions_example = success_deletes_after_saving target bundle options fresh refl outcomes.0
