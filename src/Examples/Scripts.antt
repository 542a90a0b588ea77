-- ===== src/Examples/Scripts.antt =====
-- The scripts of the commands at concrete inputs, and an appliance that is not supported.
use a10_certctl.Base.{◌≡◌, refl, true, false, [], ◌∷◌, ◌++◌, not, is_nil, if◌then◌else◌}
use a10_certctl.Text.{codes}
use a10_certctl.Json.{Json}
use a10_certctl.Errors.{Error, ok, err, compatibility}
use a10_certctl.Bundle.{chain_pem}
use a10_certctl.Axapi.{
  Body, Reply, answered, Request, post_auth, get_version, post_delete, World, MaterialNames,
}
use a10_certctl.Axapi.Sent.{Sent}
use a10_certctl.Session.{UploadOptions, no_options, no_material, write_memory}
use a10_certctl.Compatibility.{verify_compatibility}
use a10_certctl.Client.{Client, start_session, close_after}
use a10_certctl.Client.Scope.{Adds}
use a10_certctl.Cli.{with_compatible_session}
use a10_certctl.Cli.Changes.{import_material, bind_in_session, delete_in_session}
use a10_certctl.Cli.Changes.Script.{
  certificate_upload, key_upload, binding_request, certificate_only, saves_of, bind_in_session-Sent,
  delete_in_session-Sent, import_material-Sent,
}
use a10_certctl.Cli.Incompatible.{IsQuiet, incompatible-IsQuiet}
use a10_certctl.Examples.Appliance.{obj1, bundle, old_binding, toy_platform}

bind_script_example :
    Sent []
      (saves_of [] false ++ binding_request (codes "web") old_binding [] ∷ [])
      (bind_in_session (codes "web") old_binding [] false)
bind_script_example = bind_in_session-Sent (codes "web") old_binding [] false

abbrev pair : MaterialNames
pair = record { certificate = codes "old.crt"; key = codes "old.key"; ca = [] }

delete_script_example :
    Sent []
      ((saves_of [] true
          ++ (if not (is_nil (codes "old-chain"))
              then post_delete (certificate_only (codes "old-chain")) ∷ []
              else []))
        ++ (if not (no_material pair) then post_delete pair ∷ [] else []))
      (delete_in_session pair (codes "old-chain") (codes "old-chain") true)
delete_script_example = delete_in_session-Sent pair (codes "old-chain") (codes "old-chain") true

import_script_example :
    Sent []
      (((saves_of [] false
            ++ (if is_nil bundle.chain
                then []
                else certificate_upload
                    (codes "web" ++ codes "-chain")
                    (chain_pem bundle.chain)
                    no_options
                  ∷ []))
          ++ certificate_upload (codes "web") bundle.certificate.pem no_options ∷ [])
        ++ key_upload (codes "web") bundle.key.pem no_options ∷ [])
      (import_material (codes "web") (codes "web") (codes "web") bundle no_options false)
import_script_example =
    import_material-Sent (codes "web") (codes "web") (codes "web") bundle no_options false

-- An appliance of an older release
abbrev old_respond : Request → Reply
old_respond (post_auth u p) =
    answered 200
      (Body.value (obj1 (codes "authresponse") (obj1 (codes "signature") (Json.str (codes "s1")))))
old_respond get_version = answered 200 (
    Body.value (
      obj1 (codes "version")
        (obj1 (codes "oper") (obj1 (codes "sw-version") (Json.str (codes "5.2.1"))))))
old_respond r = answered 200 Body.empty

abbrev old_world : World
old_world = record {
  environment = record {
    respond = λ sent r. old_respond r;
    clock = λ sent. 500;
    platform = toy_platform;
  };
  sent = [];
  closed = true;
  partition = [];
}

abbrev operator : Client
operator = record {
  username = codes "admin";
  password = codes "secret";
  partition = [];
  partition_id = 0;
}

abbrev too_old : Error
too_old = compatibility (codes "5.2.1") "a10-certctl supports ACOS major version 6"

session_opens : (start_session operator old_world).0 ≡ ok tt
unfolding a10_certctl.Exec.◌>>=◌ a10_certctl.Exec.pure a10_certctl.Exec.lift
    a10_certctl.Exec.annotate a10_certctl.Exec.attempt a10_certctl.Exec.modify
    a10_certctl.Client.client_json a10_certctl.Client.start_session a10_certctl.Client.open_session
    a10_certctl.Client.select_partition a10_certctl.Client.resolve_partition
    a10_certctl.Session.acos_version a10_certctl.Session.decode_version_info
    a10_certctl.Compatibility.is_blank a10_certctl.Compatibility.is_decimal
    a10_certctl.Compatibility.split_digits a10_certctl.Compatibility.match_number
    a10_certctl.Compatibility.match_dot a10_certctl.Compatibility.match_end
    a10_certctl.Compatibility.release_major a10_certctl.Compatibility.validate_compatibility
    a10_certctl.Compatibility.verify_compatibility a10_certctl.Text.◌==◌ a10_certctl.Text.len
    a10_certctl.Text.is_space a10_certctl.Text.is_control a10_certctl.Text.trim_left
    a10_certctl.Text.trim_right a10_certctl.Text.trim a10_certctl.Text.trim_space
    a10_certctl.Text.has_prefix a10_certctl.Text.drop a10_certctl.Text.count
    a10_certctl.Text.trim_prefix a10_certctl.Text.decimal_from a10_certctl.Text.decimal_value
    a10_certctl.Json.Decode.fold_case a10_certctl.Json.Decode.fold_eq
    a10_certctl.Json.Decode.last_member a10_certctl.Json.Decode.decode_text
    a10_certctl.Json.Decode.decode_items a10_certctl.Json.Decode.decode_list
    a10_certctl.Json.Decode.decode_struct a10_certctl.Json.Decode.integer_digits
    a10_certctl.Json.Decode.integer_value a10_certctl.Json.Decode.decode_int
    a10_certctl.Axapi.contains_status a10_certctl.Axapi.check_status a10_certctl.Axapi.decode_body
    a10_certctl.Axapi.check_response a10_certctl.Axapi.transmit a10_certctl.Axapi.get_json
    a10_certctl.Axapi.do_json
session_opens = refl

version_is_refused : (verify_compatibility (start_session operator old_world).1).0 ≡ err too_old
unfolding a10_certctl.Exec.◌>>=◌ a10_certctl.Exec.pure a10_certctl.Exec.lift
    a10_certctl.Exec.annotate a10_certctl.Exec.attempt a10_certctl.Exec.modify
    a10_certctl.Client.client_json a10_certctl.Client.start_session a10_certctl.Client.open_session
    a10_certctl.Client.select_partition a10_certctl.Client.resolve_partition
    a10_certctl.Session.acos_version a10_certctl.Session.decode_version_info
    a10_certctl.Compatibility.is_blank a10_certctl.Compatibility.is_decimal
    a10_certctl.Compatibility.split_digits a10_certctl.Compatibility.match_number
    a10_certctl.Compatibility.match_dot a10_certctl.Compatibility.match_end
    a10_certctl.Compatibility.release_major a10_certctl.Compatibility.validate_compatibility
    a10_certctl.Compatibility.verify_compatibility a10_certctl.Text.◌==◌ a10_certctl.Text.len
    a10_certctl.Text.is_space a10_certctl.Text.is_control a10_certctl.Text.trim_left
    a10_certctl.Text.trim_right a10_certctl.Text.trim a10_certctl.Text.trim_space
    a10_certctl.Text.has_prefix a10_certctl.Text.drop a10_certctl.Text.count
    a10_certctl.Text.trim_prefix a10_certctl.Text.decimal_from a10_certctl.Text.decimal_value
    a10_certctl.Json.Decode.fold_case a10_certctl.Json.Decode.fold_eq
    a10_certctl.Json.Decode.last_member a10_certctl.Json.Decode.decode_text
    a10_certctl.Json.Decode.decode_items a10_certctl.Json.Decode.decode_list
    a10_certctl.Json.Decode.decode_struct a10_certctl.Json.Decode.integer_digits
    a10_certctl.Json.Decode.integer_value a10_certctl.Json.Decode.decode_int
    a10_certctl.Axapi.contains_status a10_certctl.Axapi.check_status a10_certctl.Axapi.decode_body
    a10_certctl.Axapi.check_response a10_certctl.Axapi.transmit a10_certctl.Axapi.get_json
    a10_certctl.Axapi.do_json
version_is_refused = refl

incompatible_example :
    (with_compatible_session operator write_memory old_world
      ≡ close_after (err too_old, (verify_compatibility (start_session operator old_world).1).1))
    × Adds IsQuiet old_world (with_compatible_session operator write_memory old_world).1
incompatible_example =
    incompatible-IsQuiet operator write_memory old_world too_old session_opens version_is_refused
