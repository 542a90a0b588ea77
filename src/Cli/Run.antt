-- ===== src/Cli/Run.antt =====
-- `run` of cmd/a10-certctl/main.go, and its commands that only read.
mod Operations
pub mod Changing
pub mod Scope
pub mod Released
use a10_certctl.Base.{Bool, true, false, ◌||◌, List, [], ◌∷◌, Option, is_nil, if◌then◌else◌}
use a10_certctl.Text.{Text, ◌==◌, codes, trim_space}
use a10_certctl.Errors.{failed, Result, ok, err, refuse_if}
use a10_certctl.Exec.{◌>>=◌, ◌>>◌, pure, raise, lift}
use a10_certctl.Axapi.{Io}
use a10_certctl.Session.{acos_version, list_certificates, list_client_ssl_templates}
use a10_certctl.Compatibility.{verify_compatibility}
use a10_certctl.VirtualServers.{find_client_ssl_templates_by_vip}
use a10_certctl.Client.{Client, client_get_state}
use a10_certctl.Client.Config.{Configured, build_version}
use a10_certctl.Cli.{
  Shell, Output, usage, build_info, version, preflight, certificates, templates, bindings, state,
  with_session,
}
use a10_certctl.Cli.Flags.{Flag, text_of_flag}
use a10_certctl.Cli.Inputs.{GlobalOptions, parse_target, parse_globals, client_of_options}
use a10_certctl.Cli.Domain.{matching_certificates}
use a10_certctl.Cli.Changes.{
  option, flags_of, sync_command, import_command, bind_command, unbind_command, delete_command,
  write_memory_command,
}

abbrev pub vip_flags : List Flag
vip_flags = text_of_flag (codes "address") ∷ []

abbrev pub status_flags : List Flag
status_flags = text_of_flag (codes "template") ∷ text_of_flag (codes "current-cert") ∷ []

abbrev pub domain_flags : List Flag
domain_flags = text_of_flag (codes "domain") ∷ []

-- The commands, by their names.
pub data Command : Type 0 where
  show_version check_version list list_templates : Command
  find_vip show_status find_domain synchronize : Command
  import bind unbind : Command
  delete save unknown : Command

-- The cases of the `switch`
unfoldable pub command_of : Text → Command
command_of name =
    if name == codes "version"
    then show_version
    else if name == codes "preflight"
    then check_version
    else if name == codes "list"
    then list
    else if name == codes "templates"
    then list_templates
    else if name == codes "vip"
    then find_vip
    else if name == codes "status"
    then show_status
    else if name == codes "find-domain"
    then find_domain
    else if name == codes "sync"
    then synchronize
    else if name == codes "import"
    then import
    else if name == codes "bind"
    then bind
    else if name == codes "unbind"
    then unbind
    else if name == codes "delete"
    then delete
    else if name == codes "write-memory"
    then save
    else unknown

-- `netip.ParseAddr`, and the comparison of two addresses
module _ {Addr : Type 0} (parse_addr : Text → Option Addr) (same_addr : Addr → Addr → Bool)
    (shell : Shell) where
  module _ (client : Client) where
    unfoldable pub version_of : Io Output
    version_of = with_session client (do v ← acos_version; pure (version v))

    unfoldable pub preflight_of : Io Output
    preflight_of = with_session client (do v ← verify_compatibility; pure (preflight v))

    unfoldable pub list_of : Io Output
    list_of = with_session client (do cs ← list_certificates; pure (certificates cs))

    unfoldable pub templates_of : Io Output
    templates_of = with_session client (do ts ← list_client_ssl_templates; pure (templates ts))

    unfoldable pub vip_of : List Text → Io Output
    vip_of rest = do
      settings ← flags_of shell client vip_flags rest
      lift (
          refuse_if (is_nil (trim_space (option "address" settings)))
            (failed "vip requires --address"))
      with_session client (do
        found ← find_client_ssl_templates_by_vip parse_addr same_addr (option "address" settings)
        pure (bindings found))

    unfoldable pub status_of : List Text → Io Output
    status_of rest = do
      settings ← flags_of shell client status_flags rest
      target ← lift (parse_target (option "template" settings) (option "current-cert" settings))
      found ← client_get_state client target
      pure (state found)

    unfoldable pub find_domain_of : List Text → Io Output
    find_domain_of rest = do
      settings ← flags_of shell client domain_flags rest
      lift (
          refuse_if (is_nil (trim_space (option "domain" settings)))
            (failed "find-domain requires --domain"))
      with_session client (do
        cs ← list_certificates
        pure (
            certificates
              (matching_certificates shell.to_lower shell.is_ip (option "domain" settings) cs)))

    unfoldable pub run_command : Command → List Text → Io Output
    unfolding version_of preflight_of list_of templates_of vip_of status_of find_domain_of
    run_command show_version rest = version_of
    run_command check_version rest = preflight_of
    run_command list rest = list_of
    run_command list_templates rest = templates_of
    run_command find_vip rest = vip_of rest
    run_command show_status rest = status_of rest
    run_command find_domain rest = find_domain_of rest
    run_command synchronize rest = sync_command shell client rest
    run_command import rest = import_command shell client rest
    run_command bind rest = bind_command shell client rest
    run_command unbind rest = unbind_command shell client rest
    run_command delete rest = delete_command shell client rest
    run_command save rest = write_memory_command shell client
    run_command unknown rest = raise (failed "unknown command")

  -- A command that needs a client.
  unfoldable pub run_with_client : GlobalOptions → Text → List Text → Io Output
  unfolding command_of run_command
  run_with_client options command rest = do
    configured ← lift (client_of_options shell options)
    run_command configured.client (command_of command) rest

  unfoldable pub is_help : Text → Bool
  is_help command =
      is_nil command
      || command == codes "help"
      || command == codes "-h"
      || command == codes "--help"

  unfoldable pub dispatch : GlobalOptions → Text → List Text → Io Output
  unfolding is_help run_with_client
  dispatch options command rest =
      if is_help command
      then pure usage
      else if command == codes "build-info"
      then pure (build_info build_version)
      else run_with_client options command rest

  -- `run`
  unfoldable pub run : List Text → Io Output
  unfolding dispatch
  run args = do parsed ← lift (parse_globals shell args); dispatch parsed.0 parsed.1 parsed.2
