-- ===== src/Cli/Run/Scope.antt =====
-- Which requests each command of cmd/a10-certctl/main.go sends.
use a10_certctl.Base.{◌≡◌, refl, Bool, List, Option}
use a10_certctl.Text.{Text}
use a10_certctl.Errors.{Result, ok}
use a10_certctl.Exec.{◌>>=◌, pure, lift, proceed}
use a10_certctl.Exec.Keeps.{Keeps, keeps_rules, Keeps-bind}
use a10_certctl.Axapi.{World, Io}
use a10_certctl.Axapi.Sends.{Sends, sends_rules, Sends-bind}
use a10_certctl.Session.Footprint.{
  acos_version-Sends, list_certificates-Sends, list_client_ssl_templates-Sends,
  verify_compatibility-Sends,
}
use a10_certctl.Sync.{Target}
use a10_certctl.Client.{Client, client_get_state}
use a10_certctl.Client.Scope.{Adds, Adds-refl, Sends-Keeps, in_session-Keeps}
use a10_certctl.Cli.{Shell, Output, with_session}
use a10_certctl.Cli.Inputs.{GlobalOptions, parse_globals}
use a10_certctl.Cli.Changes.{write_memory_command}
use a10_certctl.Cli.Run.Changing.{
  InScope, reads-InScope, opens-InScope, session-Keeps, compatible-Keeps, flags_of-Keeps,
  import_command-Keeps, bind_command-Keeps, unbind_command-Keeps, delete_command-Keeps,
  sync_command-Keeps,
}
use a10_certctl.Cli.Run.Operations.{find_vip-Sends, get_state-Sends, write_in_session-Sends}
use a10_certctl.Cli.Run.{
  Command, synchronize, import, bind, unbind, delete, save, show_version, check_version, list,
  list_templates, find_vip, show_status, find_domain, unknown, command_of, version_of, preflight_of,
  list_of, templates_of, vip_of, status_of, find_domain_of, run_command, run_with_client, dispatch,
  run,
}

module _ {Addr : Type 0} (parse_addr : Text → Option Addr) (same_addr : Addr → Addr → Bool)
    (shell : Shell) where
  module _ (client : Client) {w₀ : World} (c : Command) where
    reading-Keeps :
        {A : Type 0} (m : Io A) (f : A → Output)
        → Sends (InScope c) (λ w. w) m
        → Keeps (Adds (InScope c) w₀) (with_session client (do a ← m; pure (f a)))
    reading-Keeps m f h = session-Keeps client _ (Sends-bind m _ h (λ a. search sends_rules))

    version_of-Keeps : Keeps (Adds (InScope c) w₀) (version_of parse_addr same_addr shell client)
    unfolding version_of
    version_of-Keeps = reading-Keeps _ _ (acos_version-Sends (reads-InScope c))

    preflight_of-Keeps :
        Keeps (Adds (InScope c) w₀) (preflight_of parse_addr same_addr shell client)
    unfolding preflight_of
    preflight_of-Keeps = reading-Keeps _ _ (verify_compatibility-Sends (reads-InScope c))

    list_of-Keeps : Keeps (Adds (InScope c) w₀) (list_of parse_addr same_addr shell client)
    unfolding list_of
    list_of-Keeps = reading-Keeps _ _ (list_certificates-Sends (reads-InScope c))

    templates_of-Keeps :
        Keeps (Adds (InScope c) w₀) (templates_of parse_addr same_addr shell client)
    unfolding templates_of
    templates_of-Keeps = reading-Keeps _ _ (list_client_ssl_templates-Sends (reads-InScope c))

    vip_of-Keeps :
        (rest : List Text)
        → Keeps (Adds (InScope c) w₀) (vip_of parse_addr same_addr shell client rest)
    unfolding vip_of
    vip_of-Keeps rest = Keeps-bind _ _ (flags_of-Keeps shell client _ rest) λ settings.
        Keeps-bind _ _ (search keeps_rules)
          λ u. reading-Keeps _ _ (find_vip-Sends (reads-InScope c) parse_addr same_addr _)

    client_get_state-Keeps :
        (target : Target) → Keeps (Adds (InScope c) w₀) (client_get_state client target)
    unfolding client_get_state
    client_get_state-Keeps target =
        in_session-Keeps (opens-InScope c) client _
          (Sends-Keeps _ (get_state-Sends (reads-InScope c) target))

    status_of-Keeps :
        (rest : List Text)
        → Keeps (Adds (InScope c) w₀) (status_of parse_addr same_addr shell client rest)
    unfolding status_of
    status_of-Keeps rest = search (keeps_rules, flags_of-Keeps, client_get_state-Keeps) depth 12

    find_domain_of-Keeps :
        (rest : List Text)
        → Keeps (Adds (InScope c) w₀) (find_domain_of parse_addr same_addr shell client rest)
    unfolding find_domain_of
    find_domain_of-Keeps rest = Keeps-bind _ _ (flags_of-Keeps shell client _ rest) λ settings.
        Keeps-bind _ _ (search keeps_rules)
          λ u. reading-Keeps _ _ (list_certificates-Sends (reads-InScope c))

  module _ (client : Client) {w₀ : World} where
    run_command-Keeps :
        (c : Command) (rest : List Text)
        → Keeps (Adds (InScope c) w₀) (run_command parse_addr same_addr shell client c rest)
    unfolding run_command write_memory_command
    run_command-Keeps show_version rest = version_of-Keeps client show_version
    run_command-Keeps check_version rest = preflight_of-Keeps client check_version
    run_command-Keeps list rest = list_of-Keeps client list
    run_command-Keeps list_templates rest = templates_of-Keeps client list_templates
    run_command-Keeps find_vip rest = vip_of-Keeps client find_vip rest
    run_command-Keeps show_status rest = status_of-Keeps client show_status rest
    run_command-Keeps find_domain rest = find_domain_of-Keeps client find_domain rest
    run_command-Keeps synchronize rest = sync_command-Keeps shell client rest
    run_command-Keeps import rest = import_command-Keeps shell client rest
    run_command-Keeps bind rest = bind_command-Keeps shell client rest
    run_command-Keeps unbind rest = unbind_command-Keeps shell client rest
    run_command-Keeps delete rest = delete_command-Keeps shell client rest
    run_command-Keeps save rest = compatible-Keeps client _ (write_in_session-Sends (λ p. refl))
    run_command-Keeps unknown rest = search keeps_rules

  dispatch-Keeps :
      {w₀ : World} (options : GlobalOptions) (command : Text) (rest : List Text)
      → Keeps
          (Adds (InScope (command_of command)) w₀)
          (dispatch parse_addr same_addr shell options command rest)
  unfolding dispatch run_with_client
  dispatch-Keeps options command rest = search (keeps_rules, run_command-Keeps) depth 10

  proceed-Adds :
      (r : Result (GlobalOptions × Text × List Text)) (w : World) (options : GlobalOptions)
      (command : Text) (rest : List Text)
      → r ≡ ok (options, command, rest)
      → Adds
          (InScope (command_of command))
          w
          (proceed r (λ p. dispatch parse_addr same_addr shell p.0 p.1 p.2) w).1
  proceed-Adds r w options command rest e =
      rw e ((dispatch-Keeps options command rest).at w (Adds-refl _ w))

  -- Where the command line gives a command, whatever the appliance answers and however the command
  -- ends, the program sends nothing but reads, the requests that open and close a session, and the
  -- changes in the command's scope: `sync` imports files without replacing any, binds, unbinds,
  -- deletes outside the CA store and writes memory; `import` sends files; `bind` and `unbind` send
  -- bindings and their removal; `delete` deletes; each of these and `write-memory` may write memory.
  -- The other commands change nothing.
  pub run-InScope :
      (args : List Text) (w : World) (options : GlobalOptions) (command : Text) (rest : List Text)
      → parse_globals shell args ≡ ok (options, command, rest)
      → Adds (InScope (command_of command)) w (run parse_addr same_addr shell args w).1
  unfolding run ◌>>=◌ lift
  run-InScope args w options command rest e =
      proceed-Adds (parse_globals shell args) w options command rest e
