-- ===== src/Cli/Run/Released.antt =====
-- Every session that the program of cmd/a10-certctl/main.go opens is logged off.
use a10_certctl.Base.{Bool, List, Option}
use a10_certctl.Text.{Text}
use a10_certctl.Errors.{Result, ok, err}
use a10_certctl.Exec.{◌>>=◌, pure}
use a10_certctl.Axapi.{MaterialNames, World, Io}
use a10_certctl.Axapi.Sends.{Sends, Sends-bind, sends_rules}
use a10_certctl.Bundle.{CertificateBundle}
use a10_certctl.Template.{Binding}
use a10_certctl.Session.{UploadOptions}
use a10_certctl.Session.Footprint.{
  acos_version-Sends, list_certificates-Sends, list_client_ssl_templates-Sends,
  verify_compatibility-Sends,
}
use a10_certctl.Sync.{Target, SyncOptions, SyncResult}
use a10_certctl.Client.{Client, client_get_state}
use a10_certctl.Client.Lifecycle.{IsReleased, client_sync_certificate-IsReleased}
use a10_certctl.Client.Releases.{
  IsSilent, Releases, Anything, silent_rules, Releases-silent, Releases-before, Releases-after,
  in_session-Releases,
}
use a10_certctl.Cli.{Shell, Output, with_session, with_compatible_session}
use a10_certctl.Cli.Flags.{Flag, Settings}
use a10_certctl.Cli.Changes.{
  flags_of, bundle_of, synced, sync_in_client, import_material, bind_in_session, unbind_in_session,
  delete_in_session, sync_command, import_command, bind_command, unbind_command, delete_command,
  write_memory_command,
}
use a10_certctl.Cli.Run.Operations.{
  find_vip-Sends, get_state-Sends, write_in_session-Sends, import_material-Sends,
  bind_in_session-Sends, unbind_in_session-Sends, delete_in_session-Sends,
}
use a10_certctl.Cli.Run.{
  Command, synchronize, import, bind, unbind, delete, save, show_version, check_version, list,
  list_templates, find_vip, show_status, find_domain, unknown, version_of, preflight_of, list_of,
  templates_of, vip_of, status_of, find_domain_of, run_command,
}

module _ (client : Client) where
  module _ {A : Type 0} where
    session-Releases :
        (operation : Io A)
        → Sends Anything (λ w. w) operation
        → Releases client (with_session client operation)
    unfolding with_session
    session-Releases operation h = in_session-Releases client operation h

    compatible-Releases :
        (operation : Io A)
        → Sends Anything (λ w. w) operation
        → Releases client (with_compatible_session client operation)
    unfolding with_compatible_session
    compatible-Releases operation h =
        session-Releases _ (Sends-bind _ _ (verify_compatibility-Sends (λ r k. tt)) (λ v. h))

  reading-Releases :
      {A : Type 0} (m : Io A) (f : A → Output)
      → Sends Anything (λ w. w) m
      → Releases client (with_session client (do a ← m; pure (f a)))
  reading-Releases m f h = session-Releases _ (Sends-bind m _ h (λ a. search sends_rules))

  module _ (shell : Shell) where
    flags_of-IsSilent :
        (flags : List Flag) (rest : List Text) → IsSilent (flags_of shell client flags rest)
    unfolding flags_of
    flags_of-IsSilent flags rest = search silent_rules

    bundle_of-IsSilent : (settings : Settings) → IsSilent (bundle_of shell client settings)
    unfolding bundle_of
    bundle_of-IsSilent settings = search silent_rules

    synced-IsReleased :
        (w : World) (x : (Result (Unit {0}) × Option SyncResult) × World)
        → IsReleased client w x.1
        → IsReleased client w (synced x).1
    unfolding synced
    synced-IsReleased w ((ok u, r), w') h = h
    synced-IsReleased w ((err e, r), w') h = h

    synchronizing-Releases :
        (target : Target) (bundle : CertificateBundle) (options : SyncOptions)
        → Releases client (sync_in_client client target bundle options)
    unfolding sync_in_client
    synchronizing-Releases target bundle options = record {
      at = λ w.
          synced-IsReleased w _ (client_sync_certificate-IsReleased client target bundle options w);
    }

    sync_command-Releases : (rest : List Text) → Releases client (sync_command shell client rest)
    unfolding sync_command
    sync_command-Releases rest =
        search
          (
            silent_rules, Releases-before, flags_of-IsSilent, bundle_of-IsSilent,
            synchronizing-Releases,
          )
          depth 14

    importing-Releases :
        (name certificate key : Text) (b : CertificateBundle) (o : UploadOptions) (no_save : Bool)
        → Releases client
            (with_compatible_session client (import_material name certificate key b o no_save))
    importing-Releases name certificate key b o no_save =
        compatible-Releases _
          (import_material-Sends (λ p. tt) (λ kind doc pem. tt) name certificate key b o no_save)

    binding-Releases :
        (template : Text) (b : Binding) (passphrase : Text) (no_save : Bool)
        → Releases client
            (with_compatible_session client (bind_in_session template b passphrase no_save))
    binding-Releases template b passphrase no_save =
        compatible-Releases _
          (bind_in_session-Sends (λ p. tt) (λ t doc. tt) template b passphrase no_save)

    unbinding-Releases :
        (template certificate : Text) (no_save : Bool)
        → Releases client
            (with_compatible_session client (unbind_in_session template certificate no_save))
    unbinding-Releases template certificate no_save =
        compatible-Releases _
          (unbind_in_session-Sends (λ p. tt) (λ t c. tt) template certificate no_save)

    deleting-Releases :
        (m : MaterialNames) (chain_name chain : Text) (no_save : Bool)
        → Releases client
            (with_compatible_session client (delete_in_session m chain_name chain no_save))
    deleting-Releases m chain_name chain no_save =
        compatible-Releases _
          (delete_in_session-Sends (λ p. tt) (λ n. tt) m chain_name chain no_save)

    import_command-Releases :
        (rest : List Text) → Releases client (import_command shell client rest)
    unfolding import_command
    import_command-Releases rest =
        search
          (silent_rules, Releases-before, flags_of-IsSilent, bundle_of-IsSilent, importing-Releases)
          depth 14

    bind_command-Releases : (rest : List Text) → Releases client (bind_command shell client rest)
    unfolding bind_command
    bind_command-Releases rest =
        search (silent_rules, Releases-before, flags_of-IsSilent, binding-Releases) depth 14

    unbind_command-Releases :
        (rest : List Text) → Releases client (unbind_command shell client rest)
    unfolding unbind_command
    unbind_command-Releases rest =
        search (silent_rules, Releases-before, flags_of-IsSilent, unbinding-Releases) depth 14

    delete_command-Releases :
        (rest : List Text) → Releases client (delete_command shell client rest)
    unfolding delete_command
    delete_command-Releases rest =
        search (silent_rules, Releases-before, flags_of-IsSilent, deleting-Releases) depth 14

module _ {Addr : Type 0} (parse_addr : Text → Option Addr) (same_addr : Addr → Addr → Bool)
    (shell : Shell) (client : Client) where
  vip_of-Releases :
      (rest : List Text) → Releases client (vip_of parse_addr same_addr shell client rest)
  unfolding vip_of
  vip_of-Releases rest =
      Releases-before client _ _ (flags_of-IsSilent client shell _ rest) λ settings.
        Releases-before client _ _ (search silent_rules)
          λ u. reading-Releases client _ _ (find_vip-Sends (λ r k. tt) parse_addr same_addr _)

  client_get_state-Releases : (target : Target) → Releases client (client_get_state client target)
  unfolding client_get_state
  client_get_state-Releases target =
      in_session-Releases client _ (get_state-Sends (λ r k. tt) target)

  status_of-Releases :
      (rest : List Text) → Releases client (status_of parse_addr same_addr shell client rest)
  unfolding status_of
  status_of-Releases rest =
      Releases-before client _ _ (flags_of-IsSilent client shell _ rest) λ settings.
        Releases-before client _ _ (search silent_rules) λ target.
          Releases-after client _ _ (client_get_state-Releases target) (λ a. search silent_rules)

  find_domain_of-Releases :
      (rest : List Text) → Releases client (find_domain_of parse_addr same_addr shell client rest)
  unfolding find_domain_of
  find_domain_of-Releases rest =
      Releases-before client _ _ (flags_of-IsSilent client shell _ rest) λ settings.
        Releases-before client _ _ (search silent_rules)
          λ u. reading-Releases client _ _ (list_certificates-Sends (λ r k. tt))

  run_command-Releases :
      (c : Command) (rest : List Text)
      → Releases client (run_command parse_addr same_addr shell client c rest)
  unfolding run_command version_of preflight_of list_of templates_of write_memory_command
  run_command-Releases show_version rest =
      reading-Releases client _ _ (acos_version-Sends (λ r k. tt))
  run_command-Releases check_version rest =
      reading-Releases client _ _ (verify_compatibility-Sends (λ r k. tt))
  run_command-Releases list rest = reading-Releases client _ _ (list_certificates-Sends (λ r k. tt))
  run_command-Releases list_templates rest =
      reading-Releases client _ _ (list_client_ssl_templates-Sends (λ r k. tt))
  run_command-Releases find_vip rest = vip_of-Releases rest
  run_command-Releases show_status rest = status_of-Releases rest
  run_command-Releases find_domain rest = find_domain_of-Releases rest
  run_command-Releases synchronize rest = sync_command-Releases client shell rest
  run_command-Releases import rest = import_command-Releases client shell rest
  run_command-Releases bind rest = bind_command-Releases client shell rest
  run_command-Releases unbind rest = unbind_command-Releases client shell rest
  run_command-Releases delete rest = delete_command-Releases client shell rest
  run_command-Releases save rest = compatible-Releases client _ (write_in_session-Sends (λ p. tt))
  run_command-Releases unknown rest = Releases-silent client _ (search silent_rules)

  -- However a command ends, the program has sent nothing for it; or nothing but the authentication, to
  -- which the appliance's reply has granted no session; or its last request is the log-off and the
  -- session is closed.
  pub run_command-IsReleased :
      (c : Command) (rest : List Text) (w : World)
      → IsReleased client w (run_command parse_addr same_addr shell client c rest w).1
  run_command-IsReleased c rest w = (run_command-Releases c rest).at w
