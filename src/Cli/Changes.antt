-- ===== src/Cli/Changes.antt =====
-- The commands of cmd/a10-certctl/main.go that change the appliance: sync, import, bind, unbind,
-- delete and write-memory.
pub mod Script
use Prim.Native.String.{String}
use a10_certctl.Base.{
  ℕ, Bool, true, false, not, ◌&&◌, ◌||◌, List, [], ◌∷◌, ◌++◌, Option, none, some, is_nil,
  if◌then◌else◌,
}
use a10_certctl.Text.{Text, codes}
use a10_certctl.Errors.{failed, Result, ok, err, refuse_if}
use a10_certctl.Exec.{◌>>=◌, ◌>>◌, pure, raise, lift, gets, when}
use a10_certctl.Names.{
  parse_client_ssl_template_name, parse_certificate_file_name, parse_key_file_name,
}
use a10_certctl.Bundle.{CertificateBundle, chain_pem}
use a10_certctl.Template.{Binding}
use a10_certctl.Axapi.{MaterialNames, World, Io}
use a10_certctl.Session.{
  UploadOptions, upload_key, upload_certificate, upload_chain, bind_certificate, unbind_certificate,
  delete_material, no_material, write_memory,
}
use a10_certctl.Sync.{Target, SyncOptions, SyncResult}
use a10_certctl.Client.{Client, client_sync_certificate}
use a10_certctl.Cli.{
  Shell, Output, silent, saved, result, imported, with_compatible_session, save_unless,
}
use a10_certctl.Cli.Flags.{
  Flag, text_of_flag, bool_of_flag, Settings, parse_flags, text_setting, bool_setting, list_setting,
}
use a10_certctl.Cli.Inputs.{
  optional_certificate_file_name, optional_key_file_name, optional_ca_file_name, parse_target,
  optional_revision, read_bundle,
}

-- The passphrase's variable, where no flag names another.
abbrev pub passphrase_variable : Text
passphrase_variable = codes "A10_KEY_PASSPHRASE"

abbrev pub sync_flags : List Flag
sync_flags =
    text_of_flag (codes "template")
    ∷ text_of_flag (codes "current-cert")
    ∷ text_of_flag (codes "name")
    ∷ text_of_flag (codes "cert")
    ∷ text_of_flag (codes "key")
    ∷ text_of_flag (codes "key-passphrase-env")
    ∷ text_of_flag (codes "chain")
    ∷ bool_of_flag (codes "exportable-key")
    ∷ bool_of_flag (codes "cleanup-old")
    ∷ text_of_flag (codes "expected-revision")
    ∷ bool_of_flag (codes "no-write-memory")
    ∷ bool_of_flag (codes "shared")
    ∷ []

abbrev pub import_flags : List Flag
import_flags =
    text_of_flag (codes "name")
    ∷ text_of_flag (codes "cert")
    ∷ text_of_flag (codes "key")
    ∷ text_of_flag (codes "key-passphrase-env")
    ∷ text_of_flag (codes "chain")
    ∷ bool_of_flag (codes "replace")
    ∷ bool_of_flag (codes "exportable-key")
    ∷ bool_of_flag (codes "no-write-memory")
    ∷ []

abbrev pub bind_flags : List Flag
bind_flags =
    text_of_flag (codes "template")
    ∷ text_of_flag (codes "cert")
    ∷ text_of_flag (codes "key")
    ∷ text_of_flag (codes "chain")
    ∷ text_of_flag (codes "key-passphrase-env")
    ∷ bool_of_flag (codes "no-write-memory")
    ∷ []

abbrev pub unbind_flags : List Flag
unbind_flags =
    text_of_flag (codes "template")
    ∷ text_of_flag (codes "cert")
    ∷ bool_of_flag (codes "no-write-memory")
    ∷ []

abbrev pub delete_flags : List Flag
delete_flags =
    text_of_flag (codes "cert")
    ∷ text_of_flag (codes "key")
    ∷ text_of_flag (codes "chain")
    ∷ text_of_flag (codes "ca")
    ∷ bool_of_flag (codes "no-write-memory")
    ∷ []

-- A text flag that is empty unless it is set, and a switch that is off.
unfoldable pub option : String → Settings → Text
option name settings = text_setting (codes name) [] settings

unfoldable pub flagged : String → Settings → Bool
flagged name settings = bool_setting (codes name) false settings

unfoldable pub skips_saving : Settings → Bool
unfolding flagged
skips_saving settings = flagged "no-write-memory" settings

-- The result that is printed where `SyncCertificate` returns no error.
unfoldable pub synced : (Result (Unit {0}) × Option SyncResult) × World → Result Output × World
synced ((ok _, r), w) = (ok (result r), w)
synced ((err e, r), w) = (err e, w)

unfoldable pub sync_in_client : Client → Target → CertificateBundle → SyncOptions → Io Output
unfolding synced
sync_in_client client target bundle options w =
    synced (client_sync_certificate client target bundle options w)

-- `import`, in its session
unfoldable pub import_material :
    Text → Text → Text → CertificateBundle → UploadOptions → Bool → Io Output
import_material name certificate key bundle options no_save = do
  upload_key key bundle.key.pem options
  upload_certificate certificate bundle.certificate.pem options
  chain ← if is_nil bundle.chain then pure [] else (do
    chain_name ← lift (parse_certificate_file_name (name ++ codes "-chain"))
    upload_chain chain_name (chain_pem bundle.chain) options
    pure chain_name)
  save_unless no_save
  pure (imported certificate key chain)

-- `bind`, in its session
unfoldable pub bind_in_session : Text → Binding → Text → Bool → Io Output
bind_in_session template binding passphrase no_save = do
  bind_certificate template binding passphrase
  save_unless no_save
  pure silent

-- `unbind`, in its session
unfoldable pub unbind_in_session : Text → Text → Bool → Io Output
unbind_in_session template certificate no_save = do
  unbind_certificate template certificate
  save_unless no_save
  pure silent

-- `delete`, in its session: what is asked for goes first, and only then is asking for nothing
-- refused.
unfoldable pub delete_in_session : MaterialNames → Text → Text → Bool → Io Output
delete_in_session material chain_name chain no_save = do
  when (not (no_material material)) (delete_material material)
  when (not (is_nil chain_name))
      (delete_material (record { certificate = chain_name; key = []; ca = [] }))
  lift (
      refuse_if (no_material material && is_nil chain)
        (failed "delete requires at least one of --cert, --key, --chain, or --ca"))
  save_unless no_save
  pure silent

-- `write-memory`, in its session
unfoldable pub write_in_session : Io Output
write_in_session = do write_memory; pure saved

module _ (shell : Shell) (client : Client) where
  unfoldable pub flags_of : List Flag → List Text → Io Settings
  flags_of flags rest = do
    parsed ← lift (parse_flags shell.parse_duration flags rest)
    pure parsed.0

  -- The pair and its chain, from the files that the flags name.
  unfoldable pub bundle_of : Settings → Io CertificateBundle
  unfolding option
  bundle_of settings = do
    platform ← gets (λ (w : World). w.environment.platform)
    lift (
        read_bundle shell.system platform (option "cert" settings) (option "key" settings)
          (list_setting (codes "chain") settings)
          (shell.getenv (text_setting (codes "key-passphrase-env") passphrase_variable settings)))

  unfoldable pub sync_command : List Text → Io Output
  unfolding flags_of bundle_of option flagged skips_saving sync_in_client
  sync_command rest = do
    settings ← flags_of sync_flags rest
    lift (
        refuse_if
          (is_nil (option "template" settings)
            || is_nil (option "cert" settings)
            || is_nil (option "key" settings))
          (failed "sync requires --template, --cert, and --key"))
    bundle ← bundle_of settings
    target ← lift (parse_target (option "template" settings) (option "current-cert" settings))
    expected ← lift (optional_revision (option "expected-revision" settings))
    sync_in_client client target bundle (record {
      name_prefix = option "name" settings;
      expected_revision = expected;
      exportable_key = flagged "exportable-key" settings;
      cleanup_old = flagged "cleanup-old" settings;
      no_write_memory = skips_saving settings;
      shared = flagged "shared" settings;
    })

  unfoldable pub import_command : List Text → Io Output
  unfolding flags_of bundle_of option flagged skips_saving import_material
  import_command rest = do
    settings ← flags_of import_flags rest
    lift (
        refuse_if
          (is_nil (option "name" settings)
            || is_nil (option "cert" settings)
            || is_nil (option "key" settings))
          (failed "import requires --name, --cert, and --key"))
    bundle ← bundle_of settings
    certificate ← lift (parse_certificate_file_name (option "name" settings))
    key ← lift (parse_key_file_name (option "name" settings))
    with_compatible_session client (
        import_material (option "name" settings) certificate key bundle
          (record {
            replace_file = flagged "replace" settings;
            exportable_key = flagged "exportable-key" settings;
          })
          (skips_saving settings))

  unfoldable pub bind_command : List Text → Io Output
  unfolding flags_of option skips_saving bind_in_session
  bind_command rest = do
    settings ← flags_of bind_flags rest
    lift (
        refuse_if
          (is_nil (option "template" settings)
            || is_nil (option "cert" settings)
            || is_nil (option "key" settings))
          (failed "bind requires --template, --cert, and --key"))
    template ← lift (parse_client_ssl_template_name (option "template" settings))
    certificate ← lift (parse_certificate_file_name (option "cert" settings))
    key ← lift (parse_key_file_name (option "key" settings))
    chain ← lift (optional_certificate_file_name (option "chain" settings))
    with_compatible_session client (
        bind_in_session template
          (record {
            certificate = certificate;
            key = key;
            chain = chain;
            shared = false;
            uuid = [];
            a10_url = [];
          })
          (shell.getenv (text_setting (codes "key-passphrase-env") passphrase_variable settings))
          (skips_saving settings))

  unfoldable pub unbind_command : List Text → Io Output
  unfolding flags_of option skips_saving unbind_in_session
  unbind_command rest = do
    settings ← flags_of unbind_flags rest
    lift (
        refuse_if (is_nil (option "template" settings) || is_nil (option "cert" settings))
          (failed "unbind requires --template and --cert"))
    template ← lift (parse_client_ssl_template_name (option "template" settings))
    certificate ← lift (parse_certificate_file_name (option "cert" settings))
    with_compatible_session client (unbind_in_session template certificate (skips_saving settings))

  unfoldable pub delete_command : List Text → Io Output
  unfolding flags_of option skips_saving delete_in_session
  delete_command rest = do
    settings ← flags_of delete_flags rest
    certificate ← lift (optional_certificate_file_name (option "cert" settings))
    key ← lift (optional_key_file_name (option "key" settings))
    chain ← lift (optional_certificate_file_name (option "chain" settings))
    ca ← lift (optional_ca_file_name (option "ca" settings))
    with_compatible_session client (
        delete_in_session (record { certificate = certificate; key = key; ca = ca }) chain
          (option "chain" settings) (skips_saving settings))

  unfoldable pub write_memory_command : Io Output
  unfolding write_in_session
  write_memory_command = with_compatible_session client write_in_session
