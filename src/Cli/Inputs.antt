-- ===== src/Cli/Inputs.antt =====
-- What the command line program reads from its arguments, its environment and its files:
-- cmd/a10-certctl/main.go
use a10_certctl.Base.{Bool, false, ◌||◌, List, [], ◌∷◌, is_nil, if◌then◌else◌}
use a10_certctl.Base.Int.{ℤ}
use a10_certctl.Text.{Text, ◌==◌, codes, trim_space}
use a10_certctl.Errors.{failed, Result, ok, wrap, refuse_if, ◌>>=◌, ◌>>◌}
use a10_certctl.Names.{
  parse_client_ssl_template_name, parse_certificate_file_name, parse_key_file_name,
  parse_ca_file_name,
}
use a10_certctl.Platform.{Platform}
use a10_certctl.Bundle.{CertificateBundle}
use a10_certctl.Bundle.Parse.{parse_certificate_bundle}
use a10_certctl.Template.Revision.{parse_template_revision}
use a10_certctl.Sync.{Target, for_client_ssl_template, for_certificate_binding}
use a10_certctl.Client.Config.{System, Configured, default_timeout, new_client}
use a10_certctl.Cli.{Shell}
use a10_certctl.Cli.Flags.{
  Flag, duration_flag, text_of_flag, bool_of_flag, Settings, parse_flags, text_setting,
  bool_setting, span_setting,
}

-- `optionalCertificateFileName`, `optionalKeyFileName`, `optionalCAFileName`
unfoldable pub optional_certificate_file_name : Text → Result Text
optional_certificate_file_name value =
    if is_nil value then ok [] else parse_certificate_file_name value

unfoldable pub optional_key_file_name : Text → Result Text
optional_key_file_name value = if is_nil value then ok [] else parse_key_file_name value

unfoldable pub optional_ca_file_name : Text → Result Text
optional_ca_file_name value = if is_nil value then ok [] else parse_ca_file_name value

-- `parseTarget`
unfoldable pub parse_target : Text → Text → Result Target
parse_target template current = do
  refuse_if (is_nil (trim_space template)) (failed "template name is required")
  template_name ← parse_client_ssl_template_name template
  if is_nil current then ok (for_client_ssl_template template_name) else (do
    current_name ← parse_certificate_file_name current
    ok (for_certificate_binding template_name current_name))

-- `if *expectedRevisionValue != "" { ... }`
unfoldable pub optional_revision : Text → Result Text
optional_revision value = if is_nil value then ok [] else parse_template_revision value

-- `readBundle`
module _ (system : System) (platform : Platform) where
  unfoldable pub read_chains : List Text → Result (List Text)
  read_chains [] = ok []
  read_chains (filename ∷ filenames) = do
    chain_pem ← wrap "read CA chain" (system.read_file filename)
    more ← read_chains filenames
    ok (chain_pem ∷ more)

  unfoldable pub read_bundle : Text → Text → List Text → Text → Result CertificateBundle
  unfolding read_chains
  read_bundle certificate_file key_file chain_files passphrase = do
    certificate_pem ← wrap "read certificate" (system.read_file certificate_file)
    key_pem ← wrap "read private key" (system.read_file key_file)
    chain_pem ← read_chains chain_files
    parse_certificate_bundle platform certificate_pem key_pem passphrase chain_pem

-- `globalOptions`
pub record GlobalOptions : Type 0 where
  pub host : Text
  pub username : Text
  pub password : Text
  pub partition : Text
  pub insecure : Bool
  pub allow_insecure_http : Bool
  pub trusted_certificate : Text
  pub timeout : ℤ

-- The flags before the command.
abbrev pub global_flags : List Flag
global_flags =
    text_of_flag (codes "host")
    ∷ text_of_flag (codes "username")
    ∷ text_of_flag (codes "password")
    ∷ text_of_flag (codes "partition")
    ∷ bool_of_flag (codes "insecure-skip-verify")
    ∷ bool_of_flag (codes "allow-insecure-http")
    ∷ text_of_flag (codes "trusted-certificate")
    ∷ (record { name = codes "timeout"; kind = duration_flag })
    ∷ []

-- The command and its arguments; no command is the empty text.
unfoldable pub split_command : List Text → Text × List Text
split_command [] = ([], [])
split_command (command ∷ rest) = (command, rest)

module _ (shell : Shell) where
  -- A variable that says "1", "true" or "yes".
  unfoldable pub is_enabled : Text → Bool
  is_enabled variable =
      let value = shell.to_lower (shell.getenv variable) in
      value == codes "1" || value == codes "true" || value == codes "yes"

  unfoldable pub global_options : Settings → GlobalOptions
  unfolding is_enabled
  global_options settings = record {
    host = text_setting (codes "host") (shell.getenv (codes "A10_HOST")) settings;
    username = text_setting (codes "username") (shell.getenv (codes "A10_USERNAME")) settings;
    password = text_setting (codes "password") (shell.getenv (codes "A10_PASSWORD")) settings;
    partition = text_setting (codes "partition") (shell.getenv (codes "A10_PARTITION")) settings;
    insecure =
        bool_setting (codes "insecure-skip-verify") (is_enabled (codes "A10_INSECURE_SKIP_VERIFY"))
          settings;
    allow_insecure_http =
        bool_setting (codes "allow-insecure-http") (is_enabled (codes "A10_ALLOW_INSECURE_HTTP"))
          settings;
    trusted_certificate =
        text_setting (codes "trusted-certificate") (shell.getenv (codes "A10_TRUSTED_CERTIFICATE"))
          settings;
    timeout = span_setting (codes "timeout") default_timeout settings;
  }

  -- `parseGlobals`
  unfoldable pub parse_globals : List Text → Result (GlobalOptions × Text × List Text)
  unfolding global_options split_command
  parse_globals args = do
    parsed ← parse_flags shell.parse_duration global_flags args
    let (command, rest) = split_command parsed.1
    ok (global_options parsed.0, command, rest)

  -- `newClient`
  unfoldable pub client_of_options : GlobalOptions → Result Configured
  client_of_options options = new_client shell.system (record {
    address = options.host;
    username = options.username;
    password = options.password;
    partition = options.partition;
    partition_id = 0;
    timeout = options.timeout;
    insecure_skip_verify = options.insecure;
    allow_insecure_http = options.allow_insecure_http;
    trusted_certificate = options.trusted_certificate;
    has_http_client = false;
    user_agent = [];
  })
