-- ===== src/Examples/CommandLine.antt =====
-- The command line program and its client at concrete inputs.
use a10_certctl.Base.{◌≡◌, ◌↔◌, ◌⊎◌, refl, true, false, [], ◌∷◌, List, none, some}
use a10_certctl.Base.Int.{pos}
use a10_certctl.Text.{Text, ◌==◌, codes}
use a10_certctl.Errors.{failed, ok, err}
use a10_certctl.Client.Config.{Url, System, Config, made, Configured, default_timeout}
use a10_certctl.Client.Lifecycle.{IsReleased}
use a10_certctl.Client.Scope.{Adds}
use a10_certctl.Cli.{Shell}
use a10_certctl.Cli.Flags.{
  parse_bool, cut_equals, find_flag, set_value, set_argument, flag_argument, unknown_argument,
  found_argument, named_argument, read_argument, parse_from, parse_flags, text_setting,
  bool_setting, span_setting,
}
use a10_certctl.Cli.Inputs.{GlobalOptions, split_command, is_enabled, global_options, parse_globals}
use a10_certctl.Cli.Domain.{matches}
use a10_certctl.Cli.Domain.Wildcard.{IsCovered, matches_iff}
use a10_certctl.Cli.Run.{command_of, delete, run_command, run}
use a10_certctl.Cli.Run.Changing.{InScope}
use a10_certctl.Cli.Run.Scope.{run-InScope}
use a10_certctl.Cli.Run.Released.{run_command-IsReleased}
use a10_certctl.Examples.Appliance.{world_after}

-- A network where every text is the address of one appliance, and no file can be read.
abbrev management : Url
management = record {
  scheme = codes "https";
  has_user = false;
  host = codes "a10.example";
  path = codes "/";
  raw_query = [];
  fragment = [];
}

abbrev system : System
system = record {
  parse_url = λ t. some management;
  read_file = λ path. err (failed "no such file");
  has_certificates = λ pem. false;
}

abbrev config : Config
config = record {
  address = codes "a10.example";
  username = codes "admin";
  password = codes "secret";
  partition = [];
  partition_id = 0;
  timeout = pos 0;
  insecure_skip_verify = false;
  allow_insecure_http = false;
  trusted_certificate = [];
  has_http_client = false;
  user_agent = [];
}

abbrev made_client : Configured
made_client = record {
  base_url = record management { path = codes "/axapi/v3" };
  client = record {
    username = codes "admin";
    password = codes "secret";
    partition = [];
    partition_id = 0;
  };
  http = made default_timeout false none;
  user_agent = codes "a10-certctl/dev";
}

wildcard_example : (matches false (codes "www.example.com") (codes "*.example.com") ≡ true) ↔ (
    (codes "www.example.com" ≡ codes "*.example.com")
    ⊎ ((false ≡ false) × IsCovered (codes "www.example.com") (codes "*.example.com")))
wildcard_example = matches_iff false (codes "www.example.com") (codes "*.example.com")

abbrev shell : Shell
shell = record {
  system = system;
  getenv = λ name. codes "secret";
  parse_duration = λ t. none;
  to_lower = λ t. t;
  is_ip = λ t. false;
}

abbrev parsed_options : GlobalOptions
parsed_options = record {
  host = codes "a10.example";
  username = codes "admin";
  password = codes "secret";
  partition = codes "secret";
  insecure = true;
  allow_insecure_http = false;
  trusted_certificate = codes "secret";
  timeout = default_timeout;
}

abbrev arguments : List Text
arguments =
    codes "--host"
    ∷ codes "a10.example"
    ∷ codes "-username=admin"
    ∷ codes "--insecure-skip-verify"
    ∷ codes "delete"
    ∷ codes "--cert"
    ∷ codes "old.crt"
    ∷ []

arguments_are_parsed :
    parse_globals shell arguments
    ≡ ok (parsed_options, codes "delete", codes "--cert" ∷ codes "old.crt" ∷ [])
unfolding parse_globals split_command global_options is_enabled parse_bool cut_equals find_flag
    set_value set_argument flag_argument unknown_argument found_argument named_argument
    read_argument parse_from parse_flags text_setting bool_setting span_setting ◌==◌
arguments_are_parsed = refl

InScope-example :
    Adds
      (InScope (command_of (codes "delete")))
      (world_after [])
      (run (λ t. some t) ◌==◌ shell arguments (world_after [])).1
InScope-example =
    run-InScope (λ t. some t) ◌==◌ shell arguments (world_after []) parsed_options (codes "delete")
      (codes "--cert" ∷ codes "old.crt" ∷ []) arguments_are_parsed

run_command_example :
    IsReleased made_client.client
      (world_after [])
      (run_command
        (λ t. some t)
        ◌==◌
        shell
        made_client.client
        delete
        (codes "--cert" ∷ codes "old.crt" ∷ [])
        (world_after [])).1
run_command_example =
    run_command-IsReleased (λ t. some t) ◌==◌ shell made_client.client delete
      (codes "--cert" ∷ codes "old.crt" ∷ []) (world_after [])
