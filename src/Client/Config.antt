-- ===== src/Client/Config.antt =====
-- `New`, `configuredAddress` and `configuredHTTPClient` of pkg/a10/client.go: what a client is made
-- from, and what is refused.
pub mod Sound
use a10_certctl.Base.{
  ℕ, Bool, true, false, not, ◌&&◌, ◌||◌, [], ◌++◌, Option, none, some, is_nil, eqb, if◌then◌else◌,
}
use a10_certctl.Base.Int.{ℤ, pos, negsuc}
use a10_certctl.Text.{Text, ◌==◌, codes, trim_space, has_suffix, trim_suffix}
use a10_certctl.Errors.{failed, wrapped, Result, ok, err, refuse_if, ◌>>=◌, ◌>>◌}
use a10_certctl.Bundle.Parse.{has_infix}
use a10_certctl.Client.{Client}

-- `*url.URL`: the fields that the package reads
pub record Url : Type 0 where
  pub scheme : Text
  -- `User != nil`
  pub has_user : Bool
  pub host : Text
  pub path : Text
  pub raw_query : Text
  pub fragment : Text

-- What the package asks of the operating system and of packages net/url and crypto/x509.
pub record System : Type 0 where
  -- `url.Parse`; `none` where it returns an error
  pub parse_url : Text → Option Url
  -- `os.ReadFile`; the error where it fails
  pub read_file : Text → Result Text
  -- `AppendCertsFromPEM`
  pub has_certificates : Text → Bool

-- `Config`; of `HTTPClient`, whether it is set
pub record Config : Type 0 where
  pub address : Text
  pub username : Text
  pub password : Text
  pub partition : Text
  pub partition_id : ℕ
  -- nanoseconds
  pub timeout : ℤ
  pub insecure_skip_verify : Bool
  pub allow_insecure_http : Bool
  pub trusted_certificate : Text
  pub has_http_client : Bool
  pub user_agent : Text

-- `*http.Client`: the caller's own, or one with a timeout, the verification of the appliance's
-- certificate left out or not, and the PEM text of roots beside the system's.
pub data HttpClient : Type 0 where
  supplied : HttpClient
  made : (timeout : ℤ) → (insecure : Bool) → (roots : Option Text) → HttpClient

-- A client with all that `New` sets
pub record Configured : Type 0 where
  pub base_url : Url
  pub client : Client
  pub http : HttpClient
  pub user_agent : Text

abbrev pub is_negative : ℤ → Bool
is_negative (pos n) = false
is_negative (negsuc n) = true

-- `timeout <= 0`
abbrev pub is_nonpositive : ℤ → Bool
is_nonpositive (pos n) = eqb n 0
is_nonpositive (negsuc n) = true

-- `30 * time.Second`
abbrev pub default_timeout : ℤ
default_timeout = pos 30_000_000_000

-- `version`, of a build that replaces nothing
abbrev pub build_version : Text
build_version = codes "dev"

-- `defaultUserAgent`
unfoldable pub default_user_agent : Text
default_user_agent = codes "a10-certctl/" ++ build_version

-- The path of the API below an address's path.
unfoldable pub api_path : Text → Text
unfolding has_suffix trim_suffix
api_path path =
    let cleaned = trim_suffix path (codes "/") in
    if has_suffix cleaned (codes "/axapi/v3") then cleaned else cleaned ++ codes "/axapi/v3"

-- `if !strings.Contains(raw, "://") { raw = "https://" + raw }`
unfoldable pub with_scheme : Text → Text
unfolding has_infix
with_scheme raw = if has_infix raw (codes "://") then raw else codes "https://" ++ raw

-- The checks of a parsed address.
unfoldable pub checked_url : Bool → Url → Result Url
unfolding api_path
checked_url allow_insecure_http parsed = do
  refuse_if (is_nil parsed.host) (failed "invalid A10 address")
  refuse_if (not (parsed.scheme == codes "https") && not (parsed.scheme == codes "http"))
      (failed "A10 address scheme must be http or https")
  refuse_if (parsed.scheme == codes "http" && not allow_insecure_http) (
      failed
        "A10 address must use https; plain HTTP is allowed only with an explicitly supplied HTTPClient")
  refuse_if parsed.has_user (failed "A10 address must not contain credentials")
  refuse_if (not (is_nil parsed.raw_query) || not (is_nil parsed.fragment))
      (failed "A10 address must not contain a query or fragment")
  ok (record parsed { path = api_path parsed.path; raw_query = []; fragment = [] })

unfoldable pub parsed_url : Bool → Option Url → Result Url
unfolding checked_url
parsed_url allow_insecure_http none = err (failed "invalid A10 address")
parsed_url allow_insecure_http (some parsed) = checked_url allow_insecure_http parsed

-- The client of a configuration, its base URL and its transport.
unfoldable pub configured : Config → Url → HttpClient → Configured
unfolding default_user_agent
configured config base_url http = record {
  base_url = base_url;
  client = record {
    username = config.username;
    password = config.password;
    partition = trim_space config.partition;
    partition_id = config.partition_id;
  };
  http = http;
  user_agent =
      if is_nil (trim_space config.user_agent)
      then default_user_agent
      else trim_space config.user_agent;
}

module _ (system : System) where
  -- `configuredAddress`
  unfoldable pub configured_address : Text → Bool → Result Url
  unfolding with_scheme parsed_url
  configured_address address allow_insecure_http = do
    let raw = trim_space address
    refuse_if (is_nil raw) (failed "missing A10 address")
    parsed_url allow_insecure_http (system.parse_url (with_scheme raw))

  -- The roots of trust beside the system's.
  unfoldable pub configured_roots : Text → Result (Option Text)
  configured_roots path = if is_nil path then ok none else (elim (system.read_file path) [
    | err e ↦ err (wrapped "read trusted certificate" e)
    | ok certificate_pem ↦ do
      refuse_if (not (system.has_certificates certificate_pem))
          (failed "trusted certificate file contains no valid PEM certificates")
      ok (some certificate_pem)
  ])

  -- `configuredHTTPClient`
  unfoldable pub configured_http_client : Config → Result HttpClient
  unfolding configured_roots
  configured_http_client config = do
    refuse_if (config.insecure_skip_verify && not (is_nil config.trusted_certificate))
        (failed "insecure TLS verification cannot be combined with a trusted certificate")
    refuse_if (is_negative config.timeout) (failed "A10 HTTP timeout must not be negative")
    if config.has_http_client
        then (do
          refuse_if
              (config.insecure_skip_verify
                || not (is_nil config.trusted_certificate)
                || not (is_nonpositive config.timeout))
              (failed "HTTPClient cannot be combined with timeout or TLS transport options")
          ok supplied)
        else (do
          roots ← configured_roots config.trusted_certificate
          ok (
              made (if is_nonpositive config.timeout then default_timeout else config.timeout)
                config.insecure_skip_verify roots))

  -- `New`
  unfoldable pub new_client : Config → Result Configured
  unfolding configured_address configured_http_client configured
  new_client config = do
    refuse_if (is_nil (trim_space config.username)) (failed "missing A10 username")
    refuse_if (is_nil config.password) (failed "missing A10 password")
    refuse_if (not (is_nil (trim_space config.partition)) && not (eqb config.partition_id 0))
        (failed "A10 partition name/selector and partition ID cannot be combined")
    base_url ←
        configured_address config.address (config.allow_insecure_http || config.has_http_client)
    http ← configured_http_client config
    ok (configured config base_url http)
