-- ===== src/Client/Config/Sound.antt =====
-- What a client that `New` makes may count on: pkg/a10/client.go
use a10_certctl.Base.{◌≡◌, ◌≢◌, ◌⊎◌, Bool, true, false, ◌||◌, [], none}
use a10_certctl.Text.{Text, codes, trim_space, has_suffix}
use a10_certctl.Client.Config.{Url, Config, HttpClient, supplied, made, Configured, is_nonpositive}

-- An address of the API: of a host, over TLS unless plain HTTP is allowed, with no credentials, no
-- query and no fragment, below the API's path.
pub record IsApiAddress (plain_allowed : Bool) (url : Url) : Type 0 where
  pub scheme : (url.scheme ≡ codes "https") ⊎ ((url.scheme ≡ codes "http") × (plain_allowed ≡ true))
  pub host : url.host ≢ []
  pub no_user : url.has_user ≡ false
  pub no_query : url.raw_query ≡ []
  pub no_fragment : url.fragment ≡ []
  pub path : has_suffix url.path (codes "/axapi/v3") ≡ true

-- A transport of the package's own has a positive timeout, skips the verification of the appliance
-- only where the configuration says so, and then trusts no further roots; a caller's own client
-- comes with no such options.
abbrev pub IsTransport : Config → HttpClient → Type 0
IsTransport config supplied =
    (config.insecure_skip_verify ≡ false) × (config.trusted_certificate ≡ [])
IsTransport config (made timeout insecure roots) =
    (is_nonpositive timeout ≡ false)
    × (insecure ≡ config.insecure_skip_verify)
    × ((insecure ≡ true) → roots ≡ none)

-- What a client holds for the configuration that it was made from.
pub record IsConfigured (config : Config) (c : Configured) : Type 0 where
  pub address : IsApiAddress (config.allow_insecure_http || config.has_http_client) c.base_url
  pub transport : IsTransport config c.http
  pub username : trim_space c.client.username ≢ []
  pub password : c.client.password ≢ []
  pub one_partition : (c.client.partition ≡ []) ⊎ (c.client.partition_id ≡ 0)
