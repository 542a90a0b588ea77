-- ===== src/Examples/Services.antt =====
-- A client's rotation and the search for a virtual address at concrete inputs.
use a10_certctl.Base.{◌↔◌, false, [], ◌∷◌, some}
use mathlib.Core.List.{Memᴰ}
use a10_certctl.Text.{◌==◌, codes}
use a10_certctl.Client.{Client, client_sync_certificate}
use a10_certctl.Client.Lifecycle.{IsReleased, client_sync_certificate-IsReleased}
use a10_certctl.VirtualServers.{VirtualServer, TlsBinding, bindings_of}
use a10_certctl.VirtualServers.Found.{IsServed, bindings_of_iff}
use a10_certctl.Examples.Appliance.{target, bundle, options, world_after}

abbrev admin : Client
admin = record {
  username = codes "admin";
  password = codes "secret";
  partition = [];
  partition_id = 0;
}

IsReleased-example :
    IsReleased admin
      (world_after [])
      (client_sync_certificate admin target bundle options (world_after [])).1
IsReleased-example = client_sync_certificate-IsReleased admin target bundle options (world_after [])

abbrev web_server : VirtualServer
web_server = record {
  name = codes "vs1";
  ip_address = codes "192.0.2.1";
  ipv6_address = [];
  ports =
      record {
        number = 443;
        protocol = codes "https";
        client_ssl_template = codes "web";
        shared_client_ssl_template = [];
      }
      ∷ [];
}

abbrev web_entry : TlsBinding
web_entry = record {
  virtual_server = codes "vs1";
  address = codes "192.0.2.1";
  port = 443;
  protocol = codes "https";
  client_ssl_template = codes "web";
  shared_partition_template = false;
}

bindings_of_example :
    Memᴰ web_entry (bindings_of (λ t. some t) ◌==◌ (codes "192.0.2.1") (web_server ∷ []))
    ↔ IsServed (λ t. some t) ◌==◌ (codes "192.0.2.1") (web_server ∷ []) web_entry
bindings_of_example =
    bindings_of_iff (λ t. some t) ◌==◌ (codes "192.0.2.1") (web_server ∷ []) web_entry
