-- ===== src/VirtualServers.antt =====
-- pkg/a10/virtual_servers.go: the client-SSL templates that serve a virtual address.
pub mod Described
pub mod Found
use a10_certctl.Base.{
  ℕ, ◌^◌, ◌≡◌, ◌≢◌, refl, ◌⊎◌, inl, inr, Bool, true, false, not, ◌&&◌, List, [], ◌∷◌, ◌++◌, Option,
  none, some, is_nil, ltb, All, All-append, arith, if◌then◌else◌, Bool-cases,
}
use a10_certctl.Base.Int.{pos, negsuc}
use a10_certctl.Text.{Text, codes}
use a10_certctl.Errors
use a10_certctl.Errors.{failed, Result, ok, err}
use a10_certctl.Exec.{◌>>=◌, ◌>>◌, pure, raise}
use a10_certctl.Json.{Json, Fields}
use a10_certctl.Json.Decode.{member, decode_text, decode_list, decode_struct, decode_int}
use a10_certctl.Axapi.{get_virtual_servers, Io, get_json}
use a10_certctl.Session.{ok_or_empty}

-- `VirtualPort`
pub record VirtualPort : Type 0 where
  pub number : ℕ
  pub protocol : Text
  pub client_ssl_template : Text
  pub shared_client_ssl_template : Text

-- `VirtualServer`
pub record VirtualServer : Type 0 where
  pub name : Text
  pub ip_address : Text
  pub ipv6_address : Text
  pub ports : List VirtualPort

-- `VirtualServerTLSBinding`
pub record TlsBinding : Type 0 where
  pub virtual_server : Text
  pub address : Text
  pub port : ℕ
  pub protocol : Text
  pub client_ssl_template : Text
  pub shared_partition_template : Bool

-- A member of Go type `uint16`
unfoldable pub decode_uint16 : Json → Result ℕ
decode_uint16 j = elim (decode_int j) [
  | err e ↦ err e
  | ok (negsuc n) ↦ err (failed "number out of range")
  | ok (pos n) ↦ if ltb n (2 ^ 16) then ok n else err (failed "number out of range")
]

unfoldable pub decode_port : Fields → Result VirtualPort
unfolding decode_uint16
decode_port fs = Errors.◌>>=◌ (decode_uint16 (member (codes "port-number") fs)) λ number.
    Errors.◌>>=◌ (decode_text (member (codes "protocol") fs)) λ protocol.
      Errors.◌>>=◌ (decode_text (member (codes "template-client-ssl") fs)) λ template.
        Errors.◌>>=◌ (decode_text (member (codes "template-client-ssl-shared") fs)) λ shared.
          ok (record {
            number = number;
            protocol = protocol;
            client_ssl_template = template;
            shared_client_ssl_template = shared;
          })

unfoldable pub decode_virtual_server : Fields → Result VirtualServer
unfolding decode_port
decode_virtual_server fs = Errors.◌>>=◌ (decode_text (member (codes "name") fs)) λ name.
    Errors.◌>>=◌ (decode_text (member (codes "ip-address") fs)) λ ip_address.
      Errors.◌>>=◌ (decode_text (member (codes "ipv6-address") fs)) λ ipv6_address.
        Errors.◌>>=◌ (decode_list (decode_struct decode_port) (member (codes "port-list") fs))
          λ ports. ok (record {
            name = name;
            ip_address = ip_address;
            ipv6_address = ipv6_address;
            ports = ports;
          })

-- `ListVirtualServers`
unfoldable pub list_virtual_servers : Io (List VirtualServer)
unfolding decode_virtual_server
list_virtual_servers =
    get_json ok_or_empty []
      (decode_struct (λ fs.
        decode_list (decode_struct decode_virtual_server)
          (member (codes "virtual-server-list") fs)))
      get_virtual_servers

unfoldable pub configured_address : VirtualServer → Text
configured_address server =
    if is_nil server.ip_address then server.ipv6_address else server.ip_address

-- The template of a port: its own, or the one of the shared partition.
unfoldable pub port_template : VirtualPort → Text
port_template port =
    if is_nil port.client_ssl_template
    then port.shared_client_ssl_template
    else port.client_ssl_template

unfoldable pub tls_binding : VirtualServer → VirtualPort → TlsBinding
unfolding configured_address port_template
tls_binding server port = record {
  virtual_server = server.name;
  address = configured_address server;
  port = port.number;
  protocol = port.protocol;
  client_ssl_template = port_template port;
  shared_partition_template =
      is_nil port.client_ssl_template && not (is_nil port.shared_client_ssl_template);
}

-- The inner loop, over the ports of a server.
unfoldable pub port_bindings : VirtualServer → List VirtualPort → List TlsBinding
unfolding tls_binding
port_bindings server [] = []
port_bindings server (port ∷ ports) =
    let rest = port_bindings server ports in
    if is_nil (port_template port) then rest else tls_binding server port ∷ rest

-- `netip.ParseAddr`, and the comparison of two addresses
module _ {Addr : Type 0} (parse_addr : Text → Option Addr) (same_addr : Addr → Addr → Bool) where
  -- `parseErr == nil && parsed == wanted`
  unfoldable pub serves : Addr → VirtualServer → Bool
  serves wanted server = elim (parse_addr (configured_address server)) [
    | none ↦ false
    | some parsed ↦ same_addr parsed wanted
  ]

  -- The outer loop.
  unfoldable pub bindings_of : Addr → List VirtualServer → List TlsBinding
  unfolding port_bindings
  bindings_of wanted [] = []
  bindings_of wanted (server ∷ servers) =
      let rest = bindings_of wanted servers in
      if serves wanted server then port_bindings server server.ports ++ rest else rest

  unfoldable pub find_from : Option Addr → Io (List TlsBinding)
  unfolding bindings_of
  find_from none = raise (failed "invalid VIP address")
  find_from (some wanted) = do servers ← list_virtual_servers; pure (bindings_of wanted servers)

  -- `FindClientSSLTemplatesByVIP`
  unfoldable pub find_client_ssl_templates_by_vip : Text → Io (List TlsBinding)
  unfolding find_from
  find_client_ssl_templates_by_vip address = find_from (parse_addr address)
