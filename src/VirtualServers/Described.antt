-- ===== src/VirtualServers/Described.antt =====
-- The entry that pkg/a10/virtual_servers.go makes for a port, described apart from the code
use a10_certctl.Base.{◌≡◌, ◌≢◌, ◌⊎◌, refl, ap, inl, inr, Bool, true, false, [], ◌∷◌, is_nil, arith}
use a10_certctl.Text.{Text}
use a10_certctl.VirtualServers.{
  VirtualPort, VirtualServer, TlsBinding, port_template, tls_binding, configured_address,
}

-- The address of a server: the IPv4 address, or the IPv6 address of a server without one
abbrev pub IsAddressOf : VirtualServer → Text → Type 0
IsAddressOf server address =
    ((server.ip_address ≢ []) × (address ≡ server.ip_address))
    ⊎ ((server.ip_address ≡ []) × (address ≡ server.ipv6_address))

-- The template of a port, and whether it is one of the shared partition
abbrev pub IsTemplateOf : VirtualPort → Text → Bool → Type 0
IsTemplateOf port name shared =
    ((port.client_ssl_template ≢ []) × (name ≡ port.client_ssl_template) × (shared ≡ false))
    ⊎ ((port.client_ssl_template ≡ [])
        × (port.shared_client_ssl_template ≢ [])
        × (name ≡ port.shared_client_ssl_template)
        × (shared ≡ true))

pub is_nil-cases : (t : Text) → (t ≡ []) × (is_nil t ≡ true) ⊎ ((t ≢ []) × (is_nil t ≡ false))
is_nil-cases [] = inl (refl, refl)
is_nil-cases (c ∷ t) = inr (λ e. cc, refl)

pub not_nil : (t : Text) → t ≢ [] → is_nil t ≡ false
not_nil [] h = absurd (h refl)
not_nil (c ∷ t) h = refl

pub is_filled : (t : Text) → is_nil t ≡ false → t ≢ []
is_filled [] h e = cc
is_filled (c ∷ t) h e = cc

pub configured_address-IsAddressOf :
    (server : VirtualServer) → IsAddressOf server (configured_address server)
unfolding configured_address
configured_address-IsAddressOf server = elim (is_nil-cases server.ip_address) [
  | inl (e, h) ↦ rw h (inr (e, refl))
  | inr (n, h) ↦ rw h (inl (n, refl))
]

pub address_is_configured :
    (server : VirtualServer) (address : Text)
    → IsAddressOf server address
    → address ≡ configured_address server
unfolding configured_address
address_is_configured server address (inl (n, e)) = rw (not_nil server.ip_address n) e
address_is_configured server address (inr (n, e)) = rw n e

pub template-of :
    (server : VirtualServer) (port : VirtualPort)
    → is_nil (port_template port) ≡ false
    → IsTemplateOf port
        (tls_binding server port).client_ssl_template
        (tls_binding server port).shared_partition_template
unfolding tls_binding port_template
template-of server port h = elim (is_nil-cases port.client_ssl_template) [
  | inl (e, n) ↦
      let filled : is_nil port.shared_client_ssl_template ≡ false = ground arith in
      inr (e, is_filled port.shared_client_ssl_template filled, ground arith, ground arith)
  | inr (e, n) ↦ inl (e, ground arith, ground arith)
]

pub port_has_template :
    (port : VirtualPort) (name : Text) (shared : Bool)
    → IsTemplateOf port name shared
    → is_nil (port_template port) ≡ false
unfolding port_template
port_has_template port name shared (inl (n, e, s)) =
    rw (not_nil port.client_ssl_template n) (not_nil port.client_ssl_template n)
port_has_template port name shared (inr (n, m, e, s)) =
    rw n (not_nil port.shared_client_ssl_template m)

pub entry-of :
    (server : VirtualServer) (port : VirtualPort) (b : TlsBinding)
    → b.virtual_server ≡ server.name
    → b.address ≡ configured_address server
    → b.port ≡ port.number
    → b.protocol ≡ port.protocol
    → IsTemplateOf port b.client_ssl_template b.shared_partition_template
    → b ≡ tls_binding server port
unfolding tls_binding port_template
entry-of server port b n a k p (inl (h, t, s)) =
    let filled = not_nil port.client_ssl_template h in ground arith
entry-of server port b n a k p (inr (h, m, t, s)) =
    let filled = not_nil port.shared_client_ssl_template m in
    let empty : is_nil port.client_ssl_template ≡ true = ap is_nil h in ground arith
