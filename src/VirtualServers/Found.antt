-- ===== src/VirtualServers/Found.antt =====
-- What the search for a virtual address finds.
use a10_certctl.Base.{
  ◌≡◌, ◌↔◌, ◌⊎◌, some, none, arith, refl, sym, ap, ◌∙◌, inl, inr, Bool, true, false, List, [], ◌∷◌,
  ◌++◌, Option, is_nil, subst, if◌then◌else◌, Bool-cases,
}
use mathlib.Core.List.{Memᴰ}
use mathlib.Core.List.Memᴰ
use a10_certctl.Text.{Text}
use a10_certctl.VirtualServers.{
  VirtualPort, VirtualServer, TlsBinding, port_template, tls_binding, port_bindings, serves,
  bindings_of, configured_address,
}
use a10_certctl.VirtualServers.Described.{
  configured_address-IsAddressOf, address_is_configured, template-of, port_has_template, entry-of,
  IsAddressOf, IsTemplateOf,
}

-- A port of the server with a template, and the entry for it.
pub record IsPortEntry (server : VirtualServer) (ports : List VirtualPort) (b : TlsBinding)
    : Type 0 where
  pub port : VirtualPort
  pub listed : Memᴰ port ports
  pub has_template : is_nil (port_template port) ≡ false
  pub entry : b ≡ tls_binding server port

Memᴰ-append : {A : Type 0} {a : A} (xs ys : List A) → Memᴰ a (xs ++ ys) → Memᴰ a xs ⊎ Memᴰ a ys
Memᴰ-append [] ys m = inr m
Memᴰ-append (x ∷ xs) ys (Memᴰ.head e) = inl (Memᴰ.head e)
Memᴰ-append (x ∷ xs) ys (Memᴰ.tail m) = elim (Memᴰ-append xs ys m) [
  | inl l ↦ inl (Memᴰ.tail l)
  | inr r ↦ inr r
]

module _ (server : VirtualServer) (b : TlsBinding) where
  later :
      (port : VirtualPort) (ports : List VirtualPort)
      → IsPortEntry server ports b
      → IsPortEntry server (port ∷ ports) b
  later port ports e = record {
    port = e.port;
    listed = Memᴰ.tail e.listed;
    has_template = e.has_template;
    entry = e.entry;
  }

  earlier :
      (port : VirtualPort) (ports : List VirtualPort) (empty : Bool)
      → (Memᴰ b (port_bindings server ports) → IsPortEntry server ports b)
      → is_nil (port_template port) ≡ empty
      → Memᴰ b (
          if empty
          then port_bindings server ports
          else tls_binding server port ∷ port_bindings server ports)
      → IsPortEntry server (port ∷ ports) b
  earlier port ports true f h m = later port ports (f m)
  earlier port ports false f h (Memᴰ.head e) = record {
    port = port;
    listed = Memᴰ.head refl;
    has_template = h;
    entry = e;
  }
  earlier port ports false f h (Memᴰ.tail m) = later port ports (f m)

  port_found :
      (ports : List VirtualPort) → Memᴰ b (port_bindings server ports) → IsPortEntry server ports b
  unfolding port_bindings
  port_found [] m = absurd (Memᴰ.not-nil m)
  port_found (port ∷ ports) m = earlier port ports _ (port_found ports) refl m

  entry_listed :
      (port : VirtualPort) (ports : List VirtualPort)
      → Memᴰ port ports
      → is_nil (port_template port) ≡ false
      → b ≡ tls_binding server port
      → Memᴰ b (port_bindings server ports)
  unfolding port_bindings
  entry_listed port [] m h e = absurd (Memᴰ.not-nil m)
  entry_listed port (x ∷ ports) (Memᴰ.head same) h e =
      let filled : is_nil (port_template x) ≡ false =
        ap (λ (q : VirtualPort). is_nil (port_template q)) (sym same) ∙ h in
      rw filled (Memᴰ.head (e ∙ ap (tls_binding server) same))
  entry_listed port (x ∷ ports) (Memᴰ.tail m) h e = elim (Bool-cases (is_nil (port_template x))) [
    | inl empty ↦ rw empty (entry_listed port ports m h e)
    | inr filled ↦ rw filled (Memᴰ.tail (entry_listed port ports m h e))
  ]

module _ {Addr : Type 0} (parse_addr : Text → Option Addr) (same_addr : Addr → Addr → Bool)
    (wanted : Addr) where
  -- An entry of a listed server that the loop selects.
  record IsSelected (servers : List VirtualServer) (b : TlsBinding) : Type 0 where
    pub server : VirtualServer
    pub listed : Memᴰ server servers
    pub serving : serves parse_addr same_addr wanted server ≡ true
    pub port_entry : IsPortEntry server server.ports b

  further :
      (server : VirtualServer) (servers : List VirtualServer) (b : TlsBinding)
      → IsSelected servers b
      → IsSelected (server ∷ servers) b
  further server servers b e = record {
    server = e.server;
    listed = Memᴰ.tail e.listed;
    serving = e.serving;
    port_entry = e.port_entry;
  }

  sooner :
      (server : VirtualServer) (servers : List VirtualServer) (b : TlsBinding) (test : Bool)
      → (Memᴰ b (bindings_of parse_addr same_addr wanted servers) → IsSelected servers b)
      → serves parse_addr same_addr wanted server ≡ test
      → Memᴰ b (
          if test
          then port_bindings server server.ports ++ bindings_of parse_addr same_addr wanted servers
          else bindings_of parse_addr same_addr wanted servers)
      → IsSelected (server ∷ servers) b
  sooner server servers b true f h m = elim (Memᴰ-append (port_bindings server server.ports) _ m) [
    | inl l ↦ record {
      server = server;
      listed = Memᴰ.head refl;
      serving = h;
      port_entry = port_found server b server.ports l;
    }
    | inr r ↦ further server servers b (f r)
  ]
  sooner server servers b false f h m = further server servers b (f m)

  found-IsSelected :
      (servers : List VirtualServer) (b : TlsBinding)
      → Memᴰ b (bindings_of parse_addr same_addr wanted servers)
      → IsSelected servers b
  unfolding bindings_of
  found-IsSelected [] b m = absurd (Memᴰ.not-nil m)
  found-IsSelected (server ∷ servers) b m =
      sooner server servers b _ (found-IsSelected servers b) refl m

  served_found :
      (server : VirtualServer) (servers : List VirtualServer) (b : TlsBinding)
      → Memᴰ server servers
      → serves parse_addr same_addr wanted server ≡ true
      → Memᴰ b (port_bindings server server.ports)
      → Memᴰ b (bindings_of parse_addr same_addr wanted servers)
  unfolding bindings_of
  served_found server [] b l h m = absurd (Memᴰ.not-nil l)
  served_found server (x ∷ servers) b (Memᴰ.head same) h m =
      let serving : serves parse_addr same_addr wanted x ≡ true =
        ap (serves parse_addr same_addr wanted) (sym same) ∙ h in
      rw serving (
        Memᴰ.append_left _ (subst (λ (q : VirtualServer). Memᴰ b (port_bindings q q.ports)) same m))
  served_found server (x ∷ servers) b (Memᴰ.tail l) h m =
      elim (Bool-cases (serves parse_addr same_addr wanted x)) [
        | inl here ↦
            rw here
              (Memᴰ.append_right (port_bindings x x.ports) (served_found server servers b l h m))
        | inr away ↦ rw away (served_found server servers b l h m)
      ]

  selected_found :
      (servers : List VirtualServer) (b : TlsBinding)
      → IsSelected servers b
      → Memᴰ b (bindings_of parse_addr same_addr wanted servers)
  selected_found servers b e = served_found e.server servers b e.listed e.serving (
      entry_listed e.server b e.port_entry.port e.server.ports e.port_entry.listed
        e.port_entry.has_template e.port_entry.entry)

  -- The address of an entry is one that is the wanted address.
  pub record IsWanted (address : Text) : Type 0 where
    pub parsed : Addr
    pub parsed_eq : parse_addr address ≡ some parsed
    pub equal : same_addr parsed wanted ≡ true

  -- An entry for a port of a listed server
  pub record IsServed (servers : List VirtualServer) (b : TlsBinding) : Type 0 where
    pub server : VirtualServer
    pub listed : Memᴰ server servers
    pub port : VirtualPort
    pub port_listed : Memᴰ port server.ports
    pub name : b.virtual_server ≡ server.name
    pub address : IsAddressOf server b.address
    pub wanted_address : IsWanted b.address
    pub number : b.port ≡ port.number
    pub protocol : b.protocol ≡ port.protocol
    pub template : IsTemplateOf port b.client_ssl_template b.shared_partition_template

  IsWanted-of :
      (server : VirtualServer) (o : Option Addr)
      → parse_addr (configured_address server) ≡ o
      → serves parse_addr same_addr wanted server ≡ true
      → IsWanted (configured_address server)
  unfolding serves
  IsWanted-of server none e h = absurd (ground arith)
  IsWanted-of server (some a) e h = record { parsed = a; parsed_eq = e; equal = ground arith }

  serves-of :
      (server : VirtualServer)
      → IsWanted (configured_address server)
      → serves parse_addr same_addr wanted server ≡ true
  unfolding serves
  serves-of server h = ground (arith, h.parsed_eq, h.equal)

  IsServed-of :
      (servers : List VirtualServer) (b : TlsBinding) → IsSelected servers b → IsServed servers b
  IsServed-of servers b e = subst (IsServed servers) (sym e.port_entry.entry) (record {
    server = e.server;
    listed = e.listed;
    port = e.port_entry.port;
    port_listed = e.port_entry.listed;
    name = unfold tls_binding in refl;
    address = unfold tls_binding in configured_address-IsAddressOf e.server;
    wanted_address = unfold tls_binding in IsWanted-of e.server _ refl e.serving;
    number = unfold tls_binding in refl;
    protocol = unfold tls_binding in refl;
    template = template-of e.server e.port_entry.port e.port_entry.has_template;
  })

  IsSelected-of :
      (servers : List VirtualServer) (b : TlsBinding) → IsServed servers b → IsSelected servers b
  IsSelected-of servers b h =
      let here = address_is_configured h.server b.address h.address in
      record {
        server = h.server;
        listed = h.listed;
        serving = serves-of h.server (subst IsWanted here h.wanted_address);
        port_entry = record {
          port = h.port;
          listed = h.port_listed;
          has_template = port_has_template h.port _ _ h.template;
          entry = entry-of h.server h.port b h.name here h.number h.protocol h.template;
        };
      }

  -- The search finds exactly these entries: of a listed server, one of whose addresses (the IPv4
  -- address, or the IPv6 address if it has none) parses to an address that is the wanted one, and of
  -- one of its ports, with the port's own template, or with the shared partition's if it has none of
  -- its own.
  pub bindings_of_iff :
      (servers : List VirtualServer) (b : TlsBinding)
      → Memᴰ b (bindings_of parse_addr same_addr wanted servers) ↔ IsServed servers b
  bindings_of_iff servers b = (
    λ m. IsServed-of servers b (found-IsSelected servers b m),
    λ h. selected_found servers b (IsSelected-of servers b h),
  )
