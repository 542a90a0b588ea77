-- ===== src/Template.antt =====
-- Client-SSL and server-SSL templates: the types and decoders of pkg/a10/certificates.go, the
-- pure operations on bindings of pkg/a10/sync.go and pkg/a10/state.go.
pub mod Revision
pub mod References
pub mod Encode
use a10_certctl.Base.{
  ℕ, Bool, true, false, not, ◌&&◌, ◌||◌, List, [], ◌∷◌, ◌++◌, Option, none, some, if◌then◌else◌,
}
use a10_certctl.Text.{Text, ◌==◌, codes}
use a10_certctl.Errors.{Result, ok, err, wrap, ◌>>=◌}
use a10_certctl.Json.{Json, Fields, axapi_boolean}
use a10_certctl.Json.Decode.{member, decode_text, decode_list, decode_struct}

-- `CertificateBinding`
pub record Binding : Type 0 where
  pub certificate : Text
  pub key : Text
  pub chain : Text
  pub shared : Bool
  pub uuid : Text
  pub a10_url : Text

-- `(*CertificateBinding).UnmarshalJSON`
unfoldable pub decode_binding_fields : Fields → Result Binding
decode_binding_fields fs = do
  certificate ← decode_text (member (codes "cert") fs)
  key ← decode_text (member (codes "key") fs)
  chain ← decode_text (member (codes "chain-cert") fs)
  uuid ← decode_text (member (codes "uuid") fs)
  a10_url ← decode_text (member (codes "a10-url") fs)
  shared ←
      wrap "decode certificate binding shared flag" (axapi_boolean (member (codes "shared") fs))
  ok (record {
    certificate = certificate;
    key = key;
    chain = chain;
    shared = shared;
    uuid = uuid;
    a10_url = a10_url;
  })

unfoldable pub decode_binding : Json → Result Binding
unfolding decode_binding_fields
decode_binding = decode_struct decode_binding_fields

-- `ServerNameBinding`
pub record ServerName : Type 0 where
  pub server_name : Text
  pub server_name_regex : Text
  pub certificate : Text
  pub key : Text
  pub chain : Text
  pub regex_certificate : Text
  pub regex_key : Text
  pub regex_chain : Text
  pub client_ssl_template : Text
  pub regex_client_ssl_template : Text

unfoldable pub decode_server_name_fields : Fields → Result ServerName
decode_server_name_fields fs = do
  server_name ← decode_text (member (codes "server-name") fs)
  server_name_regex ← decode_text (member (codes "server-name-regex") fs)
  certificate ← decode_text (member (codes "server-cert") fs)
  key ← decode_text (member (codes "server-key") fs)
  chain ← decode_text (member (codes "server-chain") fs)
  regex_certificate ← decode_text (member (codes "server-cert-regex") fs)
  regex_key ← decode_text (member (codes "server-key-regex") fs)
  regex_chain ← decode_text (member (codes "server-chain-regex") fs)
  template ← decode_text (member (codes "sni-template-client-ssl") fs)
  regex_template ← decode_text (member (codes "sni-regex-template-client-ssl") fs)
  ok (record {
    server_name = server_name;
    server_name_regex = server_name_regex;
    certificate = certificate;
    key = key;
    chain = chain;
    regex_certificate = regex_certificate;
    regex_key = regex_key;
    regex_chain = regex_chain;
    client_ssl_template = template;
    regex_client_ssl_template = regex_template;
  })

-- `ForwardProxyMaterialReferences`
pub record ForwardProxy : Type 0 where
  pub ca_certificate : Text
  pub ca_key : Text
  pub certificate : Text
  pub key : Text
  pub chain : Text
  pub alternate_certificate : Text
  pub alternate_key : Text
  pub alternate_chain : Text

unfoldable pub decode_forward_proxy : Fields → Result ForwardProxy
decode_forward_proxy fs = do
  ca_certificate ← decode_text (member (codes "forward-proxy-ca-cert") fs)
  ca_key ← decode_text (member (codes "forward-proxy-ca-key") fs)
  certificate ← decode_text (member (codes "fp-ca-certificate") fs)
  key ← decode_text (member (codes "fp-ca-key") fs)
  chain ← decode_text (member (codes "fp-ca-chain-cert") fs)
  alternate_certificate ← decode_text (member (codes "fp-alt-cert") fs)
  alternate_key ← decode_text (member (codes "fp-alt-key") fs)
  alternate_chain ← decode_text (member (codes "fp-alt-chain-cert") fs)
  ok (record {
    ca_certificate = ca_certificate;
    ca_key = ca_key;
    certificate = certificate;
    key = key;
    chain = chain;
    alternate_certificate = alternate_certificate;
    alternate_key = alternate_key;
    alternate_chain = alternate_chain;
  })

-- `ClientSSLTemplate`. The payload is the decoded response from which the template was read, an
-- object; it is absent from a template that was not read.
pub record ClientSslTemplate : Type 0 where
  pub name : Text
  pub certificates : List Binding
  pub server_names : List ServerName
  pub chain_certificate : Text
  pub forward_proxy : ForwardProxy
  pub uuid : Text
  pub a10_url : Text
  pub revision_payload : Option Fields

-- The members that `(*ClientSSLTemplate).UnmarshalJSON` reads, with the payload that it retains.
unfoldable pub decode_client_fields : Option Fields → Fields → Result ClientSslTemplate
unfolding decode_binding decode_server_name_fields decode_forward_proxy
decode_client_fields payload fs = do
  name ← decode_text (member (codes "name") fs)
  certificates ← decode_list decode_binding (member (codes "certificate-list") fs)
  server_names ←
      decode_list (decode_struct decode_server_name_fields) (member (codes "server-name-list") fs)
  chain_certificate ← decode_text (member (codes "chain-cert") fs)
  forward_proxy ← decode_forward_proxy fs
  uuid ← decode_text (member (codes "uuid") fs)
  a10_url ← decode_text (member (codes "a10-url") fs)
  ok (record {
    name = name;
    certificates = certificates;
    server_names = server_names;
    chain_certificate = chain_certificate;
    forward_proxy = forward_proxy;
    uuid = uuid;
    a10_url = a10_url;
    revision_payload = payload;
  })

-- The payload `null` is retained as absent: it names nothing, as an absent one does.
unfoldable pub decode_client_ssl : Json → Result ClientSslTemplate
unfolding decode_client_fields
decode_client_ssl (Json.obj fs) = decode_client_fields (some fs) fs
decode_client_ssl j = decode_struct (decode_client_fields none) j

-- `ServerCertificateBinding`
pub record ServerBinding : Type 0 where
  pub certificate : Text
  pub key : Text
  pub shared : Bool
  pub uuid : Text

unfoldable pub decode_server_binding : Fields → Result ServerBinding
decode_server_binding fs = do
  certificate ← decode_text (member (codes "cert") fs)
  key ← decode_text (member (codes "key") fs)
  uuid ← decode_text (member (codes "uuid") fs)
  shared ←
      wrap "decode server-SSL certificate shared flag" (axapi_boolean (member (codes "shared") fs))
  ok (record { certificate = certificate; key = key; shared = shared; uuid = uuid })

-- `ServerSSLTemplate`
pub record ServerSslTemplate : Type 0 where
  pub name : Text
  pub certificate : Option ServerBinding
  pub uuid : Text
  pub a10_url : Text
  pub reference_payload : Option Fields

-- A pointer to a struct: `null` and a missing member are nil.
unfoldable pub decode_pointer : {A : Type 0} → (Fields → Result A) → Json → Result (Option A)
decode_pointer decode Json.null = ok none
decode_pointer decode (Json.obj fs) = do a ← decode fs; ok (some a)
decode_pointer decode j = do a ← decode_struct decode j; ok (some a)

unfoldable pub decode_server_fields : Option Fields → Fields → Result ServerSslTemplate
unfolding decode_server_binding decode_pointer
decode_server_fields payload fs = do
  name ← decode_text (member (codes "name") fs)
  certificate ← decode_pointer decode_server_binding (member (codes "certificate") fs)
  uuid ← decode_text (member (codes "uuid") fs)
  a10_url ← decode_text (member (codes "a10-url") fs)
  ok (record {
    name = name;
    certificate = certificate;
    uuid = uuid;
    a10_url = a10_url;
    reference_payload = payload;
  })

-- `(*ServerSSLTemplate).UnmarshalJSON`
unfoldable pub decode_server_ssl : Json → Result ServerSslTemplate
unfolding decode_server_fields
decode_server_ssl (Json.obj fs) = decode_server_fields (some fs) fs
decode_server_ssl j = decode_struct (decode_server_fields none) j

-- `sameBinding`
unfoldable pub bool_eq : Bool → Bool → Bool
bool_eq true b = b
bool_eq false b = not b

unfoldable pub same_binding : Binding → Binding → Bool
unfolding bool_eq
same_binding left right =
    left.certificate == right.certificate
    && left.key == right.key
    && left.chain == right.chain
    && bool_eq left.shared right.shared

-- `findBinding`
unfoldable pub find_binding : List Binding → Text → Option Binding
find_binding [] certificate = none
find_binding (b ∷ bs) certificate =
    if b.certificate == certificate then some b else find_binding bs certificate

-- `hasBinding`
unfoldable pub has_binding : List Binding → Binding → Bool
unfolding same_binding
has_binding [] desired = false
has_binding (b ∷ bs) desired = if same_binding b desired then true else has_binding bs desired

-- `contains`, of names
unfoldable pub contains : List Text → Text → Bool
contains [] value = false
contains (item ∷ values) value = if item == value then true else contains values value

-- `templateWithBinding`
unfoldable pub template_with_binding : ClientSslTemplate → Binding → ClientSslTemplate
unfolding has_binding
template_with_binding template binding =
    if has_binding template.certificates binding
    then template
    else record template { certificates = template.certificates ++ binding ∷ [] }

unfoldable pub bindings_without : List Binding → Text → List Binding
bindings_without [] certificate = []
bindings_without (b ∷ bs) certificate =
    let rest = bindings_without bs certificate in
    if b.certificate == certificate then rest else b ∷ rest

-- `templateWithoutCertificate`
unfoldable pub template_without_certificate : ClientSslTemplate → Text → ClientSslTemplate
unfolding bindings_without
template_without_certificate template certificate = record template {
  certificates = bindings_without template.certificates certificate;
}
