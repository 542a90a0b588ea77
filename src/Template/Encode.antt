-- ===== src/Template/Encode.antt =====
-- The JSON values of the types of pkg/a10/certificates.go, as encoding/json writes them: the fields
-- of a struct in their order, less those that `omitempty` leaves out.
pub mod RoundTrip
use a10_certctl.Base.{Bool, true, false, List, [], ◌∷◌, is_nil, if◌then◌else◌}
use a10_certctl.Text.{Text, codes}
use a10_certctl.Json.{Json, Items, Fields}
use a10_certctl.Template.{Binding, ServerName, ForwardProxy, ClientSslTemplate}

-- A field of type string with `omitempty`
unfoldable pub optional : Text → Text → Fields → Fields
optional name v rest = if is_nil v then rest else Fields.field name (Json.str v) rest

-- A field of a slice type with `omitempty`, as the JSON of its elements
unfoldable pub optional_items : Text → Items → Fields → Fields
optional_items name Items.nil rest = rest
optional_items name (Items.cons x xs) rest = Fields.field name (Json.arr (Items.cons x xs)) rest

-- `CertificateBinding`
unfoldable pub binding_json : Binding → Json
unfolding optional
binding_json b = Json.obj (
    Fields.field (codes "cert") (Json.str b.certificate) (
      Fields.field (codes "key") (Json.str b.key) (
        optional (codes "chain-cert") b.chain (
          if b.shared
          then Fields.field (codes "shared") (Json.bool true)
              (optional (codes "uuid") b.uuid (optional (codes "a10-url") b.a10_url Fields.end))
          else optional (codes "uuid") b.uuid (optional (codes "a10-url") b.a10_url Fields.end)))))

-- `ServerNameBinding`
unfoldable pub server_name_json : ServerName → Json
unfolding optional
server_name_json s = Json.obj (
    optional (codes "server-name") s.server_name (
      optional (codes "server-name-regex") s.server_name_regex (
        optional (codes "server-cert") s.certificate (
          optional (codes "server-key") s.key (
            optional (codes "server-chain") s.chain (
              optional (codes "server-cert-regex") s.regex_certificate (
                optional (codes "server-key-regex") s.regex_key (
                  optional (codes "server-chain-regex") s.regex_chain (
                    optional (codes "sni-template-client-ssl") s.client_ssl_template (
                      optional (codes "sni-regex-template-client-ssl") s.regex_client_ssl_template
                        Fields.end))))))))))

-- The embedded `ForwardProxyMaterialReferences`: its fields stand among those of the outer struct.
unfoldable pub forward_proxy_fields : ForwardProxy → Fields → Fields
unfolding optional
forward_proxy_fields f rest = optional (codes "forward-proxy-ca-cert") f.ca_certificate (
    optional (codes "forward-proxy-ca-key") f.ca_key (
      optional (codes "fp-ca-certificate") f.certificate (
        optional (codes "fp-ca-key") f.key (
          optional (codes "fp-ca-chain-cert") f.chain (
            optional (codes "fp-alt-cert") f.alternate_certificate (
              optional (codes "fp-alt-key") f.alternate_key
                (optional (codes "fp-alt-chain-cert") f.alternate_chain rest)))))))

unfoldable pub binding_items : List Binding → Items
unfolding binding_json
binding_items [] = Items.nil
binding_items (b ∷ bs) = Items.cons (binding_json b) (binding_items bs)

unfoldable pub server_name_items : List ServerName → Items
unfolding server_name_json
server_name_items [] = Items.nil
server_name_items (s ∷ ss) = Items.cons (server_name_json s) (server_name_items ss)

unfoldable pub template_fields : ClientSslTemplate → Fields
unfolding binding_items server_name_items forward_proxy_fields optional optional_items
template_fields t = Fields.field (codes "name") (Json.str t.name) (
    optional_items (codes "certificate-list") (binding_items t.certificates) (
      optional_items (codes "server-name-list") (server_name_items t.server_names) (
        optional (codes "chain-cert") t.chain_certificate (
          forward_proxy_fields t.forward_proxy
            (optional (codes "uuid") t.uuid (optional (codes "a10-url") t.a10_url Fields.end))))))

-- `(ClientSSLTemplate).MarshalJSON`
unfoldable pub template_json : ClientSslTemplate → Json
unfolding template_fields
template_json t = Json.obj (template_fields t)
