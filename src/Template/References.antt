-- ===== src/Template/References.antt =====
-- The reference checks of pkg/a10/sync.go. They favour retention: a name that is found anywhere in
-- a response keeps its file.
pub mod Sound
use a10_certctl.Base.{Bool, true, false, ◌||◌, List, Option, none, some, is_nil, any, if◌then◌else◌}
use a10_certctl.Text.{Text, ◌==◌}
use a10_certctl.Json.{Fields, fields_contain}
use a10_certctl.Template.{
  Binding, ServerName, ForwardProxy, ClientSslTemplate, ServerBinding, ServerSslTemplate,
}

-- `rawPayloadReferences`; a payload that was decoded once decodes again.
unfoldable pub raw_payload_references : Option Fields → Text → Bool
raw_payload_references none name = false
raw_payload_references (some fs) name = if is_nil name then false else fields_contain fs name

unfoldable pub binding_names : Binding → Text → Bool
binding_names b name = b.certificate == name || b.key == name || b.chain == name

unfoldable pub server_name_names : ServerName → Text → Bool
server_name_names b name =
    b.certificate == name
    || b.key == name
    || b.chain == name
    || b.regex_certificate == name
    || b.regex_key == name
    || b.regex_chain == name

unfoldable pub forward_proxy_names : ForwardProxy → Text → Bool
forward_proxy_names forward name =
    forward.ca_certificate == name
    || forward.ca_key == name
    || forward.certificate == name
    || forward.key == name
    || forward.chain == name
    || forward.alternate_certificate == name
    || forward.alternate_key == name
    || forward.alternate_chain == name

-- `clientTemplateReferences`
unfoldable pub client_template_references : ClientSslTemplate → Text → Bool
unfolding binding_names server_name_names forward_proxy_names raw_payload_references
client_template_references t name =
    if is_nil name
    then false
    else if any (λ b. binding_names b name) t.certificates
    then true
    else if any (λ b. server_name_names b name) t.server_names
    then true
    else if t.chain_certificate == name || forward_proxy_names t.forward_proxy name
    then true
    else raw_payload_references t.revision_payload name

unfoldable pub server_binding_names : Option ServerBinding → Text → Bool
server_binding_names none name = false
server_binding_names (some b) name = b.certificate == name || b.key == name

-- `serverTemplateReferences`
unfoldable pub server_template_references : ServerSslTemplate → Text → Bool
unfolding server_binding_names raw_payload_references
server_template_references t name =
    if is_nil name
    then false
    else if server_binding_names t.certificate name
    then true
    else raw_payload_references t.reference_payload name

-- `referenced` of `deleteUnreferenced`
unfoldable pub referenced : List ClientSslTemplate → List ServerSslTemplate → Text → Bool
unfolding client_template_references server_template_references
referenced templates server_templates name =
    any (λ t. client_template_references t name) templates
    || any (λ t. server_template_references t name) server_templates
