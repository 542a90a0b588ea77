-- ===== src/Axapi/Wire.antt =====
-- The requests as they go out: methods, endpoints and JSON documents of pkg/a10/certificates.go,
-- pkg/a10/client.go and pkg/a10/virtual_servers.go.
pub mod Names
use a10_certctl.Base.{
  ℕ, ◌+◌, Bool, true, false, not, List, [], ◌∷◌, ◌++◌, Option, none, some, is_nil, eqb,
  if◌then◌else◌,
}
use a10_certctl.Text.{Text, codes, trim_prefix, trim_suffix}
use a10_certctl.Json.{Json, Fields}
use a10_certctl.Template.Encode.{optional}
use a10_certctl.Axapi.{
  FileKind, ssl_cert, ssl_key, ca_cert, UploadAction, import, replace, UploadDocument,
  BindingDocument, MaterialNames, Request, post_auth, post_active_partition, post_logoff,
  get_partitions, get_version, get_certificates, get_files, get_client_templates,
  get_client_template, get_server_templates, get_virtual_servers, post_file, post_binding,
  delete_binding, post_delete, post_write_memory,
}

pub data Method : Type 0 where
  get post delete : Method

unfoldable pub method_of : Request → Method
method_of (post_auth _ _) = post
method_of (post_active_partition _) = post
method_of post_logoff = post
method_of (post_file _ _ _) = post
method_of (post_binding _ _) = post
method_of (delete_binding _ _) = delete
method_of (post_delete _) = post
method_of (post_write_memory _) = post
method_of _ = get

-- The store of a kind of files
unfoldable pub store_of : FileKind → Text
store_of ssl_cert = codes "/file/ssl-cert"
store_of ssl_key = codes "/file/ssl-key"
store_of ca_cert = codes "/file/ca-cert"

unfoldable pub path_of : Request → Text
unfolding store_of
path_of (post_auth _ _) = codes "/auth"
path_of (post_active_partition _) = codes "/active-partition"
path_of post_logoff = codes "/logoff"
path_of get_partitions = codes "/partition"
path_of get_version = codes "/version/oper"
path_of get_certificates = codes "/slb/ssl-cert/oper"
path_of (get_files kind) = store_of kind ++ codes "/oper"
path_of get_client_templates = codes "/slb/template/client-ssl"
path_of (get_client_template name) = codes "/slb/template/client-ssl/" ++ name
path_of get_server_templates = codes "/slb/template/server-ssl"
path_of get_virtual_servers = codes "/slb/virtual-server"
path_of (post_file kind _ _) = store_of kind
path_of (post_binding template _) =
    codes "/slb/template/client-ssl/" ++ (template ++ codes "/certificate")
path_of (delete_binding template certificate) =
    codes "/slb/template/client-ssl/" ++ (template ++ (codes "/certificate/" ++ certificate))
path_of (post_delete _) = codes "/pki/delete"
path_of (post_write_memory _) = codes "/write/memory"

abbrev one : Text → Json → Json
one name value = Json.obj (Fields.field name value Fields.end)

-- `uploadAction`, as text
unfoldable pub action_text : UploadAction → Text
action_text import = codes "import"
action_text replace = codes "replace"

-- A number of one digit: `secured` and `shared` are 0 or 1.
unfoldable pub digit_json : ℕ → Json
digit_json n = Json.num ((b'0' + n) ∷ [])

-- The metadata of an upload
unfoldable pub upload_json : FileKind → UploadDocument → Json
unfolding action_text digit_json
upload_json ssl_cert doc = one (codes "ssl-cert") (
    Json.obj (
      Fields.field (codes "action") (Json.str (action_text doc.action)) (
        Fields.field (codes "certificate-type") (Json.str (codes "pem")) (
          Fields.field (codes "file") (Json.str doc.file)
            (Fields.field (codes "file-handle") (Json.str doc.file) Fields.end)))))
upload_json ssl_key doc = one (codes "ssl-key") (
    Json.obj (
      Fields.field (codes "action") (Json.str (action_text doc.action)) (
        Fields.field (codes "file") (Json.str doc.file) (
          Fields.field (codes "file-handle") (Json.str doc.file)
            (Fields.field (codes "secured") (digit_json doc.secured) Fields.end)))))
upload_json ca_cert doc = one (codes "ca-cert") (
    Json.obj (
      Fields.field (codes "action") (Json.str (action_text doc.action)) (
        Fields.field (codes "certificate-type") (Json.str (codes "pem")) (
          Fields.field (codes "file") (Json.str doc.file)
            (Fields.field (codes "file-handle") (Json.str doc.file) Fields.end)))))

-- `certificateBindingDocument`
unfoldable pub binding_document_json : BindingDocument → Json
unfolding digit_json
binding_document_json doc = one (codes "certificate") (
    Json.obj (
      Fields.field (codes "cert") (Json.str doc.certificate) (
        Fields.field (codes "key") (Json.str doc.key) (
          optional (codes "chain-cert") doc.chain (
            if eqb doc.shared 0
            then optional (codes "passphrase") doc.passphrase Fields.end
            else Fields.field (codes "shared") (digit_json doc.shared)
                (optional (codes "passphrase") doc.passphrase Fields.end))))))

-- `deleteMaterialDocument`
unfoldable pub material_json : MaterialNames → Json
material_json names = one (codes "delete") (
    Json.obj (
      optional (codes "cert-name") names.certificate
        (optional (codes "private-key") names.key (optional (codes "ca") names.ca Fields.end))))

-- `writeMemoryDocument`, by the name of the session's partition
unfoldable pub memory_json : Text → Json
memory_json partition = one (codes "memory") (
    Json.obj (
      Fields.field (codes "destination") (Json.str (codes "primary")) (
        Fields.field (codes "partition")
          (Json.str (if is_nil partition then codes "shared" else codes "specified"))
          (optional (codes "specified-partition") partition Fields.end))))

-- `authRequest`
unfoldable pub auth_json : Text → Text → Json
auth_json username password = one (codes "credentials") (
    Json.obj (
      Fields.field (codes "username") (Json.str username)
        (Fields.field (codes "password") (Json.str password) Fields.end)))

-- The document of a request; a `GET` and a `DELETE` have none.
unfoldable pub document_of : Request → Option Json
unfolding upload_json binding_document_json material_json memory_json auth_json
document_of (post_auth username password) = some (auth_json username password)
document_of (post_active_partition name) =
    some (one (codes "active-partition") (one (codes "curr_part_name") (Json.str name)))
document_of post_logoff = some (Json.obj Fields.end)
document_of (post_file kind doc pem) = some (upload_json kind doc)
document_of (post_binding template doc) = some (binding_document_json doc)
document_of (post_delete names) = some (material_json names)
document_of (post_write_memory partition) = some (memory_json partition)
document_of _ = none

-- `strings.Cut` at the first `?`
unfoldable pub cut_query : Text → Text × Text
cut_query [] = ([], [])
cut_query (c ∷ s) =
    let (front, query) = cut_query s in if eqb c b'?' then ([], s) else (c ∷ front, query)

-- `(*Client).endpoint`: the path and the query of the URL
unfoldable pub endpoint : Text → Text → Text × Text
unfolding cut_query trim_suffix trim_prefix
endpoint base relative =
    let (path, query) = cut_query relative in
    (trim_suffix base (codes "/") ++ (b'/' ∷ trim_prefix path (codes "/")), query)
