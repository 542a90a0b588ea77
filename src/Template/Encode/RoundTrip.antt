-- ===== src/Template/Encode/RoundTrip.antt =====
-- What the decoders make of the encoders' values.
use a10_certctl.Base.{
  ℕ, ◌≡◌, refl, sym, ap, Bool, true, false, List, [], ◌∷◌, some, inl, inr, Bool-cases,
  if◌then◌else◌,
}
use a10_certctl.Text.{Text, codes}
use a10_certctl.Errors.{ok}
use a10_certctl.Json.{Json, Items, Fields, axapi_boolean}
use a10_certctl.Json.Decode.{
  fold_case, fold_eq, last_member, member, decode_text, decode_list, decode_items, decode_struct,
}
use a10_certctl.Template.{
  Binding, ServerName, ClientSslTemplate, decode_binding, decode_binding_fields,
  decode_server_name_fields, decode_forward_proxy, decode_client_fields, decode_client_ssl,
}
use a10_certctl.Template.Encode.{
  optional, optional_items, binding_json, server_name_json, forward_proxy_fields, binding_items,
  server_name_items, template_fields, template_json,
}

-- What a string field leaves for the reading of another name, or of its own.
store : Bool → Text → Json → Json
store false v found = found
store true [] found = found
store true (c ∷ v) found = Json.str (c ∷ v)

store-nil : (b : Bool) (found : Json) → store b [] found ≡ found
unfolding store
store-nil true found = refl
store-nil false found = refl

store-cons :
    (b : Bool) (c : ℕ) (v : Text) (found : Json)
    → (if b then Json.str (c ∷ v) else found) ≡ store b (c ∷ v) found
unfolding store
store-cons true c v found = refl
store-cons false c v found = refl

last_member-optional :
    (name k v : Text) (found : Json) (rest : Fields)
    → last_member name found (optional k v rest)
      ≡ last_member name (store (fold_eq k name) v found) rest
unfolding optional last_member
last_member-optional name k [] found rest =
    ap (λ x. last_member name x rest) (sym (store-nil (fold_eq k name) found))
last_member-optional name k (c ∷ v) found rest =
    ap (λ x. last_member name x rest) (store-cons (fold_eq k name) c v found)

decode_text-store : (v : Text) → decode_text (store true v Json.null) ≡ ok v
unfolding decode_text store
decode_text-store [] = refl
decode_text-store (c ∷ v) = refl

decode_binding-binding_json : (b : Binding) → decode_binding (binding_json b) ≡ ok b
unfolding decode_binding decode_binding_fields decode_struct binding_json fold_eq fold_case
    last_member axapi_boolean
decode_binding-binding_json b = elim (Bool-cases b.shared) [
  | inl e ↦ rw e (
      simp last_member-optional (
        unfold decode_text store in
        rw (decode_text-store b.chain, decode_text-store b.uuid, decode_text-store b.a10_url) refl))
  | inr e ↦ rw e (
      simp last_member-optional (
        unfold decode_text store in
        rw (decode_text-store b.chain, decode_text-store b.uuid, decode_text-store b.a10_url) refl))
]

decode_server_name-server_name_json :
    (s : ServerName) → decode_struct decode_server_name_fields (server_name_json s) ≡ ok s
unfolding decode_server_name_fields decode_struct server_name_json fold_eq fold_case last_member
decode_server_name-server_name_json s = simp last_member-optional (
    unfold decode_text store in
    rw
      (
        decode_text-store s.server_name,
        decode_text-store s.server_name_regex,
        decode_text-store s.certificate,
        decode_text-store s.key,
        decode_text-store s.chain,
        decode_text-store s.regex_certificate,
        decode_text-store s.regex_key,
        decode_text-store s.regex_chain,
        decode_text-store s.client_ssl_template,
        decode_text-store s.regex_client_ssl_template,
      )
      refl)

decode_binding_items : (bs : List Binding) → decode_items decode_binding (binding_items bs) ≡ ok bs
unfolding decode_items binding_items
decode_binding_items [] = refl
decode_binding_items (b ∷ bs) = rw (decode_binding-binding_json b, decode_binding_items bs) refl

decode_server_name_items :
    (ss : List ServerName)
    → decode_items (decode_struct decode_server_name_fields) (server_name_items ss) ≡ ok ss
unfolding decode_items server_name_items
decode_server_name_items [] = refl
decode_server_name_items (s ∷ ss) =
    rw (decode_server_name-server_name_json s, decode_server_name_items ss) refl

store_items : Bool → Items → Json → Json
store_items false xs found = found
store_items true Items.nil found = found
store_items true (Items.cons x xs) found = Json.arr (Items.cons x xs)

store_items-nil : (b : Bool) (found : Json) → found ≡ store_items b Items.nil found
unfolding store_items
store_items-nil true found = refl
store_items-nil false found = refl

store_items-cons :
    (b : Bool) (x : Json) (xs : Items) (found : Json)
    → (if b then Json.arr (Items.cons x xs) else found) ≡ store_items b (Items.cons x xs) found
unfolding store_items
store_items-cons true x xs found = refl
store_items-cons false x xs found = refl

last_member-optional_items :
    (name k : Text) (xs : Items) (found : Json) (rest : Fields)
    → last_member name found (optional_items k xs rest)
      ≡ last_member name (store_items (fold_eq k name) xs found) rest
unfolding optional_items last_member
last_member-optional_items name k Items.nil found rest =
    ap (λ x. last_member name x rest) (store_items-nil (fold_eq k name) found)
last_member-optional_items name k (Items.cons x xs) found rest =
    ap (λ y. last_member name y rest) (store_items-cons (fold_eq k name) x xs found)

decode_bindings-store :
    (bs : List Binding)
    → decode_list decode_binding (store_items true (binding_items bs) Json.null) ≡ ok bs
unfolding decode_list store_items binding_items
decode_bindings-store [] = refl
decode_bindings-store (b ∷ bs) = decode_binding_items (b ∷ bs)

decode_server_names-store :
    (ss : List ServerName)
    → decode_list
        (decode_struct decode_server_name_fields)
        (store_items true (server_name_items ss) Json.null)
      ≡ ok ss
unfolding decode_list store_items server_name_items
decode_server_names-store [] = refl
decode_server_names-store (s ∷ ss) = decode_server_name_items (s ∷ ss)

decode_forward_proxy-template_fields :
    (t : ClientSslTemplate) → decode_forward_proxy (template_fields t) ≡ ok t.forward_proxy
unfolding decode_forward_proxy template_fields forward_proxy_fields fold_eq fold_case last_member
decode_forward_proxy-template_fields t =
    simp (last_member-optional, last_member-optional_items)
      (unfold decode_text store store_items in
        rw
          (
            decode_text-store t.forward_proxy.ca_certificate,
            decode_text-store t.forward_proxy.ca_key,
            decode_text-store t.forward_proxy.certificate,
            decode_text-store t.forward_proxy.key,
            decode_text-store t.forward_proxy.chain,
            decode_text-store t.forward_proxy.alternate_certificate,
            decode_text-store t.forward_proxy.alternate_key,
            decode_text-store t.forward_proxy.alternate_chain,
          )
          refl)

module _ (t : ClientSslTemplate) where
  certificates_read :
      decode_list decode_binding (member (codes "certificate-list") (template_fields t))
      ≡ ok t.certificates
  unfolding template_fields forward_proxy_fields fold_eq fold_case last_member
  certificates_read =
      simp (last_member-optional, last_member-optional_items)
        (unfold store store_items in decode_bindings-store t.certificates)

  server_names_read :
      decode_list
        (decode_struct decode_server_name_fields)
        (member (codes "server-name-list") (template_fields t))
      ≡ ok t.server_names
  unfolding template_fields forward_proxy_fields fold_eq fold_case last_member
  server_names_read =
      simp (last_member-optional, last_member-optional_items)
        (unfold store store_items in decode_server_names-store t.server_names)

  name_read : decode_text (member (codes "name") (template_fields t)) ≡ ok t.name
  unfolding template_fields forward_proxy_fields fold_eq fold_case last_member
  name_read =
      simp (last_member-optional, last_member-optional_items)
        (unfold decode_text store store_items in refl)

  chain_certificate_read :
      decode_text (member (codes "chain-cert") (template_fields t)) ≡ ok t.chain_certificate
  unfolding template_fields forward_proxy_fields fold_eq fold_case last_member
  chain_certificate_read =
      simp (last_member-optional, last_member-optional_items)
        (unfold store store_items in decode_text-store t.chain_certificate)

  uuid_read : decode_text (member (codes "uuid") (template_fields t)) ≡ ok t.uuid
  unfolding template_fields forward_proxy_fields fold_eq fold_case last_member
  uuid_read =
      simp (last_member-optional, last_member-optional_items)
        (unfold store store_items in decode_text-store t.uuid)

  a10_url_read : decode_text (member (codes "a10-url") (template_fields t)) ≡ ok t.a10_url
  unfolding template_fields forward_proxy_fields fold_eq fold_case last_member
  a10_url_read =
      simp (last_member-optional, last_member-optional_items)
        (unfold store store_items in decode_text-store t.a10_url)

-- A template that is written by `MarshalJSON` and read again is the same one, but that it retains
-- what was read.
pub decode_client_ssl-template_json :
    (t : ClientSslTemplate)
    → decode_client_ssl (template_json t)
      ≡ ok (record t { revision_payload = some (template_fields t) })
unfolding decode_client_ssl decode_client_fields template_json
decode_client_ssl-template_json t =
    rw
      (
        name_read t,
        certificates_read t,
        server_names_read t,
        chain_certificate_read t,
        decode_forward_proxy-template_fields t,
        uuid_read t,
        a10_url_read t,
      )
      refl
