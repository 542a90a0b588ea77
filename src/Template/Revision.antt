-- ===== src/Template/Revision.antt =====
-- `Revision` of pkg/a10/state.go: a digest of the template's canonical text.
pub mod Order
pub mod Parsed
use a10_certctl.Base.{
  ℕ, Bool, not, ◌||◌, eqb, all, List, [], ◌∷◌, ◌++◌, map, Option, none, some, if◌then◌else◌, is_nil,
}
use a10_certctl.Text.{Text, ◌==◌, codes, len, between, trim_space, has_prefix, trim_prefix}
use a10_certctl.Errors.{failed, Result, ok, refuse_if, ◌>>=◌, ◌>>◌}
use a10_certctl.Json.{
  Fields, quote, array_text, object_text, marshal_fields, remove_from_fields, text_le,
}
use a10_certctl.Platform.{Platform}
use a10_certctl.Template.{Binding, ClientSslTemplate}

-- `json.Marshal` of a `revisionBinding`: the fields of a struct come in their order, and an empty
-- chain is left out.
unfoldable pub binding_text : Binding → Text
unfolding quote
binding_text b =
    codes "{\"certificate\":"
    ++ (quote b.certificate
        ++ (codes ",\"key\":"
            ++ (quote b.key
                ++ ((if is_nil b.chain then [] else codes ",\"chain\":" ++ quote b.chain)
                    ++ (codes ",\"shared\":"
                        ++ ((if b.shared then codes "true" else codes "false") ++ codes "}"))))))

unfoldable pub insert_text : Text → List Text → List Text
unfolding text_le
insert_text t [] = t ∷ []
insert_text t (u ∷ us) = if text_le t u then t ∷ u ∷ us else u ∷ insert_text t us

unfoldable pub sort_texts : List Text → List Text
unfolding insert_text
sort_texts [] = []
sort_texts (t ∷ ts) = insert_text t (sort_texts ts)

-- The bindings, sorted by their JSON text, as JSON. Bindings that tie have the same text, so that
-- the texts can be sorted themselves.
unfoldable pub bindings_text : List Binding → Text
unfolding binding_text sort_texts array_text
bindings_text bs = array_text (sort_texts (map binding_text bs))

-- `complete[key] = value`
unfoldable pub put_member : Text → Text → List (Text × Text) → List (Text × Text)
put_member k v [] = (k, v) ∷ []
put_member k v ((j, w) ∷ m) = if j == k then (k, v) ∷ m else (j, w) ∷ put_member k v m

-- The members of the payload, without those that ACOS generates.
unfoldable pub payload_members : Option Fields → List (Text × Text)
unfolding marshal_fields remove_from_fields
payload_members none = []
payload_members (some fs) = marshal_fields (remove_from_fields fs)

-- `revisionState` as `json.Marshal` writes it. Neither member that is set here is a generated one.
unfoldable pub canonical_text : ClientSslTemplate → Text
unfolding bindings_text put_member payload_members object_text
canonical_text t = object_text (
    put_member (codes "certificate-list") (bindings_text t.certificates)
      (put_member (codes "name") (quote t.name) (payload_members t.revision_payload)))

unfoldable pub revision : Platform → ClientSslTemplate → Text
unfolding canonical_text
revision p t = codes "sha256:" ++ p.sha256 (canonical_text t)

-- `hex.DecodeString` of a text of even length returns no error
unfoldable pub is_hex_digit : ℕ → Bool
is_hex_digit c = between b'0' b'9' c || between b'a' b'f' c || between b'A' b'F' c

-- `ParseTemplateRevision`
unfoldable pub parse_template_revision : Text → Result Text
unfolding is_hex_digit
parse_template_revision value = do
  let trimmed = trim_space value
  let encoded = trim_prefix trimmed (codes "sha256:")
  refuse_if (not (has_prefix trimmed (codes "sha256:")) || not (eqb (len encoded) 64))
      (failed "template revision must use sha256: followed by 64 hexadecimal characters")
  refuse_if (not (all is_hex_digit encoded))
      (failed "template revision contains non-hexadecimal characters")
  ok trimmed
