-- ===== src/Template/References/Sound.antt =====
-- What it means that a template names a file, apart from the checks of pkg/a10/sync.go, and that
-- those checks find every such name.
use a10_certctl.Base.{
  ◌≡◌, refl, sym, ap, ◌∙◌, subst, Bool, true, false, List, [], ◌∷◌, Option, some, is_nil, any,
  arith,
}
use mathlib.Core.List.{Memᴰ}
use mathlib.Core.List.Memᴰ
use a10_certctl.Text.{Text, ◌==◌}
use a10_certctl.Text.Laws.{==_iff}
use a10_certctl.Json.{
  Json, str, arr, obj, Items, cons, Fields, field, contains_string, items_contain, fields_contain,
}
use a10_certctl.Template.{Binding, ServerName, ClientSslTemplate, ServerBinding, ServerSslTemplate}
use a10_certctl.Template.References.{
  binding_names, server_name_names, forward_proxy_names, raw_payload_references,
  client_template_references, server_binding_names, server_template_references, referenced,
}

-- A text that is a string somewhere in a JSON value, at any depth
mutual
  pub data Occurs (name : Text) : Json → Type 0 where
    here : {s : Text} → name ≡ s → Occurs name (str s)
    in_array : {xs : Items} → OccursInItems name xs → Occurs name (arr xs)
    in_object : {fs : Fields} → OccursInFields name fs → Occurs name (obj fs)

  pub data OccursInItems (name : Text) : Items → Type 0 where
    first : {x : Json} {xs : Items} → Occurs name x → OccursInItems name (cons x xs)
    later : {x : Json} {xs : Items} → OccursInItems name xs → OccursInItems name (cons x xs)

  pub data OccursInFields (name : Text) : Fields → Type 0 where
    first_member :
        {k : Text} {v : Json} {fs : Fields} → Occurs name v → OccursInFields name (field k v fs)
    later_member :
        {k : Text} {v : Json} {fs : Fields}
        → OccursInFields name fs
        → OccursInFields name (field k v fs)

-- A file that a client-SSL template names: in a binding, in an entry for a server name, as its chain,
-- for the forward proxy, or anywhere in the retained payload
pub data NamesFile (name : Text) (t : ClientSslTemplate) : Type 0 where
  bound :
      {b : Binding}
      → Memᴰ b t.certificates
      → Memᴰ name (b.certificate ∷ b.key ∷ b.chain ∷ [])
      → NamesFile name t
  served :
      {b : ServerName}
      → Memᴰ b t.server_names
      → Memᴰ name
          (b.certificate ∷ b.key ∷ b.chain ∷ b.regex_certificate ∷ b.regex_key ∷ b.regex_chain ∷ [])
      → NamesFile name t
  chained : name ≡ t.chain_certificate → NamesFile name t
  forwarded :
      Memᴰ name (
        t.forward_proxy.ca_certificate ∷ t.forward_proxy.ca_key ∷ t.forward_proxy.certificate
        ∷ t.forward_proxy.key ∷ t.forward_proxy.chain ∷ t.forward_proxy.alternate_certificate
        ∷ t.forward_proxy.alternate_key ∷ t.forward_proxy.alternate_chain ∷ [])
      → NamesFile name t
  retained :
      {fs : Fields} → t.revision_payload ≡ some fs → OccursInFields name fs → NamesFile name t

-- A file that a server-SSL template names
pub data NamesServerFile (name : Text) (t : ServerSslTemplate) : Type 0 where
  server_bound :
      {b : ServerBinding}
      → t.certificate ≡ some b
      → Memᴰ name (b.certificate ∷ b.key ∷ [])
      → NamesServerFile name t
  server_retained :
      {fs : Fields}
      → t.reference_payload ≡ some fs
      → OccursInFields name fs
      → NamesServerFile name t

mutual
  unfolding contains_string items_contain fields_contain

  Occurs-found : (name : Text) (j : Json) → Occurs name j → contains_string j name ≡ true
  Occurs-found name _ (here {s} e) = (==_iff s name).1 (sym e)
  Occurs-found name _ (in_array {xs} o) = item_found name xs o
  Occurs-found name _ (in_object {fs} o) = member_found name fs o

  item_found : (name : Text) (xs : Items) → OccursInItems name xs → items_contain xs name ≡ true
  item_found name _ (first {x} {xs} o) = ground (arith, Occurs-found name x o)
  item_found name _ (later {x} {xs} o) = ground (arith, item_found name xs o)

  member_found :
      (name : Text) (fs : Fields) → OccursInFields name fs → fields_contain fs name ≡ true
  member_found name _ (first_member {k} {v} {fs} o) = ground (arith, Occurs-found name v o)
  member_found name _ (later_member {k} {v} {fs} o) = ground (arith, member_found name fs o)

any_found :
    {A : Type 0} (p : A → Bool) (a : A) (xs : List A) → Memᴰ a xs → p a ≡ true → any p xs ≡ true
any_found p a (x ∷ xs) (Memᴰ.head e) h =
    let first : p x ≡ true = subst (λ y. p y ≡ true) e h in ground arith
any_found p a (x ∷ xs) (Memᴰ.tail m) h = ground (arith, any_found p a xs m h)
any_found p a [] m h = absurd (Memᴰ.not-nil m)

-- One of the names in a list
listed : (name : Text) (xs : List Text) → Memᴰ name xs → any (λ x. x == name) xs ≡ true
listed name xs m = any_found (λ x. x == name) name xs m ((==_iff name name).1 refl)

module _ (name : Text) (named : is_nil name ≡ false) where
  retained_found :
      (o : Option Fields) (fs : Fields)
      → o ≡ some fs
      → OccursInFields name fs
      → raw_payload_references o name ≡ true
  unfolding raw_payload_references
  retained_found o fs e h =
      ap (λ p. raw_payload_references p name) e ∙ rw named (member_found name fs h)

  client_found :
      (t : ClientSslTemplate) → NamesFile name t → client_template_references t name ≡ true
  unfolding client_template_references binding_names server_name_names forward_proxy_names
  client_found t (bound {b} m l) =
      let found : binding_names b name ≡ true = ground (arith, listed name _ l) in
      let some_one = any_found (λ c. binding_names c name) b t.certificates m found in ground arith
  client_found t (served {b} m l) =
      let found : server_name_names b name ≡ true = ground (arith, listed name _ l) in
      let some_one = any_found (λ c. server_name_names c name) b t.server_names m found in
      ground arith
  client_found t (chained e) = ground (arith, ==_iff t.chain_certificate name)
  client_found t (forwarded l) =
      let found : forward_proxy_names t.forward_proxy name ≡ true =
        ground (arith, listed name _ l) in
      ground arith
  client_found t (retained {fs} e o) =
      let found = retained_found t.revision_payload fs e o in ground arith

  server_found :
      (t : ServerSslTemplate) → NamesServerFile name t → server_template_references t name ≡ true
  unfolding server_template_references
  server_found t (server_bound {b} e l) =
      let found : server_binding_names (some b) name ≡ true =
        unfold server_binding_names in ground (arith, listed name _ l) in
      let same = ap (λ o. server_binding_names o name) e in ground arith
  server_found t (server_retained {fs} e o) =
      let found = retained_found t.reference_payload fs e o in ground arith

  -- A name without a reference is named by no template.
  module _ (ts : List ClientSslTemplate) (ss : List ServerSslTemplate)
      (absent : referenced ts ss name ≡ false) where
    pub unnamed : (t : ClientSslTemplate) → Memᴰ t ts → ¬ NamesFile name t
    unfolding referenced
    unnamed t m n =
        let found = any_found (λ u. client_template_references u name) t ts m (client_found t n) in
        ground arith

    pub unnamed_by_server : (t : ServerSslTemplate) → Memᴰ t ss → ¬ NamesServerFile name t
    unfolding referenced
    unnamed_by_server t m n =
        let found = any_found (λ u. server_template_references u name) t ss m (server_found t n) in
        ground arith
