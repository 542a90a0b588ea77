-- ===== src/Axapi/Wire/Names.antt =====
-- A name that the package accepts stands for itself in an endpoint: pkg/a10/client.go
use a10_certctl.Base.{
  ℕ, ◌≡◌, ◌≢◌, refl, ap₂, sym, ap, ◌∙◌, Bool, false, ◌||◌, [], ◌∷◌, ◌++◌, any, arith,
}
use a10_certctl.Text.{Text, codes, trim_prefix, trim_suffix, has_prefix, drop, count}
use a10_certctl.Errors.{ok}
use a10_certctl.Names.{validate_template_name, validate_file_name, is_separator, is_delimiter}
use a10_certctl.Names.Laws.{IsObjectName, validate_template_name_iff, validate_file_name_iff}
use a10_certctl.Axapi.{
  ssl_cert, ssl_key, ca_cert, get_files, post_file, Request, get_client_template, post_binding,
  delete_binding,
}
use a10_certctl.Axapi.Wire.{path_of, store_of, cut_query, endpoint}

any-append : (p : ℕ → Bool) (s t : Text) → any p (s ++ t) ≡ (any p s || any p t)
any-append p [] t = refl
any-append p (c ∷ s) t = ground (arith, any-append p s t)

cut_query_plain : (s : Text) → any is_delimiter s ≡ false → cut_query s ≡ (s, [])
unfolding cut_query is_delimiter
cut_query_plain [] h = refl
cut_query_plain (c ∷ s) h = ground (arith, cut_query_plain s)

cons-inj : (c d : ℕ) (s t : Text) → c ∷ s ≡ d ∷ t → (c ≡ d) × (s ≡ t)
cons-inj c d s t e = (cc, cc)

not_separator : (c : ℕ) (s : Text) → any is_separator (c ∷ s) ≡ false → c ≢ b'/'
unfolding is_separator
not_separator c s h = ground arith

rest_separator : (c : ℕ) (s : Text) → any is_separator (c ∷ s) ≡ false → any is_separator s ≡ false
rest_separator c s h = ground arith

-- Texts without a slash, up to the first slash
slash_inj :
    (s t x y : Text)
    → any is_separator s ≡ false
    → any is_separator t ≡ false
    → s ++ b'/' ∷ x ≡ t ++ b'/' ∷ y
    → (s ≡ t) × (x ≡ y)
slash_inj [] [] x y hs ht e = (refl, (cons-inj _ _ _ _ e).1)
slash_inj [] (d ∷ t) x y hs ht e = absurd (not_separator d t ht (sym (cons-inj _ _ _ _ e).0))
slash_inj (c ∷ s) [] x y hs ht e = absurd (not_separator c s hs (cons-inj _ _ _ _ e).0)
slash_inj (c ∷ s) (d ∷ t) x y hs ht e =
    let (head, tail) = cons-inj _ _ _ _ e in
    let (rest, after) = slash_inj s t x y (rest_separator c s hs) (rest_separator d t ht) tail in
    (ap₂ (λ a l. a ∷ l) head rest, after)

-- The names in a request's endpoint are accepted.
abbrev pub IsNamed : Request → Type 0
IsNamed (get_client_template name) = validate_template_name name ≡ ok tt
IsNamed (post_binding template doc) = validate_template_name template ≡ ok tt
IsNamed (delete_binding template certificate) =
    (validate_template_name template ≡ ok tt) × (validate_file_name certificate ≡ ok tt)
IsNamed r = Unit

template_plain : (name : Text) → validate_template_name name ≡ ok tt → IsObjectName name
template_plain name h = ((validate_template_name_iff name).0 h).0

file_plain : (name : Text) → validate_file_name name ≡ ok tt → IsObjectName name
file_plain name h = ((validate_file_name_iff name).0 h).0

-- An endpoint of accepted names has no delimiter of a query or a fragment.
path_of_plain : (r : Request) → IsNamed r → any is_delimiter (path_of r) ≡ false
unfolding path_of store_of is_delimiter
path_of_plain (get_client_template name) h =
    any-append is_delimiter (codes "/slb/template/client-ssl/") name
    ∙ (template_plain name h).no_delimiter
path_of_plain (post_binding template doc) h =
    any-append is_delimiter template (codes "/certificate")
    ∙ ap (λ b. b || false) (template_plain template h).no_delimiter
path_of_plain (delete_binding template certificate) h =
    any-append is_delimiter template (codes "/certificate/" ++ certificate)
    ∙ ap₂ (λ a b. a || b) (template_plain template h.0).no_delimiter
        (file_plain certificate h.1).no_delimiter
path_of_plain (get_files ssl_cert) h = refl
path_of_plain (get_files ssl_key) h = refl
path_of_plain (get_files ca_cert) h = refl
path_of_plain (post_file ssl_cert _ _) h = refl
path_of_plain (post_file ssl_key _ _) h = refl
path_of_plain (post_file ca_cert _ _) h = refl
path_of_plain _ h = refl

-- Every endpoint starts with a slash.
path_of_slash : (r : Request) → b'/' ∷ trim_prefix (path_of r) (codes "/") ≡ path_of r
unfolding path_of store_of trim_prefix has_prefix drop count
path_of_slash (get_files ssl_cert) = refl
path_of_slash (get_files ssl_key) = refl
path_of_slash (get_files ca_cert) = refl
path_of_slash (post_file ssl_cert _ _) = refl
path_of_slash (post_file ssl_key _ _) = refl
path_of_slash (post_file ca_cert _ _) = refl
path_of_slash _ = refl

-- Where the names in a request are accepted ones, its URL has the base's path, the request's endpoint
-- behind it, and no query: a name cannot start a query or a fragment.
pub endpoint-path_of :
    (base : Text) (r : Request)
    → IsNamed r
    → endpoint base (path_of r) ≡ (trim_suffix base (codes "/") ++ path_of r, [])
unfolding endpoint
endpoint-path_of base r h =
    rw (cut_query_plain (path_of r) (path_of_plain r h))
      (ap (λ p. (trim_suffix base (codes "/") ++ p, [])) (path_of_slash r))

-- The endpoints of two removals of bindings with accepted template names are the same only if the
-- template and the certificate are: a template's name cannot reach into another's bindings.
pub delete_binding-path_of_inj :
    (s t certificate other : Text)
    → validate_template_name s ≡ ok tt
    → validate_template_name t ≡ ok tt
    → path_of (delete_binding s certificate) ≡ path_of (delete_binding t other)
    → (s ≡ t) × (certificate ≡ other)
unfolding path_of drop
delete_binding-path_of_inj s t certificate other hs ht e =
    let (same, after) =
      slash_inj s t (codes "certificate/" ++ certificate) (codes "certificate/" ++ other)
        (template_plain s hs).no_separator (template_plain t ht).no_separator (ap (drop 25) e) in
    (same, ap (drop 12) after)
