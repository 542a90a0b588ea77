-- ===== src/Cli/Changes/Script.antt =====
-- What the commands import, bind, unbind and delete of cmd/a10-certctl/main.go have done where they
-- succeed.
use a10_certctl.Base.{
  ◌≡◌, subst, Bool, true, false, not, List, [], ◌∷◌, ◌++◌, is_nil, if◌then◌else◌,
}
use a10_certctl.Text.{Text, codes}
use a10_certctl.Errors
use a10_certctl.Errors.{Error, Result, ok, err, wrap}
use a10_certctl.Exec.{◌>>=◌, ◌>>◌, pure, lift, when}
use a10_certctl.Axapi.Sent.{Sent, Sent-pure, Sent-if, Sent-when, Sent-known, Sent-bind, sent_rules}
use a10_certctl.Axapi.{
  ssl_cert, ssl_key, MaterialNames, Request, post_file, post_binding, delete_binding, post_delete,
  post_write_memory, Io,
}
use a10_certctl.Bundle.{CertificateBundle, chain_pem}
use a10_certctl.Template.{Binding}
use a10_certctl.Names.{validate_file_name, parse_certificate_file_name}
use a10_certctl.Session.{
  UploadOptions, upload_action, upload_key, upload_certificate_file, upload_certificate,
  upload_chain, bind_certificate, unbind_certificate, delete_material, no_material,
}
use a10_certctl.Session.Footprint.{write_memory-Sent}
use a10_certctl.Cli.{save_unless}
use a10_certctl.Cli.Changes.{import_material, bind_in_session, unbind_in_session, delete_in_session}

-- The uploads of a certificate file and of a key.
abbrev pub certificate_upload : Text → Text → UploadOptions → Request
certificate_upload name pem options =
    post_file ssl_cert
      (record { action = upload_action options.replace_file; file = name; secured = 0 }) pem

abbrev pub key_upload : Text → Text → UploadOptions → Request
key_upload name pem options =
    post_file ssl_key
      (record {
        action = upload_action options.replace_file;
        file = name;
        secured = if options.exportable_key then 0 else 1;
      })
      pem

module _ {p : Text} where
  upload_certificate-Sent :
      (name pem : Text) (options : UploadOptions)
      → Sent p (certificate_upload name pem options ∷ []) (upload_certificate name pem options)
  unfolding upload_certificate upload_certificate_file
  upload_certificate-Sent name pem options = search sent_rules

  upload_chain-Sent :
      (name pem : Text) (options : UploadOptions)
      → Sent p (certificate_upload name pem options ∷ []) (upload_chain name pem options)
  unfolding upload_chain upload_certificate_file
  upload_chain-Sent name pem options = search sent_rules depth 9

  upload_key-Sent :
      (name pem : Text) (options : UploadOptions)
      → Sent p (key_upload name pem options ∷ []) (upload_key name pem options)
  unfolding upload_key
  upload_key-Sent name pem options = search sent_rules depth 9

  save_unless-Sent :
      (no_save : Bool)
      → Sent p (if not no_save then post_write_memory p ∷ [] else []) (save_unless no_save)
  unfolding save_unless
  save_unless-Sent no_save = Sent-when (not no_save) _ write_memory-Sent

-- What the body of a binding says, and of the deletion of a chain
abbrev pub binding_request : Text → Binding → Text → Request
binding_request template b passphrase = post_binding template (record {
  certificate = b.certificate;
  key = b.key;
  chain = b.chain;
  shared = if b.shared then 1 else 0;
  passphrase = passphrase;
})

abbrev pub certificate_only : Text → MaterialNames
certificate_only name = record { certificate = name; key = []; ca = [] }

-- `write memory`, unless it is switched off
abbrev pub saves_of : Text → Bool → List Request
saves_of p no_save = if not no_save then post_write_memory p ∷ [] else []

parse_certificate_file_name-eq :
    (name value : Text) → parse_certificate_file_name name ≡ ok value → value ≡ name
unfolding parse_certificate_file_name
parse_certificate_file_name-eq name value h = by_check (validate_file_name name) h
  where
    by_check :
        (r : Result (Unit {0}))
        → (Errors.◌>>◌ (wrap "certificate file name" r) (ok name)) ≡ ok value
        → value ≡ name
    by_check (ok u) h = cc
    by_check (err e) h = cc

module _ {p : Text} where
  -- A check that is made if a test holds
  checked-Sent : (b : Bool) (m : Io (Unit {0})) → Sent p [] m → Sent p [] (when b m)
  checked-Sent true m h = h
  checked-Sent false m h = Sent-pure tt

  bind_certificate-Sent :
      (template : Text) (b : Binding) (passphrase : Text)
      → Sent p (binding_request template b passphrase ∷ []) (bind_certificate template b passphrase)
  unfolding bind_certificate
  bind_certificate-Sent template b passphrase = search (sent_rules, checked-Sent) depth 10

  unbind_certificate-Sent :
      (template certificate : Text)
      → Sent p (delete_binding template certificate ∷ []) (unbind_certificate template certificate)
  unfolding unbind_certificate
  unbind_certificate-Sent template certificate = search sent_rules

  delete_material-Sent : (m : MaterialNames) → Sent p (post_delete m ∷ []) (delete_material m)
  unfolding delete_material
  delete_material-Sent m = search (sent_rules, checked-Sent) depth 10

  -- Where `bind` succeeds within its session, it has bound the pair and then, unless that is switched
  -- off, written memory; it has sent nothing else.
  pub bind_in_session-Sent :
      (template : Text) (b : Binding) (passphrase : Text) (no_save : Bool)
      → Sent p
          (saves_of p no_save ++ binding_request template b passphrase ∷ [])
          (bind_in_session template b passphrase no_save)
  unfolding bind_in_session
  bind_in_session-Sent template b passphrase no_save =
      Sent-bind _ _ (bind_certificate-Sent template b passphrase)
        λ u. Sent-bind _ _ (save_unless-Sent no_save) λ v. Sent-pure _

  pub unbind_in_session-Sent :
      (template certificate : Text) (no_save : Bool)
      → Sent p
          (saves_of p no_save ++ delete_binding template certificate ∷ [])
          (unbind_in_session template certificate no_save)
  unfolding unbind_in_session
  unbind_in_session-Sent template certificate no_save =
      Sent-bind _ _ (unbind_certificate-Sent template certificate)
        λ u. Sent-bind _ _ (save_unless-Sent no_save) λ v. Sent-pure _

  -- Where `delete` succeeds within its session, it has deleted the certificate, key and CA file that
  -- are named in one request, then the chain in one of its own, and then, unless that is switched
  -- off, it has written memory; what is not named is not deleted, and nothing else is sent.
  pub delete_in_session-Sent :
      (m : MaterialNames) (chain_name chain : Text) (no_save : Bool)
      → Sent p
          ((saves_of p no_save
              ++ (if not (is_nil chain_name)
                  then post_delete (certificate_only chain_name) ∷ []
                  else []))
            ++ (if not (no_material m) then post_delete m ∷ [] else []))
          (delete_in_session m chain_name chain no_save)
  unfolding delete_in_session
  delete_in_session-Sent m chain_name chain no_save =
      Sent-bind _ _ (Sent-when _ _ (delete_material-Sent m)) λ u.
        Sent-bind _ _ (Sent-when _ _ (delete_material-Sent _))
          λ v. Sent-known _ _ λ x e. Sent-bind _ _ (save_unless-Sent no_save) λ y. Sent-pure _

  chain-Sent :
      (name : Text) (b : CertificateBundle) (o : UploadOptions)
      → Sent p (certificate_upload (name ++ codes "-chain") (chain_pem b.chain) o ∷ []) (do
        chain_name ← lift (parse_certificate_file_name (name ++ codes "-chain"))
        upload_chain chain_name (chain_pem b.chain) o
        pure chain_name)
  chain-Sent name b o = Sent-known _ _ λ chain_name e.
      Sent-bind _ _
        (subst
          (λ n.
            Sent p (certificate_upload n (chain_pem b.chain) o ∷ [])
              (upload_chain chain_name (chain_pem b.chain) o))
          (parse_certificate_file_name-eq _ _ e)
          (upload_chain-Sent chain_name (chain_pem b.chain) o))
        λ u. Sent-pure _

  -- Where `import` succeeds within its session, it has uploaded the key, then the certificate, then
  -- the chain if the bundle has one, and then, unless that is switched off, written memory; it has
  -- sent nothing else.
  pub import_material-Sent :
      (name certificate key : Text) (b : CertificateBundle) (o : UploadOptions) (no_save : Bool)
      → Sent p
          (((saves_of p no_save
                ++ (if is_nil b.chain
                    then []
                    else certificate_upload (name ++ codes "-chain") (chain_pem b.chain) o ∷ []))
              ++ certificate_upload certificate b.certificate.pem o ∷ [])
            ++ key_upload key b.key.pem o ∷ [])
          (import_material name certificate key b o no_save)
  unfolding import_material
  import_material-Sent name certificate key b o no_save =
      Sent-bind _ _ (upload_key-Sent key b.key.pem o) λ u.
        Sent-bind _ _ (upload_certificate-Sent certificate b.certificate.pem o) λ v.
          Sent-bind _ _ (Sent-if _ _ _ (Sent-pure _) (chain-Sent name b o))
            λ chain_name. Sent-bind _ _ (save_unless-Sent no_save) λ x. Sent-pure _
