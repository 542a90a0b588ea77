-- ===== src/Cli/Run/Operations.antt =====
-- Which requests the commands of cmd/a10-certctl/main.go send within their session.
use a10_certctl.Base.{refl, Bool, Option, none, some}
use a10_certctl.Text.{Text}
use a10_certctl.Axapi.{
  FileKind, UploadDocument, BindingDocument, MaterialNames, Request, get_virtual_servers, post_file,
  post_binding, delete_binding, post_delete, post_write_memory,
}
use a10_certctl.Axapi.Sends.{Sends, Sends-get_json, sends_rules}
use a10_certctl.Bundle.{CertificateBundle}
use a10_certctl.Template.{Binding}
use a10_certctl.Session.{UploadOptions}
use a10_certctl.Session.Footprint.{
  IsRead, get_client_ssl_template-Sends, get_certificate-Sends, get_key-Sends, upload_key-Sends,
  upload_certificate-Sends, upload_chain-Sends, bind_certificate-Sends, unbind_certificate-Sends,
  delete_material-Sends, write_memory-Sends,
}
use a10_certctl.VirtualServers.{list_virtual_servers, find_from, find_client_ssl_templates_by_vip}
use a10_certctl.State.Slot.{resolve_binding, get_managed_certificate_state}
use a10_certctl.State.{current_platform}
use a10_certctl.Sync.{Target}
use a10_certctl.Cli.{save_unless}
use a10_certctl.Cli.Changes.{
  import_material, bind_in_session, unbind_in_session, delete_in_session, write_in_session,
}

-- The operations in a session
module _ {P : Request → Type 0} (reads : (r : Request) → IsRead r → P r) where
  pub list_virtual_servers-Sends : Sends P (λ w. w) list_virtual_servers
  unfolding list_virtual_servers
  list_virtual_servers-Sends = Sends-get_json _ _ _ _ (reads get_virtual_servers refl)

  module _ {Addr : Type 0} (parse_addr : Text → Option Addr) (same_addr : Addr → Addr → Bool) where
    find_from-Sends : (o : Option Addr) → Sends P (λ w. w) (find_from parse_addr same_addr o)
    unfolding find_from
    find_from-Sends none = search sends_rules
    find_from-Sends (some a) = search (sends_rules, list_virtual_servers-Sends)

    pub find_vip-Sends :
        (address : Text)
        → Sends P (λ w. w) (find_client_ssl_templates_by_vip parse_addr same_addr address)
    unfolding find_client_ssl_templates_by_vip
    find_vip-Sends address = find_from-Sends (parse_addr address)

  pub resolve_binding-Sends :
      (target : Target) (revision : Text) (o : Option Binding)
      → Sends P (λ w. w) (resolve_binding target revision o)
  unfolding resolve_binding
  resolve_binding-Sends target revision none = search sends_rules
  resolve_binding-Sends target revision (some b) =
      search (sends_rules, get_certificate-Sends, get_key-Sends)

  pub get_state-Sends : (target : Target) → Sends P (λ w. w) (get_managed_certificate_state target)
  unfolding get_managed_certificate_state current_platform
  get_state-Sends target =
      search (sends_rules, get_client_ssl_template-Sends, resolve_binding-Sends) depth 12

module _ {P : Request → Type 0} (saves : (partition : Text) → P (post_write_memory partition)) where
  pub save_unless-Sends : (b : Bool) → Sends P (λ w. w) (save_unless b)
  unfolding save_unless
  save_unless-Sends b = search (sends_rules, write_memory-Sends)

  pub write_in_session-Sends : Sends P (λ w. w) write_in_session
  unfolding write_in_session
  write_in_session-Sends = search (sends_rules, write_memory-Sends)

  pub import_material-Sends :
      ((kind : FileKind) (doc : UploadDocument) (pem : Text) → P (post_file kind doc pem))
      → (name certificate key : Text) (b : CertificateBundle) (o : UploadOptions) (no_save : Bool)
      → Sends P (λ w. w) (import_material name certificate key b o no_save)
  unfolding import_material
  import_material-Sends files name certificate key b o no_save =
      search
        (
          sends_rules, save_unless-Sends, upload_key-Sends, upload_certificate-Sends,
          upload_chain-Sends,
        )
        depth 14

  pub bind_in_session-Sends :
      ((t : Text) (doc : BindingDocument) → P (post_binding t doc))
      → (template : Text) (b : Binding) (passphrase : Text) (no_save : Bool)
      → Sends P (λ w. w) (bind_in_session template b passphrase no_save)
  unfolding bind_in_session
  bind_in_session-Sends binds template b passphrase no_save =
      search (sends_rules, save_unless-Sends, bind_certificate-Sends) depth 10

  pub unbind_in_session-Sends :
      ((t c : Text) → P (delete_binding t c))
      → (template certificate : Text) (no_save : Bool)
      → Sends P (λ w. w) (unbind_in_session template certificate no_save)
  unfolding unbind_in_session
  unbind_in_session-Sends unbinds template certificate no_save =
      search (sends_rules, save_unless-Sends, unbind_certificate-Sends) depth 10

  pub delete_in_session-Sends :
      ((m : MaterialNames) → P (post_delete m))
      → (material : MaterialNames) (chain_name chain : Text) (no_save : Bool)
      → Sends P (λ w. w) (delete_in_session material chain_name chain no_save)
  unfolding delete_in_session
  delete_in_session-Sends deletes material chain_name chain no_save =
      search (sends_rules, save_unless-Sends, delete_material-Sends) depth 12
