-- ===== src/Cli/Run/Changing.antt =====
-- The requests in the scope of a command of cmd/a10-certctl/main.go, and the commands that change
-- the appliance.
use a10_certctl.Base.{◌≡◌, refl, ◌⊎◌, inl, inr, Bool, true, false, List, [], Option}
use a10_certctl.Text.{Text}
use a10_certctl.Errors.{Result, ok, err}
use a10_certctl.Exec.Keeps.{Keeps, keeps_rules}
use a10_certctl.Axapi.{
  UploadAction, MaterialNames, Request, post_file, post_binding, delete_binding, post_delete,
  post_write_memory, World, Io,
}
use a10_certctl.Axapi.Sends.{Extends-map, Sends, Sends-bind}
use a10_certctl.Bundle.{CertificateBundle}
use a10_certctl.Template.{Binding}
use a10_certctl.Session.{UploadOptions}
use a10_certctl.Session.Footprint.{IsRead, verify_compatibility-Sends}
use a10_certctl.Sync.{Target, SyncOptions, SyncResult}
use a10_certctl.Sync.Footprint.{InFootprint, sync_certificate-InFootprint}
use a10_certctl.Client.{
  Client, client_sync_certificate, after_start, if_valid, rotate_in_session, start_session,
}
use a10_certctl.Client.Scope.{
  Adds, Adds-Extends, Opens, Sends-Keeps, in_session-Keeps, start_session-Keeps, close-Keeps,
}
use a10_certctl.Cli.{Shell, with_session, with_compatible_session}
use a10_certctl.Cli.Flags.{Flag, Settings}
use a10_certctl.Cli.Changes.{
  flags_of, bundle_of, sync_in_client, synced, import_material, bind_in_session, unbind_in_session,
  delete_in_session, sync_command, import_command, bind_command, unbind_command, delete_command,
}
use a10_certctl.Cli.Run.Operations.{
  import_material-Sends, bind_in_session-Sends, unbind_in_session-Sends, delete_in_session-Sends,
}
use a10_certctl.Cli.Run.{Command, synchronize, import, bind, unbind, delete, save}

-- The commands that may write memory
abbrev pub is_saving : Command → Bool
is_saving synchronize = true
is_saving import = true
is_saving bind = true
is_saving unbind = true
is_saving delete = true
is_saving save = true
is_saving _ = false

-- The requests of a command: reads, the opening and closing of a session, and the changes that the
-- command is for.
abbrev pub InScope : Command → Request → Type 0
InScope c (post_file kind doc pem) =
    (c ≡ import) ⊎ ((c ≡ synchronize) × (doc.action ≡ UploadAction.import))
InScope c (post_binding t doc) = (c ≡ bind) ⊎ (c ≡ synchronize)
InScope c (delete_binding t certificate) = (c ≡ unbind) ⊎ (c ≡ synchronize)
InScope c (post_delete m) = (c ≡ delete) ⊎ ((c ≡ synchronize) × (m.ca ≡ []))
InScope c (post_write_memory p) = is_saving c ≡ true
InScope c _ = Unit

pub reads-InScope : (c : Command) (r : Request) → IsRead r → InScope c r
reads-InScope c (post_file _ _ _) h = cc
reads-InScope c (post_binding _ _) h = cc
reads-InScope c (delete_binding _ _) h = cc
reads-InScope c (post_delete _) h = cc
reads-InScope c (post_write_memory _) h = cc
reads-InScope c _ h = tt

pub opens-InScope : (c : Command) → Opens (InScope c)
opens-InScope c = record { auth = λ u p. tt; selects = λ name. tt; logoff = tt; partitions = tt }

footprint-InScope :
    (target : Target) (bundle : CertificateBundle) (options : SyncOptions) (r : Request)
    → InFootprint target bundle options r
    → InScope synchronize r
footprint-InScope target bundle options (post_file _ _ _) h = inr (refl, h.0)
footprint-InScope target bundle options (post_binding _ _) h = inr refl
footprint-InScope target bundle options (delete_binding _ _) h = inr refl
footprint-InScope target bundle options (post_delete _) h = inr (refl, h)
footprint-InScope target bundle options (post_write_memory _) h = refl
footprint-InScope target bundle options _ h = tt

module _ (client : Client) {c : Command} {w₀ : World} where
  -- A session with an operation whose requests are in scope
  pub session-Keeps :
      {A : Type 0} (operation : Io A)
      → Sends (InScope c) (λ w. w) operation
      → Keeps (Adds (InScope c) w₀) (with_session client operation)
  unfolding with_session
  session-Keeps operation h =
      in_session-Keeps (opens-InScope c) client operation (Sends-Keeps operation h)

  pub compatible-Keeps :
      {A : Type 0} (operation : Io A)
      → Sends (InScope c) (λ w. w) operation
      → Keeps (Adds (InScope c) w₀) (with_compatible_session client operation)
  unfolding with_compatible_session
  compatible-Keeps operation h =
      session-Keeps _ (Sends-bind _ _ (verify_compatibility-Sends (reads-InScope c)) (λ v. h))

module _ (client : Client) {w₀ : World} where
  importing-Keeps :
      (name certificate key : Text) (b : CertificateBundle) (o : UploadOptions) (no_save : Bool)
      → Keeps
          (Adds (InScope import) w₀)
          (with_compatible_session client (import_material name certificate key b o no_save))
  importing-Keeps name certificate key b o no_save = compatible-Keeps client _ (
      import_material-Sends (λ p. refl) (λ kind doc pem. inl refl) name certificate key b o no_save)

  binding-Keeps :
      (template : Text) (b : Binding) (passphrase : Text) (no_save : Bool)
      → Keeps
          (Adds (InScope bind) w₀)
          (with_compatible_session client (bind_in_session template b passphrase no_save))
  binding-Keeps template b passphrase no_save =
      compatible-Keeps client _
        (bind_in_session-Sends (λ p. refl) (λ t doc. inl refl) template b passphrase no_save)

  unbinding-Keeps :
      (template certificate : Text) (no_save : Bool)
      → Keeps
          (Adds (InScope unbind) w₀)
          (with_compatible_session client (unbind_in_session template certificate no_save))
  unbinding-Keeps template certificate no_save =
      compatible-Keeps client _
        (unbind_in_session-Sends (λ p. refl) (λ t c. inl refl) template certificate no_save)

  deleting-Keeps :
      (m : MaterialNames) (chain_name chain : Text) (no_save : Bool)
      → Keeps
          (Adds (InScope delete) w₀)
          (with_compatible_session client (delete_in_session m chain_name chain no_save))
  deleting-Keeps m chain_name chain no_save =
      compatible-Keeps client _
        (delete_in_session-Sends (λ p. refl) (λ n. inl refl) m chain_name chain no_save)

  module _ (target : Target) (bundle : CertificateBundle) (options : SyncOptions) where
    rotated-Adds :
        (r : Result (Unit {0})) (w : World)
        → Adds (InScope synchronize) w₀ w
        → Adds (InScope synchronize) w₀ (after_start target bundle options (r, w)).1
    unfolding after_start
    rotated-Adds (err e) w a = a
    rotated-Adds (ok u) w a = (close-Keeps tt).at _ (
        Adds-Extends w _
          (Extends-map (footprint-InScope target bundle options)
            (sync_certificate-InFootprint target bundle options w))
          a)

    rotate-Adds :
        (w : World)
        → Adds (InScope synchronize) w₀ w
        → Adds (InScope synchronize) w₀ (rotate_in_session client target bundle options w).1
    unfolding rotate_in_session
    rotate-Adds w a =
        let (r, w') = start_session client w in
        rotated-Adds r w' ((start_session-Keeps (opens-InScope synchronize) client).at w a)

    checked-Adds :
        (r s : Result (Unit {0})) (w : World)
        → Adds (InScope synchronize) w₀ w
        → Adds
            (InScope synchronize)
            w₀
            (if_valid r (if_valid s (rotate_in_session client target bundle options)) w).1
    unfolding if_valid
    checked-Adds (ok u) (ok v) w a = rotate-Adds w a
    checked-Adds (ok u) (err e) w a = a
    checked-Adds (err e) s w a = a

    synced-Adds :
        (x : (Result (Unit {0}) × Option SyncResult) × World)
        → Adds (InScope synchronize) w₀ x.1
        → Adds (InScope synchronize) w₀ (synced x).1
    unfolding synced
    synced-Adds ((ok u, r), w) a = a
    synced-Adds ((err e, r), w) a = a

    synchronizing-Keeps :
        Keeps (Adds (InScope synchronize) w₀) (sync_in_client client target bundle options)
    unfolding sync_in_client client_sync_certificate
    synchronizing-Keeps = record { at = λ w a. synced-Adds _ (checked-Adds _ _ w a) }

module _ (shell : Shell) (client : Client) {w₀ : World} where
  pub flags_of-Keeps :
      {P : Request → Type 0} (flags : List Flag) (rest : List Text)
      → Keeps (Adds P w₀) (flags_of shell client flags rest)
  unfolding flags_of
  flags_of-Keeps flags rest = search keeps_rules

  bundle_of-Keeps :
      {P : Request → Type 0} (settings : Settings)
      → Keeps (Adds P w₀) (bundle_of shell client settings)
  unfolding bundle_of
  bundle_of-Keeps settings = search keeps_rules

  pub import_command-Keeps :
      (rest : List Text) → Keeps (Adds (InScope import) w₀) (import_command shell client rest)
  unfolding import_command
  import_command-Keeps rest =
      search (keeps_rules, flags_of-Keeps, bundle_of-Keeps, importing-Keeps) depth 14

  pub bind_command-Keeps :
      (rest : List Text) → Keeps (Adds (InScope bind) w₀) (bind_command shell client rest)
  unfolding bind_command
  bind_command-Keeps rest = search (keeps_rules, flags_of-Keeps, binding-Keeps) depth 14

  pub unbind_command-Keeps :
      (rest : List Text) → Keeps (Adds (InScope unbind) w₀) (unbind_command shell client rest)
  unfolding unbind_command
  unbind_command-Keeps rest = search (keeps_rules, flags_of-Keeps, unbinding-Keeps) depth 14

  pub delete_command-Keeps :
      (rest : List Text) → Keeps (Adds (InScope delete) w₀) (delete_command shell client rest)
  unfolding delete_command
  delete_command-Keeps rest = search (keeps_rules, flags_of-Keeps, deleting-Keeps) depth 14

  pub sync_command-Keeps :
      (rest : List Text) → Keeps (Adds (InScope synchronize) w₀) (sync_command shell client rest)
  unfolding sync_command
  sync_command-Keeps rest =
      search (keeps_rules, flags_of-Keeps, bundle_of-Keeps, synchronizing-Keeps) depth 14
