-- ===== src/Sync/Cleanup/Safe.antt =====
-- The cleanup deletes no file that a listed template names: pkg/a10/sync.go
use Prim.Native.String.{String}
use a10_certctl.Base.{
  ◌≡◌, ◌≢◌, refl, ◌⊎◌, inl, inr, Bool, true, false, List, [], ◌∷◌, arith, is_nil, if◌then◌else◌,
}
use mathlib.Core.List.{Memᴰ}
use a10_certctl.Text.{Text}
use a10_certctl.Text.Laws.{==_iff}
use a10_certctl.Errors.{Result, ok, err}
use a10_certctl.Exec.{proceed, ◌>>=◌, ◌>>◌, pure, annotate, wrap_result}
use a10_certctl.Sync.{Deleted}
use a10_certctl.Template.{Binding, ClientSslTemplate, ServerSslTemplate}
use a10_certctl.Template.References.{referenced}
use a10_certctl.Template.References.Sound.{NamesFile, NamesServerFile, unnamed, unnamed_by_server}
use a10_certctl.Axapi.{Request, post_delete, post_write_memory, World}
use a10_certctl.Axapi.Sends.{
  Extends, Extends-refl, Extends-trans, Extends-map, Sends, Sends-bind, Sends-if, Sends-annotate,
  Sends-pure, sends_rules,
}
use a10_certctl.Session.{list_client_ssl_templates, list_server_ssl_templates, delete_material}
use a10_certctl.Session.Footprint.{
  IsRead, list_client_ssl_templates-Sends, list_server_ssl_templates-Sends, delete_material-Sends,
}
use a10_certctl.Sync.Cleanup.{
  is_deletable, deletable_pair, delete_chain, delete_listed, delete_unreferenced,
}

-- A name that may go: it is one, it is not the desired one, and no listed template names the file.
pub record IsUnused (ts : List ClientSslTemplate) (ss : List ServerSslTemplate)
    (name desired : Text) : Type 0 where
  pub not_empty : name ≢ []
  pub not_desired : name ≢ desired
  pub unnamed_by_clients : (t : ClientSslTemplate) → Memᴰ t ts → ¬ NamesFile name t
  pub unnamed_by_servers : (t : ServerSslTemplate) → Memᴰ t ss → ¬ NamesServerFile name t

-- A deletion names files of the previous binding that may go, and no CA file.
abbrev pub IsSafeDeletion :
    List ClientSslTemplate → List ServerSslTemplate → Binding → Binding → Request → Type 0
IsSafeDeletion ts ss previous desired (post_delete m) =
    ((m.certificate ≡ [])
      ⊎ (m.certificate ≡ previous.certificate)
        × IsUnused ts ss previous.certificate desired.certificate
      ⊎ (m.certificate ≡ previous.chain) × IsUnused ts ss previous.chain desired.chain)
    × ((m.key ≡ []) ⊎ (m.key ≡ previous.key) × IsUnused ts ss previous.key desired.key)
    × (m.ca ≡ [])
IsSafeDeletion ts ss previous desired r = IsRead r

module _ (ts : List ClientSslTemplate) (ss : List ServerSslTemplate) where
  IsUnused-of :
      (name desired : Text) → is_deletable ts ss name desired ≡ true → IsUnused ts ss name desired
  unfolding is_deletable
  IsUnused-of name desired h =
      let named : is_nil name ≡ false = ground arith in
      let absent : referenced ts ss name ≡ false = ground arith in
      record {
        not_empty = λ e. ground arith;
        not_desired = λ e. ground (arith, ==_iff name desired);
        unnamed_by_clients = unnamed name named ts ss absent;
        unnamed_by_servers = unnamed_by_server name named ts ss absent;
      }

  choice :
      (name desired : Text) (b : Bool)
      → is_deletable ts ss name desired ≡ b
      → ((if b then name else []) ≡ [])
        ⊎ ((if b then name else []) ≡ name) × IsUnused ts ss name desired
  choice name desired true h = inr (refl, IsUnused-of name desired h)
  choice name desired false h = inl refl

  module _ (previous desired : Binding) where
    pair_is_safe :
        IsSafeDeletion ts ss previous desired (post_delete (deletable_pair ts ss previous desired))
    unfolding deletable_pair
    pair_is_safe = (
      widen (choice previous.certificate desired.certificate _ refl),
      choice previous.key desired.key _ refl,
      refl,
    )
      where
        widen : {A B C : Type 0} → A ⊎ B → A ⊎ B ⊎ C
        widen (inl a) = inl a
        widen (inr b) = inr (inl b)

    delete_chain-IsSafe :
        (b : Bool)
        → is_deletable ts ss previous.chain desired.chain ≡ b
        → Sends
            (IsSafeDeletion ts ss previous desired)
            (λ w. w)
            (if b
              then (do
                annotate "delete unreferenced previous certificate chain"
                    (delete_material (record { certificate = previous.chain; key = []; ca = [] }))
                pure (Deleted.chain previous.chain ∷ []))
              else pure [])
    delete_chain-IsSafe true h =
        let safe : IsSafeDeletion ts ss previous desired
            (post_delete (record { certificate = previous.chain; key = []; ca = [] })) =
          (inr (inr (refl, IsUnused-of previous.chain desired.chain h)), inl refl, refl) in
        search
          (sends_rules, delete_material-Sends {P = IsSafeDeletion ts ss previous desired}, safe)
    delete_chain-IsSafe false h = search sends_rules

    delete_listed-IsSafe :
        Sends
          (IsSafeDeletion ts ss previous desired)
          (λ w. w)
          (delete_listed previous desired ts ss)
    unfolding delete_listed delete_chain
    delete_listed-IsSafe =
        Sends-bind _ _
          (Sends-if _ _ _ (Sends-annotate _ _ (delete_material-Sends _ pair_is_safe))
            (Sends-pure tt))
          λ a. Sends-bind _ _ (delete_chain-IsSafe _ refl) λ b. Sends-pure _

-- The requests of the whole cleanup, which begins in `w`.
abbrev pub IsSafeCleanup : World → Binding → Binding → Request → Type 0
IsSafeCleanup w previous desired (post_delete m) =
    (ts : List ClientSslTemplate) × ((ss : List ServerSslTemplate) × ((list_client_ssl_templates
          w).0
        ≡ ok ts)
      × ((list_server_ssl_templates (list_client_ssl_templates w).1).0 ≡ ok ss)
      × IsSafeDeletion ts ss previous desired (post_delete m))
IsSafeCleanup w previous desired r = IsRead r

weaken :
    (w : World) (previous desired : Binding) (ts : List ClientSslTemplate)
    (ss : List ServerSslTemplate)
    → (list_client_ssl_templates w).0 ≡ ok ts
    → (list_server_ssl_templates (list_client_ssl_templates w).1).0 ≡ ok ss
    → (r : Request) → IsSafeDeletion ts ss previous desired r
    → IsSafeCleanup w previous desired r
weaken w previous desired ts ss et es (post_delete m) h = (ts, (ss, et, es, h))
weaken w previous desired ts ss et es (post_write_memory p) h = h
weaken w previous desired ts ss et es r h = h

module _ (previous desired : Binding) (w : World) where
  reads-P : (r : Request) → IsRead r → IsSafeCleanup w previous desired r
  reads-P (post_delete m) h = cc
  reads-P (post_write_memory m) h = h
  reads-P r h = h

  -- The continuation after the second listing, by its result.
  after_servers :
      (ts : List ClientSslTemplate) (r : Result (List ServerSslTemplate)) (v : World)
      → (list_client_ssl_templates w).0 ≡ ok ts
      → (list_server_ssl_templates (list_client_ssl_templates w).1).0 ≡ r
      → (message : String)
      → Extends
          (IsSafeCleanup w previous desired)
          v
          (proceed (wrap_result message r) (λ ss. delete_listed previous desired ts ss) v).1
  after_servers ts (ok ss) v et es message =
      Extends-map (weaken w previous desired ts ss et es)
        ((delete_listed-IsSafe ts ss previous desired).at v)
  after_servers ts (err e) v et es message = Extends-refl _ v

  after_clients :
      (r : Result (List ClientSslTemplate)) (m m' : String)
      → (list_client_ssl_templates w).0 ≡ r
      → Extends
          (IsSafeCleanup w previous desired)
          (list_client_ssl_templates w).1
          (proceed
            (wrap_result m r)
            (λ ts.
              annotate m' list_server_ssl_templates >>= λ ss. delete_listed previous desired ts ss)
            (list_client_ssl_templates w).1).1
  unfolding ◌>>=◌ annotate
  after_clients (ok ts) m m' e =
      Extends-trans
        ((list_server_ssl_templates-Sends {P = IsSafeCleanup w previous desired} reads-P).at
          (list_client_ssl_templates w).1)
        (after_servers ts _ _ e refl m')
  after_clients (err x) m m' e = Extends-refl _ _

  -- However the cleanup ends, each deletion that it has sent names only files of the previous
  -- binding, each of them another than the desired binding has in the same place (certificate, key
  -- or chain), and named by none of the client-SSL and server-SSL templates that the appliance has
  -- listed: by no binding, server name, chain or forward proxy, and by no string at any depth of a
  -- retained payload. It names no CA file. Everything else that the cleanup sends is a read.
  pub delete_unreferenced-IsSafe :
      Extends (IsSafeCleanup w previous desired) w (delete_unreferenced previous desired w).1
  unfolding delete_unreferenced ◌>>=◌ annotate
  delete_unreferenced-IsSafe =
      Extends-trans
        ((list_client_ssl_templates-Sends {P = IsSafeCleanup w previous desired} reads-P).at w)
        (after_clients _ _ _ refl)
