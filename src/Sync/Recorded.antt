-- ===== src/Sync/Recorded.antt =====
-- The files that the appliance has taken, and the record that a call keeps of them: the variables
-- that the deferred functions of pkg/a10/sync.go read.
use a10_certctl.Base.{
  ℕ, ◌+◌, ◌≡◌, refl, sym, ap, ◌∙◌, Bool, true, false, ◌&&◌, List, [], ◌∷◌, ◌++◌, All, is_nil, subst,
  if◌then◌else◌, arith,
}
use Prim.Native.String.{String}
use a10_certctl.Text.{Text, ◌==◌, trim, trim_left, trim_right, trim_space, len}
use a10_certctl.Errors.{Result, ok, err, failed, api_error}
use a10_certctl.Exec.{Exec, proceed, ◌>>=◌, ◌>>◌, lift, annotate, wrap_result}
use a10_certctl.Exec.Keeps.{Keeps}
use a10_certctl.Exec.Leads.{Succeeded, Succeeded-all, Ensures, Ensures-first, Ensures-last}
use a10_certctl.Names.{validate_file_name}
use a10_certctl.Axapi.{
  FileKind, UploadDocument, Reply, unanswered, answered, Body, Request, post_file,
  post_write_memory, post_delete, MaterialNames, World, Io, transmit, contains_status, check_status,
  do_json,
}
use a10_certctl.Axapi.Sends.{Extends, Sends}
use a10_certctl.Client.Releases.{IsSilent, silent_rules}
use a10_certctl.Session.{
  UploadOptions, ok_created_empty, upload_certificate_file, upload_certificate, upload_chain,
  upload_key,
}
use a10_certctl.Session.Footprint.{IsRead}
use a10_certctl.Sync.{UploadedMaterial, is_empty}

abbrev pub is_upload : Request → Bool
is_upload (post_file _ _ _) = true
is_upload r = false

abbrev pub IsNoUpload : Request → Type 0
IsNoUpload r = is_upload r ≡ false

-- The statuses with which the appliance takes a file: 200, 201 and 204
abbrev pub is_taken : Reply → Bool
is_taken unanswered = false
is_taken (answered status body) = contains_status (200 ∷ 201 ∷ 204 ∷ []) status

-- How many uploads the appliance has taken
abbrev uploads_among : (List Request → Request → Reply) → List Request → ℕ
uploads_among respond [] = 0
uploads_among respond (r ∷ rs) =
    (if is_upload r && is_taken (respond rs r) then 1 else 0) + uploads_among respond rs

abbrev pub uploads : World → ℕ
uploads w = uploads_among w.environment.respond w.sent

uploads_among-append :
    (respond : List Request → Request → Reply) (qs rs : List Request)
    → All IsNoUpload qs
    → uploads_among respond (qs ++ rs) ≡ uploads_among respond rs
uploads_among-append respond [] rs h = refl
uploads_among-append respond (q ∷ qs) rs h =
    rw (h.0) (omega (arith, uploads_among-append respond qs rs h.1))

-- Other requests do not change the number.
pub uploads-Extends : (w w' : World) → Extends IsNoUpload w w' → uploads w' ≡ uploads w
uploads-Extends w w' x =
    ap (λ e. uploads (record w' { environment = e })) x.environment
    ∙ ap (λ l. uploads_among w.environment.respond l) x.sent
    ∙ uploads_among-append w.environment.respond x.requests w.sent x.allowed

-- What holds where a call fails
abbrev pub Unless : {A : Type 0} → Result A → Type 0 → Type 0
Unless (ok a) T = Unit
Unless (err e) T = T

-- An upload of a file: where it fails, the appliance has taken nothing; where it succeeds, the name
-- is not empty.
pub record Uploads (name : Text) (m : Io (Unit {0})) : Type 0 where
  pub fails : (w : World) → Unless (m w).0 (uploads (m w).1 ≡ uploads w)
  pub named : (w : World) → Succeeded (m w).0 (is_nil name ≡ false)

validated : (name : Text) → Succeeded (validate_file_name name) (is_nil name ≡ false)
unfolding validate_file_name trim_space trim trim_left trim_right len ◌==◌
validated [] = tt
validated (c ∷ name) = Succeeded-all (validate_file_name (c ∷ name)) refl

validation-named :
    (name : Text) → Ensures (λ (w : World). is_nil name ≡ false) (lift (validate_file_name name))
unfolding lift
validation-named name = record { at = λ w. validated name }

-- The facts of a call that uploads, kept apart
pub record Fails (m : Io (Unit {0})) : Type 0 where
  pub at : (w : World) → Unless (m w).0 (uploads (m w).1 ≡ uploads w)

module _ {A : Type 0} where
  proceed-Fails :
      (r : Result A) (f : A → Io (Unit {0})) (w v : World)
      → v ≡ w
      → ((a : A) → Fails (f a))
      → Unless (proceed r f v).0 (uploads (proceed r f v).1 ≡ uploads w)
  proceed-Fails (ok a) f w v e h =
      subst (λ u. Unless (f a v).0 (uploads (f a v).1 ≡ uploads u)) e ((h a).at v)
  proceed-Fails (err x) f w v e h = ap uploads e

  -- What comes before the request leaves the world alone.
  Fails-after :
      (m : Io A) (f : A → Io (Unit {0})) → IsSilent m → ((a : A) → Fails (f a)) → Fails (m >>= f)
  unfolding ◌>>=◌
  Fails-after m f silent h = record {
    at = λ w. let (r, v) = m w in proceed-Fails r f w v (silent.at w) h;
  }

module _ (kind : FileKind) (doc : UploadDocument) (pem : Text) (w : World) where
  abbrev asked : World
  asked = record w { sent = post_file kind doc pem ∷ w.sent }

  abbrev answer : Reply
  answer = w.environment.respond w.sent (post_file kind doc pem)

  by_status :
      (status : ℕ) (body : Body) (b : Bool)
      → answer ≡ answered status body
      → contains_status ok_created_empty status ≡ b
      → Unless
          (if b then ok tt else err (api_error "aXAPI request failed" status))
          (uploads asked ≡ uploads w)
  by_status status body true e h = tt
  by_status status body false e h = rw (e, h) (omega arith)

  by_reply :
      (reply : Reply)
      → answer ≡ reply
      → Unless (check_status ok_created_empty reply) (uploads asked ≡ uploads w)
  unfolding check_status
  by_reply unanswered e = rw e (omega arith)
  by_reply (answered status body) e = by_status status body _ e refl

  abbrev outcome : Bool → Result (Unit {0}) × World
  outcome closed =
      if closed
      then (err (failed "A10 session is closed"), w)
      else (check_status ok_created_empty answer, asked)

  by_session : (closed : Bool) → Unless (outcome closed).0 (uploads (outcome closed).1 ≡ uploads w)
  by_session true = refl
  by_session false = by_reply _ refl

Fails-do_json :
    (kind : FileKind) (doc : UploadDocument) (pem : Text)
    → Fails (do_json ok_created_empty (post_file kind doc pem))
unfolding do_json transmit
Fails-do_json kind doc pem = record { at = λ w. by_session kind doc pem w w.closed }

module _ (name pem : Text) (options : UploadOptions) where
  file-Fails : Fails (upload_certificate_file name pem options)
  unfolding upload_certificate_file
  file-Fails = Fails-after _ _ (search silent_rules) (λ a. Fails-do_json _ _ _)

  file-named :
      Ensures (λ (w : World). is_nil name ≡ false) (upload_certificate_file name pem options)
  unfolding upload_certificate_file
  file-named = Ensures-first _ _ (validation-named name) (λ a. record { at = λ s h. h })

  pub key-Uploads : Uploads name (upload_key name pem options)
  unfolding upload_key
  key-Uploads = record {
    fails =
        (Fails-after _ _ (search silent_rules) (λ a.
          Fails-after _ _ (search silent_rules)
            (λ b. Fails-after _ _ (search silent_rules) (λ c. Fails-do_json _ _ _)))).at;
    named = (Ensures-first _ _ (validation-named name) (λ a. record { at = λ s h. h })).at;
  }

  pub certificate-Uploads : Uploads name (upload_certificate name pem options)
  unfolding upload_certificate
  certificate-Uploads = record {
    fails =
        (Fails-after _ _ (search silent_rules)
          (λ a. Fails-after _ _ (search silent_rules) (λ b. file-Fails))).at;
    named = (Ensures-last _ _ (λ a. Ensures-last _ _ λ b. file-named)).at;
  }

  pub chain-Uploads : Uploads name (upload_chain name pem options)
  unfolding upload_chain
  chain-Uploads = record {
    fails =
        (Fails-after _ _ (search silent_rules) (λ a.
          Fails-after _ _ (search silent_rules)
            (λ b. Fails-after _ _ (search silent_rules) (λ c. file-Fails)))).at;
    named = (Ensures-last _ _ (λ a. Ensures-last _ _ λ b. Ensures-last _ _ λ c. file-named)).at;
  }

-- A record with a name is not empty.
module _ (name : Text) (u : UploadedMaterial) (named : is_nil name ≡ false) where
  pub key-is_empty : is_empty (record u { key = name }) ≡ false
  unfolding is_empty
  key-is_empty = ground arith

  pub certificate-is_empty : is_empty (record u { certificate = name }) ≡ false
  unfolding is_empty
  certificate-is_empty = ground arith

  pub chain-is_empty : is_empty (record u { chain = name }) ≡ false
  unfolding is_empty
  chain-is_empty = ground arith

pub reads-IsNoUpload : (r : Request) → IsRead r → IsNoUpload r
reads-IsNoUpload (post_file _ _ _) h = cc
reads-IsNoUpload r h = refl

pub saves-IsNoUpload : (partition : Text) → IsNoUpload (post_write_memory partition)
saves-IsNoUpload partition = refl

pub deletes-IsNoUpload : (m : MaterialNames) → IsNoUpload (post_delete m)
deletes-IsNoUpload m = refl

-- A call whose state has a world and the record of its uploads
module _ {S : Type 0} (view : S → World) (material : S → UploadedMaterial) (w₀ : World) where
  -- Where the record is empty, the appliance has taken no file since.
  abbrev pub IsRecorded : S → Type 0
  IsRecorded s = is_empty (material s) ≡ true → uploads (view s) ≡ uploads w₀

  noted :
      (k : S → Result (Unit {0}) × S) (message : String) (named : Type 0) (r : Result (Unit {0}))
      (s t : S)
      → Unless r (uploads (view t) ≡ uploads (view s))
      → Succeeded r named
      → material t ≡ material s
      → ((u : S) → named → is_empty (material (k u).1) ≡ false)
      → IsRecorded s
      → IsRecorded (proceed (wrap_result message r) (λ a. k) t).1
  noted k message named (ok a) s t h n m f i e = cc (f t n)
  noted k message named (err x) s t h n m f i e = h ∙ i (ap is_empty (sym m) ∙ e)

  -- An upload, and the note of it where it succeeds
  pub upload-Keeps :
      (lifted : Io (Unit {0}) → Exec S (Unit {0})) (m : Io (Unit {0})) (name : Text)
      (message : String) (k : Exec S (Unit {0}))
      → Uploads name m
      → ((s : S)
          → ((lifted m s).0 ≡ (m (view s)).0)
            × (view (lifted m s).1 ≡ (m (view s)).1)
            × (material (lifted m s).1 ≡ material s))
      → ((u : S) → is_nil name ≡ false → is_empty (material (k u).1) ≡ false)
      → Keeps IsRecorded (annotate message (lifted m) >> k)
  unfolding annotate ◌>>=◌
  upload-Keeps lifted m name message k h l f = record {
    at = λ s i.
        noted k message (is_nil name ≡ false) (lifted m s).0 s (lifted m s).1
          (rw ((l s).0, (l s).1) (h.fails (view s))) (rw ((l s).0) (h.named (view s))) (l s).2 f i;
  }

  -- Anything that uploads nothing and leaves the record alone
  pub quiet-Keeps :
      {A : Type 0} (m : Exec S A)
      → Sends IsNoUpload view m
      → ((s : S) → material (m s).1 ≡ material s)
      → Keeps IsRecorded m
  quiet-Keeps m h same = record {
    at = λ s i e. uploads-Extends _ _ (h.at s) ∙ i (ap is_empty (sym (same s)) ∙ e);
  }
