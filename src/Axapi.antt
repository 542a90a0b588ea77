-- ===== src/Axapi.antt =====
-- The requests that the package sends to aXAPI and the replies to them, and `doJSON`,
-- `doMultipart` and `execute` of pkg/a10/client.go. The appliance, the network and everybody else
-- who changes the appliance are one unknown function of the requests sent so far.
pub mod Sends
pub mod Sent
pub mod Wire
use Prim.Native.String.{String}
use a10_certctl.Base.{
  ℕ, Bool, true, false, List, [], ◌∷◌, Option, none, some, is_nil, eqb, if◌then◌else◌,
}
use a10_certctl.Text.{Text, ◌==◌, codes}
use a10_certctl.Errors.{failed, api_error, wrapped, Result, ok, err}
use a10_certctl.Exec.{Exec, ◌>>=◌, raise}
use a10_certctl.Json.{Json}
use a10_certctl.Platform.{Platform}

-- The three file stores: `ssl-cert`, `ssl-key`, `ca-cert`
pub data FileKind : Type 0 where
  ssl_cert ssl_key ca_cert : FileKind

-- `uploadAction`: "import" or "replace"
pub data UploadAction : Type 0 where
  import replace : UploadAction

-- `sslCertificateUploadDocument`, `sslKeyUploadDocument`, `caCertificateUploadDocument`:
-- `secured` counts for a key alone.
pub record UploadDocument : Type 0 where
  pub action : UploadAction
  pub file : Text
  pub secured : ℕ

-- `certificateBindingDocument`
pub record BindingDocument : Type 0 where
  pub certificate : Text
  pub key : Text
  pub chain : Text
  pub shared : ℕ
  pub passphrase : Text

-- `MaterialNames`, and `deleteMaterialDocument`
pub record MaterialNames : Type 0 where
  pub certificate : Text
  pub key : Text
  pub ca : Text

pub data Request : Type 0 where
  post_auth : Text → Text → Request
  post_active_partition : Text → Request
  post_logoff : Request
  get_partitions : Request
  get_version : Request
  get_certificates : Request
  get_files : FileKind → Request
  get_client_templates : Request
  get_client_template : Text → Request
  get_server_templates : Request
  get_virtual_servers : Request
  post_file : FileKind → UploadDocument → Text → Request
  post_binding : Text → BindingDocument → Request
  delete_binding : Text → Text → Request
  post_delete : MaterialNames → Request
  post_write_memory : Text → Request

-- A response's body: nothing but space, no JSON, or a value.
pub data Body : Type 0 where
  empty malformed : Body
  value : Json → Body

pub data Reply : Type 0 where
  -- `http.Do` or the reading of the body fails
  unanswered : Reply
  answered : ℕ → Body → Reply

pub record Environment : Type 0 where
  -- the requests sent so far, the last one first, and the request at hand
  pub respond : List Request → Request → Reply
  -- `time.Now()`, in seconds
  pub clock : List Request → ℕ
  pub platform : Platform

-- A `Session` and the world that it talks to.
pub record World : Type 0 where
  pub environment : Environment
  pub sent : List Request
  pub closed : Bool
  -- the name of the selected partition, empty for the shared one
  pub partition : Text

abbrev pub Io : Type 0 → Type 0
Io A = Exec World A

-- `containsStatus`
unfoldable pub contains_status : List ℕ → ℕ → Bool
contains_status [] status = false
contains_status (c ∷ values) status = if eqb c status then true else contains_status values status

-- The end of `execute` for a call that wants no response.
unfoldable pub check_status : List ℕ → Reply → Result (Unit {0})
unfolding contains_status
check_status accepted unanswered = err (failed "request failed")
check_status accepted (answered status body) =
    if contains_status accepted status then ok tt else err (api_error "aXAPI request failed" status)

-- The end of `execute` for a call with a response, which starts out as `zero`.
unfoldable pub decode_body : {A : Type 0} → A → (Json → Result A) → Body → Result A
decode_body zero decode empty = ok zero
decode_body zero decode malformed = err (failed "decode response")
decode_body zero decode (value j) = elim (decode j) [
  | ok a ↦ ok a
  | err e ↦ err (wrapped "decode response" e)
]

unfoldable pub check_response : {A : Type 0} → List ℕ → A → (Json → Result A) → Reply → Result A
unfolding contains_status decode_body
check_response accepted zero decode unanswered = err (failed "request failed")
check_response accepted zero decode (answered status body) =
    if contains_status accepted status
    then decode_body zero decode body
    else err (api_error "aXAPI request failed" status)

-- One request on the wire: what comes back, and the request in the record.
unfoldable pub transmit : Request → World → Reply × World
transmit request w = (w.environment.respond w.sent request, record w { sent = request ∷ w.sent })

-- `(*Session).doJSON` with a response
unfoldable pub get_json : {A : Type 0} → List ℕ → A → (Json → Result A) → Request → Io A
unfolding transmit check_response
get_json accepted zero decode request w =
    if w.closed
    then (err (failed "A10 session is closed"), w)
    else (let (reply, w') = transmit request w in (check_response accepted zero decode reply, w'))

-- `(*Session).doJSON` without a response, and the end of `doMultipart`
unfoldable pub do_json : List ℕ → Request → Io (Unit {0})
unfolding transmit check_status
do_json accepted request w =
    if w.closed
    then (err (failed "A10 session is closed"), w)
    else (let (reply, w') = transmit request w in (check_status accepted reply, w'))
