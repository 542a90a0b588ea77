-- ===== src/Client.antt =====
-- `(*Client).StartSession`, `(*Session).Close` and `resolvePartition` of pkg/a10/client.go, and the
-- operations of a client, which open a session of their own: pkg/a10/sync.go, pkg/a10/state.go and
-- pkg/a10/compatibility.go.
pub mod Lifecycle
pub mod Config
pub mod Scope
pub mod Releases
pub mod Create
use a10_certctl.Base.{
  ℕ, zero, ◌+◌, ◌/◌, ◌%◌, ◌^◌, Bool, true, false, not, ◌&&◌, ◌||◌, List, [], ◌∷◌, Option, none,
  some, is_nil, eqb, leb, ltb, all, if◌then◌else◌,
}
use a10_certctl.Base.Int.{ℤ, pos, negsuc}
use a10_certctl.Text.{Text, codes, trim_space, decimal_value, between}
use a10_certctl.Errors
use a10_certctl.Errors.{Error, failed, not_found, wrapped, joined, Result, ok, err, refuse_if}
use a10_certctl.Exec.{◌>>=◌, ◌>>◌, pure, raise, lift, gets, modify, annotate, attempt}
use a10_certctl.Json.{Json, Fields}
use a10_certctl.Json.Decode.{member, decode_text, decode_list, decode_struct, decode_int}
use a10_certctl.Names.{parse_partition_name, parse_partition_id}
use a10_certctl.Bundle.{CertificateBundle, validate_for_sync}
use a10_certctl.Axapi.{
  Request, post_auth, post_active_partition, post_logoff, get_partitions, World, Io, transmit,
  check_status, check_response, get_json, do_json,
}
use a10_certctl.Session.{VersionInfo, only_ok, ok_or_empty, ok_created_empty, nested}
use a10_certctl.Compatibility.{verify_compatibility}
use a10_certctl.State.Slot.{CertificateState, get_managed_certificate_state}
use a10_certctl.Sync.{Target, SyncOptions, SyncResult}
use a10_certctl.Sync.Select.{validate_target}
use a10_certctl.Sync.Run.{sync_certificate}
use a10_certctl.Sync.Create.{CreateOptions, CreateResult, create_managed_certificate}

-- `Client`: what a session is opened with
pub record Client : Type 0 where
  pub username : Text
  pub password : Text
  pub partition : Text
  pub partition_id : ℕ

-- `Partition`
pub record Partition : Type 0 where
  pub id : ℕ
  pub name : Text

-- `(*Client).doJSON` with a response: it asks for no open session.
unfoldable pub client_json : {A : Type 0} → List ℕ → A → (Json → Result A) → Request → Io A
unfolding transmit check_response
client_json accepted initial decode request w =
    let (reply, w') = transmit request w in (check_response accepted initial decode reply, w')

-- A member of Go type `uint32`
unfoldable pub decode_uint32 : Json → Result ℕ
decode_uint32 j = elim (decode_int j) [
  | err e ↦ err e
  | ok (negsuc n) ↦ err (failed "number out of range")
  | ok (pos n) ↦ if ltb n (2 ^ 32) then ok n else err (failed "number out of range")
]

unfoldable pub decode_partition : Fields → Result Partition
unfolding decode_uint32
decode_partition fs = Errors.◌>>=◌ (decode_text (member (codes "partition-name") fs)) λ name.
    Errors.◌>>=◌ (decode_uint32 (member (codes "id") fs)) λ id. ok (record { id = id; name = name })

-- `ListPartitions`
unfoldable pub list_partitions : Io (List Partition)
unfolding decode_partition
list_partitions =
    get_json ok_or_empty []
      (decode_struct
        (λ fs. decode_list (decode_struct decode_partition) (member (codes "partition-list") fs)))
      get_partitions

-- `strconv.ParseUint(selector, 10, 32)`, where it returns no error
unfoldable pub parse_uint32 : Text → Option ℕ
unfolding decimal_value
parse_uint32 s =
    if not (is_nil s) && all (between b'0' b'9') s && ltb (decimal_value s) (2 ^ 32)
    then some (decimal_value s)
    else none

-- The decimal digits of a number of at most ten.
unfoldable pub decimal_digits : ℕ → ℕ → Text → Text
decimal_digits zero n text = text
decimal_digits (ℕ.suc fuel) n text =
    let longer = decimal_digits fuel (n / 10) ((b'0' + n % 10) ∷ text) in
    if ltb n 10 then (b'0' + n) ∷ text else longer

unfoldable pub find_partition : List Partition → ℕ → Option Partition
find_partition [] id = none
find_partition (p ∷ partitions) id = if eqb p.id id then some p else find_partition partitions id

unfoldable pub found : Text → Option Partition → Io Partition
found id none = raise (not_found "partition" id)
found id (some p) = pure p

-- The search for a partition by its number.
unfoldable pub partition_with_id : ℕ → Io Partition
partition_with_id id = do
  partitions ← annotate "resolve A10 partition ID" list_partitions
  found (decimal_digits 10 id []) (find_partition partitions id)

-- A selector that is no number is a name.
unfoldable pub named_partition : Text → Option ℕ → Io Partition
named_partition selector (some numeric) = do
  parsed ← lift (parse_partition_id numeric)
  partition_with_id parsed
named_partition selector none = do
  name ← lift (parse_partition_name selector)
  pure (record { id = 0; name = name })

-- `resolvePartition`
unfoldable pub resolve_partition : Text → ℕ → Io Partition
resolve_partition selector id =
    if eqb id 0
    then (if is_nil selector
        then pure (record { id = 0; name = [] })
        else named_partition selector (parse_uint32 selector))
    else partition_with_id id

-- `(*Session).Close`: the session is closed even where the log-off fails.
unfoldable pub close : Io (Unit {0})
unfolding transmit check_status
close w =
    if w.closed
    then (ok tt, w)
    else (let (reply, w') = transmit post_logoff w in
        (check_status ok_or_empty reply, record w' { closed = true }))

-- `_ = session.Close(...); return nil, err`
unfoldable pub abandon : Error → Io (Unit {0})
abandon e = do attempt close; raise e

-- What follows the choice of a partition.
unfoldable pub note_partition : Text → Result (Unit {0}) → Io (Unit {0})
unfolding abandon
note_partition name (err e) = abandon (wrapped "select A10 partition" e)
note_partition name (ok _) = modify (λ w. record w { partition = name })

unfoldable pub select_partition : Result Partition → Io (Unit {0})
unfolding note_partition
select_partition (err e) = abandon e
select_partition (ok selected) = if is_nil selected.name then pure tt else (do
  answer ← attempt (do_json ok_created_empty (post_active_partition selected.name))
  note_partition selected.name answer)

-- The session that `StartSession` makes once it has a signature.
unfoldable pub open_session : Io (Unit {0})
open_session = modify (λ w. record w { closed = false; partition = [] })

-- `StartSession`
unfoldable pub start_session : Client → Io (Unit {0})
unfolding client_json open_session
start_session client = do
  signature ← annotate "authenticate to A10" (
      client_json only_ok []
        (decode_struct
          (nested (codes "authresponse") (λ fs. decode_text (member (codes "signature") fs))))
        (post_auth client.username client.password))
  lift (
      refuse_if (is_nil (trim_space signature))
        (failed "A10 authentication response did not contain a signature"))
  open_session
  selected ← attempt (resolve_partition client.partition client.partition_id)
  select_partition selected

-- `errors.Join(err, closeErr)`
unfoldable pub join_close : {A : Type 0} → Result A → Result (Unit {0}) → Result A
join_close (ok a) (ok _) = ok a
join_close (ok a) (err c) = err c
join_close (err e) (ok _) = err e
join_close (err e) (err c) = err (joined e c)

-- The deferred call of `Close`, after the result of the operation.
unfoldable pub close_after : {A : Type 0} → Result A × World → Result A × World
unfolding join_close
close_after (r, w) = let (c, w') = close w in (join_close r c, w')

-- What follows the opening of a session.
unfoldable pub in_opened : {A : Type 0} → Io A → Result (Unit {0}) → Io A
unfolding close_after
in_opened operation (err e) w = (err e, w)
in_opened operation (ok _) w = close_after (operation w)

-- An operation in a session of its own.
unfoldable pub in_session : {A : Type 0} → Client → Io A → Io A
unfolding in_opened
in_session client operation w =
    let (started, w') = start_session client w in in_opened operation started w'

-- `(*Client).VerifyCompatibility`
unfoldable pub client_verify_compatibility : Client → Io VersionInfo
client_verify_compatibility client = in_session client verify_compatibility

-- `(*Client).GetManagedCertificateState`
unfoldable pub client_get_state : Client → Target → Io CertificateState
client_get_state client target = in_session client (get_managed_certificate_state target)

-- `client.managedMu` serialises the rotations of one client. The result is `none` for the zero value
-- of a call that returns before the rotation.
unfoldable pub after_start :
    Target
    → CertificateBundle
    → SyncOptions
    → Result (Unit {0}) × World
    → (Result (Unit {0}) × Option SyncResult) × World
unfolding join_close
after_start target bundle options (err e, w) = ((err e, none), w)
after_start target bundle options (ok _, w) =
    let (r, s) = sync_certificate target bundle options w in
    let (c, w') = close s.world in ((join_close r c, some s.result), w')

unfoldable pub rotate_in_session :
    Client
    → Target
    → CertificateBundle
    → SyncOptions
    → World
    → (Result (Unit {0}) × Option SyncResult) × World
unfolding after_start
rotate_in_session client target bundle options w =
    after_start target bundle options (start_session client w)

-- `if err := check; err != nil { return result, err }`
unfoldable pub if_valid :
    Result (Unit {0})
    → (World → (Result (Unit {0}) × Option SyncResult) × World)
    → World
    → (Result (Unit {0}) × Option SyncResult) × World
if_valid (ok _) rest w = rest w
if_valid (err e) rest w = ((err e, none), w)

-- `(*Client).SyncCertificate`
unfoldable pub client_sync_certificate :
    Client
    → Target
    → CertificateBundle
    → SyncOptions
    → World
    → (Result (Unit {0}) × Option SyncResult) × World
unfolding rotate_in_session if_valid
client_sync_certificate client target bundle options w =
    if_valid (validate_for_sync w.environment.platform bundle (w.environment.clock w.sent))
      (if_valid (validate_target target) (rotate_in_session client target bundle options)) w
