-- ===== src/Client/Lifecycle.antt =====
-- Every session that a client opens for a rotation is logged off.
use Prim.Native.String.{String}
use a10_certctl.Base.{
  arith, ◌≡◌, refl, ap, ◌∙◌, ◌⊎◌, inl, inr, Bool, true, false, List, [], ◌∷◌, Option, none, some, ℕ,
  is_nil, if◌then◌else◌,
}
use a10_certctl.Text.{Text, codes, trim_space}
use a10_certctl.Errors.{Error, Result, ok, err, refuse_if}
use a10_certctl.Json.{Json}
use a10_certctl.Json.Decode.{member, decode_text, decode_struct}
use a10_certctl.Exec.{◌>>=◌, proceed, attempt, raise, lift, modify, pure, annotate, wrap_result}
use a10_certctl.Bundle.{CertificateBundle}
use a10_certctl.Axapi.{
  Request, post_auth, post_active_partition, post_logoff, World, Io, transmit, Reply, answered,
  value, check_response, decode_body,
}
use a10_certctl.Axapi.Sends.{Extends, Sends, Sends-do_json, sends_rules}
use a10_certctl.Session.{ok_created_empty, only_ok, nested}
use a10_certctl.Sync.{Target, SyncOptions}
use a10_certctl.Sync.Run.{sync_certificate}
use a10_certctl.Sync.Footprint.{sync_certificate-InFootprint}
use a10_certctl.Client.{
  Client, Partition, client_json, close, abandon, note_partition, select_partition, open_session,
  start_session, resolve_partition, partition_with_id, list_partitions, found, named_partition,
  after_start, if_valid, rotate_in_session, client_sync_certificate,
}

-- The session is closed, and the last request was the log-off.
pub record IsLoggedOff (w : World) : Type 0 where
  pub closed : w.closed ≡ true
  pub before : List Request
  pub last : w.sent ≡ post_logoff ∷ before

pub close-IsLoggedOff : (w : World) → w.closed ≡ false → IsLoggedOff (close w).1
unfolding close transmit
close-IsLoggedOff w h = rw h (record { closed = refl; before = w.sent; last = refl })

-- A session that was opened stays open where its opening succeeds, and is logged off where not.
abbrev IsOpened : Result (Unit {0}) × World → Type 0
IsOpened (ok _, w) = w.closed ≡ false
IsOpened (err _, w) = IsLoggedOff w

abandon-IsOpened : (e : Error) (w : World) → w.closed ≡ false → IsOpened (abandon e w)
unfolding abandon ◌>>=◌ attempt raise
abandon-IsOpened e w h = close-IsLoggedOff w h

note_partition-IsOpened :
    (name : Text) (r : Result (Unit {0})) (w : World)
    → w.closed ≡ false
    → IsOpened (note_partition name r w)
unfolding note_partition modify
note_partition-IsOpened name (ok u) w h = h
note_partition-IsOpened name (err e) w h = abandon-IsOpened _ w h

-- Requests of an open session leave it open.
stays_open :
    {P : Request → Type 0} {w w' : World} → Extends P w w' → w.closed ≡ false → w'.closed ≡ false
stays_open x h = x.closed ∙ h

abbrev Anything : Request → Type 0
Anything r = Unit

IsOpened-if :
    (b : Bool) (m n : World → Result (Unit {0}) × World) (w : World)
    → IsOpened (m w)
    → IsOpened (n w)
    → IsOpened ((if b then m else n) w)
IsOpened-if true m n w h k = h
IsOpened-if false m n w h k = k

select_partition-IsOpened :
    (r : Result Partition) (w : World) → w.closed ≡ false → IsOpened (select_partition r w)
unfolding select_partition pure ◌>>=◌ attempt
select_partition-IsOpened (err e) w h = abandon-IsOpened e w h
select_partition-IsOpened (ok p) w h = IsOpened-if (is_nil p.name) _ _ w h (
    note_partition-IsOpened p.name _ _ (
      stays_open
        ((Sends-do_json {P = Anything} ok_created_empty (post_active_partition p.name) tt).at w) h))

list_partitions-Sends : Sends Anything (λ w. w) list_partitions
unfolding list_partitions
list_partitions-Sends = search sends_rules

found-Sends : (id : Text) (o : Option Partition) → Sends Anything (λ w. w) (found id o)
unfolding found
found-Sends id none = search sends_rules
found-Sends id (some p) = search sends_rules

partition_with_id-Sends : (id : ℕ) → Sends Anything (λ w. w) (partition_with_id id)
unfolding partition_with_id
partition_with_id-Sends id = search (sends_rules, list_partitions-Sends, found-Sends)

named_partition-Sends :
    (selector : Text) (o : Option ℕ) → Sends Anything (λ w. w) (named_partition selector o)
unfolding named_partition
named_partition-Sends selector none = search sends_rules
named_partition-Sends selector (some n) = search (sends_rules, partition_with_id-Sends)

resolve_partition-Sends :
    (selector : Text) (id : ℕ) → Sends Anything (λ w. w) (resolve_partition selector id)
unfolding resolve_partition
resolve_partition-Sends selector id =
    search (sends_rules, partition_with_id-Sends, named_partition-Sends)

-- A reply to the authentication that grants a session: status 200, and a document with a signature
-- that is not blank.
pub record Grants (reply : Reply) : Type 0 where
  pub document : Json
  pub accepted : reply ≡ answered 200 (value document)
  pub signature : Text
  pub decoded :
      decode_struct
        (nested (codes "authresponse") (λ fs. decode_text (member (codes "signature") fs)))
        document
      ≡ ok signature
  pub filled : is_nil (trim_space signature) ≡ false

-- Nothing has been sent but the authentication, and the appliance's reply grants no session.
pub record HasFailedLogin (client : Client) (w w' : World) : Type 0 where
  pub sent : w'.sent ≡ post_auth client.username client.password ∷ w.sent
  pub refused : ¬ Grants (w.environment.respond w.sent (post_auth client.username client.password))

-- How the opening of a session ends: with an open session, with a failed authentication and nothing
-- else sent, or with a log-off.
abbrev pub IsStarted : Client → World → Result (Unit {0}) × World → Type 0
IsStarted client w (ok _, w') = w'.closed ≡ false
IsStarted client w (err _, w') = HasFailedLogin client w w' ⊎ IsLoggedOff w'

-- The signature that `doJSON` takes from the reply
abbrev signature_of : Reply → Result Text
signature_of = check_response only_ok [] (
    decode_struct
      (nested (codes "authresponse") (λ fs. decode_text (member (codes "signature") fs))))

decoded_signature :
    (decode : Json → Result Text) (document : Json) (signature : Text)
    → decode document ≡ ok signature
    → check_response only_ok [] decode (answered 200 (value document)) ≡ ok signature
unfolding check_response decode_body
decoded_signature decode document signature h = ground arith

granted_signature : (reply : Reply) (g : Grants reply) → signature_of reply ≡ ok g.signature
granted_signature reply g =
    ap signature_of g.accepted ∙ decoded_signature _ g.document g.signature g.decoded

-- An error of the signature, or a blank one, grants nothing.
refused_err : (reply : Reply) (e : Error) → signature_of reply ≡ err e → ¬ Grants reply
refused_err reply e h g = cc (granted_signature reply g)

refused_blank :
    (reply : Reply) (signature : Text)
    → signature_of reply ≡ ok signature
    → is_nil (trim_space signature) ≡ true
    → ¬ Grants reply
refused_blank reply signature h blank g = cc (granted_signature reply g, g.filled)

module _ (client : Client) where
  opened-IsStarted : (w : World) (x : Result (Unit {0}) × World) → IsOpened x → IsStarted client w x
  opened-IsStarted w (ok u, w') h = h
  opened-IsStarted w (err e, w') h = inr h

  after_opening :
      (w : World)
      → IsOpened (
          (open_session >>= λ u.
          attempt (resolve_partition client.partition client.partition_id) >>= select_partition)
            w)
  unfolding open_session modify ◌>>=◌ attempt
  after_opening w =
      let opened = record w { closed = false; partition = [] } in
      select_partition-IsOpened _ _
        (stays_open ((resolve_partition-Sends client.partition client.partition_id).at opened) refl)

  abbrev rest_of_start : Io (Unit {0})
  rest_of_start = open_session >>= λ u.
      attempt (resolve_partition client.partition client.partition_id) >>= select_partition

  after_signature :
      (blank : Bool) (e : Error) (w w' : World)
      → w'.sent ≡ post_auth client.username client.password ∷ w.sent
      → (blank ≡ true
          → ¬ Grants (w.environment.respond w.sent (post_auth client.username client.password)))
      → IsStarted client w (proceed (refuse_if blank e) (λ v. rest_of_start) w')
  after_signature false e w w' h refused = opened-IsStarted w _ (after_opening w')
  after_signature true e w w' h refused = inl (record { sent = h; refused = refused refl })

  after_authentication :
      (message : String) (r : Result Text) (e : Error) (w w' : World)
      → w'.sent ≡ post_auth client.username client.password ∷ w.sent
      → signature_of (w.environment.respond w.sent (post_auth client.username client.password)) ≡ r
      → IsStarted client w (
          proceed
            (wrap_result message r)
            (λ signature. lift (refuse_if (is_nil (trim_space signature)) e) >>= λ v. rest_of_start)
            w')
  unfolding ◌>>=◌ lift
  after_authentication message (ok signature) e w w' h k =
      after_signature (is_nil (trim_space signature)) e w w' h (refused_blank _ signature k)
  after_authentication message (err x) e w w' h k =
      inl (record { sent = h; refused = refused_err _ x k })

  -- `StartSession` returns an open session; or it has sent nothing but the authentication, whose
  -- reply grants no session; or it has logged the session off.
  pub start_session-IsStarted : (w : World) → IsStarted client w (start_session client w)
  unfolding start_session annotate client_json transmit ◌>>=◌
  start_session-IsStarted w = after_authentication _ _ _ w _ refl refl

-- How a client's operation leaves the appliance: without a request; with nothing sent but an
-- authentication that the appliance has refused; or logged off.
abbrev pub IsReleased : Client → World → World → Type 0
IsReleased client w w' = (w' ≡ w) ⊎ HasFailedLogin client w w' ⊎ IsLoggedOff w'

module _ (client : Client) (target : Target) (bundle : CertificateBundle)
    (options : SyncOptions) where
  rotated-IsReleased :
      (w : World) (x : Result (Unit {0}) × World)
      → IsStarted client w x
      → IsReleased client w (after_start target bundle options x).1
  unfolding after_start
  rotated-IsReleased w (ok u, w') h = inr (
      inr (
        close-IsLoggedOff (sync_certificate target bundle options w').1.world
          (stays_open (sync_certificate-InFootprint target bundle options w') h)))
  rotated-IsReleased w (err e, w') (inl h) = inr (inl h)
  rotated-IsReleased w (err e, w') (inr h) = inr (inr h)

  by_checks :
      (w : World) (a b : Result (Unit {0}))
      → IsReleased client w
          (if_valid a (if_valid b (rotate_in_session client target bundle options)) w).1
  unfolding if_valid rotate_in_session
  by_checks w (ok u) (ok v) = rotated-IsReleased w _ (start_session-IsStarted client w)
  by_checks w (ok u) (err e) = inl refl
  by_checks w (err e) b = inl refl

  -- However a client's `SyncCertificate` ends, it has sent nothing; or nothing but the authentication,
  -- to which the appliance's reply has granted no session; or its last request is the log-off and the
  -- session is closed.
  pub client_sync_certificate-IsReleased :
      (w : World) → IsReleased client w (client_sync_certificate client target bundle options w).1
  unfolding client_sync_certificate
  client_sync_certificate-IsReleased w = by_checks w _ _
