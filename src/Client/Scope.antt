-- ===== src/Client/Scope.antt =====
-- Which requests a client's operations send, the ones that open and close their session included:
-- pkg/a10/client.go
use a10_certctl.Base.{
  ℕ, ◌≡◌, refl, ap, sym, ◌∙◌, Bool, true, false, List, [], ◌∷◌, ◌++◌, Option, none, some, All,
  All-append, if◌then◌else◌,
}
use mathlib.Core.List.{append_assoc}
use a10_certctl.Text.{Text}
use a10_certctl.Errors.{Error, Result, ok, err}
use a10_certctl.Exec.{modify}
use a10_certctl.Exec.Keeps.{Keeps, keeps_rules, Keeps-bind, Keeps-attempt}
use a10_certctl.Json.{Json}
use a10_certctl.Axapi.{
  Request, post_auth, post_active_partition, post_logoff, get_partitions, World, Io, transmit,
  do_json,
}
use a10_certctl.Axapi.Sends.{Extends, Sends, Sends-do_json, Sends-get_json}
use a10_certctl.Session.{ok_created_empty}
use a10_certctl.Client.{
  Client, Partition, client_json, close, abandon, note_partition, select_partition, open_session,
  in_opened, start_session, resolve_partition, partition_with_id, list_partitions, found,
  named_partition, close_after, in_session,
}

-- The requests between two worlds, which all satisfy `P`.
pub record Adds (P : Request → Type 0) (w w' : World) : Type 0 where
  pub requests : List Request
  pub sent : w'.sent ≡ requests ++ w.sent
  pub allowed : All P requests

pub Adds-refl : (P : Request → Type 0) (w : World) → Adds P w w
Adds-refl P w = record { requests = []; sent = refl; allowed = tt }

module _ {P : Request → Type 0} {w₀ : World} where
  -- The world between them may be any with the same requests.
  Adds-sent : (w w' : World) → w'.sent ≡ w.sent → Adds P w₀ w → Adds P w₀ w'
  Adds-sent w w' e a = record { requests = a.requests; sent = e ∙ a.sent; allowed = a.allowed }

  Adds-one : (w w' : World) (r : Request) → P r → w'.sent ≡ r ∷ w.sent → Adds P w₀ w → Adds P w₀ w'
  Adds-one w w' r p e a = record {
    requests = r ∷ a.requests;
    sent = e ∙ ap (λ rs. r ∷ rs) a.sent;
    allowed = (p, a.allowed);
  }

  pub Adds-Extends : (w w' : World) → Extends P w w' → Adds P w₀ w → Adds P w₀ w'
  Adds-Extends w w' x a = record {
    requests = x.requests ++ a.requests;
    sent =
        x.sent
        ∙ ap (λ rs. x.requests ++ rs) a.sent
        ∙ sym (append_assoc x.requests a.requests w₀.sent);
    allowed = All-append P x.requests a.requests x.allowed a.allowed;
  }

  pub Sends-Keeps : {A : Type 0} (m : Io A) → Sends P (λ w. w) m → Keeps (Adds P w₀) m
  Sends-Keeps m h = record { at = λ w a. Adds-Extends w _ (h.at w) a }

  modify-Keeps :
      (f : World → World) → ((w : World) → (f w).sent ≡ w.sent) → Keeps (Adds P w₀) (modify f)
  unfolding modify
  modify-Keeps f h = record { at = λ w a. Adds-sent w (f w) (h w) a }

  client_json-Keeps :
      {A : Type 0} (accepted : List ℕ) (zero : A) (decode : Json → Result A) (r : Request)
      → P r
      → Keeps (Adds P w₀) (client_json accepted zero decode r)
  unfolding client_json transmit
  client_json-Keeps accepted zero decode r p = record {
    at = λ w a. Adds-one w (record w { sent = r ∷ w.sent }) r p refl a;
  }

  Adds-if :
      {A : Type 0} (b : Bool) (x y : Result A × World)
      → Adds P w₀ x.1
      → Adds P w₀ y.1
      → Adds P w₀ (if b then x else y).1
  Adds-if true x y hx hy = hx
  Adds-if false x y hx hy = hy

  pub close-Keeps : P post_logoff → Keeps (Adds P w₀) close
  unfolding close transmit
  close-Keeps p = record { at = λ w a. Adds-if w.closed _ _ a (Adds-one w _ post_logoff p refl a) }

-- Requests that open and close a session.
pub record Opens (P : Request → Type 0) : Type 0 where
  pub auth : (username password : Text) → P (post_auth username password)
  pub selects : (name : Text) → P (post_active_partition name)
  pub logoff : P post_logoff
  pub partitions : P get_partitions

module _ {P : Request → Type 0} (opens : Opens P) where
  list_partitions-Sends : Sends P (λ w. w) list_partitions
  unfolding list_partitions
  list_partitions-Sends = Sends-get_json _ _ _ _ opens.partitions

  module _ {w₀ : World} where
    list_partitions-Keeps : Keeps (Adds P w₀) list_partitions
    list_partitions-Keeps = Sends-Keeps _ list_partitions-Sends

    authenticate-Keeps :
        {A : Type 0} (accepted : List ℕ) (zero : A) (decode : Json → Result A) (u p : Text)
        → Keeps (Adds P w₀) (client_json accepted zero decode (post_auth u p))
    authenticate-Keeps accepted zero decode u p =
        client_json-Keeps accepted zero decode _ (opens.auth u p)

    select-Keeps :
        (name : Text) → Keeps (Adds P w₀) (do_json ok_created_empty (post_active_partition name))
    select-Keeps name = Sends-Keeps _ (Sends-do_json ok_created_empty _ (opens.selects name))

    abandon-Keeps : (e : Error) → Keeps (Adds P w₀) (abandon e)
    unfolding abandon
    abandon-Keeps e =
        Keeps-bind _ _ (Keeps-attempt _ (close-Keeps opens.logoff)) λ a. search keeps_rules

    note_partition-Keeps :
        (name : Text) (r : Result (Unit {0})) → Keeps (Adds P w₀) (note_partition name r)
    unfolding note_partition
    note_partition-Keeps name (ok u) = modify-Keeps _ (λ w. refl)
    note_partition-Keeps name (err e) = abandon-Keeps _

    select_partition-Keeps : (r : Result Partition) → Keeps (Adds P w₀) (select_partition r)
    unfolding select_partition
    select_partition-Keeps (err e) = abandon-Keeps e
    select_partition-Keeps (ok p) = search (keeps_rules, note_partition-Keeps, select-Keeps)

    found-Keeps : (id : Text) (o : Option Partition) → Keeps (Adds P w₀) (found id o)
    unfolding found
    found-Keeps id none = search keeps_rules
    found-Keeps id (some p) = search keeps_rules

    partition_with_id-Keeps : (id : ℕ) → Keeps (Adds P w₀) (partition_with_id id)
    unfolding partition_with_id
    partition_with_id-Keeps id = search (keeps_rules, list_partitions-Keeps, found-Keeps)

    named_partition-Keeps :
        (selector : Text) (o : Option ℕ) → Keeps (Adds P w₀) (named_partition selector o)
    unfolding named_partition
    named_partition-Keeps selector none = search keeps_rules
    named_partition-Keeps selector (some n) = search (keeps_rules, partition_with_id-Keeps)

    resolve_partition-Keeps :
        (selector : Text) (id : ℕ) → Keeps (Adds P w₀) (resolve_partition selector id)
    unfolding resolve_partition
    resolve_partition-Keeps selector id =
        search (keeps_rules, partition_with_id-Keeps, named_partition-Keeps)

    open_session-Keeps : Keeps (Adds P w₀) open_session
    unfolding open_session
    open_session-Keeps = modify-Keeps _ (λ w. refl)

    pub start_session-Keeps : (client : Client) → Keeps (Adds P w₀) (start_session client)
    unfolding start_session
    start_session-Keeps client =
        search
          (
            keeps_rules, open_session-Keeps, resolve_partition-Keeps, select_partition-Keeps,
            authenticate-Keeps,
          )
          depth 10

  module _ {w₀ : World} {A : Type 0} where
    close_after-Adds : (x : Result A × World) → Adds P w₀ x.1 → Adds P w₀ (close_after x).1
    unfolding close_after
    close_after-Adds (r, w) a = (close-Keeps opens.logoff).at w a

    by_start :
        (operation : Io A)
        → Keeps (Adds P w₀) operation
        → (r : Result (Unit {0})) (w : World) → Adds P w₀ w
        → Adds P w₀ (in_opened operation r w).1
    unfolding in_opened
    by_start operation k (ok u) w a = close_after-Adds (operation w) (k.at w a)
    by_start operation k (err e) w a = a

    -- An operation in a session of its own sends what the operation sends, and what opens and closes
    -- the session.
    pub in_session-Keeps :
        (client : Client) (operation : Io A)
        → Keeps (Adds P w₀) operation
        → Keeps (Adds P w₀) (in_session client operation)
    unfolding in_session
    in_session-Keeps client operation k = record {
      at = λ w a.
          let (r, w') = start_session client w in
          by_start operation k r w' ((start_session-Keeps client).at w a);
    }
