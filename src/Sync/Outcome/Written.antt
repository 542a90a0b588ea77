-- ===== src/Sync/Outcome/Written.antt =====
-- A synchronization that reports memory as written has written it: pkg/a10/sync.go
use a10_certctl.Base.{
  ℕ, ◌≤◌, ◌<◌, ◌≡◌, refl, sym, ◌∙◌, Bool, true, false, not, ◌&&◌, Option, none, some, if◌then◌else◌,
  ◌∷◌, arith,
}
use a10_certctl.Text.{Text}
use a10_certctl.Errors.{Result, ok, err, failed, api_error}
use a10_certctl.Exec.{◌>>=◌, gets, attempt}
use a10_certctl.Exec.Keeps.{Keeps, Keeps-pure, Keeps-bind, Keeps-gets, Keeps-if, Keeps-annotate}
use a10_certctl.Exec.Leads.{
  Succeeded, Turns, Turns-Keeps, Turns-next, Turns-from, Turns-first, Turns-if, Ensures-last,
}
use a10_certctl.Bundle.{CertificateBundle}
use a10_certctl.Template.{Binding, ClientSslTemplate}
use a10_certctl.Axapi.{
  Reply, unanswered, answered, Body, Request, post_write_memory, World, Io, transmit,
  contains_status, check_status, do_json,
}
use a10_certctl.Axapi.Sends.{Extends, Extends-refl, Extends-trans, Sends}
use a10_certctl.Session.{ok_created_empty, write_memory}
use a10_certctl.Session.Footprint.{write_memory-Sends}
use a10_certctl.Sync.{
  Target, SyncOptions, SyncResult, SyncState, Sync, complete, on_world, set_result,
}
use a10_certctl.Sync.Material.{Plan}
use a10_certctl.Sync.Rotate.{require_revision, after_write, write_running, persist}
use a10_certctl.Sync.Cleanup.{cleanup_binding, cleanup_old}
use a10_certctl.Sync.Run.{rotate, sync_body, initial_state, sync_certificate}
use a10_certctl.Sync.Permits.Phases.{world_of, set_result-Sends}
use a10_certctl.Sync.Permits.Whole.{prepare-Sends, inspect-Sends}
use a10_certctl.Sync.Order.Phases.{
  ensure_material-Sends, bind_desired-Sends, remove_old-Sends, require_revision-Sends,
  delete_unreferenced-Sends,
}
use a10_certctl.Sync.Outcome.Saved.{
  IsUnsaved, unsaved_rules, ensure_material-Keeps, bind_desired-Keeps, remove_old-Keeps,
  prepare-Keeps, inspect-Keeps, set_result-Keeps, report_rollback-Ensures, deferred-Succeeded,
  success_is_saved,
}

abbrev pub Anything : Request → Type 0
Anything r = Unit

-- A reply with a status of success
pub record IsAccepted (reply : Reply) : Type 0 where
  pub status : ℕ
  pub body : Body
  pub reply_eq : reply ≡ answered status body
  pub lowest : 200 ≤ status
  pub highest : status < 300

-- On the way from one world to another memory has been written: the request to do so was sent, and
-- the appliance has accepted it.
pub record IsWritten (w w' : World) : Type 0 where
  pub before : World
  pub after : World
  pub name : Text
  pub reached : Extends Anything w before
  pub sent : after.sent ≡ post_write_memory name ∷ before.sent
  pub accepted : IsAccepted (before.environment.respond before.sent (post_write_memory name))
  pub ended : Extends Anything after w'

IsWritten-Extends : {u v w : World} → IsWritten u v → Extends Anything v w → IsWritten u w
IsWritten-Extends h x = record {
  before = h.before;
  after = h.after;
  name = h.name;
  reached = h.reached;
  sent = h.sent;
  accepted = h.accepted;
  ended = Extends-trans h.ended x;
}

module _ (w₀ w : World) (reached : Extends Anything w₀ w) where
  abbrev asked : World
  asked = record w { sent = post_write_memory w.partition ∷ w.sent }

  abbrev answer : Reply
  answer = w.environment.respond w.sent (post_write_memory w.partition)

  by_status :
      (status : ℕ) (body : Body) (b : Bool)
      → answer ≡ answered status body
      → contains_status ok_created_empty status ≡ b
      → Succeeded
          (if b then ok tt else err (api_error "aXAPI request failed" status))
          (IsWritten w₀ asked)
  unfolding contains_status
  by_status status body false e h = tt
  by_status status body true e h = record {
    before = w;
    after = asked;
    name = w.partition;
    reached = reached;
    sent = refl;
    accepted = record {
      status = status;
      body = body;
      reply_eq = e;
      lowest = ground arith;
      highest = ground arith;
    };
    ended = Extends-refl _ _;
  }

  by_reply :
      (reply : Reply)
      → answer ≡ reply
      → Succeeded (check_status ok_created_empty reply) (IsWritten w₀ asked)
  unfolding check_status
  by_reply unanswered e = tt
  by_reply (answered status body) e = by_status status body _ e refl

  abbrev outcome : Bool → Result (Unit {0}) × World
  outcome closed =
      if closed
      then (err (failed "A10 session is closed"), w)
      else (check_status ok_created_empty answer, asked)

  by_session : (closed : Bool) → Succeeded (outcome closed).0 (IsWritten w₀ (outcome closed).1)
  by_session true = tt
  by_session false = by_reply _ refl

  write_memory-IsWritten : Succeeded (write_memory w).0 (IsWritten w₀ (write_memory w).1)
  unfolding write_memory gets ◌>>=◌ do_json transmit
  write_memory-IsWritten = by_session w.closed

module _ (w₀ : World) where
  -- Nothing is reported as written yet.
  abbrev IsBefore : SyncState → Type 0
  IsBefore s = IsUnsaved s × Extends Anything w₀ s.world

  -- What is reported as written is written.
  abbrev IsTrue : SyncState → Type 0
  IsTrue s = s.result.wrote_memory ≡ true → IsWritten w₀ s.world

  IsBefore-Keeps :
      {A : Type 0} (m : Sync A) → Keeps IsUnsaved m → Sends Anything world_of m → Keeps IsBefore m
  IsBefore-Keeps m k h = record { at = λ s i. (k.at s i.0, Extends-trans i.1 (h.at s)) }

  world-Keeps : {A : Type 0} (m : Io A) → Sends Anything (λ w. w) m → Keeps IsTrue (on_world m)
  unfolding on_world
  world-Keeps m h = record { at = λ s i e. IsWritten-Extends (i e) (h.at s.world) }

  result-Keeps :
      (f : SyncResult → SyncResult)
      → ((r : SyncResult) → (f r).wrote_memory ≡ r.wrote_memory)
      → Keeps IsTrue (set_result f)
  unfolding set_result
  result-Keeps f h = record { at = λ s i e. i (sym (h s.result) ∙ e) }

  module _ (plan : Plan) where
    after_attempt :
        (expected : ClientSslTemplate) (r : Result (Unit {0})) (s : SyncState)
        → Succeeded r (IsWritten w₀ s.world)
        → Succeeded (after_write plan expected r s).0 (IsTrue (after_write plan expected r s).1)
    unfolding after_write set_result
    after_attempt expected (ok u) s h = λ e. h
    after_attempt expected (err e) s h =
        (Ensures-last {Q = IsTrue} _ _
            (λ a. Ensures-last _ _ λ b. report_rollback-Ensures plan _ _ b)).at
          s

    attempt-Turns :
        (expected : ClientSslTemplate)
        → Turns IsBefore IsTrue (on_world (attempt write_memory) >>= after_write plan expected)
    unfolding on_world attempt ◌>>=◌
    attempt-Turns expected = record {
      at = λ s i.
          after_attempt expected (write_memory s.world).0
            (record s { world = (write_memory s.world).1 }) (write_memory-IsWritten w₀ s.world i.1);
    }

    persist-Turns : (expected : ClientSslTemplate) → Turns IsBefore IsTrue (persist plan expected)
    unfolding persist write_running require_revision
    persist-Turns expected =
        Turns-next _ _ (IsBefore-Keeps _ (set_result-Keeps _ (λ r. refl)) (set_result-Sends _)) λ u.
          Turns-next _ _ (Keeps-gets _) λ changed.
            Turns-if _ _ _
              (Turns-next _ _
                (IsBefore-Keeps _ (search unsaved_rules)
                  (unfold require_revision in require_revision-Sends (λ r k. tt) plan _ _))
                λ v. attempt-Turns expected)
              (Turns-from (λ s i e. cc (i.0)) _ (Turns-Keeps _ (Keeps-pure tt)))

    cleanup_old-Keeps : (o : Option Binding) → Keeps IsTrue (cleanup_old plan o)
    unfolding cleanup_old cleanup_binding
    cleanup_old-Keeps none = Keeps-pure tt
    cleanup_old-Keeps (some c) =
        Keeps-if _ _ _
          (Keeps-bind _ _
            (world-Keeps _ (delete_unreferenced-Sends (λ r k. tt) (λ m. tt) c plan.desired))
            λ deleted. Keeps-bind _ _ (result-Keeps _ (λ r. refl)) λ u.
              Keeps-if _ _ _ (Keeps-annotate _ _ (world-Keeps _ (write_memory-Sends (λ p. tt))))
                (Keeps-pure tt))
          (Keeps-pure tt)

    rotate-Turns : Turns IsBefore IsTrue (rotate plan)
    unfolding rotate
    rotate-Turns =
        Turns-next _ _
          (IsBefore-Keeps _ (ensure_material-Keeps plan)
            (ensure_material-Sends (λ r k. tt) plan (λ k d p. tt)))
          λ a.
            Turns-next _ _
              (IsBefore-Keeps _ (bind_desired-Keeps plan)
                (bind_desired-Sends (λ r k. tt) plan (λ t d. tt)))
              λ bound.
                Turns-next _ _
                  (IsBefore-Keeps _ (remove_old-Keeps plan _ _ _)
                    (remove_old-Sends (λ r k. tt) plan (λ t c. tt) _ _ _))
                  λ expected. Turns-first _ _ (persist-Turns expected) λ u.
                    Keeps-bind _ _ (cleanup_old-Keeps plan.current) λ v. result-Keeps _ (λ r. refl)

module _ (target : Target) (bundle : CertificateBundle) (options : SyncOptions) where
  sync_body-Turns : (w₀ : World) → Turns (IsBefore w₀) (IsTrue w₀) (sync_body target bundle options)
  unfolding sync_body
  sync_body-Turns w₀ =
      Turns-next _ _
        (IsBefore-Keeps w₀ _ (prepare-Keeps target bundle options)
          (prepare-Sends target bundle options (λ r k. tt)))
        λ names.
          Turns-next _ _
            (IsBefore-Keeps w₀ _ (inspect-Keeps target bundle options names)
              (inspect-Sends target bundle options (λ r k. tt) names))
            λ plan. rotate-Turns w₀ plan

  -- A call that succeeds is at the stage `complete`; it reports memory as written exactly if it
  -- reports a change and the options allow it to write memory; and where it reports so, it has sent
  -- a request to write memory that the appliance has accepted.
  pub success-IsWritten :
      (w : World)
      → (sync_certificate target bundle options w).0 ≡ ok tt
      → ((sync_certificate target bundle options w).1.result.stage ≡ complete)
        × ((sync_certificate target bundle options w).1.result.wrote_memory ≡ (
            (sync_certificate target bundle options w).1.result.changed
            && not options.no_write_memory))
        × ((sync_certificate target bundle options w).1.result.wrote_memory ≡ true
            → IsWritten w (sync_certificate target bundle options w).1.world)
  unfolding sync_certificate initial_state
  success-IsWritten w e =
      let (stage, flag) = success_is_saved target bundle options w e in
      let s = initial_state w in
      let (r, t) = sync_body target bundle options s in
      (
        stage,
        flag,
        deferred-Succeeded target bundle options (IsTrue w) r t
            ((sync_body-Turns w).at s (refl, Extends-refl _ w)) e,
      )
