-- ===== src/Sync/Order.antt =====
-- The protocol of a rotation of pkg/a10/sync.go, as a machine over the requests that it sends:
-- files are uploaded, then the new pair is bound, then the old binding removed, then memory written,
-- and only then are old files deleted and memory written again. Reads may come at any time.
pub mod Phases
pub mod Steps
pub mod Refines
use a10_certctl.Base.{
  ◌≡◌, refl, subst, ◌⊎◌, inl, inr, Bool, true, false, List, [], ◌∷◌, ◌++◌, any, All, ap, sym, ◌∙◌,
  arith,
}
use mathlib.Core.List.{append_assoc}
use a10_certctl.Text.{Text}
use a10_certctl.Axapi.{
  Request, post_file, post_binding, delete_binding, post_delete, post_write_memory, World,
}
use a10_certctl.Axapi.Sends.{Extends, Sends}
use a10_certctl.Session.Footprint.{is_read}
use a10_certctl.Exec.Keeps.{Keeps}
use a10_certctl.Sync.{SyncState, Sync}
use a10_certctl.Sync.Permits.Phases.{world_of}

pub data Phase : Type 0 where
  uploading binding unbinding saved finished : Phase

-- What a phase lets through, beside the steps to the next phase
abbrev pub lets : Phase → Request → Bool
lets uploading (post_file _ _ _) = true
lets binding (post_binding _ _) = true
lets unbinding (delete_binding _ _) = true
lets saved (post_delete _) = true
lets p r = is_read r

abbrev pub Lets : Phase → Request → Type 0
Lets p r = lets p r ≡ true

-- The requests of a rotation that has come to a phase, the last one first. Memory is written on the
-- way to `saved`, unless the options forbid it, and once more after deletions.
pub data Run (no_save : Bool) : Phase → List Request → Type 0 where
  start : Run no_save uploading []
  send :
      {p : Phase} {rs : List Request} (r : Request)
      → Lets p r
      → Run no_save p rs
      → Run no_save p (r ∷ rs)
  bind_next : {rs : List Request} → Run no_save uploading rs → Run no_save binding rs
  unbind_next : {rs : List Request} → Run no_save binding rs → Run no_save unbinding rs
  save :
      {rs : List Request} (name : Text)
      → Run no_save unbinding rs
      → Run no_save saved (post_write_memory name ∷ rs)
  skip : {rs : List Request} → no_save ≡ true → Run no_save unbinding rs → Run no_save saved rs
  save_again :
      {rs : List Request} (name : Text)
      → Run no_save saved rs
      → Run no_save finished (post_write_memory name ∷ rs)

-- Requests that the phase lets through
send_all :
    {no_save : Bool} {p : Phase} (qs : List Request) {rs : List Request}
    → All (Lets p) qs
    → Run no_save p rs
    → Run no_save p (qs ++ rs)
send_all [] h run = run
send_all (q ∷ qs) h run = send q h.0 (send_all qs h.1 run)

-- The requests since a world are those of a run to a phase.
pub record HasRun (no_save : Bool) (w₀ : World) (p : Phase) (s : SyncState) : Type 0 where
  pub requests : List Request
  pub sent : s.world.sent ≡ requests ++ w₀.sent
  pub run : Run no_save p requests

module _ {no_save : Bool} {w₀ : World} where
  HasRun-Extends :
      {p : Phase} (s t : SyncState)
      → Extends (Lets p) s.world t.world
      → HasRun no_save w₀ p s
      → HasRun no_save w₀ p t
  HasRun-Extends s t x h = record {
    requests = x.requests ++ h.requests;
    sent =
        x.sent
        ∙ ap (λ rs. x.requests ++ rs) h.sent
        ∙ sym (append_assoc x.requests h.requests w₀.sent);
    run = send_all x.requests x.allowed h.run;
  }

  -- A call whose requests the phase lets through stays in it.
  pub phase-Keeps :
      {p : Phase} {A : Type 0} (m : Sync A)
      → Sends (Lets p) world_of m
      → Keeps (HasRun no_save w₀ p) m
  phase-Keeps m h = record { at = λ s run. HasRun-Extends s (m s).1 (h.at s) run }

  -- The worlds of two states may have the same requests.
  pub HasRun-next :
      {p q : Phase} (s t : SyncState) (rs : List Request)
      → t.world.sent ≡ rs ++ s.world.sent
      → ((qs : List Request) → Run no_save p qs → Run no_save q (rs ++ qs))
      → HasRun no_save w₀ p s
      → HasRun no_save w₀ q t
  HasRun-next s t rs e f h = record {
    requests = rs ++ h.requests;
    sent = e ∙ ap (λ l. rs ++ l) h.sent ∙ sym (append_assoc rs h.requests w₀.sent);
    run = f h.requests h.run;
  }

-- Every deletion comes after memory has been written.
abbrev pub is_write : Request → Bool
is_write (post_write_memory _) = true
is_write r = false

abbrev pub is_deletion : Request → Bool
is_deletion (post_delete _) = true
is_deletion r = false

abbrev pub AreDeletionsSaved : List Request → Type 0
AreDeletionsSaved [] = Unit
AreDeletionsSaved (r ∷ rs) = (is_deletion r ≡ true → any is_write rs ≡ true) × AreDeletionsSaved rs

abbrev IsWrittenBy : Phase → List Request → Type 0
IsWrittenBy saved rs = any is_write rs ≡ true
IsWrittenBy finished rs = any is_write rs ≡ true
IsWrittenBy p rs = Unit

deletion_comes_late : (p : Phase) (r : Request) → Lets p r → is_deletion r ≡ true → p ≡ saved
deletion_comes_late uploading (post_delete m) h d = cc
deletion_comes_late binding (post_delete m) h d = cc
deletion_comes_late unbinding (post_delete m) h d = cc
deletion_comes_late saved (post_delete m) h d = refl
deletion_comes_late finished (post_delete m) h d = cc
deletion_comes_late p r h d = cc

written_more :
    (p : Phase) (r : Request) (rs : List Request) → IsWrittenBy p rs → IsWrittenBy p (r ∷ rs)
written_more saved r rs h = ground arith
written_more finished r rs h = ground arith
written_more uploading r rs h = tt
written_more binding r rs h = tt
written_more unbinding r rs h = tt

written_in : (p : Phase) (rs : List Request) → p ≡ saved → IsWrittenBy p rs → any is_write rs ≡ true
written_in p rs e h = subst (λ q. IsWrittenBy q rs) e h

run-IsSaved :
    {no_save : Bool} {p : Phase} {rs : List Request}
    → no_save ≡ false
    → Run no_save p rs
    → AreDeletionsSaved rs × IsWrittenBy p rs
run-IsSaved e start = (tt, tt)
run-IsSaved e (send {p} {rs} r h run) =
    let (deletions, written) = run-IsSaved e run in
    (
      (λ d. written_in p rs (deletion_comes_late p r h d) written, deletions),
      written_more p r rs written,
    )
run-IsSaved e (bind_next run) = ((run-IsSaved e run).0, tt)
run-IsSaved e (unbind_next run) = ((run-IsSaved e run).0, tt)
run-IsSaved e (save name run) = ((λ d. cc, (run-IsSaved e run).0), refl)
run-IsSaved e (skip h run) = cc
run-IsSaved e (save_again name run) = ((λ d. cc, (run-IsSaved e run).0), refl)

-- In a run that may save, each deletion comes after a request to write memory.
pub run-AreDeletionsSaved : {p : Phase} {rs : List Request} → Run false p rs → AreDeletionsSaved rs
run-AreDeletionsSaved run = (run-IsSaved refl run).0
