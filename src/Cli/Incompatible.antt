-- ===== src/Cli/Incompatible.antt =====
-- The commands of cmd/a10-certctl/main.go that change the appliance ask for its version first.
use a10_certctl.Base.{◌≡◌, refl, ap, subst, sym, Bool, true}
use a10_certctl.Errors.{Error, Result, ok, err}
use a10_certctl.Exec.{◌>>◌, bind-err}
use a10_certctl.Axapi.{Request, post_auth, post_active_partition, post_logoff, World, Io}
use a10_certctl.Session.Footprint.{is_read, IsRead, verify_compatibility-Sends}
use a10_certctl.Compatibility.{verify_compatibility}
use a10_certctl.Client.{Client, start_session, in_opened, in_session, close_after}
use a10_certctl.Client.Scope.{Adds, Adds-refl, Opens, Sends-Keeps, start_session-Keeps, close-Keeps}
use a10_certctl.Cli.{with_session, with_compatible_session}

-- Requests that change nothing but the session: reads, and its opening and closing.
abbrev pub is_quiet : Request → Bool
is_quiet (post_auth _ _) = true
is_quiet (post_active_partition _) = true
is_quiet post_logoff = true
is_quiet r = is_read r

abbrev pub IsQuiet : Request → Type 0
IsQuiet r = is_quiet r ≡ true

reads-IsQuiet : (r : Request) → IsRead r → IsQuiet r
reads-IsQuiet (post_auth _ _) h = refl
reads-IsQuiet (post_active_partition _) h = refl
reads-IsQuiet post_logoff h = refl
reads-IsQuiet r h = h

opens-IsQuiet : Opens IsQuiet
opens-IsQuiet = record { auth = λ u p. refl; selects = λ n. refl; logoff = refl; partitions = refl }

module _ {A : Type 0} (client : Client) (operation : Io A) where
  -- The end of a session whose operation stops at the version.
  stopped :
      (w w' : World) (r : Result (Unit {0})) (e : Error)
      → r ≡ ok tt
      → (verify_compatibility w').0 ≡ err e
      → in_opened (do verify_compatibility; operation) r w'
        ≡ close_after (err e, (verify_compatibility w').1)
  unfolding in_opened
  stopped w w' r e h k = rw h (ap close_after (bind-err verify_compatibility _ w' e k))

  stopped-Adds :
      (w : World) (e : Error)
      → Adds IsQuiet w
          (close_after {A = A} (err e, (verify_compatibility (start_session client w).1).1)).1
  unfolding close_after
  stopped-Adds w e = (close-Keeps refl).at _ (
      (Sends-Keeps _ (verify_compatibility-Sends reads-IsQuiet)).at _
        ((start_session-Keeps opens-IsQuiet client).at w (Adds-refl IsQuiet w)))

  -- Where the session opens but the appliance's version cannot be read or is not supported, the
  -- operation of a compatible session is not run: the call closes the session, returns the error of
  -- the version (joined with that of the log-off, if that fails), and has sent nothing but reads and
  -- the requests that open and close the session.
  pub incompatible-IsQuiet :
      (w : World) (e : Error)
      → (start_session client w).0 ≡ ok tt
      → (verify_compatibility (start_session client w).1).0 ≡ err e
      → (with_compatible_session client operation w
          ≡ close_after (err e, (verify_compatibility (start_session client w).1).1))
        × Adds IsQuiet w (with_compatible_session client operation w).1
  unfolding with_compatible_session with_session in_session
  incompatible-IsQuiet w e h k =
      let same = stopped w (start_session client w).1 (start_session client w).0 e h k in
      (same, subst (λ (x : Result A × World). Adds IsQuiet w x.1) (sym same) (stopped-Adds w e))
