-- ===== src/Cli.antt =====
-- The command line program: cmd/a10-certctl/main.go
pub mod Flags
pub mod Inputs
pub mod Domain
pub mod Changes
pub mod Run
pub mod Incompatible
use a10_certctl.Base.{Bool, true, false, not, List, Option, is_nil, if◌then◌else◌}
use a10_certctl.Base.Int.{ℤ}
use a10_certctl.Text.{Text}
use a10_certctl.Errors.{Error}
use a10_certctl.Exec.{◌>>=◌, ◌>>◌, pure, when}
use a10_certctl.Template.{ClientSslTemplate}
use a10_certctl.Axapi.{Io}
use a10_certctl.Session.{VersionInfo, CertificateInfo, write_memory}
use a10_certctl.Compatibility.{verify_compatibility}
use a10_certctl.VirtualServers.{TlsBinding}
use a10_certctl.State.Slot.{CertificateState}
use a10_certctl.Sync.{SyncResult}
use a10_certctl.Client.{Client, in_session}
use a10_certctl.Client.Config.{System}

-- What the program asks of its environment and of packages os, time, strings and net.
pub record Shell : Type 0 where
  pub system : System
  -- `os.Getenv`
  pub getenv : Text → Text
  -- `time.ParseDuration`, in nanoseconds
  pub parse_duration : Text → Option ℤ
  -- `strings.ToLower`
  pub to_lower : Text → Text
  -- `net.ParseIP` returns an address
  pub is_ip : Text → Bool

-- What a command prints where it succeeds.
pub data Output : Type 0 where
  silent usage saved : Output
  build_info : Text → Output
  version preflight : VersionInfo → Output
  certificates : List CertificateInfo → Output
  templates : List ClientSslTemplate → Output
  bindings : List TlsBinding → Output
  state : CertificateState → Output
  result : Option SyncResult → Output
  -- the names of the imported certificate, key and chain
  imported : Text → Text → Text → Output

-- `withSession`
unfoldable pub with_session : {A : Type 0} → Client → Io A → Io A
with_session client operation = in_session client operation

-- `withCompatibleSession`
unfoldable pub with_compatible_session : {A : Type 0} → Client → Io A → Io A
unfolding with_session
with_compatible_session client operation = with_session client (do verify_compatibility; operation)

-- `if !*noWriteMemory { if err := session.WriteMemory(ctx); err != nil { return err } }`
unfoldable pub save_unless : Bool → Io (Unit {0})
save_unless no_write_memory = when (not no_write_memory) write_memory
