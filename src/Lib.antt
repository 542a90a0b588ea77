-- ===== src/Lib.antt =====
-- A verification library for a10-certctl, the Go package `pkg/a10` and its command: the rotation
-- of TLS certificates on A10 appliances through their management interface, aXAPI.
--
-- The program's parts, and the modules that model them:
--
--   Errors          pkg/a10/errors.go and the error types of the other files: errors as values, and
--                   `errors.Is` for the four sentinels.
--   Names           pkg/a10/identifiers.go and the validation of names in pkg/a10/certificates.go.
--   Names.Managed   `managedNames`, `sanitizeName` and `limitedName` of pkg/a10/sync.go: the names of
--                   the files that a rotation uploads.
--   Json            decoded JSON values, what encoding/json makes of them, and the functions of
--                   pkg/a10/sync.go and pkg/a10/state.go that walk over them.
--   Bundle          pkg/a10/certificate.go: certificates, keys, bundles, their checksums and checks;
--                   Bundle.Parse reads them from PEM text.
--   Platform        the functions of crypto/sha256, encoding/pem, crypto/x509 and pkcs8 that the
--                   package calls, as parameters.
--   Template        the templates of pkg/a10/certificates.go, their decoders, and the functions on
--                   bindings of pkg/a10/sync.go and pkg/a10/state.go. Template.Revision is
--                   `ClientSSLTemplate.Revision`, Template.References says which files a template names.
--   Exec            bodies that change a state and return an error.
--   Axapi           `doJSON`, `doMultipart` and `execute` of pkg/a10/client.go. Axapi.Wire has the
--                   method, the endpoint and the document of each request.
--   Session         the typed operations of pkg/a10/certificates.go: Session.Read and Session.Write.
--   Compatibility   pkg/a10/compatibility.go.
--   State           `requireTemplateRevision` and `GetManagedCertificateState` of pkg/a10/state.go.
--   Sync            pkg/a10/sync.go: Sync.Run is `SyncCertificate` with its deferred function, in the
--                   phases Sync.Select, Sync.Material, Sync.Rotate and Sync.Cleanup; Sync.Rollback has
--                   both roll-backs, Sync.Create `CreateManagedCertificate`. Sync.Order is the
--                   protocol that a rotation implements, as a machine over requests.
--   Client          `StartSession`, `Close` and `resolvePartition` of pkg/a10/client.go, and the client's
--                   operations that open a session of their own. Client.Config is `New`, with
--                   `url.Parse`, the file system and certificate pools as parameters.
--   VirtualServers  pkg/a10/virtual_servers.go; `netip.ParseAddr` is a parameter.
--   Cli             cmd/a10-certctl/main.go: Cli.Flags is package flag, Cli.Inputs reads arguments,
--                   environment and files, Cli.Changes and Cli.Run are the commands, from arguments
--                   to what is printed. `time.ParseDuration`, `strings.ToLower`, `net.ParseIP`, the
--                   environment and the file system are parameters. Output is taken to succeed.
--   Examples        a simulated appliance, runs on it, and the theorems at concrete inputs.
--
-- How the parts interact. A `World` is a session and what it talks to: the list of the requests
-- sent so far, whether the session is closed, its partition, and an `Environment`. The environment
-- answers a request by an arbitrary function of the requests sent before and of the request at
-- hand, so that it stands for the appliance, for the network that loses requests or replies, and
-- for everybody else who changes the appliance; a theorem for every world holds for all of these.
-- An operation of a session is a function from a world to a result and a world (`Io`). A rotation
-- has a larger state, the named results and the variables that its deferred function reads
-- (`SyncState`), and runs the session's operations in it by `on_world`. A method that returns
-- `(result, err)` leaves its result in the state, beside the error.
--
-- How the data correspond. A text is the list of its code points, and a Go string is taken to be
-- valid UTF-8; `len` counts bytes. A JSON value is decoded, its objects have distinct member names,
-- and a number is the text that Go prints for it. Times are seconds. A template's retained payload
-- is absent where the JSON was `null`. Go's maps that are marshalled are sorted by key.
--
-- Bounds and fuel. `split_from` runs on fuel, one more than the number of code points of the PEM
-- text: each block takes at least one. Every other loop is structural. `decimal_digits` prints a
-- 32-bit number with a fuel of ten digits.
--
-- Not modelled: HTTP and its headers, the multipart encoding, TLS, timeouts and contexts, the mutexes (the calls of one
-- session come one after another), the parsing of JSON text, the texts of error messages, and the
-- functions of crypto, which are parameters.
pub mod Base
pub mod Text
pub mod Errors
pub mod Names
pub mod Json
pub mod Template
pub mod Platform
pub mod Bundle
pub mod Exec
pub mod Axapi
pub mod Session
pub mod Compatibility
pub mod Sync
pub mod State
pub mod Client
pub mod VirtualServers
pub mod Cli
pub mod Examples
