-- ===== src/Lib.antt =====
-- The access and deployment core of Tinkercloud, a self-hosted gateway for small web apps: who may
-- reach which app, what a deployment goes through until it is live, and what limits abuse.
--
-- A request enters at the gateway, which finds the app that the host names, the route of the path,
-- and asks the authorizer for a context. The authorizer reads the session behind the cookie's token
-- and the app's current policy. Viewers get a session by a one-time code, whose requests and
-- verifications the rate limiter counts. Deployers upload and activate deployments, and a viewer
-- with a context may attach to the live hub and use the key-value store of its app. An upload is
-- copied within its quota and its archive extracted into a staging directory. A browser has one
-- identity for all apps, kept in the database, which a handoff turns into a session of one app. The
-- chat calls an external provider for an app within its limits. The server replaces its own binary
-- by an update that it can take back.
--
-- The modules and the code they are about:
--   Prelude       the names shared by all: Boolean tests, lists, byte texts, and association lists
--                 for Go's maps
--   Identity      internal/identity/identity.go: Normalize, Domain
--   AppNamespace  internal/appnamespace/appnamespace.go: Validate, Valid (validate, valid)
--   RateLimit     internal/ratelimit/ratelimit.go: Limiter with allow, allowHandoff,
--                 AllowFingerprint, BindTransactionFingerprint and AllowTransactionFingerprint as
--                 functions on the limiter; Window is the loop over keys and the pruning of events,
--                 Log the log of admitted attempts that the decisions are compared with
--   Releases      internal/releases/releases.go: State, Transition (allowed), PlanActivation;
--                 StaticPaths is static_path.go: ServableStaticAssetPath (servable)
--   Deployments   internal/deployments/service.go: Service.Create (service_create), Upload,
--                 Activate, ActivationReplay (service_replay), Recover, RecoverStartup
--                 (recover_all); Repository is MemoryRepository
--   Otp           internal/otp/otp.go: Service.Request, Service.Verify and MemoryStore
--   Access        internal/policies/policies.go, internal/sessions/sessions.go,
--                 internal/apps/apps.go, internal/appauth/appauth.go and
--                 internal/capabilities/context.go
--   Gateway       internal/gateway/gateway.go: ClassifyHost, ClassifyRoute, isEffectivePublic and
--                 ServeHTTP (serve), whose reply says which handler runs with what authority
--   Live          internal/live/hub.go: Hub with Attach, subscriptions, publications and Revoke
--   Compatibility internal/compatibility/compatibility.go: Parse, Compare, Range.Valid and Contains
--   Kv            internal/kv/kv.go: Service with Get, Set, Delete (remove) and List (list_keys);
--                 Store is memoryRepo, Keys is validKey, Rates is allow
--   Archive       internal/archive/archive.go: clean, put, ExtractTarGz and ExtractZip; Paths is the
--                 cleaning of names, Disk the staging directory
--   Uploads       internal/uploads/uploads.go: Copy
--   Update        internal/update/update.go: Verify, Apply (apply_update), ApplyAfterRestart and
--                 restoreAndRestart; Installer is FileInstaller of file_installer.go
--   Kv.Tables     internal/persistence/kv.go: KVRepository with Get (get_row), Set (set_row), Delete
--                 and List, on the rows of an app's table
--   GlobalIdentity internal/persistence/global_identity.go, otp.go and app_sessions.go: Tables is the
--                 database, Sessions the tokens of identities (validate, present, refresh), Handoffs
--                 the way from an app's host to the platform and back (create_handoff,
--                 authorize_handoff, consume_handoff, validate_child), Codes the logins by a code
--                 (verify_and_issue, verify_identity_otp), Platform the platform's own login and the
--                 dashboard, Runs any sequence of these
--   Llm           internal/llm/llm.go: Rates is reserveRate and Release, Chat is Complete
--   Tests         runs on small inputs
--
-- How the code is read: a method on a store is a function from its state to its new state, since
-- each runs under the store's lock; of the repository of deployments, the lock of an app makes an
-- operation one step. A text is a list of bytes. Case and space are those of ASCII. A time is a
-- number of nanoseconds. Go's errors are constructors or `none`. No definition of the code needs
-- fuel: every loop is over a list. Counters and revisions do not reach the machine's bounds and are
-- natural numbers; the version of a key wraps at 2 ^ 64 in memory and is refused from 2 ^ 63 on by the
-- database, and a size in an archive is 64 bits.
--
-- Parameters: hashes (HMAC and SHA-256), the splitting of addresses, random IDs and codes, the
-- gates of an activation, the results of file operations, and the transport's refusals. Nothing is
-- assumed of a hash. Random values are assumed new in two places: the token that replaces another is
-- one that no row has, and the name of a new family of credentials is not that of the revoked one.
--
-- Of the key-value store, whether a text is JSON or UTF-8 is a parameter; of updates, the check of a
-- signature. Where the disk, the context or the service manager may fail, an input of the model says
-- where: Faults for an update, Weather for an entry of an archive, Round for a chunk of an upload.
-- Kv.Paging counts pages by fuel: one page for each entry and one more are enough.
--
-- Of the database, a transaction that ends in an error changes nothing, and one that succeeds is one
-- step. A table is a list of rows under their keys; an UPDATE maps the rows, an INSERT fails on a key
-- that is there. A time that is stored as a text is a number, save where the code compares the
-- texts. Of the chat, the repository and the providers are parameters, and the result of a call says
-- what the repository has been told.
--
-- Not modelled: the other adapters to the database, malformed rows and failures of the database,
-- mail, certificates and the host, HTTP headers and cookies, the collection and blob capabilities,
-- the metadata of updates and how it is fetched, background jobs, the command line.
pub mod Prelude
pub mod Identity
pub mod AppNamespace
pub mod RateLimit
pub mod Releases
pub mod Deployments
pub mod Otp
pub mod Access
pub mod Gateway
pub mod Live
pub mod Compatibility
pub mod Kv
pub mod Update
pub mod Archive
pub mod GlobalIdentity
pub mod Llm
pub mod Uploads
pub mod Tests
