-- ===== src/Lib.antt =====
-- Back-Orbit: a self-hosted backup tool for Docker Compose projects. A user logs in through the HTTP
-- interface (internal/api), configures the repositories that backups go to (internal/repositories)
-- and starts runs (internal/backuprun). A run copies
-- the project's volumes and bind mounts into a staging directory, exports the databases that the
-- analysis found, hands the tree to restic and records a snapshot once restic has read it back. The
-- passwords of repositories lie encrypted in the secret store (internal/secrets, internal/crypto).
--
-- What is modelled, and where:
--   * Base, Base/*: Go's strings, slices, maps and `(value, error)` as data.
--   * Auth/RateLimit: internal/auth/ratelimit.go, `LoginRateLimiter`, and `handleLogin` of
--     internal/api/auth.go. Its children: the length of a block (Backoff), failures in one window
--     (Lockout), histories of requests (Gate).
--   * Auth/Session, Auth/Users, Auth/Password, Auth/Csrf: session.go, user.go, password.go and csrf.go
--     of internal/auth. SHA-256, Argon2id, base64 and `Sscanf` are parameters. Auth/Requests composes
--     them: RequireSession of middleware.go, and `handleLogin`, `handleLogout`, `handleSession` and
--     `handleSetupAdmin` of internal/api.
--   * Crypto: internal/crypto/crypto.go. Argon2id and XChaCha20-Poly1305 (golang.org/x/crypto) are
--     the record `Primitives`: functions, with the length of a derived key and the fact that what
--     was sealed opens. Binding of the associated data is a hypothesis of its own where it is used.
--   * Secrets: internal/secrets/store.go, the state with its tables; Access holds `Put` and `Get`,
--     Keys `Initialize`, `Unlock` and `ChangeMasterPassphrase`, Rotation `RotateDataKey`, KeyFile
--     internal/secrets/unattended.go. Table has the lemmas on the table `secrets`, and Toy a cipher
--     that meets `Primitives`.
--   * Repositories: internal/repositories, the table of repository.go and store.go; Locations and
--     Purge are locations.go and purge.go, Service and Checks service.go, over the secret store. The
--     directories that are handed to `os.RemoveAll` are kept in a list.
--   * BackupRun: the types of internal/backuprun/run.go; Segment is `pathSegment`, Rows the tables
--     of store.go, Dumps dumps.go, Consistency consistency.go, Execute `execute` and Runner `Start`,
--     `Cancel` and `release` of runner.go. Children state what is proved of them.
--   * Restore: the types of internal/restore and its state; Extraction is restore.go, Database is
--     database.go, and Reservation what their starts share. The goroutines are functions of their
--     own. Loads into a database, and directories made and removed, are kept in lists.
--   * Images: internal/imageref. Blueprints: internal/protectionblueprints, with Catalog for
--     catalog.go, where the decoded files are an argument, and Matching and Assignment for match.go.
--   * Analysis: internal/projectanalyzer/service.go, the stored blueprint, its confirmation and drift;
--     what the detectors find is an argument.
--   * Projects: internal/projects; Sources is sources.go, Registry the table of store.go, Service
--     service.go. Docker's answers and a directory's listing are arguments.
--   * Events/Broker: internal/events/broker.go, with the reading of a channel. Events/Recorder:
--     event.go, recorder.go and the insertion of store.go.
--
-- How code and model correspond: a function or method keeps its name in snake case and takes the
-- state as an argument and gives it back. What the database, the clock, the random reader, Docker,
-- the stager, the exporters and restic answer are fields of a record of answers (`Env`, `Answers`),
-- so a theorem holds for every behaviour of theirs, failures included. Strings are lists of bytes;
-- names under `pathSegment` are lists of runes. Sums of an `int64` are taken modulo 2 ^ 64. What a
-- method does under its mutex is one step; BackupRun/Runner/Exclusion orders the steps of several
-- calls freely. Elsewhere calls follow one another: a rotation of the data key is one step,
-- although the program commits it before it swaps the key in memory. Lower case and white space are
-- those of ASCII everywhere, where Go's are those of Unicode. Loops run over lists. Only the search
-- of Blueprints/Assignment runs on fuel: one unit for each image and one more, as every deeper call
-- marks an image that was not marked.
--
-- Not modelled: the web interface, HTTP decoding, Docker and file input and output, the running of
-- restic and of database tools, SQL itself (a statement is a function on rows), logging, the
-- overwriting of keys in memory, and the packages that are not named above.
pub mod Base
pub mod Analysis
pub mod Auth
pub mod Blueprints
pub mod Crypto
pub mod Images
pub mod Projects
pub mod Secrets
pub mod Repositories
pub mod BackupRun
pub mod Events
pub mod Restore
