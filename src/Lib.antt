-- ===== src/Lib.antt =====
-- The Terraform registry: the server in registry-server, which serves the provider and the module
-- protocol and a network mirror from files and has a management API guarded by keys, and the client
-- in cmd/tfreg, which publishes packages and imports them from OCI registries.
--
-- The parts, and where they are modelled:
-- - Base: Boolean tests on the native numbers, lists, case lemmas. Text: the functions of the Go
--   package strings on byte strings, which are lists of numbers. Paths: path.Clean and path.Base.
--   Regex: the expressions that validation.go compiles, matched with backtracking from the greediest
--   match on, as the package regexp defines the leftmost-first match.
-- - Semver: registry-server/semver.go. parse_semantic_version, compare_semver and
--   sort_semantic_versions are parseSemanticVersion, compareSemver and sortSemanticVersions, and so on
--   with every other name: the source's name in lower case with underscores.
-- - Validation: registry-server/validation.go, the public paths and the route variables.
-- - Archive: registry-server/archive_validation.go, over the entries that the ZIP, gzip and tar
--   readers yield.
-- - Auth: registry-server/auth.go. A KeyStore is passed on explicitly; KeysFile is what the operating
--   system answers about the keys file while a key is looked up, and hash_key is SHA-256.
-- - Import: cmd/tfreg/import.go. The record Oci holds the answers of the OCI client and of the decoder
--   of manifests; unpack_oci_artifact returns the bytes that are written with the result.
-- - Protocol: the handlers of registry-server/main.go over one state of the storage, a Reader, with
--   the readers of registry-server/storage.go.
-- - Disk: a file system in memory with the calls of os and io that registry-server/storage.go makes.
--   Every call can fail, as a list of faults tells; the suffix of a temporary file is a parameter.
-- - Storage: the keys, the version indexes and the deprecation of registry-server/storage.go and
--   registry-server/api.go. The changes run over a Backend, whose laws are those of the atomic write
--   at one key, and over codecs in the place of encoding/json. Writes and Removal are Put,
--   PutStreamValidated, PutStreamImmutable, Delete, StageDeleteTree and GarbageCollect over Disk, and
--   OnDisk fills the Backend with them.
-- - Publish: cmd/tfreg/publish.go, the path filter of cmd/tfreg/archive.go and the references of
--   cmd/tfreg/oci.go. Upload: the tests of an upload and its statuses in registry-server/middleware.go
--   and registry-server/api.go, the scans of registry-server/storage.go, registry-server/ui.go.
-- - Flags: the options of the command line in cmd/tfreg/main.go. Client: its commands push, pull,
--   delete and list.
-- - Server: the chain of the middleware in registry-server/main.go, with the audit log of
--   registry-server/middleware.go.
-- - Limiter: the rate limiter of registry-server/middleware.go, with exact numbers in the place of
--   floating point. Metrics: registry-server/metrics.go.
-- - Manage: the upload and the deletion of a module and of a provider version in
--   registry-server/api.go over Disk. Signing: the checksums of registry-server/signing.go over Disk.
--   Catalog: the lists and the statistics of registry-server/api.go over what List finds, which
--   Storage.Listing computes from the files. Secrets: the keys file and the signing key, of
--   registry-server/auth.go and registry-server/signing.go, over Disk. Download: the downloads of
--   cmd/tfreg/main.go over Disk.
--
-- How they interact: Validation, Archive and Storage decide versions and order by Semver; the handlers
-- of Protocol test file names with Validation; Archive and Storage test names with Paths; Import
-- reads the annotations that Publish writes and repeats Semver's parser. Manage changes the files by
-- Storage, whose index changes run over Disk by OnDisk, and rebuilds checksums by Signing. Server
-- puts Limiter, Auth and Validation in front of a handler.
--
-- Numbers: a signed 64-bit size is an integer (Base.Int), the other sizes are natural numbers; the
-- difference limit-expanded of archive_validation.go is taken modulo 2 ^ 64, and counters of 64 bits
-- wrap around. Versions are numbers below 2 ^ 64, as ParseUint gives them. All functions recurse on
-- their input, but two: the trimming of blanks counts down the length of its input, and the loop of
-- rejectSymlinkEscape runs on fuel, one step for each byte of the path and one more, as every step
-- goes to a shorter path.
--
-- Not modelled: the locks by key of storage.go, the logs, the routes and the start-up code, and of the
-- client the commands bundle and publish with the body of an upload. OpenPGP and sort.Slice are
-- parameters. Handlers that read the storage are functions of one state, so changes between two reads
-- of one request are left out; the handlers that change it hold one mutex, and the garbage collection
-- that main.go starts every hour, which does not hold it, is a run of its own.
pub mod Base
pub mod Text
pub mod Semver
pub mod Regex
pub mod Validation
pub mod Paths
pub mod Archive
pub mod Auth
pub mod Import
pub mod Protocol
pub mod Disk
pub mod Storage
pub mod Publish
pub mod Upload
pub mod Limiter
pub mod Metrics
pub mod Manage
pub mod Signing
pub mod Catalog
pub mod Secrets
pub mod Download
pub mod Flags
pub mod Client
pub mod Server
