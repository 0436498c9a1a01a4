-- ===== src/Lib.antt =====
-- sharp-store: object storage for named containers, with tenants, over interchangeable backends.
--
-- A factory (factory.go) opens a container: it loads the container's configuration from a source by
-- way of a cache (config_loader.go, config_cache.go), resolves the backend by the name in it
-- (backend.go), and fixes the tenant by a snapshot (scope.go). An operation of the container
-- (container.go) normalizes the file's name (naming.go), builds the object key (key.go) and hands the
-- request to the backend. The filesystem backend (backend/filesystem) keeps objects as files, and the
-- cloud backends in the buckets of a service, whose clients they keep by configuration.
--
-- Files, each with the code that it models:
--   Errors          config.go: the error values; results and errors.Is
--   Config          config.go: ContainerConfig, NewContainerConfig, WithTenantMode, Clone
--   Scope           scope.go: TenantContext, snapshotTenant
--   Backend         backend.go: requests, the Backend interface; Backend/Registry: BackendRegistry
--   Naming          naming.go: NamingServiceSet, the identity service
--   Key             key.go: the default key builder
--   Cache           config_cache.go: MemoryConfigCache; Cache/Events has the interleavings of its
--                   locked sections, and the specification of VersionedConfigCache
--   Loader          config_loader.go: one call of Load; Loader/Flight has the calls that run together
--   Source          source/static/static.go
--   Container       container.go
--   Factory         factory.go
--   FileUtil        backend/internal/fileutil/fileutil.go: WriteFile; what becomes of its destination
--                   is in Filesystem/Downloads
--   Filesystem      backend/filesystem/filesystem.go; Filesystem/ObjectPath finds the path of an object
--   Providers       backend/*/config.go of filesystem (Providers/Files), aliyun, azure, obs, aws,
--                   minio, s3 and ks3; Providers/Integers has strconv.Itoa and strconv.Atoi
--   Cloud           what the cloud backends share, with Cloud/Settings, Steps, Urls and Bodies;
--                   Cloud/Aliyun, Azure, Obs, Aws, S3, Minio and Ks3 have backend/aliyun/aliyun.go
--                   and so on. Of the last four, Settings has readConfig, and Typed has what it
--                   reads of a typed configuration; Cloud/S3/Spool has fixedLengthBody
--   FilePaths, Os   what these use of the packages path/filepath and os, as on Unix
--   Prelude         helpers: texts, maps, order, integers, decimals
--   Examples        the theorems at concrete inputs
--
-- Conventions. A Go string is the list of its bytes, and a map an association list in which `put` and
-- `delete` keep keys distinct; `none` is a nil map, pointer or interface. Everything outside the
-- library is a state `W`, which contexts, tenants, caches, sources and backends read and change. A
-- value that is returned beside an error and never read is left out; where it can be read, the result
-- is a pair. Structs are immutable values, and the sharing of a map that a Clone ends is not modelled.
-- A time is a natural number of nanoseconds, and each reading of the clock is an argument; the version
-- of the cache wraps around at 2^64. The seconds of an expiry are exact below 2^24 seconds, where the
-- float64 of the source is.
--
-- The cache's mutex makes each locked section one step, so GetWithVersion is two events. In
-- Loader/Flight a goroutine's step ends where another can come between: at a locked section, or a call
-- of the cache or the source; `select` may take either of two ready channels. Every loop of the
-- library is structural recursion. The recursions of FilePaths and Os are structural as well. Only the
-- digits of a number are written on fuel, which is 20 and enough for a uint64 (Prelude/Decimal).
--
-- In Os.antt the file system is a map from paths to nodes, every call may fail by a fault that the
-- state chooses for the number of the call, and names of temporary files come from the state.
--
-- The SDK of a cloud backend, with the service behind it, is a record of functions on a remote state
-- `R`, which can change and fail in any way; what a theorem needs of it is a record of laws (IsStore in
-- Cloud/Aws/Store). The order in which Go ranges over a map, the clock and the dynamic type of an
-- upload's body come from the remote state or are parameters too. net/url is a parameter. The state of
-- a cloud backend has the clients that it keeps, the files of the machine and the remote state.
--
-- Not modelled: the code of the SDKs, the closing of readers, a context that ends while a body is
-- copied to a temporary file, symbolic links, permissions other than mode bits, and the files of
-- Windows. Its path functions are a parameter of Platform in FilePaths, and only the path of an object
-- is found by them.
pub mod Prelude
pub mod Errors
pub mod Scope
pub mod Config
pub mod Backend
pub mod Naming
pub mod Key
pub mod Cache
pub mod Loader
pub mod Source
pub mod Container
pub mod Factory
pub mod FilePaths
pub mod Os
pub mod FileUtil
pub mod Filesystem
pub mod Providers
pub mod Cloud
pub mod Examples
