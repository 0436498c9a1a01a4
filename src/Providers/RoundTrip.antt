-- ===== src/Providers/RoundTrip.antt =====
-- backend/*/config.go: the typed configurations of all backends, as the values of a container and back.
use sharp_store.Prelude.{◌≡◌, ap, some}
use sharp_store.Errors.{Result, ok, ◌>>=◌}
use sharp_store.Config.{ContainerConfig, BackendConfig, new_container_config}
use sharp_store.Providers.Integers.{IsInt}
use sharp_store.Providers.Files
use sharp_store.Providers.Aliyun
use sharp_store.Providers.Azure
use sharp_store.Providers.Obs
use sharp_store.Providers.Aws
use sharp_store.Providers.Minio
use sharp_store.Providers.S3
use sharp_store.Providers.Ks3

-- A configuration of one of the packages of backend.
pub data Typed : Type 0 where
  filesystem : Files.Config → Typed
  aliyun : Aliyun.Config → Typed
  azure : Azure.Config → Typed
  obs : Obs.Config → Typed
  aws : Aws.Config → Typed
  minio : Minio.Config → Typed
  s3 : S3.Config → Typed
  ks3 : Ks3.Config → Typed

-- BackendName and Values
abbrev pub typed_config : Typed → BackendConfig
typed_config (filesystem c) = Files.backend_config c
typed_config (aliyun c) = Aliyun.backend_config c
typed_config (azure c) = Azure.backend_config c
typed_config (obs c) = Obs.backend_config c
typed_config (aws c) = Aws.backend_config c
typed_config (minio c) = Minio.backend_config c
typed_config (s3 c) = S3.backend_config c
typed_config (ks3 c) = Ks3.backend_config c

-- ParseConfig of the package that a configuration is of
abbrev pub parse_like : Typed → ContainerConfig → Result Typed
parse_like (filesystem c) config = Files.parse_config config >>= λ d. ok (filesystem d)
parse_like (aliyun c) config = Aliyun.parse_config config >>= λ d. ok (aliyun d)
parse_like (azure c) config = Azure.parse_config config >>= λ d. ok (azure d)
parse_like (obs c) config = Obs.parse_config config >>= λ d. ok (obs d)
parse_like (aws c) config = Aws.parse_config config >>= λ d. ok (aws d)
parse_like (minio c) config = Minio.parse_config config >>= λ d. ok (minio d)
parse_like (s3 c) config = S3.parse_config config >>= λ d. ok (s3 d)
parse_like (ks3 c) config = Ks3.parse_config config >>= λ d. ok (ks3 d)

-- The numbers of a configuration are of type int.
abbrev pub HasInts : Typed → Type 0
HasInts (ks3 c) = IsInt c.max_connections × IsInt c.timeout
HasInts t = Unit

-- The configuration of a container made from the typed configuration of any backend, whose numbers
-- are ints, parses to that configuration by the ParseConfig of that backend.
pub parse_config-new_container_config :
    (t : Typed) → HasInts t → parse_like t (new_container_config (some (typed_config t))) ≡ ok t
parse_config-new_container_config (filesystem c) h =
    ap (λ r. r >>= λ d. ok (filesystem d)) (Files.filesystem_parse_config-new_container_config c)
parse_config-new_container_config (aliyun c) h =
    ap (λ r. r >>= λ d. ok (aliyun d)) (Aliyun.aliyun_parse_config-new_container_config c)
parse_config-new_container_config (azure c) h =
    ap (λ r. r >>= λ d. ok (azure d)) (Azure.azure_parse_config-new_container_config c)
parse_config-new_container_config (obs c) h =
    ap (λ r. r >>= λ d. ok (obs d)) (Obs.obs_parse_config-new_container_config c)
parse_config-new_container_config (aws c) h =
    ap (λ r. r >>= λ d. ok (aws d)) (Aws.aws_parse_config-new_container_config c)
parse_config-new_container_config (minio c) h =
    ap (λ r. r >>= λ d. ok (minio d)) (Minio.minio_parse_config-new_container_config c)
parse_config-new_container_config (s3 c) h =
    ap (λ r. r >>= λ d. ok (s3 d)) (S3.s3_parse_config-new_container_config c)
parse_config-new_container_config (ks3 c) (h, g) =
    ap (λ r. r >>= λ d. ok (ks3 d)) (Ks3.ks3_parse_config-new_container_config c h g)
