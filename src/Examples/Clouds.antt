-- ===== src/Examples/Clouds.antt =====
-- Typed configurations, clients, URLs and objects of the cloud backends at concrete inputs.
use mathlib.Core.List.{lookup}
use mathlib.Core.List.Perm
use native.Mathlib.Omega.{arith}
use sharp_store.Prelude.{
  [], ◌≡◌, refl, ◌⊎◌, ℕ, ◌+◌, ◌*◌, ◌-◌, ◌≤◌, ◌<◌, none, some, List, ◌∷◌, Text, text, text_discrete,
  if◌then◌else◌,
}
use sharp_store.Prelude.Integers.{pos, negsuc}
use sharp_store.Prelude.Texts.{any_text}
use sharp_store.Prelude.Maps.{put}
use sharp_store.Errors.{Result, ok, err, message}
use sharp_store.Config.{Values, map_or_empty, new_container_config}
use sharp_store.Os.{Os}
use sharp_store.Providers.Aws
use sharp_store.Providers.Minio
use sharp_store.Providers.S3
use sharp_store.Providers.Ks3
use sharp_store.Providers.RoundTrip.{
  ks3, parse_like, typed_config, parse_config-new_container_config,
}
use sharp_store.Cloud.{Cloud, client_for, load_or_store, pure}
use sharp_store.Cloud.Settings.{second}
use sharp_store.Cloud.Urls.{Urls, starts_with, ends_with, contains_text, validate_endpoint}
use sharp_store.Cloud.Clients.{store_all, client_for-stable}
use sharp_store.Cloud.Expiry.{url_seconds-later, timeout_of-cases}
use sharp_store.Cloud.Ranges.{value_read, read_config-perm}
use sharp_store.Cloud.Aliyun as AliyunCloud
use sharp_store.Cloud.Obs as ObsCloud
use sharp_store.Cloud.Ks3 as Ks3Cloud
use sharp_store.Cloud.S3.Settings as S3Settings
use sharp_store.Cloud.Minio.Settings as MinioSettings
use sharp_store.Cloud.Ks3.Settings as Ks3Settings
use sharp_store.Cloud.Aws.Settings as AwsSettings
use sharp_store.Cloud.Aws.Typed as AwsTyped
use sharp_store.Cloud.S3.Typed as S3Typed
use sharp_store.Cloud.Minio.Typed as MinioTyped
use sharp_store.Cloud.Ks3.Typed as Ks3Typed

abbrev ks3_config : Ks3.Config
ks3_config =
    Ks3.with_timeout
      (Ks3.with_max_connections
        (Ks3.with_credentials
          (Ks3.with_endpoint (Ks3.with_bucket Ks3.new_config (text "docs"))
            (text "ks3.example.test"))
          (text "id") (text "secret"))
        (pos 30))
      (pos 5000)

parse_config-new_container_config_example :
    parse_like (ks3 ks3_config) (new_container_config (some (typed_config (ks3 ks3_config))))
    ≡ ok (ks3 ks3_config)
parse_config-new_container_config_example =
    parse_config-new_container_config (ks3 ks3_config) (omega arith, omega arith)

-- URLs as their scheme and their host
abbrev pub Parts : Type 0
Parts = Text × Text

abbrev without : Text → Text → Text
without [] s = s
without (c ∷ p) [] = []
without (c ∷ p) (d ∷ s) = without p s

abbrev parts : Text → Result Parts
parts s =
    if starts_with (text "https://") s
    then ok (text "https", without (text "https://") s)
    else if starts_with (text "http://") s
    then ok (text "http", without (text "http://") s)
    else err (message "parse: no scheme" [])

abbrev pub web : Urls Parts
web = record {
  parse = parts;
  parse_request_uri = parts;
  scheme = λ u. u.0;
  host = λ u. u.1;
  hostname = λ u. u.1;
  string_with_scheme = λ scheme u. u.1;
}

ks3_host : validate_endpoint web (text "ks3.example.test") ≡ none
unfolding validate_endpoint starts_with ends_with contains_text text_discrete any_text
ks3_host = refl

ks3-IsUsable : Ks3Typed.IsUsable web ks3_config 30 5000
unfolding text_discrete
ks3-IsUsable = record {
  has_bucket = refl;
  has_endpoint = refl;
  has_access_key = refl;
  has_secret_key = refl;
  good_endpoint = ks3_host;
  good_protocol = refl;
  good_connections = refl;
  good_timeout = refl;
  connections-lt = omega arith;
  timeout-lt = omega arith;
}

ks3_read_config-new_container_config_example :
    Ks3Settings.read_config web Ks3Settings.required_keys
      (map_or_empty (new_container_config (some (Ks3.backend_config ks3_config))).values)
    ≡ ok (Ks3Typed.settings_of ks3_config 30 5000)
ks3_read_config-new_container_config_example =
    Ks3Typed.ks3_read_config-new_container_config web ks3_config 30 5000 ks3-IsUsable

abbrev minio_config : Minio.Config
minio_config =
    Minio.with_credentials
      (Minio.with_endpoint (Minio.with_bucket Minio.new_config (text "docs"))
        (text "ks3.example.test"))
      (text "id") (text "secret")

minio-IsUsable : MinioTyped.IsUsable web minio_config
minio-IsUsable = record {
  has_bucket = refl;
  has_endpoint = refl;
  has_access_key = refl;
  has_secret_key = refl;
  good_endpoint = ks3_host;
}

minio_read_config-new_container_config_example :
    MinioSettings.read_config web MinioSettings.required_keys
      (map_or_empty (new_container_config (some (Minio.backend_config minio_config))).values)
    ≡ ok (MinioTyped.settings_of minio_config)
minio_read_config-new_container_config_example =
    MinioTyped.minio_read_config-new_container_config web minio_config minio-IsUsable

abbrev s3_config : S3.Config
s3_config =
    S3.with_credentials
      (S3.with_base_endpoint (S3.with_bucket S3.new_config (text "docs")) (text "http://s3.test"))
      (text "id") (text "secret")

s3-IsUsable : S3Typed.IsUsable web s3_config (text "http")
unfolding text_discrete starts_with
s3-IsUsable = record {
  has_bucket = refl;
  has_base_endpoint = refl;
  has_access_key_id = refl;
  has_secret_access_key = refl;
  good_base_endpoint = refl;
  good_protocol = refl;
}

s3_read_config-new_container_config_example :
    S3Settings.read_config web S3Settings.required_keys
      (map_or_empty (new_container_config (some (S3.backend_config s3_config))).values)
    ≡ ok (S3Typed.settings_of (text "http") s3_config)
s3_read_config-new_container_config_example =
    S3Typed.s3_read_config-new_container_config web s3_config (text "http") s3-IsUsable

abbrev pub aws_config : Aws.Config
aws_config =
    Aws.with_credentials (Aws.with_bucket Aws.new_config (text "docs")) (text "id") (text "secret")

aws-IsUsable : AwsTyped.IsUsable aws_config
aws-IsUsable = record { has_bucket = refl; has_credentials = refl; has_token = refl }

aws_read_config-new_container_config_example :
    AwsSettings.read_config
      (map_or_empty (new_container_config (some (Aws.backend_config aws_config))).values)
    ≡ ok (AwsTyped.settings_of aws_config)
aws_read_config-new_container_config_example =
    AwsTyped.aws_read_config-new_container_config aws_config aws-IsUsable

-- the required keys of backend/minio in two orders
abbrev swapped : List Text
swapped = text "endpoint" ∷ text "bucket" ∷ text "access_key" ∷ text "secret_key" ∷ []

abbrev no_values : Values
no_values = (text "bucket", text "docs") ∷ []

read_config-perm_example :
    (value_read (S3Settings.read_config web swapped no_values)
      ≡ value_read (S3Settings.read_config web MinioSettings.required_keys no_values))
    × (value_read (MinioSettings.read_config web swapped no_values)
        ≡ value_read (MinioSettings.read_config web MinioSettings.required_keys no_values))
    × (value_read (Ks3Settings.read_config web swapped no_values)
        ≡ value_read (Ks3Settings.read_config web MinioSettings.required_keys no_values))
read_config-perm_example =
    read_config-perm web no_values swapped MinioSettings.required_keys
      (Perm.swap (text "bucket") (text "endpoint") (text "access_key" ∷ text "secret_key" ∷ []))

abbrev pub idle_os : Os
idle_os = record {
  nodes = [];
  calls = 0;
  faults = λ n. none;
  written = λ n. 0;
  random = λ n. text "XYZ";
}

-- a backend with no clients, whose clients are numbers
abbrev no_clients : Cloud Text ℕ (Unit {0})
no_clients = record { clients = []; os = idle_os; remote = tt }

abbrev one_client : Cloud Text ℕ (Unit {0})
one_client = record { clients = (text "a", 1) ∷ []; os = idle_os; remote = tt }

first_client : client_for text_discrete (text "a") (pure 1) no_clients ≡ (ok 1, one_client)
unfolding client_for load_or_store lookup put text_discrete
first_client = refl

abbrev others : List (Text × ℕ)
others = (text "a", 2) ∷ (text "b", 3) ∷ []

client_for-stable_example :
    client_for text_discrete (text "a") (pure 4) (store_all text_discrete others one_client)
    ≡ (ok 1, store_all text_discrete others one_client)
client_for-stable_example =
    client_for-stable text_discrete (text "a") 1 (pure 1) (pure 4) no_clients one_client others
      first_client

abbrev later : ℕ
later = 5000000000

abbrev now : ℕ
now = 1500000000

url_seconds-later_example :
    (n : ℕ) × (m : ℕ) × (AliyunCloud.url_seconds (some later) now ≡ ok n)
    × (ObsCloud.url_seconds (some later) now ≡ ok n)
    × (n * second ≤ later - now)
    × (later - now < (n + 1) * second)
    × (Ks3Cloud.url_seconds (some later) now ≡ ok m)
    × (later - now ≤ m * second)
    × (m * second < later - now + second)
url_seconds-later_example = url_seconds-later later now (omega arith) (omega arith)

timeout_of-cases_example :
    ((9223372036855 ≤ 9223372036854)
      × (Ks3Cloud.timeout_of 9223372036855 ≡ some (pos (9223372036855 * 1000000))))
    ⊎ ((9223372036854 < 9223372036855)
        × (n : ℕ) × (Ks3Cloud.timeout_of 9223372036855 ≡ some (negsuc n)))
timeout_of-cases_example = timeout_of-cases 9223372036855 (omega arith) (omega arith)
