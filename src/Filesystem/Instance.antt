-- ===== src/Filesystem/Instance.antt =====
-- backend/filesystem/filesystem.go: the backend as the interface of backend.go sees it.
use sharp_store.Prelude.{true, false, some, List, [], ◌∷◌, Text, text}
use sharp_store.Errors.{Result}
use sharp_store.Backend.{Backend, ConfigOption}
use sharp_store.Os.{Os}
use sharp_store.FilePaths.{Platform}
use sharp_store.Filesystem.{
  base_url_key, validate_config, save, delete, exists, download, get_or_nil, access_url,
}
use sharp_store.Filesystem.ObjectPath.{root_key}

-- Name
abbrev pub backend_name : Text
backend_name = text "filesystem"

-- ConfigOptions
abbrev pub config_options : List ConfigOption
config_options =
    record {
      name = root_key;
      kind = text "string";
      required = true;
      example = text "D:/sharp-store";
      description = text "Root directory for stored objects.";
      sensitive = false;
    }
    ∷ record {
      name = base_url_key;
      kind = text "string";
      required = false;
      example = text "https://files.example.test";
      description = text "Optional public base URL for object access URLs.";
      sensitive = false;
    }
    ∷ []

-- New, on a platform; `join_url` is url.JoinPath
abbrev pub new_backend : (Text → Text → Result Text) → Platform → Backend Os
new_backend join_url platform = record {
  name = backend_name;
  save = save platform;
  delete = delete platform;
  exists = exists platform;
  download = download platform;
  get_or_nil = get_or_nil platform;
  access_url = access_url join_url platform;
  config_options = some config_options;
  validate_config = some (λ ctx values os. (validate_config (ctx os) values, os));
}
