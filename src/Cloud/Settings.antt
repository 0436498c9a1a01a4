-- ===== src/Cloud/Settings.antt =====
-- What the cloud backends read of a configuration's values, of an expiry and of an error of an SDK.
use sharp_store.Prelude.{
  [], ℕ, ◌-◌, Bool, false, Option, none, some, List, ◌∷◌, Text, same, is_empty, if◌then◌else◌, leb,
}
use sharp_store.Errors.{Error, Outcome, Result, ok, err, sentinel, message, wrap, invalid_config}
use sharp_store.Config.{Values, ContainerConfig, get_value, map_or_empty}
use sharp_store.Backend.{ConfigOption}
use sharp_store.Providers.{parse_bool}
use sharp_store.Prelude.Texts.{any_text}

-- What errors.As finds in an error of an SDK: the provider's code, and the status of the response.
pub record ServiceError : Type 0 where
  pub code : Text
  pub status_code : ℕ
  pub status : Text

-- `errors.As(err, &e) && ...`
abbrev pub is_service : (ServiceError → Bool) → Option ServiceError → Bool
is_service p none = false
is_service p (some e) = p e

-- `e.Code == ... || ...`
abbrev pub has_code : List Text → ServiceError → Bool
has_code codes e = any_text (same e.code) codes

-- the Boolean that strconv.ParseBool returns, whose error is dropped
abbrev pub flag_or_false : Result Bool → Bool
flag_or_false (ok b) = b
flag_or_false (err e) = false

abbrev pub boolean_or : Text → Result Bool → Result Bool
boolean_or key (ok b) = ok b
boolean_or key (err e) = err (message "%s must be a boolean" (key ∷ []))

-- `if value != "" { if _, err := strconv.ParseBool(value); err != nil { ... } }`
unfoldable pub read_flag : Values → Text → Result Bool
unfolding get_value parse_bool
read_flag values key =
    if is_empty (get_value values key)
    then ok false
    else boolean_or key (parse_bool (get_value values key))

-- request.Config.Values
abbrev pub values_in : ContainerConfig → Values
values_in c = map_or_empty c.values

-- the first of the keys that has no value
unfoldable pub missing_value : List Text → Values → Outcome
unfolding get_value
missing_value [] values = none
missing_value (k ∷ ks) values =
    if is_empty (get_value values k)
    then some (message "%s is required" (k ∷ []))
    else missing_value ks values

abbrev pub second : ℕ
second = 1000000000

abbrev pub past_error : Error
past_error = message "access URL expiry is in the past" []

abbrev pub past_config_error : Error
past_config_error = wrap (sentinel invalid_config) "access URL expiry is in the past" []

-- time.Until and its test: the nanoseconds that are left, if there are any
abbrev pub time_left : Error → ℕ → ℕ → Result ℕ
time_left past expires_at now = if leb expires_at now then err past else ok (expires_at - now)

abbrev pub map_result : {A B : Type 0} → (A → B) → Result A → Result B
map_result f (ok a) = ok (f a)
map_result f (err e) = err e

-- `if request.ExpiresAt != nil`: `f` of the time that is left, or the default
abbrev pub time_left_or : {A : Type 0} → Error → (ℕ → A) → A → Option ℕ → ℕ → Result A
time_left_or past f default none now = ok default
time_left_or past f default (some expires_at) now = map_result f (time_left past expires_at now)

abbrev pub config_option : Text → Text → Bool → Bool → Text → Text → ConfigOption
config_option name kind required sensitive example description = record {
  name = name;
  kind = kind;
  required = required;
  example = example;
  description = description;
  sensitive = sensitive;
}
