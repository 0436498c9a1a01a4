-- ===== src/Providers.antt =====
-- What the ParseConfig functions of backend/*/config.go share: the check of the backend's name and
-- the Boolean values, with strconv.FormatBool and strconv.ParseBool of the Go library.
pub mod Flags
pub mod Integers
pub mod Ks3
pub mod RoundTrip
pub mod Files
pub mod Aliyun
pub mod Azure
pub mod Obs
pub mod Aws
pub mod Minio
pub mod S3
use sharp_store.Prelude.{
  Bool, true, false, Option, none, some, List, [], ◌∷◌, Text, text, same, is_empty, if◌then◌else◌,
}
use sharp_store.Prelude.Texts.{any_text}
use sharp_store.Errors.{
  Error, Result, ok, err, sentinel, message, wrap, wrap_cause, invalid_config, check, Outcome,
}
use sharp_store.Config.{Values, get_value}

-- strconv.FormatBool
abbrev pub format_bool : Bool → Text
format_bool true = text "true"
format_bool false = text "false"

abbrev pub truths : List Text
truths = text "1" ∷ text "t" ∷ text "T" ∷ text "true" ∷ text "TRUE" ∷ text "True" ∷ []

abbrev pub untruths : List Text
untruths = text "0" ∷ text "f" ∷ text "F" ∷ text "false" ∷ text "FALSE" ∷ text "False" ∷ []

-- strconv.ParseBool
unfoldable pub parse_bool : Text → Result Bool
unfolding any_text
parse_bool s =
    if any_text (same s) truths
    then ok true
    else if any_text (same s) untruths
    then ok false
    else err (message "strconv.ParseBool: parsing %q: invalid syntax" (s ∷ []))

abbrev pub bad_value : Text → Error → Error
bad_value key e = wrap_cause (sentinel invalid_config) "%s: %v" (key ∷ []) e

abbrev pub explained : Text → Result Bool → Result Bool
explained key (ok b) = ok b
explained key (err e) = err (bad_value key e)

-- parseBool, parseConfigBool: a Boolean value, which is false when it is absent or empty
unfoldable pub parse_flag : Values → Text → Result Bool
unfolding get_value parse_bool
parse_flag values key =
    if is_empty (get_value values key)
    then ok false
    else explained key (parse_bool (get_value values key))

-- `if config.Backend != Name`
unfoldable pub expect_backend : Text → Text → Outcome
expect_backend name got =
    if same got name
    then none
    else some (wrap (sentinel invalid_config) "expected backend %q, got %q" (name ∷ got ∷ []))
