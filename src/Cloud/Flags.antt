-- ===== src/Cloud/Flags.antt =====
-- Boolean values written by strconv.FormatBool and read by the readConfig functions.
use sharp_store.Prelude.{◌≡◌, refl, Bool, true, false, Text}
use sharp_store.Errors.{ok}
use sharp_store.Config.{Values, get_value}
use sharp_store.Providers.{format_bool}
use sharp_store.Providers.Flags.{parse_bool-format_bool}
use sharp_store.Cloud.Settings.{read_flag}

pub read_flag_of :
    (values : Values) (key : Text) (b : Bool)
    → get_value values key ≡ format_bool b
    → read_flag values key ≡ ok b
unfolding read_flag
read_flag_of values key true h = rw (h, parse_bool-format_bool true) refl
read_flag_of values key false h = rw (h, parse_bool-format_bool false) refl
