-- ===== src/Providers/Flags.antt =====
-- Boolean values written by strconv.FormatBool and read by the ParseConfig functions.
use sharp_store.Prelude.{◌≡◌, refl, Bool, true, false, Text, text_discrete}
use sharp_store.Errors.{ok}
use sharp_store.Config.{Values, get_value}
use sharp_store.Providers.{format_bool, parse_bool, parse_flag}

pub parse_bool-format_bool : (b : Bool) → parse_bool (format_bool b) ≡ ok b
unfolding parse_bool text_discrete
parse_bool-format_bool true = refl
parse_bool-format_bool false = refl

pub parse_flag_of :
    (values : Values) (key : Text) (b : Bool)
    → get_value values key ≡ format_bool b
    → parse_flag values key ≡ ok b
unfolding parse_flag
parse_flag_of values key true h = rw (h, parse_bool-format_bool true) refl
parse_flag_of values key false h = rw (h, parse_bool-format_bool false) refl
