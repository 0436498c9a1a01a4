-- ===== src/Filesystem/WindowsKeys.antt =====
-- checkWindowsKey of backend/filesystem/filesystem.go.
use sharp_store.Prelude.{
  ℕ, ◌-◌, ◌+◌, zero, suc, Bool, false, ◌&&◌, ◌||◌, none, some, List, [], ◌∷◌, ◌++◌, Text, text,
  same, if◌then◌else◌, leb, ◌==◌,
}
use sharp_store.Prelude.Texts.{fields, any_text, contains, is_separator, dot}
use sharp_store.Errors.{Outcome, message}

-- strings.ToUpper on a byte; no letter outside ASCII becomes one of the reserved names.
abbrev pub to_upper : ℕ → ℕ
to_upper c = if leb b'a' c && leb c b'z' then c - 32 else c

abbrev pub upper : Text → Text
upper [] = []
upper (c ∷ s) = to_upper c ∷ upper s

-- the text before its first dot
unfoldable pub before_dot : Text → Text
before_dot [] = []
before_dot (c ∷ s) = let rest = before_dot s in if c == dot then [] else c ∷ rest

abbrev pub last_is : ℕ → Text → Bool
last_is b [] = false
last_is b (c ∷ []) = c == b
last_is b (c ∷ d ∷ s) = last_is b (d ∷ s)

-- the names with the digits n to 1, as the loop of init adds them
abbrev pub numbered : ℕ → List Text
numbered zero = []
numbered (suc n) = (text "COM" ++ (49 + n) ∷ []) ∷ (text "LPT" ++ (49 + n) ∷ []) ∷ numbered n

-- windowsReservedBaseNames after init
unfoldable pub reserved_base_names : List Text
reserved_base_names = text "CON" ∷ text "PRN" ∷ text "AUX" ∷ text "NUL" ∷ numbered 9

unfoldable pub is_reserved : Text → Bool
unfolding any_text reserved_base_names
is_reserved s = any_text (same s) reserved_base_names

abbrev is_colon : ℕ → Bool
is_colon c = c == b':'

unfoldable pub check_windows_segment : Text → Text → Outcome
unfolding contains before_dot is_reserved
check_windows_segment key s =
    if contains is_colon s
    then some (
        message "object key %q contains ':' which Windows cannot store as a regular file"
          (key ∷ []))
    else if is_reserved (upper (before_dot s))
    then some (message "object key %q uses a reserved Windows device name" (key ∷ []))
    else if last_is dot s || last_is b' ' s
    then some (
        message
          "object key %q has a segment ending in '.' or ' ' which Windows strips from file names"
          (key ∷ []))
    else none

abbrev pub first_error : Outcome → Outcome → Outcome
first_error (some e) rest = some e
first_error none rest = rest

unfoldable pub check_windows_segments : Text → List Text → Outcome
unfolding check_windows_segment
check_windows_segments key [] = none
check_windows_segments key (s ∷ ss) =
    first_error (check_windows_segment key s) (check_windows_segments key ss)

-- checkWindowsKey
unfoldable pub check_windows_key : Text → Outcome
unfolding check_windows_segments fields
check_windows_key key = check_windows_segments key (fields is_separator key)
