-- ===== src/Filesystem/ObjectPath.antt =====
-- (*Backend).path of backend/filesystem/filesystem.go: the path of an object's file.
use sharp_store.Prelude.{◌||◌, none, [], ◌∷◌, ◌++◌, Text, text, same, is_empty, if◌then◌else◌}
use sharp_store.Prelude.Texts.{fields, any_text, is_separator}
use sharp_store.Errors.{Error, Result, ok, err, check, message, ◌>>=◌ as ◌>>=ᵣ◌}
use sharp_store.Config.{config_value}
use sharp_store.Backend.{FileRequest}
use sharp_store.FilePaths.{
  is_up, has_prefix, clean, join_path, rel, PathFunctions, Platform, is_windows, paths_of,
}
use sharp_store.Os.{Os}
use sharp_store.Filesystem.WindowsKeys.{check_windows_key}

abbrev pub root_key : Text
root_key = text "root"

abbrev pub invalid_key : Text → Error
invalid_key key = message "invalid object key %q" (key ∷ [])

-- ".."+string(filepath.Separator)
abbrev pub up_prefix : PathFunctions → Text
up_prefix fs = text ".." ++ fs.separator ∷ []

-- the tests on filepath.Clean(filepath.FromSlash(request.Key))
abbrev pub check_cleaned : PathFunctions → Text → Text → Result Text
check_cleaned fs key cleaned =
    if same cleaned (text ".")
      || same cleaned (text "..")
      || fs.is_abs cleaned
      || has_prefix cleaned (up_prefix fs)
    then err (invalid_key key)
    else ok cleaned

-- the key as a clean relative path, if it is one that goes nowhere up
unfoldable pub clean_key : PathFunctions → Text → Result Text
unfolding fields any_text has_prefix
clean_key fs key =
    if any_text is_up (fields is_separator key)
    then err (invalid_key key)
    else check_cleaned fs key (fs.clean (fs.from_slash key))

abbrev pub check_relative : PathFunctions → Text → Text → Text → Result Text
check_relative fs key path relative =
    if same relative (text "..") || has_prefix relative (up_prefix fs) || fs.is_abs relative
    then err (message "object key escapes configured root: %q" (key ∷ []))
    else ok path

-- path
unfoldable pub file_path : Platform → FileRequest Os → Result Text
unfolding clean_key clean join_path rel check_windows_key
file_path platform r =
    let root = config_value r.config root_key in
    let fs = paths_of platform in
    if is_empty root
    then err (message "%s configuration is required" (root_key ∷ []))
    else check (if is_windows platform then check_windows_key r.key else none) >>=ᵣ λ _.
        clean_key fs r.key >>=ᵣ λ key. fs.rel root (fs.join_path root key) >>=ᵣ λ relative.
        check_relative fs r.key (fs.join_path root key) relative
