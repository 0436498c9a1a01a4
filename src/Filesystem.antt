-- ===== src/Filesystem.antt =====
-- backend/filesystem/filesystem.go: the backend that keeps objects as files, on the file system of
-- Os.antt. A key becomes a path by the path functions of the platform. What is then done with that
-- path (its directory, the name of the temporary file, the files themselves) is as on Unix.
pub mod WindowsKeys
pub mod ObjectPath
pub mod Containment
pub mod Existing
pub mod Downloads
pub mod Complete
pub mod Instance
use mathlib.Core.List.{lookup}
use sharp_store.Prelude.{
  ℕ, Bool, true, false, ◌||◌, not, Option, none, some, List, [], ◌∷◌, ◌++◌, Text, text, same,
  is_empty, if◌then◌else◌,
}
use sharp_store.Prelude.Texts.{fields, any_text, is_separator}
use sharp_store.Errors.{
  Error, Outcome, Result, ok, err, check, sentinel, message, wrap, is_error, ◌>>=◌ as ◌>>=ᵣ◌, exist,
  not_exist, file_exists, file_not_found, unsupported,
}
use sharp_store.Scope.{Context}
use sharp_store.Config.{Values, config_value, get_value}
use sharp_store.Backend.{
  Backend, Reader, FileRequest, SaveRequest, DownloadRequest, AccessUrlRequest,
}
use sharp_store.FilePaths.{
  is_up, has_prefix, clean, join_path, rel, dir, PathFunctions, Platform, is_windows, paths_of,
}
use sharp_store.FileUtil.{temporary_in, file_mode, cleanup, write_file}
use sharp_store.Os.{
  Os, Io, Node, file, directory, ◌>>=◌, ◌>>◌, pure, lift, stat, mkdir_all, create_excl, chmod,
  copy_to, sync_or_close, rename, link, remove, open_path, random_text, with_deferred,
}
use ObjectPath.{root_key, file_path}

abbrev pub base_url_key : Text
base_url_key = text "base_url"

-- ValidateConfig
unfoldable pub validate_config : Outcome → Values → Outcome
unfolding get_value
validate_config (some e) values = some e
validate_config none values =
    if is_empty (get_value values root_key) then some (message "root is required" []) else none

-- `if err := ctx.Err(); err != nil { return zero, err }`
unfoldable pub alive : Context Os → Io (Unit {0})
alive ctx os = (check (ctx os), os)

abbrev pub required : Option Reader → Result Reader
required none = err (message "file body is required" [])
required (some body) = ok body

-- A result as the value and the error that the method returns.
abbrev pub returned : {A : Type 0} → A → Result A × Os → (A × Outcome) × Os
returned zero (ok a, os) = ((a, none), os)
returned zero (err e, os) = ((zero, some e), os)

abbrev pub mode_of : Node → Option ℕ
mode_of (file c mode) = some mode
mode_of directory = some 0o755

abbrev pub mode_if_exists : Result Node → Result (Option ℕ)
mode_if_exists (ok n) = ok (mode_of n)
mode_if_exists (err e) = if is_error not_exist e then ok none else err e

-- the permission bits of the file that is to be overwritten
unfoldable pub original_mode : Bool → Text → Io (Option ℕ)
unfolding stat is_error
original_mode false path os = (ok none, os)
original_mode true path os = let (r, os') = stat path os in (mode_if_exists r, os')

unfoldable pub restore_mode : Text → Option ℕ → Io (Unit {0})
unfolding chmod
restore_mode temporary none os = (ok tt, os)
restore_mode temporary (some mode) os = chmod temporary mode os

abbrev pub placed : Text → Result (Unit {0}) → Result Text
placed file_id (ok u) = ok file_id
placed file_id (err e) =
    if is_error exist e then err (wrap (sentinel file_exists) "%s" (file_id ∷ [])) else err e

-- The complete file is renamed or linked to the path of the object.
unfoldable pub place : Bool → Text → Text → Text → Io Text
unfolding rename link is_error
place overwrite temporary path file_id os =
    let (r, os') = (if overwrite then rename temporary path else link temporary path) os in
    (placed file_id r, os')

-- the part of Save that the deferred calls follow
unfoldable pub publish : Context Os → SaveRequest Os → Reader → Text → Text → Option ℕ → Io Text
unfolding ◌>>=◌ restore_mode copy_to sync_or_close alive place
publish ctx r body path temporary mode = do
  restore_mode temporary mode
  copy_to temporary body
  sync_or_close
  sync_or_close
  alive ctx
  place r.overwrite temporary path r.file_id

unfoldable pub save_file : Platform → Context Os → SaveRequest Os → Io Text
unfolding ◌>>=◌ alive file_path dir mkdir_all original_mode random_text create_excl with_deferred
    publish cleanup join_path
save_file platform ctx r = do
  alive ctx
  body ← lift (required r.body)
  path ← lift (file_path platform r.file)
  mkdir_all (dir path)
  mode ← original_mode r.overwrite path
  name ← random_text
  create_excl (temporary_in (dir path) name) file_mode
  with_deferred (publish ctx r body path (temporary_in (dir path) name) mode)
      (cleanup (temporary_in (dir path) name))

-- Save
unfoldable pub save : Platform → Context Os → SaveRequest Os → Os → (Text × Outcome) × Os
unfolding save_file
save platform ctx r os = returned [] (save_file platform ctx r os)

-- os.ErrNotExist as "nothing there"
abbrev pub absent_if_missing : {A : Type 0} → A → Result A → Result A
absent_if_missing absent (ok a) = ok a
absent_if_missing absent (err e) = if is_error not_exist e then ok absent else err e

unfoldable pub tolerant : {A : Type 0} → A → Io A → Io A
unfolding is_error
tolerant absent m os = let (r, os') = m os in (absent_if_missing absent r, os')

abbrev pub remove_object : Text → Node → Io Bool
remove_object path directory = pure false
remove_object path (file c mode) = remove path >>= λ u. pure true

unfoldable pub delete_file : Platform → Context Os → FileRequest Os → Io Bool
unfolding ◌>>=◌ alive file_path tolerant stat remove
delete_file platform ctx r = do
  alive ctx
  path ← lift (file_path platform r)
  tolerant false (stat path >>= remove_object path)

-- Delete
unfoldable pub delete : Platform → Context Os → FileRequest Os → Os → (Bool × Outcome) × Os
unfolding delete_file
delete platform ctx r os = returned false (delete_file platform ctx r os)

abbrev pub is_object : Node → Bool
is_object directory = false
is_object (file c mode) = true

unfoldable pub object_exists : Platform → Context Os → FileRequest Os → Io Bool
unfolding ◌>>=◌ alive file_path tolerant stat
object_exists platform ctx r = do
  alive ctx
  path ← lift (file_path platform r)
  tolerant false (stat path >>= λ n. pure (is_object n))

-- Exists
unfoldable pub exists : Platform → Context Os → FileRequest Os → Os → (Bool × Outcome) × Os
unfolding object_exists
exists platform ctx r os = returned false (object_exists platform ctx r os)

-- What reading an opened path gives, after (*os.File).Stat has told a directory or has failed.
abbrev pub reader_of : Node → Result (Unit {0}) → Option Reader
reader_of (file c mode) r = some (record { content = c; failure = none })
reader_of directory (ok u) = none
reader_of directory (err e) =
    some (record { content = []; failure = some (message "read: is a directory" []) })

unfoldable pub read_opened : Node → Io (Option Reader)
unfolding sync_or_close
read_opened n os = let (r, os') = sync_or_close os in (ok (reader_of n r), os')

unfoldable pub open_object : Platform → Context Os → FileRequest Os → Io (Option Reader)
unfolding ◌>>=◌ alive file_path tolerant open_path read_opened
open_object platform ctx r = do
  alive ctx
  path ← lift (file_path platform r)
  tolerant none (open_path path >>= read_opened)

-- GetOrNil
unfoldable pub get_or_nil :
    Platform → Context Os → FileRequest Os → Os → (Option Reader × Outcome) × Os
unfolding open_object
get_or_nil platform ctx r os = returned none (open_object platform ctx r os)

abbrev pub write_download : Text → (Option Reader × Outcome) × Os → (Bool × Outcome) × Os
write_download destination ((o, some e), os) = ((false, some e), os)
write_download destination ((none, none), os) = ((false, none), os)
write_download destination ((some reader, none), os) = write_file destination reader os

abbrev pub if_alive :
    {A : Type 0} → A → Outcome → (Os → (A × Outcome) × Os) → Os → (A × Outcome) × Os
if_alive zero none m os = m os
if_alive zero (some e) m os = ((zero, some e), os)

-- Download
unfoldable pub download : Platform → Context Os → DownloadRequest Os → Os → (Bool × Outcome) × Os
unfolding get_or_nil write_file
download platform ctx r os =
    if_alive false (ctx os)
      (λ os₁. write_download r.destination (get_or_nil platform ctx r.file os₁)) os

abbrev pub url_if : (Text → Text → Result Text) → AccessUrlRequest Os → Bool → Result Text
url_if join_url r false = err (sentinel file_not_found)
url_if join_url r true =
    let base = config_value r.config base_url_key in
    if is_empty base then err (sentinel unsupported) else join_url base r.key

unfoldable pub object_url :
    (Text → Text → Result Text) → Platform → Context Os → AccessUrlRequest Os → Io Text
unfolding ◌>>=◌ alive object_exists
object_url join_url platform ctx r = do
  alive ctx
  there ← (if r.check_exists then object_exists platform ctx r.file else pure true)
  lift (url_if join_url r there)

-- AccessURL, where `join_url` is url.JoinPath
unfoldable pub access_url :
    (Text → Text → Result Text)
    → Platform
    → Context Os
    → AccessUrlRequest Os
    → Os
    → (Text × Outcome) × Os
unfolding object_url
access_url join_url platform ctx r os = returned [] (object_url join_url platform ctx r os)
