-- ===== src/Examples/Files.antt =====
-- Files of backend/filesystem at concrete keys, and configurations of the backends.
use mathlib.Core.Bool.{xor}
use mathlib.Core.List.{lookup}
use sharp_store.Prelude.{
  [], ℕ, ◌≢◌, sym, ◌∙◌, false, none, ◌∷◌, ◌==◌, if◌then◌else◌, ◌≡◌, refl, some, Text, text,
  text_discrete,
}
use sharp_store.Prelude.Maps.{put}
use sharp_store.Errors.{Error, ok, message}
use sharp_store.Config.{config_value, get_value}
use sharp_store.Backend.{FileRequest, SaveRequest, Reader}
use sharp_store.Os.{Os, file}
use sharp_store.Os.Files.{file_at}
use sharp_store.Filesystem.Downloads.{write_file_keeps_destination}
use sharp_store.Filesystem.Complete.{save_complete}
use sharp_store.FileUtil.{temporary_in, write_file}
use sharp_store.FilePaths.{dir, join_path, Platform, is_windows, unix_paths}
use sharp_store.Filesystem.Existing.{save_keeps_existing}
use sharp_store.Filesystem.{save}
use sharp_store.Filesystem.ObjectPath.{file_path, root_key}
use sharp_store.Filesystem.Containment.{IsInside, file_path-IsInside}
use sharp_store.Examples.{acme, alive, scoped_config, request_of}

abbrev keyed : Text → FileRequest Os
keyed key = record (request_of acme (text "a//b")) { key = key }

-- where the path functions of Windows are never called
abbrev linux : Platform
linux = record { goos = text "linux"; windows_paths = unix_paths }

not_windows : is_windows linux ≡ false
unfolding text_discrete
not_windows = refl

path_of_key : file_path linux (keyed (text "acme/a//b")) ≡ ok (text "/data/acme/a/b")
unfolding file_path text_discrete get_value lookup xor
path_of_key = refl

file_path-IsInside_example : IsInside (config_value scoped_config root_key) (text "/data/acme/a/b")
file_path-IsInside_example =
    file_path-IsInside linux (keyed (text "acme/a//b")) (text "/data/acme/a/b") not_windows
      path_of_key

-- a file system with one file, in which the fifth call fails
abbrev one_file : Os
one_file = record {
  nodes = (text "/data/acme/a", file (104 ∷ 105 ∷ []) 0o600) ∷ [];
  calls = 0;
  faults = λ n. if n == 4 then some (message "no space left on device" []) else none;
  written = λ _. 1;
  random = λ _. text "XYZ";
}

abbrev save_again : SaveRequest Os
save_again = record {
  file = keyed (text "acme/a");
  body = some (record { content = 98 ∷ 121 ∷ 101 ∷ []; failure = none });
  overwrite = false;
}

it_is_there : file_at (text "/data/acme/a") one_file ≡ some (104 ∷ 105 ∷ [], 0o600)
unfolding file_at lookup text_discrete
it_is_there = refl

save_keeps_existing_example :
    file_at (text "/data/acme/a") (save linux alive save_again one_file).1
    ≡ some (104 ∷ 105 ∷ [], 0o600)
save_keeps_existing_example =
    save_keeps_existing linux alive save_again one_file (text "/data/acme/a") (104 ∷ 105 ∷ []) 0o600
      refl it_is_there

abbrev bye : Reader
bye = record { content = 98 ∷ 121 ∷ 101 ∷ []; failure = none }

abbrev disk_full : Error
disk_full = message "no space left on device" []

it_fails : (write_file (text "/data/acme/a") bye one_file).0.1 ≡ some disk_full
unfolding write_file text_discrete lookup xor put
it_fails = refl

write_file_keeps_destination_example :
    file_at (text "/data/acme/a") (write_file (text "/data/acme/a") bye one_file).1
    ≡ some (104 ∷ 105 ∷ [], 0o600)
write_file_keeps_destination_example =
    write_file_keeps_destination (text "/data/acme/a") bye one_file (104 ∷ 105 ∷ []) 0o600 disk_full
      it_is_there it_fails

abbrev healthy : Os
healthy = record one_file { faults = λ n. none }

abbrev save_new : SaveRequest Os
save_new = record save_again { file = keyed (text "acme/b") }

path_of_new : file_path linux (keyed (text "acme/b")) ≡ ok (text "/data/acme/b")
unfolding file_path text_discrete get_value lookup xor
path_of_new = refl

temporary_name :
    temporary_in (dir (text "/data/acme/b")) (text "XYZ") ≡ text "/data/acme/.sharp-store-XYZ"
unfolding dir join_path xor text_discrete
temporary_name = refl

names_differ : text "/data/acme/.sharp-store-XYZ" ≢ text "/data/acme/b"
names_differ = λ e. cc

temporary_is_other :
    (i : ℕ) → temporary_in (dir (text "/data/acme/b")) (text "XYZ") ≢ text "/data/acme/b"
temporary_is_other i = λ e. names_differ (sym temporary_name ∙ e)

abbrev after_save : Os
after_save = (save linux alive save_new healthy).1

it_succeeds : save linux alive save_new healthy ≡ ((text "a//b", none), after_save)
unfolding save text_discrete get_value lookup xor put
it_succeeds = refl

save_complete_example :
    (body : Reader) × (save_new.body ≡ some body)
    × ((mode : ℕ) × (file_at (text "/data/acme/b") after_save ≡ some (body.content, mode)))
    × (text "a//b" ≡ save_new.file_id)
    × (body.failure ≡ none)
save_complete_example =
    save_complete linux alive save_new (text "/data/acme/b") (text "a//b") healthy after_save
      path_of_new temporary_is_other it_succeeds
