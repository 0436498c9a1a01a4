-- ===== src/FileUtil.antt =====
-- backend/internal/fileutil/fileutil.go: WriteFile, on the file system of Os.antt.
use sharp_store.Prelude.{Bool, true, false, none, some, ◌++◌, Text, text, ℕ}
use sharp_store.Errors.{Outcome, Result, ok, err}
use sharp_store.Backend.{Reader}
use sharp_store.FilePaths.{dir, join_path}
use sharp_store.Os.{
  Os, Io, ◌>>=◌, ◌>>◌, mkdir_all, create_excl, copy_to, sync_or_close, rename, remove, random_text,
  with_deferred, ignore,
}

-- 0o644
abbrev pub file_mode : ℕ
file_mode = 0o644

-- filepath.Join(directory, ".sharp-store-"+rand.Text())
abbrev pub temporary_in : Text → Text → Text
temporary_in directory name = join_path directory (text ".sharp-store-" ++ name)

-- what is done in any case when a save or a download ends: the file is closed once more, and
-- removed
unfoldable pub cleanup : Text → Io (Unit {0})
unfolding ◌>>=◌ ignore sync_or_close remove
cleanup temporary = do ignore sync_or_close; ignore (remove temporary)

abbrev pub outcome_of : Result (Unit {0}) → Outcome
outcome_of (ok u) = none
outcome_of (err e) = some e

abbrev pub after_copied : Result (Unit {0}) → Io (Unit {0}) → Os → (Bool × Outcome) × Os
after_copied (err e) publish os = ((false, some e), os)
after_copied (ok u) publish os = let (r, os') = publish os in ((true, outcome_of r), os')

-- the part of WriteFile that the deferred calls follow
unfoldable pub write_and_rename : Text → Text → Reader → Os → (Bool × Outcome) × Os
unfolding ◌>>=◌ copy_to sync_or_close rename
write_and_rename temporary destination reader os =
    let (r, os') = copy_to temporary reader os in
    after_copied r (do sync_or_close; sync_or_close; rename temporary destination) os'

abbrev pub after_created :
    Result Text → (Text → Os → (Bool × Outcome) × Os) → Os → (Bool × Outcome) × Os
after_created (err e) rest os = ((false, some e), os)
after_created (ok temporary) rest os = rest temporary os

-- MkdirAll, and a new temporary file in the directory, whose path is returned
unfoldable pub create_temporary : Text → Io Text
unfolding ◌>>=◌ mkdir_all create_excl random_text
create_temporary directory = do
  mkdir_all directory
  name ← random_text
  create_excl (temporary_in directory name) file_mode
  λ os. (ok (temporary_in directory name), os)

-- WriteFile
unfoldable pub write_file : Text → Reader → Os → (Bool × Outcome) × Os
unfolding create_temporary write_and_rename with_deferred cleanup dir join_path
write_file destination reader os =
    let (r, os') = create_temporary (dir destination) os in
    after_created r
      (λ temporary.
        with_deferred (write_and_rename temporary destination reader) (cleanup temporary))
      os'
