-- ===== src/Os.antt =====
-- The calls of the Go library's os, io and crypto/rand that backend/filesystem/filesystem.go and
-- backend/internal/fileutil/fileutil.go make. Every call can fail: `faults` says with which error
-- the n-th call fails, if it does, before it has an effect (a copy may have written a part). Nobody
-- else acts on the files in the meantime.
pub mod Files
pub mod Success
use mathlib.Core.List.{lookup}
use sharp_store.Prelude.{
  ℕ, zero, suc, Bool, true, false, Option, none, some, List, [], ◌∷◌, ◌++◌, Text, text, Map,
  text_discrete, same, is_empty, if◌then◌else◌, ◌==◌,
}
use sharp_store.Prelude.Texts.{slash, is_slash, any_text}
use sharp_store.Prelude.Maps.{put, delete}
use sharp_store.Errors.{Error, Outcome, Result, ok, err, sentinel, message, not_exist, exist}
use sharp_store.Backend.{Reader}

-- What a path names. `mode` has the permission bits.
pub data Node : Type 0 where
  file : List ℕ → ℕ → Node
  directory : Node

pub record Os : Type 0 where
  pub nodes : Map Text Node
  pub calls : ℕ
  pub faults : ℕ → Outcome
  -- how much a failing copy has written, and what rand.Text gives
  pub written : ℕ → ℕ
  pub random : ℕ → Text

abbrev pub Io : Type 0 → Type 0
Io A = Os → Result A × Os

module _ {A B : Type 0} where
  abbrev pub continue : Result A → (A → Io B) → Io B
  continue (ok a) f os = f a os
  continue (err e) f os = (err e, os)

  infixl 5 ◌>>=◌ ◌>>◌
  unfoldable pub ◌>>=◌ : Io A → (A → Io B) → Io B
  ◌>>=◌ m f os = let (r, os') = m os in continue r f os'

  abbrev pub ◌>>◌ : Io A → Io B → Io B
  m >> n = m >>= λ _. n

module _ {A : Type 0} where
  abbrev pub pure : A → Io A
  pure a os = (ok a, os)

  abbrev pub lift : Result A → Io A
  lift r os = (r, os)

  abbrev pub or_fault : Outcome → Io A → (Os → Os) → Io A
  or_fault none m partial os = m os
  or_fault (some e) m partial os = (err e, partial os)

  -- one call, and what it has done if it fails
  abbrev pub call_or : (Os → Os) → Io A → Io A
  call_or partial m os =
      or_fault (os.faults os.calls) m partial (record os { calls = suc os.calls })

  abbrev pub call : Io A → Io A
  call = call_or (λ os. os)

abbrev pub at_path : Text → Os → Option Node
at_path p os = lookup text_discrete p os.nodes

abbrev pub set_node : Text → Node → Os → Os
set_node p n os = record os { nodes = put text_discrete p n os.nodes }

abbrev pub drop_node : Text → Os → Os
drop_node p os = record os { nodes = delete text_discrete p os.nodes }

abbrev fail_with : {A : Type 0} → Error → Io A
fail_with e os = (err e, os)

abbrev found_or : {A : Type 0} → Option Node → (Node → Io A) → Io A
found_or none f = fail_with (sentinel not_exist)
found_or (some n) f = f n

abbrev make_at : Text → Option Node → Io (Unit {0})
make_at p none os = (ok tt, set_node p directory os)
make_at p (some directory) os = (ok tt, os)
make_at p (some (file c m)) os = (err (message "mkdir %s: not a directory" (p ∷ [])), os)

-- the directories of a path, from the root on: every part before a slash, and the path itself
abbrev extend_all : ℕ → List Text → List Text
extend_all c [] = []
extend_all c (p ∷ ps) = (c ∷ p) ∷ extend_all c ps

unfoldable pub ancestors : Text → List Text
ancestors [] = [] ∷ []
ancestors (c ∷ s) = let rest = extend_all c (ancestors s) in if is_slash c then [] ∷ rest else rest

-- the directories above a path
abbrev all_but_last : List Text → List Text
all_but_last [] = []
all_but_last (p ∷ []) = []
all_but_last (p ∷ q ∷ ps) = p ∷ all_but_last (q ∷ ps)

abbrev is_file : Option Node → Bool
is_file (some (file c m)) = true
is_file _ = false

-- Something above the path is a file, so that nothing can be at the path.
unfoldable pub under_file : Text → Os → Bool
unfolding ancestors any_text
under_file p os = any_text (λ d. is_file (at_path d os)) (all_but_last (ancestors p))

-- os.Stat, where a path below a file is no case of os.ErrNotExist
unfoldable pub stat : Text → Io Node
unfolding under_file
stat p = call λ os.
    if under_file p os
    then fail_with (message "stat %s: not a directory" (p ∷ [])) os
    else found_or (at_path p os) pure os

-- os.Mkdir, unless the directory is there
unfoldable pub make_dir : Text → Io (Unit {0})
make_dir p os = if is_empty p then (ok tt, os) else make_at p (at_path p os) os

unfoldable pub make_all : List Text → Io (Unit {0})
unfolding ◌>>=◌ make_dir
make_all [] = pure tt
make_all (p ∷ ps) = make_dir p >> make_all ps

-- os.MkdirAll
unfoldable pub mkdir_all : Text → Io (Unit {0})
unfolding make_all ancestors
mkdir_all p = call (make_all (ancestors p))

abbrev pub create_at : Text → ℕ → Option Node → Io (Unit {0})
create_at p mode none os = (ok tt, set_node p (file [] mode) os)
create_at p mode (some n) os = (err (sentinel exist), os)

-- os.OpenFile with O_WRONLY, O_CREATE and O_EXCL
unfoldable pub create_excl : Text → ℕ → Io (Unit {0})
create_excl p mode = call (λ os. create_at p mode (at_path p os) os)

abbrev pub chmod_at : Text → ℕ → Option Node → Io (Unit {0})
chmod_at p mode (some (file c m)) os = (ok tt, set_node p (file c mode) os)
chmod_at p mode _ os = (err (sentinel not_exist), os)

-- (*os.File).Chmod on the file that was created at the path
unfoldable pub chmod : Text → ℕ → Io (Unit {0})
chmod p mode = call (λ os. chmod_at p mode (at_path p os) os)

abbrev pub append_at : Text → List ℕ → Option Node → Os → Os
append_at p c (some (file d m)) os = set_node p (file (d ++ c) m) os
append_at p c _ os = os

unfoldable pub append_to : Text → List ℕ → Os → Os
append_to p c os = append_at p c (at_path p os) os

abbrev pub after_copy : Outcome → Os → Result (Unit {0}) × Os
after_copy none os = (ok tt, os)
after_copy (some e) os = (err e, os)

unfoldable pub take_bytes : ℕ → List ℕ → List ℕ
take_bytes zero c = []
take_bytes (suc n) [] = []
take_bytes (suc n) (b ∷ c) = b ∷ take_bytes n c

-- io.Copy from a reader to the file that was created at the path: it fails with the reader, or in
-- the middle of a write.
unfoldable pub copy_to : Text → Reader → Io (Unit {0})
unfolding append_to take_bytes
copy_to p r =
    call_or (λ os. append_to p (take_bytes (os.written os.calls) r.content) os)
      (λ os. after_copy r.failure (append_to p r.content os))

-- (*os.File).Sync and (*os.File).Close
unfoldable pub sync_or_close : Io (Unit {0})
sync_or_close = call (pure tt)

abbrev pub rename_to : Text → Text → Option Node → Option Node → Io (Unit {0})
rename_to p q none d os = (err (sentinel not_exist), os)
rename_to p q (some n) (some directory) os = (err (sentinel exist), os)
rename_to p q (some n) d os = (ok tt, set_node q n (drop_node p os))

-- os.Rename of a file: it replaces a file, and not a directory
unfoldable pub rename : Text → Text → Io (Unit {0})
rename p q = call (λ os. rename_to p q (at_path p os) (at_path q os) os)

abbrev pub link_to : Text → Option Node → Option Node → Io (Unit {0})
link_to q none d os = (err (sentinel not_exist), os)
link_to q (some n) (some d) os = (err (sentinel exist), os)
link_to q (some n) none os = (ok tt, set_node q n os)

-- os.Link
unfoldable pub link : Text → Text → Io (Unit {0})
link p q = call (λ os. link_to q (at_path p os) (at_path q os) os)

abbrev remove_at : Text → Option Node → Io (Unit {0})
remove_at p none os = (err (sentinel not_exist), os)
remove_at p (some (file c m)) os = (ok tt, drop_node p os)
remove_at p (some directory) os = (err (message "remove %s: is a directory" (p ∷ [])), os)

-- os.Remove of a file
unfoldable pub remove : Text → Io (Unit {0})
remove p = call (λ os. remove_at p (at_path p os) os)

-- os.Open, whose result is what the path names
unfoldable pub open_path : Text → Io Node
unfolding stat
open_path = stat

-- rand.Text
unfoldable pub random_text : Io Text
random_text os = (ok (os.random os.calls), record os { calls = suc os.calls })

-- `defer` of calls whose errors are dropped
unfoldable pub with_deferred : {A : Type 0} → (Os → A × Os) → Io (Unit {0}) → Os → A × Os
with_deferred m cleanup os = let (r, os') = m os in (r, (cleanup os').1)

-- `_ = m`
unfoldable pub ignore : Io (Unit {0}) → Io (Unit {0})
ignore m os = (ok tt, (m os).1)
