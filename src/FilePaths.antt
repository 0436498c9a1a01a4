-- ===== src/FilePaths.antt =====
-- path/filepath of the Go library on Unix, as far as backend/filesystem/filesystem.go and
-- backend/internal/fileutil/fileutil.go use it. All of it is lexical. A Platform has the functions
-- of Windows as a parameter beside it.
pub mod Clean
use sharp_store.Prelude.{
  ℕ, zero, suc, ◌-◌, Bool, true, false, ◌||◌, List, [], ◌∷◌, ◌++◌, Text, text, same, is_empty,
  if◌then◌else◌, ◌==◌, length,
}
use sharp_store.Prelude.Texts.{slash, is_slash, split, nonempty, join}
use mathlib.Core.Bool.{xor}
use sharp_store.Errors.{Result, ok, err, message}

-- IsAbs
abbrev pub is_abs : Text → Bool
is_abs [] = false
is_abs (c ∷ s) = is_slash c

-- strings.HasPrefix
unfoldable pub has_prefix : Text → Text → Bool
has_prefix s [] = true
has_prefix [] (c ∷ p) = false
has_prefix (d ∷ s) (c ∷ p) = let rest = has_prefix s p in if d == c then rest else false

abbrev pub is_up : Text → Bool
is_up s = same s (text "..")

abbrev pub is_here : Text → Bool
is_here s = is_empty s || same s (text ".")

abbrev pub descend : Text → ℕ → List Text → ℕ × List Text
descend s zero out = (zero, s ∷ out)
descend s (suc n) out = (n, out)

-- One segment in front of a cleaned rest: the rest goes up as many levels as the number says, and
-- then down the segments.
abbrev pub clean_onto : Text → ℕ × List Text → ℕ × List Text
clean_onto s (n, out) =
    if is_here s then (n, out) else if is_up s then (suc n, out) else descend s n out

unfoldable pub clean_segments : List Text → ℕ × List Text
clean_segments [] = (zero, [])
clean_segments (s ∷ ss) = clean_onto s (clean_segments ss)

unfoldable pub ups : ℕ → List Text
ups zero = []
ups (suc n) = text ".." ∷ ups n

abbrev pub join_or_dot : List Text → Text
join_or_dot [] = text "."
join_or_dot (s ∷ ss) = join slash (s ∷ ss)

-- The text of a cleaned path. A path from the root cannot go above it.
unfoldable pub render : Bool → ℕ × List Text → Text
unfolding ups join
render true (n, out) = slash ∷ join slash out
render false (n, out) = join_or_dot (ups n ++ out)

-- Clean
unfoldable pub clean : Text → Text
unfolding render clean_segments split
clean s = render (is_abs s) (clean_segments (split is_slash s))

-- Join of two elements, the first of which is not empty
unfoldable pub join_path : Text → Text → Text
unfolding clean
join_path a b = if is_empty b then clean a else clean (a ++ slash ∷ b)

-- the text up to its last slash, with the slash
unfoldable pub up_to_slash : Text → Text
up_to_slash [] = []
up_to_slash (c ∷ s) =
    let rest = up_to_slash s in
    if is_empty rest then (if is_slash c then c ∷ [] else []) else c ∷ rest

-- Dir
unfoldable pub dir : Text → Text
unfolding clean up_to_slash
dir s = clean (up_to_slash s)

-- from the last common segment up to the base's segments `b ∷ bs` and down to `ts`
abbrev pub climb : Text → List Text → List Text → Result Text
climb b bs ts =
    if is_up b
    then err (message "Rel: can't make %s relative to %s" [])
    else ok (join slash (text ".." ∷ ups (length bs) ++ ts))

unfoldable pub relative_segments : List Text → List Text → Result Text
unfolding join ups
relative_segments [] ts = ok (join slash ts)
relative_segments (b ∷ bs) [] = climb b bs []
relative_segments (b ∷ bs) (t ∷ ts) =
    let rest = relative_segments bs ts in if same b t then rest else climb b bs (t ∷ ts)

abbrev pub dot_to_empty : Text → Text
dot_to_empty s = if same s (text ".") then [] else s

-- Rel on cleaned paths, the base being empty for "."
abbrev pub relative_cleaned : Text → Text → Result Text
relative_cleaned base target =
    if xor (is_abs base) (is_abs target)
    then err (message "Rel: can't make %s relative to %s" (target ∷ base ∷ []))
    else relative_segments (nonempty (split is_slash base)) (nonempty (split is_slash target))

-- Rel
unfoldable pub rel : Text → Text → Result Text
unfolding clean relative_segments nonempty
rel base target =
    if same (clean target) (clean base)
    then ok (text ".")
    else relative_cleaned (dot_to_empty (clean base)) (clean target)

-- What path/filepath is on some operating system, as far as it turns an object key into a path.
pub record PathFunctions : Type 0 where
  pub separator : ℕ
  pub from_slash : Text → Text
  pub clean : Text → Text
  pub is_abs : Text → Bool
  pub join_path : Text → Text → Text
  pub rel : Text → Text → Result Text

abbrev pub unix_paths : PathFunctions
unix_paths = record {
  separator = slash;
  from_slash = λ s. s;
  clean = clean;
  is_abs = is_abs;
  join_path = join_path;
  rel = rel;
}

-- runtime.GOOS, and the path functions of Windows, which are a parameter
pub record Platform : Type 0 where
  pub goos : Text
  pub windows_paths : PathFunctions

abbrev pub is_windows : Platform → Bool
is_windows p = same p.goos (text "windows")

abbrev pub paths_of : Platform → PathFunctions
paths_of p = if is_windows p then p.windows_paths else unix_paths
