-- ===== src/Filesystem/Containment.antt =====
-- (*Backend).path of backend/filesystem/filesystem.go: where the files of objects are.
use sharp_store.Prelude.{
  ◌≡◌, refl, sym, ap, subst, ◌∙◌, false, List, [], ◌∷◌, ◌++◌, Text, text, same, is_empty, All,
  arith,
}
use sharp_store.Prelude.Texts.{slash, join}
use sharp_store.Errors.{Result, ok, ◌>>=◌, >>=-eq-ok, guard-eq-ok}
use sharp_store.Config.{config_value}
use sharp_store.Backend.{FileRequest}
use sharp_store.Os.{Os}
use sharp_store.FilePaths.{
  is_abs, is_here, has_prefix, clean, join_path, rel, render, PathFunctions, unix_paths, Platform,
  is_windows, paths_of,
}
use sharp_store.FilePaths.Clean.{IsPlain, segments, clean-IsPlain, clean-inside, join_path-segments}
use sharp_store.Filesystem.ObjectPath.{root_key, clean_key, check_relative, file_path}

-- A path of one or more names below the root: the names that the root has, and these.
pub record IsInside (root path : Text) : Type 0 where
  pub name : Text
  pub names : List Text
  pub plain : All IsPlain (name ∷ names)
  pub below : path ≡ render (is_abs root) ((segments root).0, (segments root).1 ++ name ∷ names)

record IsClean (key c : Text) : Type 0 where
  cleaned : clean key ≡ c
  relative : is_abs (clean key) ≡ false
  not_here : same (clean key) (text ".") ≡ false
  not_up : same (clean key) (text "..") ≡ false
  not_below_up : has_prefix (clean key) (text "../") ≡ false

clean_key-IsClean : (key c : Text) → clean_key unix_paths key ≡ ok c → IsClean key c
unfolding clean_key
clean_key-IsClean key c h = record {
  cleaned = ground arith;
  relative = ground arith;
  not_here = ground arith;
  not_up = ground arith;
  not_below_up = ground arith;
}

check_relative-ok :
    (key path relative p : Text) → check_relative unix_paths key path relative ≡ ok p → path ≡ p
check_relative-ok key path relative p h = ground arith

not_empty-join :
    (k : Text) (ks : List Text) → is_here k ≡ false → is_empty (join slash (k ∷ ks)) ≡ false
unfolding join
not_empty-join [] ks h = cc
not_empty-join (x ∷ k) [] h = refl
not_empty-join (x ∷ k) (l ∷ ks) h = refl

join_path-IsInside :
    (root key c : Text) → is_empty root ≡ false → IsClean key c → IsInside root (join_path root c)
join_path-IsInside root key c r h =
    let (k, ks, s, e) = clean-inside key h.relative h.not_here h.not_up h.not_below_up in
    let a = subst (All IsPlain) s (clean-IsPlain key) in
    record {
      name = k;
      names = ks;
      plain = a;
      below =
          ap (join_path root) (sym h.cleaned ∙ e)
          ∙ join_path-segments root k ks r a (not_empty-join k ks a.0.not_here);
    }

checked_path :
    (fs : PathFunctions) (root key p : Text) (o : Result (Unit {0}))
    → fs ≡ unix_paths
    → is_empty root ≡ false
    → (o >>= λ _. clean_key fs key >>= λ c. fs.rel root (fs.join_path root c) >>= λ relative.
        check_relative fs key (fs.join_path root c) relative)
      ≡ ok p
    → IsInside root p
checked_path fs root key p o u r h =
    let h' = rw u at h in
    let (_, _, h₁) = >>=-eq-ok o _ h' in
    let (c, e, h₂) = >>=-eq-ok (clean_key unix_paths key) _ h₁ in
    let (relative, _, h₃) = >>=-eq-ok (rel root (join_path root c)) _ h₂ in
    subst (IsInside root) (check_relative-ok key (join_path root c) relative p h₃)
      (join_path-IsInside root key c r (clean_key-IsClean key c e))

-- On every operating system but Windows and for every key: where a path is found for an object, it
-- lies strictly below the configured root, as the names of the root followed by at least one name
-- that is neither empty, "." nor ".." and has no slash.
pub file_path-IsInside :
    (platform : Platform) (r : FileRequest Os) (p : Text)
    → is_windows platform ≡ false
    → file_path platform r ≡ ok p
    → IsInside (config_value r.config root_key) p
unfolding file_path
file_path-IsInside platform r p u h =
    let (e, h') = guard-eq-ok (is_empty (config_value r.config root_key)) _ _ h in
    checked_path (paths_of platform) (config_value r.config root_key) r.key p _ (rw u refl) e h'
