-- ===== src/Filesystem/Downloads.antt =====
-- WriteFile of backend/internal/fileutil/fileutil.go, which writes what the backends download, where
-- the destination exists.
use mathlib.Core.Logic.{◌≢◌}
use sharp_store.Prelude.{ℕ, suc, ◌≡◌, refl, ap, ◌∙◌, Option, none, some, List, Text}
use sharp_store.Errors.{Error, Outcome, Result, ok, err}
use sharp_store.Backend.{Reader}
use sharp_store.FilePaths.{dir}
use sharp_store.FileUtil.{
  temporary_in, file_mode, cleanup, create_temporary, write_and_rename, after_copied, after_created,
  outcome_of, write_file,
}
use sharp_store.Os.{
  Os, Io, Node, file, directory, ◌>>=◌, ◌>>◌, at_path, create_excl, copy_to, sync_or_close, rename,
  rename_to, random_text, with_deferred, or_fault, mkdir_all, continue,
}
use sharp_store.Os.Files.{
  file_at, Keeps-create_excl, KeepsAll-mkdir_all, KeepsAll-random_text, KeepsAll-sync_or_close,
  Keeps-copy_to,
}
use sharp_store.Os.Success.{Gives, Gives-bind}
use sharp_store.Filesystem.Existing.{
  Spares, Spares-bind, Spares-of_KeepsAll, Spares-of_Keeps, Spares-create_excl, Spares-cleanup,
  create_excl-taken,
}

ok_injective : {a b : Text} → ok a ≡ ok b → a ≡ b
ok_injective h = cc

create_temporary-Spares : {P : Text → Type 0} (parent : Text) → Spares P (create_temporary parent)
unfolding create_temporary
create_temporary-Spares parent =
    Spares-bind _ _ (Spares-of_KeepsAll (mkdir_all parent) (KeepsAll-mkdir_all parent)) λ _.
      Spares-bind _ _ (Spares-of_KeepsAll random_text KeepsAll-random_text) λ name.
        let t = temporary_in parent name in
        Spares-create_excl t file_mode (λ os. (ok t, os))
          (Spares-of_Keeps t (create_excl t file_mode) (Keeps-create_excl t file_mode))
          (record { at = λ os q x p h. h })

module _ (q : Text) (x : List ℕ × ℕ) where
  abbrev There : Os → Type 0
  There os = file_at q os ≡ some x

  create_excl_fresh :
      (t : Text) (mode : ℕ) → Gives There (create_excl t mode) (λ _ os. There os × (t ≢ q))
  create_excl_fresh t mode = record {
    at = λ os a p h.
        let n : t ≢ q = λ e.
          let (d, f) = create_excl-taken t mode os x (ap (λ s. file_at s os) e ∙ p) in cc (f, h) in
        ((Keeps-create_excl t mode).at os q n ∙ p, n);
  }

  create_temporary-Gives :
      (parent : Text) → Gives There (create_temporary parent) (λ t os. There os × (t ≢ q))
  unfolding create_temporary
  create_temporary-Gives parent =
      Gives-bind {Q = λ _. There} (mkdir_all parent) _
        (record { at = λ os a p h. (KeepsAll-mkdir_all parent).at os q ∙ p })
        λ _.
          Gives-bind {Q = λ _. There} random_text _
            (record { at = λ os a p h. KeepsAll-random_text.at os q ∙ p })
            λ name.
              Gives-bind _ _ (create_excl_fresh (temporary_in parent name) file_mode)
                λ _. record { at = λ os t p h. (p.0, λ e. p.1 (ok_injective h ∙ e)) }

  -- a rename that fails leaves both files
  rename_to_fails :
      (t : Text) (s d : Option Node) (os : Os) (e : Error)
      → There os
      → (rename_to t q s d os).0 ≡ err e
      → There (rename_to t q s d os).1
  rename_to_fails t none d os e p h = p
  rename_to_fails t (some n) (some directory) os e p h = p
  rename_to_fails t (some n) (some (file c m)) os e p h = cc
  rename_to_fails t (some n) none os e p h = cc

  or_fault_fails :
      (o : Outcome) (m : Io (Unit {0})) (os : Os) (e : Error)
      → There os
      → ((m os).0 ≡ err e → There (m os).1)
      → (or_fault o m (λ s. s) os).0 ≡ err e
      → There (or_fault o m (λ s. s) os).1
  or_fault_fails none m os e p k h = k h
  or_fault_fails (some d) m os e p k h = p

  rename_fails :
      (t : Text) (os : Os) (e : Error)
      → There os
      → (rename t q os).0 ≡ err e
      → There (rename t q os).1
  unfolding rename file_at
  rename_fails t os e p h =
      or_fault_fails (os.faults os.calls) _ (record os { calls = suc os.calls }) e p
        (rename_to_fails t (at_path t os) (at_path q os) (record os { calls = suc os.calls }) e p) h

  continue_fails :
      (f : Io (Unit {0})) (r : Result (Unit {0})) (os : Os) (e : Error)
      → ((s : Os) → There s → (f s).0 ≡ err e → There (f s).1)
      → There os
      → (continue r (λ _. f) os).0 ≡ err e
      → There (continue r (λ _. f) os).1
  continue_fails f (ok u) os e k p h = k os p h
  continue_fails f (err d) os e k p h = p

  -- Sync, Close and Rename, of which one fails
  finish_fails :
      (t : Text) (os : Os) (e : Error)
      → There os
      → ((sync_or_close >> (sync_or_close >> rename t q)) os).0 ≡ err e
      → There ((sync_or_close >> (sync_or_close >> rename t q)) os).1
  unfolding ◌>>=◌
  finish_fails t os e p h =
      continue_fails _ (sync_or_close os).0 (sync_or_close os).1 e
        (λ s k g.
          continue_fails (rename t q) (sync_or_close s).0 (sync_or_close s).1 e
            (λ u l i. rename_fails t u e l i) (KeepsAll-sync_or_close.at s q ∙ k) g)
        (KeepsAll-sync_or_close.at os q ∙ p) h

  outcome_of-some : (r : Result (Unit {0})) (e : Error) → outcome_of r ≡ some e → r ≡ err e
  outcome_of-some (ok u) e h = cc
  outcome_of-some (err d) e h = cc

  after_copied_fails :
      (t : Text) (r : Result (Unit {0})) (os : Os) (e : Error)
      → There os
      → (after_copied r (sync_or_close >> (sync_or_close >> rename t q)) os).0.1 ≡ some e
      → There (after_copied r (sync_or_close >> (sync_or_close >> rename t q)) os).1
  after_copied_fails t (ok u) os e p h = finish_fails t os e p (outcome_of-some _ e h)
  after_copied_fails t (err d) os e p h = p

  write_and_rename_fails :
      (t : Text) (reader : Reader) (os : Os) (e : Error)
      → t ≢ q
      → There os
      → (write_and_rename t q reader os).0.1 ≡ some e
      → There (write_and_rename t q reader os).1
  unfolding write_and_rename
  write_and_rename_fails t reader os e n p h =
      after_copied_fails t (copy_to t reader os).0 (copy_to t reader os).1 e
        ((Keeps-copy_to t reader).at os q n ∙ p) h

  after_created_fails :
      (reader : Reader) (r : Result Text) (os : Os) (e : Error)
      → There os
      → ((t : Text) → r ≡ ok t → t ≢ q)
      → (after_created r (λ t. with_deferred (write_and_rename t q reader) (cleanup t)) os).0.1
        ≡ some e
      → There (after_created r (λ t. with_deferred (write_and_rename t q reader) (cleanup t)) os).1
  unfolding with_deferred
  after_created_fails reader (ok t) os e p n h =
      (Spares-cleanup t).at (write_and_rename t q reader os).1 q x (n t refl)
        (write_and_rename_fails t reader os e (n t refl) p h)
  after_created_fails reader (err d) os e p n h = p

-- If WriteFile returns an error, whether the stream has been written or not, then a file that the
-- destination was before is untouched.
pub write_file_keeps_destination :
    (destination : Text) (reader : Reader) (os : Os) (c : List ℕ) (mode : ℕ) (e : Error)
    → file_at destination os ≡ some (c, mode)
    → (write_file destination reader os).0.1 ≡ some e
    → file_at destination (write_file destination reader os).1 ≡ some (c, mode)
unfolding write_file
write_file_keeps_destination destination reader os c mode e p h =
    let made = create_temporary (dir destination) os in
    after_created_fails destination (c, mode) reader made.0 made.1 e
      ((create_temporary-Spares {P = λ _. Unit {0}} (dir destination)).at os destination (c, mode)
        tt p)
      (λ t k. ((create_temporary-Gives destination (c, mode) (dir destination)).at os t p k).1) h
