-- ===== src/Filesystem/Complete.antt =====
-- (*Backend).Save of backend/filesystem/filesystem.go, where it succeeds.
use mathlib.Core.Logic.{◌≢◌}
use sharp_store.Prelude.{
  ℕ, ◌≡◌, refl, sym, ap, subst, ◌∙◌, Bool, true, false, Option, none, some, List, [], Text, arith,
  if◌then◌else◌,
}
use sharp_store.Errors.{Result, ok, err, is_error}
use sharp_store.Scope.{Context}
use sharp_store.Backend.{Reader, SaveRequest}
use sharp_store.FilePaths.{Platform, dir}
use sharp_store.FileUtil.{temporary_in, file_mode, cleanup}
use sharp_store.Os.{
  Os, ◌>>=◌, ◌>>◌, create_excl, sync_or_close, rename, link, random_text, with_deferred, mkdir_all,
  stat,
}
use sharp_store.Os.Files.{file_at}
use sharp_store.Os.Success.{
  Gives, Has, Named, Gives-bind, chmod-Gives, create_excl-Gives, copy_to-Gives, moved-Gives,
  Gives-frame, Gives-with_deferred, sync_or_close-Gives, mkdir_all-Gives, random_text-Gives,
  lift-Gives,
}
use sharp_store.Filesystem.Existing.{Spares-cleanup}
use sharp_store.Filesystem.{
  alive, required, original_mode, restore_mode, place, placed, publish, save_file, save, returned,
}
use sharp_store.Filesystem.ObjectPath.{file_path}

module _ (t : Text) where
  restore_mode-Gives :
      (c : List ℕ) (mode : Option ℕ) → Gives (Has t c) (restore_mode t mode) (λ _. Has t c)
  unfolding restore_mode
  restore_mode-Gives c none = record { at = λ os a p h. p }
  restore_mode-Gives c (some mode) = record { at = (chmod-Gives t c mode).at }

  module _ (path : Text) where
    placed-ok :
        (file_id s : Text) (r : Result (Unit {0}))
        → placed file_id r ≡ ok s
        → (r ≡ ok tt) × (s ≡ file_id)
    unfolding is_error
    placed-ok file_id s (ok u) h = (refl, ground arith)
    placed-ok file_id s (err e) h = absurd (ground arith)

    place-Gives :
        (b : Bool) (file_id : Text) (c : List ℕ)
        → Gives (Has t c) (place b t path file_id) (λ s os. Has path c os × (s ≡ file_id))
    unfolding place
    place-Gives b file_id c = record {
      at = λ os s p h.
          let (k, e) = placed-ok file_id s ((if b then rename t path else link t path) os).0 h in
          ((moved-Gives t path b c).at os tt p k, e);
    }

alive-Gives : (P : Os → Type 0) (ctx : Context Os) → Gives P (alive ctx) (λ _. P)
unfolding alive
alive-Gives P ctx = record { at = λ os a p h. p }

-- what a successful Save leaves
abbrev Saved : SaveRequest Os → Reader → Text → Text → Os → Type 0
Saved r body path s os = Has path body.content os × (s ≡ r.file_id) × (body.failure ≡ none)

publish-Gives :
    (ctx : Context Os) (r : SaveRequest Os) (body : Reader) (path t : Text) (mode : Option ℕ)
    → Gives (Has t []) (publish ctx r body path t mode) (Saved r body path)
unfolding publish
publish-Gives ctx r body path t mode = Gives-bind _ _ (restore_mode-Gives t [] mode) λ _.
    Gives-bind _ _ (copy_to-Gives t body) λ _.
      Gives-bind _ _
        (Gives-frame (body.failure ≡ none) sync_or_close (sync_or_close-Gives t body.content))
        λ _.
          Gives-bind _ _
            (Gives-frame (body.failure ≡ none) sync_or_close (sync_or_close-Gives t body.content))
            λ _.
              Gives-bind _ _ (alive-Gives (λ os. Has t body.content os × (body.failure ≡ none)) ctx)
                λ _. record {
                  at = λ os s p h.
                      let (k, e) =
                        (place-Gives t path r.overwrite r.file_id body.content).at os s p.0 h in
                      (k, e, p.1);
                }

cleanup-Saved :
    (r : SaveRequest Os) (body : Reader) (path t s : Text) (os : Os)
    → t ≢ path
    → Saved r body path s os
    → Saved r body path s (cleanup t os).1
cleanup-Saved r body path t s os n ((mode, p), e, f) =
    ((mode, (Spares-cleanup t).at os path (body.content, mode) n p), e, f)

module _ (rnd : ℕ → Text) where
  original_mode-Gives :
      (b : Bool) (p : Text) → Gives (Named rnd) (original_mode b p) (λ _. Named rnd)
  unfolding original_mode stat
  original_mode-Gives true p = record { at = λ os a q h. ground arith }
  original_mode-Gives false p = record { at = λ os a q h. q }

required-ok : (o : Option Reader) (body : Reader) → required o ≡ ok body → o ≡ some body
required-ok none body h = cc
required-ok (some b) body h = ap some (ground arith)

create_and_publish :
    (ctx : Context Os) (r : SaveRequest Os) (body : Reader) (path t : Text) (mode : Option ℕ)
    → t ≢ path
    → Gives
        (λ _. Unit {0})
        (create_excl t file_mode >> with_deferred (publish ctx r body path t mode) (cleanup t))
        (Saved r body path)
create_and_publish ctx r body path t mode n = Gives-bind _ _ (create_excl-Gives t file_mode) λ _.
    Gives-with_deferred (publish ctx r body path t mode) (cleanup t)
      (publish-Gives ctx r body path t mode) λ s os k. cleanup-Saved r body path t s os n k

module _ (platform : Platform) (ctx : Context Os) (r : SaveRequest Os) (path : Text)
    (rnd : ℕ → Text) (e : file_path platform r.file ≡ ok path)
    (n : (i : ℕ) → temporary_in (dir path) (rnd i) ≢ path) where
  prepare_and_publish :
      (body : Reader) (p : Text)
      → p ≡ path
      → Gives
          (Named rnd)
          (mkdir_all (dir p)
            >> (original_mode r.overwrite p >>= λ mode. random_text >>= λ name.
                create_excl (temporary_in (dir p) name) file_mode
                >> with_deferred
                    (publish ctx r body p (temporary_in (dir p) name) mode)
                    (cleanup (temporary_in (dir p) name))))
          (Saved r body path)
  prepare_and_publish body p q =
      subst
        (λ x.
          Gives (Named rnd)
            (mkdir_all (dir x)
              >> (original_mode r.overwrite x >>= λ mode. random_text >>= λ name.
                  create_excl (temporary_in (dir x) name) file_mode
                  >> with_deferred (publish ctx r body x (temporary_in (dir x) name) mode)
                      (cleanup (temporary_in (dir x) name))))
            (Saved r body path))
        (sym q)
        (Gives-bind _ _ (mkdir_all-Gives rnd (dir path)) λ _.
          Gives-bind _ _ (original_mode-Gives rnd r.overwrite path) λ mode.
            Gives-bind _ _ (random_text-Gives rnd) λ name. record {
              at = λ os s k h.
                  (create_and_publish ctx r body path (temporary_in (dir path) name) mode
                      (λ z. n k.0 (ap (temporary_in (dir path)) (sym k.1) ∙ z))).at
                    os s tt h;
            })

  save_file-Gives :
      Gives
        (Named rnd)
        (save_file platform ctx r)
        (λ s os. (body : Reader) × (r.body ≡ some body) × Saved r body path s os)
  unfolding save_file
  save_file-Gives = Gives-bind _ _ (alive-Gives (Named rnd) ctx) λ _.
      Gives-bind _ _ (lift-Gives (Named rnd) (required r.body)) λ body. record {
        at = λ os s p h. (
          body,
          required-ok r.body body p.1,
          (Gives-bind {R = Saved r body path} _ _
                (lift-Gives (Named rnd) (file_path platform r.file))
                λ x. record {
                  at =
                      λ os₁ s₁ p₁ h₁. (prepare_and_publish body x (cc (p₁.1, e))).at os₁ s₁ p₁.0 h₁;
                }).at
              os s p.0 h,
        );
      }

returned-ok :
    (p : Result Text × Os) (s : Text) (os : Os)
    → returned [] p ≡ ((s, none), os)
    → (p.0 ≡ ok s) × (p.1 ≡ os)
returned-ok (ok a, os₁) s os h = (ground arith, ground arith)
returned-ok (err e, os₁) s os h = absurd (ground arith)

-- If Save returns no error, and none of the names that its temporary file can have is that of the
-- object's file, then it has read the body to its end, the file at the object's path holds what was
-- read, and the result is the file ID.
pub save_complete :
    (platform : Platform) (ctx : Context Os) (r : SaveRequest Os) (path s : Text) (os os' : Os)
    → file_path platform r.file ≡ ok path
    → ((i : ℕ) → temporary_in (dir path) (os.random i) ≢ path)
    → save platform ctx r os ≡ ((s, none), os')
    → (body : Reader) × (r.body ≡ some body)
      × ((mode : ℕ) × (file_at path os' ≡ some (body.content, mode)))
      × (s ≡ r.file_id)
      × (body.failure ≡ none)
unfolding save
save_complete platform ctx r path s os os' e n h =
    let (k, q) = returned-ok (save_file platform ctx r os) s os' h in
    let (body, b, ((mode, f), u, v)) =
      (save_file-Gives platform ctx r path os.random e n).at os s refl k in
    (body, b, (mode, ap (file_at path) (sym q) ∙ f), u, v)
