-- ===== src/Filesystem/Existing.antt =====
-- (*Backend).Save of backend/filesystem/filesystem.go, where a file exists already.
use mathlib.Core.Logic.{◌≢◌}
use sharp_store.Prelude.{
  ℕ, suc, ◌≡◌, refl, sym, ap, subst, ◌∙◌, Bool, true, false, Option, none, some, List, [], Text,
  text_discrete, arith,
}
use sharp_store.Prelude.Maps.{lookup-put}
use sharp_store.Errors.{Error, Outcome, Result, ok, err, sentinel, exist}
use sharp_store.Scope.{Context}
use sharp_store.Backend.{Reader, SaveRequest}
use sharp_store.FilePaths.{Platform, dir}
use sharp_store.FileUtil.{temporary_in, file_mode, cleanup}
use sharp_store.Os.{
  Os, Io, Node, ◌>>=◌, ◌>>◌, lift, at_path, create_excl, create_at, copy_to, sync_or_close, link,
  link_to, remove, random_text, with_deferred, ignore, continue, or_fault, mkdir_all,
}
use sharp_store.Os.Files.{
  file_at, file_of, Keeps, KeepsAll, Keeps-of_KeepsAll, KeepsAll-lift, KeepsAll-stat,
  KeepsAll-random_text, KeepsAll-sync_or_close, KeepsAll-mkdir_all, Keeps-chmod, Keeps-copy_to,
  Keeps-remove, Keeps-ignore, Keeps-create_excl,
}
use sharp_store.Filesystem.{
  alive, required, original_mode, restore_mode, place, publish, save_file, save, returned,
}
use sharp_store.Filesystem.ObjectPath.{file_path}

-- A file at a path with the property stays as it is, whether the calls fail or not.
pub record Spares {A : Type 0} (P : Text → Type 0) (m : Os → A × Os) : Type 0 where
  pub at :
      (os : Os) (q : Text) (x : List ℕ × ℕ)
      → P q
      → file_at q os ≡ some x
      → file_at q (m os).1 ≡ some x

module _ {A B : Type 0} {P : Text → Type 0} where
  continue-Spares :
      (f : A → Io B) (r : Result A) (os : Os) (q : Text) (x : List ℕ × ℕ)
      → ((a : A) → Spares P (f a))
      → P q
      → file_at q os ≡ some x
      → file_at q (continue r f os).1 ≡ some x
  continue-Spares f (ok a) os q x k p h = (k a).at os q x p h
  continue-Spares f (err e) os q x k p h = h

  pub Spares-bind :
      (m : Io A) (f : A → Io B) → Spares P m → ((a : A) → Spares P (f a)) → Spares P (m >>= f)
  unfolding ◌>>=◌
  Spares-bind m f k l = record {
    at = λ os q x p h. continue-Spares f (m os).0 (m os).1 q x l p (k.at os q x p h);
  }

module _ {A : Type 0} where
  pub Spares-of_KeepsAll : {P : Text → Type 0} (m : Io A) → KeepsAll m → Spares P m
  Spares-of_KeepsAll m k = record { at = λ os q x p h. k.at os q ∙ h }

  pub Spares-of_Keeps : (t : Text) (m : Io A) → Keeps t m → Spares (λ q. t ≢ q) m
  Spares-of_Keeps t m k = record { at = λ os q x p h. k.at os q p ∙ h }

  pub Spares-with_deferred :
      {P : Text → Type 0} (m : Io A) (c : Io (Unit {0}))
      → Spares P m
      → Spares P c
      → Spares P (with_deferred m c)
  unfolding with_deferred
  Spares-with_deferred m c k l = record { at = λ os q x p h. l.at (m os).1 q x p (k.at os q x p h) }

link_to-Spares :
    (p q : Text) (s d : Option Node) (os : Os) (x : List ℕ × ℕ)
    → at_path p os ≡ d
    → file_at q os ≡ some x
    → file_at q (link_to p s d os).1 ≡ some x
unfolding file_at
link_to-Spares p q none d os x e h = h
link_to-Spares p q (some n) (some d) os x e h = h
link_to-Spares p q (some n) none os x e h = ground (arith, lookup-put text_discrete p q n os.nodes)

or_fault-Spares :
    (o : Outcome) (m : Io (Unit {0})) (os : Os) (q : Text) (x : List ℕ × ℕ)
    → file_at q os ≡ some x
    → file_at q (m os).1 ≡ some x
    → file_at q (or_fault o m (λ s. s) os).1 ≡ some x
or_fault-Spares none m os q x h k = k
or_fault-Spares (some e) m os q x h k = h

-- os.Link replaces no file.
Spares-link : {P : Text → Type 0} (t p : Text) → Spares P (link t p)
unfolding link file_at
Spares-link t p = record {
  at = λ os q x u h.
      or_fault-Spares (os.faults os.calls) _ (record os { calls = suc os.calls }) q x h
        (link_to-Spares p q (at_path t os) (at_path p os) (record os { calls = suc os.calls }) x
          refl h);
}

create_at-taken :
    (t : Text) (mode : ℕ) (d : Option Node) (os : Os) (x : List ℕ × ℕ)
    → file_of d ≡ some x
    → create_at t mode d os ≡ (err (sentinel exist), os)
create_at-taken t mode none os x h = cc
create_at-taken t mode (some n) os x h = refl

or_fault-taken :
    (o : Outcome) (m : Io (Unit {0})) (os : Os)
    → m os ≡ (err (sentinel exist), os)
    → (e : Error) × (or_fault o m (λ s. s) os ≡ (err e, os))
or_fault-taken none m os h = (sentinel exist, h)
or_fault-taken (some e) m os h = (e, refl)

pub create_excl-taken :
    (t : Text) (mode : ℕ) (os : Os) (x : List ℕ × ℕ)
    → file_at t os ≡ some x
    → (e : Error) × (create_excl t mode os ≡ (err e, record os { calls = suc os.calls }))
unfolding create_excl file_at
create_excl-taken t mode os x h =
    or_fault-taken (os.faults os.calls) _ (record os { calls = suc os.calls })
      (create_at-taken t mode (at_path t os) (record os { calls = suc os.calls }) x h)

-- What follows the creation of a file may change that file: there was none before.
pub Spares-create_excl :
    {A : Type 0} {P : Text → Type 0} (t : Text) (mode : ℕ) (rest : Io A)
    → Spares (λ q. t ≢ q) (create_excl t mode)
    → Spares (λ q. t ≢ q) rest
    → Spares P (create_excl t mode >> rest)
unfolding ◌>>=◌ file_at
Spares-create_excl {P = P} t mode rest c k = record {
  at = λ os q x p h. elim (text_discrete t q) [
    | yes e ↦ let (d, f) = create_excl-taken t mode os x (ap (λ s. file_at s os) e ∙ h) in rw f h
    | no n ↦ (Spares-bind (create_excl t mode) (λ _. rest) c (λ _. k)).at os q x n h
  ];
}

module _ {P : Text → Type 0} where
  Spares-lift : {A : Type 0} (r : Result A) → Spares P (lift r)
  Spares-lift r = Spares-of_KeepsAll (lift r) (KeepsAll-lift r)

  Spares-alive : (ctx : Context Os) → Spares P (alive ctx)
  unfolding alive
  Spares-alive ctx = record { at = λ os q x p h. h }

  Spares-original_mode : (b : Bool) (path : Text) → Spares P (original_mode b path)
  unfolding original_mode
  Spares-original_mode true path = record { at = λ os q x p h. (KeepsAll-stat path).at os q ∙ h }
  Spares-original_mode false path = record { at = λ os q x p h. h }

Spares-restore_mode : (t : Text) (mode : Option ℕ) → Spares (λ q. t ≢ q) (restore_mode t mode)
unfolding restore_mode
Spares-restore_mode t none = record { at = λ os q x p h. h }
Spares-restore_mode t (some mode) = record { at = λ os q x p h. (Keeps-chmod t mode).at os q p ∙ h }

Spares-place : {P : Text → Type 0} (t path file_id : Text) → Spares P (place false t path file_id)
unfolding place
Spares-place t path file_id = record { at = (Spares-link t path).at }

pub Spares-sync_or_close : {P : Text → Type 0} → Spares P sync_or_close
Spares-sync_or_close = Spares-of_KeepsAll sync_or_close KeepsAll-sync_or_close

Spares-publish :
    (ctx : Context Os) (r : SaveRequest Os) (body : Reader) (path t : Text) (mode : Option ℕ)
    → r.overwrite ≡ false
    → Spares (λ q. t ≢ q) (publish ctx r body path t mode)
unfolding publish
Spares-publish ctx r body path t mode h = Spares-bind _ _ (Spares-restore_mode t mode) λ _.
    Spares-bind _ _ (Spares-of_Keeps t (copy_to t body) (Keeps-copy_to t body)) λ _.
      Spares-bind _ _ Spares-sync_or_close λ _. Spares-bind _ _ Spares-sync_or_close λ _.
        Spares-bind _ _ (Spares-alive ctx) λ _.
          subst (λ b. Spares (λ q. t ≢ q) (place b t path r.file_id)) (sym h)
            (Spares-place t path r.file_id)

pub Spares-cleanup : (t : Text) → Spares (λ q. t ≢ q) (cleanup t)
unfolding cleanup
Spares-cleanup t =
    Spares-bind _ _
      (Spares-of_Keeps t (ignore sync_or_close)
        (Keeps-ignore t sync_or_close (Keeps-of_KeepsAll t sync_or_close KeepsAll-sync_or_close)))
      λ _. Spares-of_Keeps t (ignore (remove t)) (Keeps-ignore t (remove t) (Keeps-remove t))

Spares-save_file :
    {P : Text → Type 0} (platform : Platform) (ctx : Context Os) (r : SaveRequest Os)
    → r.overwrite ≡ false
    → Spares P (save_file platform ctx r)
unfolding save_file
Spares-save_file platform ctx r h = Spares-bind _ _ (Spares-alive ctx) λ _.
    Spares-bind _ _ (Spares-lift (required r.body)) λ body.
      Spares-bind _ _ (Spares-lift (file_path platform r.file)) λ path.
        Spares-bind _ _ (Spares-of_KeepsAll (mkdir_all (dir path)) (KeepsAll-mkdir_all (dir path)))
          λ _. Spares-bind _ _ (Spares-original_mode r.overwrite path) λ mode.
            Spares-bind _ _ (Spares-of_KeepsAll random_text KeepsAll-random_text) λ name.
              let t = temporary_in (dir path) name in
              Spares-create_excl t file_mode _
                (Spares-of_Keeps t (create_excl t file_mode) (Keeps-create_excl t file_mode))
                (Spares-with_deferred (publish ctx r body path t mode) (cleanup t)
                  (Spares-publish ctx r body path t mode h) (Spares-cleanup t))

returned_state : {A : Type 0} (zero : A) (p : Result A × Os) → (returned zero p).1 ≡ p.1
returned_state zero (ok a, os) = refl
returned_state zero (err e, os) = refl

-- Without Overwrite, Save changes and removes no file that exists, at the path of the object or
-- elsewhere, whichever of its calls of the operating system fail, and whatever the name of its
-- temporary file is.
pub save_keeps_existing :
    (platform : Platform) (ctx : Context Os) (r : SaveRequest Os) (os : Os) (q : Text) (c : List ℕ)
    (mode : ℕ)
    → r.overwrite ≡ false
    → file_at q os ≡ some (c, mode)
    → file_at q (save platform ctx r os).1 ≡ some (c, mode)
unfolding save
save_keeps_existing platform ctx r os q c mode h f =
    ap (file_at q) (returned_state [] (save_file platform ctx r os))
    ∙ (Spares-save_file {P = λ _. Unit {0}} platform ctx r h).at os q (c, mode) tt f
