-- ===== src/Os/Success.antt =====
-- What the calls of Os.antt ensure where they succeed, and a sequence of them.
use sharp_store.Prelude.{
  ℕ, suc, ◌≡◌, refl, ◌∙◌, Bool, true, false, Option, none, some, List, [], ◌∷◌, ◌++◌, Text,
  text_discrete, arith, if◌then◌else◌,
}
use sharp_store.Prelude.Maps.{lookup-put, delete}
use sharp_store.Errors.{Outcome, Result, ok, err}
use sharp_store.Backend.{Reader}
use sharp_store.Os.{
  Os, Io, Node, file, directory, ◌>>=◌, lift, at_path, create_excl, create_at, chmod, chmod_at,
  copy_to, append_to, append_at, after_copy, sync_or_close, rename, rename_to, link, link_to,
  random_text, with_deferred, continue, or_fault, mkdir_all, make_dir, make_all, ancestors,
}
use sharp_store.Os.Files.{file_at, file_of, KeepsAll-sync_or_close}

-- If the call succeeds from a state with `P`, then `Q` holds of its result and of the state it leaves.
pub record Gives {A : Type 0} (P : Os → Type 0) (m : Os → Result A × Os) (Q : A → Os → Type 0)
    : Type 0 where
  pub at : (os : Os) (a : A) → P os → (m os).0 ≡ ok a → Q a (m os).1

module _ {A B : Type 0} {Q : A → Os → Type 0} {R : B → Os → Type 0} where
  continue-Gives :
      (f : A → Io B) (r : Result A) (os : Os) (b : B)
      → ((a : A) → Gives (Q a) (f a) R)
      → ((a : A) → r ≡ ok a → Q a os)
      → (continue r f os).0 ≡ ok b
      → R b (continue r f os).1
  continue-Gives f (ok a) os b k q h = (k a).at os b (q a refl) h
  continue-Gives f (err e) os b k q h = cc

  pub Gives-bind :
      {P : Os → Type 0} (m : Io A) (f : A → Io B)
      → Gives P m Q
      → ((a : A) → Gives (Q a) (f a) R)
      → Gives P (m >>= f) R
  unfolding ◌>>=◌
  Gives-bind m f k l = record {
    at = λ os b p h. continue-Gives f (m os).0 (m os).1 b l (λ a e. k.at os a p e) h;
  }

-- There is a file with the content at the path.
abbrev pub Has : Text → List ℕ → Os → Type 0
Has p c os = (mode : ℕ) × (file_at p os ≡ some (c, mode))

or_fault-Gives :
    (Q : Os → Type 0) (o : Outcome) (m : Io (Unit {0})) (partial : Os → Os) (os : Os)
    → ((m os).0 ≡ ok tt → Q (m os).1)
    → (or_fault o m partial os).0 ≡ ok tt
    → Q (or_fault o m partial os).1
or_fault-Gives Q none m partial os k h = k h
or_fault-Gives Q (some e) m partial os k h = cc

module _ (t : Text) where
  create_at-Has :
      (mode : ℕ) (d : Option Node) (os : Os)
      → (create_at t mode d os).0 ≡ ok tt
      → Has t [] (create_at t mode d os).1
  unfolding file_at
  create_at-Has mode none os h =
      (mode, ground (arith, lookup-put text_discrete t t (file [] mode) os.nodes))
  create_at-Has mode (some n) os h = cc

  pub create_excl-Gives :
      {P : Os → Type 0} (mode : ℕ) → Gives P (create_excl t mode) (λ _. Has t [])
  unfolding create_excl
  create_excl-Gives mode = record {
    at = λ os a p h.
        or_fault-Gives (Has t []) (os.faults os.calls) _ (λ s. s)
          (record os { calls = suc os.calls })
          (create_at-Has mode (at_path t os) (record os { calls = suc os.calls })) h;
  }

  chmod_at-Has :
      (c : List ℕ) (mode : ℕ) (d : Option Node) (os : Os)
      → (m : ℕ) × (file_of d ≡ some (c, m))
      → (chmod_at t mode d os).0 ≡ ok tt
      → Has t c (chmod_at t mode d os).1
  unfolding file_at
  chmod_at-Has c mode (some (file e n)) os p h =
      (mode, ground (arith, p.1, lookup-put text_discrete t t (file e mode) os.nodes))
  chmod_at-Has c mode (some directory) os p h = cc
  chmod_at-Has c mode none os p h = cc

  pub chmod-Gives : (c : List ℕ) (mode : ℕ) → Gives (Has t c) (chmod t mode) (λ _. Has t c)
  unfolding chmod file_at
  chmod-Gives c mode = record {
    at = λ os a p h.
        or_fault-Gives (Has t c) (os.faults os.calls) _ (λ s. s)
          (record os { calls = suc os.calls })
          (chmod_at-Has c mode (at_path t os) (record os { calls = suc os.calls }) p) h;
  }

  append_at-Has :
      (c : List ℕ) (d : Option Node) (os : Os)
      → (m : ℕ) × (file_of d ≡ some ([], m))
      → Has t c (append_at t c d os)
  unfolding file_at
  append_at-Has c (some (file e n)) os p =
      (n, ground (arith, p.1, lookup-put text_discrete t t (file (e ++ c) n) os.nodes))
  append_at-Has c (some directory) os p = cc
  append_at-Has c none os p = cc

  after_copy-Has :
      (c : List ℕ) (o : Outcome) (os : Os)
      → Has t c os
      → (after_copy o os).0 ≡ ok tt
      → Has t c (after_copy o os).1 × (o ≡ none)
  after_copy-Has c none os p h = (p, refl)
  after_copy-Has c (some e) os p h = cc

  pub copy_to-Gives :
      (body : Reader)
      → Gives (Has t []) (copy_to t body) (λ _ os. Has t body.content os × (body.failure ≡ none))
  unfolding copy_to append_to file_at
  copy_to-Gives body = record {
    at = λ os a p h.
        or_fault-Gives (λ s. Has t body.content s × (body.failure ≡ none)) (os.faults os.calls) _ _
          (record os { calls = suc os.calls })
          (after_copy-Has body.content body.failure _
            (append_at-Has body.content (at_path t os) (record os { calls = suc os.calls }) p))
          h;
  }

  call-Gives :
      {A : Type 0} (c : List ℕ) (m : Io A)
      → ((os : Os) → file_at t (m os).1 ≡ file_at t os)
      → Gives (Has t c) m (λ _. Has t c)
  call-Gives c m k = record { at = λ os a p h. (p.0, k os ∙ p.1) }

  module _ (path : Text) where
    rename_to-Has :
        (c : List ℕ) (s d : Option Node) (os : Os)
        → (m : ℕ) × (file_of s ≡ some (c, m))
        → (rename_to t path s d os).0 ≡ ok tt
        → Has path c (rename_to t path s d os).1
    unfolding file_at
    rename_to-Has c (some (file e n)) (some directory) os p h = cc
    rename_to-Has c (some (file e n)) (some (file b k)) os p h = (
      n,
      ground (
        arith,
        p.1,
        lookup-put text_discrete path path (file e n) (delete text_discrete t os.nodes),
      ),
    )
    rename_to-Has c (some (file e n)) none os p h = (
      n,
      ground (
        arith,
        p.1,
        lookup-put text_discrete path path (file e n) (delete text_discrete t os.nodes),
      ),
    )
    rename_to-Has c (some directory) d os p h = cc
    rename_to-Has c none d os p h = cc

    link_to-Has :
        (c : List ℕ) (s d : Option Node) (os : Os)
        → (m : ℕ) × (file_of s ≡ some (c, m))
        → (link_to path s d os).0 ≡ ok tt
        → Has path c (link_to path s d os).1
    unfolding file_at
    link_to-Has c (some n) (some d) os p h = cc
    link_to-Has c (some (file e n)) none os p h =
        (n, ground (arith, p.1, lookup-put text_discrete path path (file e n) os.nodes))
    link_to-Has c (some directory) none os p h = cc
    link_to-Has c none d os p h = cc

    pub moved-Gives :
        (b : Bool) (c : List ℕ)
        → Gives (Has t c) (if b then rename t path else link t path) (λ _. Has path c)
    unfolding rename link file_at
    moved-Gives true c = record {
      at = λ os a p h.
          or_fault-Gives (Has path c) (os.faults os.calls) _ (λ s. s)
            (record os { calls = suc os.calls })
            (rename_to-Has c (at_path t os) (at_path path os) (record os { calls = suc os.calls })
              p)
            h;
    }
    moved-Gives false c = record {
      at = λ os a p h.
          or_fault-Gives (Has path c) (os.faults os.calls) _ (λ s. s)
            (record os { calls = suc os.calls })
            (link_to-Has c (at_path t os) (at_path path os) (record os { calls = suc os.calls }) p)
            h;
    }

module _ {A : Type 0} {P : Os → Type 0} {Q : A → Os → Type 0} where
  pub Gives-frame :
      (F : Type 0) (m : Io A) → Gives P m Q → Gives (λ os. P os × F) m (λ a os. Q a os × F)
  Gives-frame F m k = record { at = λ os a p h. (k.at os a p.0 h, p.1) }

  pub Gives-with_deferred :
      (m : Io A) (c : Io (Unit {0}))
      → Gives P m Q
      → ((a : A) (os : Os) → Q a os → Q a (c os).1)
      → Gives P (with_deferred m c) Q
  unfolding with_deferred
  Gives-with_deferred m c k l = record { at = λ os a p h. l a (m os).1 (k.at os a p h) }

pub sync_or_close-Gives : (t : Text) (c : List ℕ) → Gives (Has t c) sync_or_close (λ _. Has t c)
sync_or_close-Gives t c = call-Gives t c sync_or_close (λ os. KeepsAll-sync_or_close.at os t)

make_dir-random : (p : Text) (os : Os) → (make_dir p os).1.random ≡ os.random
unfolding make_dir
make_dir-random p os = ground arith

module _ (rnd : ℕ → Text) where
  abbrev pub Named : Os → Type 0
  Named os = os.random ≡ rnd

  make_all-Gives : (ps : List Text) → Gives Named (make_all ps) (λ _. Named)
  unfolding make_all
  make_all-Gives [] = record { at = λ os a p h. p }
  make_all-Gives (p ∷ ps) =
      Gives-bind (make_dir p) (λ _. make_all ps)
        (record { at = λ os a q h. make_dir-random p os ∙ q }) (λ _. make_all-Gives ps)

  pub mkdir_all-Gives : (p : Text) → Gives Named (mkdir_all p) (λ _. Named)
  unfolding mkdir_all
  mkdir_all-Gives p = record {
    at = λ os a q h.
        or_fault-Gives Named (os.faults os.calls) (make_all (ancestors p)) (λ s. s)
          (record os { calls = suc os.calls })
          (λ k. (make_all-Gives (ancestors p)).at (record os { calls = suc os.calls }) tt q k) h;
  }

  pub random_text-Gives : Gives Named random_text (λ name os. (n : ℕ) × (name ≡ rnd n))
  unfolding random_text
  random_text-Gives = record { at = λ os name q h. (os.calls, ground arith) }

pub lift-Gives :
    {A : Type 0} (P : Os → Type 0) (r : Result A) → Gives P (lift r) (λ a os. P os × (r ≡ ok a))
lift-Gives P r = record { at = λ os a p h. (p, h) }
