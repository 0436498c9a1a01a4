-- ===== src/Os/Files.antt =====
-- Which files the calls of Os.antt leave alone, and what they leave at a path.
use mathlib.Core.Logic.{◌≢◌}
use sharp_store.Prelude.{
  ℕ, suc, ◌≡◌, refl, ◌∙◌, Option, none, some, List, [], ◌∷◌, ◌++◌, Text, text_discrete, arith,
}
use sharp_store.Prelude.Maps.{lookup-put, lookup-delete}
use sharp_store.Errors.{Outcome, Result, ok, err}
use sharp_store.Backend.{Reader}
use sharp_store.Os.{
  Os, Io, Node, file, directory, ◌>>=◌, lift, at_path, set_node, stat, make_dir, make_all,
  mkdir_all, create_excl, chmod, append_to, take_bytes, copy_to, sync_or_close, remove, random_text,
  with_deferred, ignore, continue, or_fault, call, call_or, ancestors, chmod_at, append_at,
  after_copy,
}

-- the content and the mode of the file at a path
abbrev pub file_of : Option Node → Option (List ℕ × ℕ)
file_of (some (file c m)) = some (c, m)
file_of _ = none

unfoldable pub file_at : Text → Os → Option (List ℕ × ℕ)
file_at p os = file_of (at_path p os)

-- Every file but the one at `t` stays as it is, whether the calls fail or not.
pub record Keeps {A : Type 0} (t : Text) (m : Io A) : Type 0 where
  pub at : (os : Os) (q : Text) → t ≢ q → file_at q (m os).1 ≡ file_at q os

-- Every file stays as it is.
pub record KeepsAll {A : Type 0} (m : Io A) : Type 0 where
  pub at : (os : Os) (q : Text) → file_at q (m os).1 ≡ file_at q os

pub Keeps-of_KeepsAll : {A : Type 0} (t : Text) (m : Io A) → KeepsAll m → Keeps t m
Keeps-of_KeepsAll t m k = record { at = λ os q n. k.at os q }

module _ {A B : Type 0} where
  continue-file_at :
      (t : Text) (f : A → Io B) (r : Result A) (os : Os) (q : Text)
      → ((a : A) → Keeps t (f a))
      → t ≢ q
      → file_at q (continue r f os).1 ≡ file_at q os
  continue-file_at t f (ok a) os q k n = (k a).at os q n
  continue-file_at t f (err e) os q k n = refl

  pub Keeps-bind :
      (t : Text) (m : Io A) (f : A → Io B)
      → Keeps t m
      → ((a : A) → Keeps t (f a))
      → Keeps t (m >>= f)
  unfolding ◌>>=◌
  Keeps-bind t m f k l = record {
    at = λ os q n. continue-file_at t f (m os).0 (m os).1 q l n ∙ k.at os q n;
  }

  continue_all :
      (f : A → Io B) (r : Result A) (os : Os) (q : Text)
      → ((a : A) → KeepsAll (f a))
      → file_at q (continue r f os).1 ≡ file_at q os
  continue_all f (ok a) os q k = (k a).at os q
  continue_all f (err e) os q k = refl

  pub KeepsAll-bind :
      (m : Io A) (f : A → Io B) → KeepsAll m → ((a : A) → KeepsAll (f a)) → KeepsAll (m >>= f)
  unfolding ◌>>=◌
  KeepsAll-bind m f k l = record { at = λ os q. continue_all f (m os).0 (m os).1 q l ∙ k.at os q }

module _ {A : Type 0} where
  pub KeepsAll-lift : (r : Result A) → KeepsAll (lift r)
  KeepsAll-lift r = record { at = λ os q. refl }

  pub Keeps-with_deferred :
      (t : Text) (m : Io A) (c : Io (Unit {0}))
      → Keeps t m
      → Keeps t c
      → Keeps t (with_deferred m c)
  unfolding with_deferred
  Keeps-with_deferred t m c k l = record { at = λ os q n. l.at (m os).1 q n ∙ k.at os q n }

pub Keeps-ignore : (t : Text) (m : Io (Unit {0})) → Keeps t m → Keeps t (ignore m)
unfolding ignore
Keeps-ignore t m k = record { at = k.at }

pub KeepsAll-random_text : KeepsAll random_text
unfolding random_text file_at
KeepsAll-random_text = record { at = λ os q. refl }

pub KeepsAll-stat : (p : Text) → KeepsAll (stat p)
unfolding stat file_at
KeepsAll-stat p = record { at = λ os q. ground arith }

pub KeepsAll-sync_or_close : KeepsAll sync_or_close
unfolding sync_or_close file_at
KeepsAll-sync_or_close = record { at = λ os q. ground arith }

KeepsAll-make_dir : (p : Text) → KeepsAll (make_dir p)
unfolding make_dir file_at
KeepsAll-make_dir p = record {
  at = λ os q. ground (arith, lookup-put text_discrete p q directory os.nodes);
}

KeepsAll-make_all : (ps : List Text) → KeepsAll (make_all ps)
unfolding make_all
KeepsAll-make_all [] = record { at = λ os q. refl }
KeepsAll-make_all (p ∷ ps) =
    KeepsAll-bind (make_dir p) (λ _. make_all ps) (KeepsAll-make_dir p) (λ _. KeepsAll-make_all ps)

or_fault-file_at :
    {A : Type 0} (o : Outcome) (m : Io A) (partial : Os → Os) (os : Os) (q : Text)
    {x : Option (List ℕ × ℕ)}
    → file_at q (m os).1 ≡ x
    → file_at q (partial os) ≡ x
    → file_at q (or_fault o m partial os).1 ≡ x
or_fault-file_at none m partial os q h g = h
or_fault-file_at (some e) m partial os q h g = g

-- counting a call changes no file
counted : Os → Os
counted os = record os { calls = suc os.calls }

counted-file_at : (os : Os) (q : Text) → file_at q (counted os) ≡ file_at q os
unfolding file_at counted
counted-file_at os q = refl

pub KeepsAll-call : {A : Type 0} (m : Io A) → KeepsAll m → KeepsAll (call m)
unfolding counted
KeepsAll-call m k = record {
  at = λ os q.
      or_fault-file_at (os.faults os.calls) m (λ o. o) (counted os) q
        (k.at (counted os) q ∙ counted-file_at os q) (counted-file_at os q);
}

Keeps-call_or :
    {A : Type 0} (t : Text) (partial : Os → Os) (m : Io A)
    → ((os : Os) (q : Text) → t ≢ q → file_at q (partial os) ≡ file_at q os)
    → Keeps t m
    → Keeps t (call_or partial m)
unfolding counted
Keeps-call_or t partial m h k = record {
  at = λ os q n.
      or_fault-file_at (os.faults os.calls) m partial (counted os) q
        (k.at (counted os) q n ∙ counted-file_at os q) (h (counted os) q n ∙ counted-file_at os q);
}

pub KeepsAll-mkdir_all : (p : Text) → KeepsAll (mkdir_all p)
unfolding mkdir_all
KeepsAll-mkdir_all p = KeepsAll-call (make_all (ancestors p)) (KeepsAll-make_all (ancestors p))

set_node-file_at :
    (t q : Text) (n : Node) (os : Os) → t ≢ q → file_at q (set_node t n os) ≡ file_at q os
unfolding file_at
set_node-file_at t q n os h = ground (arith, lookup-put text_discrete t q n os.nodes)

pub Keeps-create_excl : (t : Text) (mode : ℕ) → Keeps t (create_excl t mode)
unfolding create_excl file_at
Keeps-create_excl t mode = record {
  at = λ os q n. ground (arith, lookup-put text_discrete t q (file [] mode) os.nodes);
}

chmod_at-file_at :
    (t : Text) (mode : ℕ) (o : Option Node) (os : Os) (q : Text)
    → t ≢ q
    → file_at q (chmod_at t mode o os).1 ≡ file_at q os
chmod_at-file_at t mode (some (file c m)) os q h = set_node-file_at t q (file c mode) os h
chmod_at-file_at t mode (some directory) os q h = refl
chmod_at-file_at t mode none os q h = refl

append_at-file_at :
    (t : Text) (c : List ℕ) (o : Option Node) (os : Os) (q : Text)
    → t ≢ q
    → file_at q (append_at t c o os) ≡ file_at q os
append_at-file_at t c (some (file d m)) os q h = set_node-file_at t q (file (d ++ c) m) os h
append_at-file_at t c (some directory) os q h = refl
append_at-file_at t c none os q h = refl

append_to-file_at :
    (t : Text) (c : List ℕ) (os : Os) (q : Text)
    → t ≢ q
    → file_at q (append_to t c os) ≡ file_at q os
unfolding append_to
append_to-file_at t c os q h = append_at-file_at t c (at_path t os) os q h

after_copy-file_at :
    (o : Outcome) (os : Os) (q : Text) → file_at q (after_copy o os).1 ≡ file_at q os
after_copy-file_at none os q = refl
after_copy-file_at (some e) os q = refl

pub Keeps-chmod : (t : Text) (mode : ℕ) → Keeps t (chmod t mode)
unfolding chmod
Keeps-chmod t mode =
    Keeps-call_or t (λ os. os) (λ os. chmod_at t mode (at_path t os) os) (λ os q n. refl)
      (record { at = λ os q n. chmod_at-file_at t mode (at_path t os) os q n })

pub Keeps-copy_to : (t : Text) (r : Reader) → Keeps t (copy_to t r)
unfolding copy_to
Keeps-copy_to t r =
    Keeps-call_or t (λ os. append_to t (take_bytes (os.written os.calls) r.content) os)
      (λ os. after_copy r.failure (append_to t r.content os))
      (λ os q h. append_to-file_at t (take_bytes (os.written os.calls) r.content) os q h)
      (record {
        at = λ os q h.
            after_copy-file_at r.failure (append_to t r.content os) q
            ∙ append_to-file_at t r.content os q h;
      })

pub Keeps-remove : (t : Text) → Keeps t (remove t)
unfolding remove file_at
Keeps-remove t = record { at = λ os q n. ground (arith, lookup-delete text_discrete t q os.nodes) }
