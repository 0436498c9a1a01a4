-- ===== src/Prelude/Maps.antt =====
-- Go maps as association lists: `lookup` is the library's, `m[k] = v` is `put`, `delete(m, k)` is
-- `delete`, and `len(m)` is the length. `put` writes in place, so a key stands once.
use mathlib.Core.Path.{◌≡◌, refl, sym, subst}
use mathlib.Core.List.{List, [], ◌∷◌, lookup}
use mathlib.Core.Logic.{◌≢◌, ite, if_pos, if_neg}
use mathlib.Core.Option.{Option, none, some}
use native.Mathlib.Omega.{arith}
use Prim.Native.Nat.{◌+◌, ◌≤◌}
use sharp_store.Prelude.Lists.{length}

abbrev pub Map {ℓ} : Type ℓ → Type ℓ → Type ℓ
Map K V = List (K × V)

module _ {ℓ} {K V : Type ℓ} (dec : Discrete K) where
  unfoldable pub put : K → V → Map K V → Map K V
  put k v [] = (k, v) ∷ []
  put k v ((j, w) ∷ m) = ite (dec j k) ((k, v) ∷ m) ((j, w) ∷ put k v m)

  unfoldable pub delete : K → Map K V → Map K V
  delete k [] = []
  delete k ((j, w) ∷ m) = let rest = delete k m in ite (dec j k) rest ((j, w) ∷ rest)

  pub lookup-put :
      (k j : K) (v : V) (m : Map K V)
      → lookup dec j (put k v m) ≡ ite (dec k j) (some v) (lookup dec j m)
  unfolding put lookup
  lookup-put k j v [] = ground arith
  lookup-put k j v ((i, w) ∷ m) = ground (arith, lookup-put k j v m)

  pub lookup-delete :
      (k j : K) (m : Map K V) → lookup dec j (delete k m) ≡ ite (dec k j) none (lookup dec j m)
  unfolding delete lookup
  lookup-delete k j [] = ground arith
  lookup-delete k j ((i, w) ∷ m) = ground (arith, lookup-delete k j m)

-- `for k, v := range m { copy[k] = f(v) }` into a fresh map. Go leaves the order of a range open;
-- here it runs from the back of the list.
unfoldable pub copy_map {ℓ} : {K V : Type ℓ} → Discrete K → (V → V) → Map K V → Map K V
unfolding put
copy_map dec f [] = []
copy_map dec f ((k, v) ∷ m) = put dec k (f v) (copy_map dec f m)

abbrev pub map_option {ℓ} : {A B : Type ℓ} → (A → B) → Option A → Option B
map_option f none = none
map_option f (some a) = some (f a)

pub lookup-copy_map {ℓ} :
    {K V : Type ℓ} (dec : Discrete K) (f : V → V) (k : K) (m : Map K V)
    → lookup dec k (copy_map dec f m) ≡ map_option f (lookup dec k m)
unfolding copy_map lookup
lookup-copy_map dec f k [] = refl
lookup-copy_map dec f k ((j, v) ∷ m) = rw lookup-put (ground (arith, lookup-copy_map dec f k m))

-- A Go map holds a key once. Maps are built from the empty one by `put` and `delete`, which keep it so.
abbrev pub Fresh {ℓ} : {K V : Type ℓ} → K → Map K V → Type ℓ
Fresh k [] = Unit
Fresh k ((j, w) ∷ m) = (j ≢ k) × Fresh k m

abbrev pub HasDistinctKeys {ℓ} : {K V : Type ℓ} → Map K V → Type ℓ
HasDistinctKeys [] = Unit
HasDistinctKeys ((k, v) ∷ m) = Fresh k m × HasDistinctKeys m

module _ {ℓ} {K V : Type ℓ} (dec : Discrete K) where
  pub put-Fresh : (k j : K) (v : V) (m : Map K V) → k ≢ j → Fresh j m → Fresh j (put dec k v m)
  unfolding put
  put-Fresh k j v [] n f = (n, tt)
  put-Fresh k j v ((i, w) ∷ m) n f = ground (arith, put-Fresh k j v m)

  pub put-HasDistinctKeys :
      (k : K) (v : V) (m : Map K V) → HasDistinctKeys m → HasDistinctKeys (put dec k v m)
  unfolding put
  put-HasDistinctKeys k v [] h = (tt, tt)
  put-HasDistinctKeys k v ((i, w) ∷ m) h = elim (dec i k) [
    | yes p ↦ rw (if_pos (dec i k) p) (subst (λ x. Fresh x m) p h.0, h.1)
    | no p ↦
        rw (if_neg (dec i k) p)
          (put-Fresh k i v m (λ e. p (sym e)) h.0, put-HasDistinctKeys k v m h.1)
  ]

  delete-Fresh : (k j : K) (m : Map K V) → Fresh j m → Fresh j (delete dec k m)
  unfolding delete
  delete-Fresh k j [] f = tt
  delete-Fresh k j ((i, w) ∷ m) f = ground (arith, delete-Fresh k j m f.1)

  pub delete-HasDistinctKeys :
      (k : K) (m : Map K V) → HasDistinctKeys m → HasDistinctKeys (delete dec k m)
  unfolding delete
  delete-HasDistinctKeys k [] h = tt
  delete-HasDistinctKeys k ((i, w) ∷ m) h =
      ground (arith, delete-HasDistinctKeys k m h.1, delete-Fresh k i m h.0)

  pub lookup-Fresh : (k : K) (m : Map K V) → Fresh k m → lookup dec k m ≡ none
  unfolding lookup
  lookup-Fresh k [] f = refl
  lookup-Fresh k ((j, w) ∷ m) f = ground (arith, lookup-Fresh k m f.1)

  pub length-put-le : (k : K) (v : V) (m : Map K V) → length (put dec k v m) ≤ length m + 1
  unfolding put
  length-put-le k v [] = omega arith
  length-put-le k v ((j, w) ∷ m) = ground (arith, length-put-le k v m)

  pub length-put-Fresh :
      (k : K) (v : V) (m : Map K V) → Fresh k m → length (put dec k v m) ≡ length m + 1
  unfolding put
  length-put-Fresh k v [] f = omega arith
  length-put-Fresh k v ((j, w) ∷ m) f = ground (arith, length-put-Fresh k v m f.1)
