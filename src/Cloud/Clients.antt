-- ===== src/Cloud/Clients.antt =====
-- The clients that a cloud backend keeps: what goroutines that make clients at the same time see.
use mathlib.Core.List.{lookup}
use sharp_store.Prelude.{[], ◌≡◌, refl, arith, Option, none, some, List, ◌∷◌}
use sharp_store.Prelude.Maps.{lookup-put}
use sharp_store.Errors.{Result, ok}
use sharp_store.Cloud.{Cloud, Act, load_or_store, stored_or, client_for, loaded_or, kept}
use sharp_store.Cloud.Keeps.{>>=-eq-ok}

module _ {K C R : Type 0} (dec : Discrete K) where
  -- LoadOrStore of one goroutine after another
  unfoldable pub store_all : List (K × C) → Cloud K C R → Cloud K C R
  unfolding load_or_store
  store_all [] s = s
  store_all ((k, c) ∷ es) s = store_all es ((load_or_store dec k c s).1)

  stored_or-lookup :
      (k : K) (c : C) (s : Cloud K C R) (o : Option C)
      → lookup dec k s.clients ≡ o
      → lookup dec k (stored_or dec k c o s).1.clients ≡ some (stored_or dec k c o s).0
  stored_or-lookup k c s none h = rw lookup-put (ground arith)
  stored_or-lookup k c s (some d) h = h

  load_or_store-lookup :
      (k : K) (c : C) (s : Cloud K C R)
      → lookup dec k (load_or_store dec k c s).1.clients ≡ some (load_or_store dec k c s).0
  unfolding load_or_store
  load_or_store-lookup k c s = stored_or-lookup k c s (lookup dec k s.clients) refl

  stored_or-keeps :
      (k j : K) (c d : C) (s : Cloud K C R) (o : Option C)
      → lookup dec j s.clients ≡ o
      → lookup dec k s.clients ≡ some d
      → lookup dec k (stored_or dec j c o s).1.clients ≡ some d
  stored_or-keeps k j c d s none g h = rw lookup-put (ground arith)
  stored_or-keeps k j c d s (some b) g h = h

  load_or_store-keeps :
      (k j : K) (c d : C) (s : Cloud K C R)
      → lookup dec k s.clients ≡ some d
      → lookup dec k (load_or_store dec j c s).1.clients ≡ some d
  unfolding load_or_store
  load_or_store-keeps k j c d s h = stored_or-keeps k j c d s (lookup dec j s.clients) refl h

  store_all-keeps :
      (k : K) (d : C) (es : List (K × C)) (s : Cloud K C R)
      → lookup dec k s.clients ≡ some d
      → lookup dec k (store_all es s).clients ≡ some d
  unfolding store_all
  store_all-keeps k d [] s h = h
  store_all-keeps k d ((j, c) ∷ es) s h =
      store_all-keeps k d es (load_or_store dec j c s).1 (load_or_store-keeps k j c d s h)

  -- a client that is kept is handed out, and nothing else is done
  client_for-kept :
      (k : K) (d : C) (make : Act (Cloud K C R) C) (s : Cloud K C R)
      → lookup dec k s.clients ≡ some d
      → client_for dec k make s ≡ (ok d, s)
  unfolding client_for
  client_for-kept k d make s h = rw h refl

  answer-lookup :
      (k : K) (p : C × Cloud K C R) (d : C) (s' : Cloud K C R)
      → lookup dec k p.1.clients ≡ some p.0
      → ◌≡◌ {A = Result C × Cloud K C R} (ok p.0, p.1) (ok d, s')
      → lookup dec k s'.clients ≡ some d
  answer-lookup k (c, s) d s' h e = cc

  loaded_or-lookup :
      (k : K) (d : C) (make : Act (Cloud K C R) C) (s s' : Cloud K C R) (o : Option C)
      → lookup dec k s.clients ≡ o
      → loaded_or dec k o make s ≡ (ok d, s')
      → lookup dec k s'.clients ≡ some d
  loaded_or-lookup k d make s s' (some c) g h = answer-lookup k (c, s) d s' g h
  loaded_or-lookup k d make s s' none g h =
      let (c, s₁, _, e) = >>=-eq-ok make (λ c. kept dec k c) s d s' h in
      answer-lookup k (load_or_store dec k c s₁) d s' (load_or_store-lookup k c s₁) e

  -- Once a call has returned a client for a key, every later call for that key returns that client
  -- and makes no other, whatever clients were stored in between.
  pub client_for-stable :
      (k : K) (d : C) (make remake : Act (Cloud K C R) C) (s s' : Cloud K C R) (es : List (K × C))
      → client_for dec k make s ≡ (ok d, s')
      → client_for dec k remake (store_all es s') ≡ (ok d, store_all es s')
  unfolding client_for
  client_for-stable k d make remake s s' es h =
      client_for-kept k d remake (store_all es s')
        (store_all-keeps k d es s' (loaded_or-lookup k d make s s' (lookup dec k s.clients) refl h))
