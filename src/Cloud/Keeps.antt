-- ===== src/Cloud/Keeps.antt =====
-- Calls that keep a view of the state, and what a call that ended without an error was made of.
use sharp_store.Prelude.{
  ◌≡◌, refl, sym, ◌∙◌, ap, Option, none, some, Bool, true, false, if◌then◌else◌,
}
use sharp_store.Errors.{Error, Result, ok, err}
use mathlib.Core.List.{lookup}
use sharp_store.Scope.{Context}
use sharp_store.Cloud.{
  Cloud, Act, after, ◌>>=◌, pure, returned, remotely, remote_context, stored_or, load_or_store,
  kept, loaded_or, client_for,
}
use sharp_store.Cloud.Steps.{caught, configured, create_if_missing, or_create, or_look}

module _ {S X : Type 0} (view : S → X) where
  abbrev pub Keeps : {A : Type 0} → Act S A → Type 0
  Keeps m = (s : S) → view (m s).1 ≡ view s

  after-Keeps :
      {A B : Type 0} (f : A → Act S B)
      → ((a : A) → Keeps (f a))
      → (r : Result A) (s : S) → view (after r f s).1 ≡ view s
  after-Keeps f h (ok a) s = h a s
  after-Keeps f h (err e) s = refl

  pub >>=-Keeps :
      {A B : Type 0} (m : Act S A) (f : A → Act S B)
      → Keeps m
      → ((a : A) → Keeps (f a))
      → Keeps (m >>= f)
  >>=-Keeps m f h g s = after-Keeps f g (m s).0 (m s).1 ∙ h s

  pub caught-Keeps :
      {A B : Type 0} (m : Act S A) (f : Result A → Act S B)
      → Keeps m
      → ((r : Result A) → Keeps (f r))
      → Keeps (caught m f)
  caught-Keeps m f h g s = g (m s).0 (m s).1 ∙ h s

module _ {S A B : Type 0} where
  after-eq-ok :
      (f : A → Act S B) (p : Result A × S) (b : B) (s' : S)
      → after p.0 f p.1 ≡ (ok b, s')
      → (a : A) × (s₁ : S) × (p ≡ (ok a, s₁)) × (f a s₁ ≡ (ok b, s'))
  after-eq-ok f (ok a, s₁) b s' h = (a, s₁, refl, h)
  after-eq-ok f (err e, s₁) b s' h = cc

  -- Inversion of a successful sequence.
  pub >>=-eq-ok :
      (m : Act S A) (f : A → Act S B) (s : S) (b : B) (s' : S)
      → (m >>= f) s ≡ (ok b, s')
      → (a : A) × (s₁ : S) × (m s ≡ (ok a, s₁)) × (f a s₁ ≡ (ok b, s'))
  >>=-eq-ok m f s b s' h = after-eq-ok f (m s) b s' h

-- Inversion of a method that returns no error.
pub returned-eq-ok :
    {S A : Type 0} (zero_value : A) (p : Result A × S) (a : A) (s' : S)
    → returned zero_value p ≡ ((a, none), s')
    → p ≡ (ok a, s')
returned-eq-ok zero_value (ok b, s) a s' h = cc
returned-eq-ok zero_value (err e, s) a s' h = cc

-- Views of what an SDK acts on: the clients that are kept do not count.
module _ {K C R X : Type 0} (view : R → X) where
  abbrev pub KeepsRemote : {A : Type 0} → Act (Cloud K C R) A → Type 0
  KeepsRemote = Keeps (λ s. view s.remote)

  pub remotely-Keeps :
      {A : Type 0} (ctx : Context (Cloud K C R)) (m : Context R → R → Result A × R)
      → ((c : Context R) (w : R) → view (m c w).1 ≡ view w)
      → KeepsRemote (remotely ctx m)
  remotely-Keeps ctx m h s = h (remote_context ctx s) s.remote

  pub ended-Keeps :
      {A : Type 0} (m : Act (Cloud K C R) A) (s s' : Cloud K C R) (a : Result A)
      → KeepsRemote m
      → m s ≡ (a, s')
      → view s'.remote ≡ view s.remote
  ended-Keeps m s s' a h e = sym (ap (λ p. view p.1.remote) e) ∙ h s

  stored_or-remote :
      (dec : Discrete K) (k : K) (c : C) (s : Cloud K C R) (o : Option C)
      → view (stored_or dec k c o s).1.remote ≡ view s.remote
  stored_or-remote dec k c s none = refl
  stored_or-remote dec k c s (some d) = refl

  kept-Keeps : (dec : Discrete K) (k : K) (c : C) → KeepsRemote (kept dec k c)
  unfolding load_or_store
  kept-Keeps dec k c s = stored_or-remote dec k c s (lookup dec k s.clients)

  loaded_or-Keeps :
      (dec : Discrete K) (k : K) (o : Option C) (make : Act (Cloud K C R) C)
      → KeepsRemote make
      → KeepsRemote (loaded_or dec k o make)
  loaded_or-Keeps dec k (some c) make h s = refl
  loaded_or-Keeps dec k none make h s =
      >>=-Keeps (λ s₁. view s₁.remote) make (λ c. kept dec k c) h (λ c. kept-Keeps dec k c) s

  client_for-Keeps :
      (dec : Discrete K) (k : K) (make : Act (Cloud K C R) C)
      → KeepsRemote make
      → KeepsRemote (client_for dec k make)
  unfolding client_for
  client_for-Keeps dec k make h s = loaded_or-Keeps dec k (lookup dec k s.clients) make h s

  -- Finding the client of a configuration keeps what is seen of the remote side, if making one does.
  pub configured-Keeps :
      (dec : Discrete K) (r : Result K) (make : K → Act (Cloud K C R) C)
      → ((k : K) → KeepsRemote (make k))
      → KeepsRemote (configured dec r make)
  unfolding configured
  configured-Keeps dec (ok k) make h s =
      >>=-Keeps (λ s₁. view s₁.remote) (client_for dec k (make k)) (λ c. pure (c, k))
        (client_for-Keeps dec k (make k) (h k)) (λ c s₁. refl) s
  configured-Keeps dec (err e) make h s = refl

  if-Keeps :
      {A : Type 0} (b : Bool) (m n : Act (Cloud K C R) A)
      → KeepsRemote m
      → KeepsRemote n
      → KeepsRemote (λ s. if b then m s else n s)
  if-Keeps true m n h g = h
  if-Keeps false m n h g = g

  or_look-Keeps :
      (conflict : Error → Bool) (look : Act (Cloud K C R) (Unit {0})) (r : Result (Unit {0}))
      → KeepsRemote look
      → KeepsRemote (or_look conflict look r)
  or_look-Keeps conflict look (ok u) h s = refl
  or_look-Keeps conflict look (err e) h s =
      if-Keeps (conflict e) look (λ s₁. (err e, s₁)) h (λ s₁. refl) s

  or_create-Keeps :
      (not_found : Error → Bool) (create : Act (Cloud K C R) (Unit {0})) (r : Result (Unit {0}))
      → KeepsRemote create
      → KeepsRemote (or_create not_found create r)
  or_create-Keeps not_found create (ok u) h s = refl
  or_create-Keeps not_found create (err e) h s =
      if-Keeps (not_found e) create (λ s₁. (err e, s₁)) h (λ s₁. refl) s

  -- So does creating a missing bucket, if looking at it and creating it do.
  pub create_if_missing-Keeps :
      (not_found conflict : Error → Bool) (look create : Act (Cloud K C R) (Unit {0})) (flag : Bool)
      → KeepsRemote look
      → KeepsRemote create
      → KeepsRemote (create_if_missing not_found conflict look create flag)
  unfolding create_if_missing
  create_if_missing-Keeps not_found conflict look create false h g s = refl
  create_if_missing-Keeps not_found conflict look create true h g s =
      let v = λ (s₁ : Cloud K C R). view s₁.remote in
      caught-Keeps v look (or_create not_found (caught create (or_look conflict look))) h
        (λ r.
          or_create-Keeps not_found (caught create (or_look conflict look)) r (
            caught-Keeps v create (or_look conflict look) g (λ q. or_look-Keeps conflict look q h)))
        s

-- The configuration that comes with a client is the one that was read.
pub configured-eq-ok :
    {K C R : Type 0} (dec : Discrete K) (r : Result K) (make : K → Act (Cloud K C R) C)
    (s : Cloud K C R) (c : C) (k : K) (s' : Cloud K C R)
    → configured dec r make s ≡ (ok (c, k), s')
    → r ≡ ok k
unfolding configured
configured-eq-ok dec (err e) make s c k s' h = cc
configured-eq-ok dec (ok j) make s c k s' h =
    let (d, s₁, _, e) = >>=-eq-ok (client_for dec j (make j)) (λ d. pure (d, j)) s (c, k) s' h in cc
