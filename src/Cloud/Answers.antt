-- ===== src/Cloud/Answers.antt =====
-- What the answers of a cloud backend's methods tell of the calls that were made.
use sharp_store.Prelude.{
  ◌⊎◌, inl, inr, ℕ, ◌≡◌, refl, Bool, true, false, Option, none, some, List, Text, if◌then◌else◌,
}
use sharp_store.Errors.{Error, Outcome, Result, ok, err}
use sharp_store.Backend.{Reader}
use sharp_store.Cloud.{some_reader, as_result, succeeded, absent_if, saved}

-- Inversion of an upload that ended without an error.
pub saved-eq-ok :
    (conflict : Error → Bool) (overwrite : Bool) (file_id : Text) (r : Result (Unit {0}))
    (id : Text)
    → saved conflict overwrite file_id r ≡ ok id
    → (r ≡ ok tt) × (id ≡ file_id)
saved-eq-ok conflict overwrite file_id (ok u) id h = (refl, cc)
saved-eq-ok conflict true file_id (err e) id h = cc
saved-eq-ok conflict false file_id (err e) id h = refused (conflict e) _ h
  where
    refused :
        {X : Type 0} (b : Bool) (d : Error)
        → ◌≡◌ {A = Result Text} (if b then err d else err e) (ok id)
        → X
    refused true d g = cc
    refused false d g = cc

abbrev pub is_some : Option (List ℕ) → Bool
is_some none = false
is_some (some content) = true

-- What a call that may say that there is no object tells of the object.
pub found-eq-ok :
    (not_found : Error → Bool) (o : Option (List ℕ)) (q : Result (Unit {0})) (found : Bool)
    → (q ≡ ok tt → (content : List ℕ) × (o ≡ some content))
    → ((e : Error) → q ≡ err e → not_found e ≡ true → o ≡ none)
    → absent_if not_found false (succeeded q) ≡ ok found
    → found ≡ is_some o
found-eq-ok not_found o (ok u) found h g e = let (content, there) = h refl in rw there cc
found-eq-ok not_found o (err d) found h g e = absent_or (not_found d) refl e
  where
    absent_or :
        (b : Bool)
        → not_found d ≡ b
        → ◌≡◌ {A = Result Bool} (if b then ok false else err d) (ok found)
        → found ≡ is_some o
    absent_or true n f = rw (g d refl n) cc
    absent_or false n f = cc

-- Inversion of the call that removes an object.
pub succeeded-eq-ok :
    (q : Result (Unit {0})) (b : Bool) → succeeded q ≡ ok b → (q ≡ ok tt) × (b ≡ true)
succeeded-eq-ok (ok u) b h = (refl, cc)
succeeded-eq-ok (err e) b h = cc

pub is_some-false : (o : Option (List ℕ)) → false ≡ is_some o → o ≡ none
is_some-false none h = refl
is_some-false (some content) h = cc

pub as_result-eq-ok :
    {S : Type 0} (p : (Bool × Outcome) × S) (b : Bool) (s : S)
    → as_result p ≡ (ok b, s)
    → p ≡ ((b, none), s)
as_result-eq-ok ((a, none), s₁) b s h = cc
as_result-eq-ok ((a, some e), s₁) b s h = cc

-- What a call that may say that there is no object tells of the reader that is returned.
pub found_body-eq-ok :
    (not_found : Error → Bool) (o : Option (List ℕ)) (q : Result Reader) (r : Option Reader)
    → ((e : Error) → q ≡ err e → not_found e ≡ true → o ≡ none)
    → absent_if not_found none (some_reader q) ≡ ok r
    → ((reader : Reader) × (q ≡ ok reader) × (r ≡ some reader)) ⊎ ((o ≡ none) × (r ≡ none))
found_body-eq-ok not_found o (ok reader) r g e = inl (reader, refl, cc)
found_body-eq-ok not_found o (err d) r g e = absent_or (not_found d) refl e
  where
    absent_or :
        (b : Bool)
        → not_found d ≡ b
        → ◌≡◌ {A = Result (Option Reader)} (if b then ok none else err d) (ok r)
        → ((reader : Reader) × (◌≡◌ {A = Result Reader} (err d) (ok reader)) × (r ≡ some reader))
          ⊎ ((o ≡ none) × (r ≡ none))
    absent_or true n f = inr (g d refl n, cc)
    absent_or false n f = cc
