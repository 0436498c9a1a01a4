-- ===== src/Cloud/Aws/Store.antt =====
-- An object store, as the documentation of S3 describes the calls that backend/aws/aws.go makes.
use sharp_store.Prelude.{
  ◌≢◌, ◌⊎◌, ℕ, ◌≡◌, Bool, true, Option, none, some, List, [], ◌∷◌, Text, text,
}
use sharp_store.Errors.{Error, ok, err}
use sharp_store.Scope.{Context}
use sharp_store.Backend.{Reader}
use sharp_store.Cloud.Steps.{code_in}
use sharp_store.Cloud.Aws.{AwsSdk}

-- The objects of all buckets: the content of a key, if there is an object.
abbrev pub Objects : Type 0
Objects = Text → Text → Option (List ℕ)

-- The codes by which the service says that there is no such object, or no such bucket.
abbrev pub codes_of_absence : List Text
codes_of_absence =
    text "NoSuchBucket" ∷ text "NoSuchKey" ∷ text "NoSuchObject" ∷ text "NotFound" ∷ text "404" ∷ []

-- What S3 documents of the calls that the backend makes, for the view `objects` of the remote side.
pub record IsStore {D C R : Type 0} (sdk : AwsSdk D C R) (objects : R → Objects) : Type 0 where
  pub load_default_config-keeps :
      (region : Text) (x : Context R) (w : R)
      → objects (sdk.load_default_config region x w).1 ≡ objects w
  pub head_bucket-keeps :
      (c : C) (b : Text) (x : Context R) (w : R) → objects (sdk.head_bucket c b x w).1 ≡ objects w
  pub create_bucket-keeps :
      (c : C) (b : Text) (l : Option Text) (x : Context R) (w : R)
      → objects (sdk.create_bucket c b l x w).1 ≡ objects w
  pub head_object-keeps :
      (c : C) (b k : Text) (x : Context R) (w : R)
      → objects (sdk.head_object c b k x w).1 ≡ objects w
  pub head_object-present :
      (c : C) (b k : Text) (x : Context R) (w : R)
      → (sdk.head_object c b k x w).0 ≡ ok tt
      → (content : List ℕ) × (objects w b k ≡ some content)
  pub head_object-absent :
      (c : C) (b k : Text) (x : Context R) (w : R) (e : Error)
      → (sdk.head_object c b k x w).0 ≡ err e
      → code_in codes_of_absence (sdk.api_error e) ≡ true
      → objects w b k ≡ none
  -- an upload that succeeds has read the body to its end
  pub put_object-content :
      (c : C) (b k : Text) (body : Reader) (if_none : Bool) (x : Context R) (w : R)
      → (sdk.put_object c b k body if_none x w).0 ≡ ok tt
      → (body.failure ≡ none)
        × (objects (sdk.put_object c b k body if_none x w).1 b k ≡ some body.content)
  -- and with `If-None-Match: *` it has found no object
  pub put_object-new :
      (c : C) (b k : Text) (body : Reader) (x : Context R) (w : R)
      → (sdk.put_object c b k body true x w).0 ≡ ok tt
      → objects w b k ≡ none
  pub delete_object-absent :
      (c : C) (b k : Text) (x : Context R) (w : R)
      → (sdk.delete_object c b k x w).0 ≡ ok tt
      → objects (sdk.delete_object c b k x w).1 b k ≡ none
  pub get_object-keeps :
      (c : C) (b k : Text) (x : Context R) (w : R)
      → objects (sdk.get_object c b k x w).1 ≡ objects w
  -- a body gives the object's bytes, unless it fails on the way
  pub get_object-content :
      (c : C) (b k : Text) (x : Context R) (w : R) (reader : Reader)
      → (sdk.get_object c b k x w).0 ≡ ok reader
      → (objects w b k ≡ some reader.content) ⊎ ((e : Error) × (reader.failure ≡ some e))
  pub get_object-absent :
      (c : C) (b k : Text) (x : Context R) (w : R) (e : Error)
      → (sdk.get_object c b k x w).0 ≡ err e
      → code_in codes_of_absence (sdk.api_error e) ≡ true
      → objects w b k ≡ none
  -- and an upload, whatever it returns, touches no object of another key
  pub put_object-frame :
      (c : C) (b k : Text) (body : Reader) (if_none : Bool) (x : Context R) (w : R) (b' k' : Text)
      → k ≢ k'
      → objects (sdk.put_object c b k body if_none x w).1 b' k' ≡ objects w b' k'
