-- ===== src/Examples/Stores.antt =====
-- An object store in memory, with the calls of the SDK that backend/aws makes of S3.
use sharp_store.Prelude.{
  ◌≢◌, inl, ap, ◌≡◌, refl, ℕ, Bool, true, false, ◌&&◌, Option, none, some, List, Text, text,
  text_discrete, same, if◌then◌else◌,
}
use sharp_store.Errors.{Error, Outcome, Result, ok, err, sentinel, not_exist, exist}
use sharp_store.Backend.{Reader}
use sharp_store.Cloud.Aws.{AwsSdk, ClientOptions}
use sharp_store.Cloud.Aws.Store.{Objects, IsStore}

abbrev at : Text → Text → Option (List ℕ) → Objects → Objects
at b k o w b' k' = if same b b' && same k k' then o else w b' k'

abbrev missing : Error
missing = sentinel not_exist

abbrev taken : Error
taken = sentinel exist

abbrev head : Option (List ℕ) → Result (Unit {0})
head none = err missing
head (some content) = ok tt

abbrev code_of : Error → Option Text
code_of (sentinel not_exist) = some (text "404")
code_of (sentinel exist) = some (text "PreconditionFailed")
code_of e = none

abbrev stored :
    Text → Text → Reader → Outcome → Bool → Option (List ℕ) → Objects → Result (Unit {0}) × Objects
stored b k body (some e) if_none old w = (err e, w)
stored b k body none true (some content) w = (err taken, w)
stored b k body none true none w = (ok tt, at b k (some body.content) w)
stored b k body none false old w = (ok tt, at b k (some body.content) w)

abbrev read : Option (List ℕ) → Result Reader
read none = err missing
read (some content) = ok (record { content = content; failure = none })

abbrev pub memory_sdk : AwsSdk (Unit {0}) ClientOptions Objects
memory_sdk = record {
  load_default_config = λ region x w. (ok tt, w);
  new_from_config = λ d options. options;
  head_bucket = λ c b x w. (ok tt, w);
  head_object = λ c b k x w. (head (w b k), w);
  delete_object = λ c b k x w. (ok tt, at b k none w);
  create_bucket = λ c b l x w. (ok tt, w);
  put_object = λ c b k body if_none x w. stored b k body body.failure if_none (w b k) w;
  get_object = λ c b k x w. (read (w b k), w);
  presign_get_object = λ c b k expires x w. (ok k, w);
  api_error = code_of;
  now = λ w. 0;
}

same_self : (s : Text) → same s s ≡ true
same_self s = elim (text_discrete s s) as (λ d. elim d [ yes _ ↦ true | no _ ↦ false ] ≡ true) [
  | yes e ↦ refl
  | no n ↦ absurd (n refl)
]

at_self : (b k : Text) (o : Option (List ℕ)) (w : Objects) → at b k o w b k ≡ o
at_self b k o w = rw (same_self b, same_self k) refl

head-present : (o : Option (List ℕ)) → head o ≡ ok tt → (content : List ℕ) × (o ≡ some content)
head-present none h = cc
head-present (some content) h = (content, refl)

head-absent : (o : Option (List ℕ)) (e : Error) → head o ≡ err e → o ≡ none
head-absent none e h = refl
head-absent (some content) e h = cc

stored-content :
    (b k : Text) (body : Reader) (f : Outcome) (if_none : Bool) (o : Option (List ℕ)) (w : Objects)
    → (stored b k body f if_none o w).0 ≡ ok tt
    → (f ≡ none) × ((stored b k body f if_none o w).1 b k ≡ some body.content)
stored-content b k body (some e) if_none o w h = cc
stored-content b k body none true (some content) w h = cc
stored-content b k body none true none w h = (refl, at_self b k (some body.content) w)
stored-content b k body none false o w h = (refl, at_self b k (some body.content) w)

stored-new :
    (b k : Text) (body : Reader) (f : Outcome) (o : Option (List ℕ)) (w : Objects)
    → (stored b k body f true o w).0 ≡ ok tt
    → o ≡ none
stored-new b k body (some e) o w h = cc
stored-new b k body none (some content) w h = cc
stored-new b k body none none w h = refl

same_other : (s t : Text) → s ≢ t → same s t ≡ false
same_other s t n =
    elim (text_discrete s t) as (λ d. elim d [ yes _ ↦ true | no _ ↦ false ] ≡ false) [
      | yes e ↦ absurd (n e)
      | no m ↦ refl
    ]

at_other :
    (b k : Text) (o : Option (List ℕ)) (w : Objects) (b' k' : Text)
    → k ≢ k'
    → at b k o w b' k' ≡ w b' k'
at_other b k o w b' k' n = rw (same_other k k' n) (either (same b b'))
  where
    either : (c : Bool) → (if c && false then o else w b' k') ≡ w b' k'
    either true = refl
    either false = refl

stored-frame :
    (b k : Text) (body : Reader) (f : Outcome) (if_none : Bool) (o : Option (List ℕ)) (w : Objects)
    (b' k' : Text)
    → k ≢ k'
    → (stored b k body f if_none o w).1 b' k' ≡ w b' k'
stored-frame b k body (some e) if_none o w b' k' n = refl
stored-frame b k body none true (some content) w b' k' n = refl
stored-frame b k body none true none w b' k' n = at_other b k (some body.content) w b' k' n
stored-frame b k body none false o w b' k' n = at_other b k (some body.content) w b' k' n

read-content :
    (o : Option (List ℕ)) (reader : Reader) → read o ≡ ok reader → o ≡ some reader.content
read-content none reader h = cc
read-content (some content) reader h = ap content_read h
  where
    content_read : Result Reader → Option (List ℕ)
    content_read (ok r) = some r.content
    content_read (err e) = none

read-absent : (o : Option (List ℕ)) (e : Error) → read o ≡ err e → o ≡ none
read-absent none e h = refl
read-absent (some content) e h = cc

pub memory_sdk-IsStore : IsStore memory_sdk (λ w. w)
memory_sdk-IsStore = record {
  load_default_config-keeps = λ region x w. refl;
  head_bucket-keeps = λ c b x w. refl;
  create_bucket-keeps = λ c b l x w. refl;
  head_object-keeps = λ c b k x w. refl;
  head_object-present = λ c b k x w h. head-present (w b k) h;
  head_object-absent = λ c b k x w e h n. head-absent (w b k) e h;
  put_object-content = λ c b k body i x w h. stored-content b k body body.failure i (w b k) w h;
  put_object-new = λ c b k body x w h. stored-new b k body body.failure (w b k) w h;
  put_object-frame =
      λ c b k body i x w b' k' n. stored-frame b k body body.failure i (w b k) w b' k' n;
  delete_object-absent = λ c b k x w h. at_self b k none w;
  get_object-keeps = λ c b k x w. refl;
  get_object-content = λ c b k x w reader h. inl (read-content (w b k) reader h);
  get_object-absent = λ c b k x w e h n. read-absent (w b k) e h;
}
