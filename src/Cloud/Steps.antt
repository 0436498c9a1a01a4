-- ===== src/Cloud/Steps.antt =====
-- The forms that several of the cloud backends share: a call whose error the code looks at, a bucket
-- that is created when it is missing, and the client of a configuration that is read first.
use sharp_store.Prelude.{
  Bool, true, false, Option, none, some, List, Text, same, is_empty, if◌then◌else◌,
}
use sharp_store.Prelude.Texts.{any_text}
use sharp_store.Errors.{Error, Outcome, Result, ok, err}
use sharp_store.Backend.{Reader}
use sharp_store.Cloud.{
  Cloud, Act, ◌>>=◌, lift, pure, client_for, unless_tolerated, succeeded, absent_if, some_reader,
  saved,
}

-- a call, and what is done with its value or its error
abbrev pub caught : {S A B : Type 0} → Act S A → (Result A → Act S B) → Act S B
caught m f s = let (r, s') = m s in f r s'

module _ {S : Type 0} where
  -- what follows a look at the bucket: nothing, or its creation if it is missing
  abbrev pub or_create : (Error → Bool) → Act S (Unit {0}) → Result (Unit {0}) → Act S (Unit {0})
  or_create not_found create (ok u) s = (ok tt, s)
  or_create not_found create (err e) s = if not_found e then create s else (err e, s)

  -- what follows its creation: an error that says that it was there does not count
  abbrev pub tolerating : (Error → Bool) → Result (Unit {0}) → Act S (Unit {0})
  tolerating tolerated r = lift (unless_tolerated tolerated r)

  -- what follows its creation: after an error that says that it was there, it is looked at again
  abbrev pub or_look : (Error → Bool) → Act S (Unit {0}) → Result (Unit {0}) → Act S (Unit {0})
  or_look conflict look (ok u) s = (ok tt, s)
  or_look conflict look (err e) s = if conflict e then look s else (err e, s)

  -- look, create and look again
  unfoldable pub create_if_missing :
      (Error → Bool)
      → (Error → Bool)
      → Act S (Unit {0})
      → Act S (Unit {0})
      → Bool
      → Act S (Unit {0})
  create_if_missing not_found conflict look create false s = (ok tt, s)
  create_if_missing not_found conflict look create true s =
      caught look (or_create not_found (caught create (or_look conflict look))) s

  -- what Save, Delete, Exists and GetOrNil return for what the last call has returned
  abbrev pub upload_with : (Error → Bool) → Bool → Text → Act S (Unit {0}) → Act S Text
  upload_with conflict overwrite file_id m =
      caught m (λ r. lift (saved conflict overwrite file_id r))

  abbrev pub success_of : Act S (Unit {0}) → Act S Bool
  success_of m = caught m (λ r. lift (succeeded r))

  abbrev pub found : (Error → Bool) → Act S (Unit {0}) → Act S Bool
  found not_found m = caught m (λ r. lift (absent_if not_found false (succeeded r)))

  abbrev pub found_body : (Error → Bool) → Act S Reader → Act S (Option Reader)
  found_body not_found m = caught m (λ r. lift (absent_if not_found none (some_reader r)))

-- the client that is kept for a configuration, once this is read
unfoldable pub configured :
    {K C R : Type 0} → Discrete K → Result K → (K → Act (Cloud K C R) C) → Act (Cloud K C R) (C × K)
unfolding client_for
configured dec r make = do k ← lift r; c ← client_for dec k (make k); pure (c, k)

-- a code that errors.As finds, if it does
abbrev pub code_in : List Text → Option Text → Bool
code_in codes none = false
code_in codes (some c) = any_text (same c) codes

abbrev pub error_if : Bool → Error → Outcome
error_if false e = none
error_if true e = some e

abbrev pub or_default : Text → Text → Text
or_default default t = if is_empty t then default else t

abbrev pub differ : Bool → Bool → Bool
differ false b = b
differ true false = true
differ true true = false
