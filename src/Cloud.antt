-- ===== src/Cloud.antt =====
-- What the cloud backends (backend/aliyun, aws, azure, ks3, minio, obs and s3) have in common: their
-- state, their clients, and the forms in which their methods return. The SDKs are parameters of each
-- backend's model.
pub mod Aliyun
pub mod Obs
pub mod Azure
pub mod Settings
pub mod Steps
pub mod Urls
pub mod Bodies
pub mod Aws
pub mod S3
pub mod Minio
pub mod Ks3
pub mod Clients
pub mod Expiry
pub mod Keeps
pub mod Answers
pub mod Ranges
pub mod Flags
use mathlib.Core.List.{lookup}
use sharp_store.Prelude.{[], Bool, true, false, Option, none, some, ◌∷◌, Text, Map, if◌then◌else◌}
use sharp_store.Prelude.Maps.{put}
use sharp_store.Errors.{
  Error, Outcome, Result, ok, err, check, sentinel, message, wrap, file_not_found, file_exists,
}
use sharp_store.Scope.{Context}
use sharp_store.Backend.{Reader}
use sharp_store.Os.{Os}
use sharp_store.FileUtil.{write_file}

-- `clients` is the sync.Map of a backend, `os` the files of the machine, and `remote` all that an SDK
-- acts on.
pub record Cloud (K C R : Type 0) : Type 0 where
  pub clients : Map K C
  pub os : Os
  pub remote : R

-- A call that returns a value or an error, and never a value that is read beside an error.
abbrev pub Act : Type 0 → Type 0 → Type 0
Act S A = S → Result A × S

module _ {S A B : Type 0} where
  abbrev pub after : Result A → (A → Act S B) → Act S B
  after (ok a) f s = f a s
  after (err e) f s = (err e, s)

  infixl 5 ◌>>=◌ ◌>>◌
  abbrev pub ◌>>=◌ : Act S A → (A → Act S B) → Act S B
  ◌>>=◌ m f s = let (r, s') = m s in after r f s'

  abbrev pub ◌>>◌ : Act S A → Act S B → Act S B
  m >> n = m >>= λ _. n

module _ {S A : Type 0} where
  abbrev pub lift : Result A → Act S A
  lift r s = (r, s)

  abbrev pub pure : A → Act S A
  pure a s = (ok a, s)

  -- a result that depends on the state
  abbrev pub asks : (S → Result A) → Act S A
  asks f s = (f s, s)

  -- the value and the error that the method returns
  abbrev pub returned : A → Result A × S → (A × Outcome) × S
  returned zero_value (ok a, s) = ((a, none), s)
  returned zero_value (err e, s) = ((zero_value, some e), s)

module _ {S A B : Type 0} where
  abbrev pub pass_on : A → Result B × S → (B → S → (A × Outcome) × S) → (A × Outcome) × S
  pass_on zero_value (ok b, s) f = f b s
  pass_on zero_value (err e, s) f = ((zero_value, some e), s)

-- `if err := ctx.Err(); err != nil { return zero, err }`
abbrev pub alive : {S : Type 0} → Context S → Act S (Unit {0})
alive ctx s = (check (ctx s), s)

-- `if request.Body == nil`
abbrev pub required_body : Option Reader → Result Reader
required_body none = err (message "file body is required" [])
required_body (some body) = ok body

module _ {K C R : Type 0} where
  -- the context as an SDK sees it
  abbrev pub remote_context : Context (Cloud K C R) → Cloud K C R → Context R
  remote_context ctx s w = ctx (record s { remote = w })

  abbrev pub put_remote : {A : Type 0} → Cloud K C R → A × R → A × Cloud K C R
  put_remote s (a, w) = (a, record s { remote = w })

  -- a call of an SDK
  abbrev pub remotely :
      {A : Type 0} → Context (Cloud K C R) → (Context R → R → A × R) → Cloud K C R → A × Cloud K C R
  remotely ctx m s = put_remote s (m (remote_context ctx s) s.remote)

  abbrev pub put_os : {A : Type 0} → Cloud K C R → A × Os → A × Cloud K C R
  put_os s (a, os) = (a, record s { os = os })

  -- a call of the operating system
  abbrev pub locally : {A : Type 0} → (Os → A × Os) → Cloud K C R → A × Cloud K C R
  locally m s = put_os s (m s.os)

  abbrev pub stored_or : Discrete K → K → C → Option C → Cloud K C R → C × Cloud K C R
  stored_or dec k c none s = (c, record s { clients = put dec k c s.clients })
  stored_or dec k c (some d) s = (d, s)

  -- (*sync.Map).LoadOrStore, and the client that is used after it
  unfoldable pub load_or_store : Discrete K → K → C → Cloud K C R → C × Cloud K C R
  unfolding put lookup
  load_or_store dec k c s = stored_or dec k c (lookup dec k s.clients) s

  abbrev pub kept : Discrete K → K → C → Act (Cloud K C R) C
  kept dec k c s = let (d, s') = load_or_store dec k c s in (ok d, s')

  abbrev pub loaded_or : Discrete K → K → Option C → Act (Cloud K C R) C → Act (Cloud K C R) C
  loaded_or dec k (some c) make = pure c
  loaded_or dec k none make = make >>= λ c. kept dec k c

  -- the client that is kept for a key, or a new one, which is kept
  unfoldable pub client_for : Discrete K → K → Act (Cloud K C R) C → Act (Cloud K C R) C
  unfolding load_or_store lookup
  client_for dec k make s = loaded_or dec k (lookup dec k s.clients) make s

  abbrev pub write_found :
      Text → (Option Reader × Outcome) × Cloud K C R → (Bool × Outcome) × Cloud K C R
  write_found destination ((r, some e), s) = ((false, some e), s)
  write_found destination ((none, none), s) = ((false, none), s)
  write_found destination ((some reader, none), s) = locally (write_file destination reader) s

abbrev pub outcome : {A : Type 0} → Result A → Outcome
outcome (ok a) = none
outcome (err e) = some e

-- `return err == nil, err`
abbrev pub succeeded : Result (Unit {0}) → Result Bool
succeeded (ok u) = ok true
succeeded (err e) = err e

-- `if isNotFound(err) { return zero, nil }`, and then the error
abbrev pub absent_if : {A : Type 0} → (Error → Bool) → A → Result A → Result A
absent_if not_found absent (ok a) = ok a
absent_if not_found absent (err e) = if not_found e then ok absent else err e

abbrev pub some_reader : Result Reader → Result (Option Reader)
some_reader (ok r) = ok (some r)
some_reader (err e) = err e

-- What Save returns for what the upload has returned: `conflict` is tested without overwriting alone.
abbrev pub saved : (Error → Bool) → Bool → Text → Result (Unit {0}) → Result Text
saved conflict overwrite file_id (ok u) = ok file_id
saved conflict true file_id (err e) = err e
saved conflict false file_id (err e) =
    if conflict e then err (wrap (sentinel file_exists) "%s" (file_id ∷ [])) else err e

-- `if err != nil && !tolerated(err) { return err }`, after a bucket is created
abbrev pub unless_tolerated : (Error → Bool) → Result (Unit {0}) → Result (Unit {0})
unless_tolerated tolerated (ok u) = ok tt
unless_tolerated tolerated (err e) = if tolerated e then ok tt else err e

-- `if isNotFound(err) { return nil, nil }`, and then the reader with the error
abbrev pub found_reader :
    {S : Type 0} → (Error → Bool) → (Option Reader × Outcome) × S → (Option Reader × Outcome) × S
found_reader not_found ((r, none), s) = ((r, none), s)
found_reader not_found ((r, some e), s) = (if not_found e then (none, none) else (r, some e), s)

-- `if err != nil || !exists { return false, err }`
abbrev pub as_result : {S : Type 0} → (Bool × Outcome) × S → Result Bool × S
as_result ((b, none), s) = (ok b, s)
as_result ((b, some e), s) = (err e, s)

abbrev pub present : Result Bool → Result (Unit {0})
present (ok true) = ok tt
present (ok false) = err (sentinel file_not_found)
present (err e) = err e

-- `if request.CheckExists`
abbrev pub require_present : {S : Type 0} → Bool → Act S Bool → Act S (Unit {0})
require_present false m s = (ok tt, s)
require_present true m s = let (r, s') = m s in (present r, s')

-- `if !exists { return false, nil }`, before what follows
abbrev pub if_present : {S : Type 0} → Bool → Act S Bool → Act S Bool
if_present true m = m
if_present false m = pure false
