-- ===== src/Errors.antt =====
-- The error values of config.go, with those of the Go library that the code tells apart, and
-- results. A call that returns a zero value beside its error is a `Result`; one whose value beside
-- an error can differ from zero is a pair with an `Option Error`.
use sharp_store.Prelude.{
  Bool, true, false, List, Option, none, some, Text, ◌≡◌, refl, if◌then◌else◌,
}
use Prim.Native.String.{String}

-- The variables of config.go, context.Canceled, context.DeadlineExceeded, os.ErrNotExist and
-- os.ErrExist.
pub data Sentinel : Type 0 where
  container_not_found backend_not_found file_not_found file_exists : Sentinel
  invalid_config unsupported : Sentinel
  canceled deadline_exceeded not_exist exist : Sentinel

pub Sentinel-discrete : Discrete Sentinel
Sentinel-discrete = hlevel

-- `message` is errors.New, or fmt.Errorf with no %w: its format and arguments. `wrap` is
-- fmt.Errorf whose format begins with %w; `wrap_cause` prints one more error by %v, which
-- errors.Is does not see.
pub data Error : Type 0 where
  sentinel : Sentinel → Error
  message : String → List Text → Error
  wrap : Error → String → List Text → Error
  wrap_cause : Error → String → List Text → Error → Error

abbrev same_sentinel : Sentinel → Sentinel → Bool
same_sentinel s t = elim (Sentinel-discrete s t) [ yes _ ↦ true | no _ ↦ false ]

-- errors.Is(err, target) for a non-nil error
unfoldable pub is_error : Sentinel → Error → Bool
unfolding Sentinel-discrete
is_error t (sentinel s) = same_sentinel s t
is_error t (message m args) = false
is_error t (wrap e m args) = is_error t e
is_error t (wrap_cause e m args cause) = is_error t e

pub data Result {ℓ} (A : Type ℓ) : Type ℓ where
  ok : A → Result A
  err : Error → Result A

infixl 5 ◌>>=◌ ◌>>◌
abbrev pub ◌>>=◌ {ℓ κ} : {A : Type ℓ} {B : Type κ} → Result A → (A → Result B) → Result B
ok a >>= next = next a
err e >>= next = err e

abbrev pub ◌>>◌ {ℓ} : {B : Type ℓ} → Result (Unit {0}) → Result B → Result B
first >> rest = first >>= λ _. rest

-- a function that returns only an error
abbrev pub Outcome : Type 0
Outcome = Option Error

-- `if err := ...; err != nil { return zero, err }`
abbrev pub check : Outcome → Result (Unit {0})
check none = ok tt
check (some e) = err e

-- Inversion of a successful bind.
pub >>=-eq-ok {ℓ κ} :
    {A : Type ℓ} {B : Type κ} (r : Result A) (next : A → Result B) {b : B}
    → (r >>= next) ≡ ok b
    → (a : A) × (r ≡ ok a) × (next a ≡ ok b)
>>=-eq-ok (ok a) next h = (a, refl, h)
>>=-eq-ok (err e) next h = cc

-- Inversion of a guard that was passed.
pub guard-eq-ok {ℓ} :
    {A : Type ℓ} (b : Bool) (e : Error) (m : Result A) {a : A}
    → (if b then err e else m) ≡ ok a
    → (b ≡ false) × (m ≡ ok a)
guard-eq-ok true e m h = cc
guard-eq-ok false e m h = (refl, h)
