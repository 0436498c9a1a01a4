-- ===== src/Cloud/Ranges.antt =====
-- backend/s3, minio and ks3: readConfig ranges over a Go map, whose order is open.
use mathlib.Core.Bool.{Bool-set}
use mathlib.Core.List.{Perm, foldr}
use mathlib.Core.List.Perm
use sharp_store.Prelude.{
  [], ◌≡◌, refl, sym, ◌∙◌, Option, none, some, List, ◌∷◌, Text, Bool, true, false, is_empty,
  if◌then◌else◌,
}
use sharp_store.Errors.{Error, Outcome, Result, ok, err, check, ◌>>◌}
use sharp_store.Config.{Values, get_value}
use sharp_store.Cloud.Settings.{missing_value}
use sharp_store.Cloud.Urls.{Urls}
use sharp_store.Cloud.S3.Settings as S3
use sharp_store.Cloud.Minio.Settings as Minio
use sharp_store.Cloud.Ks3.Settings as Ks3

abbrev is_missing : Outcome → Bool
is_missing none = false
is_missing (some e) = true

-- the configuration that is read, without the error if there is none
abbrev pub value_read : {A : Type 0} → Result A → Option A
value_read (ok a) = some a
value_read (err e) = none

abbrev lacks : Values → Text → Bool → Bool
lacks v k b = if is_empty (get_value v k) then true else b

lacks_comm :
    (a b c : Bool)
    → (if a then true else if b then true else c) ≡ (if b then true else if a then true else c)
lacks_comm true true c = refl
lacks_comm true false c = refl
lacks_comm false true c = refl
lacks_comm false false c = refl

missing_value-foldr :
    (v : Values) (ks : List Text) → is_missing (missing_value ks v) ≡ foldr (lacks v) false ks
unfolding missing_value
missing_value-foldr v [] = refl
missing_value-foldr v (k ∷ ks) =
    missing_if (is_empty (get_value v k)) _ (missing_value ks v) _ (missing_value-foldr v ks)
  where
    missing_if :
        (b : Bool) (e : Error) (o : Outcome) (c : Bool)
        → is_missing o ≡ c
        → is_missing (if b then some e else o) ≡ (if b then true else c)
    missing_if true e o c h = refl
    missing_if false e o c h = h

missing_value-perm :
    (v : Values) (ks js : List Text)
    → Perm ks js
    → is_missing (missing_value ks v) ≡ is_missing (missing_value js v)
missing_value-perm v ks js p =
    missing_value-foldr v ks
    ∙ Perm.foldr-eq Bool-set (lacks v)
        (λ a b c. lacks_comm (is_empty (get_value v a)) (is_empty (get_value v b)) c) p false
    ∙ sym (missing_value-foldr v js)

-- Of the errors of a guard, no value depends on which one it is.
guard-value :
    {A : Type 0} (o o' : Outcome) (m : Result A)
    → is_missing o ≡ is_missing o'
    → value_read (check o >> m) ≡ value_read (check o' >> m)
guard-value none none m h = refl
guard-value none (some e) m h = cc
guard-value (some e) none m h = cc
guard-value (some e) (some d) m h = refl

-- Whether readConfig of backend/s3, minio and ks3 succeeds, and the configuration that it gives, do not
-- depend on the order in which it ranges over the map of required values.
pub read_config-perm :
    {U : Type 0} (urls : Urls U) (v : Values) (ks js : List Text)
    → Perm ks js
    → (value_read (S3.read_config urls ks v) ≡ value_read (S3.read_config urls js v))
      × (value_read (Minio.read_config urls ks v) ≡ value_read (Minio.read_config urls js v))
      × (value_read (Ks3.read_config urls ks v) ≡ value_read (Ks3.read_config urls js v))
read_config-perm urls v ks js p = (
  unfold S3.read_config in guard-value (missing_value ks v) (missing_value js v) _ same,
  unfold Minio.read_config in guard-value (missing_value ks v) (missing_value js v) _ same,
  unfold Ks3.read_config in guard-value (missing_value ks v) (missing_value js v) _ same,
)
  where
    same : is_missing (missing_value ks v) ≡ is_missing (missing_value js v)
    same = missing_value-perm v ks js p
