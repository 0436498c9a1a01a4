-- ===== src/Key/Safety.antt =====
-- What the default key builder of key.go accepts.
use mathlib.Core.Logic.{◌≢◌}
use sharp_store.Prelude.{
  false, ◌≡◌, refl, subst, inl, inr, Bool-cases, Option, none, some, List, [], ◌∷◌, ◌++◌, Text,
  text, is_empty, arith, All,
}
use sharp_store.Prelude.Texts.{slash, backslash, trim, is_separator, fields, any_text, join}
use sharp_store.Prelude.Texts.Split.{fields-append, fields_of_not-contains, fields-trim}
use sharp_store.Errors.{ok, err, message, >>=-eq-ok}
use sharp_store.Scope.{TenantContext}
use sharp_store.Config.{TenantMode, tenant_scoped, tenant_shared}
use sharp_store.Backend.{FileRequest}
use sharp_store.Key.{
  is_dots, build_key, tenant_segments, tenant_identifier, identifier_segments, checked_file_id,
}

-- No piece between slashes or backslashes is "." or "..".
abbrev pub HasNoDots : Text → Type 0
HasNoDots k = All (λ s. (s ≢ text ".") × (s ≢ text "..")) (fields is_separator k)

HasNoDots_of_test :
    (ss : List Text) → any_text is_dots ss ≡ false → All (λ s. (s ≢ text ".") × (s ≢ text "..")) ss
unfolding any_text
HasNoDots_of_test [] h = tt
HasNoDots_of_test (s ∷ ss) h = ground (arith, HasNoDots_of_test ss)

-- an accepted file ID has no dot segment and is not empty
checked_file_id-ok :
    (s f : Text)
    → checked_file_id s ≡ ok f
    → (any_text is_dots (fields is_separator f) ≡ false) × (is_empty (trim backslash f) ≡ false)
unfolding checked_file_id
checked_file_id-ok s f h = ground arith

-- nor has an accepted identifier
identifier_segments-fields :
    (i f : Text) (ss : List Text)
    → identifier_segments i ≡ ok ss
    → any_text is_dots (fields is_separator f) ≡ false
    → any_text is_dots (fields is_separator (join slash (ss ++ f ∷ []))) ≡ false
unfolding identifier_segments join any_text
identifier_segments-fields [] f ss h k = ground arith
identifier_segments-fields (x ∷ i) f ss h k = ground (
  arith,
  fields-append is_separator (x ∷ i) slash f refl,
  fields_of_not-contains is_separator x i,
)

tenant_segments-cases :
    {W : Type 0} (m : TenantMode) (t : Option (TenantContext W)) (w : W) (ss : List Text)
    → tenant_segments m t w ≡ ok ss
    → (i : Text) × (identifier_segments i ≡ ok ss)
unfolding tenant_segments
tenant_segments-cases tenant_scoped (some t) w ss h = (tenant_identifier t w, h)
tenant_segments-cases tenant_scoped none w ss h = ([], h)
tenant_segments-cases tenant_shared t w ss h = ([], h)

-- A key that the default builder returns has no segment "." or "..", whatever the tenant and the
-- file ID.
pub build_key-HasNoDots :
    {W : Type 0} (r : FileRequest W) (w : W) (k : Text) → build_key r w ≡ ok k → HasNoDots k
unfolding build_key
build_key-HasNoDots r w k h =
    let (f, e, h') = >>=-eq-ok (checked_file_id r.file_id) _ h in
    let (ss, d, g) = >>=-eq-ok (tenant_segments r.config.tenant_mode r.tenant w) _ h' in
    let (i, c) = tenant_segments-cases r.config.tenant_mode r.tenant w ss d in
    let clean = identifier_segments-fields i f ss c (checked_file_id-ok r.file_id f e).0 in
    HasNoDots_of_test (fields is_separator k) (ground arith)

-- A file ID with a segment "." or ".." is refused, slashes at its ends or not.
pub checked_file_id-dots :
    (s : Text) → ¬ HasNoDots s → checked_file_id s ≡ err (message "invalid file ID %q" (s ∷ []))
unfolding checked_file_id
checked_file_id-dots s n =
    elim (Bool-cases (any_text is_dots (fields is_separator (trim slash s)))) [
      | inl e ↦ ground arith
      | inr e ↦ absurd (
          n (
            subst (All (λ x. (x ≢ text ".") × (x ≢ text "..")))
              (fields-trim is_separator slash refl s)
              (HasNoDots_of_test (fields is_separator (trim slash s)) e)))
    ]
