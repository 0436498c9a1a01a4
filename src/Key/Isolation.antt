-- ===== src/Key/Isolation.antt =====
-- Tenants do not share keys under the default key builder of key.go.
use mathlib.Core.Logic.{◌≢◌}
use sharp_store.Prelude.{false, ◌≡◌, refl, sym, ap, ◌∙◌, some, List, [], ◌∷◌, ◌++◌, Text, arith}
use sharp_store.Prelude.Texts.{slash, contains, is_separator, is_slash}
use sharp_store.Prelude.Texts.Split.{
  before_slash, after_slash, before_slash-append, after_slash-append,
}
use sharp_store.Errors.{ok, >>=-eq-ok}
use sharp_store.Scope.{TenantContext}
use sharp_store.Config.{tenant_scoped}
use sharp_store.Backend.{FileRequest}
use sharp_store.Key.{
  build_key, tenant_segments, tenant_identifier, identifier_segments, checked_file_id,
}

contains_slash_of_separator :
    (s : Text) → contains is_separator s ≡ false → contains is_slash s ≡ false
unfolding contains
contains_slash_of_separator [] h = refl
contains_slash_of_separator (x ∷ s) h = ground (arith, contains_slash_of_separator s)

-- an accepted identifier has no separator
identifier_segments-ok :
    (i : Text) (ss : List Text)
    → i ≢ []
    → identifier_segments i ≡ ok ss
    → (contains is_slash i ≡ false) × (ss ≡ i ∷ [])
unfolding identifier_segments
identifier_segments-ok [] ss n h = absurd (n refl)
identifier_segments-ok (x ∷ i) ss n h =
    (contains_slash_of_separator (x ∷ i) (ground arith), ground arith)

-- The request of a tenant that has an identifier, under a tenant-scoped configuration.
pub record IsScoped {W : Type 0} (r : FileRequest W) (w : W) (i : Text) : Type 0 where
  pub tenant : TenantContext W
  pub scoped : r.config.tenant_mode ≡ tenant_scoped
  pub present : r.tenant ≡ some tenant
  pub named : tenant_identifier tenant w ≡ i
  pub not_empty : i ≢ []

module _ {W : Type 0} (r : FileRequest W) (w : W) {i : Text} where
  segments-ok :
      (ss : List Text)
      → IsScoped r w i
      → tenant_segments r.config.tenant_mode r.tenant w ≡ ok ss
      → (contains is_slash i ≡ false) × (ss ≡ i ∷ [])
  unfolding tenant_segments
  segments-ok ss s h = identifier_segments-ok i ss s.not_empty (cc (s.scoped, s.present, s.named))

  -- The key of a tenant-scoped request, whose tenant has a nonempty identifier, is the identifier,
  -- which has no slash, then a slash and the accepted file ID.
  pub build_key-eq :
      (k : Text)
      → IsScoped r w i
      → build_key r w ≡ ok k
      → (f : Text) × (checked_file_id r.file_id ≡ ok f)
        × (k ≡ i ++ slash ∷ f)
        × (contains is_slash i ≡ false)
  unfolding build_key
  build_key-eq k s h =
      let (f, e, h') = >>=-eq-ok (checked_file_id r.file_id) _ h in
      let (ss, d, g) = >>=-eq-ok (tenant_segments r.config.tenant_mode r.tenant w) _ h' in
      let (c, q) = segments-ok ss s d in (f, e, ground arith, c)

-- Two tenant-scoped requests, whose tenants have nonempty identifiers, that are given one key have
-- one tenant identifier and one accepted file ID.
pub tenant_isolation :
    {W : Type 0} (r s : FileRequest W) (v w : W) {i j : Text} (k : Text)
    → IsScoped r v i
    → IsScoped s w j
    → build_key r v ≡ ok k
    → build_key s w ≡ ok k
    → (i ≡ j) × (checked_file_id r.file_id ≡ checked_file_id s.file_id)
tenant_isolation r s v w {i} {j} k a b p q =
    let (f, e, x, c) = build_key-eq r v k a p in
    let (g, d, y, c') = build_key-eq s w k b q in
    let same_key = sym x ∙ y in
    let same_file =
      sym (after_slash-append i f c) ∙ ap after_slash same_key ∙ after_slash-append j g c' in
    (
      sym (before_slash-append i f c) ∙ ap before_slash same_key ∙ before_slash-append j g c',
      e ∙ ap ok same_file ∙ sym d,
    )
