-- ===== src/Key.antt =====
-- key.go: the object key of a file.
pub mod Safety
pub mod Isolation
use sharp_store.Prelude.{
  Bool, true, false, ◌||◌, Option, none, some, List, [], ◌∷◌, ◌++◌, Text, text, same, is_empty,
  if◌then◌else◌,
}
use sharp_store.Prelude.Texts.{
  slash, backslash, trim, fields, any_text, contains, join, is_separator,
}
use sharp_store.Errors.{Result, ok, err, message, ◌>>=◌}
use sharp_store.Scope.{Context, TenantContext}
use sharp_store.Config.{TenantMode, tenant_scoped, tenant_shared}
use sharp_store.Backend.{FileRequest}

-- KeyBuilder
abbrev pub KeyBuilder : Type 0 → Type 0
KeyBuilder W = Context W → FileRequest W → W → Result Text × W

-- segment == "." || segment == ".."
abbrev pub is_dots : Text → Bool
is_dots s = same s (text ".") || same s (text "..")

-- `segments` before the file ID is appended, for one identifier
unfoldable pub identifier_segments : Text → Result (List Text)
unfolding contains
identifier_segments identifier =
    if is_empty identifier
    then ok []
    else if is_dots identifier || contains is_separator identifier
    then err (message "invalid tenant key segment %q" (identifier ∷ []))
    else ok (identifier ∷ [])

-- the tests on the file ID, which is returned without its outer slashes
unfoldable pub checked_file_id : Text → Result Text
unfolding trim fields any_text
checked_file_id file_id =
    let trimmed = trim slash file_id in
    if is_empty (trim backslash trimmed)
    then err (message "invalid file ID %q" (file_id ∷ []))
    else if any_text is_dots (fields is_separator trimmed)
    then err (message "invalid file ID %q" (file_id ∷ []))
    else ok trimmed

module _ {W : Type 0} where
  -- the code of the tenant, or its ID if the code is empty
  unfoldable pub tenant_identifier : TenantContext W → W → Text
  tenant_identifier t w = if is_empty (t.tenant_code w) then t.tenant_id w else t.tenant_code w

  unfoldable pub tenant_segments : TenantMode → Option (TenantContext W) → W → Result (List Text)
  unfolding tenant_identifier identifier_segments
  tenant_segments tenant_scoped (some t) w = identifier_segments (tenant_identifier t w)
  tenant_segments tenant_scoped none w = ok []
  tenant_segments tenant_shared t w = ok []

  unfoldable pub build_key : FileRequest W → W → Result Text
  unfolding checked_file_id tenant_segments join
  build_key r w = do
    file_id ← checked_file_id r.file_id
    segments ← tenant_segments r.config.tenant_mode r.tenant w
    ok (join slash (segments ++ file_id ∷ []))

  -- defaultKeyBuilder.Build
  unfoldable pub default_key_builder : KeyBuilder W
  unfolding build_key
  default_key_builder ctx r w = (build_key r w, w)
