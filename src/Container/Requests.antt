-- ===== src/Container/Requests.antt =====
-- The operations of an opened container (container.go) around their requests.
use sharp_store.Prelude.{
  ◌≡◌, refl, sym, ap, ◌∙◌, ◌⊎◌, inl, inr, Bool, false, Option, none, some, [], ◌∷◌, Text, arith,
}
use sharp_store.Errors.{Error, Outcome, Result, ok, err, message, sentinel, file_not_found}
use sharp_store.Scope.{Context}
use sharp_store.Config.{clone}
use sharp_store.Backend.{Reader, FileRequest}
use sharp_store.Naming.{identity_naming_service, and_then}
use sharp_store.Key.{default_key_builder, build_key}
use sharp_store.Key.Safety.{HasNoDots, checked_file_id-dots}
use sharp_store.Container.{
  Container, AccessUrlOptions, unkeyed, make_request, save, delete, exists, download, get_or_nil,
  get, access_url, not_nil, with_key,
}

module _ {W : Type 0} (c : Container W) (ctx : Context W) (file_id : Text) where
  -- every operation passes a refusal of its request on
  abbrev AllRefuse : Option Reader → Bool → Text → AccessUrlOptions → Error → W → W → Type 0
  AllRefuse body overwrite destination options e w w' =
      (save c ctx file_id body overwrite w ≡ (([], some e), w'))
      × (delete c ctx file_id w ≡ ((false, some e), w'))
      × (exists c ctx file_id w ≡ ((false, some e), w'))
      × (download c ctx file_id destination w ≡ ((false, some e), w'))
      × (get_or_nil c ctx file_id w ≡ ((none, some e), w'))
      × (get c ctx file_id w ≡ ((none, some e), w'))
      × (access_url c ctx file_id options w ≡ (([], some e), w'))

  refused_request :
      (w w' : W) (e : Error) (body : Option Reader) (overwrite : Bool) (destination : Text)
      (options : AccessUrlOptions)
      → make_request c ctx file_id w ≡ (err e, w')
      → AllRefuse body overwrite destination options e w w'
  unfolding save delete exists download get_or_nil get access_url
  refused_request w w' e body overwrite destination options h =
      (rw h, rw h, rw h, rw h, rw h, rw h, rw h)

  dots-refused :
      (w : W)
      → c.names ≡ identity_naming_service
      → c.keys ≡ default_key_builder
      → ¬ HasNoDots file_id
      → make_request c ctx file_id w ≡ (err (message "invalid file ID %q" (file_id ∷ [])), w)
  unfolding make_request identity_naming_service default_key_builder build_key
  dots-refused w n k d = rw (n, k, checked_file_id-dots file_id d) refl

  -- With the default naming and key services, a file ID that has a segment "." or ".." between
  -- slashes or backslashes is refused by every operation of the container, whatever its tenant and
  -- its other arguments: the operation returns its zero value and the error that the file ID is
  -- invalid, and leaves the outside state as it was, so that the backend is not reached.
  pub dots_are_refused :
      (w : W) (body : Option Reader) (overwrite : Bool) (destination : Text)
      (options : AccessUrlOptions)
      → c.names ≡ identity_naming_service
      → c.keys ≡ default_key_builder
      → ¬ HasNoDots file_id
      → let e = message "invalid file ID %q" (file_id ∷ []) in
        (save c ctx file_id body overwrite w ≡ (([], some e), w))
        × (delete c ctx file_id w ≡ ((false, some e), w))
        × (exists c ctx file_id w ≡ ((false, some e), w))
        × (download c ctx file_id destination w ≡ ((false, some e), w))
        × (get_or_nil c ctx file_id w ≡ ((none, some e), w))
        × (get c ctx file_id w ≡ ((none, some e), w))
        × (access_url c ctx file_id options w ≡ (([], some e), w))
  dots_are_refused w body overwrite destination options n k d =
      refused_request w w (message "invalid file ID %q" (file_id ∷ [])) body overwrite destination
        options (dots-refused w n k d)

  not_nil-cases :
      (p : Option Reader × Outcome)
      → ((r : Reader) × (p ≡ (some r, none)) × (not_nil p ≡ (some r, none)))
        ⊎ ((p ≡ (none, none)) × (not_nil p ≡ (none, some (sentinel file_not_found))))
        ⊎ ((e : Error) × (p.1 ≡ some e) × (not_nil p ≡ (none, some e)))
  not_nil-cases (some r, none) = inl (r, refl, refl)
  not_nil-cases (none, none) = inr (inl (refl, refl))
  not_nil-cases (r, some e) = inr (inr (e, refl, refl))

  -- Get returns what GetOrNil returns, but ErrFileNotFound for a nil reader; so it returns a reader
  -- and no error, or an error and no reader, and leaves the state that GetOrNil leaves.
  get-cases :
      (w : W)
      → let p = get_or_nil c ctx file_id w in
        ((get c ctx file_id w).1 ≡ p.1)
        × (((r : Reader) × (p.0 ≡ (some r, none)) × ((get c ctx file_id w).0 ≡ (some r, none)))
            ⊎ ((p.0 ≡ (none, none))
                × ((get c ctx file_id w).0 ≡ (none, some (sentinel file_not_found))))
            ⊎ ((e : Error) × (p.0.1 ≡ some e) × ((get c ctx file_id w).0 ≡ (none, some e))))
  unfolding get
  get-cases w = (refl, not_nil-cases (get_or_nil c ctx file_id w).0)

  built-ok :
      (q r : FileRequest W) (b : Result Text) (w w' : W)
      → and_then (b, w) (λ k w₂. with_key q k w₂) ≡ (ok r, w')
      → (k : Text) × (b ≡ ok k) × (r ≡ record q { key = k })
  built-ok q r (ok k) w w' h = (k, refl, ground arith)
  built-ok q r (err e) w w' h = absurd (ground arith)

  build_key-with_key :
      (q r : FileRequest W) (k : Text) (w : W)
      → build_key q w ≡ ok k
      → r ≡ record q { key = k }
      → build_key r w ≡ ok r.key
  unfolding build_key
  build_key-with_key q r k w b e =
      ap (λ (x : FileRequest W). build_key x w) e ∙ b ∙ ap (λ (x : FileRequest W). ok x.key) (sym e)

  -- With the default naming and key services a request that is made carries the file ID as given,
  -- the tenant and a clone of the configuration of the container, and the key that the default
  -- builder makes of these.
  pub make_request-default :
      (w w' : W) (r : FileRequest W)
      → c.names ≡ identity_naming_service
      → c.keys ≡ default_key_builder
      → make_request c ctx file_id w ≡ (ok r, w')
      → (build_key r w ≡ ok r.key)
        × (r.file_id ≡ file_id)
        × (r.tenant ≡ c.tenant)
        × (r.config ≡ clone c.config)
  unfolding make_request identity_naming_service
  make_request-default w w' r n k h =
      let q : FileRequest W = unkeyed c (record { container = c.key; file_id = file_id }) in
      let b = built-ok q r (build_key q w) w w' (unfold default_key_builder in rw (n, k) at h) in
      (
        build_key-with_key q r b.0 w b.1 b.2,
        ap (λ (x : FileRequest W). x.file_id) b.2,
        ap (λ (x : FileRequest W). x.tenant) b.2,
        ap (λ (x : FileRequest W). x.config) b.2,
      )
