-- ===== src/Cloud/Aws/Contract.antt =====
-- backend/aws/aws.go against an object store: what Save, Delete and Exists do to the objects, if the
-- SDK's calls do what the documentation of S3 says.
use sharp_store.Prelude.{
  [], arith, ◌≡◌, refl, sym, ◌∙◌, ap, inl, inr, ◌⊎◌, Bool, true, false, not, Option, none, some,
  Text, text,
}
use sharp_store.Errors.{Result, ok, err}
use sharp_store.Scope.{Context}
use sharp_store.Config.{Values, get_value}
use sharp_store.Backend.{Reader, FileRequest, SaveRequest}
use sharp_store.Cloud.{Cloud, lift, remotely, remote_context, required_body, as_result, if_present}
use sharp_store.Cloud.Settings.{values_in}
use sharp_store.Cloud.Urls.{Urls}
use sharp_store.Cloud.Keeps.{
  KeepsRemote, >>=-Keeps, >>=-eq-ok, remotely-Keeps, configured-Keeps, create_if_missing-Keeps,
  configured-eq-ok, ended-Keeps, returned-eq-ok,
}
use sharp_store.Cloud.Aws.Settings.{BackendConfig, BackendConfig-discrete, read_config}
use sharp_store.Cloud.Aws.{
  AwsSdk, client, make_client, ensure_bucket, upload, save_object, save, exists, head_at, delete_at,
  delete, location_constraint,
}
use sharp_store.Cloud.Answers.{
  is_some, is_some-false, saved-eq-ok, found-eq-ok, succeeded-eq-ok, as_result-eq-ok,
}
use sharp_store.Cloud.Aws.Store.{Objects, IsStore}

abbrev bucket_in : Result BackendConfig → Text
bucket_in (ok cfg) = cfg.bucket
bucket_in (err e) = []

module _ {D C R U : Type 0} (sdk : AwsSdk D C R) (urls : Urls U) (base_endpoint : Text)
    (force_path_style : Bool) (objects : R → Objects) (laws : IsStore sdk objects) where
  abbrev Machine : Type 0
  Machine = Cloud BackendConfig C R

  make_client-Keeps :
      (ctx : Context Machine) (cfg : BackendConfig)
      → KeepsRemote objects (make_client sdk urls base_endpoint force_path_style ctx cfg)
  make_client-Keeps ctx cfg =
      >>=-Keeps (λ s. objects s.remote) (remotely ctx (sdk.load_default_config cfg.region)) _
        (remotely-Keeps objects ctx (sdk.load_default_config cfg.region)
          (laws.load_default_config-keeps cfg.region))
        (λ d s. refl)

  pub client-Keeps :
      (ctx : Context Machine) (v : Values)
      → KeepsRemote objects (client sdk urls base_endpoint force_path_style ctx v)
  unfolding client
  client-Keeps ctx v =
      configured-Keeps objects BackendConfig-discrete (read_config v)
        (make_client sdk urls base_endpoint force_path_style ctx) (make_client-Keeps ctx)

  pub ensure_bucket-Keeps :
      (ctx : Context Machine) (b : C × BackendConfig)
      → KeepsRemote objects (ensure_bucket sdk urls base_endpoint force_path_style ctx b)
  unfolding ensure_bucket
  ensure_bucket-Keeps ctx b =
      create_if_missing-Keeps objects _ _ (remotely ctx (sdk.head_bucket b.0 b.1.bucket))
        (remotely ctx (sdk.create_bucket b.0 b.1.bucket (location_constraint b.1.region)))
        b.1.create_bucket_if_not_exists
        (remotely-Keeps objects ctx (sdk.head_bucket b.0 b.1.bucket)
          (laws.head_bucket-keeps b.0 b.1.bucket))
        (remotely-Keeps objects ctx
          (sdk.create_bucket b.0 b.1.bucket (location_constraint b.1.region))
          (laws.create_bucket-keeps b.0 b.1.bucket (location_constraint b.1.region)))

  read_config-bucket :
      (v : Values) (cfg : BackendConfig)
      → read_config v ≡ ok cfg
      → cfg.bucket ≡ get_value v (text "bucket")
  unfolding read_config
  read_config-bucket v cfg h = ground arith

  client_bucket :
      (ctx : Context Machine) (v : Values) (s : Machine) (c : C) (cfg : BackendConfig)
      (s' : Machine)
      → client sdk urls base_endpoint force_path_style ctx v s ≡ (ok (c, cfg), s')
      → cfg.bucket ≡ get_value v (text "bucket")
  unfolding client
  client_bucket ctx v s c cfg s' h = read_config-bucket v cfg (
      configured-eq-ok BackendConfig-discrete (read_config v)
        (make_client sdk urls base_endpoint force_path_style ctx) s c cfg s' h)

  -- A client that is found is for the bucket of the configuration, and no object has changed.
  pub client-ok :
      (ctx : Context Machine) (v : Values) (s : Machine) (c : C) (cfg : BackendConfig)
      (s' : Machine)
      → client sdk urls base_endpoint force_path_style ctx v s ≡ (ok (c, cfg), s')
      → (cfg.bucket ≡ get_value v (text "bucket")) × (objects s'.remote ≡ objects s.remote)
  client-ok ctx v s c cfg s' h = (
    client_bucket ctx v s c cfg s' h,
    ended-Keeps objects (client sdk urls base_endpoint force_path_style ctx v) s s' (ok (c, cfg))
        (client-Keeps ctx v) h,
  )

  body-eq-ok : (o : Option Reader) (body : Reader) → required_body o ≡ ok body → o ≡ some body
  body-eq-ok none body h = cc
  body-eq-ok (some b) body h = cc

  upload-eq-ok :
      (ctx : Context Machine) (b : C × BackendConfig) (r : SaveRequest Machine) (body : Reader)
      (s s' : Machine) (id : Text)
      → upload sdk urls base_endpoint force_path_style ctx b r body s ≡ (ok id, s')
      → (id ≡ r.file_id)
        × (body.failure ≡ none)
        × (objects s'.remote b.1.bucket r.key ≡ some body.content)
        × ((r.overwrite ≡ true) ⊎ (objects s.remote b.1.bucket r.key ≡ none))
  upload-eq-ok ctx b r body s s' id h =
      let (sent, named) = saved-eq-ok _ r.overwrite r.file_id _ id (ap (λ p. p.0) h) in
      let (whole, there) =
        laws.put_object-content b.0 b.1.bucket r.key body (not r.overwrite) _ s.remote sent in
      (
        named,
        whole,
        ap (λ w. objects w b.1.bucket r.key) (sym (ap (λ p. p.1.remote) h)) ∙ there,
        new_or_overwrite r.overwrite refl sent,
      )
    where
      new_or_overwrite :
          (o : Bool)
          → r.overwrite ≡ o
          → (sdk.put_object b.0 b.1.bucket r.key body (not o) (remote_context ctx s) s.remote).0
            ≡ ok tt
          → (r.overwrite ≡ true) ⊎ (objects s.remote b.1.bucket r.key ≡ none)
      new_or_overwrite true e g = inl e
      new_or_overwrite false e g =
          inr (laws.put_object-new b.0 b.1.bucket r.key body (remote_context ctx s) s.remote g)

  -- If the calls of the SDK do what S3 documents and Save returns no error, it returns the file ID, has
  -- read the body to its end, and the object in the configured bucket holds the body's bytes; without
  -- Overwrite no object was there before.
  pub aws_save-ok :
      (ctx : Context Machine) (r : SaveRequest Machine) (s s' : Machine) (id : Text)
      → save sdk urls base_endpoint force_path_style ctx r s ≡ ((id, none), s')
      → (body : Reader) × (r.body ≡ some body)
        × (id ≡ r.file_id)
        × (body.failure ≡ none)
        × (objects s'.remote (get_value (values_in r.config) (text "bucket")) r.key
            ≡ some body.content)
        × ((r.overwrite ≡ true)
            ⊎ (objects s.remote (get_value (values_in r.config) (text "bucket")) r.key ≡ none))
  unfolding save save_object
  aws_save-ok ctx r s s' id h =
      let done = returned-eq-ok [] _ id s' h in
      let (body, s₁, given, h₁) = >>=-eq-ok (lift (required_body r.body)) _ s id s' done in
      let ((c, cfg), s₂, opened, h₂) =
        >>=-eq-ok (client sdk urls base_endpoint force_path_style ctx (values_in r.config)) _ s₁ id
          s' h₁ in
      let (u, s₃, ensured, h₃) =
        >>=-eq-ok (ensure_bucket sdk urls base_endpoint force_path_style ctx (c, cfg)) _ s₂ id s'
          h₂ in
      let (named, whole, there, new) = upload-eq-ok ctx (c, cfg) r body s₃ s' id h₃ in
      let (bucket, kept) = client-ok ctx (values_in r.config) s₁ c cfg s₂ opened in
      let before =
        ap (λ o. o cfg.bucket r.key)
          (ended-Keeps objects (ensure_bucket sdk urls base_endpoint force_path_style ctx (c, cfg))
              s₂ s₃ (ok tt) (ensure_bucket-Keeps ctx (c, cfg)) ensured
            ∙ kept
            ∙ sym (ap (λ p. objects p.1.remote) given)) in
      (
        body,
        body-eq-ok r.body body (ap (λ p. p.0) given),
        named,
        whole,
        ap (λ b. objects s'.remote b r.key) (sym bucket) ∙ there,
        elim new [
          | inl o ↦ inl o
          | inr n ↦ inr (ap (λ b. objects s.remote b r.key) (sym bucket) ∙ sym before ∙ n)
        ],
      )

  head_at-ok :
      (ctx : Context Machine) (b : C × BackendConfig) (key : Text) (s s' : Machine) (found : Bool)
      → head_at sdk urls base_endpoint force_path_style ctx b key s ≡ (ok found, s')
      → (found ≡ is_some (objects s.remote b.1.bucket key)) × (objects s'.remote ≡ objects s.remote)
  head_at-ok ctx b key s s' found h = (
    found-eq-ok _ (objects s.remote b.1.bucket key) _ found
        (laws.head_object-present b.0 b.1.bucket key _ s.remote)
        (laws.head_object-absent b.0 b.1.bucket key _ s.remote) (ap (λ p. p.0) h),
    sym (ap (λ p. objects p.1.remote) h)
        ∙ laws.head_object-keeps b.0 b.1.bucket key (remote_context ctx s) s.remote,
  )

  -- If the calls of the SDK do what S3 documents and Exists returns no error, it tells whether the object is there, and changes no object.
  pub aws_exists-ok :
      (ctx : Context Machine) (r : FileRequest Machine) (s s' : Machine) (found : Bool)
      → exists sdk urls base_endpoint force_path_style ctx r s ≡ ((found, none), s')
      → (found ≡ is_some (objects s.remote (get_value (values_in r.config) (text "bucket")) r.key))
        × (objects s'.remote ≡ objects s.remote)
  unfolding exists
  aws_exists-ok ctx r s s' found h =
      let ((c, cfg), s₁, opened, h₁) =
        >>=-eq-ok (client sdk urls base_endpoint force_path_style ctx (values_in r.config)) _ s
          found s' (returned-eq-ok false _ found s' h) in
      let (seen, kept) = head_at-ok ctx (c, cfg) r.key s₁ s' found h₁ in
      let (bucket, before) = client-ok ctx (values_in r.config) s c cfg s₁ opened in
      (
        seen
            ∙ ap is_some
                (ap (λ o. o cfg.bucket r.key) before ∙ ap (λ b. objects s.remote b r.key) bucket),
        kept ∙ before,
      )

  delete_at-ok :
      (ctx : Context Machine) (r : FileRequest Machine) (s s' : Machine) (deleted : Bool)
      → delete_at sdk urls base_endpoint force_path_style ctx r s ≡ (ok deleted, s')
      → (deleted ≡ true)
        × (objects s'.remote (get_value (values_in r.config) (text "bucket")) r.key ≡ none)
  delete_at-ok ctx r s s' deleted h =
      let ((c, cfg), s₁, opened, h₁) =
        >>=-eq-ok (client sdk urls base_endpoint force_path_style ctx (values_in r.config)) _ s
          deleted s' h in
      let (bucket, _) = client-ok ctx (values_in r.config) s c cfg s₁ opened in
      let (sent, d) = succeeded-eq-ok _ deleted (ap (λ p. p.0) h₁) in
      (
        d,
        ap (λ b. objects s'.remote b r.key) (sym bucket)
            ∙ ap (λ w. objects w cfg.bucket r.key) (sym (ap (λ p. p.1.remote) h₁))
            ∙ laws.delete_object-absent c cfg.bucket r.key (remote_context ctx s₁) s₁.remote sent,
      )

  deleted-ok :
      (ctx : Context Machine) (r : FileRequest Machine) (s₁ s' : Machine) (there deleted : Bool)
      → there ≡ is_some (objects s₁.remote (get_value (values_in r.config) (text "bucket")) r.key)
      → if_present there (delete_at sdk urls base_endpoint force_path_style ctx r) s₁
        ≡ (ok deleted, s')
      → (deleted ≡ there)
        × (objects s'.remote (get_value (values_in r.config) (text "bucket")) r.key ≡ none)
  deleted-ok ctx r s₁ s' true deleted t h = delete_at-ok ctx r s₁ s' deleted h
  deleted-ok ctx r s₁ s' false deleted t h = (
    cc,
    ap (λ w. objects w (get_value (values_in r.config) (text "bucket")) r.key)
          (sym (ap (λ p. p.1.remote) h))
        ∙ is_some-false _ t,
  )

  -- If the calls of the SDK do what S3 documents and Delete returns no error, it tells whether the
  -- object was there, and the object is not there any more.
  pub aws_delete-ok :
      (ctx : Context Machine) (r : FileRequest Machine) (s s' : Machine) (deleted : Bool)
      → delete sdk urls base_endpoint force_path_style ctx r s ≡ ((deleted, none), s')
      → (deleted
          ≡ is_some (objects s.remote (get_value (values_in r.config) (text "bucket")) r.key))
        × (objects s'.remote (get_value (values_in r.config) (text "bucket")) r.key ≡ none)
  unfolding delete
  aws_delete-ok ctx r s s' deleted h =
      let (there, s₁, looked, h₁) =
        >>=-eq-ok (λ s₀. as_result (exists sdk urls base_endpoint force_path_style ctx r s₀)) _ s
          deleted s' (returned-eq-ok false _ deleted s' h) in
      let (seen, kept) = aws_exists-ok ctx r s s₁ there (
        as_result-eq-ok (exists sdk urls base_endpoint force_path_style ctx r s) there s₁ looked) in
      let (told, gone) =
        deleted-ok ctx r s₁ s' there deleted
          (seen
            ∙ ap (λ o. is_some (o (get_value (values_in r.config) (text "bucket")) r.key))
                (sym kept))
          h₁ in
      (told ∙ seen, gone)
