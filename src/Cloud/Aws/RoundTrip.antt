-- ===== src/Cloud/Aws/RoundTrip.antt =====
-- backend/aws/aws.go: what GetOrNil gives of an object that Save has stored.
use sharp_store.Prelude.{◌≡◌, ap, ◌∙◌, ◌⊎◌, inl, inr, Bool, Option, none, some, List, ℕ, Text, text}
use sharp_store.Errors.{Error, ok}
use sharp_store.Scope.{Context}
use sharp_store.Config.{get_value}
use sharp_store.Backend.{Reader, FileRequest, SaveRequest}
use sharp_store.Cloud.{Cloud, remote_context}
use sharp_store.Cloud.Settings.{values_in}
use sharp_store.Cloud.Urls.{Urls}
use sharp_store.Cloud.Answers.{found_body-eq-ok}
use sharp_store.Cloud.Keeps.{>>=-eq-ok, returned-eq-ok}
use sharp_store.Cloud.Aws.Settings.{BackendConfig}
use sharp_store.Cloud.Aws.{AwsSdk, client, save, get_or_nil}
use sharp_store.Cloud.Aws.Store.{Objects, IsStore}
use sharp_store.Cloud.Aws.Contract.{client-ok, aws_save-ok}

-- the reader of an object, unless the reader fails
abbrev pub Gives : Option Reader → List ℕ → Type 0
Gives o content =
    (reader : Reader) × (o ≡ some reader)
    × ((reader.content ≡ content) ⊎ ((e : Error) × (reader.failure ≡ some e)))

module _ {D C R U : Type 0} (sdk : AwsSdk D C R) (urls : Urls U) (base_endpoint : Text)
    (force_path_style : Bool) (objects : R → Objects) (laws : IsStore sdk objects) where
  abbrev Machine : Type 0
  Machine = Cloud BackendConfig C R

  gives :
      (b key : Text) (w : R) (c : C) (x : Context R) (o : Option Reader) (content : List ℕ)
      → objects w b key ≡ some content
      → ((reader : Reader) × ((sdk.get_object c b key x w).0 ≡ ok reader) × (o ≡ some reader))
        ⊎ ((objects w b key ≡ none) × (o ≡ none))
      → Gives o content
  gives b key w c x o content there (inr (gone, n)) = cc
  gives b key w c x o content there (inl (reader, got, e)) = (
    reader,
    e,
    elim (laws.get_object-content c b key x w reader got) [
      | inl whole ↦ inl (cc)
      | inr broken ↦ inr broken
    ],
  )

  get_or_nil-ok :
      (ctx : Context Machine) (r : FileRequest Machine) (s s' : Machine) (o : Option Reader)
      (content : List ℕ)
      → objects s.remote (get_value (values_in r.config) (text "bucket")) r.key ≡ some content
      → get_or_nil sdk urls base_endpoint force_path_style ctx r s ≡ ((o, none), s')
      → Gives o content
  unfolding get_or_nil
  get_or_nil-ok ctx r s s' o content there h =
      let ((c, cfg), s₁, opened, h₁) =
        >>=-eq-ok (client sdk urls base_endpoint force_path_style ctx (values_in r.config)) _ s o s'
          (returned-eq-ok none _ o s' h) in
      let (bucket, kept) =
        client-ok sdk urls base_endpoint force_path_style objects laws ctx (values_in r.config) s c
          cfg s₁ opened in
      gives cfg.bucket r.key s₁.remote c (remote_context ctx s₁) o content
        (ap (λ v. v cfg.bucket r.key) kept ∙ ap (λ b. objects s.remote b r.key) bucket ∙ there)
        (found_body-eq-ok _ (objects s₁.remote cfg.bucket r.key) _ o
          (laws.get_object-absent c cfg.bucket r.key (remote_context ctx s₁) s₁.remote)
          (ap (λ p. p.0) h₁))

  -- If the calls of the SDK do what S3 documents, Save returns no error and then GetOrNil for the same
  -- file returns none either, the latter gives a reader, and this gives the bytes of the body that was
  -- saved, unless it fails on the way.
  pub aws_get_or_nil-save :
      (ctx later : Context Machine) (r : SaveRequest Machine) (s s₁ s₂ : Machine) (id : Text)
      (o : Option Reader)
      → save sdk urls base_endpoint force_path_style ctx r s ≡ ((id, none), s₁)
      → get_or_nil sdk urls base_endpoint force_path_style later r.file s₁ ≡ ((o, none), s₂)
      → (body : Reader) × (r.body ≡ some body) × Gives o body.content
  aws_get_or_nil-save ctx later r s s₁ s₂ id o h g =
      let (body, given, _, _, there, _) =
        aws_save-ok sdk urls base_endpoint force_path_style objects laws ctx r s s₁ id h in
      (body, given, get_or_nil-ok later r.file s₁ s₂ o body.content there g)
