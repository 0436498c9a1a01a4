-- ===== src/Cloud/Aws/Frame.antt =====
-- backend/aws/aws.go: Save leaves the objects of all other keys alone.
use sharp_store.Prelude.{List, ℕ, Option, ◌≡◌, ◌≢◌, refl, ap, ◌∙◌, Bool, not, [], Text}
use sharp_store.Errors.{Result, ok, err}
use sharp_store.Scope.{Context}
use sharp_store.Config.{Values}
use sharp_store.Backend.{SaveRequest}
use sharp_store.Cloud.{Cloud, lift, required_body, returned, remote_context}
use sharp_store.Cloud.Settings.{values_in}
use sharp_store.Cloud.Urls.{Urls}
use sharp_store.Cloud.Keeps.{KeepsRemote, >>=-Keeps}
use sharp_store.Cloud.Aws.Settings.{BackendConfig}
use sharp_store.Cloud.Aws.{AwsSdk, client, ensure_bucket, save_object, save}
use sharp_store.Cloud.Aws.Store.{Objects, IsStore}
use sharp_store.Cloud.Aws.Contract.{client-Keeps, ensure_bucket-Keeps}

returned_state :
    {S A : Type 0} (zero_value : A) (p : Result A × S) → (returned zero_value p).1 ≡ p.1
returned_state zero_value (ok a, s) = refl
returned_state zero_value (err e, s) = refl

module _ {D C R U : Type 0} (sdk : AwsSdk D C R) (urls : Urls U) (base_endpoint : Text)
    (force_path_style : Bool) (objects : R → Objects) (laws : IsStore sdk objects)
    (bucket other : Text) where
  abbrev Machine : Type 0
  Machine = Cloud BackendConfig C R

  -- the object of one key
  abbrev object : R → Option (List ℕ)
  object w = objects w bucket other

  client-object :
      (ctx : Context Machine) (v : Values)
      → KeepsRemote object (client sdk urls base_endpoint force_path_style ctx v)
  client-object ctx v s =
      ap (λ o. o bucket other)
        (client-Keeps sdk urls base_endpoint force_path_style objects laws ctx v s)

  ensure_bucket-object :
      (ctx : Context Machine) (b : C × BackendConfig)
      → KeepsRemote object (ensure_bucket sdk urls base_endpoint force_path_style ctx b)
  ensure_bucket-object ctx b s =
      ap (λ o. o bucket other)
        (ensure_bucket-Keeps sdk urls base_endpoint force_path_style objects laws ctx b s)

  -- If the calls of the SDK do what S3 documents, Save, whatever it returns, changes no object of
  -- another key, in any bucket.
  pub aws_save-frame :
      (ctx : Context Machine) (r : SaveRequest Machine) (s : Machine)
      → r.key ≢ other
      → objects (save sdk urls base_endpoint force_path_style ctx r s).1.remote bucket other
        ≡ objects s.remote bucket other
  unfolding save save_object
  aws_save-frame ctx r s n =
      ap (λ s₁. object s₁.remote)
        (returned_state [] (save_object sdk urls base_endpoint force_path_style ctx r s))
      ∙ >>=-Keeps (λ s₁. object s₁.remote) (lift (required_body r.body)) _ (λ s₁. refl)
          (λ body.
            >>=-Keeps (λ s₁. object s₁.remote)
              (client sdk urls base_endpoint force_path_style ctx (values_in r.config)) _
              (client-object ctx (values_in r.config))
              (λ b.
                >>=-Keeps (λ s₁. object s₁.remote)
                  (ensure_bucket sdk urls base_endpoint force_path_style ctx b) _
                  (ensure_bucket-object ctx b)
                  (λ u s₁.
                    laws.put_object-frame b.0 b.1.bucket r.key body (not r.overwrite)
                      (remote_context ctx s₁) s₁.remote bucket other n)))
          s
