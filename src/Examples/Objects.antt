-- ===== src/Examples/Objects.antt =====
-- Save, Exists and Delete of backend/aws on an object store in memory.
use mathlib.Core.List.{lookup}
use sharp_store.Prelude.{
  ◌≢◌, Option, [], ◌≡◌, refl, ◌⊎◌, true, false, none, some, ◌∷◌, text, text_discrete,
}
use sharp_store.Prelude.Texts.{any_text}
use sharp_store.Prelude.Maps.{put, copy_map}
use sharp_store.Config.{get_value, new_container_config}
use sharp_store.Backend.{Reader, FileRequest, SaveRequest}
use sharp_store.Providers.{parse_bool}
use sharp_store.Providers.Aws
use sharp_store.Cloud.{Cloud, client_for, load_or_store}
use sharp_store.Cloud.Settings.{read_flag, missing_value, values_in}
use sharp_store.Cloud.Steps.{configured, create_if_missing}
use sharp_store.Cloud.Aws.Settings.{BackendConfig, BackendConfig-discrete, read_config}
use sharp_store.Cloud.Aws.{
  ClientOptions, client, ensure_bucket, save_object, save, exists, delete, get_or_nil,
}
use sharp_store.Cloud.Answers.{is_some}
use sharp_store.Cloud.Aws.Store.{Objects}
use sharp_store.Cloud.Aws.Contract.{aws_save-ok, aws_exists-ok, aws_delete-ok}
use sharp_store.Cloud.Aws.RoundTrip.{Gives, aws_get_or_nil-save}
use sharp_store.Cloud.Aws.Frame.{aws_save-frame}
use sharp_store.Examples.{acme, alive, request_of}
use sharp_store.Examples.Clouds.{aws_config, web, idle_os}
use sharp_store.Examples.Stores.{memory_sdk, memory_sdk-IsStore}

abbrev Machine : Type 0
Machine = Cloud BackendConfig ClientOptions Objects

abbrev on_aws : FileRequest Machine
on_aws = record (request_of acme (text "a")) {
  key = text "acme/a";
  config = new_container_config (some (Aws.backend_config aws_config));
}

abbrev empty_store : Machine
empty_store = record { clients = []; os = idle_os; remote = λ b k. none }

abbrev save_new : SaveRequest Machine
save_new = record {
  file = on_aws;
  body = some (record { content = 1 ∷ 2 ∷ []; failure = none });
  overwrite = false;
}

abbrev after_save : Machine
after_save = (save memory_sdk web [] false alive save_new empty_store).1

it_saves : save memory_sdk web [] false alive save_new empty_store ≡ ((text "a", none), after_save)
unfolding save save_object client configured client_for load_or_store lookup put text_discrete
    read_config missing_value read_flag parse_bool any_text get_value new_container_config copy_map
    ensure_bucket create_if_missing
it_saves = refl

aws_save-ok_example :
    (body : Reader) × (save_new.body ≡ some body)
    × (text "a" ≡ save_new.file_id)
    × (body.failure ≡ none)
    × (after_save.remote (get_value (values_in on_aws.config) (text "bucket")) (text "acme/a")
        ≡ some body.content)
    × ((save_new.overwrite ≡ true)
        ⊎ (empty_store.remote (get_value (values_in on_aws.config) (text "bucket")) (text "acme/a")
            ≡ none))
aws_save-ok_example =
    aws_save-ok memory_sdk web [] false (λ w. w) memory_sdk-IsStore alive save_new empty_store
      after_save (text "a") it_saves

abbrev after_exists : Machine
after_exists = (exists memory_sdk web [] false alive on_aws after_save).1

it_is_there : exists memory_sdk web [] false alive on_aws after_save ≡ ((true, none), after_exists)
unfolding save save_object exists client configured client_for load_or_store lookup put
    text_discrete read_config missing_value read_flag parse_bool any_text get_value
    new_container_config copy_map ensure_bucket create_if_missing BackendConfig-discrete
it_is_there = refl

aws_exists-ok_example :
    (true
      ≡ is_some
          (after_save.remote (get_value (values_in on_aws.config) (text "bucket")) (text "acme/a")))
    × (after_exists.remote ≡ after_save.remote)
aws_exists-ok_example =
    aws_exists-ok memory_sdk web [] false (λ w. w) memory_sdk-IsStore alive on_aws after_save
      after_exists true it_is_there

abbrev after_delete : Machine
after_delete = (delete memory_sdk web [] false alive on_aws after_save).1

it_deletes : delete memory_sdk web [] false alive on_aws after_save ≡ ((true, none), after_delete)
unfolding save save_object exists delete client configured client_for load_or_store lookup put
    text_discrete read_config missing_value read_flag parse_bool any_text get_value
    new_container_config copy_map ensure_bucket create_if_missing BackendConfig-discrete
it_deletes = refl

aws_delete-ok_example :
    (true
      ≡ is_some
          (after_save.remote (get_value (values_in on_aws.config) (text "bucket")) (text "acme/a")))
    × (after_delete.remote (get_value (values_in on_aws.config) (text "bucket")) (text "acme/a")
        ≡ none)
aws_delete-ok_example =
    aws_delete-ok memory_sdk web [] false (λ w. w) memory_sdk-IsStore alive on_aws after_save
      after_delete true it_deletes

abbrev reader_saved : Option Reader
reader_saved = some (record { content = 1 ∷ 2 ∷ []; failure = none })

abbrev after_get : Machine
after_get = (get_or_nil memory_sdk web [] false alive on_aws after_save).1

it_reads :
    get_or_nil memory_sdk web [] false alive on_aws after_save ≡ ((reader_saved, none), after_get)
unfolding save save_object get_or_nil client configured client_for load_or_store lookup put
    text_discrete read_config missing_value read_flag parse_bool any_text get_value
    new_container_config copy_map ensure_bucket create_if_missing BackendConfig-discrete
it_reads = refl

aws_get_or_nil-save_example :
    (body : Reader) × (save_new.body ≡ some body) × Gives reader_saved body.content
aws_get_or_nil-save_example =
    aws_get_or_nil-save memory_sdk web [] false (λ w. w) memory_sdk-IsStore alive alive save_new
      empty_store after_save after_get (text "a") reader_saved it_saves it_reads

keys_differ : text "acme/a" ≢ text "acme/ab"
keys_differ = λ e. cc

aws_save-frame_example :
    (save memory_sdk web [] false alive save_new after_save).1.remote (text "docs") (text "acme/ab")
    ≡ after_save.remote (text "docs") (text "acme/ab")
aws_save-frame_example =
    aws_save-frame memory_sdk web [] false (λ w. w) memory_sdk-IsStore (text "docs")
      (text "acme/ab") alive save_new after_save keys_differ
