-- ===== src/Examples/Keys.antt =====
-- Keys of key.go at concrete requests.
use sharp_store.Prelude.{◌≡◌, refl, false, ◌∷◌, ◌++◌, Text, text, text_discrete}
use sharp_store.Prelude.Texts.{slash, is_slash, contains}
use sharp_store.Errors.{ok}
use sharp_store.Key.{build_key, checked_file_id, tenant_identifier}
use sharp_store.Key.Safety.{HasNoDots, build_key-HasNoDots}
use sharp_store.Key.Isolation.{IsScoped, build_key-eq, tenant_isolation}
use sharp_store.Examples.{World, acme, zeta, request_of}

acme-IsScoped : IsScoped (request_of {W = World} acme (text "/a/b")) tt (text "acme")
unfolding tenant_identifier
acme-IsScoped = record {
  tenant = acme;
  scoped = refl;
  present = refl;
  named = refl;
  not_empty = λ e. cc;
}

acme_again-IsScoped : IsScoped (request_of {W = World} acme (text "a/b/")) tt (text "acme")
unfolding tenant_identifier
acme_again-IsScoped = record {
  tenant = acme;
  scoped = refl;
  present = refl;
  named = refl;
  not_empty = λ e. cc;
}

key_of_acme : build_key (request_of {W = World} acme (text "/a/b")) tt ≡ ok (text "acme/a/b")
unfolding build_key text_discrete
key_of_acme = refl

key_of_acme_again : build_key (request_of {W = World} acme (text "a/b/")) tt ≡ ok (text "acme/a/b")
unfolding build_key text_discrete
key_of_acme_again = refl

key_of_zeta : build_key (request_of {W = World} zeta (text "..b")) tt ≡ ok (text "23/..b")
unfolding build_key text_discrete
key_of_zeta = refl

build_key-HasNoDots_example : HasNoDots (text "23/..b")
build_key-HasNoDots_example =
    build_key-HasNoDots (request_of {W = World} zeta (text "..b")) tt (text "23/..b") key_of_zeta

build_key-eq_example :
    (f : Text) × (checked_file_id (text "/a/b") ≡ ok f)
    × (text "acme/a/b" ≡ text "acme" ++ slash ∷ f)
    × (contains is_slash (text "acme") ≡ false)
build_key-eq_example =
    build_key-eq (request_of {W = World} acme (text "/a/b")) tt (text "acme/a/b") acme-IsScoped
      key_of_acme

tenant_isolation_example :
    (text "acme" ≡ text "acme") × (checked_file_id (text "/a/b") ≡ checked_file_id (text "a/b/"))
tenant_isolation_example =
    tenant_isolation (request_of {W = World} acme (text "/a/b"))
      (request_of {W = World} acme (text "a/b/")) tt tt (text "acme/a/b") acme-IsScoped
      acme_again-IsScoped key_of_acme key_of_acme_again
