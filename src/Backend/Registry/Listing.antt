-- ===== src/Backend/Registry/Listing.antt =====
-- BackendRegistry.List of backend.go: each registered name once, in order.
use mathlib.Core.List.{Perm}
use mathlib.Core.List.Perm
use sharp_store.Prelude.{
  ◌≡◌, ◌≢◌, sym, Option, none, some, List, [], ◌∷◌, map, Text, Map, text_discrete, arith, true,
}
use sharp_store.Prelude.Order.{text_ltb, text_ltb_total}
use sharp_store.Prelude.Maps.{Fresh, HasDistinctKeys, put, put-HasDistinctKeys}
use sharp_store.Backend.{Backend, BackendInfo}
use sharp_store.Backend.Registry.{
  register, new_backend_registry, insert_info, sort_infos, info_of, list_backends,
}

-- Names rise strictly along the list.
abbrev pub Rises : List BackendInfo → Type 0
Rises [] = Unit
Rises (i ∷ []) = Unit
Rises (i ∷ j ∷ js) = (text_ltb i.name j.name ≡ true) × Rises (j ∷ js)

abbrev Unlisted : Text → List BackendInfo → Type 0
Unlisted n [] = Unit
Unlisted n (j ∷ js) = (n ≢ j.name) × Unlisted n js

insert_info-Rises :
    (i : BackendInfo) (js : List BackendInfo)
    → Unlisted i.name js
    → Rises js
    → Rises (insert_info i js)
unfolding insert_info
insert_info-Rises i [] u r = tt
insert_info-Rises i (j ∷ []) u r = ground (arith, text_ltb_total i.name j.name u.0)
insert_info-Rises i (j ∷ k ∷ js) u r =
    ground (arith, text_ltb_total i.name j.name u.0, insert_info-Rises i (k ∷ js) u.1 r.1)

insert_info-Unlisted :
    (n : Text) (i : BackendInfo) (js : List BackendInfo)
    → n ≢ i.name
    → Unlisted n js
    → Unlisted n (insert_info i js)
unfolding insert_info
insert_info-Unlisted n i [] h u = (h, tt)
insert_info-Unlisted n i (j ∷ js) h u = ground (arith, insert_info-Unlisted n i js h u.1)

insert_info-perm : (i : BackendInfo) (js : List BackendInfo) → Perm (insert_info i js) (i ∷ js)
unfolding insert_info
insert_info-perm i [] = Perm.refl (i ∷ [])
insert_info-perm i (j ∷ js) =
    let moved = Perm.trans (Perm.cons j (insert_info-perm i js)) (Perm.swap i j js) in
    ground (arith, moved, Perm.refl (i ∷ j ∷ js))

sort_infos-perm : (is : List BackendInfo) → Perm (sort_infos is) is
unfolding sort_infos
sort_infos-perm [] = Perm.refl []
sort_infos-perm (i ∷ is) =
    Perm.trans (insert_info-perm i (sort_infos is)) (Perm.cons i (sort_infos-perm is))

module _ {W : Type 0} where
  sort_infos-Unlisted :
      (n : Text) (m : Map Text (Backend W)) → Fresh n m → Unlisted n (sort_infos (map info_of m))
  unfolding sort_infos
  sort_infos-Unlisted n [] f = tt
  sort_infos-Unlisted n ((k, b) ∷ m) f =
      insert_info-Unlisted n (info_of (k, b)) (sort_infos (map info_of m)) (λ e. f.0 (sym e))
        (sort_infos-Unlisted n m f.1)

  sort_infos-Rises :
      (m : Map Text (Backend W)) → HasDistinctKeys m → Rises (sort_infos (map info_of m))
  unfolding sort_infos
  sort_infos-Rises [] d = tt
  sort_infos-Rises ((k, b) ∷ m) d =
      insert_info-Rises (info_of (k, b)) (sort_infos (map info_of m)) (sort_infos-Unlisted k m d.0)
        (sort_infos-Rises m d.1)

  register-HasDistinctKeys :
      (bs : List (Option (Backend W))) (m : Map Text (Backend W))
      → HasDistinctKeys m
      → HasDistinctKeys (register bs m)
  unfolding register
  register-HasDistinctKeys [] m d = d
  register-HasDistinctKeys (none ∷ bs) m d = register-HasDistinctKeys bs m d
  register-HasDistinctKeys (some b ∷ bs) m d =
      register-HasDistinctKeys bs (put text_discrete b.name b m)
        (put-HasDistinctKeys text_discrete b.name b m d)

  -- List of a new registry has strictly rising names, and is a permutation of the descriptions of
  -- the registered backends: no name is lost, added or repeated.
  pub list_backends-sorted :
      (bs : List (Option (Backend W)))
      → Rises (list_backends (new_backend_registry bs))
        × Perm
            (list_backends (new_backend_registry bs))
            (map info_of (new_backend_registry bs).backends)
  unfolding list_backends new_backend_registry
  list_backends-sorted bs = (
    sort_infos-Rises (register bs []) (register-HasDistinctKeys bs [] tt),
    sort_infos-perm (map info_of (register bs [])),
  )
