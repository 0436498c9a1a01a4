-- ===== src/Prelude/Order.antt =====
-- The order of Go strings, byte by byte.
use sharp_store.Prelude.Tests.{ltb, ◌==◌, if◌then◌else◌}
use sharp_store.Prelude.Texts.{Text}
use mathlib.Core.Path.{◌≡◌, refl}
use mathlib.Core.Logic.{◌≢◌}
use mathlib.Core.Bool.{Bool, true, false}
use mathlib.Core.List.{[], ◌∷◌}
use native.Mathlib.Omega.{arith}

-- s < t
unfoldable pub text_ltb : Text → Text → Bool
text_ltb [] [] = false
text_ltb [] (y ∷ t) = true
text_ltb (x ∷ s) [] = false
text_ltb (x ∷ s) (y ∷ t) =
    let rest = text_ltb s t in if ltb x y then true else if x == y then rest else false

pub text_ltb_total : (s t : Text) → s ≢ t → text_ltb s t ≡ false → text_ltb t s ≡ true
unfolding text_ltb
text_ltb_total [] [] n h = absurd (n refl)
text_ltb_total [] (y ∷ t) n h = cc
text_ltb_total (x ∷ s) [] n h = refl
text_ltb_total (x ∷ s) (y ∷ t) n h = ground (arith, text_ltb_total s t)
