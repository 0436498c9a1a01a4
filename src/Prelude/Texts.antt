-- ===== src/Prelude/Texts.antt =====
-- Go strings as their bytes. Only whole bytes below 128 are looked for in them, so that the walks
-- by rune in the source and the walks by byte here agree.
pub mod Split
use Prim.Native.Char.{code}
use Prim.Native.String.{String}
use Prim.Native.Nat.{ℕ}
use mathlib.Core.Path.{◌≡◌, refl}
use mathlib.Core.Bool.{Bool, true, false, ◌||◌}
use mathlib.Core.List.{List, [], ◌∷◌, ◌++◌}
use native.Mathlib.Decide.{ℕ_discrete}
use sharp_store.Prelude.Tests.{◌==◌, if◌then◌else◌}

abbrev pub Text : Type 0
Text = List ℕ

abbrev pub text : String → Text
text String.[] = []
text (String.◌∷◌ c s) = code c ∷ text s

unfoldable pub text_discrete : Discrete Text
unfolding ℕ_discrete
text_discrete [] [] = yes refl
text_discrete [] (b ∷ t) = no (λ e. cc)
text_discrete (a ∷ s) [] = no (λ e. cc)
text_discrete (a ∷ s) (b ∷ t) = join_dec (ℕ_discrete a b) (text_discrete s t)
  where
    join_dec : Dec (a ≡ b) → Dec (s ≡ t) → Dec (◌≡◌ {A = List ℕ} (a ∷ s) (b ∷ t))
    join_dec (yes p) (yes q) = yes (cc)
    join_dec (no p) d = no (λ e. p (cc))
    join_dec (yes p) (no q) = no (λ e. q (cc))

-- `s == t` in a condition.
abbrev pub same : Text → Text → Bool
same s t = elim (text_discrete s t) [ yes _ ↦ true | no _ ↦ false ]

abbrev pub is_empty : Text → Bool
is_empty [] = true
is_empty (_ ∷ _) = false

abbrev pub slash : ℕ
slash = b'/'

abbrev pub backslash : ℕ
backslash = 92

abbrev pub dot : ℕ
dot = b'.'

-- strings.TrimLeft(s, c) for one byte c
unfoldable pub trim_left : ℕ → Text → Text
trim_left c [] = []
trim_left c (x ∷ s) = if x == c then trim_left c s else x ∷ s

abbrev pub cons_trimmed : ℕ → ℕ → Text → Text
cons_trimmed c x [] = if x == c then [] else x ∷ []
cons_trimmed c x (y ∷ s) = x ∷ y ∷ s

-- strings.TrimRight(s, c)
unfoldable pub trim_right : ℕ → Text → Text
trim_right c [] = []
trim_right c (x ∷ s) = cons_trimmed c x (trim_right c s)

-- strings.Trim(s, c)
unfoldable pub trim : ℕ → Text → Text
unfolding trim_left trim_right
trim c s = trim_right c (trim_left c s)

-- strings.ContainsFunc, strings.ContainsAny, strings.ContainsRune
unfoldable pub contains : (ℕ → Bool) → Text → Bool
contains p [] = false
contains p (x ∷ s) = p x || contains p s

abbrev pub cons_first : ℕ → List Text → List Text
cons_first x [] = (x ∷ []) ∷ []
cons_first x (s ∷ ss) = (x ∷ s) ∷ ss

-- The pieces between the separators, empty ones included.
unfoldable pub split : (ℕ → Bool) → Text → List Text
split p [] = [] ∷ []
split p (x ∷ s) = let rest = split p s in if p x then [] ∷ rest else cons_first x rest

abbrev pub cons_nonempty : Text → List Text → List Text
cons_nonempty [] ss = ss
cons_nonempty (x ∷ s) ss = (x ∷ s) ∷ ss

unfoldable pub nonempty : List Text → List Text
nonempty [] = []
nonempty (s ∷ ss) = cons_nonempty s (nonempty ss)

-- strings.FieldsFunc
unfoldable pub fields : (ℕ → Bool) → Text → List Text
unfolding split nonempty
fields p s = nonempty (split p s)

-- strings.Join(ss, sep) for one byte sep
unfoldable pub join : ℕ → List Text → Text
join c [] = []
join c (s ∷ []) = s
join c (s ∷ t ∷ ss) = s ++ c ∷ join c (t ∷ ss)

-- a loop that returns at the first element which satisfies the test
unfoldable pub any_text : (Text → Bool) → List Text → Bool
any_text p [] = false
any_text p (s ∷ ss) = p s || any_text p ss

abbrev pub is_slash : ℕ → Bool
is_slash c = c == slash

-- r == '/' || r == '\\'
abbrev pub is_separator : ℕ → Bool
is_separator c = c == slash || c == backslash
