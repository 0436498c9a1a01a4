-- ===== src/Prelude/Texts/Split.antt =====
-- Splitting and joining texts.
use mathlib.Core.Path.{◌≡◌, refl, sym, ap, ◌∙◌}
use mathlib.Core.Bool.{Bool, true, false, ◌||◌}
use mathlib.Core.List.{List, [], ◌∷◌, ◌++◌}
use mathlib.Core.Logic.{◌≢◌, inl, inr}
use native.Mathlib.Omega.{arith}
use sharp_store.Prelude.Tests.{if◌then◌else◌, ◌==◌, Bool-cases}
use sharp_store.Prelude.Texts.{
  Text, contains, split, cons_first, cons_nonempty, nonempty, fields, any_text, slash, is_slash,
  trim, trim_left, trim_right, cons_trimmed,
}
use Prim.Native.Nat.{ℕ}

module _ (p : ℕ → Bool) where
  cons_first-ne-nil : (x : ℕ) (ss : List Text) → cons_first x ss ≢ []
  cons_first-ne-nil x [] = λ e. cc
  cons_first-ne-nil x (s ∷ ss) = λ e. cc

  pub split-ne-nil : (s : Text) → split p s ≢ []
  unfolding split
  split-ne-nil [] = λ e. cc
  split-ne-nil (x ∷ s) = ground (arith, cons_first-ne-nil x (split p s))

  cons_first-append :
      (x : ℕ) (ss ts : List Text) → ss ≢ [] → cons_first x (ss ++ ts) ≡ cons_first x ss ++ ts
  cons_first-append x [] ts h = absurd (h refl)
  cons_first-append x (s ∷ ss) ts h = refl

  -- A separator ends one text and starts another.
  pub split-append :
      (s : Text) (c : ℕ) (t : Text) → p c ≡ true → split p (s ++ c ∷ t) ≡ split p s ++ split p t
  unfolding split
  split-append [] c t h = rw h
  split-append (x ∷ s) c t h =
      ground
        (arith, split-append s c t h, cons_first-append x (split p s) (split p t) (split-ne-nil s))

  cons_nonempty-append :
      (s : Text) (ss ts : List Text) → cons_nonempty s (ss ++ ts) ≡ cons_nonempty s ss ++ ts
  cons_nonempty-append [] ss ts = refl
  cons_nonempty-append (x ∷ s) ss ts = refl

  nonempty-append : (ss ts : List Text) → nonempty (ss ++ ts) ≡ nonempty ss ++ nonempty ts
  unfolding nonempty
  nonempty-append [] ts = refl
  nonempty-append (s ∷ ss) ts =
      ap (cons_nonempty s) (nonempty-append ss ts)
      ∙ cons_nonempty-append s (nonempty ss) (nonempty ts)

  pub fields-append :
      (s : Text) (c : ℕ) (t : Text) → p c ≡ true → fields p (s ++ c ∷ t) ≡ fields p s ++ fields p t
  unfolding fields
  fields-append s c t h =
      ap nonempty (split-append s c t h) ∙ nonempty-append (split p s) (split p t)

  -- A text without separators is one piece.
  pub split_of_not-contains : (s : Text) → contains p s ≡ false → split p s ≡ s ∷ []
  unfolding split contains
  split_of_not-contains [] h = refl
  split_of_not-contains (x ∷ s) h = ground (arith, split_of_not-contains s)

  pub fields_of_not-contains :
      (x : ℕ) (s : Text) → contains p (x ∷ s) ≡ false → fields p (x ∷ s) ≡ (x ∷ s) ∷ []
  unfolding fields
  fields_of_not-contains x s h = ap nonempty (split_of_not-contains (x ∷ s) h)

module _ (p : ℕ → Bool) (c : ℕ) (sep : p c ≡ true) where
  fields-trim_left : (s : Text) → fields p (trim_left c s) ≡ fields p s
  unfolding fields trim_left split nonempty
  fields-trim_left [] = refl
  fields-trim_left (x ∷ s) = elim (Bool-cases (x == c)) [
    | inl e ↦ let same_byte : x ≡ c = ground arith in rw (e, same_byte, sep) (fields-trim_left s)
    | inr e ↦ rw e refl
  ]

  -- What the pieces of two texts have in common: the first, and the others but for empty ones.
  abbrev Alike : Text → Text → Type 0
  Alike s t =
      (h : Text) × (ss : List Text) × (ts : List Text) × (split p s ≡ h ∷ ss)
      × (split p t ≡ h ∷ ts)
      × (nonempty ss ≡ nonempty ts)

  Alike-cons : (x : ℕ) (s t : Text) → Alike s t → Alike (x ∷ s) (x ∷ t)
  unfolding split nonempty
  Alike-cons x s t (h, ss, ts, e, d, n) = elim (Bool-cases (p x)) [
    | inl q ↦ ([], split p s, split p t, ground arith, ground arith, ground arith)
    | inr q ↦ (x ∷ h, ss, ts, ground arith, ground arith, n)
  ]

  Alike-cons_trimmed : (x : ℕ) (r s : Text) → Alike r s → Alike (cons_trimmed c x r) (x ∷ s)
  unfolding split nonempty
  Alike-cons_trimmed x [] s (h, ss, ts, e, d, n) = elim (Bool-cases (x == c)) [
    | inl q ↦
        let same_byte : x ≡ c = ground arith in
        let at_x : p x ≡ true = rw same_byte sep in
        let first_empty : h ≡ [] = ground arith in
        let none_after : ss ≡ [] = ground arith in
        let pieces : nonempty (split p s) ≡ nonempty ts = rw (d, first_empty) refl in
        ([], [], split p s, rw q refl, rw at_x refl, sym (pieces ∙ rw (← n, none_after) refl))
    | inr q ↦ rw q (Alike-cons x [] s (h, ss, ts, e, d, n))
  ]
  Alike-cons_trimmed x (y ∷ r) s a = Alike-cons x (y ∷ r) s a

  Alike-trim_right : (s : Text) → Alike (trim_right c s) s
  unfolding trim_right split
  Alike-trim_right [] = ([], [], [], refl, refl, refl)
  Alike-trim_right (x ∷ s) = Alike-cons_trimmed x (trim_right c s) s (Alike-trim_right s)

  fields-trim_right : (s : Text) → fields p (trim_right c s) ≡ fields p s
  unfolding fields nonempty
  fields-trim_right s =
      let (h, ss, ts, e, d, n) = Alike-trim_right s in rw (e, d) (ap (cons_nonempty h) n)

  -- Trimming a separator takes no piece away.
  pub fields-trim : (s : Text) → fields p (trim c s) ≡ fields p s
  unfolding trim
  fields-trim s = fields-trim_right (trim_left c s) ∙ fields-trim_left s

pub any_text-append :
    (q : Text → Bool) (ss ts : List Text) → any_text q (ss ++ ts) ≡ (any_text q ss || any_text q ts)
unfolding any_text
any_text-append q [] ts = refl
any_text-append q (s ∷ ss) ts = ground (arith, any_text-append q ss ts)

-- The text before the first slash, and the text after it.
unfoldable pub before_slash : Text → Text
before_slash [] = []
before_slash (x ∷ s) = let rest = before_slash s in if is_slash x then [] else x ∷ rest

unfoldable pub after_slash : Text → Text
after_slash [] = []
after_slash (x ∷ s) = let rest = after_slash s in if is_slash x then s else rest

pub before_slash-append :
    (s t : Text) → contains is_slash s ≡ false → before_slash (s ++ slash ∷ t) ≡ s
unfolding before_slash contains
before_slash-append [] t h = refl
before_slash-append (x ∷ s) t h = ground (arith, before_slash-append s t)

pub after_slash-append :
    (s t : Text) → contains is_slash s ≡ false → after_slash (s ++ slash ∷ t) ≡ t
unfolding after_slash contains
after_slash-append [] t h = refl
after_slash-append (x ∷ s) t h = ground (arith, after_slash-append s t)
