-- ===== src/FilePaths/Clean.antt =====
-- What cleaning keeps: the segments of a path that goes nowhere up.
use sharp_store.Prelude.{
  ℕ, zero, suc, ◌≡◌, refl, ap, ◌∙◌, Bool, true, false, List, [], ◌∷◌, ◌++◌, Text, text,
  text_discrete, same, is_empty, All, arith,
}
use sharp_store.Prelude.Texts.{slash, is_slash, split, cons_first, join, contains}
use sharp_store.Prelude.Texts.Split.{split-append, split_of_not-contains}
use sharp_store.FilePaths.{
  is_abs, is_up, is_here, clean_onto, clean_segments, ups, render, clean, join_path, has_prefix,
}

-- A segment that names a file or a directory below.
pub record IsPlain (s : Text) : Type 0 where
  pub not_here : is_here s ≡ false
  pub not_up : is_up s ≡ false
  pub no_slash : contains is_slash s ≡ false

abbrev NoSlash : Text → Type 0
NoSlash s = contains is_slash s ≡ false

cons_first-NoSlash :
    (x : ℕ) (ss : List Text) → is_slash x ≡ false → All NoSlash ss → All NoSlash (cons_first x ss)
unfolding contains
cons_first-NoSlash x [] h a = (ground arith, tt)
cons_first-NoSlash x (s ∷ ss) h a = (ground arith, a.1)

split-NoSlash : (s : Text) → All NoSlash (split is_slash s)
unfolding split contains
split-NoSlash [] = (refl, tt)
split-NoSlash (x ∷ s) = ground (arith, split-NoSlash s, cons_first-NoSlash x (split is_slash s))

clean_onto-IsPlain :
    (s : Text) (p : ℕ × List Text) → NoSlash s → All IsPlain p.1 → All IsPlain (clean_onto s p).1
clean_onto-IsPlain s (zero, out) h a = ground arith
clean_onto-IsPlain s (suc n, out) h a = ground arith

clean_segments-IsPlain : (ss : List Text) → All NoSlash ss → All IsPlain (clean_segments ss).1
unfolding clean_segments
clean_segments-IsPlain [] h = tt
clean_segments-IsPlain (s ∷ ss) h =
    clean_onto-IsPlain s (clean_segments ss) h.0 (clean_segments-IsPlain ss h.1)

pub clean-IsPlain : (s : Text) → All IsPlain (clean_segments (split is_slash s)).1
clean-IsPlain s = clean_segments-IsPlain (split is_slash s) (split-NoSlash s)

-- plain segments are their own cleaning
clean_segments_of_IsPlain : (ks : List Text) → All IsPlain ks → clean_segments ks ≡ (zero, ks)
unfolding clean_segments
clean_segments_of_IsPlain [] a = refl
clean_segments_of_IsPlain (k ∷ ks) a =
    ground (arith, clean_segments_of_IsPlain ks a.1, a.0.not_here, a.0.not_up)

clean_onto-append :
    (s : Text) (p : ℕ × List Text) (ks : List Text)
    → clean_onto s (p.0, p.1 ++ ks) ≡ ((clean_onto s p).0, (clean_onto s p).1 ++ ks)
clean_onto-append s (zero, out) ks = ground arith
clean_onto-append s (suc n, out) ks = ground arith

-- plain segments behind a path are added to its own
clean_segments-append :
    (ss ks : List Text)
    → All IsPlain ks
    → clean_segments (ss ++ ks) ≡ ((clean_segments ss).0, (clean_segments ss).1 ++ ks)
unfolding clean_segments
clean_segments-append [] ks a = clean_segments_of_IsPlain ks a
clean_segments-append (s ∷ ss) ks a =
    ap (clean_onto s) (clean_segments-append ss ks a) ∙ clean_onto-append s (clean_segments ss) ks

split-join :
    (k : Text) (ks : List Text)
    → All IsPlain (k ∷ ks)
    → split is_slash (join slash (k ∷ ks)) ≡ k ∷ ks
unfolding join
split-join k [] a = split_of_not-contains is_slash k a.0.no_slash
split-join k (l ∷ ks) a =
    split-append is_slash k slash (join slash (l ∷ ks)) refl
    ∙ rw (split_of_not-contains is_slash k a.0.no_slash, split-join l ks a.1) refl

is_abs-append : (r : Text) (s : Text) → is_empty r ≡ false → is_abs (r ++ s) ≡ is_abs r
is_abs-append [] s h = cc
is_abs-append (c ∷ r) s h = refl

-- The segments of a path: how far up it goes, and the names below.
abbrev pub segments : Text → ℕ × List Text
segments s = clean_segments (split is_slash s)

-- Joined to a root, plain segments come behind the segments of the root.
pub join_path-segments :
    (root k : Text) (ks : List Text)
    → is_empty root ≡ false
    → All IsPlain (k ∷ ks)
    → is_empty (join slash (k ∷ ks)) ≡ false
    → join_path root (join slash (k ∷ ks))
      ≡ render (is_abs root) ((segments root).0, (segments root).1 ++ k ∷ ks)
unfolding join_path clean
join_path-segments root k ks h a e =
    rw
      (
        e,
        is_abs-append root (slash ∷ join slash (k ∷ ks)) h,
        split-append is_slash root slash (join slash (k ∷ ks)) refl,
        split-join k ks a,
        clean_segments-append (split is_slash root) (k ∷ ks) a,
      )
      refl

-- A cleaned path that is not ".", "..", absolute or below ".." consists of plain segments.
render-inside :
    (b : Bool) (p : ℕ × List Text)
    → is_abs (render b p) ≡ false
    → same (render b p) (text ".") ≡ false
    → same (render b p) (text "..") ≡ false
    → has_prefix (render b p) (text "../") ≡ false
    → (k : Text) × (ks : List Text) × (p.1 ≡ k ∷ ks) × (render b p ≡ join slash (k ∷ ks))
unfolding render ups join
render-inside true (n, out) ab d u x = absurd (cc)
render-inside false (zero, []) ab d u x = absurd (unfold text_discrete in cc)
render-inside false (zero, k ∷ ks) ab d u x = (k, ks, refl, refl)
render-inside false (suc zero, []) ab d u x = absurd (unfold text_discrete in cc)
render-inside false (suc zero, o ∷ out) ab d u x = absurd (unfold has_prefix in cc)
render-inside false (suc (suc n), out) ab d u x = absurd (unfold has_prefix in cc)

pub clean-inside :
    (key : Text)
    → is_abs (clean key) ≡ false
    → same (clean key) (text ".") ≡ false
    → same (clean key) (text "..") ≡ false
    → has_prefix (clean key) (text "../") ≡ false
    → (k : Text) × (ks : List Text) × ((segments key).1 ≡ k ∷ ks)
      × (clean key ≡ join slash (k ∷ ks))
unfolding clean
clean-inside key = render-inside (is_abs key) (segments key)
