-- ===== src/Providers/Integers.antt =====
-- strconv.Itoa and strconv.Atoi of the Go library, on the 64-bit int, for backend/ks3.
use sharp_store.Prelude.{
  [], ◌≡◌, refl, ap, sym, ◌∙◌, inl, inr, arith, ℕ, zero, suc, ◌+◌, ◌*◌, ◌-◌, ◌/◌, ◌%◌, ◌^◌, ◌<◌,
  Bool, true, false, ◌&&◌, ◌∷◌, Text, is_empty, if◌then◌else◌, ltb, leb, ◌==◌, Bool-cases, ltb→lt,
  lt→ltb,
}
use sharp_store.Prelude.Integers.{ℤ, pos, negsuc}
use sharp_store.Prelude.Decimal.{format_uint, format_digits, tenth-lt}
use sharp_store.Errors.{Error, Result, ok, err, message}

-- An int is -(2 ^ 63) to 2 ^ 63 - 1.
abbrev pub IsInt : ℤ → Type 0
IsInt (pos n) = n < 2 ^ 63
IsInt (negsuc n) = n < 2 ^ 63

-- strconv.Itoa
unfoldable pub itoa : ℤ → Text
unfolding format_uint
itoa (pos n) = format_uint n
itoa (negsuc n) = b'-' ∷ format_uint (suc n)

abbrev pub is_digit : ℕ → Bool
is_digit c = leb 48 c && leb c 57

abbrev pub bad_syntax : Text → Error
bad_syntax s = message "strconv.Atoi: parsing %q: invalid syntax" (s ∷ [])

abbrev pub out_of_range : Text → Error
out_of_range s = message "strconv.Atoi: parsing %q: value out of range" (s ∷ [])

-- the digits of `s` that are left, after those of `n`: the loop of strconv.ParseUint
unfoldable pub read_digits : Text → ℕ → Text → Result ℕ
read_digits s n [] = ok n
read_digits s n (c ∷ ds) =
    let rest = read_digits s (n * 10 + (c - 48)) ds in
    if is_digit c
    then if ltb (n * 10 + (c - 48)) (2 ^ 64) then rest else err (out_of_range s)
    else err (bad_syntax s)

-- the digits that follow the sign of `s`
unfoldable pub magnitude : Text → Text → Result ℕ
unfolding read_digits
magnitude s [] = err (bad_syntax s)
magnitude s (c ∷ ds) = read_digits s 0 (c ∷ ds)

abbrev pub positive : Text → Result ℕ → Result ℤ
positive s (err e) = err e
positive s (ok n) = if ltb n (2 ^ 63) then ok (pos n) else err (out_of_range s)

abbrev pub negative : Text → Result ℕ → Result ℤ
negative s (err e) = err e
negative s (ok zero) = ok (pos 0)
negative s (ok (suc n)) = if ltb n (2 ^ 63) then ok (negsuc n) else err (out_of_range s)

-- strconv.Atoi
unfoldable pub atoi : Text → Result ℤ
unfolding magnitude
atoi [] = err (bad_syntax [])
atoi (c ∷ s) =
    if c == b'-'
    then negative (c ∷ s) (magnitude (c ∷ s) s)
    else if c == b'+'
    then positive (c ∷ s) (magnitude (c ∷ s) s)
    else positive (c ∷ s) (magnitude (c ∷ s) (c ∷ s))

read_digit :
    (s : Text) (n d : ℕ) (ds : Text)
    → d < 10
    → n * 10 + d < 2 ^ 64
    → read_digits s n ((48 + d) ∷ ds) ≡ read_digits s (n * 10 + d) ds
unfolding read_digits
read_digit s n d ds h g = rw (digit_true, back, lt→ltb (n * 10 + d) (2 ^ 64) g) refl
  where
    digit_true : is_digit (48 + d) ≡ true
    digit_true = ground arith

    back : 48 + d - 48 ≡ d
    back = omega arith

-- Reading the digits that were written gives the number.
read_digits-format_digits :
    (s : Text) (f n : ℕ) (acc : Text)
    → n < 10 ^ f
    → n < 2 ^ 64
    → read_digits s 0 (format_digits f n acc) ≡ read_digits s n acc
unfolding format_digits
read_digits-format_digits s zero n acc h g = ap (λ k. read_digits s k acc) (zero_of_lt n h)
  where
    zero_of_lt : (k : ℕ) → k < 10 ^ 0 → 0 ≡ k
    zero_of_lt k i = omega arith
read_digits-format_digits s (suc f) n acc h g = elim (Bool-cases (ltb n 10)) [
  | inl small ↦ rw small (
      read_digit s 0 n acc (ltb→lt n 10 small) (omega arith)
      ∙ ap (λ k. read_digits s k acc) (from_zero n))
  | inr large ↦ rw large (
      read_digits-format_digits s f (n / 10) ((48 + n % 10) ∷ acc) (tenth-lt f n h) (omega arith)
      ∙ read_digit s (n / 10) (n % 10) acc (omega arith) (omega arith)
      ∙ ap (λ k. read_digits s k acc) (regroup n))
]
  where
    from_zero : (k : ℕ) → 0 * 10 + k ≡ k
    from_zero k = omega arith

    regroup : (k : ℕ) → k / 10 * 10 + k % 10 ≡ k
    regroup k = omega arith

-- The text of a number begins with a digit.
format_digits-digit :
    (f n : ℕ) (acc : Text)
    → n < 10 ^ suc f
    → (c : ℕ) × (ds : Text) × (format_digits (suc f) n acc ≡ c ∷ ds) × (47 < c)
unfolding format_digits
format_digits-digit zero n acc h = (48 + n, acc, rw (lt→ltb n 10 (omega arith)) refl, omega arith)
format_digits-digit (suc f) n acc h = elim (Bool-cases (ltb n 10)) [
  | inl small ↦ (48 + n, acc, rw small refl, omega arith)
  | inr large ↦
      let (c, ds, e, p) =
        format_digits-digit f (n / 10) ((48 + n % 10) ∷ acc) (tenth-lt (suc f) n h) in
      (c, ds, rw large e, p)
]

format_uint-digit :
    (n : ℕ) → n < 2 ^ 64 → (c : ℕ) × (ds : Text) × (format_uint n ≡ c ∷ ds) × (47 < c)
unfolding format_uint
format_uint-digit n h = format_digits-digit 19 n [] (omega arith)

read_digits-format_uint : (s : Text) (n : ℕ) → n < 2 ^ 64 → read_digits s 0 (format_uint n) ≡ ok n
unfolding format_uint read_digits
read_digits-format_uint s n h = read_digits-format_digits s 20 n [] (omega arith) h

magnitude_digits : (s : Text) (c : ℕ) (ds : Text) → magnitude s (c ∷ ds) ≡ read_digits s 0 (c ∷ ds)
unfolding magnitude
magnitude_digits s c ds = refl

magnitude-format_uint : (s : Text) (n : ℕ) → n < 2 ^ 64 → magnitude s (format_uint n) ≡ ok n
magnitude-format_uint s n h =
    let (c, ds, e, _) = format_uint-digit n h in
    ap (magnitude s) e
    ∙ magnitude_digits s c ds
    ∙ ap (read_digits s 0) (sym e)
    ∙ read_digits-format_uint s n h

itoa_pos : (n : ℕ) → itoa (pos n) ≡ format_uint n
unfolding itoa
itoa_pos n = refl

itoa_negsuc : (n : ℕ) → itoa (negsuc n) ≡ b'-' ∷ format_uint (suc n)
unfolding itoa
itoa_negsuc n = refl

atoi_minus : (s : Text) → atoi (b'-' ∷ s) ≡ negative (b'-' ∷ s) (magnitude (b'-' ∷ s) s)
unfolding atoi
atoi_minus s = refl

atoi_digits :
    (c : ℕ) (s : Text) → 47 < c → atoi (c ∷ s) ≡ positive (c ∷ s) (magnitude (c ∷ s) (c ∷ s))
unfolding atoi
atoi_digits c s h = rw (not_minus, not_plus) refl
  where
    not_minus : (c == 45) ≡ false
    not_minus = ground arith

    not_plus : (c == 43) ≡ false
    not_plus = ground arith

-- Every int is read back from its text.
pub atoi-itoa : (i : ℤ) → IsInt i → atoi (itoa i) ≡ ok i
atoi-itoa (negsuc n) h =
    let s = format_uint (suc n) in
    ap atoi (itoa_negsuc n)
    ∙ atoi_minus s
    ∙ ap (negative (b'-' ∷ s)) (magnitude-format_uint (b'-' ∷ s) (suc n) (omega arith))
    ∙ rw (lt→ltb n (2 ^ 63) h) refl
atoi-itoa (pos n) h =
    let (c, ds, e, p) = format_uint-digit n (omega arith) in
    ap atoi (itoa_pos n ∙ e)
    ∙ atoi_digits c ds p
    ∙ ap (λ t. positive t (magnitude t t)) (sym e)
    ∙ ap (positive (format_uint n)) (magnitude-format_uint (format_uint n) n (omega arith))
    ∙ rw (lt→ltb n (2 ^ 63) h) refl

-- The text of an int is not empty.
pub itoa-nonempty : (i : ℤ) → IsInt i → is_empty (itoa i) ≡ false
itoa-nonempty (negsuc n) h = ap is_empty (itoa_negsuc n)
itoa-nonempty (pos n) h =
    let (c, ds, e, _) = format_uint-digit n (omega arith) in ap is_empty (itoa_pos n ∙ e)
