-- ===== src/Prelude/Decimal.antt =====
-- strconv.FormatUint(n, 10): the decimal digits of a number below 10 ^ 20, which every uint64 is.
use Prim.Native.Nat.{ℕ, zero, suc, ◌+◌, ◌*◌, ◌-◌, ◌/◌, ◌%◌, ◌^◌, ◌<◌}
use mathlib.Core.Path.{◌≡◌, sym, ap, ◌∙◌}
use mathlib.Core.List.{[], ◌∷◌}
use native.Mathlib.Omega.{arith}
use native.Mathlib.Nat.{pow-suc}
use mathlib.Core.Logic.{inl, inr}
use sharp_store.Prelude.Tests.{ltb, Bool-cases, if◌then◌else◌}
use sharp_store.Prelude.Texts.{Text}

-- the digits of `n`, of which there are at most as many as the fuel, before `acc`
unfoldable pub format_digits : ℕ → ℕ → Text → Text
format_digits zero n acc = acc
format_digits (suc f) n acc =
    let rest = format_digits f (n / 10) ((48 + n % 10) ∷ acc) in
    if ltb n 10 then (48 + n) ∷ acc else rest

unfoldable pub format_uint : ℕ → Text
unfolding format_digits
format_uint n = format_digits 20 n []

-- the number that digits stand for, read after those of `n`
unfoldable pub digits_value : ℕ → Text → ℕ
digits_value n [] = n
digits_value n (d ∷ s) = digits_value (n * 10 + (d - 48)) s

pub tenth-lt : (f n : ℕ) → n < 10 ^ suc f → n / 10 < 10 ^ f
tenth-lt f n h = omega (arith, pow-suc 10 f)

-- Reading the digits back gives the number.
format_digits-value :
    (f n : ℕ) (acc : Text)
    → n < 10 ^ f
    → digits_value 0 (format_digits f n acc) ≡ digits_value n acc
unfolding format_digits
format_digits-value zero n acc h = ap (λ k. digits_value k acc) (zero_of_lt n h)
  where
    zero_of_lt : (k : ℕ) → k < 10 ^ 0 → 0 ≡ k
    zero_of_lt k g = omega arith
format_digits-value (suc f) n acc h = elim (Bool-cases (ltb n 10)) [
  | inl small ↦ rw small (last_digit n)
  | inr large ↦ rw large (
      format_digits-value f (n / 10) ((48 + n % 10) ∷ acc) (tenth-lt f n h)
      ∙ unfold digits_value in ap (λ k. digits_value k acc) (regroup n))
]
  where
    last_digit : (k : ℕ) → digits_value 0 ((48 + k) ∷ acc) ≡ digits_value k acc
    last_digit k = unfold digits_value in ap (λ j. digits_value j acc) (omega arith)

    regroup : (k : ℕ) → k / 10 * 10 + (48 + k % 10 - 48) ≡ k
    regroup k = omega arith

pub format_uint-value : (n : ℕ) → n < 2 ^ 64 → digits_value 0 (format_uint n) ≡ n
unfolding format_uint digits_value
format_uint-value n h = format_digits-value 20 n [] (omega arith)

-- Different uint64 numbers have different texts.
pub format_uint-injective :
    (m n : ℕ) → m < 2 ^ 64 → n < 2 ^ 64 → format_uint m ≡ format_uint n → m ≡ n
format_uint-injective m n hm hn e =
    sym (format_uint-value m hm) ∙ ap (digits_value 0) e ∙ format_uint-value n hn
