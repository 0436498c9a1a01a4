-- ===== src/Cloud/Expiry.antt =====
-- The expiry of access URLs: seconds that are rounded down by backend/aliyun and backend/obs, and up
-- by backend/ks3, and the timeout of backend/ks3 in nanoseconds.
use sharp_store.Prelude.{
  ℕ, ◌⊎◌, ◌≡◌, refl, ◌+◌, ◌*◌, ◌-◌, ◌/◌, ◌%◌, ◌^◌, ◌≤◌, ◌<◌, false, some, arith, Bool-cases, inl,
  inr, leb, ltb, ltb→lt, lt→ltb,
}
use sharp_store.Prelude.Integers.{pos, negsuc}
use sharp_store.Errors.{ok}
use sharp_store.Cloud.Settings.{second}
use sharp_store.Cloud.Aliyun
use sharp_store.Cloud.Obs
use sharp_store.Cloud.Ks3
use sharp_store.Cloud.Ks3.{ceil_seconds, timeout_of}

floor_seconds-bounds : (d : ℕ) → d / second * second ≤ d × d < (d / second + 1) * second
floor_seconds-bounds d = (omega arith, omega arith)

ceil_seconds-bounds :
    (d : ℕ) → 0 < d → d ≤ ceil_seconds d * second × ceil_seconds d * second < d + second
ceil_seconds-bounds d h = (omega arith, omega arith)

-- Of an expiry after now, by less than 2 ^ 24 seconds, backend/aliyun and backend/obs take the whole seconds that are left, and
-- backend/ks3 the least number of seconds that is enough, so that none is left out and fewer than one
-- is too much.
pub url_seconds-later :
    (t now : ℕ)
    → now < t
    → t - now < 2 ^ 24 * second
    → (n : ℕ) × (m : ℕ) × (Aliyun.url_seconds (some t) now ≡ ok n)
      × (Obs.url_seconds (some t) now ≡ ok n)
      × (n * second ≤ t - now)
      × (t - now < (n + 1) * second)
      × (Ks3.url_seconds (some t) now ≡ ok m)
      × (t - now ≤ m * second)
      × (m * second < t - now + second)
url_seconds-later t now h _ =
    let (a, b) = floor_seconds-bounds (t - now) in
    let (c, d) = ceil_seconds-bounds (t - now) (omega arith) in
    (
      (t - now) / second,
      ceil_seconds (t - now),
      rw late refl,
      rw late refl,
      a,
      b,
      rw late refl,
      c,
      d,
    )
  where
    late : leb t now ≡ false
    late = ground arith

-- The timeout of backend/ks3 in nanoseconds is that in milliseconds times a million up to
-- 9223372036854 ms; from there to 18446744073709 ms it is negative.
pub timeout_of-cases :
    (t : ℕ)
    → 0 < t
    → t ≤ 18446744073709
    → ((t ≤ 9223372036854) × (timeout_of t ≡ some (pos (t * 1000000))))
      ⊎ ((9223372036854 < t) × (n : ℕ) × (timeout_of t ≡ some (negsuc n)))
unfolding timeout_of
timeout_of-cases t h g = elim (Bool-cases (ltb (t * 1000000) (2 ^ 63))) [
  | inl fits ↦
      inl (fits_bound (ltb→lt (t * 1000000) (2 ^ 63) fits), rw (lt→ltb 0 t h, no_wrap, fits) refl)
  | inr wraps ↦
      inr (wraps_bound wraps, 2 ^ 64 - 1 - t * 1000000, rw (lt→ltb 0 t h, no_wrap, wraps) refl)
]
  where
    no_wrap : t * 1000000 % 2 ^ 64 ≡ t * 1000000
    no_wrap = omega arith

    fits_bound : t * 1000000 < 2 ^ 63 → t ≤ 9223372036854
    fits_bound i = omega arith

    wraps_bound : ltb (t * 1000000) (2 ^ 63) ≡ false → 9223372036854 < t
    wraps_bound i = ground arith
