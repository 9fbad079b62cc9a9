-- ===== src/Float.antt =====
-- The part of `f32` that the search uses, on bit patterns. A number that is not negative is its
-- 32-bit pattern: patterns are ordered as the values are, `0x7f80_0000` is infinity, and the next
-- pattern is the next value. `Float` is the arithmetic that the search calls; `ieee` is the
-- processor's, round to nearest, ties to even. `fixed_point` is the arithmetic of the subnormal
-- numbers, where a pattern counts multiples of the least positive value.
pub mod Laws
use yurine.Prelude.{ℕ, zero, suc, ◌+◌, ◌-◌, ◌*◌, ◌/◌, ◌%◌, ◌^◌, min, Bool, false, ltb, leb}
use yurine.Prelude.{◌==◌, if◌then◌else◌}

abbrev pub infinity : ℕ
infinity = 0x7f80_0000

-- `f32::MAX`, `1.0`, and the bit of the sign.
abbrev pub f32_max : ℕ
f32_max = 0x7f7f_ffff

abbrev pub one : ℕ
one = 0x3f80_0000

abbrev pub sign_bit : ℕ
sign_bit = 0x8000_0000

-- Arithmetic on patterns that are not negative. `sub a b` is asked for only where `b ≤ a`.
-- `two_sum_error sum left right` is whether
-- `(left - (sum - (sum - left))) + (right - (sum - left))` is positive.
pub record Float : Type 0 where
  pub add : ℕ → ℕ → ℕ
  pub sub : ℕ → ℕ → ℕ
  pub mul : ℕ → ℕ → ℕ
  pub div : ℕ → ℕ → ℕ
  pub of_usize : ℕ → ℕ
  pub two_sum_error : ℕ → ℕ → ℕ → Bool

-- The value of a pattern, in units of the least positive value 2^-149.
unfoldable pub value : ℕ → ℕ
value n =
    let e = n / 8_388_608 in
    let m = n % 8_388_608 in if e == 0 then m else (8_388_608 + m) * 2 ^ (e - 1)

-- `v / p` to the nearest integer, ties to even.
unfoldable pub round_ratio : ℕ → ℕ → ℕ
round_ratio v p =
    let q = v / p in
    let r = v % p in
    if ltb p (2 * r) then q + 1 else if ltb (2 * r) p then q else if q % 2 == 0 then q else q + 1

-- `k` is the exponent under trial and `p` its unit; the fuel is the number of exponents left.
unfoldable pub round_at : ℕ → ℕ → ℕ → ℕ → ℕ
unfolding round_ratio
round_at zero k p v = k * 8_388_608 + 8_388_608
round_at (suc fuel) k p v =
    let rest = round_at fuel (suc k) (p * 2) v in
    if ltb (v / p) 16_777_216 then k * 8_388_608 + round_ratio v p else rest

-- The pattern nearest to `v / unit`, in units of the least positive value.
unfoldable pub round : ℕ → ℕ → ℕ
unfolding round_at
round unit v = round_at 254 0 unit v

-- A quotient of two exact values, in units of a quarter of the least positive value, with the last
-- bit set where the division leaves a rest.
sticky : ℕ → ℕ → ℕ
sticky a b = let q = 2 * (a / b) in if a % b == 0 then q else q + 1

-- Signed values as a pair of numbers, of which the difference is meant, rounded.
signed : ℕ → ℕ → ℕ × ℕ
unfolding value round
signed a b = if leb b a then (value (round 1 (a - b)), 0) else (0, value (round 1 (b - a)))

ieee_error : ℕ → ℕ → ℕ → Bool
unfolding signed
ieee_error sum left right =
    let s = value sum in
    let (rp, rn) = signed s (value left) in
    let (ap', an) = signed (s + rn) rp in
    let (bp, bn) = signed (value left + an) ap' in
    let (cp, cn) = signed (value right + rn) rp in
    let (ep, en) = signed (bp + cp) (bn + cn) in ltb en ep

-- 2^149 units make one.
unfoldable pub ieee : Float
unfolding round sticky ieee_error value
ieee = record {
  add = λ a b. round 1 (value a + value b);
  sub = λ a b. round 1 (value a - value b);
  mul = λ a b. round 4 (sticky (2 * (value a * value b)) (2 ^ 149));
  div = λ a b.
      if b == 0
      then infinity
      else if b == infinity
      then 0
      else round 4 (sticky (2 * (value a * 2 ^ 149)) (value b));
  of_usize = λ n. round 1 (n * 2 ^ 149);
  two_sum_error = ieee_error;
}

-- Exact sums that saturate at infinity.
abbrev pub fixed_point : Float
fixed_point = record {
  add = λ a b. min (a + b) infinity;
  sub = λ a b. a - b;
  mul = λ a b. min (a * b) infinity;
  div = λ a b. if b == 0 then infinity else a / b;
  of_usize = λ n. min n infinity;
  two_sum_error = λ s a b. false;
}
