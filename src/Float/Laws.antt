-- ===== src/Float/Laws.antt =====
-- What the theorems ask of the arithmetic: sums that are exact up to a limit. `fixed_point` gives it
-- for every pattern.
use yurine.Prelude.{ℕ, ◌+◌, ◌-◌, ◌≤◌, ◌<◌, ◌≡◌, min, arith}
use yurine.Float.{Float, infinity, f32_max, fixed_point}

-- `IsGood` are the patterns that the costs and their sums take, `value` what a pattern stands for,
-- and below `limit` no sum of good patterns is rounded. A larger sum may be rounded, and stays above
-- the limit.
pub record IsExact (fl : Float) : Type 1 where
  pub IsGood : ℕ → Type 0
  pub value : ℕ → ℕ
  pub limit : ℕ
  pub zero-IsGood : IsGood 0
  pub infinity-IsGood : IsGood infinity
  pub value-zero : value 0 ≡ 0
  pub limit-le-max : limit ≤ value f32_max
  pub value-mono : (a b : ℕ) → a ≤ b → value a ≤ value b
  pub value-reflects : (a b : ℕ) → value a ≤ value b → a ≤ b
  pub add-IsGood : (a b : ℕ) → IsGood a → IsGood b → IsGood (fl.add a b)
  pub add-zero : (a : ℕ) → IsGood a → fl.add a 0 ≡ a
  pub value-add :
      (a b : ℕ)
      → IsGood a
      → IsGood b
      → min (value (fl.add a b)) limit ≡ min (value a + value b) limit
  pub value-sub :
      (a b : ℕ)
      → IsGood a
      → IsGood b
      → value a ≤ limit
      → b < a
      → value (fl.sub a b) ≡ value a - value b

abbrev IsFixed : ℕ → Type 0
IsFixed a = a ≤ infinity

pub fixed-sub : (a b : ℕ) → IsFixed a → IsFixed b → a ≤ f32_max → b < a → a - b ≡ a - b
fixed-sub a b ga gb h lt = omega arith

-- Exact sums up to the largest finite pattern.
unfoldable pub fixed_point-IsExact : IsExact fixed_point
fixed_point-IsExact = record {
  IsGood = IsFixed;
  value = λ a. a;
  limit = f32_max;
  zero-IsGood = omega arith;
  infinity-IsGood = omega arith;
  value-zero = omega arith;
  limit-le-max = omega arith;
  value-mono = λ a b h. h;
  value-reflects = λ a b h. h;
  add-IsGood = λ a b ga gb. omega arith;
  add-zero = λ a ga. omega arith;
  value-add = λ a b ga gb. omega arith;
  value-sub = fixed-sub;
}
