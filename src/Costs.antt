-- ===== src/Costs.antt =====
-- src/costs.rs: costs, and the interface of an edit-cost policy. A cost is the bit pattern of a
-- finite `f32` that is not negative; the derived order of `Cost` is the order of the patterns.
pub mod Custom
pub mod Levenshtein
pub mod Laws
pub mod Persistence
pub mod Embedding
use yurine.Prelude.{
  ◌||◌, ℕ, suc, ◌+◌, ◌%◌, ◌≤◌, ◌<◌, Bool, ltb, leb, ◌==◌, if◌then◌else◌, min, max, ◌&&◌, not,
}
use yurine.Prelude.{Option, none, some}
use yurine.Errors.{Error, Result, ok, err, panic}
use yurine.Float.{infinity, f32_max, one, sign_bit}

abbrev pub Cost : Type 0
Cost = ℕ

abbrev pub cost_zero : Cost
cost_zero = 0

abbrev pub cost_one : Cost
cost_one = one

abbrev pub cost_max : Cost
cost_max = f32_max

-- `is_finite`, `< 0.0` and `== 0.0` on all 32-bit patterns, the sign in the top bit.
abbrev pub is_finite : ℕ → Bool
is_finite bits = ltb (bits % sign_bit) infinity

abbrev pub is_negative : ℕ → Bool
is_negative bits = ltb sign_bit bits && leb (bits % sign_bit) infinity

abbrev pub is_zero : ℕ → Bool
is_zero bits = bits % sign_bit == 0

unfoldable pub cost_new : ℕ → Result Cost
cost_new bits =
    if not (is_finite bits)
    then err (Error.invalid_cost bits)
    else if is_negative bits
    then err (Error.invalid_cost bits)
    else ok (if is_zero bits then cost_zero else bits)

-- `Cost::new_const`, which stops the program at a value that is no cost.
unfoldable pub cost_new_const : ℕ → Result Cost
cost_new_const bits =
    if not (is_finite bits) || is_negative bits
    then panic
    else ok (if is_zero bits then cost_zero else bits)

unfoldable pub next_up : Cost → Option Cost
next_up cost = if cost == cost_max then none else some (cost + 1)

-- `trait EditCosts<T>`
pub record EditCosts {ℓ} (T : Type ℓ) : Type ℓ where
  pub substitution : T → T → Cost
  pub deletion : T → Cost
  pub insertion : T → Cost
