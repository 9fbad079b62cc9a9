-- ===== src/Costs/Laws.antt =====
-- src/costs.rs: which values are costs, and the next cost.
use yurine.Prelude.{ℕ, ◌≤◌, ◌<◌, ◌≡◌, ◌≢◌, arith}
use yurine.Errors.{Error, ok, err}
use yurine.Float.{infinity, sign_bit}
use yurine.Costs.{cost_new}

pub cost_new_of_lt : (d : ℕ) → d < infinity → cost_new d ≡ ok d
unfolding cost_new
cost_new_of_lt d h = ground arith

-- A constructed cost is finite and not negative: it is the pattern that was given, or zero for the
-- negative zero. Any other pattern of 32 bits is refused, with the pattern in the error.
pub cost_new_cases :
    (bits : ℕ)
    → bits < 0x1_0000_0000
    → (bits < infinity → cost_new bits ≡ ok bits)
      × (bits ≡ sign_bit → cost_new bits ≡ ok 0)
      × (infinity ≤ bits → bits ≢ sign_bit → cost_new bits ≡ err (Error.invalid_cost bits))
unfolding cost_new
cost_new_cases bits h = (cost_new_of_lt bits, λ e. rw e, λ big other. ground arith)
