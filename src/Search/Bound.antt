-- ===== src/Search/Bound.antt =====
-- src/search/bound.rs: the strict bound that the core algorithms work with.
pub mod Inclusive
use yurine.Prelude.{ℕ, ◌+◌, ◌<◌, ◌≤◌, ◌≡◌, ◌↔◌, Bool, true, Option, none, some, ltb, arith, refl}
use yurine.Errors.{Error, Result, ok, err}
use yurine.Float.{Float}
use yurine.Costs.{Cost, next_up, cost_max}

abbrev pub StrictBound : Type 0
StrictBound = Cost

unfoldable pub from_inclusive : Cost → Result StrictBound
unfolding next_up
from_inclusive threshold = elim (next_up threshold) [
  | some bound ↦ ok bound
  | none ↦ err (Error.invalid_threshold threshold)
]

-- The distance is an `f32` that is not negative, perhaps infinity.
unfoldable pub admits : StrictBound → ℕ → Bool
admits bound distance = ltb distance bound

-- Asked for only where `bound` admits `paid`.
unfoldable pub residual : Float → StrictBound → ℕ → ℕ
residual fl bound paid = fl.sub bound paid
