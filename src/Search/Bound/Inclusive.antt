-- ===== src/Search/Bound/Inclusive.antt =====
-- src/search/bound.rs: the strict bound of an inclusive threshold.
use yurine.Prelude.{ℕ, ◌+◌, ◌≤◌, ◌<◌, ◌≡◌, ◌↔◌, arith, true}
use yurine.Errors.{Error, ok, err}
use yurine.Costs.{Cost, cost_max, next_up}
use yurine.Search.Bound.{StrictBound, from_inclusive, admits}

-- A finite threshold below the largest has a bound, which admits exactly the distances up to the
-- threshold; the largest finite cost is refused, with the threshold in the error.
pub from_inclusive-admits :
    (threshold : Cost)
    → threshold ≤ cost_max
    → (threshold < cost_max
        → (bound : StrictBound) × (from_inclusive threshold ≡ ok bound)
          × ((distance : ℕ) → (admits bound distance ≡ true) ↔ (distance ≤ threshold)))
      × (threshold ≡ cost_max → from_inclusive threshold ≡ err (Error.invalid_threshold threshold))
unfolding from_inclusive admits next_up
from_inclusive-admits threshold h =
    (λ lt. (threshold + 1, ground (arith, lt), λ distance. ground arith), λ e. ground (arith, e))
