-- ===== src/Costs/Levenshtein.antt =====
-- src/costs/levenshtein.rs: unit costs.
use yurine.Prelude.{Eq, if◌then◌else◌}
use yurine.Costs.{EditCosts, cost_zero, cost_one}

module _ {ℓ} {T : Type ℓ} ⦃eq : Eq T⦄ where
  unfoldable pub levenshtein_costs : EditCosts T
  levenshtein_costs = record {
    substitution = λ from to. if eq.beq from to then cost_zero else cost_one;
    deletion = λ _. cost_one;
    insertion = λ _. cost_one;
  }
