-- ===== src/Costs/Custom.antt =====
-- src/costs/custom.rs: default costs with overrides. A missing token
-- takes the default.
pub mod Overrides
use yurine.Prelude.{Option, none, some, List, [], Eq, if◌then◌else◌}
use yurine.Map.{get, put, unwrap_or}
use yurine.Costs.{Cost, EditCosts, cost_zero, cost_one}

pub record CustomCosts {ℓ} (T : Type ℓ) : Type ℓ where
  pub default_substitution : Cost
  pub default_deletion : Cost
  pub default_insertion : Cost
  pub substitutions : List (T × List (T × Cost))
  pub deletions : List (T × Cost)
  pub insertions : List (T × Cost)

module _ {ℓ} {T : Type ℓ} where
  unfoldable pub new : Cost → Cost → Cost → CustomCosts T
  new substitution deletion insertion = record {
    default_substitution = substitution;
    default_deletion = deletion;
    default_insertion = insertion;
    substitutions = [];
    deletions = [];
    insertions = [];
  }

  unfoldable pub set_default_substitution : CustomCosts T → Cost → CustomCosts T
  set_default_substitution c cost = record c { default_substitution = cost }

  unfoldable pub set_default_deletion : CustomCosts T → Cost → CustomCosts T
  set_default_deletion c cost = record c { default_deletion = cost }

  unfoldable pub set_default_insertion : CustomCosts T → Cost → CustomCosts T
  set_default_insertion c cost = record c { default_insertion = cost }

  unfoldable pub default : CustomCosts T
  unfolding new
  default = new cost_one cost_one cost_one

module _ {ℓ} {T : Type ℓ} ⦃eq : Eq T⦄ where
  -- `entry(from).or_default().insert(to, cost)`
  unfoldable pub set_substitution : CustomCosts T → T → T → Cost → CustomCosts T
  unfolding get put
  set_substitution c from to cost = if eq.beq from to then c else record c {
    substitutions =
        put c.substitutions from (put (unwrap_or (get c.substitutions from) []) to cost);
  }

  unfoldable pub set_deletion : CustomCosts T → T → Cost → CustomCosts T
  unfolding put
  set_deletion c token cost = record c { deletions = put c.deletions token cost }

  unfoldable pub set_insertion : CustomCosts T → T → Cost → CustomCosts T
  unfolding put
  set_insertion c token cost = record c { insertions = put c.insertions token cost }

  unfoldable pub override : CustomCosts T → T → T → Option Cost
  unfolding get
  override c from to = elim (get c.substitutions from) [ none ↦ none | some costs ↦ get costs to ]

  unfoldable pub custom_substitution : CustomCosts T → T → T → Cost
  unfolding override
  custom_substitution c from to =
      if eq.beq from to then cost_zero else unwrap_or (override c from to) c.default_substitution

  unfoldable pub edit_costs : CustomCosts T → EditCosts T
  unfolding custom_substitution get
  edit_costs c = record {
    substitution = custom_substitution c;
    deletion = λ token. unwrap_or (get c.deletions token) c.default_deletion;
    insertion = λ token. unwrap_or (get c.insertions token) c.default_insertion;
  }
