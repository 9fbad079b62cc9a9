-- ===== src/Search/Filtering/Neighborhood.antt =====
-- src/search/filtering/neighborhood.rs: the substitutions of a symbol that cost at most eta.
pub mod Scan
pub mod Unique
use yurine.Prelude.{ℕ, Bool, true, false, List, [], ◌∷◌, leb, ◌==◌, if◌then◌else◌, ◌||◌, min}
use yurine.Errors.{Error, Result, ok, err}
use yurine.Types.{Symbol}
use yurine.Costs.{Cost, EditCosts}

pub record SubstitutionNeighborhood : Type 0 where
  pub alphabet : List Symbol

unfoldable pub contains : List Symbol → Symbol → Bool
contains [] symbol = false
contains (s ∷ ss) symbol = s == symbol || contains ss symbol

-- The loop that inserts into the set `unique`: whether all insertions are new.
unfoldable pub all_unique : List Symbol → List Symbol → Bool
unfolding contains
all_unique unique [] = true
all_unique unique (s ∷ ss) =
    let rest = all_unique (s ∷ unique) ss in if contains unique s then false else rest

unfoldable pub new : List Symbol → Result SubstitutionNeighborhood
unfolding all_unique
new alphabet =
    if all_unique [] alphabet
    then ok (record { alphabet = alphabet })
    else err Error.duplicate_alphabet_symbol

module _ (symbol : Symbol) (eta : Cost) (costs : EditCosts Symbol) where
  -- The loop over the alphabet; the neighbors come in its order.
  unfoldable pub scan_from : List Symbol → Cost → List Symbol × Cost
  scan_from [] outside_cost = ([], outside_cost)
  scan_from (candidate ∷ candidates) outside_cost =
      let substitution = costs.substitution symbol candidate in
      let near = scan_from candidates outside_cost in
      let far = scan_from candidates (min outside_cost substitution) in
      if leb substitution eta then (candidate ∷ near.0, near.1) else far

  unfoldable pub scan : SubstitutionNeighborhood → List Symbol × Cost
  unfolding scan_from
  scan n = scan_from n.alphabet (costs.deletion symbol)
