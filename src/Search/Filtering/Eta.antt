-- ===== src/Search/Filtering/Eta.antt =====
-- src/search/filtering/eta.rs: whether a wider radius can help, and the radii worth a try.
pub mod Sorting
pub mod Widest
use yurine.Prelude.{ℕ, Bool, not, List, [], ◌∷◌, ◌++◌, map, ltb, leb, ◌==◌, if◌then◌else◌}
use yurine.Types.{Symbol}
use yurine.Float.{Float}
use yurine.Costs.{Cost, EditCosts}
use yurine.Search.Bound.{StrictBound, admits}
use yurine.Search.Filtering.Neighborhood.{SubstitutionNeighborhood}

-- `Iterator::sum` of `f32`, from the left.
unfoldable pub sum_from : Float → ℕ → List ℕ → ℕ
sum_from fl total [] = total
sum_from fl total (x ∷ xs) = sum_from fl (fl.add total x) xs

unfoldable pub any_radius_can_select : Float → List Symbol → StrictBound → EditCosts Symbol → Bool
unfolding sum_from admits
any_radius_can_select fl query bound costs =
    not (admits bound (sum_from fl 0 (map costs.deletion query)))

-- All substitution costs from the query to the alphabet, those above eta kept.
unfoldable pub costs_above : Cost → List Cost → List Cost
costs_above eta [] = []
costs_above eta (radius ∷ radii) =
    let rest = costs_above eta radii in if ltb eta radius then radius ∷ rest else rest

unfoldable pub all_costs : EditCosts Symbol → List Symbol → List Symbol → List Cost
all_costs costs [] alphabet = []
all_costs costs (symbol ∷ query) alphabet =
    map (costs.substitution symbol) alphabet ++ all_costs costs query alphabet

unfoldable pub insert_cost : Cost → List Cost → List Cost
insert_cost c [] = c ∷ []
insert_cost c (d ∷ ds) = if leb c d then c ∷ d ∷ ds else d ∷ insert_cost c ds

unfoldable pub sort_costs : List Cost → List Cost
unfolding insert_cost
sort_costs [] = []
sort_costs (c ∷ cs) = insert_cost c (sort_costs cs)

unfoldable pub dedup_after : Cost → List Cost → List Cost
dedup_after c [] = []
dedup_after c (d ∷ ds) =
    let kept = d ∷ dedup_after d ds in
    let dropped = dedup_after c ds in if c == d then dropped else kept

unfoldable pub dedup : List Cost → List Cost
unfolding dedup_after
dedup [] = []
dedup (c ∷ cs) = c ∷ dedup_after c cs

unfoldable pub wider_radii :
    List Symbol → Cost → EditCosts Symbol → SubstitutionNeighborhood → List Cost
unfolding costs_above all_costs sort_costs dedup
wider_radii query eta costs n =
    dedup (sort_costs (costs_above eta (all_costs costs query n.alphabet)))
