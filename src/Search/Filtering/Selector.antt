-- ===== src/Search/Filtering/Selector.antt =====
-- src/search/filtering/candidate.rs: the choice of the query positions that a match cannot avoid.
pub mod Best
pub mod Rounds
pub mod Outcome
pub mod Enough
use yurine.Prelude.{
  ℕ, zero, suc, ◌+◌, ◌-◌, Bool, true, false, not, Option, none, some, List, [], ◌∷◌, ◌++◌, length,
  ltb, ◌==◌, if◌then◌else◌, min, ◌&&◌, ◌||◌,
}
use yurine.Errors.{Error, Result, ok, err, ◌>>=◌, ok_or}
use yurine.Types.{Position, Symbol, position_from_usize, usize_limit}
use yurine.Float.{Float}
use yurine.Costs.{Cost, EditCosts}
use yurine.Postings.{PostingsIndex, frequency}
use yurine.Search.Bound.{StrictBound, admits, residual}
use yurine.Search.Filtering.Neighborhood.{SubstitutionNeighborhood, scan}
use yurine.Search.Filtering.Eta.{sum_from}

pub record SelectedPosition : Type 0 where
  pub position : Position
  pub neighbors : List Symbol

pub record Item : Type 0 where
  pub neighbors : List Symbol
  pub contribution : ℕ
  pub candidate_count : ℕ
  pub paid : ℕ
  pub selected : Bool

-- `checked_add` over the frequencies of the neighbors.
unfoldable pub add_frequencies : PostingsIndex → ℕ → List Symbol → Result ℕ
unfolding frequency
add_frequencies index count [] = ok count
add_frequencies index count (neighbor ∷ neighbors) = do
  f ← frequency index neighbor
  if ltb (count + f) usize_limit
      then add_frequencies index (count + f) neighbors
      else err Error.threshold_subsequence_unavailable

-- The items that are selected give their contributions, in query order.
unfoldable pub selected_contributions : List Item → List ℕ
selected_contributions [] = []
selected_contributions (item ∷ items) =
    let rest = selected_contributions items in
    if item.selected then item.contribution ∷ rest else rest

module _ (fl : Float) where
  unfoldable pub score_items :
      PostingsIndex
      → Cost
      → EditCosts Symbol
      → SubstitutionNeighborhood
      → List Symbol
      → Result (List Item)
  unfolding scan add_frequencies
  score_items index eta costs n [] = ok []
  score_items index eta costs n (symbol ∷ query) = do
    let scanned = scan symbol eta costs n
    count ← add_frequencies index 0 scanned.0
    items ← score_items index eta costs n query
    ok (
        record {
          neighbors = scanned.0;
          contribution = scanned.1;
          candidate_count = fl.of_usize count;
          paid = 0;
          selected = false;
        }
        ∷ items)

  -- `best.is_none_or(|(_, best_value)| value < best_value)`
  abbrev pub improves : Option (ℕ × ℕ) → ℕ → Bool
  improves none value = true
  improves (some (_, best_value)) value = ltb value best_value

  -- `(candidate_count - paid).max(0.0) / gain`
  unfoldable pub item_value : Item → ℕ → ℕ
  item_value item gain =
      let unpaid =
        if ltb item.paid item.candidate_count then fl.sub item.candidate_count item.paid else 0 in
      fl.div unpaid gain

  abbrev pub is_open : ℕ → Item → Bool
  is_open residual item = not item.selected && ltb 0 (min item.contribution residual)

  unfoldable pub find_best : ℕ → ℕ → List Item → Option (ℕ × ℕ) → Option (ℕ × ℕ)
  unfolding item_value
  find_best residual position [] best = best
  find_best residual position (item ∷ items) best =
      let value = item_value item (min item.contribution residual) in
      find_best residual (suc position) items
        (if is_open residual item && improves best value then some (position, value) else best)

  unfoldable pub pay_items : ℕ → ℕ → List Item → List Item
  pay_items residual best_value [] = []
  pay_items residual best_value (item ∷ items) =
      (if is_open residual item
        then record item {
          paid = fl.add item.paid (fl.mul (min item.contribution residual) best_value);
        }
        else item)
      ∷ pay_items residual best_value items

  -- The item at a position becomes selected and hands over its neighbors.
  unfoldable pub take_neighbors : List Item → ℕ → List Symbol
  take_neighbors [] position = []
  take_neighbors (item ∷ items) zero = item.neighbors
  take_neighbors (item ∷ items) (suc position) = take_neighbors items position

  unfoldable pub mark_selected : List Item → ℕ → List Item
  mark_selected [] position = []
  mark_selected (item ∷ items) zero = record item { selected = true; neighbors = [] } ∷ items
  mark_selected (item ∷ items) (suc position) = item ∷ mark_selected items position

  -- The `while` loop. Each round selects one more item, so a round more than items is enough fuel;
  -- without fuel the model panics.
  unfoldable pub select_loop :
      ℕ → StrictBound → List Item → ℕ → List SelectedPosition → Result (List SelectedPosition)
  unfolding admits residual find_best pay_items take_neighbors mark_selected selected_contributions
      sum_from position_from_usize
  select_loop zero bound items contribution selected = Result.panic
  select_loop (suc fuel) bound items contribution selected =
      let rest = residual fl bound contribution in
      let round =
        ok_or (find_best rest 0 items none) Error.threshold_subsequence_unavailable >>= λ best.
        let paid = pay_items rest best.1 items in
        let marked = mark_selected paid best.0 in
        position_from_usize best.0 >>= λ position.
        select_loop fuel bound marked (sum_from fl 0 (selected_contributions marked)) (
          selected
          ++ record { position = position; neighbors = take_neighbors paid best.0 } ∷ []) in
      if admits bound contribution then round else ok selected

  unfoldable pub select :
      List Symbol
      → StrictBound
      → Cost
      → PostingsIndex
      → EditCosts Symbol
      → SubstitutionNeighborhood
      → Result (List SelectedPosition)
  unfolding score_items select_loop
  select query bound eta index costs n = do
    items ← score_items index eta costs n query
    select_loop (suc (length items)) bound items 0 []
