-- ===== src/Search/Verification.antt =====
-- src/search/verification.rs: checks of a candidate, and the columns of the weighted edit distance.
pub mod Distances
pub mod Trie
pub mod SmithWaterman
pub mod Alignment
use yurine.Prelude.{
  ℕ, ◌+◌, Bool, true, false, not, Option, none, some, List, [], ◌∷◌, length, get_or, ltb, leb, ◌==◌,
  if◌then◌else◌, min,
}
use yurine.Errors.{Error, Result, ok, err, ◌>>=◌, ok_or}
use yurine.Types.{SequenceId, Symbol}
use yurine.Float.{Float, infinity, f32_max}
use yurine.Costs.{EditCosts}
use yurine.Store.{CorpusStore}
use yurine.Store
use yurine.Search.Matches.{Candidate, Match}

unfoldable pub create_match : SequenceId → ℕ → ℕ → ℕ → Match
create_match string_id symbol_start symbol_end distance = record {
  sequence_id = string_id;
  range_start = symbol_start;
  range_end = symbol_end;
  distance = distance;
}

unfoldable pub validated_candidate_string :
    List Symbol → Candidate → CorpusStore → Result (List Symbol)
unfolding Store.string
validated_candidate_string query c corpus = do
  found ← Store.string corpus c.string_id
  string ← ok_or found (Error.unknown_string c.string_id)
  if leb (length string) c.string_position
      then err (Error.invalid_string_position c.string_position (length string))
      else if leb (length query) c.query_position
      then err (Error.invalid_query_position c.query_position (length query))
      else ok string

-- The sum that rounds to the largest finite number is infinite where the exact sum is larger.
unfoldable pub add_distance : Float → ℕ → ℕ → ℕ
add_distance fl left right =
    let sum = fl.add left right in
    if not (ltb sum infinity)
    then infinity
    else if not (sum == f32_max)
    then sum
    else if fl.two_sum_error sum left right
    then infinity
    else sum

module _ (fl : Float) (costs : EditCosts Symbol) where
  -- The cells behind the one that holds `last`.
  unfoldable pub root_cells : List Symbol → ℕ → List ℕ
  unfolding add_distance
  root_cells [] last = []
  root_cells (q ∷ query) last =
      let cell = add_distance fl last (costs.deletion q) in cell ∷ root_cells query cell

  unfoldable pub root_column : List Symbol → List ℕ
  unfolding root_cells
  root_column query = 0 ∷ root_cells query 0

  -- The loop over the query: `diagonal` is `previous[query_index]`, the list holds the cells of
  -- `previous` behind it, and `last` is `current[query_index]`. A `previous` that is too short would
  -- be an index out of range.
  unfoldable pub step_cells : Symbol → List Symbol → ℕ → List ℕ → ℕ → List ℕ
  unfolding add_distance
  step_cells s [] diagonal previous last = []
  step_cells s (q ∷ query) diagonal [] last = []
  step_cells s (q ∷ query) diagonal (above ∷ previous) last =
      let substitution = add_distance fl diagonal (costs.substitution q s) in
      let insertion = add_distance fl above (costs.insertion s) in
      let deletion = add_distance fl last (costs.deletion q) in
      let cell = min (min substitution insertion) deletion in
      cell ∷ step_cells s query above previous cell

  unfoldable pub step_dp : List Symbol → Symbol → List ℕ → List ℕ
  unfolding step_cells add_distance
  step_dp query s [] = []
  step_dp query s (first ∷ previous) =
      let top = add_distance fl first (costs.insertion s) in
      top ∷ step_cells s query first previous top

-- `column[query_string.len()]`; a column has one cell more than the query.
abbrev pub last_cell : List Symbol → List ℕ → ℕ
last_cell query column = get_or column (length query) infinity
