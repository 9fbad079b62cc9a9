-- ===== src/Search/Verification/SmithWaterman.antt =====
-- src/search/verification/smith_waterman.rs: every substring of every candidate's string, measured.
use yurine.Prelude.{ℕ, suc, ◌+◌, List, [], ◌∷◌, ◌++◌, ltb, ◌==◌, if◌then◌else◌, min}
use yurine.Errors.{Error, Result, ok, ◌>>=◌, ok_or}
use yurine.Types.{SequenceId, Symbol}
use yurine.Float.{Float}
use yurine.Costs.{EditCosts, cost_new}
use yurine.Store.{CorpusStore}
use yurine.Store
use yurine.Search.Bound.{StrictBound, admits}
use yurine.Search.Matches.{Candidate, Match}
use yurine.Search.Verification.{
  create_match, validated_candidate_string, add_distance, root_column, last_cell,
}

-- A set of identifiers, in order.
unfoldable pub insert_id : SequenceId → List SequenceId → List SequenceId
insert_id id [] = id ∷ []
insert_id id (j ∷ ids) =
    if ltb id j then id ∷ j ∷ ids else if id == j then j ∷ ids else j ∷ insert_id id ids

unfoldable pub validated_candidate_strings :
    List Symbol → List Candidate → CorpusStore → List SequenceId → Result (List SequenceId)
unfolding validated_candidate_string insert_id
validated_candidate_strings query [] corpus string_ids = ok string_ids
validated_candidate_strings query (c ∷ cs) corpus string_ids = do
  string ← validated_candidate_string query c corpus
  validated_candidate_strings query cs corpus (insert_id c.string_id string_ids)

module _ (fl : Float) (costs : EditCosts Symbol) where
  -- The cells of `current` behind `current[query_index]`; the least is taken in another order than
  -- in `step_dp`.
  unfoldable pub next_cells : Symbol → List Symbol → ℕ → List ℕ → ℕ → List ℕ
  unfolding add_distance
  next_cells s [] diagonal previous last = []
  next_cells s (q ∷ query) diagonal [] last = []
  next_cells s (q ∷ query) diagonal (above ∷ previous) last =
      let substitution = add_distance fl diagonal (costs.substitution q s) in
      let deletion = add_distance fl last (costs.deletion q) in
      let insertion = add_distance fl above (costs.insertion s) in
      let cell = min (min substitution deletion) insertion in
      cell ∷ next_cells s query above previous cell

  unfoldable pub next_column : List Symbol → Symbol → List ℕ → List ℕ
  unfolding next_cells add_distance
  next_column query s [] = []
  next_column query s (first ∷ previous) =
      let top = add_distance fl first (costs.insertion s) in
      top ∷ next_cells s query first previous top

  module _ (query : List Symbol) (string_id : SequenceId) (bound : StrictBound) where
    -- The loop over the ends: `symbol_end` is the position of the first symbol that is left.
    unfoldable pub matches_from :
        (symbol_start symbol_end : ℕ) → List Symbol → List ℕ → List Match → Result (List Match)
    unfolding next_column admits cost_new create_match
    matches_from symbol_start symbol_end [] previous matches = ok matches
    matches_from symbol_start symbol_end (s ∷ string) previous matches =
        let current = next_column query s previous in
        let skip = matches_from symbol_start (suc symbol_end) string current matches in
        if admits bound (last_cell query current)
        then (cost_new (last_cell query current) >>= λ cost.
            matches_from symbol_start (suc symbol_end) string current
              (matches ++ create_match string_id symbol_start (symbol_end + 1) cost ∷ []))
        else skip

    -- The loop over the starts, over the suffixes of the string.
    unfoldable pub enumerate_substring_matches : ℕ → List Symbol → List Match → Result (List Match)
    unfolding matches_from root_column
    enumerate_substring_matches symbol_start [] matches = ok matches
    enumerate_substring_matches symbol_start (s ∷ string) matches =
        matches_from symbol_start symbol_start (s ∷ string) (root_column fl costs query) matches
        >>= enumerate_substring_matches (suc symbol_start) string

  unfoldable pub verify_strings :
      List Symbol → CorpusStore → StrictBound → List SequenceId → List Match → Result (List Match)
  unfolding enumerate_substring_matches Store.string
  verify_strings query corpus bound [] matches = ok matches
  verify_strings query corpus bound (id ∷ ids) matches = do
    found ← Store.string corpus id
    string ← ok_or found (Error.unknown_string id)
    more ← enumerate_substring_matches query id bound 0 string matches
    verify_strings query corpus bound ids more

unfoldable pub verify :
    Float
    → List Symbol
    → List Candidate
    → CorpusStore
    → StrictBound
    → EditCosts Symbol
    → Result (List Match)
unfolding validated_candidate_strings verify_strings
verify fl query candidates corpus bound costs = do
  string_ids ← validated_candidate_strings query candidates corpus []
  verify_strings fl costs query corpus bound string_ids []
