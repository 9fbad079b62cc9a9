-- ===== src/Search/Verification/Trie.antt =====
-- src/search/verification/bidirectional_trie.rs: verification around each anchor, with the columns of
-- earlier candidates kept in tries. A function that updates a cache returns it.
pub mod Cache
pub mod Substrings
pub mod Anchors
pub mod Recorded
pub mod Complete
pub mod Exactness
pub mod Sorted
pub mod Answer
use yurine.Prelude.{
  ℕ, suc, ◌+◌, ◌-◌, Bool, true, false, Option, none, some, List, [], ◌∷◌, ◌++◌, length, get_or, ltb,
  leb, ◌==◌, if◌then◌else◌, min, take, drop, nat_eq, reverse, get_elem?, ◌||◌, ◌&&◌,
}
use yurine.Errors.{Error, Result, ok, err, ◌>>=◌, ◌>>◌, ok_or, expect}
use yurine.Types.{SequenceId, Symbol}
use yurine.Float.{Float, infinity}
use yurine.Map.{get, put, unwrap_or}
use yurine.Costs.{EditCosts, cost_new}
use yurine.Store.{CorpusStore}
use yurine.Store
use yurine.Search.Bound.{StrictBound, admits, residual}
use yurine.Search.Matches.{Candidate, Match}
use yurine.Search.Verification.{
  create_match, validated_candidate_string, add_distance, root_column, step_dp, last_cell,
}

mutual
  pub data TrieNode : Type 0 where
    node : List ℕ → Children → TrieNode

  pub data Children : Type 0 where
    leaf : Children
    child : Symbol → TrieNode → Children → Children

abbrev pub column : TrieNode → List ℕ
column (node c _) = c

abbrev pub children : TrieNode → Children
children (node _ k) = k

unfoldable pub find_child : Children → Symbol → Option TrieNode
find_child leaf s = none
find_child (child t n k) s = if t == s then some n else find_child k s

unfoldable pub put_child : Children → Symbol → TrieNode → Children
put_child leaf s m = child s m leaf
put_child (child t n k) s m = if t == s then child t m k else child t n (put_child k s m)

unfoldable pub column_min : List ℕ → ℕ → ℕ
column_min [] least = least
column_min (c ∷ cs) least = column_min cs (min least c)

pub record DirectionalQueryStrings : Type 0 where
  pub backward : List Symbol
  pub forward : List Symbol

unfoldable pub directional_query_strings : List Symbol → ℕ → DirectionalQueryStrings
directional_query_strings query query_position = record {
  backward = reverse (take query_position query);
  forward = drop (suc query_position) query;
}

-- `TrieForest`, with the directional query strings that were built so far.
pub record TrieForest : Type 0 where
  pub backward : List (ℕ × TrieNode)
  pub forward : List (ℕ × TrieNode)
  pub strings : List (ℕ × DirectionalQueryStrings)

abbrev pub empty_forest : TrieForest
empty_forest = record { backward = []; forward = []; strings = [] }

-- The keys `(string, start, end)` in order, each with the least distance that was found.
abbrev pub Substrings : Type 0
Substrings = List ((ℕ × ℕ × ℕ) × ℕ)

abbrev pub key_lt : ℕ × ℕ × ℕ → ℕ × ℕ × ℕ → Bool
key_lt (i, s, e) (j, t, f) = ltb i j || (i == j && (ltb s t || (s == t && ltb e f)))

abbrev pub key_eq : ℕ × ℕ × ℕ → ℕ × ℕ × ℕ → Bool
key_eq (i, s, e) (j, t, f) = i == j && (s == t && e == f)

unfoldable pub record_distance : ℕ × ℕ × ℕ → ℕ → Substrings → Substrings
record_distance key distance [] = (key, distance) ∷ []
record_distance key distance ((other, stored) ∷ m) =
    if key_lt key other
    then (key, distance) ∷ (other, stored) ∷ m
    else if key_eq key other
    then (other, min stored distance) ∷ m
    else (other, stored) ∷ record_distance key distance m

-- `directional_query_strings_by_position.entry(..).or_insert_with(..)`
unfoldable pub directional_entry : List Symbol → ℕ → TrieForest → DirectionalQueryStrings
unfolding directional_query_strings get
directional_entry query p forest =
    unwrap_or (get forest.strings p) (directional_query_strings query p)

module _ (fl : Float) where
  module _ (bound : StrictBound) (c : Candidate) (anchor_cost backward_distance : ℕ) where
    unfoldable pub combine_forward : ℕ → ℕ → List ℕ → Substrings → Substrings
    unfolding add_distance admits record_distance
    combine_forward before after [] m = m
    combine_forward before after (forward_distance ∷ ds) m =
        let distance =
          add_distance fl (add_distance fl anchor_cost backward_distance) forward_distance in
        combine_forward before (suc after) ds (
          if admits bound distance
          then record_distance
              (c.string_id, c.string_position - before, c.string_position + after + 1) distance m
          else m)

  unfoldable pub combine :
      StrictBound → Candidate → ℕ → ℕ → List ℕ → List ℕ → Substrings → Substrings
  unfolding combine_forward
  combine bound c anchor_cost before [] forward m = m
  combine bound c anchor_cost before (d ∷ ds) forward m =
      combine bound c anchor_cost (suc before) ds forward
        (combine_forward bound c anchor_cost d before 0 forward m)

module _ (fl : Float) (costs : EditCosts Symbol) where
  unfoldable pub root : List Symbol → TrieNode
  unfolding root_column
  root query = node (root_column fl costs query) leaf

  -- `children.entry(s).or_insert_with(..)`
  unfoldable pub entry : List Symbol → TrieNode → Symbol → TrieNode
  unfolding find_child step_dp
  entry query n s =
      unwrap_or (find_child (children n) s) (node (step_dp fl costs query s (column n)) leaf)

  -- The loop over the string's symbols, below the node that was reached.
  unfoldable pub walk : List Symbol → ℕ → List Symbol → TrieNode → List ℕ × TrieNode
  unfolding entry put_child column_min
  walk query budget [] n = ([], n)
  walk query budget (s ∷ string) n =
      let next = entry query n s in
      let deeper = walk query budget string next in
      if leb budget (column_min (column next) infinity)
      then ([], node (column n) (put_child (children n) s next))
      else (
        last_cell query (column next) ∷ deeper.0,
        node (column n) (put_child (children n) s deeper.1),
      )

  unfoldable pub cached_prefix_distances :
      List Symbol → List Symbol → ℕ → TrieNode → List ℕ × TrieNode
  unfolding walk
  cached_prefix_distances query string budget n =
      let walked = walk query budget string n in (last_cell query (column n) ∷ walked.0, walked.1)

  -- The data in front of the anchor, visited in reverse.
  unfoldable pub extend_backward :
      List Symbol → List Symbol → Candidate → ℕ → TrieForest → List ℕ × TrieNode
  unfolding directional_entry get root cached_prefix_distances
  extend_backward query string c budget forest =
      let strings = directional_entry query c.query_position forest in
      cached_prefix_distances strings.backward (reverse (take c.string_position string)) budget
        (unwrap_or (get forest.backward c.query_position) (root strings.backward))

  unfoldable pub extend_forward :
      List Symbol → List Symbol → Candidate → ℕ → TrieForest → List ℕ × TrieNode
  unfolding directional_entry get root cached_prefix_distances
  extend_forward query string c budget forest =
      let strings = directional_entry query c.query_position forest in
      cached_prefix_distances strings.forward (drop (suc c.string_position) string) budget
        (unwrap_or (get forest.forward c.query_position) (root strings.forward))

  -- One candidate whose anchor is admitted: its two directions, and the substrings around it.
  unfoldable pub extend_anchor :
      StrictBound
      → List Symbol
      → List Symbol
      → Candidate
      → ℕ
      → TrieForest × Substrings
      → TrieForest × Substrings
  unfolding residual put extend_backward extend_forward combine
  extend_anchor bound query string c anchor_cost (forest, m) =
      let budget = residual fl bound anchor_cost in
      let backward = extend_backward query string c budget forest in
      let forward = extend_forward query string c budget forest in
      (
        record {
          backward = put forest.backward c.query_position backward.1;
          forward = put forest.forward c.query_position forward.1;
          strings =
              put forest.strings c.query_position (directional_entry query c.query_position forest);
        },
        combine fl bound c anchor_cost 0 backward.0 forward.0 m,
      )

  unfoldable pub verify_candidate :
      StrictBound
      → List Symbol
      → CorpusStore
      → Candidate
      → TrieForest × Substrings
      → Result (TrieForest × Substrings)
  unfolding extend_anchor Store.string admits
  verify_candidate bound query corpus c state = do
    found ← Store.string corpus c.string_id
    string ← ok_or found (Error.unknown_string c.string_id)
    q ← expect (get_elem? query c.query_position)
    s ← expect (get_elem? string c.string_position)
    let anchor_cost = costs.substitution q s
    if admits bound anchor_cost
        then ok (extend_anchor bound query string c anchor_cost state)
        else ok state

  unfoldable pub verify_candidates :
      StrictBound
      → List Symbol
      → CorpusStore
      → List Candidate
      → TrieForest × Substrings
      → Result (TrieForest × Substrings)
  unfolding verify_candidate
  verify_candidates bound query corpus [] state = ok state
  verify_candidates bound query corpus (c ∷ cs) state =
      verify_candidate bound query corpus c state >>= verify_candidates bound query corpus cs

unfoldable pub validate_candidates : List Symbol → List Candidate → CorpusStore → Result (Unit {0})
unfolding validated_candidate_string
validate_candidates query [] corpus = ok tt
validate_candidates query (c ∷ cs) corpus =
    validated_candidate_string query c corpus >>= λ _. validate_candidates query cs corpus

unfoldable pub create_matches : Substrings → Result (List Match)
unfolding cost_new create_match
create_matches [] = ok []
create_matches ((key, distance) ∷ m) = do
  cost ← cost_new distance
  matches ← create_matches m
  ok (create_match key.0 key.1 key.2 cost ∷ matches)

unfoldable pub verify :
    Float
    → List Symbol
    → List Candidate
    → CorpusStore
    → StrictBound
    → EditCosts Symbol
    → Result (List Match)
unfolding validate_candidates verify_candidates create_matches
verify fl query candidates corpus bound costs = do
  validate_candidates query candidates corpus
  state ← verify_candidates fl costs bound query corpus candidates (empty_forest, [])
  create_matches state.1
