-- ===== src/Search/RangeSearch.antt =====
-- src/search/range_search.rs: a query from its parameters to its matches.
pub mod Radii
pub mod Answer
pub mod Outcome
pub mod EndToEnd
pub mod Widening
pub mod Ending
pub mod Tokens
use yurine.Prelude.{
  ℕ, zero, suc, ◌+◌, ◌-◌, ◌/◌, Bool, not, Option, none, some, List, [], ◌∷◌, length, get_elem?, ltb,
  ◌==◌, if◌then◌else◌, Eq, leb, ◌&&◌,
}
use yurine.Errors.{Error, Result, ok, err, panic, ◌>>=◌, ◌>>◌, ok_or, expect}
use yurine.Types.{Symbol}
use yurine.Float.{Float}
use yurine.Costs.{Cost, EditCosts, cost_new, cost_zero}
use yurine.Vocabulary.{Vocabulary, len}
use yurine.Search.Bound.{StrictBound, from_inclusive}
use yurine.Search.Matches.{Match}
use yurine.Search.Engine.{SearchEngine}
use yurine.Search.Encoding.{EncodedQuery, symbol_token}
use yurine.Search.Encoding
use yurine.Search.Filtering.Eta.{any_radius_can_select, wider_radii}
use yurine.Search.Filtering.Selector.{SelectedPosition, select}
use yurine.Search.Filtering.Generation.{generate_candidates, count_candidates}
use yurine.Search.Verification.Trie

-- The threshold is any pattern of 32 bits.
pub record RangeSearchParams : Type 0 where
  pub threshold : ℕ
  pub max_candidates : Option ℕ

pub record RangeSearchMetrics : Type 0 where
  pub adjusted_eta : Option Cost
  pub selected_query_positions : ℕ
  pub generated_candidates : ℕ

unfoldable pub with_max_candidates : RangeSearchParams → ℕ → RangeSearchParams
with_max_candidates params limit = record params { max_candidates = some limit }

unfoldable pub automatic_eta : Float → Cost → ℕ → Result Cost
unfolding cost_new
automatic_eta fl threshold query_len =
    if query_len == 0 then ok cost_zero else cost_new (fl.div threshold (fl.of_usize query_len))

-- The answer of a selection: the error that tells that no subsequence is there is a result.
unfoldable pub is_unavailable : Error → Bool
is_unavailable Error.threshold_subsequence_unavailable = Bool.true
is_unavailable _ = Bool.false

abbrev pub Selection : Type 0
Selection = List SelectedPosition × Option Cost

module _ {ℓ} {T : Type ℓ} (fl : Float) (engine : SearchEngine T) where
  unfoldable pub select_at :
      List Symbol → StrictBound → Cost → EditCosts Symbol → Result (List SelectedPosition)
  unfolding select
  select_at query bound eta costs = select fl query bound eta engine.index costs engine.neighborhood

  -- The `while` loop of the search for the narrowest radius, which halves `high - low`.
  unfoldable pub narrow :
      ℕ
      → List Symbol
      → StrictBound
      → EditCosts Symbol
      → List Cost
      → ℕ
      → ℕ
      → Option Selection
      → Result (Option Selection)
  unfolding select_at is_unavailable
  narrow zero query bound costs radii low high narrowest = panic
  narrow (suc fuel) query bound costs radii low high narrowest =
      let middle = low + (high - low) / 2 in
      let round = expect (get_elem? radii middle) >>= λ radius.
      elim (select_at query bound radius costs) [
        | ok selected ↦
            narrow fuel query bound costs radii low middle (some (selected, some radius))
        | err e ↦
            let wider = narrow fuel query bound costs radii (middle + 1) high narrowest in
            if is_unavailable e then wider else err e
        | panic ↦ panic
      ] in
      if ltb low high then round else ok narrowest

  unfoldable pub select_positions :
      List Symbol → StrictBound → Cost → EditCosts Symbol → Result Selection
  unfolding select_at is_unavailable wider_radii narrow
  select_positions query bound eta costs =
      let radii = wider_radii query eta costs engine.neighborhood in
      let widened =
        narrow (suc (length radii)) query bound costs radii 0 (length radii) none >>= λ narrowest.
        ok_or narrowest Error.threshold_subsequence_unavailable in
      elim (select_at query bound eta costs) [
        | ok selected ↦ ok (selected, none)
        | err e ↦ if is_unavailable e then widened else err e
        | panic ↦ panic
      ]

  unfoldable pub check_limit : Option ℕ → List SelectedPosition → Result (Unit {0})
  unfolding count_candidates
  check_limit none selected = ok tt
  check_limit (some limit) selected = do
    candidates ← count_candidates engine.index selected
    if ltb limit candidates then err (Error.search_too_expensive candidates limit) else ok tt

  -- `search_query_string` behind its first check.
  unfoldable pub run_selection :
      List Symbol
      → StrictBound
      → Cost
      → Option ℕ
      → EditCosts Symbol
      → Result (List Match × RangeSearchMetrics)
  unfolding select_positions check_limit generate_candidates Trie.verify
  run_selection query bound eta max_candidates costs = do
    selection ← select_positions query bound eta costs
    check_limit max_candidates selection.0
    candidates ← generate_candidates engine.index selection.0
    matches ← Trie.verify fl query candidates engine.store bound costs
    ok (
      matches,
      record {
        adjusted_eta = selection.1;
        selected_query_positions = length selection.0;
        generated_candidates = length candidates;
      },
    )

  unfoldable pub search_query_string :
      List Symbol
      → StrictBound
      → Cost
      → Option ℕ
      → EditCosts Symbol
      → Result (List Match × RangeSearchMetrics)
  unfolding any_radius_can_select run_selection
  search_query_string query bound eta max_candidates costs =
      if not (any_radius_can_select fl query bound costs)
      then err Error.threshold_subsequence_unavailable
      else run_selection query bound eta max_candidates costs

module _ {ℓ} {T : Type ℓ} (v : Vocabulary T) (unknown_tokens : List T) where
  -- `EncodedCosts`, which prices symbols by their tokens. At a symbol that has none the code stops; here
  -- it has a price all the same, and `symbol_costs` stops where a search could ask for one.
  unfoldable pub encoded_costs : EditCosts T → EditCosts Symbol
  unfolding symbol_token
  encoded_costs costs = record {
    substitution = λ from to. elim (symbol_token v unknown_tokens from) [
      | none ↦ cost_zero
      | some a ↦ elim (symbol_token v unknown_tokens to) [
        | none ↦ cost_zero
        | some b ↦ costs.substitution a b
      ]
    ];
    deletion = λ symbol. elim (symbol_token v unknown_tokens symbol) [
      | none ↦ cost_zero
      | some t ↦ costs.deletion t
    ];
    insertion = λ symbol. elim (symbol_token v unknown_tokens symbol) [
      | none ↦ cost_zero
      | some t ↦ costs.insertion t
    ];
  }

  unfoldable pub have_tokens : List Symbol → Bool
  unfolding symbol_token
  have_tokens [] = Bool.true
  have_tokens (symbol ∷ symbols) = elim (symbol_token v unknown_tokens symbol) [
    | none ↦ Bool.false
    | some t ↦ have_tokens symbols
  ]

module _ {ℓ} {T : Type ℓ} ⦃eq : Eq T⦄ (fl : Float) (engine : SearchEngine T)
    (costs : EditCosts T) where
  -- A search asks for the costs of the query's symbols, of those of the alphabet, and of those of the
  -- strings, which their validation keeps below the store's count. The code stops when it asks for one
  -- that has no token; the model stops already when there is one.
  unfoldable pub symbol_costs : EncodedQuery T → Result (EditCosts Symbol)
  unfolding encoded_costs have_tokens len
  symbol_costs encoded =
      if have_tokens engine.vocabulary encoded.unknown_tokens encoded.string
        && (have_tokens engine.vocabulary encoded.unknown_tokens engine.neighborhood.alphabet
            && leb engine.store.symbol_count (len engine.vocabulary))
      then ok (encoded_costs engine.vocabulary encoded.unknown_tokens costs)
      else panic

  unfoldable pub search_with_metrics :
      List T → RangeSearchParams → Result (List Match × RangeSearchMetrics)
  unfolding cost_new from_inclusive Encoding.new automatic_eta search_query_string symbol_costs
  search_with_metrics query_sequence params = do
    threshold ← cost_new params.threshold
    bound ← from_inclusive threshold
    encoded ← Encoding.new engine.vocabulary query_sequence
    eta ← automatic_eta fl threshold (length encoded.string)
    by_symbol ← symbol_costs encoded
    search_query_string fl engine encoded.string bound eta params.max_candidates by_symbol

  unfoldable pub search : List T → RangeSearchParams → Result (List Match)
  unfolding search_with_metrics
  search query_sequence params = do found ← search_with_metrics query_sequence params; ok found.0
