-- ===== src/Examples/Searches.antt =====
-- The theorems on the search, at the small engine: a query with a token that no sequence has.
use yurine.Prelude.{
  ◌∈◌, ◌↔◌, true, false, get_elem?, ℕ, ◌+◌, ◌≡◌, ◌≤◌, ◌<◌, refl, Option, List, [], ◌∷◌, none, some,
  length, nat_eq, arith, min, ◌-◌, ◌⊎◌, inl, inr,
}
use yurine.Errors.{ok}
use yurine.Types.{Symbol, usize_limit, u32_max}
use yurine.Vocabulary.{len}
use yurine.Float.{fixed_point}
use yurine.Float.Laws.{fixed_point-IsExact}
use yurine.Costs.{cost_new}
use yurine.Search.Matches.{Candidate, Match}
use yurine.Search.Filtering.Selector.{SelectedPosition, Item, select, add_frequencies, score_items}
use yurine.Search.Filtering.Selector.Rounds.{IsSelection, select-IsSelection}
use yurine.Search.Filtering.Selector.Outcome.{Settles, select-Settles}
use yurine.Search.Filtering.Generation.{generate_candidates, count_candidates}
use yurine.Search.Filtering.Generation.Counting.{count_candidates-generate_candidates}
use yurine.Search.Filtering.Pigeonhole.{IsMet, IsSelection-meets}
use yurine.Search.Verification.Alignment.{Alignment, substitute, done, price}
use yurine.Search.Verification.Distances.{exact}
use yurine.Search.Verification.Trie.{verify, validate_candidates}
use yurine.Search.Verification.Trie.Answer.{IsAnswer, IsCovering, verify-IsAnswer}
use yurine.Search.RangeSearch.{
  RangeSearchParams, automatic_eta, search_query_string, search_with_metrics, select_positions,
}
use yurine.Search.RangeSearch.Radii.{IsSelectedAt, select_positions-Reports}
use yurine.Search.Bound.{admits}
use yurine.Search.Filtering.Eta.{any_radius_can_select, sum_from, wider_radii}
use yurine.Search.Filtering.Eta.Widest.{wider_radii_lem}
use yurine.Search.Filtering.Eta.Sorting.{IsAscending}
use yurine.Search.Filtering.Selector.Enough.{all_contributions, select_iff}
use yurine.Search.RangeSearch.Widening.{search_query_string-IsAnswered}
use yurine.Search.RangeSearch.Answer.{selection-IsCovering}
use yurine.Search.RangeSearch.Outcome.{
  IsCountable, IsAnswered, IsTooExpensive, IsOutcome, IsSearchable, indexed-HasFrequencies,
}
use yurine.Search.RangeSearch.EndToEnd.{IsSearched, search-IsSearched}
use yurine.Search.RangeSearch.Ending.{search_query_string-IsOutcome}
use yurine.Search.Filtering.Eta.Widest.{IsSubstitutionCost}
use yurine.Search.Builder.Correct.{IsBuilt, build-IsBuilt}
use yurine.Examples.{
  builder, engine, engine-built, costs, costs-HasGoodCosts, costs-HasGoodTokenCosts, query,
  query_symbols, bound,
}

abbrev pub params : RangeSearchParams
params = record { threshold = 4; max_candidates = none }

pub eta_is : automatic_eta fixed_point 4 3 ≡ ok 1
unfolding automatic_eta cost_new
eta_is = refl

pub one_is_good : fixed_point-IsExact.IsGood 5
unfolding fixed_point-IsExact
one_is_good = omega arith

pub bound_fits : fixed_point-IsExact.value 5 ≤ fixed_point-IsExact.limit
unfolding fixed_point-IsExact
bound_fits = omega arith

pub query-room : len engine.vocabulary + length query ≤ u32_max
unfolding len
query-room = omega arith

search-IsSearched_example :
    IsSearched fixed_point-IsExact costs costs-HasGoodTokenCosts engine builder.sequences query
      params 1
      (search_with_metrics fixed_point engine costs query params)
search-IsSearched_example =
    search-IsSearched fixed_point-IsExact costs costs-HasGoodTokenCosts builder engine query params
      1 engine-built query-room (omega arith) one_is_good bound_fits eta_is

build-IsBuilt_example : IsBuilt builder engine
build-IsBuilt_example = build-IsBuilt builder engine engine-built

searchable : IsSearchable engine
searchable = (build-IsBuilt builder engine engine-built).searchable

search_query_string-IsOutcome_example :
    IsOutcome fixed_point-IsExact engine query_symbols bound costs costs-HasGoodCosts
      (some 1)
      1
      (search_query_string fixed_point engine query_symbols bound 1 (some 1) costs)
search_query_string-IsOutcome_example =
    search_query_string-IsOutcome fixed_point-IsExact engine query_symbols bound costs
      costs-HasGoodCosts (some 1) searchable (omega arith) one_is_good bound_fits (omega arith) 1

-- Two positions are selected: each outweighs no more than the cost of one edit.
abbrev selected : List SelectedPosition
selected =
    record { position = 0; neighbors = 1 ∷ [] } ∷ record { position = 1; neighbors = [] } ∷ []

abbrev candidates : List Candidate
candidates = record { string_id = 0; string_position = 0; query_position = 0 } ∷ []

selected_is :
    select fixed_point query_symbols bound 1 engine.index costs engine.neighborhood ≡ ok selected
unfolding select
selected_is = refl

candidates_are : generate_candidates engine.index selected ≡ ok candidates
unfolding generate_candidates
candidates_are = refl

select-IsSelection_example :
    IsSelection fixed_point 1 costs engine.neighborhood query_symbols bound selected
select-IsSelection_example =
    select-IsSelection fixed_point 1 costs engine.neighborhood query_symbols bound engine.index
      selected selected_is

select-Settles_example :
    Settles (select fixed_point query_symbols bound 1 engine.index costs engine.neighborhood)
select-Settles_example =
    select-Settles fixed_point 1 costs engine.neighborhood engine.index
      (indexed-HasFrequencies searchable) query_symbols bound (omega arith)

count_candidates-generate_candidates_example :
    count_candidates engine.index selected ≡ ok (min (length candidates) (usize_limit - 1))
count_candidates-generate_candidates_example =
    count_candidates-generate_candidates engine.index selected candidates candidates_are

-- Two symbols of the alphabet, and their alignment with themselves.
abbrev short_query : List Symbol
short_query = 1 ∷ 2 ∷ []

abbrev short_kept : Alignment short_query short_query
short_kept = substitute 1 1 (substitute 2 2 done)

abbrev short_selected : List SelectedPosition
short_selected =
    record { position = 0; neighbors = 1 ∷ [] } ∷ record { position = 1; neighbors = 2 ∷ [] } ∷ []

short_selected_is :
    select fixed_point short_query bound 1 engine.index costs engine.neighborhood
    ≡ ok short_selected
unfolding select
short_selected_is = refl

short-IsSelection :
    IsSelection fixed_point 1 costs engine.neighborhood short_query bound short_selected
short-IsSelection =
    select-IsSelection fixed_point 1 costs engine.neighborhood short_query bound engine.index
      short_selected short_selected_is

short_cheap : price (exact fixed_point-IsExact costs) short_kept < fixed_point-IsExact.value bound
unfolding price fixed_point-IsExact
short_cheap = omega arith

IsSelection-meets_example :
    IsMet fixed_point-IsExact 1 costs costs-HasGoodCosts engine.neighborhood short_selected 0
      short_query short_query
      (price (exact fixed_point-IsExact costs) short_kept)
IsSelection-meets_example =
    IsSelection-meets fixed_point-IsExact 1 costs costs-HasGoodCosts engine.neighborhood short_query
      short_query bound short_selected bound_fits short-IsSelection
      (inr (inl refl), (inr (inr (inl refl)), tt)) short_kept short_cheap

validated : validate_candidates query_symbols candidates engine.store ≡ ok tt
unfolding validate_candidates
validated = refl

candidates-IsCovering :
    IsCovering fixed_point-IsExact costs costs-HasGoodCosts query_symbols bound engine.store
      candidates
candidates-IsCovering =
    selection-IsCovering fixed_point-IsExact costs costs-HasGoodCosts query_symbols bound bound_fits
      engine.index engine.store engine.neighborhood searchable 1 selected
      (select-IsSelection fixed_point 1 costs engine.neighborhood query_symbols bound engine.index
        selected selected_is)
      candidates candidates_are

verify-IsAnswer_example :
    (matches : List Match) × (verify fixed_point query_symbols candidates engine.store bound costs
      ≡ ok matches)
    × IsAnswer fixed_point-IsExact costs costs-HasGoodCosts query_symbols bound engine.store matches
verify-IsAnswer_example =
    verify-IsAnswer fixed_point-IsExact costs costs-HasGoodCosts query_symbols bound engine.store
      one_is_good bound_fits candidates (omega arith) validated candidates-IsCovering

positions_are :
    select_positions fixed_point engine query_symbols bound 1 costs ≡ ok (selected, none)
unfolding select_positions
positions_are = refl

select_positions-Reports_example :
    (radius : ℕ) × IsSelectedAt fixed_point engine query_symbols bound costs radius (selected, none)
    × (((◌≡◌ {A = Option ℕ} none none) × (radius ≡ 1)) ⊎ (◌≡◌ {A = Option ℕ} none (some radius)))
select_positions-Reports_example =
    select_positions-Reports fixed_point engine query_symbols bound costs 1 (selected, none)
      positions_are

countable : IsCountable engine.index engine.neighborhood
unfolding add_frequencies
countable = (5, refl)

can_select : any_radius_can_select fixed_point query_symbols bound costs ≡ true
unfolding any_radius_can_select
can_select = refl

-- The limit of no candidates is exceeded.
search_query_string-IsAnswered_example :
    IsAnswered fixed_point-IsExact engine query_symbols bound costs costs-HasGoodCosts
      (some 0)
      1
      (search_query_string fixed_point engine query_symbols bound 1 (some 0) costs)
    ⊎ IsTooExpensive fixed_point-IsExact engine query_symbols bound costs costs-HasGoodCosts
        (some 0)
        1
        (search_query_string fixed_point engine query_symbols bound 1 (some 0) costs)
search_query_string-IsAnswered_example =
    search_query_string-IsAnswered fixed_point-IsExact engine query_symbols bound costs
      costs-HasGoodCosts searchable countable (omega arith) one_is_good bound_fits can_select
      (some 0) (omega arith) 1

abbrev items : List Item
items =
    record { neighbors = 1 ∷ []; contribution = 4; candidate_count = 1; paid = 0; selected = false }
    ∷ record { neighbors = []; contribution = 4; candidate_count = 0; paid = 0; selected = false }
    ∷ record {
      neighbors = 2 ∷ [];
      contribution = 4;
      candidate_count = 1;
      paid = 0;
      selected = false;
    }
    ∷ []

items_are :
    score_items fixed_point engine.index 1 costs engine.neighborhood query_symbols ≡ ok items
unfolding score_items
items_are = refl

select_iff_example :
    ((result : List SelectedPosition) × (select fixed_point query_symbols bound 1 engine.index costs
          engine.neighborhood
        ≡ ok result))
    ↔ (admits bound (
          sum_from fixed_point 0 (
            all_contributions fixed_point-IsExact 1 costs costs-HasGoodCosts engine.neighborhood
              query_symbols))
        ≡ false)
select_iff_example =
    select_iff fixed_point-IsExact 1 costs costs-HasGoodCosts engine.neighborhood query_symbols
      bound engine.index items one_is_good bound_fits (indexed-HasFrequencies searchable)
      (omega arith) items_are

wider_radii_lem_example :
    IsAscending (wider_radii query_symbols 1 costs engine.neighborhood)
    × ((c : ℕ)
        → (c ∈ wider_radii query_symbols 1 costs engine.neighborhood)
          ↔ ((1 < c) × IsSubstitutionCost costs query_symbols engine.neighborhood.alphabet c))
    × (((wider_radii query_symbols 1 costs engine.neighborhood ≡ [])
          × ((q s : Symbol)
              → q ∈ query_symbols
              → s ∈ engine.neighborhood.alphabet
              → costs.substitution q s ≤ 1))
        ⊎ ((top : ℕ) × (get_elem?
                (wider_radii query_symbols 1 costs engine.neighborhood)
                (length (wider_radii query_symbols 1 costs engine.neighborhood) - 1)
              ≡ some top)
            × ((q s : Symbol)
                → q ∈ query_symbols
                → s ∈ engine.neighborhood.alphabet
                → costs.substitution q s ≤ top)))
wider_radii_lem_example = wider_radii_lem query_symbols 1 costs engine.neighborhood
