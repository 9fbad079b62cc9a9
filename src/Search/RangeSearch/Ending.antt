-- ===== src/Search/RangeSearch/Ending.antt =====
-- src/search/range_search.rs: how a search for an encoded query ends, and when it ends so.
use yurine.Prelude.{
  ℕ, ◌≤◌, ◌<◌, ◌≡◌, refl, sym, ◌∙◌, min, List, [], ◌∷◌, length, map, All, Bool, true, false, not,
  inl, inr, Bool-cases, arith, Option, ltb→lt, ltb→le,
}
use native.Mathlib.Decide.{dec_le}
use yurine.Errors.{err≢ok}
use yurine.Types.{Symbol, u32_max}
use yurine.Float.{Float, infinity}
use yurine.Float.Laws.{IsExact}
use yurine.Costs.{Cost, EditCosts}
use yurine.Search.Bound.{StrictBound, admits}
use yurine.Search.Engine.{SearchEngine}
use yurine.Search.Filtering.Eta.{any_radius_can_select, sum_from}
use yurine.Search.Filtering.Pigeonhole.{exact_sum, sum_from-near}
use yurine.Search.Verification.Alignment.{wed}
use yurine.Search.Verification.Distances.{HasGoodCosts, exact}
use yurine.Search.RangeSearch.{run_selection, search_query_string}
use yurine.Search.RangeSearch.Outcome.{
  IsSearchable, IsOutcome, indexed-HasFrequencies, run_selection-of, select_positions-Settles,
}
use yurine.Search.RangeSearch.Widening.{select_positions-finds}

module _ {fl : Float} (x : IsExact fl) (costs : EditCosts Symbol) (g : HasGoodCosts x costs) where
  deletions-IsGood : (query : List Symbol) → All x.IsGood (map costs.deletion query)
  deletions-IsGood [] = tt
  deletions-IsGood (q ∷ query) = (g.deletion_good q, deletions-IsGood query)

  wed-deletions :
      (query : List Symbol) → exact_sum x (map costs.deletion query) ≡ wed (exact x costs) query []
  unfolding wed
  wed-deletions [] = refl
  wed-deletions (q ∷ query) = omega (arith, wed-deletions query)

  deletions-near :
      (query : List Symbol)
      → min (x.value (sum_from fl 0 (map costs.deletion query))) x.limit
        ≡ min (wed (exact x costs) query []) x.limit
  deletions-near query = omega (
    arith,
    sum_from-near x 0 (map costs.deletion query) x.zero-IsGood (deletions-IsGood query),
    x.value-zero,
    wed-deletions query,
  )

  module _ (query : List Symbol) (bound : StrictBound) (bound_small : x.value bound ≤ x.limit) where
    -- The guard of a search compares the price of deleting the whole query with the bound.
    can-dear :
        any_radius_can_select fl query bound costs ≡ true
        → x.value bound ≤ wed (exact x costs) query []
    unfolding any_radius_can_select admits
    can-dear can =
        let above : bound ≤ sum_from fl 0 (map costs.deletion query) =
          ltb→le (sum_from fl 0 (map costs.deletion query)) bound (not-true _ can) in
        omega (
          arith,
          x.value-mono bound (sum_from fl 0 (map costs.deletion query)) above,
          deletions-near query,
          bound_small,
        )
      where
        not-true : (b : Bool) → not b ≡ true → b ≡ false
        not-true b h = ground arith

    cannot-cheap :
        any_radius_can_select fl query bound costs ≡ false
        → wed (exact x costs) query [] < x.value bound
    unfolding any_radius_can_select admits
    cannot-cheap cannot =
        let total = sum_from fl 0 (map costs.deletion query) in
        let below : total < bound = ltb→lt total bound (not-false _ cannot) in
        elim (dec_le (x.value bound) (x.value total)) [
          | yes h ↦ absurd (omega (arith, below, x.value-reflects bound total h))
          | no h ↦ omega (arith, h, deletions-near query, bound_small)
        ]
      where
        not-false : (b : Bool) → not b ≡ false → b ≡ true
        not-false b h = ground arith

module _ {ℓ} {T : Type ℓ} {fl : Float} (x : IsExact fl) (engine : SearchEngine T)
    (query : List Symbol) (bound : StrictBound) (costs : EditCosts Symbol)
    (g : HasGoodCosts x costs) (max_candidates : Option ℕ) (searchable : IsSearchable engine)
    (short : length query ≤ u32_max) (bound_good : x.IsGood bound)
    (bound_small : x.value bound ≤ x.limit) (finite : bound < infinity) (eta : Cost) where
  run_selection-IsOutcome :
      any_radius_can_select fl query bound costs ≡ true
      → IsOutcome x engine query bound costs g max_candidates eta
          (run_selection fl engine query bound eta max_candidates costs)
  unfolding run_selection
  run_selection-IsOutcome can =
      elim (select_positions-Settles fl engine query bound costs (indexed-HasFrequencies searchable)
        short eta) [
          | inr none_there ↦ rw none_there (
              inr (record {
                returned = refl;
                reason = inr (λ countable.
                    let (s, found) =
                      select_positions-finds x engine query bound costs g searchable countable short
                        bound_good bound_small can eta in
                    err≢ok (sym none_there ∙ found));
              }))
          | inl (s, es) ↦ inl (
            can-dear x costs g query bound bound_small can,
            run_selection-of x engine query bound costs g max_candidates eta searchable short
                bound_good bound_small finite s es,
          )
        ]

  -- A search for an encoded query on an engine of which the parts answer for each other, with a finite
  -- bound and sums that are exact up to it, ends in one of three ways. Where deleting the whole query
  -- costs no less than the bound, it ends with the exact answer and the metrics of its selection and
  -- candidates, these no more than a limit below the largest usize, or with SearchTooExpensive, when the
  -- candidates of its selection are more than the limit, and with their number, saturated. It ends with
  -- ThresholdSubsequenceUnavailable only where deleting the whole query costs less than the bound or the
  -- postings of the alphabet cannot be counted.
  pub search_query_string-IsOutcome :
      IsOutcome x engine query bound costs g max_candidates eta
        (search_query_string fl engine query bound eta max_candidates costs)
  unfolding search_query_string
  search_query_string-IsOutcome = elim (Bool-cases (any_radius_can_select fl query bound costs)) [
    | inl can ↦ rw can (run_selection-IsOutcome can)
    | inr cannot ↦ rw cannot (
        inr (record {
          returned = refl;
          reason = inl (cannot-cheap x costs g query bound bound_small cannot);
        }))
  ]
