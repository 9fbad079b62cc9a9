-- ===== src/Search/RangeSearch/Outcome.antt =====
-- src/search/range_search.rs: a search for an encoded query ends with the exact answer, or with one
-- of its two documented errors.
use yurine.Prelude.{
  ℕ, zero, suc, ◌+◌, ◌-◌, ◌/◌, ◌≤◌, ◌<◌, ◌≡◌, refl, min, Option, some, none, List, [], length, true,
  get_elem?, get_elem?_of_lt, ltb, ltb→lt, ltb→le, ◌⊎◌, inl, inr, Bool-cases, Option-cases, arith,
}
use yurine.Errors.{Error, Result, ok, err, ◌>>=◌, expect}
use yurine.Types.{Symbol, u32_max, usize_limit}
use yurine.Float.{Float, infinity}
use yurine.Float.Laws.{IsExact}
use yurine.Costs.{Cost, EditCosts}
use yurine.Postings.{PostingsIndex, frequency}
use yurine.Search.Bound.{StrictBound}
use yurine.Search.Matches.{Candidate, Match}
use yurine.Search.Engine.{SearchEngine}
use yurine.Search.Filtering.Eta.{wider_radii}
use yurine.Search.Filtering.Neighborhood.{SubstitutionNeighborhood}
use yurine.Search.Filtering.Selector.{SelectedPosition, add_frequencies}
use yurine.Search.Filtering.Selector.Outcome.{Settles, HasFrequencies, select-Settles}
use yurine.Search.Filtering.Selector.Rounds.{select-IsSelection}
use yurine.Search.Filtering.Generation.{generate_candidates}
use yurine.Search.Filtering.Generation.Counting.{count_candidates-generate_candidates}
use yurine.Search.Filtering.Generation.Membership.{generate_candidates-total}
use yurine.Search.Verification.Alignment.{wed}
use yurine.Search.Verification.Distances.{HasGoodCosts, exact}
use yurine.Search.Verification.Trie.Answer.{IsAnswer, verify-IsAnswer}
use yurine.Search.RangeSearch.{
  RangeSearchMetrics, Selection, select_at, narrow, is_unavailable, select_positions, check_limit,
  run_selection,
}
use yurine.Search.RangeSearch.Radii.{select_positions-Reports}
use yurine.Search.RangeSearch.Answer.{IsIndexed, selection-IsCovering, generated-validated}

pub half-lt : (low high : ℕ) → low < high → low + (high - low) / 2 < high
half-lt low high h = omega (arith, h)

pub indexed-HasFrequencies :
    {index : _} {corpus : _} {n : _} → IsIndexed index corpus n → HasFrequencies index
unfolding frequency
indexed-HasFrequencies indexed s = let (ps, e) = indexed.slices s in (length ps, rw e refl)

module _ {ℓ} {T : Type ℓ} (fl : Float) (engine : SearchEngine T) (query : List Symbol)
    (bound : StrictBound) (costs : EditCosts Symbol) (frequencies : HasFrequencies engine.index)
    (short : length query ≤ u32_max) where
  pub select_at-Settles : (radius : Cost) → Settles (select_at fl engine query bound radius costs)
  unfolding select_at
  select_at-Settles radius =
      select-Settles fl radius costs engine.neighborhood engine.index frequencies query bound short

  module _ (fuel : ℕ) (radii : List Cost) (low high : ℕ) (narrowest : Option Selection)
      (radius : Cost) where
    pub round-ok :
        (selected : List SelectedPosition)
        → ltb low high ≡ true
        → get_elem? radii (low + (high - low) / 2) ≡ some radius
        → select_at fl engine query bound radius costs ≡ ok selected
        → narrow fl engine (suc fuel) query bound costs radii low high narrowest
          ≡ narrow fl engine fuel query bound costs radii low
              (low + (high - low) / 2)
              (some (selected, some radius))
    unfolding narrow
    round-ok selected more at es = rw (more, at, es, ◌>>=◌, expect) refl

    pub round-err :
        ltb low high ≡ true
        → get_elem? radii (low + (high - low) / 2) ≡ some radius
        → select_at fl engine query bound radius costs ≡ err Error.threshold_subsequence_unavailable
        → narrow fl engine (suc fuel) query bound costs radii low high narrowest
          ≡ narrow fl engine fuel query bound costs radii
              (low + (high - low) / 2 + 1)
              high
              narrowest
    unfolding narrow is_unavailable
    round-err more at es = rw (more, at, es, ◌>>=◌, expect) refl

  -- The fuel of the bisection is enough, and no radius is read out of range.
  narrow-total :
      (fuel : ℕ) (radii : List Cost) (low high : ℕ) (narrowest : Option Selection)
      → high - low < fuel
      → high ≤ length radii
      → (found : Option Selection) × (narrow fl engine fuel query bound costs radii low high
            narrowest
          ≡ ok found)
  unfolding narrow is_unavailable
  narrow-total zero radii low high narrowest h l = absurd (omega (arith, h))
  narrow-total (suc fuel) radii low high narrowest h l = elim (Bool-cases (ltb low high)) [
    | inr done ↦ rw done (narrowest, refl)
    | inl more ↦
        let middle = low + (high - low) / 2 in
        let lt = ltb→lt low high more in
        let inside = half-lt low high lt in
        let (radius, at) = get_elem?_of_lt radii middle (omega (arith, inside, l)) in
        elim (select_at-Settles radius) [
          | inl (selected, es) ↦
              rw (round-ok fuel radii low high narrowest radius selected more at es) (
                narrow-total fuel radii low middle (some (selected, some radius))
                  (omega (arith, inside, h)) (omega (arith, inside, l)))
          | inr es ↦
              rw (round-err fuel radii low high narrowest radius more at es)
                (narrow-total fuel radii (middle + 1) high narrowest (omega (arith, inside, h)) l)
        ]
  ]

  pub select_positions-Settles :
      (eta : Cost) → Settles (select_positions fl engine query bound eta costs)
  unfolding select_positions is_unavailable
  select_positions-Settles eta = elim (select_at-Settles eta) [
    | inl (selected, es) ↦ rw (select_positions, es) (inl (_, refl))
    | inr es ↦
        let radii = wider_radii query eta costs engine.neighborhood in
        let (found, en) =
          narrow-total (suc (length radii)) radii 0 (length radii) none (omega arith)
            (omega arith) in
        elim (Option-cases found) [
          | inl e ↦ rw (select_positions, es, en, e) (inr refl)
          | inr (s, e) ↦ rw (select_positions, es, en, e) (inl (s, refl))
        ]
  ]

-- The pieces of an engine answer for each other.
abbrev pub IsSearchable {ℓ} : {T : Type ℓ} → SearchEngine T → Type 0
IsSearchable engine = IsIndexed engine.index engine.store engine.neighborhood

-- The postings of the whole alphabet can be counted.
abbrev pub IsCountable : PostingsIndex → SubstitutionNeighborhood → Type 0
IsCountable index n = (total : ℕ) × (add_frequencies index 0 n.alphabet ≡ ok total)

module _ {ℓ} {T : Type ℓ} {fl : Float} (x : IsExact fl) (engine : SearchEngine T)
    (query : List Symbol) (bound : StrictBound) (costs : EditCosts Symbol)
    (g : HasGoodCosts x costs) (max_candidates : Option ℕ) (eta : Cost) where
  -- The selection of a search, and the candidates that its postings generate.
  pub record Generated (selection : Selection) (candidates : List Candidate) : Type 0 where
    pub selects : select_positions fl engine query bound eta costs ≡ ok selection
    pub generates : generate_candidates engine.index selection.0 ≡ ok candidates

  -- The exact answer, with no more candidates than the limit, and the metrics of the selection and of
  -- its candidates.
  pub record IsAnswered (r : Result (List Match × RangeSearchMetrics)) : Type 0 where
    pub matches : List Match
    pub metrics : RangeSearchMetrics
    pub returned : r ≡ ok (matches, metrics)
    pub answer : IsAnswer x costs g query bound engine.store matches
    pub selection : Selection
    pub candidates : List Candidate
    pub generated : Generated selection candidates
    pub measured : metrics ≡ record {
      adjusted_eta = selection.1;
      selected_query_positions = length selection.0;
      generated_candidates = length candidates;
    }
    pub within_limit :
        (limit : ℕ)
        → max_candidates ≡ some limit
        → limit < usize_limit - 1
        → length candidates ≤ limit

  -- More generated candidates than the limit, and the error that reports their number, saturated.
  pub record IsTooExpensive (r : Result (List Match × RangeSearchMetrics)) : Type 0 where
    pub limit : ℕ
    pub limited : max_candidates ≡ some limit
    pub selection : Selection
    pub candidates : List Candidate
    pub generated : Generated selection candidates
    pub exceeds : limit < length candidates
    pub returned :
        r ≡ err (Error.search_too_expensive (min (length candidates) (usize_limit - 1)) limit)

  -- The empty substring is within the bound, or the postings of the alphabet cannot be counted.
  pub record IsUnavailable (r : Result (List Match × RangeSearchMetrics)) : Type 0 where
    pub returned : r ≡ err Error.threshold_subsequence_unavailable
    pub reason :
        (wed (exact x costs) query [] < x.value bound)
        ⊎ (IsCountable engine.index engine.neighborhood → ⊥)

  -- A search answers, or has too many candidates, only where the empty substring is not within the
  -- bound.
  abbrev pub IsOutcome : Result (List Match × RangeSearchMetrics) → Type 0
  IsOutcome r =
      ((x.value bound ≤ wed (exact x costs) query []) × (IsAnswered r ⊎ IsTooExpensive r))
      ⊎ IsUnavailable r

  check_limit-cases :
      (selected : List SelectedPosition) (cs : List Candidate)
      → generate_candidates engine.index selected ≡ ok cs
      → ((check_limit fl engine max_candidates selected ≡ ok tt)
          × ((limit : ℕ)
              → max_candidates ≡ some limit
              → limit < usize_limit - 1
              → length cs ≤ limit))
        ⊎ ((limit : ℕ) × (max_candidates ≡ some limit)
            × (limit < length cs)
            × (check_limit fl engine max_candidates selected
                ≡ err (Error.search_too_expensive (min (length cs) (usize_limit - 1)) limit)))
  unfolding check_limit
  check_limit-cases selected cs generated = elim (Option-cases max_candidates) [
    | inl unlimited ↦ rw unlimited (inl (refl, λ limit bad. cc))
    | inr (limit, limited) ↦
        let counted = count_candidates-generate_candidates engine.index selected cs generated in
        let count = min (length cs) (usize_limit - 1) in
        elim (Bool-cases (ltb limit count)) [
          | inl more ↦
              rw limited (
                rw (counted, more)
                  (inr (limit, refl, omega (arith, ltb→lt limit count more), refl)))
          | inr fits ↦ rw limited (
              rw (counted, fits)
                (inl (
                  refl,
                  λ other same small.
                      let e : limit ≡ other = cc in
                      omega (arith, e, ltb→le limit count fits, small),
                )))
        ]
  ]

  module _ (searchable : IsSearchable engine) (short : length query ≤ u32_max)
      (bound_good : x.IsGood bound) (bound_small : x.value bound ≤ x.limit)
      (finite : bound < infinity) where
    -- With its positions selected a search returns the answer, or has too many candidates.
    pub run_selection-of :
        (s : Selection)
        → select_positions fl engine query bound eta costs ≡ ok s
        → IsAnswered (run_selection fl engine query bound eta max_candidates costs)
          ⊎ IsTooExpensive (run_selection fl engine query bound eta max_candidates costs)
    unfolding run_selection select_at
    run_selection-of s es =
        let (radius, at_radius, how) =
          select_positions-Reports fl engine query bound costs eta s es in
        let selection =
          select-IsSelection fl radius costs engine.neighborhood query bound engine.index s.0
            at_radius in
        let (cs, generated) = generate_candidates-total engine.index searchable.slices s.0 in
        let (matches, verified, answer) =
          verify-IsAnswer x costs g query bound engine.store bound_good bound_small cs finite
            (generated-validated x costs g query bound bound_small engine.index engine.store
              engine.neighborhood searchable radius s.0 selection cs generated)
            (selection-IsCovering x costs g query bound bound_small engine.index engine.store
              engine.neighborhood searchable radius s.0 selection cs generated) in
        elim (check_limit-cases s.0 cs generated) [
          | inl (passes, within) ↦
              rw (es, passes, generated, verified)
                (inl (record {
                  matches = matches;
                  metrics = record {
                    adjusted_eta = s.1;
                    selected_query_positions = length s.0;
                    generated_candidates = length cs;
                  };
                  returned = refl;
                  answer = answer;
                  selection = s;
                  candidates = cs;
                  generated = record { selects = es; generates = generated };
                  measured = refl;
                  within_limit = within;
                }))
          | inr (limit, limited, exceeds, stops) ↦
              rw (es, stops)
                (inr (record {
                  limit = limit;
                  limited = limited;
                  selection = s;
                  candidates = cs;
                  generated = record { selects = es; generates = generated };
                  exceeds = exceeds;
                  returned = refl;
                }))
        ]
