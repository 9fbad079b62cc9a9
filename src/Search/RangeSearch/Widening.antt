-- ===== src/Search/RangeSearch/Widening.antt =====
-- src/search/range_search.rs: where some radius can select, the bisection finds one that does.
use mathlib.Core.Option.{some-injective}
use yurine.Prelude.{
  ℕ, zero, suc, ◌+◌, ◌-◌, ◌/◌, ◌≤◌, ◌<◌, ◌≡◌, refl, sym, ap, ap₂, ◌∙◌, subst, List, [], ◌∷◌, ◌∈◌,
  ◌⊎◌, inl, inr, Bool-cases, true, false, not, arith, Option, some, none, get_elem?,
  get_elem?_of_lt, get_elem?-lt, Bool, length, ltb, ltb→lt, ltb→le, lt→ltb, leb, map, min,
}
use yurine.Errors.{Error, ok, err, >>=-eq-ok, err≢ok}
use yurine.Types.{Symbol, u32_max, usize_limit}
use yurine.Float.{Float, infinity}
use yurine.Float.Laws.{IsExact}
use yurine.Costs.{Cost, EditCosts}
use yurine.Postings.{PostingsIndex, frequency}
use yurine.Search.Bound.{StrictBound, admits}
use yurine.Search.Engine.{SearchEngine}
use yurine.Search.Filtering.Neighborhood.{SubstitutionNeighborhood, scan, scan_from}
use yurine.Search.Filtering.Neighborhood.Scan.{scan_lem}
use yurine.Search.Filtering.Eta.{any_radius_can_select, sum_from, wider_radii}
use yurine.Search.Filtering.Eta.Widest.{wider_radii_lem}
use yurine.Search.Filtering.Selector.{SelectedPosition, Item, add_frequencies, score_items}
use yurine.Search.Filtering.Selector.Outcome.{HasFrequencies}
use yurine.Search.Filtering.Selector.Enough.{select_iff}
use yurine.Search.Filtering.Selector.Rounds.{outside}
use yurine.Search.Verification.Distances.{HasGoodCosts}
use yurine.Search.RangeSearch.{
  Selection, select_at, narrow, is_unavailable, select_positions, search_query_string,
}
use yurine.Search.RangeSearch.Outcome.{
  IsSearchable, IsCountable, IsAnswered, IsTooExpensive, run_selection-of, indexed-HasFrequencies,
  select_at-Settles, round-ok, round-err, half-lt,
}

module _ (index : PostingsIndex) (q : Symbol) (eta : Cost) (costs : EditCosts Symbol) where
  -- A scan keeps a part of the alphabet, of which there are no more postings.
  scan_from-counted :
      (alphabet : List Symbol) (start c less t : ℕ)
      → less ≤ c
      → add_frequencies index c alphabet ≡ ok t
      → (count : ℕ) × (add_frequencies index less (scan_from q eta costs alphabet start).0
          ≡ ok count)
  unfolding scan_from add_frequencies
  scan_from-counted [] start c less t h e = (less, refl)
  scan_from-counted (a ∷ alphabet) start c less t h e =
      let (f, e1, r1) = >>=-eq-ok (frequency index a) _ e in
      elim (Bool-cases (ltb (c + f) usize_limit)) [
        | inr over ↦ absurd (err≢ok (rw over at r1))
        | inl fits ↦
            let rest = rw fits at r1 in
            elim (Bool-cases (leb (costs.substitution q a) eta)) [
              | inl near ↦
                  let room : ltb (less + f) usize_limit ≡ true =
                    lt→ltb (less + f) usize_limit
                      (omega (arith, h, ltb→lt (c + f) usize_limit fits)) in
                  let (count, counted) =
                    scan_from-counted alphabet start (c + f) (less + f) t (omega (arith, h)) rest in
                  (count, rw near (rw (e1, room) counted))
              | inr far ↦
                  let (count, counted) =
                    scan_from-counted alphabet (min start (costs.substitution q a)) (c + f) less t
                      (omega (arith, h)) rest in
                  (count, rw far counted)
            ]
      ]

score_items-counted :
    (fl : Float) (index : PostingsIndex) (eta : Cost) (costs : EditCosts Symbol)
    (n : SubstitutionNeighborhood) (query : List Symbol)
    → IsCountable index n
    → (items : List Item) × (score_items fl index eta costs n query ≡ ok items)
unfolding score_items scan
score_items-counted fl index eta costs n [] h = ([], refl)
score_items-counted fl index eta costs n (q ∷ query) h =
    let (count, e) =
      scan_from-counted index q eta costs n.alphabet (costs.deletion q) 0 0 h.0 (omega arith) h.1 in
    let (items, f) = score_items-counted fl index eta costs n query h in
    (
      record {
        neighbors = (scan q eta costs n).0;
        contribution = (scan q eta costs n).1;
        candidate_count = fl.of_usize count;
        paid = 0;
        selected = false;
      }
          ∷ items,
      rw (e, f) refl,
    )

-- Where every substitution is within the radius, the way out is the deletion.
outside-deletion :
    (fl : Float) (top : Cost) (costs : EditCosts Symbol) (n : SubstitutionNeighborhood)
    (query : List Symbol)
    → ((q s : Symbol) → q ∈ query → s ∈ n.alphabet → costs.substitution q s ≤ top)
    → map (outside fl top costs n) query ≡ map costs.deletion query
outside-deletion fl top costs n [] h = refl
outside-deletion fl top costs n (q ∷ query) h =
    ap₂ (λ a b. a ∷ b)
      (elim (scan_lem q top costs n).1.2 [
        | inl same ↦ same
        | inr (s, i, far, e) ↦ absurd (omega (arith, far, h q s (inl refl) i))
      ])
      (outside-deletion fl top costs n query (λ r s hr hs. h r s (inr hr) hs))

module _ {ℓ} {T : Type ℓ} (fl : Float) (engine : SearchEngine T) (query : List Symbol)
    (bound : StrictBound) (costs : EditCosts Symbol) (frequencies : HasFrequencies engine.index)
    (short : length query ≤ u32_max) where
  -- The radius at an index selects.
  abbrev SelectsAt : List Cost → ℕ → Type 0
  SelectsAt radii i =
      (radius : Cost) × (get_elem? radii i ≡ some radius)
      × ((selected : List SelectedPosition) × (select_at fl engine query bound radius costs
            ≡ ok selected))

  -- The last of the radii is probed, unless one that selects is found before.
  narrow-finds :
      (fuel : ℕ) (radii : List Cost) (low high : ℕ) (narrowest : Option Selection)
      → high - low < fuel
      → high ≤ length radii
      → ((s : Selection) × (narrowest ≡ some s))
        ⊎ ((high ≡ length radii) × (low < high) × SelectsAt radii (length radii - 1))
      → (s : Selection) × (narrow fl engine fuel query bound costs radii low high narrowest
          ≡ ok (some s))
  unfolding narrow
  narrow-finds zero radii low high narrowest h l found = absurd (omega (arith, h))
  narrow-finds (suc fuel) radii low high narrowest h l found = elim (Bool-cases (ltb low high)) [
    | inr done ↦ elim found [
      | inl (s, there) ↦ (s, rw (done, there) refl)
      | inr (all, less, last) ↦ absurd (omega (arith, ltb→le low high done, less))
    ]
    | inl more ↦
        let middle = low + (high - low) / 2 in
        let inside = half-lt low high (ltb→lt low high more) in
        let (radius, at) = get_elem?_of_lt radii middle (omega (arith, inside, l)) in
        elim (select_at-Settles fl engine query bound costs frequencies short radius) [
          | inl (selected, es) ↦
              rw
                (round-ok fl engine query bound costs frequencies short fuel radii low high
                  narrowest radius selected more at es)
                (narrow-finds fuel radii low middle (some (selected, some radius))
                  (omega (arith, inside, h)) (omega (arith, inside, l))
                  (inl ((selected, some radius), refl)))
          | inr es ↦
              rw
                (round-err fl engine query bound costs frequencies short fuel radii low high
                  narrowest radius more at es)
                (narrow-finds fuel radii (middle + 1) high narrowest (omega (arith, inside, h)) l
                  (elim found [
                    | inl there ↦ inl there
                    | inr (all, less, last) ↦ elim (Bool-cases (ltb (middle + 1) high)) [
                      | inl again ↦ inr (all, ltb→lt (middle + 1) high again, last)
                      | inr over ↦ absurd (
                          probed radii middle radius at es
                            (omega (arith, inside, all, ltb→le (middle + 1) high over)) last)
                    ]
                  ]))
        ]
  ]
    where
      probed :
          (radii : List Cost) (middle radius : ℕ)
          → get_elem? radii middle ≡ some radius
          → select_at fl engine query bound radius costs
            ≡ err Error.threshold_subsequence_unavailable
          → middle ≡ length radii - 1
          → SelectsAt radii (length radii - 1)
          → ⊥
      probed radii middle radius at es same (top, at_top, (selected, et)) =
          let here : radius ≡ top =
            some-injective radius top
              (sym at ∙ subst (λ i. get_elem? radii i ≡ some top) (sym same) at_top) in
          err≢ok (
            sym es
            ∙ subst (λ r. select_at fl engine query bound r costs ≡ ok selected) (sym here) et)

not-false : (b : Bool) → not b ≡ true → b ≡ false
not-false b h = ground arith

module _ {ℓ} {T : Type ℓ} {fl : Float} (x : IsExact fl) (engine : SearchEngine T)
    (query : List Symbol) (bound : StrictBound) (costs : EditCosts Symbol)
    (g : HasGoodCosts x costs) (searchable : IsSearchable engine)
    (countable : IsCountable engine.index engine.neighborhood) (short : length query ≤ u32_max)
    (bound_good : x.IsGood bound) (bound_small : x.value bound ≤ x.limit)
    (can : any_radius_can_select fl query bound costs ≡ true) where
  -- A radius that reaches every substitution selects.
  reaching-selects :
      (radius : Cost)
      → ((q s : Symbol)
          → q ∈ query
          → s ∈ engine.neighborhood.alphabet
          → costs.substitution q s ≤ radius)
      → (selected : List SelectedPosition) × (select_at fl engine query bound radius costs
          ≡ ok selected)
  unfolding select_at any_radius_can_select
  reaching-selects radius reaches =
      let (items, scored) =
        score_items-counted fl engine.index radius costs engine.neighborhood query countable in
      (select_iff x radius costs g engine.neighborhood query bound engine.index items bound_good
          bound_small (indexed-HasFrequencies searchable) short scored).1
        (ap (λ cs. admits bound (sum_from fl 0 cs))
            (outside-deletion fl radius costs engine.neighborhood query reaches)
          ∙ not-false _ can)

  pub select_positions-finds :
      (eta : Cost) → (s : Selection) × (select_positions fl engine query bound eta costs ≡ ok s)
  unfolding select_positions is_unavailable
  select_positions-finds eta =
      elim (select_at-Settles fl engine query bound costs (indexed-HasFrequencies searchable) short
        eta) [
          | inl (selected, es) ↦ ((selected, none), rw (select_positions, es) refl)
          | inr es ↦ elim (wider_radii_lem query eta costs engine.neighborhood).2 [
            | inl (empty, reaches) ↦ absurd (err≢ok (sym es ∙ (reaching-selects eta reaches).1))
            | inr (top, at, reaches) ↦
                let radii = wider_radii query eta costs engine.neighborhood in
                let some_there = get_elem?-lt radii (length radii - 1) top at in
                let (s, found) =
                  narrow-finds fl engine query bound costs (indexed-HasFrequencies searchable) short
                    (suc (length radii)) radii 0 (length radii) none (omega arith) (omega arith)
                    (inr
                      (refl, omega (arith, some_there), (top, at, reaching-selects top reaches))) in
                (s, rw (select_positions, es, found) refl)
          ]
        ]

  -- A search that some radius can select for is never declined as unavailable: it ends with the exact
  -- answer, or with more candidates than the limit.
  pub search_query_string-IsAnswered :
      (max_candidates : Option ℕ)
      → bound < infinity
      → (eta : Cost)
      → IsAnswered x engine query bound costs g max_candidates eta
          (search_query_string fl engine query bound eta max_candidates costs)
        ⊎ IsTooExpensive x engine query bound costs g max_candidates eta
            (search_query_string fl engine query bound eta max_candidates costs)
  unfolding search_query_string
  search_query_string-IsAnswered max_candidates finite eta =
      let (s, es) = select_positions-finds eta in
      rw can (
        run_selection-of x engine query bound costs g max_candidates eta searchable short bound_good
          bound_small finite s es)
