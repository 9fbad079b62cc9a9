-- ===== src/Search/Filtering/Selector/Enough.antt =====
-- src/search/filtering/candidate.rs: the selection finds positions wherever the query's ways out of
-- its neighborhoods together leave the bound.
use yurine.Prelude.{
  ℕ, zero, suc, ◌≤◌, ◌<◌, ◌≡◌, refl, sym, ap, ◌∙◌, subst, min, List, [], ◌∷◌, ◌++◌, ◌⊎◌, inl, inr,
  Bool-cases, Bool, true, false, arith, Option, some, none, Option-cases, ltb, ltb→lt, ltb→le,
  le→ltb, ◌↔◌, if◌then◌else◌, All, map, length, some≢none, true≢false,
}
use native.Mathlib.Decide.{dec_le}
use yurine.Errors.{Result, ok, err, Error, ◌>>=◌}
use yurine.Types.{Symbol, position_from_usize, u32_max}
use yurine.Float.{Float}
use yurine.Float.Laws.{IsExact}
use yurine.Costs.{Cost, EditCosts}
use yurine.Postings.{PostingsIndex}
use yurine.Search.Bound.{StrictBound, admits, residual}
use yurine.Search.Filtering.Neighborhood.{SubstitutionNeighborhood}
use yurine.Search.Filtering.Eta.{sum_from}
use yurine.Search.Filtering.Selector.{
  SelectedPosition, Item, selected_contributions, score_items, improves, item_value, is_open,
  find_best, select_loop, select,
}
use yurine.Search.Filtering.Selector.Outcome.{HasFrequencies, select-Settles}
use yurine.Search.Filtering.Selector.Rounds.{
  IsSelection, select-IsSelection, score_items-AreScored, AreScored, outside, round-AreScored,
  after_round, entry_of_round,
}
use yurine.Search.Verification.Distances.{HasGoodCosts}
use yurine.Search.Filtering.Pigeonhole.{
  outside-IsGood, exact_sum, sum_from-near, contributions-good,
}

over≢ :
    {A : Type 0}
    → ◌≡◌ {A = Result A} (err Error.position_overflow) (err Error.threshold_subsequence_unavailable)
    → ⊥
over≢ e = cc

position_from_usize-cases :
    (p : ℕ) → (position_from_usize p ≡ ok p) ⊎ (position_from_usize p ≡ err Error.position_overflow)
unfolding position_from_usize
position_from_usize-cases p = elim (Bool-cases (ltb u32_max p)) [
  | inl y ↦ rw y (inr refl)
  | inr n ↦ rw n (inl refl)
]

module _ (fl : Float) where
  abbrev AreClosed : ℕ → List Item → Type 0
  AreClosed rest is = All (λ i. is_open fl rest i ≡ false) is

  -- A round finds nothing only where no item is open.
  find_best-none :
      (rest pos : ℕ) (is : List Item) (best : Option (ℕ × ℕ))
      → find_best fl rest pos is best ≡ none
      → (best ≡ none) × AreClosed rest is
  unfolding find_best
  find_best-none rest pos [] best e = (e, tt)
  find_best-none rest pos (i ∷ is) best e =
      let value = item_value fl i (min i.contribution rest) in
      let (next, closed) = find_best-none rest (suc pos) is _ e in
      elim (Bool-cases (is_open fl rest i)) [
        | inr shut ↦ (rw shut at next, (shut, closed))
        | inl open_ ↦ elim (Option-cases best) [
          | inl nothing ↦ absurd (some≢none (rw (open_, nothing) at next))
          | inr (b, there) ↦
              absurd (kept b (pos, value) (improves fl (some b) value) (rw (open_, there) at next))
        ]
      ]
    where
      kept : (b c : ℕ × ℕ) (better : Bool) → (if better then some c else some b) ≡ none → ⊥
      kept b c true h = some≢none h
      kept b c false h = some≢none h

  closed-cases :
      (rest : ℕ) (i : Item)
      → 0 < rest
      → is_open fl rest i ≡ false
      → (i.selected ≡ true) ⊎ (i.contribution ≡ 0)
  closed-cases rest i h e = ground arith

module _ {fl : Float} (x : IsExact fl) (eta : Cost) (costs : EditCosts Symbol)
    (g : HasGoodCosts x costs) (n : SubstitutionNeighborhood) where
  -- What the query positions contribute if all of them are selected.
  abbrev pub all_contributions : List Symbol → List ℕ
  all_contributions query = map (outside fl eta costs n) query

  sum-IsGood :
      (selected : List SelectedPosition) (p : ℕ) (total : ℕ) (qs : List Symbol) (is : List Item)
      → x.IsGood total
      → AreScored fl eta costs n selected p qs is
      → x.IsGood (sum_from fl total (selected_contributions is))
  unfolding sum_from selected_contributions
  sum-IsGood selected p total [] [] t h = t
  sum-IsGood selected p total [] (i ∷ is) t h = absurd h
  sum-IsGood selected p total (q ∷ qs) [] t h = absurd h
  sum-IsGood selected p total (q ∷ qs) (i ∷ is) t h = elim (Bool-cases i.selected) [
    | inr out ↦ rw out (sum-IsGood selected (suc p) total qs is t h.1)
    | inl chosen ↦
        let good : x.IsGood i.contribution =
          subst x.IsGood (sym h.0.contributes) (outside-IsGood x eta costs g n q) in
        rw chosen (
          sum-IsGood selected (suc p) (fl.add total i.contribution) qs is
            (x.add-IsGood total i.contribution t good) h.1)
  ]

  -- Where no item is open, the items that are not selected contribute nothing.
  closed-sum :
      (selected : List SelectedPosition) (p rest total : ℕ) (qs : List Symbol) (is : List Item)
      → 0 < rest
      → x.IsGood total
      → AreScored fl eta costs n selected p qs is
      → AreClosed fl rest is
      → sum_from fl total (selected_contributions is) ≡ sum_from fl total (all_contributions qs)
  unfolding sum_from selected_contributions
  closed-sum selected p rest total [] [] r t h c = refl
  closed-sum selected p rest total [] (i ∷ is) r t h c = absurd h
  closed-sum selected p rest total (q ∷ qs) [] r t h c = absurd h
  closed-sum selected p rest total (q ∷ qs) (i ∷ is) r t h c =
      let same : i.contribution ≡ outside fl eta costs n q = h.0.contributes in
      let good : x.IsGood i.contribution =
        subst x.IsGood (sym same) (outside-IsGood x eta costs g n q) in
      let taken : sum_from fl (fl.add total i.contribution) (selected_contributions is)
          ≡ sum_from fl (fl.add total i.contribution) (all_contributions qs) =
        closed-sum selected (suc p) rest (fl.add total i.contribution) qs is r
          (x.add-IsGood total i.contribution t good) h.1 c.1 in
      let left : sum_from fl total (selected_contributions is)
          ≡ sum_from fl total (all_contributions qs) =
        closed-sum selected (suc p) rest total qs is r t h.1 c.1 in
      elim (Bool-cases i.selected) [
        | inl chosen ↦ rw (chosen, ← same) taken
        | inr out ↦ elim (closed-cases fl rest i r c.0) [
          | inl bad ↦ absurd (true≢false (sym bad ∙ out))
          | inr nothing ↦ rw out (
              left
              ∙ ap (λ w. sum_from fl w (all_contributions qs))
                  (sym (ap (fl.add total) (sym same ∙ nothing) ∙ x.add-zero total t)))
        ]
      ]

  residual-lt :
      (bound total : ℕ)
      → x.IsGood bound
      → x.IsGood total
      → x.value bound ≤ x.limit
      → total < bound
      → 0 < residual fl bound total
  unfolding residual
  residual-lt bound total gb gt small lt = elim (dec_le (fl.sub bound total) 0) [
    | no above ↦ omega (arith, above)
    | yes zero_ ↦
        let none_left : fl.sub bound total ≡ 0 = omega (arith, zero_) in
        let v = x.value-sub bound total gb gt small lt in
        let v0 : x.value (fl.sub bound total) ≡ 0 = ap x.value none_left ∙ x.value-zero in
        absurd (omega (arith, x.value-reflects bound total (omega (arith, v, v0)), lt))
  ]

  -- The loop fails only where all contributions together stay within the bound.
  select_loop-fails :
      (fuel : ℕ) (query : List Symbol) (bound : StrictBound) (is : List Item) (total : ℕ)
      (selected : List SelectedPosition)
      → x.IsGood bound
      → x.value bound ≤ x.limit
      → total ≡ sum_from fl 0 (selected_contributions is)
      → AreScored fl eta costs n selected 0 query is
      → select_loop fl fuel bound is total selected ≡ err Error.threshold_subsequence_unavailable
      → admits bound (sum_from fl 0 (all_contributions query)) ≡ true
  unfolding select_loop admits
  select_loop-fails zero query bound is total selected gb small t h e = cc
  select_loop-fails (suc fuel) query bound is total selected gb small t h e =
      elim (Bool-cases (admits bound total)) [
        | inr done ↦ cc (rw done at e)
        | inl more ↦
            let rest = residual fl bound total in
            elim (Option-cases (find_best fl rest 0 is none)) [
              | inl nothing ↦
                  let total_good : x.IsGood total =
                    subst x.IsGood (sym t) (sum-IsGood selected 0 0 query is x.zero-IsGood h) in
                  let closed = (find_best-none fl rest 0 is none nothing).1 in
                  let sums =
                    closed-sum selected 0 rest 0 query is
                      (residual-lt bound total gb total_good small (ltb→lt total bound more))
                      x.zero-IsGood h closed in
                  subst (λ w. admits bound w ≡ true) (t ∙ sums) more
              | inr (best, found) ↦ elim (position_from_usize-cases best.0) [
                | inr over ↦ absurd (over≢ (rw (more, found, over, ◌>>=◌) at e))
                | inl fits ↦
                    select_loop-fails fuel query bound (after_round fl eta costs n rest best is) _
                      (selected ++ entry_of_round fl eta costs n rest best is best.0 ∷ []) gb small
                      refl
                      (round-AreScored fl eta costs n selected query rest is best best.0 h found
                        fits).0
                      (rw (more, found, fits, ◌>>=◌) at e)
              ]
            ]
      ]

  selected-le-all :
      (selected : List SelectedPosition) (p : ℕ) (qs : List Symbol) (is : List Item)
      → AreScored fl eta costs n selected p qs is
      → exact_sum x (selected_contributions is) ≤ exact_sum x (all_contributions qs)
  unfolding selected_contributions
  selected-le-all selected p [] [] h = omega arith
  selected-le-all selected p [] (i ∷ is) h = absurd h
  selected-le-all selected p (q ∷ qs) [] h = absurd h
  selected-le-all selected p (q ∷ qs) (i ∷ is) h = elim (Bool-cases i.selected) [
    | inr out ↦ rw out (omega (arith, selected-le-all selected (suc p) qs is h.1))
    | inl chosen ↦
        let same : x.value i.contribution ≡ x.value (outside fl eta costs n q) =
          ap x.value h.0.contributes in
        rw chosen (omega (arith, same, selected-le-all selected (suc p) qs is h.1))
  ]

  all_contributions-IsGood : (qs : List Symbol) → All x.IsGood (all_contributions qs)
  all_contributions-IsGood [] = tt
  all_contributions-IsGood (q ∷ qs) =
      (outside-IsGood x eta costs g n q, all_contributions-IsGood qs)

  -- A selection of good contributions leaves the bound only if all of them together do.
  selection-enough :
      (query : List Symbol) (bound : StrictBound) (result : List SelectedPosition)
      → x.value bound ≤ x.limit
      → IsSelection fl eta costs n query bound result
      → admits bound (sum_from fl 0 (all_contributions query)) ≡ false
  unfolding admits
  selection-enough query bound result small s =
      le→ltb (sum_from fl 0 (all_contributions query)) bound (
        x.value-reflects bound (sum_from fl 0 (all_contributions query)) (
          omega (
            arith,
            small,
            x.value-mono bound (sum_from fl 0 (selected_contributions s.items))
                (ltb→le _ bound s.enough),
            sum_from-near x 0 (selected_contributions s.items) x.zero-IsGood
                (contributions-good x eta costs g n result 0 query s.items s.scored),
            sum_from-near x 0 (all_contributions query) x.zero-IsGood
                (all_contributions-IsGood query),
            selected-le-all result 0 query s.items s.scored,
          )))

  -- Where the candidates of every position can be counted, a selection succeeds just when the query
  -- positions all together contribute what the bound does not admit.
  pub select_iff :
      (query : List Symbol) (bound : StrictBound) (index : PostingsIndex) (items : List Item)
      → x.IsGood bound
      → x.value bound ≤ x.limit
      → HasFrequencies index
      → length query ≤ u32_max
      → score_items fl index eta costs n query ≡ ok items
      → ((result : List SelectedPosition) × (select fl query bound eta index costs n ≡ ok result))
        ↔ (admits bound (sum_from fl 0 (all_contributions query)) ≡ false)
  unfolding select
  select_iff query bound index items gb small frequencies short scored = (
    λ s.
        selection-enough query bound s.0 small
          (select-IsSelection fl eta costs n query bound index s.0 s.1),
    λ enough. elim (select-Settles fl eta costs n index frequencies query bound short) [
      | inl found ↦ found
      | inr fails ↦
          let (h, nothing) = score_items-AreScored fl eta costs n index 0 query items scored in
          absurd (
            true≢false (
              sym (
                select_loop-fails (suc (length items)) query bound items 0 [] gb small
                  (ap (sum_from fl 0) (sym nothing)) h (rw scored at fails))
              ∙ enough))
    ],
  )
