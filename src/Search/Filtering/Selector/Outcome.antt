-- ===== src/Search/Filtering/Selector/Outcome.antt =====
-- src/search/filtering/candidate.rs: the selection ends, with positions or with the error that tells
-- that the radius has no subsequence. Each round selects one item that waits.
use yurine.Prelude.{
  ℕ, zero, suc, ◌+◌, ◌≤◌, ◌<◌, ◌≡◌, refl, List, [], ◌∷◌, ◌⊎◌, inl, inr, Bool-cases, false, arith,
  some, none, get_elem?, get_elem?-lt, length, Option-cases, ltb, if◌then◌else◌,
}
use yurine.Errors.{Result, ok, err, Error}
use yurine.Types.{Symbol, position_from_usize-of-lt, u32_max, usize_limit}
use yurine.Float.{Float}
use yurine.Costs.{Cost, EditCosts}
use yurine.Postings.{PostingsIndex, frequency}
use yurine.Search.Bound.{StrictBound, admits, residual}
use yurine.Search.Filtering.Neighborhood.{SubstitutionNeighborhood, scan}
use yurine.Search.Filtering.Selector.{
  SelectedPosition, Item, add_frequencies, score_items, is_open, find_best, pay_items,
  mark_selected, select_loop, select,
}
use yurine.Search.Filtering.Selector.Best.{best-found, pay_items-get, and-left, not-true}

abbrev unavailable : Error
unavailable = Error.threshold_subsequence_unavailable

-- A value, or the error that the radius has no subsequence: no other error, and no panic.
abbrev pub Settles {ℓ} : {A : Type ℓ} → Result A → Type ℓ
Settles {A = A} r = ((a : A) × (r ≡ ok a)) ⊎ (r ≡ err Error.threshold_subsequence_unavailable)

abbrev pub HasFrequencies : PostingsIndex → Type 0
HasFrequencies index = (s : Symbol) → (f : ℕ) × (frequency index s ≡ ok f)

abbrev waits : List Item → ℕ
waits [] = 0
waits (i ∷ is) = (if i.selected then 0 else 1) + waits is

waits-le : (is : List Item) → waits is ≤ length is
waits-le [] = omega arith
waits-le (i ∷ is) = ground (arith, waits-le is)

module _ (fl : Float) where
  waits-pay_items :
      (rest value : ℕ) (is : List Item) → waits (pay_items fl rest value is) ≡ waits is
  unfolding pay_items
  waits-pay_items rest value [] = refl
  waits-pay_items rest value (i ∷ is) = elim (Bool-cases (is_open fl rest i)) [
    | inl e ↦ rw e (omega (arith, waits-pay_items rest value is))
    | inr e ↦ rw e (omega (arith, waits-pay_items rest value is))
  ]

  length-pay_items :
      (rest value : ℕ) (is : List Item) → length (pay_items fl rest value is) ≡ length is
  unfolding pay_items
  length-pay_items rest value [] = refl
  length-pay_items rest value (i ∷ is) = omega (arith, length-pay_items rest value is)

  length-mark_selected : (is : List Item) (k : ℕ) → length (mark_selected fl is k) ≡ length is
  unfolding mark_selected
  length-mark_selected [] k = refl
  length-mark_selected (i ∷ is) zero = refl
  length-mark_selected (i ∷ is) (suc k) = omega (arith, length-mark_selected is k)

  waits-mark_selected :
      (is : List Item) (k : ℕ) (i : Item)
      → get_elem? is k ≡ some i
      → i.selected ≡ false
      → suc (waits (mark_selected fl is k)) ≡ waits is
  unfolding mark_selected
  waits-mark_selected [] k i e o = cc
  waits-mark_selected (j ∷ is) zero i e o =
      let same : j ≡ i = cc in let open_ : j.selected ≡ false = rw same o in rw open_ (omega arith)
  waits-mark_selected (j ∷ is) (suc k) i e o = omega (arith, waits-mark_selected is k i e o)

  -- The fuel is enough: a round more than the items that wait.
  select_loop-Settles :
      (fuel : ℕ) (bound : StrictBound) (is : List Item) (total : ℕ)
      (selected : List SelectedPosition)
      → waits is < fuel
      → length is ≤ u32_max
      → Settles (select_loop fl fuel bound is total selected)
  unfolding select_loop
  select_loop-Settles zero bound is total selected h l = absurd (omega (arith, h))
  select_loop-Settles (suc fuel) bound is total selected h l =
      elim (Bool-cases (admits bound total)) [
        | inr done ↦ rw done (inl (selected, refl))
        | inl more ↦
            let rest = residual fl bound total in
            elim (Option-cases (find_best fl rest 0 is none)) [
              | inl nothing ↦ rw more (rw nothing (inr refl))
              | inr (best, found) ↦
                  let (k, i, at, there, open_) = best-found fl rest is best found in
                  let (j, gj, oj) =
                    pay_items-get fl rest best.1 is k i there
                      (not-true i.selected (and-left _ _ open_)) in
                  let paid = pay_items fl rest best.1 is in
                  let here : k ≡ best.0 = omega (arith, at) in
                  let gj' : get_elem? paid best.0 ≡ some j = rw (← here) gj in
                  let fewer = waits-mark_selected paid best.0 j gj' oj in
                  let inside : best.0 < u32_max =
                    omega (arith, here, get_elem?-lt is k i there, l) in
                  rw more (
                    rw (found, position_from_usize-of-lt best.0 inside)
                      (select_loop-Settles fuel bound (mark_selected fl paid best.0) _ _
                        (omega (arith, fewer, waits-pay_items rest best.1 is, h))
                        (omega (
                          arith,
                          length-mark_selected paid best.0,
                          length-pay_items rest best.1 is,
                          l,
                        ))))
            ]
      ]

  add_frequencies-Settles :
      (index : PostingsIndex) (count : ℕ) (ss : List Symbol)
      → HasFrequencies index
      → Settles (add_frequencies index count ss)
  unfolding add_frequencies
  add_frequencies-Settles index count [] h = inl (count, refl)
  add_frequencies-Settles index count (s ∷ ss) h =
      let (f, e) = h s in
      elim (Bool-cases (ltb (count + f) usize_limit)) [
        | inl y ↦ rw (e, y) (add_frequencies-Settles index (count + f) ss h)
        | inr n ↦ rw (e, n) (inr refl)
      ]

  module _ (eta : Cost) (costs : EditCosts Symbol) (n : SubstitutionNeighborhood)
      (index : PostingsIndex) (frequencies : HasFrequencies index) where
    score_items-Settles :
        (query : List Symbol)
        → ((is : List Item) × (score_items fl index eta costs n query ≡ ok is)
            × (length is ≡ length query))
          ⊎ (score_items fl index eta costs n query ≡ err unavailable)
    unfolding score_items
    score_items-Settles [] = inl ([], refl, refl)
    score_items-Settles (q ∷ query) =
        elim (add_frequencies-Settles index 0 (scan q eta costs n).0 frequencies) [
          | inr e ↦ inr (rw e refl)
          | inl (count, e) ↦ elim (score_items-Settles query) [
            | inr r ↦ inr (rw (e, r) refl)
            | inl (is, r, l) ↦ inl (
              record {
                neighbors = (scan q eta costs n).0;
                contribution = (scan q eta costs n).1;
                candidate_count = fl.of_usize count;
                paid = 0;
                selected = false;
              }
                  ∷ is,
              rw (e, r) refl,
              omega (arith, l),
            )
          ]
        ]

    -- A selection ends with positions or with the error that the radius has no subsequence.
    pub select-Settles :
        (query : List Symbol) (bound : StrictBound)
        → length query ≤ u32_max
        → Settles (select fl query bound eta index costs n)
    unfolding select
    select-Settles query bound h = elim (score_items-Settles query) [
      | inr e ↦ inr (rw e refl)
      | inl (is, e, l) ↦ rw e (
          select_loop-Settles (suc (length is)) bound is 0 [] (omega (arith, waits-le is))
            (omega (arith, l, h)))
    ]
