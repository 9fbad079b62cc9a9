-- ===== src/Search/Filtering/Selector/Rounds.antt =====
-- src/search/filtering/candidate.rs: the invariant of the selection rounds. Each item keeps the
-- contribution and the neighbors of its query position, and each selected one is in the result.
use mathlib.Core.Path.{subst₂}
use yurine.Prelude.{
  ℕ, zero, suc, ◌+◌, ◌≡◌, refl, sym, ap, ◌∙◌, List, [], ◌∷◌, ◌++◌, ◌∈◌, inl, inr, Bool-cases, true,
  false, arith, subst, some, none, get_elem?, length, All,
}
use yurine.Errors.{ok, Error, >>=-eq-ok, ok_or, ok-injective}
use yurine.Types.{Symbol, position_from_usize}
use yurine.Float.{Float}
use yurine.Costs.{Cost, EditCosts}
use yurine.Postings.{PostingsIndex}
use yurine.Search.Bound.{StrictBound, admits, residual}
use yurine.Search.Filtering.Neighborhood.{SubstitutionNeighborhood, scan}
use yurine.Search.Filtering.Eta.{sum_from}
use yurine.Search.Filtering.Selector.Best.{
  ∈-append, ∈-last, and-left, ok_or-eq-ok, position_from_usize-eq, not-true, All-snoc,
  pay_items-get, best-found,
}
use yurine.Search.Filtering.Selector.{
  SelectedPosition, Item, add_frequencies, selected_contributions, score_items, is_open, find_best,
  pay_items, take_neighbors, mark_selected, select_loop, select,
}

module _ (fl : Float) (eta : Cost) (costs : EditCosts Symbol) (n : SubstitutionNeighborhood) where
  abbrev pub near : Symbol → List Symbol
  near q = (scan q eta costs n).0

  abbrev pub outside : Symbol → Cost
  outside q = (scan q eta costs n).1

  pub record IsSelected (selected : List SelectedPosition) (p : ℕ) (q : Symbol) : Type 0 where
    pub entry : SelectedPosition
    pub listed : entry ∈ selected
    pub at_position : entry.position ≡ p
    pub has_near : entry.neighbors ≡ near q

  pub record IsScored (selected : List SelectedPosition) (p : ℕ) (q : Symbol) (i : Item)
      : Type 0 where
    pub contributes : i.contribution ≡ outside q
    pub chosen : i.selected ≡ true → IsSelected selected p q
    pub waiting : i.selected ≡ false → i.neighbors ≡ near q

  -- The items from the position `p` on are those of the query's symbols.
  abbrev pub AreScored : List SelectedPosition → ℕ → List Symbol → List Item → Type 0
  AreScored selected p [] [] = Unit
  AreScored selected p [] (i ∷ is) = ⊥
  AreScored selected p (q ∷ qs) [] = ⊥
  AreScored selected p (q ∷ qs) (i ∷ is) =
      IsScored selected p q i × AreScored selected (suc p) qs is

  AreScored-append :
      (selected more : List SelectedPosition) (p : ℕ) (qs : List Symbol) (is : List Item)
      → AreScored selected p qs is
      → AreScored (selected ++ more) p qs is
  AreScored-append selected more p [] [] h = tt
  AreScored-append selected more p [] (i ∷ is) h = absurd h
  AreScored-append selected more p (q ∷ qs) [] h = absurd h
  AreScored-append selected more p (q ∷ qs) (i ∷ is) h = (
    record {
      contributes = h.0.contributes;
      chosen = λ e. record {
        entry = (h.0.chosen e).entry;
        listed = ∈-append _ selected more (h.0.chosen e).listed;
        at_position = (h.0.chosen e).at_position;
        has_near = (h.0.chosen e).has_near;
      };
      waiting = h.0.waiting;
    },
    AreScored-append selected more (suc p) qs is h.1,
  )

  pay_items-AreScored :
      (selected : List SelectedPosition) (rest value p : ℕ) (qs : List Symbol) (is : List Item)
      → AreScored selected p qs is
      → AreScored selected p qs (pay_items fl rest value is)
  unfolding pay_items
  pay_items-AreScored selected rest value p [] [] h = tt
  pay_items-AreScored selected rest value p [] (i ∷ is) h = absurd h
  pay_items-AreScored selected rest value p (q ∷ qs) [] h = absurd h
  pay_items-AreScored selected rest value p (q ∷ qs) (i ∷ is) h =
      elim (Bool-cases (is_open fl rest i)) [
        | inl e ↦ rw e (
          record { contributes = h.0.contributes; chosen = h.0.chosen; waiting = h.0.waiting },
          pay_items-AreScored selected rest value (suc p) qs is h.1,
        )
        | inr e ↦ rw e (h.0, pay_items-AreScored selected rest value (suc p) qs is h.1)
      ]

  mark_selected-AreScored :
      (selected : List SelectedPosition) (p : ℕ) (qs : List Symbol) (is : List Item) (k : ℕ)
      (i : Item)
      → AreScored selected p qs is
      → get_elem? is k ≡ some i
      → i.selected ≡ false
      → AreScored
          (selected ++ record { position = p + k; neighbors = take_neighbors fl is k } ∷ [])
          p
          qs
          (mark_selected fl is k)
  unfolding mark_selected take_neighbors
  mark_selected-AreScored selected p [] [] k i h e o = tt
  mark_selected-AreScored selected p [] (j ∷ is) k i h e o = absurd h
  mark_selected-AreScored selected p (q ∷ qs) [] k i h e o = absurd h
  mark_selected-AreScored selected p (q ∷ qs) (j ∷ is) zero i h e o =
      let same : j ≡ i = cc in
      let open_ : j.selected ≡ false = rw same o in
      (
        record {
          contributes = h.0.contributes;
          chosen = λ _. record {
            entry = record { position = p + 0; neighbors = j.neighbors };
            listed = ∈-last _ selected;
            at_position = omega arith;
            has_near = h.0.waiting open_;
          };
          waiting = λ bad. cc;
        },
        AreScored-append selected _ (suc p) qs is h.1,
      )
  mark_selected-AreScored selected p (q ∷ qs) (j ∷ is) (suc k) i h e o =
      let rec = mark_selected-AreScored selected (suc p) qs is k i h.1 e o in
      let e' : suc p + k ≡ p + suc k = omega arith in
      (
        (AreScored-append selected
            (record { position = p + suc k; neighbors = take_neighbors fl is k } ∷ []) p (q ∷ [])
            (j ∷ []) (h.0, tt)).0,
        subst
            (λ t.
              AreScored
                (selected ++ record { position = t; neighbors = take_neighbors fl is k } ∷ [])
                (suc p) qs (mark_selected fl is k))
            e' rec,
      )

  -- A selected position lies in the query and carries its neighborhood.
  pub record IsEntry (query : List Symbol) (v : SelectedPosition) : Type 0 where
    pub symbol : Symbol
    pub at_query : get_elem? query v.position ≡ some symbol
    pub near_symbol : v.neighbors ≡ near symbol

  take_neighbors_lem :
      (selected : List SelectedPosition) (p : ℕ) (qs : List Symbol) (is : List Item) (k : ℕ)
      (i : Item)
      → AreScored selected p qs is
      → get_elem? is k ≡ some i
      → i.selected ≡ false
      → (q : Symbol) × (get_elem? qs k ≡ some q) × (take_neighbors fl is k ≡ near q)
  unfolding take_neighbors
  take_neighbors_lem selected p [] [] k i h e o = cc
  take_neighbors_lem selected p [] (j ∷ is) k i h e o = absurd h
  take_neighbors_lem selected p (q ∷ qs) [] k i h e o = absurd h
  take_neighbors_lem selected p (q ∷ qs) (j ∷ is) zero i h e o =
      let same : j ≡ i = cc in (q, refl, h.0.waiting (rw same o))
  take_neighbors_lem selected p (q ∷ qs) (j ∷ is) (suc k) i h e o =
      take_neighbors_lem selected (suc p) qs is k i h.1 e o

  -- The chosen items contribute what the bound does not admit.
  pub record IsSelection (query : List Symbol) (bound : StrictBound)
      (selected : List SelectedPosition) : Type 0 where
    pub items : List Item
    pub scored : AreScored selected 0 query items
    pub entries : All (IsEntry query) selected
    pub enough : admits bound (sum_from fl 0 (selected_contributions items)) ≡ false

  abbrev pub paid_items : ℕ → ℕ × ℕ → List Item → List Item
  paid_items rest best is = pay_items fl rest best.1 is

  abbrev pub after_round : ℕ → ℕ × ℕ → List Item → List Item
  after_round rest best is = mark_selected fl (paid_items rest best is) best.0

  abbrev pub entry_of_round : ℕ → ℕ × ℕ → List Item → ℕ → SelectedPosition
  entry_of_round rest best is position = record {
    position = position;
    neighbors = take_neighbors fl (paid_items rest best is) best.0;
  }

  -- A round keeps the items scored, and adds an entry.
  pub round-AreScored :
      (selected : List SelectedPosition) (query : List Symbol) (rest : ℕ) (is : List Item)
      (best : ℕ × ℕ) (position : ℕ)
      → AreScored selected 0 query is
      → find_best fl rest 0 is none ≡ some best
      → position_from_usize best.0 ≡ ok position
      → AreScored
          (selected ++ entry_of_round rest best is position ∷ [])
          0
          query
          (after_round rest best is)
        × IsEntry query (entry_of_round rest best is position)
  round-AreScored selected query rest is best position h found_best ep =
      let (k, i, at, found, open_) = best-found fl rest is best found_best in
      let (j, gj, oj) =
        pay_items-get fl rest best.1 is k i found (not-true i.selected (and-left _ _ open_)) in
      let paid = paid_items rest best is in
      let payed = pay_items-AreScored selected rest best.1 0 query is h in
      let marked = mark_selected-AreScored selected 0 query paid k j payed gj oj in
      let (q, eq, nq) = take_neighbors_lem selected 0 query paid k j payed gj oj in
      let here : k ≡ best.0 = omega (arith, at) in
      let position_same : position ≡ k =
        omega (arith, position_from_usize-eq best.0 position ep, at) in
      (
        subst₂
            (λ m t.
              AreScored
                (selected ++ record { position = t; neighbors = take_neighbors fl paid m } ∷ []) 0
                query (mark_selected fl paid m))
            here (omega (arith, position_from_usize-eq best.0 position ep, at)) marked,
        record {
          symbol = q;
          at_query = ap (get_elem? query) position_same ∙ eq;
          near_symbol = ap (take_neighbors fl paid) (sym here) ∙ nq;
        },
      )

  select_loop-IsSelection :
      (fuel : ℕ) (query : List Symbol) (bound : StrictBound) (is : List Item) (total : ℕ)
      (selected : List SelectedPosition) (result : List SelectedPosition)
      → total ≡ sum_from fl 0 (selected_contributions is)
      → AreScored selected 0 query is
      → All (IsEntry query) selected
      → select_loop fl fuel bound is total selected ≡ ok result
      → IsSelection query bound result
  unfolding select_loop
  select_loop-IsSelection zero query bound is total selected result t h es e = cc
  select_loop-IsSelection (suc fuel) query bound is total selected result t h es e =
      elim (Bool-cases (admits bound total)) [
        | inr done ↦
            let same : ok selected ≡ ok result = rw done at e in
            let same' : selected ≡ result = ok-injective same in
            record {
              items = is;
              scored = subst (λ s. AreScored s 0 query is) same' h;
              entries = subst (All (IsEntry query)) same' es;
              enough = subst (λ s. admits bound s ≡ false) t done;
            }
        | inl more ↦
            let rest = residual fl bound total in
            let (best, eb, r1) =
              >>=-eq-ok
                (ok_or (find_best fl rest 0 is none) Error.threshold_subsequence_unavailable) _
                (rw more at e) in
            let (position, ep, r2) = >>=-eq-ok (position_from_usize best.0) _ r1 in
            let (marked, entry) =
              round-AreScored selected query rest is best position h
                (ok_or-eq-ok (find_best fl rest 0 is none) _ best eb) ep in
            select_loop-IsSelection fuel query bound (after_round rest best is) _ _ result refl
              marked (All-snoc (IsEntry query) selected _ es entry) r2
      ]

  pub score_items-AreScored :
      (index : PostingsIndex) (p : ℕ) (query : List Symbol) (is : List Item)
      → score_items fl index eta costs n query ≡ ok is
      → AreScored [] p query is × (selected_contributions is ≡ [])
  unfolding score_items selected_contributions
  score_items-AreScored index p [] is e =
      subst (λ t. AreScored [] p [] t × (selected_contributions t ≡ [])) (ok-injective e) (tt, refl)
  score_items-AreScored index p (q ∷ query) is e =
      let (count, e1, r1) = >>=-eq-ok (add_frequencies index 0 (near q)) _ e in
      let (more, e2, r2) = >>=-eq-ok (score_items fl index eta costs n query) _ r1 in
      let (h, none_yet) = score_items-AreScored index (suc p) query more e2 in
      subst (λ t. AreScored [] p (q ∷ query) t × (selected_contributions t ≡ [])) (ok-injective r2)
        ((record { contributes = refl; chosen = λ bad. cc; waiting = λ _. refl }, h), none_yet)

  -- A selection that succeeds chooses query positions, each with its neighborhood, of which the
  -- contributions, added in query order, leave the bound.
  pub select-IsSelection :
      (query : List Symbol) (bound : StrictBound) (index : PostingsIndex)
      (result : List SelectedPosition)
      → select fl query bound eta index costs n ≡ ok result
      → IsSelection query bound result
  unfolding select sum_from
  select-IsSelection query bound index result e =
      let (is, e1, r1) = >>=-eq-ok (score_items fl index eta costs n query) _ e in
      let (h, none_yet) = score_items-AreScored index 0 query is e1 in
      select_loop-IsSelection (suc (length is)) query bound is 0 [] result (rw none_yet) h tt r1
