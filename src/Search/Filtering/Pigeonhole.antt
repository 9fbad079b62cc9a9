-- ===== src/Search/Filtering/Pigeonhole.antt =====
-- src/search/filtering/candidate.rs: an alignment that the bound admits cannot avoid every selected
-- position, for avoiding them all costs their contributions together.
use yurine.Prelude.{
  ℕ, suc, ◌+◌, ◌≤◌, ◌<◌, ◌≡◌, refl, sym, ap, min, List, [], ◌∷◌, ◌++◌, ◌∈◌, ◌⊎◌, inl, inr,
  Bool-cases, arith, subst, length, All, ltb→le,
}
use yurine.Types.{Symbol}
use yurine.Float.{Float}
use yurine.Float.Laws.{IsExact}
use yurine.Costs.{Cost, EditCosts}
use yurine.Search.Bound.{StrictBound, admits}
use yurine.Search.Filtering.Neighborhood.{SubstitutionNeighborhood}
use yurine.Search.Filtering.Neighborhood.Scan.{scan_lem, scan-or-dear}
use yurine.Search.Filtering.Eta.{sum_from}
use yurine.Search.Filtering.Selector.{SelectedPosition, Item, selected_contributions}
use yurine.Search.Filtering.Selector.Rounds.{IsSelected, AreScored, IsSelection, near, outside}
use yurine.Search.Verification.Alignment.{
  Alignment, done, substitute, delete, insert, price, wed, wed-le-price, wed-insert-le,
  wed-delete-le, wed-substitute-le,
}
use yurine.Search.Verification.Distances.{HasGoodCosts, exact}

module _ {fl : Float} (x : IsExact fl) where
  abbrev pub exact_sum : List ℕ → ℕ
  exact_sum [] = 0
  exact_sum (c ∷ cs) = x.value c + exact_sum cs

  -- A sum of good patterns is the exact one, up to the limit.
  pub sum_from-near :
      (total : ℕ) (cs : List ℕ)
      → x.IsGood total
      → All x.IsGood cs
      → min (x.value (sum_from fl total cs)) x.limit ≡ min (x.value total + exact_sum cs) x.limit
  unfolding sum_from
  sum_from-near total [] g gs = omega arith
  sum_from-near total (c ∷ cs) g gs = omega (
    arith,
    sum_from-near (fl.add total c) cs (x.add-IsGood total c g gs.0) gs.1,
    x.value-add total c g gs.0,
  )

module _ {fl : Float} (x : IsExact fl) (eta : Cost) (costs : EditCosts Symbol)
    (g : HasGoodCosts x costs) (n : SubstitutionNeighborhood) where
  abbrev dist : List Symbol → List Symbol → ℕ
  dist = wed (exact x costs)

  pub outside-IsGood : (q : Symbol) → x.IsGood (outside fl eta costs n q)
  outside-IsGood q = elim (scan_lem q eta costs n).1.2 [
    | inl e ↦ subst x.IsGood (sym e) (g.deletion_good q)
    | inr (s, i, far, e) ↦ subst x.IsGood (sym e) (g.substitution_good q s)
  ]

  outside-le-deletion :
      (q : Symbol) → x.value (outside fl eta costs n q) ≤ x.value (costs.deletion q)
  outside-le-deletion q = x.value-mono _ _ (scan_lem q eta costs n).1.0

  pub contributions-good :
      (selected : List SelectedPosition) (p : ℕ) (qs : List Symbol) (is : List Item)
      → AreScored fl eta costs n selected p qs is
      → All x.IsGood (selected_contributions is)
  unfolding selected_contributions
  contributions-good selected p [] [] h = tt
  contributions-good selected p [] (i ∷ is) h = absurd h
  contributions-good selected p (q ∷ qs) [] h = absurd h
  contributions-good selected p (q ∷ qs) (i ∷ is) h = elim (Bool-cases i.selected) [
    | inl e ↦ rw e (
      subst x.IsGood (sym h.0.contributes) (outside-IsGood q),
      contributions-good selected (suc p) qs is h.1,
    )
    | inr e ↦ rw e (contributions-good selected (suc p) qs is h.1)
  ]

  -- A substitution of a selected position's query symbol by one of its neighbors, with the parts
  -- around it no dearer than `cost` together.
  pub record IsMet (selected : List SelectedPosition) (p : ℕ) (qs ss : List Symbol) (cost : ℕ)
      : Type 0 where
    pub before : List Symbol
    pub after : List Symbol
    pub sl : List Symbol
    pub sr : List Symbol
    pub q : Symbol
    pub s : Symbol
    pub query_splits : qs ≡ before ++ q ∷ after
    pub segment_splits : ss ≡ sl ++ s ∷ sr
    pub selected_here : IsSelected fl eta costs n selected (p + length before) q
    pub neighbor : s ∈ near fl eta costs n q
    pub best : x.value (costs.substitution q s) + dist before sl + dist after sr ≤ cost

  module _ (selected : List SelectedPosition) where
    IsMet-insert :
        (p : ℕ) (qs ss : List Symbol) (t : Symbol) (cost : ℕ)
        → IsMet selected p qs ss cost
        → IsMet selected p qs (t ∷ ss) (x.value (costs.insertion t) + cost)
    IsMet-insert p qs ss t cost m = record {
      before = m.before;
      after = m.after;
      sl = t ∷ m.sl;
      sr = m.sr;
      q = m.q;
      s = m.s;
      query_splits = m.query_splits;
      segment_splits = ap (λ r. t ∷ r) m.segment_splits;
      selected_here = m.selected_here;
      neighbor = m.neighbor;
      best = omega (arith, m.best, wed-insert-le (exact x costs) m.before m.sl t);
    }

    IsMet-delete :
        (p : ℕ) (qs ss : List Symbol) (r : Symbol) (cost : ℕ)
        → IsMet selected (suc p) qs ss cost
        → IsMet selected p (r ∷ qs) ss (x.value (costs.deletion r) + cost)
    IsMet-delete p qs ss r cost m = record {
      before = r ∷ m.before;
      after = m.after;
      sl = m.sl;
      sr = m.sr;
      q = m.q;
      s = m.s;
      query_splits = ap (λ t. r ∷ t) m.query_splits;
      segment_splits = m.segment_splits;
      selected_here =
          subst (λ t. IsSelected fl eta costs n selected t m.q) (omega arith) m.selected_here;
      neighbor = m.neighbor;
      best = omega (arith, m.best, wed-delete-le (exact x costs) m.before m.sl r);
    }

    IsMet-substitute :
        (p : ℕ) (qs ss : List Symbol) (r t : Symbol) (cost : ℕ)
        → IsMet selected (suc p) qs ss cost
        → IsMet selected p (r ∷ qs) (t ∷ ss) (x.value (costs.substitution r t) + cost)
    IsMet-substitute p qs ss r t cost m = record {
      before = r ∷ m.before;
      after = m.after;
      sl = t ∷ m.sl;
      sr = m.sr;
      q = m.q;
      s = m.s;
      query_splits = ap (λ u. r ∷ u) m.query_splits;
      segment_splits = ap (λ u. t ∷ u) m.segment_splits;
      selected_here =
          subst (λ u. IsSelected fl eta costs n selected u m.q) (omega arith) m.selected_here;
      neighbor = m.neighbor;
      best = omega (arith, m.best, wed-substitute-le (exact x costs) m.before m.sl r t);
    }

    IsMet-here :
        (p : ℕ) (qs ss : List Symbol) (r t : Symbol) (a : Alignment qs ss)
        → IsSelected fl eta costs n selected p r
        → t ∈ near fl eta costs n r
        → IsMet selected p
            (r ∷ qs)
            (t ∷ ss)
            (x.value (costs.substitution r t) + price (exact x costs) a)
    unfolding wed
    IsMet-here p qs ss r t a chosen i = record {
      before = [];
      after = qs;
      sl = [];
      sr = ss;
      q = r;
      s = t;
      query_splits = refl;
      segment_splits = refl;
      selected_here = subst (λ u. IsSelected fl eta costs n selected u r) (omega arith) chosen;
      neighbor = i;
      best = omega (arith, wed-le-price (exact x costs) a);
    }

    -- An alignment meets a selected position at a neighbor, or pays all contributions.
    IsMet-or-paid :
        (p : ℕ) {qs ss : List Symbol} (a : Alignment qs ss) (is : List Item)
        → AreScored fl eta costs n selected p qs is
        → All (λ s. s ∈ n.alphabet) ss
        → IsMet selected p qs ss (price (exact x costs) a)
          ⊎ (exact_sum x (selected_contributions is) ≤ price (exact x costs) a)
    unfolding selected_contributions price
    IsMet-or-paid p done [] h all = inr (omega arith)
    IsMet-or-paid p done (i ∷ is) h all = absurd h
    IsMet-or-paid p (insert {qs} {ss} s a) is h all = elim (IsMet-or-paid p a is h all.1) [
      | inl m ↦ inl (IsMet-insert p qs ss s (price (exact x costs) a) m)
      | inr le ↦ inr (omega arith)
    ]
    IsMet-or-paid p (delete q a) [] h all = absurd h
    IsMet-or-paid p (delete {qs} {ss} q a) (i ∷ is) h all =
        elim (IsMet-or-paid (suc p) a is h.1 all) [
          | inl m ↦ inl (IsMet-delete p qs ss q (price (exact x costs) a) m)
          | inr le ↦ elim (Bool-cases i.selected) [
            | inl e ↦ inr (rw (e, h.0.contributes) (omega (arith, outside-le-deletion q)))
            | inr e ↦ inr (rw e (omega arith))
          ]
        ]
    IsMet-or-paid p (substitute q s a) [] h all = absurd h
    IsMet-or-paid p (substitute {qs} {ss} q s a) (i ∷ is) h all =
        elim (IsMet-or-paid (suc p) a is h.1 all.1) [
          | inl m ↦ inl (IsMet-substitute p qs ss q s (price (exact x costs) a) m)
          | inr le ↦ elim (Bool-cases i.selected) [
            | inr e ↦ inr (rw e (omega arith))
            | inl e ↦ elim (scan-or-dear q eta costs n s all.0) [
              | inl near_s ↦ inl (IsMet-here p qs ss q s a (h.0.chosen e) near_s)
              | inr dear ↦ inr (
                  rw (e, h.0.contributes)
                    (omega (
                      arith,
                      x.value-mono (outside fl eta costs n q) (costs.substitution q s) dear,
                    )))
            ]
          ]
        ]

  -- Selection is complete: an alignment cheaper than the bound, of the query with data from the
  -- alphabet, substitutes a selected query symbol by one of its neighbors.
  pub IsSelection-meets :
      (query ss : List Symbol) (bound : StrictBound) (selected : List SelectedPosition)
      → x.value bound ≤ x.limit
      → IsSelection fl eta costs n query bound selected
      → All (λ s. s ∈ n.alphabet) ss
      → (a : Alignment query ss) → price (exact x costs) a < x.value bound
      → IsMet selected 0 query ss (price (exact x costs) a)
  unfolding admits
  IsSelection-meets query ss bound selected small sel all a cheap =
      elim (IsMet-or-paid selected 0 a sel.items sel.scored all) [
        | inl m ↦ m
        | inr le ↦ absurd (
            omega (
              arith,
              le,
              x.value-zero,
              sum_from-near x 0 (selected_contributions sel.items) x.zero-IsGood
                  (contributions-good selected 0 query sel.items sel.scored),
              x.value-mono bound (sum_from fl 0 (selected_contributions sel.items))
                  (ltb→le _ bound sel.enough),
            ))
      ]
