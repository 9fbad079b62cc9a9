-- ===== src/Search/Filtering/Eta/Widest.antt =====
-- src/search/filtering/eta.rs: the wider radii are the larger costs, ascending.
use native.Mathlib.Decide.{dec_le}
use yurine.Prelude.{
  All-∈, All-of-∈, ℕ, suc, ◌-◌, ◌≤◌, ◌<◌, ◌≡◌, refl, sym, ap, ◌∙◌, subst, List, [], ◌∷◌, ◌++◌, ◌∈◌,
  ◌⊎◌, ◌↔◌, inl, inr, Bool-cases, true, All, arith, ltb, lt→ltb, ltb→lt, some, get_elem?, length,
  map,
}
use yurine.Types.{Symbol}
use yurine.Costs.{Cost, EditCosts}
use yurine.Search.Filtering.Neighborhood.{SubstitutionNeighborhood}
use yurine.Search.Filtering.Eta.{costs_above, all_costs, sort_costs, dedup, wider_radii}
use yurine.Search.Filtering.Eta.Sorting.{
  IsAscending, sort_costs-AreInOrder, sort_costs-keeps, dedup-IsAscending, dedup-keeps,
  All-sort_costs, All-dedup,
}

costs_above-keeps : (eta e : ℕ) (cs : List ℕ) → eta < e → e ∈ cs → e ∈ costs_above eta cs
unfolding costs_above
costs_above-keeps eta e [] h i = absurd i
costs_above-keeps eta e (c ∷ cs) h (inl same) =
    let above : ltb eta c ≡ true = lt→ltb eta c (omega (arith, h, same)) in rw above (inl same)
costs_above-keeps eta e (c ∷ cs) h (inr i) = elim (Bool-cases (ltb eta c)) [
  | inl y ↦ rw y (inr (costs_above-keeps eta e cs h i))
  | inr n ↦ rw n (costs_above-keeps eta e cs h i)
]

∈-left : (e : ℕ) (xs ys : List ℕ) → e ∈ xs → e ∈ (xs ++ ys)
∈-left e [] ys h = absurd h
∈-left e (x ∷ xs) ys (inl h) = inl h
∈-left e (x ∷ xs) ys (inr h) = inr (∈-left e xs ys h)

∈-right : (e : ℕ) (xs ys : List ℕ) → e ∈ ys → e ∈ (xs ++ ys)
∈-right e [] ys h = h
∈-right e (x ∷ xs) ys h = inr (∈-right e xs ys h)

∈-map : (f : Symbol → Cost) (s : Symbol) (ss : List Symbol) → s ∈ ss → f s ∈ map f ss
∈-map f s [] h = absurd h
∈-map f s (t ∷ ss) (inl same) = inl (ap f same)
∈-map f s (t ∷ ss) (inr h) = inr (∈-map f s ss h)

all_costs-has :
    (costs : EditCosts Symbol) (query alphabet : List Symbol) (q s : Symbol)
    → q ∈ query
    → s ∈ alphabet
    → costs.substitution q s ∈ all_costs costs query alphabet
unfolding all_costs
all_costs-has costs [] alphabet q s h i = absurd h
all_costs-has costs (r ∷ query) alphabet q s (inl same) i =
    ∈-left _ (map (costs.substitution r) alphabet) _ (
      subst (λ t. costs.substitution t s ∈ map (costs.substitution r) alphabet) (sym same)
        (∈-map (costs.substitution r) s alphabet i))
all_costs-has costs (r ∷ query) alphabet q s (inr h) i =
    ∈-right _ (map (costs.substitution r) alphabet) _ (all_costs-has costs query alphabet q s h i)

-- The last of an ascending list is the largest.
ascending-last :
    (c : ℕ) (cs : List ℕ)
    → IsAscending (c ∷ cs)
    → (top : ℕ) × (get_elem? (c ∷ cs) (length cs) ≡ some top) × ((e : ℕ) → e ∈ (c ∷ cs) → e ≤ top)
ascending-last c [] h =
    (c, refl, λ e i. elim i [ inl same ↦ omega (arith, same) | inr bad ↦ absurd bad ])
ascending-last c (d ∷ ds) h =
    let (top, at, all) = ascending-last d ds h.1 in
    (
      top,
      at,
      λ e i. elim i [
        | inl same ↦ omega (arith, same, h.0.0, all d (inl refl))
        | inr more ↦ all e more
      ],
    )

widest :
    (eta : Cost) (costs : EditCosts Symbol) (query alphabet : List Symbol) (rs : List Cost)
    → IsAscending rs
    → All (λ c. eta < c) rs
    → ((q s : Symbol)
        → q ∈ query
        → s ∈ alphabet
        → (costs.substitution q s ≤ eta) ⊎ (costs.substitution q s ∈ rs))
    → ((rs ≡ []) × ((q s : Symbol) → q ∈ query → s ∈ alphabet → costs.substitution q s ≤ eta))
      ⊎ ((top : Cost) × (get_elem? rs (length rs - 1) ≡ some top)
          × ((q s : Symbol) → q ∈ query → s ∈ alphabet → costs.substitution q s ≤ top))
widest eta costs query alphabet [] h a has =
    inl (refl, λ q s hq hs. elim (has q s hq hs) [ inl le ↦ le | inr bad ↦ absurd bad ])
widest eta costs query alphabet (c ∷ cs) h a has =
    let (top, at, all) = ascending-last c cs h in
    let last : length cs ≡ suc (length cs) - 1 = omega arith in
    inr (
      top,
      ap (get_elem? (c ∷ cs)) (sym last) ∙ at,
      λ q s hq hs. elim (has q s hq hs) [
        | inl le ↦ omega (arith, le, a.0, all c (inl refl))
        | inr i ↦ all (costs.substitution q s) i
      ],
    )

-- The costs of the substitutions of a query symbol by one of the alphabet.
abbrev pub IsSubstitutionCost : EditCosts Symbol → List Symbol → List Symbol → Cost → Type 0
IsSubstitutionCost costs query alphabet c =
    (q : Symbol) × (s : Symbol) × (q ∈ query) × (s ∈ alphabet) × (c ≡ costs.substitution q s)

All-append : (P : ℕ → Type 0) (xs ys : List ℕ) → All P xs → All P ys → All P (xs ++ ys)
All-append P [] ys a b = b
All-append P (x ∷ xs) ys a b = (a.0, All-append P xs ys a.1 b)

All-map :
    (P : ℕ → Type 0) (f : Symbol → Cost) (ss : List Symbol)
    → ((s : Symbol) → s ∈ ss → P (f s))
    → All P (map f ss)
All-map P f [] h = tt
All-map P f (s ∷ ss) h = (h s (inl refl), All-map P f ss (λ t i. h t (inr i)))

All-all_costs :
    (P : ℕ → Type 0) (costs : EditCosts Symbol) (query alphabet : List Symbol)
    → ((q s : Symbol) → q ∈ query → s ∈ alphabet → P (costs.substitution q s))
    → All P (all_costs costs query alphabet)
unfolding all_costs
All-all_costs P costs [] alphabet h = tt
All-all_costs P costs (q ∷ query) alphabet h =
    All-append P (map (costs.substitution q) alphabet) (all_costs costs query alphabet)
      (All-map P (costs.substitution q) alphabet (λ s i. h q s (inl refl) i))
      (All-all_costs P costs query alphabet (λ r s hr hs. h r s (inr hr) hs))

costs_above-kept :
    (P : ℕ → Type 0) (eta : ℕ) (cs : List ℕ)
    → All P cs
    → All (λ c. (eta < c) × P c) (costs_above eta cs)
unfolding costs_above
costs_above-kept P eta [] all = tt
costs_above-kept P eta (c ∷ cs) all = elim (Bool-cases (ltb eta c)) [
  | inl y ↦ rw y ((ltb→lt eta c y, all.0), costs_above-kept P eta cs all.1)
  | inr n ↦ rw n (costs_above-kept P eta cs all.1)
]

-- The wider radii are the substitution costs of query symbols by those of the alphabet that are above
-- eta, strictly ascending; and either there are none, and all of these costs are at most eta, or the
-- last of the radii reaches all of them.
pub wider_radii_lem :
    (query : List Symbol) (eta : Cost) (costs : EditCosts Symbol) (n : SubstitutionNeighborhood)
    → IsAscending (wider_radii query eta costs n)
      × ((c : Cost)
          → (c ∈ wider_radii query eta costs n)
            ↔ ((eta < c) × IsSubstitutionCost costs query n.alphabet c))
      × (((wider_radii query eta costs n ≡ [])
            × ((q s : Symbol) → q ∈ query → s ∈ n.alphabet → costs.substitution q s ≤ eta))
          ⊎ ((top : Cost) × (get_elem?
                  (wider_radii query eta costs n)
                  (length (wider_radii query eta costs n) - 1)
                ≡ some top)
              × ((q s : Symbol) → q ∈ query → s ∈ n.alphabet → costs.substitution q s ≤ top)))
unfolding wider_radii
wider_radii_lem query eta costs n =
    let all = all_costs costs query n.alphabet in
    let above = costs_above eta all in
    let radii = dedup (sort_costs above) in
    let ascending = dedup-IsAscending (sort_costs above) (sort_costs-AreInOrder above) in
    let priced : All (λ c. (eta < c) × IsSubstitutionCost costs query n.alphabet c) radii =
      All-dedup _ (sort_costs above) (
        All-sort_costs _ above (
          costs_above-kept (IsSubstitutionCost costs query n.alphabet) eta all
            (All-all_costs _ costs query n.alphabet (λ q s hq hs. (q, s, hq, hs, refl))))) in
    let has : (q s : Symbol)
        → q ∈ query
        → s ∈ n.alphabet
        → eta < costs.substitution q s
        → costs.substitution q s ∈ radii =
      λ q s hq hs gt. dedup-keeps _ (sort_costs above) (
        sort_costs-keeps _ above
          (costs_above-keeps eta _ all gt (all_costs-has costs query n.alphabet q s hq hs))) in
    (
      ascending,
      λ c. (
        λ i. All-∈ _ radii c priced i,
        λ (more, (q, s, hq, hs, same)).
            subst (λ t. t ∈ radii) (sym same) (has q s hq hs (subst (λ t. eta < t) same more)),
      ),
      widest eta costs query n.alphabet radii ascending
          (All-of-∈ _ radii (λ c i. (All-∈ _ radii c priced i).0))
          (λ q s hq hs. elim (dec_le (costs.substitution q s) eta) [
            | yes le ↦ inl le
            | no gt ↦ inr (has q s hq hs (omega (arith, gt)))
          ]),
    )
