-- ===== src/Search/Verification/Distances.antt =====
-- src/search/verification.rs: a column holds the distances from the query's prefixes to the data that
-- was consumed.
use native.Mathlib.Decide.{dec_le}
use yurine.Prelude.{
  onto, Bool-cases, ltb, ◌==◌, inl, inr, ltb→le, ==→eq, ℕ, ◌+◌, ◌≤◌, ◌≡◌, refl, min, List, [], ◌∷◌,
  All, arith, subst, sym,
}
use yurine.Types.{Symbol}
use yurine.Float.{Float, infinity, f32_max}
use yurine.Float.Laws.{IsExact}
use yurine.Costs.{EditCosts}
use yurine.Search.Verification.{
  add_distance, root_cells, root_column, step_cells, step_dp, last_cell,
}
use yurine.Search.Verification.Alignment.{wed}

module _ {fl : Float} (x : IsExact fl) where
  -- A pattern that stands for a distance, up to the limit.
  pub record IsCell (c v : ℕ) : Type 0 where
    pub good : x.IsGood c
    pub near : min (x.value c) x.limit ≡ min v x.limit

  pub record HasGoodCosts (costs : EditCosts Symbol) : Type 0 where
    pub substitution_good : (q s : Symbol) → x.IsGood (costs.substitution q s)
    pub deletion_good : (q : Symbol) → x.IsGood (costs.deletion q)
    pub insertion_good : (s : Symbol) → x.IsGood (costs.insertion s)

  -- The policy in exact numbers.
  abbrev pub exact {ℓ} : {A : Type ℓ} → EditCosts A → EditCosts A
  exact costs = record {
    substitution = λ q s. x.value (costs.substitution q s);
    deletion = λ q. x.value (costs.deletion q);
    insertion = λ s. x.value (costs.insertion s);
  }

  sum-IsGood : (a b : ℕ) → x.IsGood a → x.IsGood b → x.IsGood (add_distance fl a b)
  unfolding add_distance
  sum-IsGood a b ga gb = elim (Bool-cases (ltb (fl.add a b) infinity)) [
    | inr big ↦ rw big x.infinity-IsGood
    | inl small ↦ elim (Bool-cases (fl.add a b == f32_max)) [
      | inr below ↦ rw (small, below) (x.add-IsGood a b ga gb)
      | inl most ↦ elim (Bool-cases (fl.two_sum_error (fl.add a b) a b)) [
        | inl over ↦ rw (small, most, over) x.infinity-IsGood
        | inr fits ↦ rw (small, most, fits) (x.add-IsGood a b ga gb)
      ]
    ]
  ]

  -- What `add_distance` makes of a sum that rounds to the largest finite number or above it stays
  -- above the limit.
  value-sum :
      (a b : ℕ)
      → x.IsGood a
      → x.IsGood b
      → min (x.value (add_distance fl a b)) x.limit ≡ min (x.value a + x.value b) x.limit
  unfolding add_distance
  value-sum a b ga gb = elim (Bool-cases (ltb (fl.add a b) infinity)) [
    | inr big ↦ rw big (
        omega (
          arith,
          x.value-add a b ga gb,
          x.value-mono f32_max (fl.add a b) (omega (arith, ltb→le (fl.add a b) infinity big)),
          x.value-mono f32_max infinity (omega arith),
          x.limit-le-max,
        ))
    | inl small ↦ elim (Bool-cases (fl.add a b == f32_max)) [
      | inr below ↦ rw (small, below) (x.value-add a b ga gb)
      | inl most ↦ elim (Bool-cases (fl.two_sum_error (fl.add a b) a b)) [
        | inl over ↦
            rw (small, most, over)
              (omega (
                arith,
                x.value-add a b ga gb,
                x.value-mono f32_max (fl.add a b) (omega (arith, ==→eq (fl.add a b) f32_max most)),
                x.value-mono f32_max infinity (omega arith),
                x.limit-le-max,
              ))
        | inr fits ↦ rw (small, most, fits) (x.value-add a b ga gb)
      ]
    ]
  ]

  pub zero-IsCell : IsCell 0 0
  zero-IsCell = record { good = x.zero-IsGood; near = omega (arith, x.value-zero) }

  pub sum-IsCell :
      {c v : ℕ} (d : ℕ) → IsCell c v → x.IsGood d → IsCell (add_distance fl c d) (x.value d + v)
  sum-IsCell {c} {v} d p good = record {
    good = sum-IsGood c d p.good good;
    near = omega (arith, value-sum c d p.good good, p.near);
  }

  pub add-IsCell : {c v d w : ℕ} → IsCell c v → IsCell d w → IsCell (add_distance fl c d) (v + w)
  add-IsCell {c} {v} {d} {w} p q = record {
    good = sum-IsGood c d p.good q.good;
    near = omega (arith, value-sum c d p.good q.good, p.near, q.near);
  }

  pub min-IsCell : {c v d w : ℕ} → IsCell c v → IsCell d w → IsCell (min c d) (min v w)
  min-IsCell {c} {v} {d} {w} p q = elim (dec_le c d) [
    | yes h ↦
        let e : min c d ≡ c = omega arith in
        subst (λ m. IsCell m (min v w)) (sym e)
          (record { good = p.good; near = omega (arith, x.value-mono c d h, p.near, q.near) })
    | no h ↦
        let e : min c d ≡ d = omega arith in
        let k : d ≤ c = omega arith in
        subst (λ m. IsCell m (min v w)) (sym e)
          (record { good = q.good; near = omega (arith, x.value-mono d c k, p.near, q.near) })
  ]

module _ {fl : Float} (x : IsExact fl) (costs : EditCosts Symbol) (g : HasGoodCosts x costs) where
  abbrev dist : List Symbol → List Symbol → ℕ
  dist = wed (exact x costs)

  -- The query before a row, reversed, and the rest of it; the data, reversed; and the column from
  -- that row on.
  abbrev pub IsColumn : List Symbol → List Symbol → List Symbol → List ℕ → Type 0
  IsColumn before query consumed [] = ⊥
  IsColumn before [] consumed (c ∷ cs) = IsCell x c (dist before consumed) × (cs ≡ [])
  IsColumn before (q ∷ query) consumed (c ∷ cs) =
      IsCell x c (dist before consumed) × IsColumn (q ∷ before) query consumed cs

  root_cells-IsColumn :
      (before query : List Symbol) (c : ℕ)
      → IsCell x c (dist before [])
      → IsColumn before query [] (c ∷ root_cells fl costs query c)
  unfolding root_cells wed
  root_cells-IsColumn before [] c p = (p, refl)
  root_cells-IsColumn before (q ∷ query) c p = (
    p,
    root_cells-IsColumn (q ∷ before) query _
        (sum-IsCell x (costs.deletion q) p (g.deletion_good q)),
  )

  pub root_column-IsColumn :
      (query : List Symbol) → IsColumn [] query [] (root_column fl costs query)
  unfolding root_column wed
  root_column-IsColumn query = root_cells-IsColumn [] query 0 (zero-IsCell x)

  IsColumn-head :
      (before query consumed : List Symbol) (c : ℕ) (cs : List ℕ)
      → IsColumn before query consumed (c ∷ cs)
      → IsCell x c (dist before consumed)
  IsColumn-head before [] consumed c cs p = p.0
  IsColumn-head before (q ∷ query) consumed c cs p = p.0

  step_cells-IsColumn :
      (s : Symbol) (before query consumed : List Symbol) (diagonal : ℕ) (above : List ℕ) (top : ℕ)
      → IsColumn before query consumed (diagonal ∷ above)
      → IsCell x top (dist before (s ∷ consumed))
      → IsColumn before query (s ∷ consumed) (top ∷ step_cells fl costs s query diagonal above top)
  unfolding step_cells wed
  step_cells-IsColumn s before [] consumed diagonal above top p t = (t, refl)
  step_cells-IsColumn s before (q ∷ query) consumed diagonal [] top p t = absurd p.1
  step_cells-IsColumn s before (q ∷ query) consumed diagonal (a ∷ above) top p t =
      let cell : IsCell x _ (dist (q ∷ before) (s ∷ consumed)) =
        min-IsCell x
          (min-IsCell x (sum-IsCell x (costs.substitution q s) p.0 (g.substitution_good q s)) (
            sum-IsCell x (costs.insertion s) (IsColumn-head (q ∷ before) query consumed a above p.1)
              (g.insertion_good s)))
          (sum-IsCell x (costs.deletion q) t (g.deletion_good q)) in
      (t, step_cells-IsColumn s (q ∷ before) query consumed a above _ p.1 cell)

  -- A step consumes one more symbol of the data.
  pub step_dp-IsColumn :
      (query consumed : List Symbol) (s : Symbol) (previous : List ℕ)
      → IsColumn [] query consumed previous
      → IsColumn [] query (s ∷ consumed) (step_dp fl costs query s previous)
  unfolding step_dp wed
  step_dp-IsColumn query consumed s [] p = absurd p
  step_dp-IsColumn query consumed s (first ∷ previous) p =
      step_cells-IsColumn s [] query consumed first previous _ p (
        sum-IsCell x (costs.insertion s) (IsColumn-head [] query consumed first previous p)
          (g.insertion_good s))

  -- The last cell is the distance of the whole query.
  pub last_cell-IsCell :
      (before query consumed : List Symbol) (column : List ℕ)
      → IsColumn before query consumed column
      → IsCell x (last_cell query column) (dist (onto query before) consumed)
  last_cell-IsCell before [] consumed [] p = absurd p
  last_cell-IsCell before [] consumed (c ∷ cs) p = p.0
  last_cell-IsCell before (q ∷ query) consumed [] p = absurd p
  last_cell-IsCell before (q ∷ query) consumed (c ∷ cs) p =
      last_cell-IsCell (q ∷ before) query consumed cs p.1

  -- Every prefix of the query is at least as far from the data as `m`.
  abbrev pub IsFar : ℕ → List Symbol → List Symbol → List Symbol → Type 0
  IsFar m before [] consumed = m ≤ dist before consumed
  IsFar m before (q ∷ query) consumed =
      (m ≤ dist before consumed) × IsFar m (q ∷ before) query consumed

  IsFar-head :
      (m : ℕ) (before query consumed : List Symbol)
      → IsFar m before query consumed
      → m ≤ dist before consumed
  IsFar-head m before [] consumed h = h
  IsFar-head m before (q ∷ query) consumed h = h.0

  IsFar-cells :
      (s : Symbol) (m : ℕ) (before query consumed : List Symbol)
      → IsFar m before query consumed
      → m ≤ dist before (s ∷ consumed)
      → IsFar m before query (s ∷ consumed)
  unfolding wed
  IsFar-cells s m before [] consumed h t = t
  IsFar-cells s m before (q ∷ query) consumed h t = (
    t,
    IsFar-cells s m (q ∷ before) query consumed h.1
        (omega (arith, IsFar-head m (q ∷ before) query consumed h.1, h.0)),
  )

  IsFar-cons :
      (s : Symbol) (m : ℕ) (query consumed : List Symbol)
      → IsFar m [] query consumed
      → IsFar m [] query (s ∷ consumed)
  unfolding wed
  IsFar-cons s m query consumed h =
      IsFar-cells s m [] query consumed h (omega (arith, IsFar-head m [] query consumed h))

  IsFar-last :
      (m : ℕ) (before query consumed : List Symbol)
      → IsFar m before query consumed
      → m ≤ dist (onto query before) consumed
  IsFar-last m before [] consumed h = h
  IsFar-last m before (q ∷ query) consumed h = IsFar-last m (q ∷ before) query consumed h.1

  -- A column whose least cell reaches the budget stays above it, whatever is consumed.
  pub far_onward :
      (m : ℕ) (query consumed more : List Symbol)
      → IsFar m [] query consumed
      → m ≤ dist (onto query []) (onto more consumed)
  far_onward m query consumed [] h = IsFar-last m [] query consumed h
  far_onward m query consumed (s ∷ more) h =
      far_onward m query (s ∷ consumed) more (IsFar-cons s m query consumed h)

  pub IsColumn-IsFar :
      (budget : ℕ) (before query consumed : List Symbol) (column : List ℕ)
      → x.value budget ≤ x.limit
      → IsColumn before query consumed column
      → All (λ c. budget ≤ c) column
      → IsFar (x.value budget) before query consumed
  IsColumn-IsFar budget before query consumed [] h p q = absurd p
  IsColumn-IsFar budget before [] consumed (c ∷ cs) h p q =
      omega (arith, x.value-mono budget c q.0, p.0.near)
  IsColumn-IsFar budget before (r ∷ query) consumed (c ∷ cs) h p q = (
    omega (arith, x.value-mono budget c q.0, p.0.near),
    IsColumn-IsFar budget (r ∷ before) query consumed cs h p.1 q.1,
  )
