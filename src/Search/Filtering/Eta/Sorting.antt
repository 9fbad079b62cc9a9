-- ===== src/Search/Filtering/Eta/Sorting.antt =====
-- src/search/filtering/eta.rs: costs are sorted and deduplicated.
use yurine.Prelude.{
  ℕ, ◌≤◌, ◌<◌, ◌≡◌, refl, sym, ◌∙◌, subst, List, [], ◌∷◌, ◌∈◌, ◌⊎◌, inl, inr, Bool-cases, All,
  arith, leb, ◌==◌, leb→le, leb→lt, ==→eq,
}
use yurine.Search.Filtering.Eta.{insert_cost, sort_costs, dedup_after, dedup}

-- Each cost is no more than those that follow, and less than them.
abbrev pub AreInOrder : List ℕ → Type 0
AreInOrder [] = Unit
AreInOrder (c ∷ cs) = All (λ d. c ≤ d) cs × AreInOrder cs

abbrev pub IsAscending : List ℕ → Type 0
IsAscending [] = Unit
IsAscending (c ∷ cs) = All (λ d. c < d) cs × IsAscending cs

All-le_trans : (a b : ℕ) (cs : List ℕ) → a ≤ b → All (λ d. b ≤ d) cs → All (λ d. a ≤ d) cs
All-le_trans a b [] h x = tt
All-le_trans a b (c ∷ cs) h x = (omega (arith, h, x.0), All-le_trans a b cs h x.1)

All-insert_cost : (P : ℕ → Type 0) (c : ℕ) (ds : List ℕ) → P c → All P ds → All P (insert_cost c ds)
unfolding insert_cost
All-insert_cost P c [] p a = (p, tt)
All-insert_cost P c (d ∷ ds) p a = elim (Bool-cases (leb c d)) [
  | inl y ↦ rw y (p, a)
  | inr n ↦ rw n (a.0, All-insert_cost P c ds p a.1)
]

insert_cost-AreInOrder : (c : ℕ) (ds : List ℕ) → AreInOrder ds → AreInOrder (insert_cost c ds)
unfolding insert_cost
insert_cost-AreInOrder c [] h = (tt, tt)
insert_cost-AreInOrder c (d ∷ ds) h = elim (Bool-cases (leb c d)) [
  | inl y ↦ rw y ((leb→le c d y, All-le_trans c d ds (leb→le c d y) h.0), h)
  | inr n ↦
      let lt = leb→lt c d n in
      rw n
        (All-insert_cost (λ e. d ≤ e) c ds (omega (arith, lt)) h.0, insert_cost-AreInOrder c ds h.1)
]

pub sort_costs-AreInOrder : (cs : List ℕ) → AreInOrder (sort_costs cs)
unfolding sort_costs
sort_costs-AreInOrder [] = tt
sort_costs-AreInOrder (c ∷ cs) = insert_cost-AreInOrder c (sort_costs cs) (sort_costs-AreInOrder cs)

insert_cost-new : (c : ℕ) (ds : List ℕ) → c ∈ insert_cost c ds
unfolding insert_cost
insert_cost-new c [] = inl refl
insert_cost-new c (d ∷ ds) = elim (Bool-cases (leb c d)) [
  | inl y ↦ rw y (inl refl)
  | inr n ↦ rw n (inr (insert_cost-new c ds))
]

insert_cost-keeps : (e c : ℕ) (ds : List ℕ) → e ∈ ds → e ∈ insert_cost c ds
unfolding insert_cost
insert_cost-keeps e c [] h = absurd h
insert_cost-keeps e c (d ∷ ds) h = elim (Bool-cases (leb c d)) [
  | inl y ↦ rw y (inr h)
  | inr n ↦ rw n (elim h [ inl same ↦ inl same | inr more ↦ inr (insert_cost-keeps e c ds more) ])
]

pub sort_costs-keeps : (e : ℕ) (cs : List ℕ) → e ∈ cs → e ∈ sort_costs cs
unfolding sort_costs
sort_costs-keeps e [] h = absurd h
sort_costs-keeps e (c ∷ cs) (inl same) =
    subst (λ t. t ∈ insert_cost c (sort_costs cs)) (sym same) (insert_cost-new c (sort_costs cs))
sort_costs-keeps e (c ∷ cs) (inr h) =
    insert_cost-keeps e c (sort_costs cs) (sort_costs-keeps e cs h)

All-dedup_after : (P : ℕ → Type 0) (c : ℕ) (ds : List ℕ) → All P ds → All P (dedup_after c ds)
unfolding dedup_after
All-dedup_after P c [] a = tt
All-dedup_after P c (d ∷ ds) a = elim (Bool-cases (c == d)) [
  | inl y ↦ rw y (All-dedup_after P c ds a.1)
  | inr n ↦ rw n (a.0, All-dedup_after P d ds a.1)
]

All-lt_trans : (a b : ℕ) (cs : List ℕ) → a < b → All (λ d. b < d) cs → All (λ d. a < d) cs
All-lt_trans a b [] h x = tt
All-lt_trans a b (c ∷ cs) h x = (omega (arith, h, x.0), All-lt_trans a b cs h x.1)

dedup_after-IsAscending :
    (c : ℕ) (ds : List ℕ)
    → All (λ d. c ≤ d) ds
    → AreInOrder ds
    → All (λ d. c < d) (dedup_after c ds) × IsAscending (dedup_after c ds)
unfolding dedup_after
dedup_after-IsAscending c [] low h = (tt, tt)
dedup_after-IsAscending c (d ∷ ds) low h = elim (Bool-cases (c == d)) [
  | inl y ↦ rw y (dedup_after-IsAscending c ds low.1 h.1)
  | inr n ↦
      let rest = dedup_after-IsAscending d ds h.0 h.1 in
      let less : c < d = ground (arith, low.0, n) in
      rw n ((less, All-lt_trans c d (dedup_after d ds) less rest.0), rest)
]

dedup_after-keeps : (e c : ℕ) (ds : List ℕ) → e ∈ ds → (e ≡ c) ⊎ (e ∈ dedup_after c ds)
unfolding dedup_after
dedup_after-keeps e c [] h = absurd h
dedup_after-keeps e c (d ∷ ds) h = elim (Bool-cases (c == d)) [
  | inl y ↦ rw y (elim h [
    | inl same ↦ inl (same ∙ sym (==→eq c d y))
    | inr more ↦ dedup_after-keeps e c ds more
  ])
  | inr n ↦
      rw n (elim h [ inl same ↦ inr (inl same) | inr more ↦ inr (dedup_after-keeps e d ds more) ])
]

pub dedup-IsAscending : (cs : List ℕ) → AreInOrder cs → IsAscending (dedup cs)
unfolding dedup
dedup-IsAscending [] h = tt
dedup-IsAscending (c ∷ cs) h = dedup_after-IsAscending c cs h.0 h.1

pub dedup-keeps : (e : ℕ) (cs : List ℕ) → e ∈ cs → e ∈ dedup cs
unfolding dedup
dedup-keeps e [] h = h
dedup-keeps e (c ∷ cs) (inl same) = inl same
dedup-keeps e (c ∷ cs) (inr h) = dedup_after-keeps e c cs h

pub All-sort_costs : (P : ℕ → Type 0) (cs : List ℕ) → All P cs → All P (sort_costs cs)
unfolding sort_costs
All-sort_costs P [] a = tt
All-sort_costs P (c ∷ cs) a = All-insert_cost P c (sort_costs cs) a.0 (All-sort_costs P cs a.1)

pub All-dedup : (P : ℕ → Type 0) (cs : List ℕ) → All P cs → All P (dedup cs)
unfolding dedup
All-dedup P [] a = tt
All-dedup P (c ∷ cs) a = (a.0, All-dedup_after P c cs a.1)
