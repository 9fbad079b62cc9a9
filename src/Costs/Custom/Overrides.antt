-- ===== src/Costs/Custom/Overrides.antt =====
-- src/costs/custom.rs: an override changes the cost that it is for and no other.
use yurine.Prelude.{
  ◌≡◌, refl, sym, subst, ◌∙◌, Bool, true, false, Eq, if◌then◌else◌, Bool-cases, Option-cases, inl,
  inr, ◌&&◌, Option, none, some, List, [], true≢false,
}
use yurine.Map.{get, put, get-put, unwrap_or}
use yurine.Costs.{Cost}
use yurine.Costs.Custom.{
  CustomCosts, set_substitution, set_deletion, set_insertion, override, custom_substitution,
  edit_costs,
}

if-unwrap :
    (b : Bool) (cost d : Cost) (o : Option Cost)
    → unwrap_or (if b then some cost else o) d ≡ (if b then cost else unwrap_or o d)
if-unwrap true cost d o = refl
if-unwrap false cost d o = refl

module _ {ℓ} {T : Type ℓ} ⦃eq : Eq T⦄ where
  abbrev look : List (T × List (T × Cost)) → T → T → Option Cost
  look m a b = elim (get m a) [ none ↦ none | some costs ↦ get costs b ]

  -- The row of an absent token is empty.
  look-row :
      (m : List (T × List (T × Cost))) (a b : T) → get (unwrap_or (get m a) []) b ≡ look m a b
  unfolding get
  look-row m a b = elim (Option-cases (get m a)) [
    | inl n ↦ rw (look, n) refl
    | inr (row, e) ↦ rw (look, e) refl
  ]

  look-put :
      (m : List (T × List (T × Cost))) (from to : T) (cost : Cost) (a b : T)
      → look (put m from (put (unwrap_or (get m from) []) to cost)) a b
        ≡ (if eq.beq from a && eq.beq to b then some cost else look m a b)
  look-put m from to cost a b = elim (Bool-cases (eq.beq from a)) [
    | inr n ↦ rw (look, get-put m from (put (unwrap_or (get m from) []) to cost) a, n) refl
    | inl y ↦
        rw
          (
            look,
            get-put m from (put (unwrap_or (get m from) []) to cost) a,
            y,
            get-put (unwrap_or (get m from) []) to cost b,
          )
          (subst
            (λ r.
              (if eq.beq to b then some cost else get (unwrap_or (get m from) []) b)
              ≡ (if eq.beq to b then some cost else r))
            (look-row m from b
              ∙ subst (λ t. look m from b ≡ look m t b) ((eq.beq_iff from a).0 y) refl)
            refl)
  ]

  override-set :
      (c : CustomCosts T) (from to : T) (cost : Cost) (a b : T)
      → eq.beq from to ≡ false
      → override (set_substitution c from to cost) a b
        ≡ (if eq.beq from a && eq.beq to b then some cost else override c a b)
  unfolding override set_substitution
  override-set c from to cost a b differ =
      rw (set_substitution, differ) (look-put c.substitutions from to cost a b)

  default-set :
      (c : CustomCosts T) (from to : T) (cost : Cost)
      → (set_substitution c from to cost).default_substitution ≡ c.default_substitution
  unfolding set_substitution
  default-set c from to cost = elim (Bool-cases (eq.beq from to)) [
    | inl y ↦ rw (set_substitution, y) refl
    | inr n ↦ rw (set_substitution, n) refl
  ]

  both : (from to a : T) → eq.beq from to ≡ false → (eq.beq from a && eq.beq to a) ≡ false
  both from to a differ = elim (Bool-cases (eq.beq from a)) [
    | inr n ↦ rw n refl
    | inl y ↦ elim (Bool-cases (eq.beq to a)) [
      | inr n ↦ rw (y, n) refl
      | inl z ↦
          let same = (eq.beq_iff from a).0 y ∙ sym ((eq.beq_iff to a).0 z) in
          absurd (true≢false (sym ((eq.beq_iff from to).1 same) ∙ differ))
    ]
  ]

  -- An override of a substitution of two different tokens is the cost of that substitution, and
  -- every other substitution keeps its cost; an override of a token by itself changes nothing.
  pub set_substitution_lem :
      (c : CustomCosts T) (from to : T) (cost : Cost)
      → (eq.beq from to ≡ true → set_substitution c from to cost ≡ c)
        × (eq.beq from to ≡ false
            → (a b : T)
            → (edit_costs (set_substitution c from to cost)).substitution a b
              ≡ (if eq.beq from a && eq.beq to b then cost else (edit_costs c).substitution a b))
  unfolding set_substitution edit_costs custom_substitution
  set_substitution_lem c from to cost = (
    λ same. rw (set_substitution, same) refl,
    λ differ a b. elim (Bool-cases (eq.beq a b)) [
      | inl y ↦
          let none_of =
            subst (λ t. (eq.beq from a && eq.beq to t) ≡ false) ((eq.beq_iff a b).0 y)
              (both from to a differ) in
          rw (y, none_of) refl
      | inr n ↦
          rw (n, override-set c from to cost a b differ, default-set c from to cost)
            (if-unwrap (eq.beq from a && eq.beq to b) cost c.default_substitution (override c a b))
    ],
  )

  -- An override of a deletion or of an insertion is the cost for its token, and every other token
  -- keeps its cost.
  pub set_deletion-insertion :
      (c : CustomCosts T) (token : T) (cost : Cost) (t : T)
      → ((edit_costs (set_deletion c token cost)).deletion t
          ≡ (if eq.beq token t then cost else (edit_costs c).deletion t))
        × ((edit_costs (set_insertion c token cost)).insertion t
            ≡ (if eq.beq token t then cost else (edit_costs c).insertion t))
  unfolding set_deletion set_insertion edit_costs
  set_deletion-insertion c token cost t = (
    rw (get-put c.deletions token cost t)
        (if-unwrap (eq.beq token t) cost c.default_deletion (get c.deletions t)),
    rw (get-put c.insertions token cost t)
        (if-unwrap (eq.beq token t) cost c.default_insertion (get c.insertions t)),
  )
