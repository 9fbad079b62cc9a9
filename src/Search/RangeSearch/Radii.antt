-- ===== src/Search/RangeSearch/Radii.antt =====
-- src/search/range_search.rs: a selection that is returned was made at the radius that is reported.
use mathlib.Core.Option.{some-injective}
use yurine.Prelude.{
  ℕ, zero, suc, ◌+◌, ◌-◌, ◌/◌, ◌≡◌, refl, ap, ◌∙◌, subst, Option, some, none, List, get_elem?, ltb,
  ◌⊎◌, inl, inr, Bool-cases, length, none≢some,
}
use yurine.Errors.{ok, >>=-eq-ok, Result-cases, expect, ok-injective, panic≢ok, err≢ok}
use yurine.Types.{Symbol}
use yurine.Float.{Float}
use yurine.Costs.{Cost, EditCosts}
use yurine.Search.Bound.{StrictBound}
use yurine.Search.Engine.{SearchEngine}
use yurine.Search.Filtering.Eta.{wider_radii}
use yurine.Search.Filtering.Selector.Best.{ok_or-eq-ok}
use yurine.Search.RangeSearch.{Selection, select_at, narrow, select_positions, is_unavailable}

module _ {ℓ} {T : Type ℓ} (fl : Float) (engine : SearchEngine T) (query : List Symbol)
    (bound : StrictBound) (costs : EditCosts Symbol) where
  -- The radius at which a selection was made.
  abbrev pub IsSelectedAt : Cost → Selection → Type 0
  IsSelectedAt radius s = select_at fl engine query bound radius costs ≡ ok s.0

  abbrev pub Reports : Cost → Selection → Type 0
  Reports radius s = (s.1 ≡ some radius) × IsSelectedAt radius s

  narrow-Reports :
      (fuel : ℕ) (radii : List Cost) (low high : ℕ) (narrowest : Option Selection) (s : Selection)
      → narrow fl engine fuel query bound costs radii low high narrowest ≡ ok (some s)
      → (narrowest ≡ some s) ⊎ ((radius : Cost) × Reports radius s)
  unfolding narrow
  narrow-Reports zero radii low high narrowest s e = cc
  narrow-Reports (suc fuel) radii low high narrowest s e = elim (Bool-cases (ltb low high)) [
    | inr done ↦ inl (ok-injective (rw done at e))
    | inl more ↦
        let middle = low + (high - low) / 2 in
        let (radius, e1, r1) = >>=-eq-ok (expect (get_elem? radii middle)) _ (rw more at e) in
        elim (Result-cases (select_at fl engine query bound radius costs)) [
          | inl (selected, es) ↦
              elim (narrow-Reports fuel radii low middle (some (selected, some radius)) s
                (rw es at r1)) [
                  | inl same ↦
                      inr (radius, subst (Reports radius) (some-injective _ _ same) (refl, es))
                  | inr other ↦ inr other
                ]
          | inr (inl (problem, es)) ↦ elim (Bool-cases (is_unavailable problem)) [
            | inl skip ↦
                narrow-Reports fuel radii (middle + 1) high narrowest s (rw skip at (rw es at r1))
            | inr stop ↦ absurd (err≢ok (rw stop at (rw es at r1)))
          ]
          | inr (inr es) ↦ absurd (panic≢ok (rw es at r1))
        ]
  ]

  -- A selection that is returned was made at the automatic radius, and then no radius is reported,
  -- or at the radius that is reported.
  pub select_positions-Reports :
      (eta : Cost) (s : Selection)
      → select_positions fl engine query bound eta costs ≡ ok s
      → (radius : Cost) × IsSelectedAt radius s
        × (((s.1 ≡ none) × (radius ≡ eta)) ⊎ (s.1 ≡ some radius))
  unfolding select_positions
  select_positions-Reports eta s e =
      elim (Result-cases (select_at fl engine query bound eta costs)) [
        | inl (selected, es) ↦
            let same : (selected, none) ≡ s = ok-injective (rw (select_positions, es) at e) in
            subst
              (λ t.
                (radius : Cost) × IsSelectedAt radius t
                × (((t.1 ≡ none) × (radius ≡ eta)) ⊎ (t.1 ≡ some radius)))
              same (eta, es, inl (refl, refl))
        | inr (inl (problem, es)) ↦ elim (Bool-cases (is_unavailable problem)) [
          | inl skip ↦
              let radii = wider_radii query eta costs engine.neighborhood in
              let (narrowest, e1, r1) =
                >>=-eq-ok
                  (narrow fl engine (suc (length radii)) query bound costs radii 0 (length radii)
                    none)
                  _ (rw skip at (rw (select_positions, es) at e)) in
              let found = ok_or-eq-ok narrowest _ s r1 in
              elim (narrow-Reports (suc (length radii)) radii 0 (length radii) none s
                (e1 ∙ ap ok found)) [
                  | inl bad ↦ absurd (none≢some bad)
                  | inr (radius, r) ↦ (radius, r.1, inr r.0)
                ]
          | inr stop ↦ absurd (err≢ok (rw stop at (rw (select_positions, es) at e)))
        ]
        | inr (inr es) ↦ absurd (panic≢ok (rw (select_positions, es) at e))
      ]
