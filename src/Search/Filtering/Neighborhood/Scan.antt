-- ===== src/Search/Filtering/Neighborhood/Scan.antt =====
-- src/search/filtering/neighborhood.rs: what a scan of the alphabet finds.
use native.Mathlib.Decide.{dec_le}
use yurine.Prelude.{
  ◌≤◌, ◌<◌, ◌≡◌, refl, min, List, [], ◌∷◌, ◌∈◌, ◌⊎◌, inl, inr, Bool-cases, leb, leb→le, leb→lt,
  arith, subst, sym,
}
use yurine.Types.{Symbol}
use yurine.Costs.{Cost, EditCosts}
use yurine.Search.Filtering.Neighborhood.{SubstitutionNeighborhood, scan_from, scan}

module _ (symbol : Symbol) (eta : Cost) (costs : EditCosts Symbol) where
  -- The least of a start value and of the substitutions above eta.
  abbrev pub IsCheapest : List Symbol → Cost → Cost → Type 0
  IsCheapest alphabet start c =
      (c ≤ start)
      × ((s : Symbol)
          → s ∈ alphabet
          → eta < costs.substitution symbol s
          → c ≤ costs.substitution symbol s)
      × ((c ≡ start)
          ⊎ ((s : Symbol) × (s ∈ alphabet)
              × (eta < costs.substitution symbol s)
              × (c ≡ costs.substitution symbol s)))

  abbrev sub : Symbol → Cost
  sub = costs.substitution symbol

  near-of-scan_from :
      (alphabet : List Symbol) (start : Cost) (s : Symbol)
      → s ∈ (scan_from symbol eta costs alphabet start).0
      → (s ∈ alphabet) × (sub s ≤ eta)
  unfolding scan_from
  near-of-scan_from [] start s h = absurd h
  near-of-scan_from (a ∷ rest) start s h = elim (Bool-cases (leb (sub a) eta)) [
    | inl near ↦
        let h' : (s ≡ a) ⊎ (s ∈ (scan_from symbol eta costs rest start).0) = rw near at h in
        elim h' [
          | inl e ↦ (inl e, subst (λ t. sub t ≤ eta) (sym e) (leb→le (sub a) eta near))
          | inr i ↦ let (j, e) = near-of-scan_from rest start s i in (inr j, e)
        ]
    | inr far ↦
        let h' : s ∈ (scan_from symbol eta costs rest (min start (sub a))).0 = rw far at h in
        let (i, e) = near-of-scan_from rest (min start (sub a)) s h' in (inr i, e)
  ]

  scan_from-near :
      (alphabet : List Symbol) (start : Cost) (s : Symbol)
      → s ∈ alphabet
      → sub s ≤ eta
      → s ∈ (scan_from symbol eta costs alphabet start).0
  unfolding scan_from
  scan_from-near [] start s i h = absurd i
  scan_from-near (a ∷ rest) start s (inl e) h = elim (Bool-cases (leb (sub a) eta)) [
    | inl near ↦ rw near (inl e)
    | inr far ↦ absurd (omega (arith, leb→lt (sub a) eta far, subst (λ t. sub t ≤ eta) e h))
  ]
  scan_from-near (a ∷ rest) start s (inr i) h = elim (Bool-cases (leb (sub a) eta)) [
    | inl near ↦ rw near (inr (scan_from-near rest start s i h))
    | inr far ↦ rw far (scan_from-near rest (min start (sub a)) s i h)
  ]

  Cheapest-near :
      (a : Symbol) (rest : List Symbol) (start c : Cost)
      → sub a ≤ eta
      → IsCheapest rest start c
      → IsCheapest (a ∷ rest) start c
  Cheapest-near a rest start c near h = (
    h.0,
    λ s i far. elim i [
      | inl e ↦ absurd (omega (arith, subst (λ t. eta < sub t) e far))
      | inr j ↦ h.1 s j far
    ],
    elim h.2 [ inl e ↦ inl e | inr (s, i, far, e) ↦ inr (s, inr i, far, e) ],
  )

  Cheapest-far :
      (a : Symbol) (rest : List Symbol) (start c : Cost)
      → eta < sub a
      → IsCheapest rest (min start (sub a)) c
      → IsCheapest (a ∷ rest) start c
  Cheapest-far a rest start c far h = (
    omega (arith, h.0),
    λ s i far'. elim i [
      | inl e ↦ subst (λ t. c ≤ sub t) (sym e) (omega (arith, h.0))
      | inr j ↦ h.1 s j far'
    ],
    elim h.2 [
      | inl e ↦ elim (dec_le start (sub a)) [
        | yes le ↦ inl (omega arith)
        | no gt ↦ inr (a, inl refl, far, omega arith)
      ]
      | inr (s, i, far', e) ↦ inr (s, inr i, far', e)
    ],
  )

  scan_from-IsCheapest :
      (alphabet : List Symbol) (start : Cost)
      → IsCheapest alphabet start (scan_from symbol eta costs alphabet start).1
  unfolding scan_from
  scan_from-IsCheapest [] start = (omega arith, λ s i far. absurd i, inl refl)
  scan_from-IsCheapest (a ∷ rest) start = elim (Bool-cases (leb (sub a) eta)) [
    | inl near ↦
        rw near
          (Cheapest-near a rest start _ (leb→le (sub a) eta near) (scan_from-IsCheapest rest start))
    | inr far ↦ rw far (
        Cheapest-far a rest start _ (leb→lt (sub a) eta far)
          (scan_from-IsCheapest rest (min start (sub a))))
  ]

  -- A scan returns the symbols of the alphabet that cost at most eta, and the cheapest way out of
  -- them: deletion, or a substitution by another symbol of the alphabet.
  pub scan_lem :
      (n : SubstitutionNeighborhood)
      → ((s : Symbol)
          → (s ∈ (scan symbol eta costs n).0 → (s ∈ n.alphabet) × (sub s ≤ eta))
            × (s ∈ n.alphabet → sub s ≤ eta → s ∈ (scan symbol eta costs n).0))
        × IsCheapest n.alphabet (costs.deletion symbol) (scan symbol eta costs n).1
  unfolding scan
  scan_lem n = (
    λ s. (
      near-of-scan_from n.alphabet (costs.deletion symbol) s,
      scan_from-near n.alphabet (costs.deletion symbol) s,
    ),
    scan_from-IsCheapest n.alphabet (costs.deletion symbol),
  )

  -- Within the alphabet a symbol is a neighbor, or costs at least the way out.
  pub scan-or-dear :
      (n : SubstitutionNeighborhood) (s : Symbol)
      → s ∈ n.alphabet
      → (s ∈ (scan symbol eta costs n).0) ⊎ ((scan symbol eta costs n).1 ≤ sub s)
  scan-or-dear n s i = elim (dec_le (sub s) eta) [
    | yes h ↦ inl (((scan_lem n).0 s).1 i h)
    | no h ↦ inr ((scan_lem n).1.1 s i (omega arith))
  ]
