-- ===== src/Search/Verification/Trie/Substrings.antt =====
-- src/search/verification/bidirectional_trie.rs: the map of substrings keeps its keys in order, and
-- keeps what was recorded, or less.
use yurine.Prelude.{
  ℕ, zero, suc, ◌+◌, ◌-◌, ◌≡◌, refl, min, true, false, some, List, [], ◌∷◌, ◌⊎◌, inl, inr, arith,
  Bool-cases, get_elem?, subst, sym,
}
use native.Mathlib.Decide.{dec_le}
use native.Mathlib.Nat.{min_comm}
use yurine.Float.{Float}
use yurine.Search.Bound.{StrictBound, admits}
use yurine.Search.Matches.{Candidate}
use yurine.Search.Verification.{add_distance}
use yurine.Search.Verification.Trie.{
  Substrings, key_lt, key_eq, record_distance, combine_forward, combine,
}

abbrev pub Key : Type 0
Key = ℕ × ℕ × ℕ

-- Every key behind a key is larger.
abbrev pub AllAfter : Key → Substrings → Type 0
AllAfter k [] = Unit
AllAfter k ((j, d) ∷ m) = (key_lt k j ≡ true) × AllAfter k m

abbrev pub IsSorted : Substrings → Type 0
IsSorted [] = Unit
IsSorted ((j, d) ∷ m) = AllAfter j m × IsSorted m

key_lt_trans : (i j k : Key) → key_lt i j ≡ true → key_lt j k ≡ true → key_lt i k ≡ true
key_lt_trans i j k p q = ground arith

key_lt_total : (i j : Key) → key_lt i j ≡ false → key_eq i j ≡ false → key_lt j i ≡ true
key_lt_total i j p q = ground arith

AllAfter-trans : (i j : Key) (m : Substrings) → key_lt i j ≡ true → AllAfter j m → AllAfter i m
AllAfter-trans i j [] p h = tt
AllAfter-trans i j ((k, d) ∷ m) p h = (key_lt_trans i j k p h.0, AllAfter-trans i j m p h.1)

record_distance-AllAfter :
    (i k : Key) (d : ℕ) (m : Substrings)
    → key_lt i k ≡ true
    → AllAfter i m
    → AllAfter i (record_distance k d m)
unfolding record_distance
record_distance-AllAfter i k d [] p h = (p, tt)
record_distance-AllAfter i k d ((j, e) ∷ m) p h = elim (Bool-cases (key_lt k j)) [
  | inl before ↦ rw before (p, h)
  | inr behind ↦ elim (Bool-cases (key_eq k j)) [
    | inl same ↦ rw (behind, same) h
    | inr other ↦ rw (behind, other) (h.0, record_distance-AllAfter i k d m p h.1)
  ]
]

pub record_distance-IsSorted :
    (k : Key) (d : ℕ) (m : Substrings) → IsSorted m → IsSorted (record_distance k d m)
unfolding record_distance
record_distance-IsSorted k d [] h = (tt, tt)
record_distance-IsSorted k d ((j, e) ∷ m) h = elim (Bool-cases (key_lt k j)) [
  | inl before ↦ rw before ((before, AllAfter-trans k j m before h.0), h)
  | inr behind ↦ elim (Bool-cases (key_eq k j)) [
    | inl same ↦ rw (behind, same) h
    | inr other ↦
        rw (behind, other)
          (
            record_distance-AllAfter j k d m (key_lt_total k j behind other) h.0,
            record_distance-IsSorted k d m h.1,
          )
  ]
]

-- A fact of each entry.
abbrev pub AllEntries : (Key → ℕ → Type 0) → Substrings → Type 0
AllEntries F [] = Unit
AllEntries F ((k, d) ∷ m) = F k d × AllEntries F m

key_eq→eq : (i j : Key) → key_eq i j ≡ true → i ≡ j
key_eq→eq i j p = ground arith

min-either : (F : ℕ → Type 0) (a b : ℕ) → F a → F b → F (min a b)
min-either F a b p q = elim (dec_le a b) [
  | yes h ↦ subst F (omega arith) p
  | no h ↦ subst F (omega arith) q
]

pub record_distance-AllEntries :
    (F : Key → ℕ → Type 0) (k : Key) (d : ℕ) (m : Substrings)
    → F k d
    → AllEntries F m
    → AllEntries F (record_distance k d m)
unfolding record_distance
record_distance-AllEntries F k d [] p h = (p, tt)
record_distance-AllEntries F k d ((j, e) ∷ m) p h = elim (Bool-cases (key_lt k j)) [
  | inl before ↦ rw before (p, h)
  | inr behind ↦ elim (Bool-cases (key_eq k j)) [
    | inl same ↦
        rw (behind, same)
          (min-either (F j) e d h.0 (subst (λ i. F i d) (key_eq→eq k j same) p), h.1)
    | inr other ↦ rw (behind, other) (h.0, record_distance-AllEntries F k d m p h.1)
  ]
]

-- An entry of the key holds a distance with the property.
abbrev pub Has : (ℕ → Type 0) → Key → Substrings → Type 0
Has P k [] = ⊥
Has P k ((j, d) ∷ m) = ((k ≡ j) × P d) ⊎ Has P k m

module _ (P : ℕ → Type 0) (down : (a b : ℕ) → P a → P (min a b)) where
  -- What is there stays, perhaps with a lesser distance.
  pub record_distance-Has :
      (i k : Key) (d : ℕ) (m : Substrings) → Has P i m → Has P i (record_distance k d m)
  unfolding record_distance
  record_distance-Has i k d [] h = absurd h
  record_distance-Has i k d ((j, e) ∷ m) (inl p) = elim (Bool-cases (key_lt k j)) [
    | inl before ↦ rw before (inr (inl p))
    | inr behind ↦ elim (Bool-cases (key_eq k j)) [
      | inl same ↦ rw (behind, same) (inl (p.0, down e d p.1))
      | inr other ↦ rw (behind, other) (inl p)
    ]
  ]
  record_distance-Has i k d ((j, e) ∷ m) (inr h) = elim (Bool-cases (key_lt k j)) [
    | inl before ↦ rw before (inr (inr h))
    | inr behind ↦ elim (Bool-cases (key_eq k j)) [
      | inl same ↦ rw (behind, same) (inr h)
      | inr other ↦ rw (behind, other) (inr (record_distance-Has i k d m h))
    ]
  ]

  -- What is recorded is there.
  pub Has-record_distance :
      (k : Key) (d : ℕ) (m : Substrings) → P d → Has P k (record_distance k d m)
  unfolding record_distance
  Has-record_distance k d [] p = inl (refl, p)
  Has-record_distance k d ((j, e) ∷ m) p = elim (Bool-cases (key_lt k j)) [
    | inl before ↦ rw before (inl (refl, p))
    | inr behind ↦ elim (Bool-cases (key_eq k j)) [
      | inl same ↦ rw (behind, same) (inl (key_eq→eq k j same, subst P (min_comm d e) (down d e p)))
      | inr other ↦ rw (behind, other) (inr (Has-record_distance k d m p))
    ]
  ]

module _ (Q : Substrings → Type 0)
    (step : (k : Key) (d : ℕ) (m : Substrings) → Q m → Q (record_distance k d m)) (fl : Float)
    (bound : StrictBound) (c : Candidate) (anchor : ℕ) where
  combine_forward-keeps :
      (back before after : ℕ) (ds : List ℕ) (m : Substrings)
      → Q m
      → Q (combine_forward fl bound c anchor back before after ds m)
  unfolding combine_forward
  combine_forward-keeps back before after [] m h = h
  combine_forward-keeps back before after (d ∷ ds) m h =
      let key : Key = (c.string_id, c.string_position - before, c.string_position + after + 1) in
      let d' = add_distance fl (add_distance fl anchor back) d in
      elim (Bool-cases (admits bound d')) [
        | inl fits ↦ rw fits (combine_forward-keeps back before (suc after) ds _ (step key d' m h))
        | inr over ↦ rw over (combine_forward-keeps back before (suc after) ds m h)
      ]

  -- A property that every recording keeps survives a candidate.
  pub combine-keeps :
      (before : ℕ) (bs fs : List ℕ) (m : Substrings)
      → Q m
      → Q (combine fl bound c anchor before bs fs m)
  unfolding combine
  combine-keeps before [] fs m h = h
  combine-keeps before (b ∷ bs) fs m h =
      combine-keeps (suc before) bs fs _ (combine_forward-keeps b before 0 fs m h)

-- A fact of the sums that are admitted becomes a fact of each entry.
module _ (F : Key → ℕ → Type 0) (fl : Float) (bound : StrictBound) (c : Candidate)
    (anchor : ℕ) where
  abbrev pub key_at : ℕ → ℕ → Key
  key_at before after = (c.string_id, c.string_position - before, c.string_position + after + 1)

  abbrev pub total : ℕ → ℕ → ℕ
  total back front = add_distance fl (add_distance fl anchor back) front

  combine_forward-AllEntries :
      (back before after : ℕ) (ds : List ℕ) (m : Substrings)
      → ((l f : ℕ)
          → get_elem? ds l ≡ some f
          → admits bound (total back f) ≡ true
          → F (key_at before (l + after)) (total back f))
      → AllEntries F m
      → AllEntries F (combine_forward fl bound c anchor back before after ds m)
  unfolding combine_forward
  combine_forward-AllEntries back before after [] m all h = h
  combine_forward-AllEntries back before after (d ∷ ds) m all h =
      let later : (l f : ℕ)
          → get_elem? ds l ≡ some f
          → admits bound (total back f) ≡ true
          → F (key_at before (l + suc after)) (total back f) =
        λ l f e a.
          subst (λ n. F (key_at before n) (total back f)) (omega arith) (all (suc l) f e a) in
      elim (Bool-cases (admits bound (total back d))) [
        | inl fits ↦ rw fits (
            combine_forward-AllEntries back before (suc after) ds _ later (
              record_distance-AllEntries F (key_at before after) _ m
                (subst (λ n. F (key_at before n) (total back d)) (omega arith) (all 0 d refl fits))
                h))
        | inr over ↦ rw over (combine_forward-AllEntries back before (suc after) ds m later h)
      ]

  pub combine-AllEntries :
      (before : ℕ) (bs fs : List ℕ) (m : Substrings)
      → ((k b l f : ℕ)
          → get_elem? bs k ≡ some b
          → get_elem? fs l ≡ some f
          → admits bound (total b f) ≡ true
          → F (key_at (k + before) l) (total b f))
      → AllEntries F m
      → AllEntries F (combine fl bound c anchor before bs fs m)
  unfolding combine
  combine-AllEntries before [] fs m all h = h
  combine-AllEntries before (b ∷ bs) fs m all h =
      combine-AllEntries (suc before) bs fs _
        (λ k b' l f e e' a.
          subst (λ n. F (key_at n l) (total b' f)) (omega arith) (all (suc k) b' l f e e' a))
        (combine_forward-AllEntries b before 0 fs m
          (λ l f e a.
            subst (λ n. F (key_at n (l + 0)) (total b f)) (omega arith)
              (subst (λ n. F (key_at (0 + before) n) (total b f)) (omega arith)
                (all 0 b l f refl e a)))
          h)

-- Every admitted sum is recorded.
module _ (P : ℕ → Type 0) (down : (a b : ℕ) → P a → P (min a b)) (fl : Float) (bound : StrictBound)
    (c : Candidate) (anchor : ℕ) where
  combine_forward-Has :
      (back before after : ℕ) (ds : List ℕ) (m : Substrings) (l f : ℕ)
      → get_elem? ds l ≡ some f
      → admits bound (add_distance fl (add_distance fl anchor back) f) ≡ true
      → P (add_distance fl (add_distance fl anchor back) f)
      → Has P
          (c.string_id, c.string_position - before, c.string_position + (l + after) + 1)
          (combine_forward fl bound c anchor back before after ds m)
  unfolding combine_forward
  combine_forward-Has back before after [] m l f e a p = cc
  combine_forward-Has back before after (d ∷ ds) m zero f e a p =
      let same : d ≡ f = cc in
      let key : Key = (c.string_id, c.string_position - before, c.string_position + after + 1) in
      let e' : 0 + after ≡ after = omega arith in
      rw (same, a, e')
        (combine_forward-keeps (Has P key) (λ k d m. record_distance-Has P down key k d m) fl bound
          c anchor back before (suc after) ds _
          (Has-record_distance P down key (add_distance fl (add_distance fl anchor back) f) m p))
  combine_forward-Has back before after (d ∷ ds) m (suc l) f e a p =
      subst
        (λ n.
          Has P (c.string_id, c.string_position - before, c.string_position + n + 1)
            (combine_forward fl bound c anchor back before after (d ∷ ds) m))
        (omega arith) (combine_forward-Has back before (suc after) ds _ l f e a p)

  pub combine-Has :
      (before : ℕ) (bs fs : List ℕ) (m : Substrings) (k b l f : ℕ)
      → get_elem? bs k ≡ some b
      → get_elem? fs l ≡ some f
      → admits bound (add_distance fl (add_distance fl anchor b) f) ≡ true
      → P (add_distance fl (add_distance fl anchor b) f)
      → Has P
          (c.string_id, c.string_position - (k + before), c.string_position + l + 1)
          (combine fl bound c anchor before bs fs m)
  unfolding combine
  combine-Has before [] fs m k b l f e e' a p = cc
  combine-Has before (d ∷ bs) fs m zero b l f e e' a p =
      let same : d ≡ b = cc in
      let key : Key = (c.string_id, c.string_position - before, c.string_position + (l + 0) + 1) in
      let n : 0 + before ≡ before = omega arith in
      let n' : l ≡ l + 0 = omega arith in
      rw n (
        subst
          (λ t.
            Has P (c.string_id, c.string_position - before, c.string_position + t + 1)
              (combine fl bound c anchor before (d ∷ bs) fs m))
          (sym n')
          (combine-keeps (Has P key) (λ k d m. record_distance-Has P down key k d m) fl bound c
            anchor (suc before) bs fs _ (rw same (combine_forward-Has b before 0 fs m l f e' a p))))
  combine-Has before (d ∷ bs) fs m (suc k) b l f e e' a p =
      subst
        (λ n.
          Has P (c.string_id, c.string_position - n, c.string_position + l + 1)
            (combine fl bound c anchor before (d ∷ bs) fs m))
        (omega arith) (combine-Has (suc before) bs fs _ k b l f e e' a p)
