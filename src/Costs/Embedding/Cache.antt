-- ===== src/Costs/Embedding/Cache.antt =====
-- The rows that a mapped store has validated are remembered, which no lookup can notice.
use yurine.Prelude.{
  ℕ, zero, suc, ◌≡◌, refl, sym, ap, ◌∙◌, subst, List, [], ◌∷◌, Option, none, some, Bool, Eq,
  if◌then◌else◌, get_elem?, set, Option-cases, inl, inr, ◌⊎◌,
}
use mathlib.Core.Option.{some-injective}
use yurine.Map.{get}
use yurine.Costs.Embedding.{
  Vectors, EmbeddingStore, row_at, validate_embedding, is_ok, get_or_init, check_cells, lookup,
}

get_elem?-set :
    {A : Type 0} (xs : List A) (i j : ℕ) (a b : A)
    → get_elem? (set xs i a) j ≡ some b
    → (get_elem? xs j ≡ some b) ⊎ ((i ≡ j) × (a ≡ b))
get_elem?-set [] i j a b e = inl e
get_elem?-set (x ∷ xs) zero zero a b e = inr (refl, some-injective a b e)
get_elem?-set (x ∷ xs) zero (suc j) a b e = inl e
get_elem?-set (x ∷ xs) (suc i) zero a b e = inl e
get_elem?-set (x ∷ xs) (suc i) (suc j) a b e = elim (get_elem?-set xs i j a b e) [
  | inl before ↦ inl before
  | inr (same, value) ↦ inr (ap suc same, value)
]

-- A row of a mapped store that is valid, or any row of a store in memory: no cache.
unfoldable pub valid_row : Vectors → Option (List (Option Bool)) → ℕ → List ℕ → Option (List ℕ)
valid_row v none index row = some row
valid_row v (some rows) index row = elim (get_elem? rows index) [
  | none ↦ none
  | some cell ↦ if is_ok (validate_embedding v row) then some row else none
]

module _ {ℓ} {T : Type ℓ} (v : Vectors) where
  -- What is known of a row is whether it is valid.
  unfoldable pub IsCached : EmbeddingStore T → Type 0
  IsCached store =
      (rows : List (Option Bool)) (index : ℕ) (known : Bool) (row : List ℕ)
      → store.validated_rows ≡ some rows
      → get_elem? rows index ≡ some (some known)
      → row_at store index ≡ some row
      → known ≡ is_ok (validate_embedding v row)

  known_cell :
      (store : EmbeddingStore T) (rows : List (Option Bool)) (index : ℕ) (row : List ℕ)
      (cell : Option Bool)
      → IsCached store
      → store.validated_rows ≡ some rows
      → row_at store index ≡ some row
      → get_elem? rows index ≡ some cell
      → get_or_init cell (is_ok (validate_embedding v row)) ≡ is_ok (validate_embedding v row)
  unfolding IsCached
  known_cell store rows index row none cached is_mapped at cell = refl
  known_cell store rows index row (some known) cached is_mapped at cell =
      cached rows index known row is_mapped cell at

  marked-IsCached :
      (store : EmbeddingStore T) (rows : List (Option Bool)) (index : ℕ) (row : List ℕ)
      → IsCached store
      → store.validated_rows ≡ some rows
      → row_at store index ≡ some row
      → IsCached (record store {
        validated_rows = some (set rows index (some (is_ok (validate_embedding v row))));
      })
  unfolding IsCached row_at
  marked-IsCached store rows index row cached is_mapped at rows' other known row' e cell at' =
      let same : set rows index (some (is_ok (validate_embedding v row))) ≡ rows' =
        some-injective _ _ e in
      elim (get_elem?-set rows index other _ (some known)
        (subst (λ r. get_elem? r other ≡ some (some known)) (sym same) cell)) [
          | inl before ↦ cached rows other known row' is_mapped before at'
          | inr (here, value) ↦
              let same_row : row ≡ row' =
                some-injective row row'
                  (sym at ∙ subst (λ i. row_at store i ≡ some row') (sym here) at') in
              sym (some-injective _ _ value) ∙ ap (λ r. is_ok (validate_embedding v r)) same_row
        ]

  check_cells-valid_row :
      (validated_rows : Option (List (Option Bool))) (store : EmbeddingStore T) (index : ℕ)
      (row : List ℕ)
      → IsCached store
      → store.validated_rows ≡ validated_rows
      → row_at store index ≡ some row
      → ((check_cells v validated_rows store index row).0 ≡ valid_row v validated_rows index row)
        × IsCached (check_cells v validated_rows store index row).1
  unfolding check_cells valid_row
  check_cells-valid_row none store index row cached e at = (refl, cached)
  check_cells-valid_row (some rows) store index row cached e at =
      elim (Option-cases (get_elem? rows index)) [
        | inl outside ↦ rw (check_cells, valid_row, outside) (refl, cached)
        | inr (cell, there) ↦
            let known = known_cell store rows index row cell cached e at there in
            let marked = marked-IsCached store rows index row cached e at in
            rw (check_cells, valid_row, there, known) (refl, marked)
      ]

-- `get` without the cache.
unfoldable pub plain_lookup {ℓ} :
    {T : Type ℓ} → ⦃eq : Eq T⦄ → Vectors → EmbeddingStore T → T → Option (List ℕ)
unfolding get valid_row
plain_lookup v store token = elim (get store.embedding_indices token) [
  | none ↦ none
  | some index ↦ elim (row_at store index) [
    | none ↦ none
    | some row ↦ valid_row v store.validated_rows index row
  ]
]

-- While what is remembered of each row is whether it is valid, as it is at first, a lookup gives the
-- row that it would give without the cache, and what it remembers is still true of the rows.
pub lookup-IsCached {ℓ} :
    {T : Type ℓ} ⦃eq : Eq T⦄ (v : Vectors) (store : EmbeddingStore T) (token : T)
    → IsCached v store
    → ((lookup v store token).0 ≡ plain_lookup v store token) × IsCached v (lookup v store token).1
unfolding lookup plain_lookup
lookup-IsCached v store token cached = elim (Option-cases (get store.embedding_indices token)) [
  | inl unknown_token ↦ rw (lookup, plain_lookup, unknown_token) (refl, cached)
  | inr (index, found) ↦ elim (Option-cases (row_at store index)) [
    | inl outside ↦ rw (lookup, plain_lookup, found, outside) (refl, cached)
    | inr (row, at) ↦
        rw (lookup, plain_lookup, found, at)
          (check_cells-valid_row v store.validated_rows store index row cached refl at)
  ]
]
