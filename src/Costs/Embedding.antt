-- ===== src/Costs/Embedding.antt =====
-- src/costs/embedding.rs: stores of embeddings, and the costs by cosine distance. A `f32` is its bit
-- pattern; `Vectors` is the arithmetic of the processor that the code calls.
pub mod Cache
use yurine.Prelude.{
  ℕ, zero, suc, ◌+◌, ◌*◌, ◌/◌, ◌%◌, ◌==◌, List, [], ◌∷◌, ◌++◌, Option, none, some, Bool, true,
  false, Eq, if◌then◌else◌, not, ◌&&◌, length, take, drop, get_elem?, set, replicate, ltb, min, map,
}
use yurine.Errors.{Error, Result, panic, ok, err, ◌>>=◌, ◌>>◌, ok_or, slice}
use yurine.Types.{u32_max, usize_limit}
use yurine.Map.{get, put}
use yurine.Storage.{Storage, owned, as_slice}
use yurine.Costs.{Cost, cost_zero, cost_one, cost_new_const, is_finite}
use yurine.Persistence.Bytes.{checked_add, checked_mul, get_range}

-- `f64` and the operations on it, and those on `f32` patterns; `clamp` is to 0.0 and 1.0, and `sum`
-- the iterator's.
pub record Vectors : Type 1 where
  pub F64 : Type 0
  pub of_f32 : ℕ → F64
  pub to_f32 : F64 → ℕ
  pub square : F64 → F64
  pub sqrt : F64 → F64
  pub abs : F64 → F64
  pub total : List F64 → F64
  pub quotient : F64 → F64 → F64
  pub difference : F64 → F64 → F64
  pub gt : F64 → F64 → Bool
  pub is_zero : F64 → Bool
  pub unit_norm : F64
  pub tolerance : F64
  pub add : ℕ → ℕ → ℕ
  pub sub : ℕ → ℕ → ℕ
  pub mul : ℕ → ℕ → ℕ
  pub sum : List ℕ → ℕ
  pub clamp : ℕ → ℕ

-- A dimension is at least one.
pub record EmbeddingStoreBuilder {ℓ} (T : Type ℓ) : Type ℓ where
  pub dimension : ℕ
  pub embedding_indices : List (T × ℕ)
  pub embeddings : List ℕ

-- `validated_rows` has what is known of each row of a mapped store.
pub record EmbeddingStore {ℓ} (T : Type ℓ) : Type ℓ where
  pub dimension : ℕ
  pub embedding_indices : List (T × ℕ)
  pub embeddings : Storage ℕ
  pub validated_rows : Option (List (Option Bool))

unfoldable pub find_infinite : ℕ → List ℕ → Result (Unit {0})
find_infinite index [] = ok tt
find_infinite index (value ∷ values) =
    if not (is_finite value)
    then err (Error.invalid_embedding_value index value)
    else find_infinite (suc index) values

-- `stored.copy_from_slice`, at a start in the list.
unfoldable pub overwrite : List ℕ → ℕ → List ℕ → List ℕ
overwrite embeddings start row =
    take start embeddings ++ row ++ drop (start + length row) embeddings

module _ (v : Vectors) where
  unfoldable pub squared_norm : List ℕ → v.F64
  squared_norm embedding = v.total (map (λ value. v.square (v.of_f32 value)) embedding)

  unfoldable pub normalize : List ℕ → v.F64 → List ℕ
  normalize embedding norm = map (λ value. v.to_f32 (v.quotient (v.of_f32 value) norm)) embedding

  unfoldable pub validate_embedding : List ℕ → Result (Unit {0})
  unfolding find_infinite squared_norm
  validate_embedding embedding =
      find_infinite 0 embedding
      >> (if v.is_zero (squared_norm embedding)
          then err Error.zero_norm_embedding
          else if v.gt (v.abs (v.difference (squared_norm embedding) v.unit_norm)) v.tolerance
          then err (Error.invalid_file "embedding is not L2-normalized")
          else ok tt)

  -- One chunk of products, added lane by lane.
  unfoldable pub add_lanes : List ℕ → List ℕ → List ℕ → List ℕ
  add_lanes (lane ∷ lanes) (from ∷ froms) (to ∷ tos) =
      v.add lane (v.mul from to) ∷ add_lanes lanes froms tos
  add_lanes [] froms tos = []
  add_lanes (lane ∷ lanes) [] tos = lane ∷ lanes
  add_lanes (lane ∷ lanes) (from ∷ froms) [] = lane ∷ lanes

  unfoldable pub add_chunks : ℕ → List ℕ → List ℕ → List ℕ → List ℕ
  unfolding add_lanes
  add_chunks zero accumulators from to = accumulators
  add_chunks (suc chunks) accumulators from to =
      add_chunks chunks (add_lanes accumulators (take 16 from) (take 16 to)) (drop 16 from)
        (drop 16 to)

  unfoldable pub add_remainder : ℕ → List ℕ → List ℕ → ℕ
  add_remainder product [] tos = product
  add_remainder product (from ∷ froms) [] = product
  add_remainder product (from ∷ froms) (to ∷ tos) =
      add_remainder (v.add product (v.mul from to)) froms tos

  unfoldable pub dot_product : List ℕ → List ℕ → ℕ
  unfolding add_chunks add_remainder
  dot_product from to =
      let chunks = min (length from / 16) (length to / 16) in
      let product = v.sum (add_chunks chunks (replicate {A = ℕ} 16 0) from to) in
      add_remainder product (drop (length from / 16 * 16) from) (drop (length to / 16 * 16) to)

module _ {ℓ} {T : Type ℓ} where
  unfoldable pub new : ℕ → EmbeddingStoreBuilder T
  new dimension = record { dimension = dimension; embedding_indices = []; embeddings = [] }

  unfoldable pub build : EmbeddingStoreBuilder T → EmbeddingStore T
  build b = record {
    dimension = b.dimension;
    embedding_indices = b.embedding_indices;
    embeddings = owned b.embeddings;
    validated_rows = none;
  }

  unfoldable pub len : EmbeddingStore T → ℕ
  len store = length store.embedding_indices

  -- `get`, of the row at an index.
  unfoldable pub row_at : EmbeddingStore T → ℕ → Option (List ℕ)
  unfolding as_slice checked_mul checked_add get_range
  row_at store index = elim (checked_mul index store.dimension) [
    | none ↦ none
    | some start ↦ elim (checked_add start store.dimension) [
      | none ↦ none
      | some end ↦ get_range (as_slice store.embeddings) start end
    ]
  ]

abbrev pub is_ok : Result (Unit {0}) → Bool
is_ok (ok done) = true
is_ok (err problem) = false
is_ok panic = false

-- `get_or_init` of a cell.
abbrev pub get_or_init : Option Bool → Bool → Bool
get_or_init none computed = computed
get_or_init (some known) computed = known

module _ {ℓ} {T : Type ℓ} (v : Vectors) where
  -- The row if it is valid, and the store that has seen it, from what is known of the rows.
  unfoldable pub check_cells :
      Option (List (Option Bool))
      → EmbeddingStore T
      → ℕ
      → List ℕ
      → Option (List ℕ) × EmbeddingStore T
  unfolding validate_embedding
  check_cells none store index row = (some row, store)
  check_cells (some rows) store index row = elim (get_elem? rows index) [
    | none ↦ (none, store)
    | some cell ↦
        let valid = get_or_init cell (is_ok (validate_embedding v row)) in
        (
          if valid then some row else none,
          record store { validated_rows = some (set rows index (some valid)) },
        )
  ]

  -- `validated_rows[index].set`, which keeps what is known.
  unfoldable pub mark : EmbeddingStore T → ℕ → Bool → Result (EmbeddingStore T)
  mark store index valid = elim store.validated_rows [
    | none ↦ ok store
    | some rows ↦ elim (get_elem? rows index) [
      | none ↦ panic
      | some none ↦ ok (record store { validated_rows = some (set rows index (some valid)) })
      | some (some known) ↦ ok store
    ]
  ]

  -- The loop of `verify` over the rows, with the store that it has marked.
  unfoldable pub verify_rows : ℕ → ℕ → EmbeddingStore T → Result (EmbeddingStore T)
  unfolding row_at validate_embedding mark
  verify_rows zero index store = ok store
  verify_rows (suc rounds) index store = elim (row_at store index) [
    | none ↦ panic
    | some row ↦ mark store index (is_ok (validate_embedding v row)) >>= λ marked.
        (validate_embedding v row >> verify_rows rounds (suc index) marked)
  ]

  unfoldable pub verify : EmbeddingStore T → Result (EmbeddingStore T)
  unfolding checked_mul len as_slice verify_rows
  verify store = do
    expected_len ←
        ok_or (checked_mul (len store) store.dimension)
          (Error.invalid_file "embedding matrix length overflows")
    if not (length (as_slice store.embeddings) == expected_len)
        then err (Error.invalid_file "embedding matrix length does not match its shape")
        else verify_rows (len store) 0 store

module _ {ℓ} {T : Type ℓ} ⦃eq : Eq T⦄ (v : Vectors) where
  -- The previous embedding, if there is one, and the builder behind the insertion.
  unfoldable pub insert :
      EmbeddingStoreBuilder T → T → List ℕ → Result (Option (List ℕ) × EmbeddingStoreBuilder T)
  unfolding find_infinite squared_norm normalize get put slice overwrite
  insert b token embedding =
      if not (length embedding == b.dimension)
      then err (Error.invalid_embedding_dimension b.dimension (length embedding))
      else do
        finite ← find_infinite 0 embedding
        let row = normalize v embedding (v.sqrt (squared_norm v embedding))
        if v.is_zero (squared_norm v embedding)
            then err Error.zero_norm_embedding
            else elim (get b.embedding_indices token) [
              | some index ↦ do
                let start = index * b.dimension % usize_limit
                previous ← slice b.embeddings start (start + b.dimension)
                ok (some previous, record b { embeddings = overwrite b.embeddings start row })
              | none ↦
                  if ltb u32_max (length b.embeddings / b.dimension)
                  then err Error.embedding_index_overflow
                  else ok (
                    none,
                    record b {
                      embedding_indices =
                          put b.embedding_indices token (length b.embeddings / b.dimension);
                      embeddings = b.embeddings ++ row;
                    },
                  )
            ]

  -- `EmbeddingStoreBuilder::get`
  unfoldable pub get_embedding : EmbeddingStoreBuilder T → T → Result (Option (List ℕ))
  unfolding get slice
  get_embedding b token = elim (get b.embedding_indices token) [
    | none ↦ ok none
    | some index ↦
        let start = index * b.dimension % usize_limit in
        slice b.embeddings start (start + b.dimension) >>= λ row. ok (some row)
  ]

  -- `EmbeddingStore::get`
  unfoldable pub lookup : EmbeddingStore T → T → Option (List ℕ) × EmbeddingStore T
  unfolding get row_at check_cells
  lookup store token = elim (get store.embedding_indices token) [
    | none ↦ (none, store)
    | some index ↦ elim (row_at store index) [
      | none ↦ (none, store)
      | some row ↦ check_cells v store.validated_rows store index row
    ]
  ]

pub record CosineEmbeddingCosts {ℓ} (T : Type ℓ) : Type ℓ where
  pub embeddings : EmbeddingStore T
  pub deletion : Cost
  pub insertion : Cost
  pub missing_substitution : Cost

module _ {ℓ} {T : Type ℓ} where
  unfoldable pub cosine_costs : EmbeddingStore T → CosineEmbeddingCosts T
  cosine_costs embeddings = record {
    embeddings = embeddings;
    deletion = cost_one;
    insertion = cost_one;
    missing_substitution = cost_one;
  }

  unfoldable pub with_deletion_cost : CosineEmbeddingCosts T → Cost → CosineEmbeddingCosts T
  with_deletion_cost c cost = record c { deletion = cost }

  unfoldable pub with_insertion_cost : CosineEmbeddingCosts T → Cost → CosineEmbeddingCosts T
  with_insertion_cost c cost = record c { insertion = cost }

  unfoldable pub with_missing_substitution_cost :
      CosineEmbeddingCosts T → Cost → CosineEmbeddingCosts T
  with_missing_substitution_cost c cost = record c { missing_substitution = cost }

module _ {ℓ} {T : Type ℓ} ⦃eq : Eq T⦄ (v : Vectors) where
  -- `Cost::new_const` stops the program where the distance is NaN.
  unfoldable pub cosine_substitution : CosineEmbeddingCosts T → T → T → Result Cost
  unfolding lookup dot_product cost_new_const
  cosine_substitution c from to =
      let (from_row, seen) = lookup v c.embeddings from in
      let (to_row, seen_both) = lookup v seen to in
      if eq.beq from to then ok cost_zero else elim from_row [
        | none ↦ ok c.missing_substitution
        | some a ↦ elim to_row [
          | none ↦ ok c.missing_substitution
          | some b ↦ cost_new_const (v.clamp (v.sub cost_one (dot_product v a b)))
        ]
      ]

module _ {ℓ} {T : Type ℓ} where
  unfoldable pub cosine_deletion : CosineEmbeddingCosts T → T → Cost
  cosine_deletion c token = c.deletion

  unfoldable pub cosine_insertion : CosineEmbeddingCosts T → T → Cost
  cosine_insertion c token = c.insertion
