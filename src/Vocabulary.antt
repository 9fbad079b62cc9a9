-- ===== src/Vocabulary.antt =====
-- src/vocabulary.rs: the tokens in the order of their symbols, and the symbol of each token.
pub mod Numbering
pub mod RoundTrip
pub mod Decoding
use yurine.Prelude.{
  ℕ, zero, suc, ◌+◌, Option, none, some, List, [], ◌∷◌, ◌++◌, length, get_elem?, ltb, Eq, map,
  if◌then◌else◌,
}
use yurine.Errors.{Error, Result, ok, err, ◌>>=◌}
use yurine.Types.{Symbol, unknown, is_unknown, symbol_from_usize}
use yurine.Map.{get, put, unwrap_or}

pub record VocabularyBuilder {ℓ} (T : Type ℓ) : Type ℓ where
  pub tokens : List T
  pub frequencies : List (T × ℕ)

pub record Vocabulary {ℓ} (T : Type ℓ) : Type ℓ where
  pub tokens : List T
  pub symbols : List (T × Symbol)

unfoldable pub new {ℓ} : {T : Type ℓ} → VocabularyBuilder T
new = record { tokens = []; frequencies = [] }

-- The stable sort, largest key first: a token goes behind those of an equal key.
module _ {ℓ} {T : Type ℓ} (key : T → ℕ) where
  unfoldable pub insert_by : T → List T → List T
  insert_by t [] = t ∷ []
  insert_by t (u ∷ us) = if ltb (key t) (key u) then u ∷ insert_by t us else t ∷ u ∷ us

  unfoldable pub sort_by : List T → List T
  unfolding insert_by
  sort_by [] = []
  sort_by (t ∷ ts) = insert_by t (sort_by ts)

module _ {ℓ} {T : Type ℓ} ⦃eq : Eq T⦄ where
  unfoldable pub insert : VocabularyBuilder T → T → VocabularyBuilder T
  unfolding get put
  insert b token = elim (get b.frequencies token) [
    | some frequency ↦ record b { frequencies = put b.frequencies token (frequency + 1) }
    | none ↦ record { tokens = b.tokens ++ token ∷ []; frequencies = put b.frequencies token 1 }
  ]

  unfoldable pub insert_all : VocabularyBuilder T → List T → VocabularyBuilder T
  unfolding insert
  insert_all b [] = b
  insert_all b (token ∷ tokens) = insert_all (insert b token) tokens

  -- The loop that numbers the tokens, from `index` on.
  unfoldable pub number_tokens : ℕ → List T → List (T × Symbol) → Result (List (T × Symbol))
  unfolding put symbol_from_usize
  number_tokens index [] symbols = ok symbols
  number_tokens index (token ∷ tokens) symbols = do
    symbol ← symbol_from_usize index
    number_tokens (suc index) tokens (put symbols token symbol)

  -- `self.frequencies[token]` is there for each token that was inserted.
  unfoldable pub build : VocabularyBuilder T → Result (Vocabulary T)
  unfolding number_tokens sort_by get
  build b =
      let tokens = sort_by (λ t. unwrap_or (get b.frequencies t) 0) b.tokens in
      number_tokens 0 tokens [] >>= λ symbols. ok (record { tokens = tokens; symbols = symbols })

  unfoldable pub number_distinct : ℕ → List T → List (T × Symbol) → Result (List (T × Symbol))
  unfolding put get symbol_from_usize
  number_distinct index [] symbols = ok symbols
  number_distinct index (token ∷ tokens) symbols = do
    symbol ← symbol_from_usize index
    elim (get symbols token) [
      | some _ ↦ err (Error.invalid_file "decoded vocabulary contains duplicate tokens")
      | none ↦ number_distinct (suc index) tokens (put symbols token symbol)
    ]

  unfoldable pub from_tokens : List T → Result (Vocabulary T)
  unfolding number_distinct
  from_tokens tokens =
      number_distinct 0 tokens [] >>= λ symbols. ok (record { tokens = tokens; symbols = symbols })

  unfoldable pub symbol : Vocabulary T → T → Symbol
  unfolding get
  symbol v token = unwrap_or (get v.symbols token) unknown

  unfoldable pub encode : Vocabulary T → List T → List Symbol
  unfolding symbol
  encode v tokens = map (symbol v) tokens

unfoldable pub token {ℓ} : {T : Type ℓ} → Vocabulary T → Symbol → Option T
unfolding is_unknown
token v s = if is_unknown s then none else get_elem? v.tokens s

unfoldable pub len {ℓ} : {T : Type ℓ} → Vocabulary T → ℕ
len v = length v.tokens
