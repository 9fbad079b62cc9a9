-- ===== src/Search/Encoding.antt =====
-- src/search/encoding.rs: the query in symbols, and the costs of symbols.
pub mod RoundTrip
use yurine.Prelude.{
  ℕ, ◌+◌, ◌-◌, Option, none, some, List, [], ◌∷◌, ◌++◌, length, get_elem?, ltb, Eq, if◌then◌else◌,
}
use yurine.Errors.{Error, Result, ok, err, panic, ◌>>=◌, expect}
use yurine.Types.{Symbol, is_unknown, symbol_from_usize, usize_limit}
use yurine.Map.{get, put}
use yurine.Costs.{Cost, EditCosts}
use yurine.Vocabulary.{Vocabulary, symbol, token, len}

pub record EncodedQuery {ℓ} (T : Type ℓ) : Type ℓ where
  pub string : List Symbol
  pub unknown_tokens : List T

module _ {ℓ} {T : Type ℓ} ⦃eq : Eq T⦄ (v : Vocabulary T) where
  -- The loop over the query's tokens, with the three variables that it fills.
  unfoldable pub encode_tokens :
      List T → List Symbol → List T → List (T × Symbol) → Result (EncodedQuery T)
  unfolding symbol is_unknown get put symbol_from_usize len
  encode_tokens [] string unknown_tokens unknown_symbols =
      ok (record { string = string; unknown_tokens = unknown_tokens })
  encode_tokens (t ∷ ts) string unknown_tokens unknown_symbols =
      let known = encode_tokens ts (string ++ symbol v t ∷ []) unknown_tokens unknown_symbols in
      let fresh =
        if ltb (len v + length unknown_tokens) usize_limit
        then (symbol_from_usize (len v + length unknown_tokens) >>= λ s.
            encode_tokens ts (string ++ s ∷ []) (unknown_tokens ++ t ∷ [])
              (put unknown_symbols t s))
        else err Error.symbol_overflow in
      if is_unknown (symbol v t)
      then elim (get unknown_symbols t) [
        | some s ↦ encode_tokens ts (string ++ s ∷ []) unknown_tokens unknown_symbols
        | none ↦ fresh
      ]
      else known

  unfoldable pub new : List T → Result (EncodedQuery T)
  unfolding encode_tokens
  new query_sequence = encode_tokens query_sequence [] [] []

-- `EncodedCosts::token`; an index out of range stops the program.
unfoldable pub symbol_token {ℓ} : {T : Type ℓ} → Vocabulary T → List T → Symbol → Option T
unfolding token len
symbol_token v unknown_tokens s = elim (token v s) [
  | some t ↦ some t
  | none ↦ get_elem? unknown_tokens (s - len v)
]
