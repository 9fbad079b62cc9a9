-- ===== src/Search/Builder/Reopened.antt =====
-- src/search/persistence.rs, src/store.rs, src/search/range_search.rs: searches on an engine that was
-- built, saved and opened again, whose strings are validated at each access.
use yurine.Prelude.{
  ℕ, suc, ◌+◌, ◌≤◌, ◌<◌, ◌≡◌, refl, ap, subst, ◌∙◌, sym, Option, none, some, List, [], ◌∷◌, arith,
  length, map, All, Eq, false,
}
use yurine.Errors.{Result, ok, err, panic, >>=-eq-ok, ok-injective}
use yurine.Types.{Symbol, u32_max, is_unknown}
use yurine.Float.{Float, f32_max}
use yurine.Float.Laws.{IsExact}
use yurine.Costs.{Cost, EditCosts}
use yurine.Storage.{as_slice, mapped, is_mapped}
use yurine.Vocabulary.{encode, len}
use yurine.Vocabulary
use yurine.Store.{
  CorpusStore, string, string_bounds, string_without_symbol_validation, find_invalid, is_invalid,
  validate_symbols,
}
use yurine.Store
use yurine.Store.Strings.{stored, string-is}
use yurine.Postings.{posting_slice}
use yurine.Postings
use yurine.Search.Engine.{SearchEngine}
use yurine.Search.Builder.{SearchEngineBuilder, insert_sequences, add_sequences, build}
use yurine.Search.Builder.Contents.{add_sequences-ok}
use yurine.Search.Builder.Correct.{All-get, from_parts-ok, vocabulary-small, build-IsBuilt}
use yurine.Search.Persistence.Savable.{mapped_engine}
use yurine.Search.RangeSearch.{RangeSearchParams, automatic_eta, search_with_metrics}
use yurine.Search.RangeSearch.Outcome.{IsSearchable}
use yurine.Search.RangeSearch.EndToEnd.{
  HasGoodTokenCosts, IsSearched, search_with_metrics-IsSearched,
}
use yurine.Search.Builder.Tokens.{KeepsTokens, build-KeepsTokens}
use yurine.Search.Builder.Verified.{open_with-build}
use yurine.Persistence.Bytes.{u64_limit}
use yurine.Persistence.Codec.{TokenCodec}
use yurine.Search.Persistence.{save_with, open_with, encode_tokens}
use yurine.Search.Persistence.Savable.{IsCodec, payload_room}

-- The store with its arrays in the mapping.
abbrev mapped_store : CorpusStore → CorpusStore
mapped_store c = record {
  symbols = mapped (as_slice c.symbols);
  string_offsets = mapped (as_slice c.string_offsets);
  symbol_count = c.symbol_count;
}

is_invalid-low :
    (count symbol : ℕ) → count ≤ u32_max → symbol < count → is_invalid count symbol ≡ false
unfolding is_invalid is_unknown
is_invalid-low count symbol few low = ground arith

find_invalid-low :
    (count : ℕ) (symbols : List Symbol)
    → count ≤ u32_max
    → All (λ s. s < count) symbols
    → find_invalid count symbols ≡ none
unfolding find_invalid
find_invalid-low count [] few all = refl
find_invalid-low count (s ∷ symbols) few (low, all) =
    rw (is_invalid-low count s few low) (find_invalid-low count symbols few all)

validate_symbols-low :
    (c : CorpusStore) (symbols : List Symbol)
    → c.symbol_count ≤ u32_max
    → All (λ s. s < c.symbol_count) symbols
    → validate_symbols c symbols ≡ ok tt
unfolding validate_symbols
validate_symbols-low c symbols few low =
    rw (validate_symbols, find_invalid-low c.symbol_count symbols few low) refl

same_lookup :
    (c : CorpusStore) (id : ℕ)
    → string_without_symbol_validation (mapped_store c) id ≡ string_without_symbol_validation c id
unfolding string_without_symbol_validation string_bounds as_slice
same_lookup c id = refl

module _ (strings : List (List Symbol)) (count : ℕ) (few : count ≤ u32_max)
    (low : All (All (λ s. s < count)) strings) where
  -- The validation at each access refuses none of the strings.
  string-mapped :
      (id : ℕ) → string (mapped_store (stored strings count)) id ≡ string (stored strings count) id
  unfolding string is_mapped Store.build
  string-mapped id = from (string_without_symbol_validation (stored strings count) id) refl
    where
      from :
          (r : Result (Option (List Symbol)))
          → string_without_symbol_validation (stored strings count) id ≡ r
          → string (mapped_store (stored strings count)) id ≡ string (stored strings count) id
      from (err e) at = rw (same_lookup (stored strings count) id, at) refl
      from panic at = rw (same_lookup (stored strings count) id, at) refl
      from (ok none) at = rw (same_lookup (stored strings count) id, at) refl
      from (ok (some s)) at =
          let there : string (stored strings count) id ≡ ok (some s) = rw at refl in
          let all =
            All-get (All (λ t. t < count)) strings id s low (string-is strings count id s there) in
          rw
            (
              same_lookup (stored strings count) id,
              at,
              validate_symbols-low (mapped_store (stored strings count)) s few all,
            )
            refl

module _ {ℓ} {T : Type ℓ} ⦃eq : Eq T⦄ where
  mapped_engine-IsSearchable :
      (engine : SearchEngine T)
      → ((id : ℕ) → string (mapped_store engine.store) id ≡ string engine.store id)
      → IsSearchable engine
      → IsSearchable (mapped_engine engine)
  unfolding posting_slice as_slice
  mapped_engine-IsSearchable engine same searchable = record {
    slices = searchable.slices;
    found = λ id j s symbol at_id at_symbol.
        searchable.found id j s symbol (sym (same id) ∙ at_id) at_symbol;
    valid = λ symbol ps p sliced listed.
        let (s, at_id, at_symbol) = searchable.valid symbol ps p sliced listed in
        (s, same p.string_id ∙ at_id, at_symbol);
    alphabet = λ id j s symbol at_id at_symbol.
        searchable.alphabet id j s symbol (sym (same id) ∙ at_id) at_symbol;
  }

  build-string-mapped :
      (b : SearchEngineBuilder T) (engine : SearchEngine T)
      → build b ≡ ok engine
      → (id : ℕ) → string (mapped_store engine.store) id ≡ string engine.store id
  unfolding build Store.new Store.build Postings.new
  build-string-mapped b engine e id =
      let (v, e1, r1) =
        >>=-eq-ok (Vocabulary.build (insert_sequences Vocabulary.new b.sequences)) _ e in
      let (parts, e2, r2) =
        >>=-eq-ok (add_sequences v 0 b.sequences (Postings.new (len v)) Store.new) _ r1 in
      let (same_v, same_index, same_store, symbols) =
        from_parts-ok v (Postings.build parts.0) (Store.build parts.1 (len v)) engine r2 in
      let (c1, c2, c3, c4, c5) = add_sequences-ok v 0 b.sequences _ _ parts e2 in
      let store_is : engine.store ≡ stored (map (encode v) b.sequences) (len v) =
        same_store ∙ ap (λ t. Store.build t (len v)) c3 in
      subst (λ t. string (mapped_store t) id ≡ string t id) (sym store_is)
        (string-mapped (map (encode v) b.sequences) (len v)
          (vocabulary-small v (insert_sequences Vocabulary.new b.sequences) e1) c4 id)

  mapped_engine-KeepsTokens :
      (sequences : List (List T)) (engine : SearchEngine T)
      → ((id : ℕ) → string (mapped_store engine.store) id ≡ string engine.store id)
      → KeepsTokens sequences engine
      → KeepsTokens sequences (mapped_engine engine)
  mapped_engine-KeepsTokens sequences engine same keeps = record {
    stores = λ id sequence at. same id ∙ keeps.stores id sequence at;
    recovers = λ id s at. keeps.recovers id s (sym (same id) ∙ at);
    decodes = keeps.decodes;
    known = keeps.known;
    counted = keeps.counted;
    few = keeps.few;
  }

  -- When an engine that was built is saved, in a file of less than 2^64 bytes, and that file is opened,
  -- then a search on what `open_with` returns, whose strings are validated at each access, ends with the
  -- exact answer in the builder's sequences by the costs of the tokens, with SearchTooExpensive and the
  -- number of the candidates, or with ThresholdSubsequenceUnavailable, each under the conditions of
  -- search-IsSearched; for costs whose sums are exact, a threshold below the largest finite cost, and a
  -- query for which there are symbols left.
  pub open_with-IsSearched :
      {fl : Float} (x : IsExact fl) (builder : SearchEngineBuilder T)
      (engine reopened : SearchEngine T) (codec : TokenCodec T) (offsets blob file : List ℕ)
      (costs : EditCosts T) (good : HasGoodTokenCosts x costs) (query : List T)
      (params : RangeSearchParams) (eta : Cost)
      → build builder ≡ ok engine
      → IsCodec codec
      → encode_tokens codec engine.vocabulary.tokens (0 ∷ []) [] ≡ ok (offsets, blob)
      → 704 + payload_room engine offsets blob < u64_limit
      → save_with codec engine ≡ ok file
      → open_with codec file ≡ ok reopened
      → len engine.vocabulary + length query ≤ u32_max
      → params.threshold < f32_max
      → x.IsGood (suc params.threshold)
      → x.value (suc params.threshold) ≤ x.limit
      → automatic_eta fl params.threshold (length query) ≡ ok eta
      → IsSearched x costs good reopened builder.sequences query params eta
          (search_with_metrics fl reopened costs query params)
  open_with-IsSearched {fl} x builder engine reopened codec offsets blob file costs good query
        params eta built is_codec encodes room saved opened small lt bound_good bound_small e =
      let (written, saves, opens) =
        open_with-build builder engine codec offsets blob built is_codec encodes room in
      let same_file : written ≡ file = ok-injective (sym saves ∙ saved) in
      let is_mapped : mapped_engine engine ≡ reopened =
        ok-injective (sym opens ∙ ap (open_with codec) same_file ∙ opened) in
      let whole = build-IsBuilt builder engine built in
      let same = build-string-mapped builder engine built in
      subst
        (λ r.
          IsSearched x costs good r builder.sequences query params eta
            (search_with_metrics fl r costs query params))
        is_mapped
        (search_with_metrics-IsSearched x costs good (mapped_engine engine) builder.sequences
          (mapped_engine-KeepsTokens builder.sequences engine same
            (build-KeepsTokens builder engine built))
          query params eta (mapped_engine-IsSearchable engine same whole.searchable) whole.faithful
          small lt bound_good bound_small e)
