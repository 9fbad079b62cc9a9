-- ===== src/Search/Builder/Tokens.antt =====
-- src/search/builder.rs: the strings of a built engine stand for its sequences, token by token.
use yurine.Prelude.{
  ℕ, zero, suc, ◌≤◌, ◌<◌, ◌≡◌, refl, sym, ap, ap₂, subst, ◌∙◌, List, [], ◌∷◌, arith, map, get_elem?,
  some, All, Eq, false,
}
use yurine.Errors.{ok, >>=-eq-ok}
use yurine.Types.{Symbol, u32_max, is_unknown}
use yurine.Vocabulary.{Vocabulary, encode, symbol, token, len}
use yurine.Vocabulary
use yurine.Store
use yurine.Store.Strings.{stored, string-is}
use yurine.Postings
use yurine.Postings.Alphabet.{alphabet-below}
use yurine.Search.Engine.{SearchEngine}
use yurine.Search.Encoding.RoundTrip.{IsFaithful}
use yurine.Search.Builder.{SearchEngineBuilder, insert_sequences, add_sequences, build}
use yurine.Search.Builder.Contents.{add_sequences-ok}
use yurine.Search.Builder.Correct.{All-get, from_parts-ok, vocabulary-small, build-IsBuilt}

known-below : (s count : ℕ) → s < count → count ≤ u32_max → is_unknown s ≡ false
unfolding is_unknown
known-below s count h few = ground (arith, h, few)

module _ {ℓ} {T : Type ℓ} ⦃eq : Eq T⦄ where
  -- Each stored string is the encoding of a sequence, and each of its symbols has its token; so has
  -- every symbol of the alphabet, and every number below the store's count is a symbol.
  pub record KeepsTokens (sequences : List (List T)) (engine : SearchEngine T) : Type ℓ where
    pub stores :
        (id : ℕ) (sequence : List T)
        → get_elem? sequences id ≡ some sequence
        → Store.string engine.store id ≡ ok (some (encode engine.vocabulary sequence))
    pub recovers :
        (id : ℕ) (string : List Symbol)
        → Store.string engine.store id ≡ ok (some string)
        → (sequence : List T) × (get_elem? sequences id ≡ some sequence)
          × (string ≡ encode engine.vocabulary sequence)
    pub decodes :
        (id : ℕ) (sequence : List T)
        → get_elem? sequences id ≡ some sequence
        → map (token engine.vocabulary) (encode engine.vocabulary sequence) ≡ map some sequence
    pub known : All (λ s. s < len engine.vocabulary) engine.neighborhood.alphabet
    pub counted : engine.store.symbol_count ≡ len engine.vocabulary
    pub few : len engine.vocabulary ≤ u32_max

  get_elem?-map-back :
      (f : List T → List Symbol) (xs : List (List T)) (i : ℕ) (a : List Symbol)
      → get_elem? (map f xs) i ≡ some a
      → (x : List T) × (get_elem? xs i ≡ some x) × (a ≡ f x)
  get_elem?-map-back f [] i a e = cc
  get_elem?-map-back f (x ∷ xs) zero a e = (x, refl, cc)
  get_elem?-map-back f (x ∷ xs) (suc i) a e = get_elem?-map-back f xs i a e

  tokens-of :
      (v : Vocabulary T)
      → IsFaithful v
      → len v ≤ u32_max
      → (ts : List T) → All (λ s. s < len v) (map (symbol v) ts)
      → map (token v) (map (symbol v) ts) ≡ map some ts
  tokens-of v faithful few [] all = refl
  tokens-of v faithful few (t ∷ ts) (low, all) =
      ap₂ (λ a b. a ∷ b) (faithful t (known-below (symbol v t) (len v) low few))
        (tokens-of v faithful few ts all)

  pub build-KeepsTokens :
      (b : SearchEngineBuilder T) (engine : SearchEngine T)
      → build b ≡ ok engine
      → KeepsTokens b.sequences engine
  unfolding build Store.new Store.build Postings.new encode
  build-KeepsTokens b engine e =
      let whole = build-IsBuilt b engine e in
      let (v, e1, r1) =
        >>=-eq-ok (Vocabulary.build (insert_sequences Vocabulary.new b.sequences)) _ e in
      let (parts, e2, r2) =
        >>=-eq-ok (add_sequences v 0 b.sequences (Postings.new (len v)) Store.new) _ r1 in
      let (same_v, same_index, same_store, symbols) =
        from_parts-ok v (Postings.build parts.0) (Store.build parts.1 (len v)) engine r2 in
      let (c1, c2, c3, c4, c5) = add_sequences-ok v 0 b.sequences _ _ parts e2 in
      let strings = map (encode v) b.sequences in
      let small = vocabulary-small v (insert_sequences Vocabulary.new b.sequences) e1 in
      let store_is : engine.store ≡ stored strings (len v) =
        same_store ∙ ap (λ t. Store.build t (len v)) c3 in
      record {
        stores = whole.stores;
        recovers = λ id string at.
            let (sequence, there, same) = get_elem?-map-back (encode v) b.sequences id string (
              string-is strings (len v) id string
                (subst (λ t. Store.string t id ≡ ok (some string)) store_is at)) in
            (sequence, there, same ∙ ap (λ w. encode w sequence) (sym same_v));
        decodes = λ id sequence at.
            subst (λ w. map (token w) (encode w sequence) ≡ map some sequence) (sym same_v)
              (tokens-of v (subst IsFaithful same_v whole.faithful) small sequence (
                All-get (λ q. All (λ s. s < len v) (map (symbol v) q)) b.sequences id sequence
                  (inner v b.sequences c4) at));
        known =
            subst (λ n. All (λ s. s < n) engine.neighborhood.alphabet) (c1 ∙ ap len (sym same_v))
              (alphabet-below parts.0 engine.neighborhood.alphabet symbols);
        counted = ap (λ t. t.symbol_count) same_store ∙ ap len (sym same_v);
        few = subst (λ w. len w ≤ u32_max) (sym same_v) small;
      }
    where
      inner :
          (v : Vocabulary T) (sequences : List (List T))
          → All (All (λ s. s < len v)) (map (encode v) sequences)
          → All (λ q. All (λ s. s < len v) (map (symbol v) q)) sequences
      inner v [] all = tt
      inner v (q ∷ sequences) (here, all) = (here, inner v sequences all)
