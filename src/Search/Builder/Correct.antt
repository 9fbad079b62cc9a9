-- ===== src/Search/Builder/Correct.antt =====
-- src/search/builder.rs: an engine that is built is searchable: its postings are those of its strings,
-- which are the encoded sequences, and its alphabet has their symbols.
use mathlib.Core.Path.{subst₂}
use yurine.Prelude.{
  All-∈, ℕ, zero, suc, ◌≤◌, ◌<◌, ◌≡◌, ap, subst, ◌∙◌, sym, List, [], ◌∷◌, ◌∈◌, inl, inr, arith,
  length, length-map, get_elem?, get_elem?-lt, map, some, All, Eq, Bool-cases,
}
use yurine.Errors.{ok, >>=-eq-ok, ok-injective}
use yurine.Types.{Symbol, u32_max, unknown}
use yurine.Map.{get, unwrap_or}
use yurine.Vocabulary.{Vocabulary, encode, len, number_tokens, sort_by, insert_all}
use yurine.Vocabulary
use yurine.Vocabulary.RoundTrip.{IsCounted, new-IsCounted, insert_all-IsCounted, build-IsFaithful}
use yurine.Search.Encoding.RoundTrip.{IsFaithful}
use yurine.Store.{CorpusStore}
use yurine.Store
use yurine.Store.Strings.{stored, string-of, string-is}
use yurine.Postings.{PostingsIndexBuilder, alphabet}
use yurine.Postings
use yurine.Postings.Grouping.{Entry, entries_of, dedup-sort-keeps, All-dedup-sort}
use yurine.Postings.Slices.{posting_slice-of_symbol, ∈-of_symbol, of_symbol-∈}
use yurine.Postings.Alphabet.{alphabet-has}
use yurine.Search.Engine.{SearchEngine, from_parts, from_unverified_parts}
use yurine.Search.Filtering.Neighborhood.{SubstitutionNeighborhood, all_unique}
use yurine.Search.Filtering.Neighborhood
use yurine.Search.RangeSearch.Answer.{IsIndexed}
use yurine.Search.RangeSearch.Outcome.{IsSearchable}
use yurine.Search.Builder.{SearchEngineBuilder, insert_sequences, add_sequences, build}
use yurine.Search.Builder.Contents.{
  all_entries, all_entries-has, All-all_entries, add_sequences-ok, number_tokens-bound,
}

pub All-get {ℓ} :
    {A : Type ℓ} (P : A → Type 0) (xs : List A) (i : ℕ) (a : A)
    → All P xs
    → get_elem? xs i ≡ some a
    → P a
All-get P [] i a h e = cc
All-get P (x ∷ xs) zero a h e = let same : x ≡ a = cc in subst P same h.0
All-get P (x ∷ xs) (suc i) a h e = All-get P xs i a h.1 e

module _ (strings : List (List Symbol)) (count : ℕ) (b : PostingsIndexBuilder)
    (n : SubstitutionNeighborhood) (few : b.symbol_count ≤ unknown)
    (entries : b.postings ≡ all_entries 0 strings)
    (below_count : All (All (λ s. s < b.symbol_count)) strings)
    (short : length strings ≤ suc u32_max)
    (symbols : alphabet (Postings.build b) ≡ ok n.alphabet) where
  entries_below : All (λ e. e.0 < b.symbol_count) b.postings
  entries_below = subst (All (λ e. e.0 < b.symbol_count)) (sym entries) (
      All-all_entries (λ e. e.0 < b.symbol_count) 0 strings
        (λ i j string s at_string at_symbol.
          All-get (λ t. t < b.symbol_count) string j s
            (All-get (All (λ t. t < b.symbol_count)) strings i string below_count at_string)
            at_symbol))

  entry_of :
      (id j : ℕ) (string : List Symbol) (s : Symbol)
      → Store.string (stored strings count) id ≡ ok (some string)
      → get_elem? string j ≡ some s
      → (s, record { string_id = id; position = j }) ∈ entries_of b.postings
  entry_of id j string s at_string at_symbol =
      dedup-sort-keeps (s, record { string_id = id; position = j }) b.postings
        (subst (λ es. (s, record { string_id = id; position = j }) ∈ es) (sym entries)
          (all_entries-has 0 strings id id j string s (omega arith)
            (string-is strings count id string at_string) at_symbol))

  abbrev IsStored : Entry → Type 0
  IsStored (s, p) =
      (string : List Symbol) × (Store.string (stored strings count) p.string_id ≡ ok (some string))
      × (get_elem? string p.position ≡ some s)

  entries-IsStored : All IsStored (entries_of b.postings)
  entries-IsStored = All-dedup-sort IsStored b.postings (
      subst (All IsStored) (sym entries) (
        All-all_entries IsStored 0 strings (λ i j string s at_string at_symbol. (
          string,
          subst (λ k. Store.string (stored strings count) k ≡ ok (some string)) (omega arith)
              (string-of strings count i string at_string
                (omega (arith, get_elem?-lt strings i string at_string, short))),
          at_symbol,
        ))))

  parts-IsIndexed : IsIndexed (Postings.build b) (stored strings count) n
  parts-IsIndexed = record {
    slices = λ s. (_, posting_slice-of_symbol b s few entries_below);
    found = λ id j string s at_string at_symbol. (
      _,
      posting_slice-of_symbol b s few entries_below,
      ∈-of_symbol s (record { string_id = id; position = j }) (entries_of b.postings)
          (entry_of id j string s at_string at_symbol),
    );
    valid = λ s ps p e i.
        All-∈ IsStored (entries_of b.postings) (s, p) entries-IsStored
          (of_symbol-∈ s p (entries_of b.postings) (
            subst (λ t. p ∈ t)
              (ok-injective (sym e ∙ posting_slice-of_symbol b s few entries_below)) i));
    alphabet = λ id j string s at_string at_symbol.
        let here = entry_of id j string s at_string at_symbol in
        alphabet-has b n.alphabet (s, record { string_id = id; position = j }) entries_below symbols
          here
          (All-∈ (λ e. e.0 < b.symbol_count) (entries_of b.postings) _
            (All-dedup-sort (λ e. e.0 < b.symbol_count) b.postings entries_below) here);
  }

Neighborhood-new-ok :
    (symbols : List Symbol) (n : SubstitutionNeighborhood)
    → Neighborhood.new symbols ≡ ok n
    → n.alphabet ≡ symbols
unfolding Neighborhood.new
Neighborhood-new-ok symbols n e = elim (Bool-cases (all_unique [] symbols)) [
  | inl y ↦ ap (λ t. t.alphabet) (sym (ok-injective (rw y at e)))
  | inr d ↦ cc (rw d at e)
]

module _ {ℓ} {T : Type ℓ} ⦃eq : Eq T⦄ where
  pub get_elem?-map :
      (f : List T → List Symbol) (xs : List (List T)) (i : ℕ) (a : List T)
      → get_elem? xs i ≡ some a
      → get_elem? (map f xs) i ≡ some (f a)
  get_elem?-map f [] i a e = cc
  get_elem?-map f (x ∷ xs) zero a e = let same : x ≡ a = cc in ap (λ t. some (f t)) same
  get_elem?-map f (x ∷ xs) (suc i) a e = get_elem?-map f xs i a e

  pub record IsBuilt (b : SearchEngineBuilder T) (engine : SearchEngine T) : Type ℓ where
    pub searchable : IsSearchable engine
    pub stores :
        (id : ℕ) (sequence : List T)
        → get_elem? b.sequences id ≡ some sequence
        → Store.string engine.store id ≡ ok (some (encode engine.vocabulary sequence))
    pub faithful : IsFaithful engine.vocabulary

  pub insert_sequences-IsCounted :
      (b : Vocabulary.VocabularyBuilder T) (ss : List (List T))
      → IsCounted b
      → IsCounted (insert_sequences b ss)
  unfolding insert_sequences
  insert_sequences-IsCounted b [] h = h
  insert_sequences-IsCounted b (s ∷ ss) h =
      insert_sequences-IsCounted (insert_all b s) ss (insert_all-IsCounted b s h)

  pub vocabulary-small :
      (v : Vocabulary T) (builder : _) → Vocabulary.build builder ≡ ok v → len v ≤ u32_max
  unfolding Vocabulary.build len
  vocabulary-small v builder e =
      let tokens = sort_by (λ t. unwrap_or (get builder.frequencies t) 0) builder.tokens in
      let (symbols, e1, r1) = >>=-eq-ok (number_tokens 0 tokens []) _ e in
      subst (λ t. length t ≤ u32_max) (ap (λ t. t.tokens) (ok-injective r1))
        (omega (
          arith,
          number_tokens-bound (record { tokens = []; symbols = [] }) 0 tokens [] symbols e1
              (omega arith),
        ))

  pub from_parts-ok :
      (v : Vocabulary T) (index : _) (store : CorpusStore) (engine : SearchEngine T)
      → from_parts v index store ≡ ok engine
      → (engine.vocabulary ≡ v)
        × (engine.index ≡ index)
        × (engine.store ≡ store)
        × (alphabet index ≡ ok engine.neighborhood.alphabet)
  unfolding from_parts from_unverified_parts
  from_parts-ok v index store engine e =
      let (_, e0, r0) = >>=-eq-ok (Store.verify store) _ e in
      let (symbols, e1, r1) = >>=-eq-ok (alphabet index) _ r0 in
      let (n, e2, r2) = >>=-eq-ok (Neighborhood.new symbols) _ r1 in
      let same = sym (ok-injective r2) in
      (
        ap (λ t. t.vocabulary) same,
        ap (λ t. t.index) same,
        ap (λ t. t.store) same,
        e1
            ∙ ap ok (
                sym (Neighborhood-new-ok symbols n e2)
                ∙ ap (λ t. t.neighborhood.alphabet) (sym same)),
      )

  -- An engine that `build` returns is searchable, stores the encoded sequences in their order, and has
  -- the token of each symbol.
  pub build-IsBuilt :
      (b : SearchEngineBuilder T) (engine : SearchEngine T) → build b ≡ ok engine → IsBuilt b engine
  unfolding build Store.new Store.build Postings.new
  build-IsBuilt b engine e =
      let (v, e1, r1) =
        >>=-eq-ok (Vocabulary.build (insert_sequences Vocabulary.new b.sequences)) _ e in
      let (parts, e2, r2) =
        >>=-eq-ok (add_sequences v 0 b.sequences (Postings.new (len v)) Store.new) _ r1 in
      let (same_v, same_index, same_store, symbols) =
        from_parts-ok v (Postings.build parts.0) (Store.build parts.1 (len v)) engine r2 in
      let (c1, c2, c3, c4, c5) = add_sequences-ok v 0 b.sequences _ _ parts e2 in
      let strings = map (encode v) b.sequences in
      let short : length strings ≤ suc u32_max = elim c5 [
        | inl nothing ↦
            subst (λ l. length (map (encode v) l) ≤ suc u32_max) (sym nothing) (omega arith)
        | inr more ↦ omega (arith, length-map (encode v) b.sequences, more)
      ] in
      let store_is : engine.store ≡ stored strings (len v) =
        same_store ∙ ap (λ t. Store.build t (len v)) c3 in
      record {
        searchable =
            subst₂ (λ i s. IsIndexed i s engine.neighborhood) (sym same_index) (sym store_is)
              (parts-IsIndexed strings (len v) parts.0 engine.neighborhood
                (omega
                  (arith, c1, vocabulary-small v (insert_sequences Vocabulary.new b.sequences) e1))
                c2 (subst (λ k. All (All (λ s. s < k)) strings) (sym c1) c4) short symbols);
        stores = λ id sequence at.
            subst₂ (λ s w. Store.string s id ≡ ok (some (encode w sequence))) (sym store_is)
              (sym same_v)
              (string-of strings (len v) id (encode v sequence)
                (get_elem?-map (encode v) b.sequences id sequence at)
                (omega (
                  arith,
                  get_elem?-lt strings id _ (get_elem?-map (encode v) b.sequences id sequence at),
                  short,
                )));
        faithful = subst IsFaithful (sym same_v) (λ t known.
            build-IsFaithful (insert_sequences Vocabulary.new b.sequences) v t
              (insert_sequences-IsCounted Vocabulary.new b.sequences new-IsCounted) e1 known);
      }
