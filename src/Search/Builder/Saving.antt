-- ===== src/Search/Builder/Saving.antt =====
-- src/search/builder.rs, src/search/persistence.rs: an engine that is built can be saved.
use yurine.Prelude.{
  ℕ, suc, ◌+◌, ◌≤◌, ◌<◌, ◌≡◌, refl, sym, ap, subst, ◌∙◌, List, [], ◌∷◌, ◌++◌, length, get_elem?,
  get_elem?-lt, map, length-map, length-append, some, All, Eq, arith, false, ltb, inl, inr, ◌⊎◌,
}
use mathlib.Core.Option.{some-injective}
use mathlib.Core.Path.{subst₂}
use yurine.Errors.{ok, >>=-eq-ok}
use yurine.Types.{Symbol, u32_max, position_from_usize, sequence_id_from_usize}
use yurine.Storage.{as_slice}
use yurine.Vocabulary.{
  Vocabulary, VocabularyBuilder, from_tokens, number_distinct, number_tokens, sort_by, encode, len,
}
use yurine.Vocabulary
use yurine.Vocabulary.RoundTrip.{new-IsCounted}
use yurine.Store
use yurine.Store.Strings.{concat, ends, stored, offsets_lem, symbols_lem}
use yurine.Postings.{PostingsIndexBuilder}
use yurine.Postings
use yurine.Postings.Grouping.{Entry, entries_of, All-dedup-sort}
use yurine.Postings.Offsets.{below, offsets_of, length-offsets_of, get_elem?-offsets_of}
use yurine.Postings.Slices.{below_mono}
use yurine.Vocabulary.Decoding.{build-from_tokens}
use yurine.Search.Engine.{SearchEngine, from_parts, from_unverified_parts}
use yurine.Search.Builder.{
  SearchEngineBuilder, insert_sequences, add_postings, add_sequences, build,
}
use yurine.Search.Builder.Contents.{all_entries, All-all_entries, add_sequences-ok}
use yurine.Search.Builder.Correct.{
  All-get, from_parts-ok, insert_sequences-IsCounted, vocabulary-small,
}
use yurine.Persistence.Format.Ranges.{validate_offsets, last_of, has_descent}
use yurine.Persistence.Format.Fields.{IsU32}
use yurine.Persistence.Format.Elements.{PostingFits}
use yurine.Search.Persistence.Savable.{IsSavable, validate_offsets-Encoded}

-- The offsets of the strings.
ends_lem :
    (t : ℕ) (ss : List (List Symbol))
    → (last_of t (ends t ss) ≡ t + length (concat ss)) × (has_descent t (ends t ss) ≡ false)
unfolding last_of has_descent
ends_lem t [] = (omega arith, refl)
ends_lem t (s ∷ ss) =
    let (reaches, ascends) = ends_lem (t + length s) ss in
    let above : ltb (t + length s) t ≡ false = ground arith in
    (omega (arith, reaches, length-append s (concat ss)), rw above ascends)

-- Offsets that a monotone function gives.
monotone_lem :
    (f : ℕ → ℕ) (start : ℕ) (rest : List ℕ)
    → ((k : ℕ) → f k ≤ f (suc k))
    → ((k : ℕ) → k ≤ length rest → get_elem? (start ∷ rest) k ≡ some (f k))
    → (last_of start rest ≡ f (length rest)) × (has_descent start rest ≡ false)
unfolding last_of has_descent
monotone_lem f start [] mono values = (some-injective start (f 0) (values 0 (omega arith)), refl)
monotone_lem f start (next ∷ rest) mono values =
    let (reaches, ascends) =
      monotone_lem (λ k. f (suc k)) next rest (λ k. mono (suc k))
        (λ k h. values (suc k) (omega (arith, h))) in
    let first = some-injective start (f 0) (values 0 (omega arith)) in
    let second = some-injective next (f 1) (values 1 (omega arith)) in
    let above : ltb next start ≡ false = let step = mono 0 in ground (arith, first, second) in
    (reaches, rw above ascends)

below-zero : (es : List Entry) → below 0 es ≡ 0
below-zero [] = refl
below-zero (e ∷ es) = ground (arith, below-zero es)

below-all : (count : ℕ) (es : List Entry) → All (λ e. e.0 < count) es → below count es ≡ length es
below-all count [] all = refl
below-all count (e ∷ es) (low, all) = ground (arith, below-all count es all)

offsets_of-valid :
    (count : ℕ) (es : List Entry)
    → All (λ e. e.0 < count) es
    → validate_offsets (offsets_of count es) (length es) ≡ ok tt
offsets_of-valid count es all =
    from (offsets_of count es) (length-offsets_of count es)
      (λ k h. get_elem?-offsets_of count k es all h)
  where
    from :
        (offsets : List ℕ)
        → length offsets ≡ count + 1
        → ((k : ℕ) → k ≤ count → get_elem? offsets k ≡ some (below k es))
        → validate_offsets offsets (length es) ≡ ok tt
    from [] len values = absurd (omega (arith, len))
    from (start ∷ rest) len values =
        let same_len : length rest ≡ count = omega (arith, len) in
        let (reaches, ascends) =
          monotone_lem (λ k. below k es) start rest (λ k. below_mono k es)
            (λ k h. values k (omega (arith, same_len))) in
        let first : start ≡ 0 =
          some-injective start (below 0 es) (values 0 (omega arith)) ∙ below-zero es in
        let last : last_of 0 rest ≡ length es =
          subst (λ s. last_of s rest ≡ below (length rest) es) first reaches
          ∙ ap (λ k. below k es) same_len
          ∙ below-all count es all in
        subst (λ s. validate_offsets (s ∷ rest) (length es) ≡ ok tt) (sym first)
          (validate_offsets-Encoded rest (length es)
            (subst (λ s. has_descent s rest ≡ false) first ascends) last)

-- The widths of what the loops check.
position-low : (p q : ℕ) → position_from_usize p ≡ ok q → p ≤ u32_max
unfolding position_from_usize
position-low p q e = ground arith

add_postings-short :
    (id raw : ℕ) (string : List Symbol) (b b' : PostingsIndexBuilder)
    → add_postings id raw string b ≡ ok b'
    → raw ≤ suc u32_max
    → raw + length string ≤ suc u32_max
unfolding add_postings
add_postings-short id raw [] b b' e h = omega (arith, h)
add_postings-short id raw (s ∷ string) b b' e h =
    let (p, e1, r1) = >>=-eq-ok (position_from_usize raw) _ e in
    let (c, e2, r2) =
      >>=-eq-ok (Postings.add_posting b s (record { string_id = id; position = p })) _ r1 in
    omega
      (arith, add_postings-short id (suc raw) string c b' r2 (omega (arith, position-low raw p e1)))

All-halves :
    (P Q : Entry → Type 0) (es : List Entry) → All (λ e. P e × Q e) es → All P es × All Q es
All-halves P Q [] all = (tt, tt)
All-halves P Q (e ∷ es) ((p, q), all) = let (ps, qs) = All-halves P Q es all in ((p, ps), (q, qs))

abbrev AreShort : List (List Symbol) → Type 0
AreShort = All (λ string. length string ≤ suc u32_max)

All-concat :
    (k : ℕ) (ss : List (List Symbol))
    → k ≤ u32_max
    → All (All (λ s. s < k)) ss
    → All IsU32 (concat ss)
All-concat k [] h all = tt
All-concat k (s ∷ ss) h (here, all) = onto s (All-concat k ss h all) here
  where
    onto :
        (string : List Symbol)
        → All IsU32 (concat ss)
        → All (λ a. a < k) string
        → All IsU32 (string ++ concat ss)
    onto [] rest below_k = rest
    onto (a ∷ string) rest (low, below_k) = (omega (arith, low, h), onto string rest below_k)

All-postings :
    (es : List Entry) → All (λ e. PostingFits e.1) es → All PostingFits (map (λ e. e.1) es)
All-postings [] all = tt
All-postings (e ∷ es) (fit, all) = (fit, All-postings es all)

module _ {ℓ} {T : Type ℓ} ⦃eq : Eq T⦄ where
  add_sequences-AreShort :
      (v : Vocabulary T) (raw : ℕ) (sequences : List (List T)) (index : PostingsIndexBuilder)
      (store : Store.CorpusStoreBuilder) (parts : PostingsIndexBuilder × Store.CorpusStoreBuilder)
      → add_sequences v raw sequences index store ≡ ok parts
      → AreShort (map (encode v) sequences)
  unfolding add_sequences
  add_sequences-AreShort v raw [] index store parts e = tt
  add_sequences-AreShort v raw (sequence ∷ sequences) index store parts e =
      let (id, e1, r1) = >>=-eq-ok (sequence_id_from_usize raw) _ e in
      let string = encode v sequence in
      let (index', e2, r2) = >>=-eq-ok (add_postings id 0 string index) _ r1 in
      (
        omega (arith, add_postings-short id 0 string index index' e2 (omega arith)),
        add_sequences-AreShort v (suc raw) sequences index' (Store.add_string store string) parts
            r2,
      )

  reassembled :
      (v w : Vocabulary T) (i j : Postings.PostingsIndex) (s t : Store.CorpusStore)
      (engine : SearchEngine T)
      → from_unverified_parts v i s ≡ ok engine
      → v ≡ w
      → i ≡ j
      → s ≡ t
      → from_unverified_parts w j t ≡ ok engine
  reassembled v w i j s t engine e same_v same_i same_s =
      ap (λ x. from_unverified_parts x j t) (sym same_v)
      ∙ ap (λ x. from_unverified_parts v x t) (sym same_i)
      ∙ ap (λ x. from_unverified_parts v i x) (sym same_s)
      ∙ e

  IsSavable-parts :
      (sequences : List (List T)) (v : Vocabulary T) (entries : PostingsIndexBuilder)
      (engine : SearchEngine T)
      → from_tokens v.tokens ≡ ok v
      → len v ≤ u32_max
      → engine.vocabulary ≡ v
      → engine.index ≡ Postings.build entries
      → engine.store ≡ stored (map (encode v) sequences) (len v)
      → from_unverified_parts engine.vocabulary engine.index engine.store ≡ ok engine
      → entries.symbol_count ≡ len v
      → entries.postings ≡ all_entries 0 (map (encode v) sequences)
      → All (All (λ s. s < len v)) (map (encode v) sequences)
      → (sequences ≡ []) ⊎ (0 + length sequences ≤ suc u32_max)
      → AreShort (map (encode v) sequences)
      → IsSavable engine
  unfolding Postings.build as_slice len Store.build
  IsSavable-parts sequences v entries engine numbered small same_v same_index same_store assembled
        same_count same_entries low few short =
      let strings = map (encode v) sequences in
      let es = entries_of entries.postings in
      let count : length strings ≤ suc u32_max = elim few [
        | inl nothing ↦
            subst (λ l. length (map (encode v) l) ≤ suc u32_max) (sym nothing) (omega arith)
        | inr more ↦ omega (arith, length-map (encode v) sequences, more)
      ] in
      let entries_low : All (λ e. (e.0 < len v) × PostingFits e.1) es =
        All-dedup-sort (λ e. (e.0 < len v) × PostingFits e.1) entries.postings
          (subst (All (λ e. (e.0 < len v) × PostingFits e.1)) (sym same_entries) (
            All-all_entries (λ e. (e.0 < len v) × PostingFits e.1) 0 strings
              (λ i j string s at_string at_symbol. (
                All-get (λ t. t < len v) string j s
                    (All-get (All (λ t. t < len v)) strings i string low at_string) at_symbol,
                (
                  omega (arith, get_elem?-lt strings i string at_string, count),
                  omega (
                    arith,
                    get_elem?-lt string j s at_symbol,
                    All-get (λ t. length t ≤ suc u32_max) strings i string short at_string,
                  ),
                ),
              )))) in
      let (halves_low, halves_fit) =
        All-halves (λ e. e.0 < len v) (λ e. PostingFits e.1) es entries_low in
      let (reaches, ascends) = ends_lem 0 strings in
      record {
        numbered = subst (λ w. from_tokens w.tokens ≡ ok w) (sym same_v) numbered;
        symbol_count = ap (λ t. t.symbol_count) same_store ∙ ap (λ w. length w.tokens) (sym same_v);
        assembled = assembled;
        symbol_widths =
            subst (λ t. All IsU32 (as_slice t.symbols)) (sym same_store)
              (subst (All IsU32) (sym (symbols_lem strings (len v)))
                (All-concat (len v) strings small low));
        posting_widths =
            subst (λ t. All PostingFits (as_slice t.postings)) (sym same_index)
              (All-postings es halves_fit);
        in_corpus =
            subst
              (λ t.
                validate_offsets (as_slice t.string_offsets) (length (as_slice t.symbols)) ≡ ok tt)
              (sym same_store)
              (subst₂ (λ o c. validate_offsets o (length c) ≡ ok tt)
                (sym (offsets_lem strings (len v))) (sym (symbols_lem strings (len v)))
                (validate_offsets-Encoded (ends 0 strings) (length (concat strings)) ascends
                  (reaches ∙ omega arith)));
        in_postings =
            subst
              (λ t.
                validate_offsets (as_slice t.posting_offsets) (length (as_slice t.postings))
                ≡ ok tt)
              (sym same_index)
              (subst (λ n. validate_offsets (offsets_of entries.symbol_count es) n ≡ ok tt)
                (sym (length-map (λ e. e.1) es))
                (offsets_of-valid entries.symbol_count es
                  (subst (λ n. All (λ e. e.0 < n) es) (sym same_count) halves_low)));
        posting_count =
            ap (λ t. length (as_slice t.posting_offsets)) same_index
            ∙ length-offsets_of entries.symbol_count es
            ∙ ap (λ n. n + 1) (same_count ∙ ap (λ w. length w.tokens) (sym same_v));
      }

  -- An engine that `build` returns has what saving asks for: its tokens are numbered alike when they
  -- are decoded, its offsets pass the checks of the file, and its numbers have 32 bits.
  pub build-IsSavable :
      (b : SearchEngineBuilder T) (engine : SearchEngine T) → build b ≡ ok engine → IsSavable engine
  unfolding build from_parts Postings.build Postings.new as_slice Store.build
  build-IsSavable b engine e =
      let counted = insert_sequences-IsCounted Vocabulary.new b.sequences new-IsCounted in
      let (v, e1, r1) =
        >>=-eq-ok (Vocabulary.build (insert_sequences Vocabulary.new b.sequences)) _ e in
      let (parts, e2, r2) =
        >>=-eq-ok (add_sequences v 0 b.sequences (Postings.new (len v)) Store.new) _ r1 in
      let index = Postings.build parts.0 in
      let store = Store.build parts.1 (len v) in
      let (same_v, same_index, same_store, symbols) = from_parts-ok v index store engine r2 in
      let (c1, c2, c3, c4, c5) = add_sequences-ok v 0 b.sequences _ _ parts e2 in
      let (done, checked, assembled) = >>=-eq-ok (Store.verify store) _ r2 in
      IsSavable-parts b.sequences v parts.0 engine
        (build-from_tokens (insert_sequences Vocabulary.new b.sequences) v counted e1)
        (vocabulary-small v (insert_sequences Vocabulary.new b.sequences) e1) same_v same_index
        (same_store ∙ ap (λ t. Store.build t (len v)) c3)
        (reassembled v engine.vocabulary index engine.index store engine.store engine assembled
          (sym same_v) (sym same_index) (sym same_store))
        c1 c2 c4 c5 (add_sequences-AreShort v 0 b.sequences _ _ parts e2)
