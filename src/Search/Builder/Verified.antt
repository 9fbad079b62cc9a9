-- ===== src/Search/Builder/Verified.antt =====
-- src/search/builder.rs, src/search.rs: an engine that is built passes its own verification.
use mathlib.Core.Path.{subst₂}
use yurine.Prelude.{
  ℕ, suc, ◌+◌, ◌≤◌, ◌<◌, ◌≡◌, refl, ap, subst, ◌∙◌, sym, List, [], ◌∷◌, ◌++◌, inl, inr, arith,
  length, length-map, length-append, get_elem?-lt, map, some, All, Eq, false,
}
use yurine.Errors.{ok, >>=-eq-ok}
use yurine.Types.{Symbol, u32_max}
use yurine.Vocabulary.{Vocabulary, encode, len}
use yurine.Vocabulary
use yurine.Store
use yurine.Store.Strings.{concat, stored, symbols_lem, string_without_symbol_validation-of}
use yurine.Postings.{PostingsIndexBuilder, entry_eq}
use yurine.Postings
use yurine.Postings.Ordered.{AreDistinct}
use yurine.Postings.Verified.{IsHeld, verify-build}
use yurine.Search.Engine.{SearchEngine, verify, from_parts}
use yurine.Search.Builder.{SearchEngineBuilder, insert_sequences, add_sequences, build}
use yurine.Search.Builder.Contents.{
  entries_from, all_entries, All-append, All-entries_from, All-all_entries, add_sequences-ok,
}
use yurine.Search.Builder.Saving.{build-IsSavable}
use yurine.Persistence.Bytes.{u64_limit}
use yurine.Persistence.Codec.{TokenCodec}
use yurine.Search.Persistence.{save_with, open_with, encode_tokens}
use yurine.Search.Persistence.Savable.{IsCodec, payload_room, mapped_engine}
use yurine.Search.Persistence.Reopen.{open_with-save_with}
use yurine.Search.Builder.Correct.{All-get, from_parts-ok, vocabulary-small}

-- The entries of the strings are different.
later-position :
    (id raw j : ℕ) (s t : Symbol)
    → entry_eq
        (s, record { string_id = id; position = raw })
        (t, record { string_id = id; position = suc raw + j })
      ≡ false
unfolding entry_eq
later-position id raw j s t = ground arith

later-string :
    (id i j k : ℕ) (s t : Symbol)
    → entry_eq
        (s, record { string_id = id; position = j })
        (t, record { string_id = suc id + i; position = k })
      ≡ false
unfolding entry_eq
later-string id i j k s t = ground arith

entries_from-AreDistinct :
    (id raw : ℕ) (string : List Symbol) (strings : List (List Symbol))
    → AreDistinct (all_entries (suc id) strings)
    → AreDistinct (entries_from id raw string ++ all_entries (suc id) strings)
entries_from-AreDistinct id raw [] strings rest = rest
entries_from-AreDistinct id raw (s ∷ string) strings rest = (
  All-append (λ f. entry_eq (s, record { string_id = id; position = raw }) f ≡ false)
      (entries_from id (suc raw) string) (all_entries (suc id) strings)
      (All-entries_from _ id (suc raw) string (λ j t at_symbol. later-position id raw j s t))
      (All-all_entries _ (suc id) strings
        (λ i k u t at_string at_symbol. later-string id i raw k s t)),
  entries_from-AreDistinct id (suc raw) string strings rest,
)

all_entries-AreDistinct :
    (raw : ℕ) (strings : List (List Symbol)) → AreDistinct (all_entries raw strings)
all_entries-AreDistinct raw [] = tt
all_entries-AreDistinct raw (string ∷ strings) =
    entries_from-AreDistinct raw 0 string strings (all_entries-AreDistinct (suc raw) strings)

length-entries_from :
    (id raw : ℕ) (string : List Symbol) → length (entries_from id raw string) ≡ length string
length-entries_from id raw [] = refl
length-entries_from id raw (s ∷ string) = ap suc (length-entries_from id (suc raw) string)

length-all_entries :
    (raw : ℕ) (strings : List (List Symbol))
    → length (all_entries raw strings) ≡ length (concat strings)
length-all_entries raw [] = refl
length-all_entries raw (string ∷ strings) = omega (
  arith,
  length-append (entries_from raw 0 string) (all_entries (suc raw) strings),
  length-append string (concat strings),
  length-entries_from raw 0 string,
  length-all_entries (suc raw) strings,
)

module _ (strings : List (List Symbol)) (count : ℕ) (b : PostingsIndexBuilder)
    (entries : b.postings ≡ all_entries 0 strings) (few : b.symbol_count ≤ u32_max)
    (low : All (All (λ s. s < b.symbol_count)) strings) (short : length strings ≤ suc u32_max) where
  entries-IsHeld : All (IsHeld (stored strings count)) (all_entries 0 strings)
  entries-IsHeld =
      All-all_entries (IsHeld (stored strings count)) 0 strings (λ i j string s at_string at_symbol.
        (
          string,
          subst
              (λ k.
                Store.string_without_symbol_validation (stored strings count) k ≡ ok (some string))
              (omega arith)
              (string_without_symbol_validation-of strings count i string at_string
                (omega (arith, get_elem?-lt strings i string at_string, short))),
          at_symbol,
        ))

  stored-verify : Postings.verify (Postings.build b) (stored strings count) ≡ ok tt
  unfolding Store.symbol_len
  stored-verify =
      verify-build (stored strings count) b
        (subst AreDistinct (sym entries) (all_entries-AreDistinct 0 strings)) few
        (subst (All (λ e. e.0 < b.symbol_count)) (sym entries) (
          All-all_entries (λ e. e.0 < b.symbol_count) 0 strings
            (λ i j string s at_string at_symbol.
              All-get (λ t. t < b.symbol_count) string j s
                (All-get (All (λ t. t < b.symbol_count)) strings i string low at_string)
                at_symbol)))
        (subst (All (IsHeld (stored strings count))) (sym entries) entries-IsHeld)
        (ap length entries
          ∙ length-all_entries 0 strings
          ∙ ap length (sym (symbols_lem strings count)))

module _ {ℓ} {T : Type ℓ} ⦃eq : Eq T⦄ where
  -- An engine that `build` returns passes its own verification: its strings have symbols of its
  -- vocabulary, its postings are in order and as many as the symbols of its corpus, and each stands for
  -- a symbol at its position.
  pub build-verify :
      (b : SearchEngineBuilder T) (engine : SearchEngine T)
      → build b ≡ ok engine
      → verify engine ≡ ok tt
  unfolding build verify from_parts Store.new Store.build Postings.new
  build-verify b engine e =
      let (v, e1, r1) =
        >>=-eq-ok (Vocabulary.build (insert_sequences Vocabulary.new b.sequences)) _ e in
      let (parts, e2, r2) =
        >>=-eq-ok (add_sequences v 0 b.sequences (Postings.new (len v)) Store.new) _ r1 in
      let (same_v, same_index, same_store, symbols) =
        from_parts-ok v (Postings.build parts.0) (Store.build parts.1 (len v)) engine r2 in
      let (done, checked, assembled) =
        >>=-eq-ok (Store.verify (Store.build parts.1 (len v))) _ r2 in
      let (c1, c2, c3, c4, c5) = add_sequences-ok v 0 b.sequences _ _ parts e2 in
      let strings = map (encode v) b.sequences in
      let short : length strings ≤ suc u32_max = elim c5 [
        | inl nothing ↦
            subst (λ l. length (map (encode v) l) ≤ suc u32_max) (sym nothing) (omega arith)
        | inr more ↦ omega (arith, length-map (encode v) b.sequences, more)
      ] in
      let store_is : engine.store ≡ stored strings (len v) =
        same_store ∙ ap (λ t. Store.build t (len v)) c3 in
      let store_ok : Store.verify engine.store ≡ ok tt =
        subst (λ t. Store.verify t ≡ ok tt) (sym same_store) checked in
      let index_ok : Postings.verify engine.index engine.store ≡ ok tt =
        subst₂ (λ i t. Postings.verify i t ≡ ok tt) (sym same_index) (sym store_is)
          (stored-verify strings (len v) parts.0 c2
            (omega (arith, c1, vocabulary-small v (insert_sequences Vocabulary.new b.sequences) e1))
            (subst (λ k. All (All (λ s. s < k)) strings) (sym c1) c4) short) in
      rw (store_ok) index_ok

  -- An engine that `build` returns, and whose tokens the codec encodes, is saved where its arrays leave
  -- room in a file of less than 2^64 bytes, and opening the file gives an engine of the same vocabulary,
  -- neighborhood and arrays, the arrays in the mapping.
  pub open_with-build :
      (b : SearchEngineBuilder T) (engine : SearchEngine T) (codec : TokenCodec T)
      (offsets blob : List ℕ)
      → build b ≡ ok engine
      → IsCodec codec
      → encode_tokens codec engine.vocabulary.tokens (0 ∷ []) [] ≡ ok (offsets, blob)
      → 704 + payload_room engine offsets blob < u64_limit
      → (file : List ℕ) × (save_with codec engine ≡ ok file)
        × (open_with codec file ≡ ok (mapped_engine engine))
  open_with-build b engine codec offsets blob built is_codec encodes room =
      open_with-save_with codec engine offsets blob is_codec (build-IsSavable b engine built)
        (build-verify b engine built) encodes room
