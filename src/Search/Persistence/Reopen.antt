-- ===== src/Search/Persistence/Reopen.antt =====
-- Saving an engine and opening the file: the same engine on mapped storage.
use yurine.Prelude.{
  ℕ, ◌+◌, ◌*◌, ◌<◌, ◌≡◌, refl, sym, ap, ◌∙◌, subst, List, [], ◌∷◌, Eq, length, arith, All,
}
use yurine.Errors.{ok, ◌>>=◌, >>=-eq-ok, ok-injective}
use yurine.Types.{usize_limit}
use yurine.Storage.{as_slice, mapped}
use yurine.Vocabulary.{Vocabulary, from_tokens}
use yurine.Vocabulary
use yurine.Store
use yurine.Postings.{PostingsIndex, alphabet}
use yurine.Postings
use yurine.Search.Filtering.Neighborhood
use yurine.Persistence.Format.Layout.{AllPlaced}
use yurine.Search.Engine.{SearchEngine, verify, from_unverified_parts}
use yurine.Persistence.Bytes.{u64_limit}
use yurine.Persistence.Codec.{TokenCodec}
use yurine.Persistence.Format.{FileKind, SectionKind, PersistedFile}
use yurine.Persistence.Format.Write.{write_to}
use yurine.Persistence.Format.Ranges.{validate_offsets}
use yurine.Persistence.Format.Parse.{bytes}
use yurine.Persistence.Format.Open.{open_file}
use yurine.Persistence.Format.Fields.{IsU64}
use yurine.Persistence.Format.RoundTrip.{IsStored, write_file-IsStored}
use yurine.Persistence.Format.Room.{write_file-returns}
use yurine.Persistence.Format.Sound.{open_file-parse}
use yurine.Search.Persistence.{save_sections, save_with, open_with, encode_tokens, decode_all}
use yurine.Search.Persistence.Tokens.{Encoded, encode_tokens-Encoded}
use yurine.Search.Persistence.Structure.{
  EngineFits, HasEngine, AllPlaced-HasEngine, token_view, sequence_view, offset_view, corpus_view,
  posting_view, validate_structure-engine,
}
use yurine.Search.Persistence.Savable.{
  IsCodec, IsSavable, payload_room, mapped_engine, All-le-last, validate_offsets-IsU64,
  validate_offsets-Encoded, save_sections-IsStorable, save_sections-HasRoom,
}

module _ {ℓ} {T : Type ℓ} ⦃eq : Eq T⦄ (codec : TokenCodec T) (engine : SearchEngine T)
    (offsets blob : List ℕ) where
  -- The file of an engine whose tokens are encoded, and what is read from it.
  record Saved (file : List ℕ) (result : PersistedFile) : Type ℓ where
    opened : open_file file FileKind.search_engine codec.id codec.version ≡ ok result
    small : length result.mmap < u64_limit
    engine_kind : result.kind ≡ FileKind.search_engine
    values :
        EngineFits offsets blob
          (length engine.vocabulary.tokens)
          (as_slice engine.store.string_offsets)
          (as_slice engine.store.symbols)
          (as_slice engine.index.posting_offsets)
          (as_slice engine.index.postings)
    sections :
        HasEngine result offsets blob
          (length engine.vocabulary.tokens)
          (as_slice engine.store.string_offsets)
          (as_slice engine.store.symbols)
          (as_slice engine.index.posting_offsets)
          (as_slice engine.index.postings)
    blob_bytes : bytes result SectionKind.vocabulary_token_blob ≡ ok blob

  stored-Saved :
      (file : List ℕ) (result : PersistedFile)
      → EngineFits offsets blob
          (length engine.vocabulary.tokens)
          (as_slice engine.store.string_offsets)
          (as_slice engine.store.symbols)
          (as_slice engine.index.posting_offsets)
          (as_slice engine.index.postings)
      → IsStored file FileKind.search_engine codec.id codec.version
          (save_sections codec engine offsets blob)
          result
      → Saved file result
  unfolding save_sections Vocabulary.len write_to
  stored-Saved file result values stored =
      let small : length result.mmap < u64_limit =
        subst (λ f. length f < u64_limit) (sym stored.same_file) stored.fits in
      let has =
        AllPlaced-HasEngine result offsets blob (length engine.vocabulary.tokens)
          (as_slice engine.store.string_offsets) (as_slice engine.store.symbols)
          (as_slice engine.index.posting_offsets) (as_slice engine.index.postings) stored.entries
          stored.table
          (subst (λ f. AllPlaced f (save_sections codec engine offsets blob) stored.entries)
            (sym stored.same_file) stored.placed)
          stored.finds in
      let structured =
        validate_structure-engine result stored.same_kind small _ _ _ _ _ _ _ has values in
      record {
        opened =
            open_file-parse file FileKind.search_engine codec.id codec.version
            ∙ (stored.parsed ∙ ap (λ r. r >>= λ valid. ok result) structured);
        small = small;
        engine_kind = stored.same_kind;
        values = values;
        sections = has;
        blob_bytes = stored.contents.1.0;
      }

  assemble :
      IsSavable engine
      → from_unverified_parts engine.vocabulary
          (record {
            postings = mapped (as_slice engine.index.postings);
            posting_offsets = mapped (as_slice engine.index.posting_offsets);
          })
          (record {
            symbols = mapped (as_slice engine.store.symbols);
            string_offsets = mapped (as_slice engine.store.string_offsets);
            symbol_count = length engine.vocabulary.tokens;
          })
        ≡ ok (mapped_engine engine)
  unfolding from_unverified_parts alphabet as_slice
  assemble savable =
      let (symbols, listed, e1) = >>=-eq-ok (alphabet engine.index) _ savable.assembled in
      let (neighborhood, made, e2) = >>=-eq-ok (Neighborhood.new symbols) _ e1 in
      let same : neighborhood ≡ engine.neighborhood = ap (λ e. e.neighborhood) (ok-injective e2) in
      rw (listed, made, same, ← savable.symbol_count) refl

  open_with-Saved :
      (file : List ℕ) (result : PersistedFile)
      → IsSavable engine
      → Saved file result
      → decode_all codec blob offsets ≡ ok engine.vocabulary.tokens
      → open_with codec file ≡ ok (mapped_engine engine)
  unfolding open_with Vocabulary.len Store.from_mapped Postings.from_mapped
  open_with-Saved file result savable saved decoded =
      let kind = saved.engine_kind in
      let small = saved.small in
      let tokens = token_view result kind small _ _ _ _ _ _ _ saved.sections saved.values in
      let symbols = corpus_view result kind small _ _ _ _ _ _ _ saved.sections saved.values in
      let strings = sequence_view result kind small _ _ _ _ _ _ _ saved.sections saved.values in
      let postings = posting_view result kind small _ _ _ _ _ _ _ saved.sections saved.values in
      let bounds = offset_view result kind small _ _ _ _ _ _ _ saved.sections saved.values in
      rw
        (
          saved.opened, tokens, saved.blob_bytes, decoded, savable.numbered, symbols, strings,
          postings, bounds,
        )
        (assemble savable)

  Encoded-EngineFits :
      IsSavable engine
      → 704 + payload_room engine offsets blob < u64_limit
      → Encoded codec engine.vocabulary.tokens (0 ∷ []) [] offsets blob
      → EngineFits offsets blob
          (length engine.vocabulary.tokens)
          (as_slice engine.store.string_offsets)
          (as_slice engine.store.symbols)
          (as_slice engine.index.posting_offsets)
          (as_slice engine.index.postings)
  unfolding payload_room
  Encoded-EngineFits savable room encoded =
      let count : length offsets ≡ length engine.vocabulary.tokens + 1 =
        omega (arith, ap length encoded.listed, encoded.counted) in
      record {
        token_widths =
            subst (All IsU64) (sym encoded.listed)
              (All-le-last 0 encoded.bounds encoded.ascends (omega (arith, encoded.reaches)));
        string_widths =
            validate_offsets-IsU64 (as_slice engine.store.string_offsets)
              (length (as_slice engine.store.symbols)) savable.in_corpus (omega arith);
        symbol_widths = savable.symbol_widths;
        offset_widths =
            validate_offsets-IsU64 (as_slice engine.index.posting_offsets)
              (length (as_slice engine.index.postings)) savable.in_postings (omega arith);
        posting_widths = savable.posting_widths;
        in_blob =
            subst (λ o. validate_offsets o (length blob) ≡ ok tt) (sym encoded.listed)
              (validate_offsets-Encoded encoded.bounds (length blob) encoded.ascends
                encoded.reaches);
        in_corpus = savable.in_corpus;
        in_postings = savable.in_postings;
        few_tokens = omega (arith, count);
        token_count = count;
        posting_count = savable.posting_count;
      }

  six_sections :
      704 + payload_room engine offsets blob < u64_limit
      → 512
          + length (save_sections codec engine offsets blob) * 32
          + payload_room engine offsets blob
        < u64_limit
  unfolding save_sections
  six_sections room = omega (arith, room)

  decode_all-Encoded :
      length blob < usize_limit
      → Encoded codec engine.vocabulary.tokens (0 ∷ []) [] offsets blob
      → decode_all codec blob offsets ≡ ok engine.vocabulary.tokens
  unfolding decode_all
  decode_all-Encoded small encoded = rw encoded.listed (encoded.decodes small)

  -- An engine that passes its own verification, and whose tokens the codec reads back, is saved, where
  -- its arrays leave room in a file of less than 2^64 bytes; and opening the file gives the same
  -- vocabulary, neighborhood and arrays, the arrays in the mapping.
  pub open_with-save_with :
      IsCodec codec
      → IsSavable engine
      → verify engine ≡ ok tt
      → encode_tokens codec engine.vocabulary.tokens (0 ∷ []) [] ≡ ok (offsets, blob)
      → 704 + payload_room engine offsets blob < u64_limit
      → (file : List ℕ) × (save_with codec engine ≡ ok file)
        × (open_with codec file ≡ ok (mapped_engine engine))
  unfolding save_with payload_room
  open_with-save_with is_codec savable verified encodes room =
      let encoded =
        encode_tokens-Encoded codec is_codec.appends engine.vocabulary.tokens (0 ∷ []) [] offsets
          blob encodes in
      let values = Encoded-EngineFits savable room encoded in
      let sections = save_sections codec engine offsets blob in
      let (file, written) =
        write_file-returns FileKind.search_engine codec.id codec.version
          (payload_room engine offsets blob) sections is_codec.short_id (six_sections room)
          (save_sections-HasRoom codec engine offsets blob) in
      let few : length engine.vocabulary.tokens < u64_limit = omega (arith, values.few_tokens) in
      let (result, stored) =
        write_file-IsStored FileKind.search_engine codec.id codec.version sections file
          (save_sections-IsStorable codec engine offsets blob is_codec few) written in
      let saved = stored-Saved file result values stored in
      let small : length blob < usize_limit = omega arith in
      (
        file,
        rw (verified, encodes) written,
        open_with-Saved file result savable saved (decode_all-Encoded small encoded),
      )
