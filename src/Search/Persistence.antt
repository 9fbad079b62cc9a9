-- ===== src/Search/Persistence.antt =====
-- src/search/persistence.rs: saving an engine and opening it. A file is the list of its bytes.
pub mod Tokens
pub mod Structure
pub mod Savable
pub mod Reopen
use yurine.Prelude.{
  ℕ, zero, suc, ◌+◌, List, [], ◌∷◌, ◌++◌, Option, none, some, Bool, true, false, Eq, if◌then◌else◌,
  not, length, drop,
}
use yurine.Errors.{Error, Result, ok, err, ◌>>=◌, ◌>>◌, ok_or, slice}
use yurine.Types.{Symbol, Posting}
use yurine.Storage.{as_slice}
use yurine.Vocabulary.{Vocabulary, from_tokens}
use yurine.Vocabulary
use yurine.Store.{CorpusStore}
use yurine.Store
use yurine.Postings.{PostingsIndex}
use yurine.Postings
use yurine.Search.Engine.{SearchEngine, verify, from_unverified_parts}
use yurine.Persistence.Bytes.{to_usize}
use yurine.Persistence.Codec.{TokenCodec}
use yurine.Persistence.Format.{FileKind, SectionKind, SectionData, PersistedFile}
use yurine.Persistence.Format.Write.{write_file}
use yurine.Persistence.Format.Parse.{
  mapped_slice, bytes, u64_element, symbol_element, posting_element,
}
use yurine.Persistence.Format.Open.{open_file}

module _ {ℓ} {T : Type ℓ} ⦃eq : Eq T⦄ (codec : TokenCodec T) where
  -- The loop over the tokens: the offsets and the blob, from those that are there on.
  unfoldable pub encode_tokens : List T → List ℕ → List ℕ → Result (List ℕ × List ℕ)
  unfolding slice
  encode_tokens [] token_offsets token_blob = ok (token_offsets, token_blob)
  encode_tokens (token ∷ tokens) token_offsets token_blob = do
    let start = length token_blob
    blob ← codec.encode token token_blob
    encoded ← slice blob start (length blob)
    decoded ← codec.decode encoded
    let rest = encode_tokens tokens (token_offsets ++ length blob ∷ []) blob
    if not (eq.beq decoded token)
        then err (Error.invalid_token_encoding "token codec does not round-trip the vocabulary")
        else rest

  unfoldable pub save_sections : SearchEngine T → List ℕ → List ℕ → List (SectionKind × SectionData)
  unfolding Vocabulary.len as_slice
  save_sections engine token_offsets token_blob =
      (SectionKind.vocabulary_token_offsets, SectionData.u64s token_offsets)
      ∷ (
        SectionKind.vocabulary_token_blob,
        SectionData.bytes token_blob (Vocabulary.len engine.vocabulary),
      )
      ∷ (SectionKind.sequence_offsets, SectionData.u64s (as_slice engine.store.string_offsets))
      ∷ (SectionKind.corpus_symbols, SectionData.symbols (as_slice engine.store.symbols))
      ∷ (SectionKind.posting_offsets, SectionData.u64s (as_slice engine.index.posting_offsets))
      ∷ (SectionKind.postings, SectionData.posting_list (as_slice engine.index.postings))
      ∷ []

  unfoldable pub save_with : SearchEngine T → Result (List ℕ)
  unfolding verify encode_tokens save_sections write_file
  save_with engine = do
    verified ← verify engine
    (token_offsets, token_blob) ← encode_tokens engine.vocabulary.tokens (0 ∷ []) []
    write_file FileKind.search_engine codec.id codec.version
        (save_sections engine token_offsets token_blob)

  -- The windows of two of the offsets, from the window that begins with `start` on.
  unfoldable pub decode_tokens : List ℕ → ℕ → List ℕ → Result (List T)
  unfolding to_usize slice
  decode_tokens blob start [] = ok []
  decode_tokens blob start (end ∷ offsets) = do
    from ← ok_or (to_usize start) Error.platform_size_overflow
    to ← ok_or (to_usize end) Error.platform_size_overflow
    encoded ← slice blob from to
    token ← codec.decode encoded
    tokens ← decode_tokens blob end offsets
    ok (token ∷ tokens)

  unfoldable pub decode_all : List ℕ → List ℕ → Result (List T)
  unfolding decode_tokens
  decode_all blob [] = ok []
  decode_all blob (start ∷ offsets) = decode_tokens blob start offsets

  unfoldable pub open_with : List ℕ → Result (SearchEngine T)
  unfolding open_file mapped_slice bytes decode_all from_tokens Vocabulary.len Store.from_mapped
      Postings.from_mapped from_unverified_parts
  open_with path = do
    file ← open_file path FileKind.search_engine codec.id codec.version
    offsets ← mapped_slice u64_element file SectionKind.vocabulary_token_offsets
    blob ← bytes file SectionKind.vocabulary_token_blob
    tokens ← decode_all blob offsets
    vocabulary ← from_tokens tokens
    let symbol_count = Vocabulary.len vocabulary
    symbols ← mapped_slice symbol_element file SectionKind.corpus_symbols
    string_offsets ← mapped_slice u64_element file SectionKind.sequence_offsets
    let store = Store.from_mapped symbols string_offsets symbol_count
    postings ← mapped_slice posting_element file SectionKind.postings
    posting_offsets ← mapped_slice u64_element file SectionKind.posting_offsets
    let index = Postings.from_mapped postings posting_offsets
    from_unverified_parts vocabulary index store
