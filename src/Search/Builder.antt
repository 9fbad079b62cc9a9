-- ===== src/Search/Builder.antt =====
-- src/search/builder.rs: from sequences of tokens to an engine.
pub mod Contents
pub mod Correct
pub mod Saving
pub mod Tokens
pub mod Verified
pub mod Reopened
use yurine.Prelude.{ℕ, suc, List, [], ◌∷◌, ◌++◌, length, Eq}
use yurine.Errors.{Result, ok, ◌>>=◌, ◌>>◌}
use yurine.Types.{SequenceId, Position, Symbol, sequence_id_from_usize, position_from_usize}
use yurine.Vocabulary.{VocabularyBuilder, Vocabulary, insert_all, encode, len}
use yurine.Vocabulary
use yurine.Store.{CorpusStoreBuilder, add_string}
use yurine.Store
use yurine.Postings.{PostingsIndexBuilder, add_posting}
use yurine.Postings
use yurine.Search.Engine.{SearchEngine, from_parts}

pub record SearchEngineBuilder {ℓ} (T : Type ℓ) : Type ℓ where
  pub sequences : List (List T)

unfoldable pub new {ℓ} : {T : Type ℓ} → SearchEngineBuilder T
new = record { sequences = [] }

unfoldable pub add_sequence {ℓ} :
    {T : Type ℓ} → SearchEngineBuilder T → List T → Result (SearchEngineBuilder T × ℕ)
unfolding sequence_id_from_usize position_from_usize
add_sequence b sequence = do
  _ ← sequence_id_from_usize (length b.sequences)
  _ ← position_from_usize (length sequence)
  ok (record { sequences = b.sequences ++ sequence ∷ [] }, length b.sequences)

-- The postings of one string, from `raw_position` on.
unfoldable pub add_postings :
    SequenceId → ℕ → List Symbol → PostingsIndexBuilder → Result PostingsIndexBuilder
unfolding position_from_usize add_posting
add_postings sequence_id raw_position [] b = ok b
add_postings sequence_id raw_position (symbol ∷ string) b = do
  position ← position_from_usize raw_position
  b' ← add_posting b symbol (record { string_id = sequence_id; position = position })
  add_postings sequence_id (suc raw_position) string b'

module _ {ℓ} {T : Type ℓ} ⦃eq : Eq T⦄ where
  unfoldable pub insert_sequences : VocabularyBuilder T → List (List T) → VocabularyBuilder T
  unfolding insert_all
  insert_sequences b [] = b
  insert_sequences b (sequence ∷ sequences) = insert_sequences (insert_all b sequence) sequences

  -- The loop that encodes the sequences, from `raw_id` on.
  unfoldable pub add_sequences :
      Vocabulary T
      → ℕ
      → List (List T)
      → PostingsIndexBuilder
      → CorpusStoreBuilder
      → Result (PostingsIndexBuilder × CorpusStoreBuilder)
  unfolding sequence_id_from_usize encode add_postings add_string
  add_sequences v raw_id [] index store = ok (index, store)
  add_sequences v raw_id (sequence ∷ sequences) index store = do
    sequence_id ← sequence_id_from_usize raw_id
    let string = encode v sequence
    index' ← add_postings sequence_id 0 string index
    add_sequences v (suc raw_id) sequences index' (add_string store string)

  unfoldable pub build : SearchEngineBuilder T → Result (SearchEngine T)
  unfolding Vocabulary.build Vocabulary.new Postings.new Postings.build Store.new Store.build len
      insert_sequences add_sequences from_parts
  build b = do
    vocabulary ← Vocabulary.build (insert_sequences Vocabulary.new b.sequences)
    parts ← add_sequences vocabulary 0 b.sequences (Postings.new (len vocabulary)) Store.new
    from_parts vocabulary (Postings.build parts.0) (Store.build parts.1 (len vocabulary))
