-- ===== src/Lib.antt =====
-- A verification library for yurine, a search engine that finds the substrings of stored token
-- sequences within a weighted edit distance of a query (src/ of the repository, the crate `yurine`).
--
-- How the program works. `Search.Builder.build` (src/search/builder.rs) numbers the tokens
-- (src/vocabulary.rs), stores the encoded sequences (src/store.rs) and indexes the positions of every
-- symbol (src/postings.rs). A search (src/search/range_search.rs) turns its inclusive threshold into a
-- strict bound (src/search/bound.rs), encodes the query (src/search/encoding.rs), selects query
-- positions that no match avoids (src/search/filtering/candidate.rs, with the neighborhoods of
-- src/search/filtering/neighborhood.rs and the radii of src/search/filtering/eta.rs), generates the
-- candidates from their postings (src/search/filtering.rs), and measures the substrings around each
-- candidate (src/search/verification.rs, src/search/verification/bidirectional_trie.rs).
--
-- Which file models what. Each module has the name of its source file or of its main type, and its
-- functions have the source's names; the first line of a file names its source.
--   Prelude, Map       shared names, Boolean tests, lists over native numbers, association lists
--   Float              the arithmetic of f32; Float.Laws: what exact sums are
--   Errors, Types      src/errors.rs, src/types.rs
--   Costs              src/costs.rs, costs/custom.rs, costs/levenshtein.rs
--   Storage            src/storage.rs
--   Vocabulary, Store, Postings    src/vocabulary.rs, src/store.rs, src/postings.rs
--   Search.Matches, Search.Engine  src/search.rs
--   Search.Bound, Search.Encoding, Search.Builder, Search.RangeSearch    the files of src/search/
--   Search.Filtering   Neighborhood, Eta, Selector (candidate.rs), Generation (filtering.rs); Pigeonhole
--   Search.Verification    verification.rs; Alignment: the distance as a specification; Trie
--                      (bidirectional_trie.rs); SmithWaterman (smith_waterman.rs, definitions)
--   Costs.Embedding, Costs.Persistence    src/costs/embedding.rs; src/costs/persistence.rs, with the files of
--                      the unit costs and of the cosine costs (Costs.Persistence.Cosine)
--   Persistence        src/persistence: Codec (codec.rs), Bytes and Utf8 (what it uses of the standard library)
--   Persistence.Format    format.rs, with the typed views of storage.rs: Write (write_file), Ranges, Parse
--                      and Open (the checks and readers); the rest are proofs: Layout and Placed (where the
--                      writer puts the payloads), Accepted, Table and Entries (what the reader makes of
--                      them), RoundTrip, Room, Elements, Sections, Sound, Disjoint, Offsets, Fields
--   Search.Persistence    src/search/persistence.rs; Tokens, Structure, Savable and Reopen: the round trip;
--                      Search.Builder.Tokens, Saving, Verified and Reopened: what a built engine keeps,
--                      what it has for saving, and searches after it
--   Search.RangeSearch    Outcome and Ending: how a search for symbols ends; Tokens and EndToEnd: the same
--                      for tokens
--   Examples           runs and the theorems at small inputs, the README's example among them
--
-- How the code is modelled. A number is a native one. A cost, and every f32 that is not negative, is
-- its bit pattern: the order of the patterns is that of the values, the next pattern is the next
-- value, and 0x7f800000 is infinity. Everything that adds or divides takes the arithmetic as a
-- parameter `fl : Float`; `ieee` is round-to-nearest-even on the patterns. Theorems on distances take
-- `IsExact fl`: a reading of the patterns as numbers of which sums are exact up to a limit, as the
-- sums of costs on a grid are, and larger sums stay above it; `fixed_point`, the arithmetic of the
-- subnormal numbers, has it.
-- Hash maps are association lists, the ordered map of the substrings is a sorted one, and the nodes of
-- a trie are a tree in place of indices into one array. A function that changes a structure returns
-- it. Errors are values of `Result`, and an index or a slice out of range is its `panic`.
-- A file is the list of its bytes, a codec the record of its functions, and a mapping the bytes that it
-- shows, at an address of every alignment; a `usize` has 64 bits and the host is little-endian, as
-- mapping a file asks for. What an opened store remembers of its rows is a part of the store, which a
-- lookup returns. The operations on f64 and on signed f32 that the embeddings use are a parameter.
-- Three loops run on fuel, and panic without it: the writing of padding in chunks, a round for each
-- byte; the rounds of the selection, a round more than there are items, as each round selects one; and
-- the bisection over the radii, a round more than there are radii, as each round makes the range
-- smaller. That all of it is enough is part of what is proved below.
-- The costs of symbols are those of their tokens. The code panics when it asks for the cost of a symbol
-- that has none; the model panics before the search, where one of the symbols that a search may ask for
-- (the query's, the alphabet's, and those below the store's count) has none. `Cost::new_const` panics
-- likewise, and the cosine costs with it.
--
-- Not modelled: the temporary file, its renaming and the synchronization with the disk around
-- `write_file`, and the errors of the file system; the files of custom costs and of embedding stores
-- (src/costs/custom/persistence.rs, src/costs/embedding/persistence.rs); the command line with its
-- configurations, the benchmarks and the Python tools, which are input and output and glue around the
-- library.
pub mod Costs
pub mod Errors
pub mod Examples
pub mod Float
pub mod Map
pub mod Persistence
pub mod Postings
pub mod Prelude
pub mod Search
pub mod Storage
pub mod Store
pub mod Types
pub mod Vocabulary
