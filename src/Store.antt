-- ===== src/Store.antt =====
-- src/store.rs: the encoded sequences, in one array of symbols and an array of offsets.
pub mod Strings
use yurine.Prelude.{
  ℕ, zero, suc, ◌+◌, ◌-◌, Bool, Option, none, some, List, [], ◌∷◌, ◌++◌, length, get_elem?, ltb,
  leb, if◌then◌else◌, ◌||◌,
}
use yurine.Errors.{Error, Result, ok, err, panic, ◌>>=◌, ◌>>◌, slice, expect}
use yurine.Types.{SequenceId, Symbol, sequence_id_from_usize, is_unknown, usize_limit}
use yurine.Storage.{Storage, owned, mapped, as_slice, is_mapped}

pub record CorpusStoreBuilder : Type 0 where
  pub symbols : List Symbol
  pub string_offsets : List ℕ

pub record CorpusStore : Type 0 where
  pub symbols : Storage Symbol
  pub string_offsets : Storage ℕ
  pub symbol_count : ℕ

unfoldable pub new : CorpusStoreBuilder
new = record { symbols = []; string_offsets = 0 ∷ [] }

unfoldable pub add_string : CorpusStoreBuilder → List Symbol → CorpusStoreBuilder
add_string b string =
    let string_end = length b.symbols + length string in
    record { symbols = b.symbols ++ string; string_offsets = b.string_offsets ++ string_end ∷ [] }

unfoldable pub build : CorpusStoreBuilder → ℕ → CorpusStore
build b count = record {
  symbols = owned b.symbols;
  string_offsets = owned b.string_offsets;
  symbol_count = count;
}

unfoldable pub from_mapped : List Symbol → List ℕ → ℕ → CorpusStore
from_mapped symbols string_offsets symbol_count = record {
  symbols = mapped symbols;
  string_offsets = mapped string_offsets;
  symbol_count = symbol_count;
}

unfoldable pub string_bounds : CorpusStore → SequenceId → Option (ℕ × ℕ)
unfolding as_slice
string_bounds c id =
    if ltb (id + 1) usize_limit
    then elim (get_elem? (as_slice c.string_offsets) id) [
      | none ↦ none
      | some start ↦ elim (get_elem? (as_slice c.string_offsets) (id + 1)) [
        | none ↦ none
        | some end ↦ some (start, end)
      ]
    ]
    else none

unfoldable pub string_without_symbol_validation :
    CorpusStore → SequenceId → Result (Option (List Symbol))
unfolding string_bounds slice
string_without_symbol_validation c id = elim (string_bounds c id) [
  | none ↦ ok none
  | some (start, end) ↦ slice (as_slice c.symbols) start end >>= λ string. ok (some string)
]

unfoldable pub is_invalid : ℕ → Symbol → Bool
unfolding is_unknown
is_invalid count symbol = is_unknown symbol || leb count symbol

unfoldable pub find_invalid : ℕ → List Symbol → Option Symbol
unfolding is_invalid
find_invalid count [] = none
find_invalid count (symbol ∷ string) =
    if is_invalid count symbol then some symbol else find_invalid count string

unfoldable pub validate_symbols : CorpusStore → List Symbol → Result (Unit {0})
unfolding find_invalid
validate_symbols c string = elim (find_invalid c.symbol_count string) [
  | none ↦ ok tt
  | some symbol ↦ err (Error.unknown_string_symbol symbol)
]

-- Only a mapped store is validated at each access.
unfoldable pub string : CorpusStore → SequenceId → Result (Option (List Symbol))
unfolding string_without_symbol_validation validate_symbols is_mapped
string c id = do
  found ← string_without_symbol_validation c id
  elim found [
    | none ↦ ok none
    | some s ↦ if is_mapped c.symbols then validate_symbols c s >> ok (some s) else ok (some s)
  ]

-- The offsets are never empty, so the subtraction is exact.
unfoldable pub len : CorpusStore → ℕ
unfolding as_slice
len c = length (as_slice c.string_offsets) - 1

unfoldable pub symbol_len : CorpusStore → ℕ
unfolding as_slice
symbol_len c = length (as_slice c.symbols)

-- The rounds of `for raw_id in 0..self.len()`, from `raw_id` on.
unfoldable pub verify_from : CorpusStore → ℕ → ℕ → Result (Unit {0})
unfolding string_without_symbol_validation validate_symbols sequence_id_from_usize
verify_from c zero raw_id = ok tt
verify_from c (suc rounds) raw_id = do
  id ← sequence_id_from_usize raw_id
  found ← string_without_symbol_validation c id
  s ← expect found
  validate_symbols c s
  verify_from c rounds (suc raw_id)

unfoldable pub verify : CorpusStore → Result (Unit {0})
unfolding verify_from len
verify c = verify_from c (len c) 0
