-- ===== src/Postings.antt =====
-- src/postings.rs: the occurrences of each symbol, in one array grouped by symbol, with offsets.
pub mod Grouping
pub mod Offsets
pub mod Slices
pub mod Alphabet
pub mod Ordered
pub mod Verified
use yurine.Prelude.{
  ℕ, zero, suc, ◌+◌, Bool, true, false, Option, none, some, List, [], ◌∷◌, ◌++◌, length, get_elem?,
  set, get_or, replicate, map, ltb, leb, ◌==◌, if◌then◌else◌, ◌||◌, ◌&&◌, not,
}
use yurine.Errors.{Error, Result, ok, err, panic, ◌>>=◌, ◌>>◌, slice, unwrap, ok_or}
use yurine.Types.{SequenceId, Position, Posting, Symbol, is_unknown, symbol_from_usize}
use yurine.Storage.{Storage, owned, mapped, as_slice}
use yurine.Store.{CorpusStore, string_without_symbol_validation, symbol_len}

pub record PostingsIndex : Type 0 where
  pub postings : Storage Posting
  pub posting_offsets : Storage ℕ

pub record PostingsIndexBuilder : Type 0 where
  pub symbol_count : ℕ
  pub postings : List (Symbol × Posting)

unfoldable pub from_mapped : List Posting → List ℕ → PostingsIndex
from_mapped postings posting_offsets = record {
  postings = mapped postings;
  posting_offsets = mapped posting_offsets;
}

unfoldable pub posting_slice : PostingsIndex → Symbol → Result (List Posting)
unfolding is_unknown slice as_slice
posting_slice index symbol =
    if is_unknown symbol then ok [] else elim (get_elem? (as_slice index.posting_offsets) symbol) [
      | none ↦ ok []
      | some start ↦ elim (get_elem? (as_slice index.posting_offsets) (symbol + 1)) [
        | none ↦ ok []
        | some end ↦ slice (as_slice index.postings) start end
      ]
    ]

unfoldable pub frequency : PostingsIndex → Symbol → Result ℕ
unfolding posting_slice
frequency index symbol = posting_slice index symbol >>= λ ps. ok (length ps)

-- `windows(2)` from the window that starts with `start`, at `raw` on.
unfoldable pub alphabet_from : ℕ → ℕ → List ℕ → Result (List Symbol)
unfolding symbol_from_usize
alphabet_from raw start [] = ok []
alphabet_from raw start (end ∷ offsets) =
    if start == end then alphabet_from (suc raw) end offsets else do
      symbol ← unwrap (symbol_from_usize raw)
      symbols ← alphabet_from (suc raw) end offsets
      ok (symbol ∷ symbols)

unfoldable pub alphabet : PostingsIndex → Result (List Symbol)
unfolding alphabet_from as_slice
alphabet index = elim (as_slice index.posting_offsets) [
  | [] ↦ ok []
  | start ∷ offsets ↦ alphabet_from 0 start offsets
]

unfoldable pub posting_lt : Posting → Posting → Bool
posting_lt p q =
    ltb p.string_id q.string_id || (p.string_id == q.string_id && ltb p.position q.position)

unfoldable pub is_strictly_ordered : List Posting → Bool
unfolding posting_lt
is_strictly_ordered [] = true
is_strictly_ordered (p ∷ []) = true
is_strictly_ordered (p ∷ q ∷ ps) = posting_lt p q && is_strictly_ordered (q ∷ ps)

unfoldable pub holds_symbol : List Symbol → Position → Symbol → Bool
holds_symbol string position symbol = elim (get_elem? string position) [
  | none ↦ false
  | some s ↦ s == symbol
]

unfoldable pub verify_postings : CorpusStore → Symbol → List Posting → Result (Unit {0})
unfolding string_without_symbol_validation holds_symbol
verify_postings corpus symbol [] = ok tt
verify_postings corpus symbol (p ∷ ps) = do
  found ← string_without_symbol_validation corpus p.string_id
  string ← ok_or found (Error.invalid_file "posting sequence id is out of range")
  if holds_symbol string p.position symbol
      then verify_postings corpus symbol ps
      else err (Error.invalid_file "posting does not match the corpus")

unfoldable pub verify_symbols : CorpusStore → List Posting → ℕ → ℕ → List ℕ → Result (Unit {0})
unfolding verify_postings is_strictly_ordered symbol_from_usize slice
verify_symbols corpus postings raw start [] = ok tt
verify_symbols corpus postings raw start (end ∷ offsets) = do
  symbol ← symbol_from_usize raw
  ps ← slice postings start end
  if is_strictly_ordered ps
      then verify_postings corpus symbol ps >> verify_symbols corpus postings (suc raw) end offsets
      else err (Error.invalid_file "postings are not strictly ordered")

unfoldable pub verify : PostingsIndex → CorpusStore → Result (Unit {0})
unfolding verify_symbols symbol_len as_slice
verify index corpus =
    if length (as_slice index.postings) == symbol_len corpus
    then elim (as_slice index.posting_offsets) [
      | [] ↦ ok tt
      | start ∷ offsets ↦ verify_symbols corpus (as_slice index.postings) 0 start offsets
    ]
    else err (Error.invalid_file "posting count does not match corpus symbol count")

unfoldable pub new : ℕ → PostingsIndexBuilder
new count = record { symbol_count = count; postings = [] }

unfoldable pub add_posting : PostingsIndexBuilder → Symbol → Posting → Result PostingsIndexBuilder
unfolding is_unknown
add_posting b symbol posting =
    if is_unknown symbol || leb b.symbol_count symbol
    then err (Error.unknown_string_symbol symbol)
    else ok (record b { postings = b.postings ++ (symbol, posting) ∷ [] })

-- The key `(symbol, string_id, position)` in its lexicographic order; it determines the entry.
unfoldable pub key_le : Symbol × Posting → Symbol × Posting → Bool
unfolding posting_lt
key_le (s, p) (t, q) = ltb s t || (s == t && not (posting_lt q p))

unfoldable pub insert_entry : Symbol × Posting → List (Symbol × Posting) → List (Symbol × Posting)
unfolding key_le
insert_entry e [] = e ∷ []
insert_entry e (f ∷ fs) = if key_le e f then e ∷ f ∷ fs else f ∷ insert_entry e fs

unfoldable pub sort_entries : List (Symbol × Posting) → List (Symbol × Posting)
unfolding insert_entry
sort_entries [] = []
sort_entries (e ∷ es) = insert_entry e (sort_entries es)

unfoldable pub entry_eq : Symbol × Posting → Symbol × Posting → Bool
entry_eq (s, p) (t, q) = s == t && (p.string_id == q.string_id && p.position == q.position)

-- `Vec::dedup`, which compares with the last entry that was kept.
unfoldable pub dedup_after : Symbol × Posting → List (Symbol × Posting) → List (Symbol × Posting)
unfolding entry_eq
dedup_after e [] = []
dedup_after e (f ∷ fs) =
    let kept = f ∷ dedup_after f fs in
    let dropped = dedup_after e fs in if entry_eq e f then dropped else kept

unfoldable pub dedup : List (Symbol × Posting) → List (Symbol × Posting)
unfolding dedup_after
dedup [] = []
dedup (e ∷ es) = e ∷ dedup_after e es

-- `add_posting` keeps each symbol below the number of counters.
unfoldable pub count_symbols : List (Symbol × Posting) → List ℕ → List ℕ
count_symbols [] offsets = offsets
count_symbols ((symbol, _) ∷ es) offsets =
    count_symbols es (set offsets (symbol + 1) (get_or offsets (symbol + 1) 0 + 1))

unfoldable pub sums_after : ℕ → List ℕ → List ℕ
sums_after total [] = []
sums_after total (n ∷ ns) = (n + total) ∷ sums_after (n + total) ns

unfoldable pub running_sums : List ℕ → List ℕ
unfolding sums_after
running_sums [] = []
running_sums (n ∷ ns) = n ∷ sums_after n ns

unfoldable pub build : PostingsIndexBuilder → PostingsIndex
unfolding sort_entries dedup count_symbols running_sums
build b =
    let entries = dedup (sort_entries b.postings) in
    record {
      postings = owned (map (λ e. e.1) entries);
      posting_offsets =
          owned (running_sums (count_symbols entries (replicate {A = ℕ} (b.symbol_count + 1) 0)));
    }
