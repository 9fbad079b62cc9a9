-- ===== src/Examples/Parts.antt =====
-- The theorems on the parts of the engine, at the small engine or at a few tokens.
use yurine.Prelude.{
  ℕ, ◌+◌, ◌≡◌, ◌≢◌, ◌≤◌, ◌<◌, ◌↔◌, refl, List, [], ◌∷◌, ◌∈◌, some, length, nat_eq, arith, inl, inr,
  true, false, ◌==◌, ◌&&◌, if◌then◌else◌, get_elem?,
}
use yurine.Errors.{Error, ok, err}
use yurine.Types.{Posting, Symbol, u32_max}
use yurine.Float.{sign_bit, infinity}
use yurine.Costs.{cost_new, cost_max}
use yurine.Costs.Laws.{cost_new_cases}
use yurine.Costs.Custom.{CustomCosts, set_substitution, set_deletion, set_insertion, edit_costs}
use yurine.Costs.Custom.Overrides.{set_substitution_lem, set_deletion-insertion}
use yurine.Vocabulary.{insert_all, new, build, symbol, token, len}
use yurine.Vocabulary.RoundTrip.{token-symbol, symbol-token}
use yurine.Store
use yurine.Store.Strings.{stored, string-of, string-is}
use yurine.Postings.{PostingsIndexBuilder, posting_slice, alphabet}
use yurine.Postings
use yurine.Postings.Grouping.{entries_of}
use yurine.Postings.Ordered.{AreAscending, posting_slice-build}
use yurine.Postings.Alphabet.{alphabet-has}
use yurine.Search.Bound.{StrictBound, from_inclusive, admits}
use yurine.Search.Bound.Inclusive.{from_inclusive-admits}
use yurine.Search.Encoding.{EncodedQuery}
use yurine.Search.Encoding
use yurine.Search.Encoding.RoundTrip.{Decodes, new-Decodes}
use yurine.Search.Filtering.Neighborhood.{SubstitutionNeighborhood, scan}
use yurine.Search.Filtering.Neighborhood
use yurine.Search.Filtering.Neighborhood.Scan.{scan_lem, IsCheapest}
use yurine.Search.Filtering.Neighborhood.Unique.{IsUnique, new-IsUnique}
use yurine.Search.Builder.Correct.{build-IsBuilt}
use yurine.Examples.{builder, engine, engine-built, costs, query}

cost_new_cases_example :
    (0x8000_0000 < infinity → cost_new 0x8000_0000 ≡ ok 0x8000_0000)
    × (0x8000_0000 ≡ sign_bit → cost_new 0x8000_0000 ≡ ok 0)
    × (infinity ≤ 0x8000_0000
        → 0x8000_0000 ≢ sign_bit
        → cost_new 0x8000_0000 ≡ err (Error.invalid_cost 0x8000_0000))
cost_new_cases_example = cost_new_cases 0x8000_0000 (omega arith)

from_inclusive-admits_example :
    (4 < cost_max
      → (bound : StrictBound) × (from_inclusive 4 ≡ ok bound)
        × ((distance : ℕ) → (admits bound distance ≡ true) ↔ (distance ≤ 4)))
    × (4 ≡ cost_max → from_inclusive 4 ≡ err (Error.invalid_threshold 4))
from_inclusive-admits_example = from_inclusive-admits 4 (omega arith)

abbrev plain : CustomCosts ℕ
plain = record {
  default_substitution = 1;
  default_deletion = 1;
  default_insertion = 1;
  substitutions = [];
  deletions = [];
  insertions = [];
}

set_substitution_lem_example :
    ((5 == 7) ≡ true → set_substitution plain 5 7 3 ≡ plain)
    × ((5 == 7) ≡ false
        → (a b : ℕ)
        → (edit_costs (set_substitution plain 5 7 3)).substitution a b
          ≡ (if (5 == a) && (7 == b) then 3 else (edit_costs plain).substitution a b))
set_substitution_lem_example = set_substitution_lem plain 5 7 3

set_deletion-insertion_example :
    ((edit_costs (set_deletion plain 5 3)).deletion 5
      ≡ (if 5 == 5 then 3 else (edit_costs plain).deletion 5))
    × ((edit_costs (set_insertion plain 5 3)).insertion 5
        ≡ (if 5 == 5 then 3 else (edit_costs plain).insertion 5))
set_deletion-insertion_example = set_deletion-insertion plain 5 3 5

abbrev tokens : List ℕ
tokens = 5 ∷ 7 ∷ 9 ∷ 7 ∷ 7 ∷ []

vocabulary_built : build (insert_all new tokens) ≡ ok engine.vocabulary
unfolding build insert_all new
vocabulary_built = refl

token-symbol_example : token engine.vocabulary (symbol engine.vocabulary 9) ≡ some 9
token-symbol_example = token-symbol tokens engine.vocabulary 2 9 vocabulary_built refl

nine : token engine.vocabulary 2 ≡ some 9
unfolding token
nine = refl

symbol-token_example : symbol engine.vocabulary 9 ≡ 2
symbol-token_example = symbol-token tokens engine.vocabulary 2 9 vocabulary_built nine

abbrev strings : List (List Symbol)
strings = (1 ∷ 0 ∷ 2 ∷ []) ∷ (0 ∷ 0 ∷ []) ∷ []

string-of_example : Store.string (stored strings 3) 1 ≡ ok (some (0 ∷ 0 ∷ []))
string-of_example = string-of strings 3 1 (0 ∷ 0 ∷ []) refl (omega arith)

second : Store.string (stored strings 3) 1 ≡ ok (some (0 ∷ 0 ∷ []))
second = string-of strings 3 1 (0 ∷ 0 ∷ []) refl (omega arith)

string-is_example : get_elem? strings 1 ≡ some (0 ∷ 0 ∷ [])
string-is_example = string-is strings 3 1 (0 ∷ 0 ∷ []) second

-- The postings arrive out of order, one of them twice.
abbrev postings : PostingsIndexBuilder
postings = record {
  symbol_count = 2;
  postings =
      (1, record { string_id = 0; position = 2 })
      ∷ (0, record { string_id = 0; position = 1 })
      ∷ (1, record { string_id = 0; position = 0 })
      ∷ (1, record { string_id = 0; position = 2 })
      ∷ [];
}

posting_slice-build_example :
    (ps : List Posting) × (posting_slice (Postings.build postings) 1 ≡ ok ps)
    × AreAscending ps
    × ((p : Posting) → (p ∈ ps) ↔ ((1, p) ∈ postings.postings))
posting_slice-build_example =
    posting_slice-build postings 1 (omega arith)
      (omega arith, (omega arith, (omega arith, (omega arith, tt))))

alphabet_is : alphabet (Postings.build postings) ≡ ok (0 ∷ 1 ∷ [])
unfolding alphabet Postings.build
alphabet_is = refl

listed : (1, record { string_id = 0; position = 0 }) ∈ entries_of postings.postings
unfolding Postings.dedup Postings.sort_entries
listed = inr (inl refl)

alphabet-has_example : ◌∈◌ {A = Symbol} 1 (0 ∷ 1 ∷ [])
alphabet-has_example =
    alphabet-has postings (0 ∷ 1 ∷ []) (1, record { string_id = 0; position = 0 })
      (omega arith, (omega arith, (omega arith, (omega arith, tt)))) alphabet_is listed
      (omega arith)

room : len engine.vocabulary + length query ≤ u32_max
unfolding len
room = omega arith

new-Decodes_example :
    (q : EncodedQuery ℕ) × (Encoding.new engine.vocabulary query ≡ ok q)
    × Decodes engine.vocabulary q.unknown_tokens q.string query
new-Decodes_example =
    new-Decodes engine.vocabulary (build-IsBuilt builder engine engine-built).faithful query room

scan_lem_example :
    ((s : Symbol)
      → (s ∈ (scan 1 2 costs engine.neighborhood).0
          → (s ∈ engine.neighborhood.alphabet) × (costs.substitution 1 s ≤ 2))
        × (s ∈ engine.neighborhood.alphabet
            → costs.substitution 1 s ≤ 2
            → s ∈ (scan 1 2 costs engine.neighborhood).0))
    × IsCheapest 1 2 costs engine.neighborhood.alphabet
        (costs.deletion 1)
        (scan 1 2 costs engine.neighborhood).1
scan_lem_example = scan_lem 1 2 costs engine.neighborhood

new-IsUnique_example :
    (IsUnique [] (0 ∷ 1 ∷ 0 ∷ [])
      → Neighborhood.new (0 ∷ 1 ∷ 0 ∷ []) ≡ ok (record { alphabet = 0 ∷ 1 ∷ 0 ∷ [] }))
    × ((IsUnique [] (0 ∷ 1 ∷ 0 ∷ []) → ⊥)
        → Neighborhood.new (0 ∷ 1 ∷ 0 ∷ []) ≡ err Error.duplicate_alphabet_symbol)
new-IsUnique_example = new-IsUnique (0 ∷ 1 ∷ 0 ∷ [])
