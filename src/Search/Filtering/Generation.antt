-- ===== src/Search/Filtering/Generation.antt =====
-- src/search/filtering.rs: the candidate anchors of the selected positions, and their number.
pub mod Counting
pub mod Membership
use yurine.Prelude.{ℕ, ◌+◌, ◌-◌, List, [], ◌∷◌, ◌++◌, map, length, ltb, if◌then◌else◌, min}
use yurine.Errors.{Result, ok, ◌>>=◌}
use yurine.Types.{Position, Posting, Symbol, usize_limit}
use yurine.Postings.{PostingsIndex, posting_slice, frequency}
use yurine.Search.Matches.{Candidate}
use yurine.Search.Filtering.Selector.{SelectedPosition}

abbrev pub candidate_of : Position → Posting → Candidate
candidate_of position p = record {
  string_id = p.string_id;
  string_position = p.position;
  query_position = position;
}

module _ (index : PostingsIndex) where
  unfoldable pub neighbor_candidates : Position → List Symbol → Result (List Candidate)
  unfolding posting_slice
  neighbor_candidates position [] = ok []
  neighbor_candidates position (neighbor ∷ neighbors) = do
    postings ← posting_slice index neighbor
    rest ← neighbor_candidates position neighbors
    ok (map (candidate_of position) postings ++ rest)

  unfoldable pub generate_candidates : List SelectedPosition → Result (List Candidate)
  unfolding neighbor_candidates
  generate_candidates [] = ok []
  generate_candidates (s ∷ selected) = do
    first ← neighbor_candidates s.position s.neighbors
    rest ← generate_candidates selected
    ok (first ++ rest)

  abbrev pub saturating_add : ℕ → ℕ → ℕ
  saturating_add a b = min (a + b) (usize_limit - 1)

  unfoldable pub count_neighbors : ℕ → List Symbol → Result ℕ
  unfolding frequency
  count_neighbors total [] = ok total
  count_neighbors total (neighbor ∷ neighbors) = do
    f ← frequency index neighbor
    count_neighbors (saturating_add total f) neighbors

  unfoldable pub count_from : ℕ → List SelectedPosition → Result ℕ
  unfolding count_neighbors
  count_from total [] = ok total
  count_from total (s ∷ selected) = count_neighbors total s.neighbors >>= λ t. count_from t selected

  unfoldable pub count_candidates : List SelectedPosition → Result ℕ
  unfolding count_from
  count_candidates selected = count_from 0 selected
