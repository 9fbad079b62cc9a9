-- ===== src/Search/Filtering/Generation/Counting.antt =====
-- src/search/filtering.rs: counting agrees with generation.
use yurine.Prelude.{
  ℕ, ◌+◌, ◌-◌, ◌≡◌, ap, sym, ◌∙◌, List, [], ◌∷◌, map, length, length-append, length-map, min, arith,
}
use yurine.Errors.{ok, >>=-eq-ok, ok-injective}
use yurine.Types.{Symbol, usize_limit}
use yurine.Postings.{PostingsIndex, posting_slice, frequency}
use yurine.Search.Matches.{Candidate}
use yurine.Search.Filtering.Selector.{SelectedPosition}
use yurine.Search.Filtering.Generation.{
  candidate_of, neighbor_candidates, generate_candidates, count_neighbors, count_from,
  count_candidates,
}

capped :
    (a b : ℕ) → min (min a (usize_limit - 1) + b) (usize_limit - 1) ≡ min (a + b) (usize_limit - 1)
capped a b = omega arith

zero_capped : ◌≡◌ {A = ℕ} 0 (min 0 (usize_limit - 1))
zero_capped = omega arith

module _ (index : PostingsIndex) where
  count_neighbors_lem :
      (position total : ℕ) (neighbors : List Symbol) (cs : List Candidate)
      → neighbor_candidates index position neighbors ≡ ok cs
      → count_neighbors index (min total (usize_limit - 1)) neighbors
        ≡ ok (min (total + length cs) (usize_limit - 1))
  unfolding neighbor_candidates count_neighbors frequency
  count_neighbors_lem position total [] cs e = rw (← ok-injective e) (ap ok (omega arith))
  count_neighbors_lem position total (s ∷ ss) cs e =
      let (ps, e1, r1) = >>=-eq-ok (posting_slice index s) _ e in
      let (rest, e2, r2) = >>=-eq-ok (neighbor_candidates index position ss) _ r1 in
      let size : length cs ≡ length ps + length rest =
        ap length (sym (ok-injective r2))
        ∙ length-append (map (candidate_of position) ps) rest
        ∙ ap (λ l. l + length rest) (length-map (candidate_of position) ps) in
      rw e1 (
        ap (λ t. count_neighbors index t ss) (capped total (length ps))
        ∙ count_neighbors_lem position (total + length ps) ss rest e2
        ∙ ap ok (omega (arith, size)))

  count_from_lem :
      (total : ℕ) (selected : List SelectedPosition) (cs : List Candidate)
      → generate_candidates index selected ≡ ok cs
      → count_from index (min total (usize_limit - 1)) selected
        ≡ ok (min (total + length cs) (usize_limit - 1))
  unfolding generate_candidates count_from
  count_from_lem total [] cs e = rw (← ok-injective e) (ap ok (omega arith))
  count_from_lem total (s ∷ selected) cs e =
      let (first, e1, r1) = >>=-eq-ok (neighbor_candidates index s.position s.neighbors) _ e in
      let (rest, e2, r2) = >>=-eq-ok (generate_candidates index selected) _ r1 in
      let size : length cs ≡ length first + length rest =
        ap length (sym (ok-injective r2)) ∙ length-append first rest in
      rw (count_neighbors_lem s.position total s.neighbors first e1)
        (count_from_lem (total + length first) selected rest e2 ∙ ap ok (omega (arith, size)))

  -- Counting returns the number of candidates that generation returns, saturated at the largest
  -- `usize`.
  pub count_candidates-generate_candidates :
      (selected : List SelectedPosition) (cs : List Candidate)
      → generate_candidates index selected ≡ ok cs
      → count_candidates index selected ≡ ok (min (length cs) (usize_limit - 1))
  unfolding count_candidates
  count_candidates-generate_candidates selected cs e =
      ap (λ t. count_from index t selected) zero_capped
      ∙ count_from_lem 0 selected cs e
      ∙ ap ok (omega arith)
