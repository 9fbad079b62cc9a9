-- ===== src/Search/Verification/Trie/Anchors.antt =====
-- src/search/verification/bidirectional_trie.rs: what one candidate records: only distances of
-- alignments, and those of every alignment that substitutes at its anchor.
use yurine.Prelude.{
  ℕ, suc, ◌+◌, ◌≤◌, ◌<◌, ◌≡◌, true, some, List, [], ◌++◌, reverse, length, take, drop, inl, inr,
  nat_eq, Option-cases,
}
use yurine.Map.{get}
use yurine.Errors.{ok}
use yurine.Types.{Symbol}
use yurine.Float.{Float}
use yurine.Float.Laws.{IsExact}
use yurine.Costs.{EditCosts}
use yurine.Store.{CorpusStore}
use yurine.Store
use yurine.Search.Bound.{StrictBound, admits}
use yurine.Search.Matches.{Candidate}
use yurine.Search.Verification.Alignment.{wed}
use yurine.Search.Verification.Distances.{IsCell, HasGoodCosts, exact}
use yurine.Search.Verification.Trie.{
  TrieForest, TrieNode, DirectionalQueryStrings, directional_query_strings, directional_entry,
  extend_backward, extend_forward,
}
use yurine.Search.Verification.Trie.Cache.{
  IsValidNode, root-IsValidNode, CoversPrefixes, cached_prefix_distances_lem,
}
use yurine.Search.Verification.Trie.Substrings.{Key}

module _ {fl : Float} (x : IsExact fl) (costs : EditCosts Symbol) (g : HasGoodCosts x costs)
    (query : List Symbol) where
  abbrev pub dist : List Symbol → List Symbol → ℕ
  dist = wed (exact x costs)

  -- Every cached trie belongs to its query position and its direction.
  pub record IsValidForest (f : TrieForest) : Type 0 where
    pub backward_valid :
        (p : ℕ) (n : TrieNode)
        → get f.backward p ≡ some n
        → IsValidNode x costs g (reverse (take p query)) [] n
    pub forward_valid :
        (p : ℕ) (n : TrieNode)
        → get f.forward p ≡ some n
        → IsValidNode x costs g (drop (suc p) query) [] n
    pub strings_valid :
        (p : ℕ) (d : DirectionalQueryStrings)
        → get f.strings p ≡ some d
        → d ≡ directional_query_strings query p

  pub directional_entry_lem :
      (p : ℕ) (f : TrieForest)
      → IsValidForest f
      → directional_entry query p f ≡ directional_query_strings query p
  unfolding directional_entry
  directional_entry_lem p f v = elim (Option-cases (get f.strings p)) [
    | inl new ↦ rw new
    | inr (d, old) ↦ rw old (v.strings_valid p d old)
  ]

  module _ (c : Candidate) (string : List Symbol) (budget : ℕ) (f : TrieForest)
      (small : x.value budget ≤ x.limit) (v : IsValidForest f) where
    abbrev pub before : List Symbol
    before = reverse (take c.query_position query)

    abbrev pub after : List Symbol
    after = drop (suc c.query_position) query

    pub extend_backward_lem :
        CoversPrefixes x costs g before budget
          (reverse (take c.string_position string))
          (extend_backward fl costs query string c budget f).0
        × IsValidNode x costs g before [] (extend_backward fl costs query string c budget f).1
    unfolding extend_backward directional_query_strings
    extend_backward_lem = elim (Option-cases (get f.backward c.query_position)) [
      | inl new ↦
          rw (directional_entry_lem c.query_position f v, new)
            (cached_prefix_distances_lem x costs g before budget _ _ small
              (root-IsValidNode x costs g before))
      | inr (n, old) ↦
          rw (directional_entry_lem c.query_position f v, old)
            (cached_prefix_distances_lem x costs g before budget _ n small
              (v.backward_valid c.query_position n old))
    ]

    pub extend_forward_lem :
        CoversPrefixes x costs g after budget
          (drop (suc c.string_position) string)
          (extend_forward fl costs query string c budget f).0
        × IsValidNode x costs g after [] (extend_forward fl costs query string c budget f).1
    unfolding extend_forward directional_query_strings
    extend_forward_lem = elim (Option-cases (get f.forward c.query_position)) [
      | inl new ↦
          rw (directional_entry_lem c.query_position f v, new)
            (cached_prefix_distances_lem x costs g after budget _ _ small
              (root-IsValidNode x costs g after))
      | inr (n, old) ↦
          rw (directional_entry_lem c.query_position f v, old)
            (cached_prefix_distances_lem x costs g after budget _ n small
              (v.forward_valid c.query_position n old))
    ]

  -- A substring of a stored string, with the pattern of a distance that is an alignment's.
  pub record IsMeasured (corpus : CorpusStore) (bound : StrictBound) (key : Key) (d : ℕ)
      : Type 0 where
    pub string : List Symbol
    pub pre : List Symbol
    pub segment : List Symbol
    pub post : List Symbol
    pub stored : Store.string corpus key.0 ≡ ok (some string)
    pub splits : string ≡ pre ++ segment ++ post
    pub starts : length pre ≡ key.1
    pub ends : length pre + length segment ≡ key.2
    pub nonempty : 0 < length segment
    pub distance : ℕ
    pub cell : IsCell x d distance
    pub reached : dist query segment ≤ distance
    pub fits : admits bound d ≡ true
