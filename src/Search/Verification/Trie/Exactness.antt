-- ===== src/Search/Verification/Trie/Exactness.antt =====
-- src/search/verification/bidirectional_trie.rs: all candidates together. The map that verification
-- fills holds measured substrings in order, and every alignment through a candidate's anchor.
use yurine.Prelude.{
  ℕ, suc, ◌+◌, ◌≤◌, ◌<◌, ◌≡◌, refl, ◌∙◌, some, List, [], ◌∷◌, ◌++◌, length, get_elem?, take, drop,
  inl, inr, arith, ltb→le, false, Bool-cases, ap, Option, none, get_elem?_of_lt, leb, if◌then◌else◌,
}
use yurine.Errors.{Error, Result, ok, err, >>=-eq-ok, ok_or}
use yurine.Types.{Symbol}
use yurine.Float.{Float}
use yurine.Float.Laws.{IsExact}
use yurine.Costs.{EditCosts}
use yurine.Store.{CorpusStore}
use yurine.Store
use yurine.Search.Bound.{StrictBound, admits, residual}
use yurine.Search.Matches.{Candidate}
use yurine.Search.Verification.{validated_candidate_string}
use yurine.Search.Verification.Alignment.{wed}
use yurine.Search.Verification.Distances.{HasGoodCosts, exact}
use yurine.Search.Verification.Trie.{
  TrieForest, Substrings, extend_anchor, extend_backward, extend_forward, verify_candidate,
  verify_candidates, record_distance, validate_candidates,
}
use yurine.Search.Verification.Trie.Substrings.{
  Key, AllEntries, Has, IsSorted, combine-keeps, record_distance-IsSorted, record_distance-Has,
}
use yurine.Search.Verification.Trie.Anchors.{IsValidForest, IsMeasured}
use yurine.Search.Verification.Trie.Recorded.{extend_anchor-AllEntries}
use yurine.Search.Verification.Trie.Complete.{
  IsAtMost, min-IsAtMost, extend_anchor-IsValidForest, extend_anchor-Has,
}

-- A candidate within its string and within the query.
pub record IsAnchor (query : List Symbol) (corpus : CorpusStore) (c : Candidate) : Type 0 where
  pub string : List Symbol
  pub query_symbol : Symbol
  pub string_symbol : Symbol
  pub stored : Store.string corpus c.string_id ≡ ok (some string)
  pub at_query : get_elem? query c.query_position ≡ some query_symbol
  pub at_string : get_elem? string c.string_position ≡ some string_symbol

abbrev pub AllAnchors : List Symbol → CorpusStore → List Candidate → Type 0
AllAnchors query corpus [] = Unit
AllAnchors query corpus (c ∷ cs) = IsAnchor query corpus c × AllAnchors query corpus cs

ok_or-eq-ok :
    (o : Option (List Symbol)) (e : Error) (s : List Symbol) → ok_or o e ≡ ok s → o ≡ some s
ok_or-eq-ok none e s h = cc
ok_or-eq-ok (some t) e s h = cc

module _ (c : Candidate) (query s string : List Symbol) where
  abbrev checks : Result (List Symbol)
  checks =
      if leb (length s) c.string_position
      then err (Error.invalid_string_position c.string_position (length s))
      else if leb (length query) c.query_position
      then err (Error.invalid_query_position c.query_position (length query))
      else ok s

  in-bounds : checks ≡ ok string → c.string_position < length s
  in-bounds h = ground arith

  query-in-bounds : checks ≡ ok string → c.query_position < length query
  query-in-bounds h = ground arith

-- A candidate that passes its validation lies within its string and the query.
validated-IsAnchor :
    (query : List Symbol) (corpus : CorpusStore) (c : Candidate) (string : List Symbol)
    → validated_candidate_string query c corpus ≡ ok string
    → IsAnchor query corpus c
unfolding validated_candidate_string
validated-IsAnchor query corpus c string e =
    let (found, e1, r1) = >>=-eq-ok (Store.string corpus c.string_id) _ e in
    let (s, e2, r2) = >>=-eq-ok (ok_or found (Error.unknown_string c.string_id)) _ r1 in
    let in_string : c.string_position < length s = in-bounds c query s string r2 in
    let in_query : c.query_position < length query = query-in-bounds c query s string r2 in
    let (t, et) = get_elem?_of_lt s c.string_position in_string in
    let (q, eq) = get_elem?_of_lt query c.query_position in_query in
    record {
      string = s;
      query_symbol = q;
      string_symbol = t;
      stored = e1 ∙ ap ok (ok_or-eq-ok found _ s e2);
      at_query = eq;
      at_string = et;
    }

pub validate_candidates-AllAnchors :
    (query : List Symbol) (corpus : CorpusStore) (cs : List Candidate)
    → validate_candidates query cs corpus ≡ ok tt
    → AllAnchors query corpus cs
unfolding validate_candidates
validate_candidates-AllAnchors query corpus [] e = tt
validate_candidates-AllAnchors query corpus (c ∷ cs) e =
    let (s, e1, r1) = >>=-eq-ok (validated_candidate_string query c corpus) _ e in
    (validated-IsAnchor query corpus c s e1, validate_candidates-AllAnchors query corpus cs r1)

extend_anchor-keeps :
    (Q : Substrings → Type 0)
    → ((k : Key) (d : ℕ) (m : Substrings) → Q m → Q (record_distance k d m))
    → (fl : Float) (costs : EditCosts Symbol) (bound : StrictBound) (query string : List Symbol)
    → (c : Candidate) (anchor : ℕ) (f : TrieForest) (m : Substrings) → Q m
    → Q (extend_anchor fl costs bound query string c anchor (f, m)).1
unfolding extend_anchor
extend_anchor-keeps Q step fl costs bound query string c anchor f m h =
    combine-keeps Q step fl bound c anchor 0
      (extend_backward fl costs query string c (residual fl bound anchor) f).0
      (extend_forward fl costs query string c (residual fl bound anchor) f).0 m h

module _ {fl : Float} (x : IsExact fl) (costs : EditCosts Symbol) (g : HasGoodCosts x costs)
    (query : List Symbol) (bound : StrictBound) (bound_good : x.IsGood bound)
    (bound_small : x.value bound ≤ x.limit) (corpus : CorpusStore) where
  abbrev dist : List Symbol → List Symbol → ℕ
  dist = wed (exact x costs)

  -- What holds between two candidates.
  pub record IsVerified (state : TrieForest × Substrings) : Type 0 where
    pub forest_valid : IsValidForest x costs g query state.0
    pub measured : AllEntries (IsMeasured x costs g query corpus bound) state.1
    pub sorted : IsSorted state.1

  -- The alignments that substitute at the anchor for less than the bound are in the map.
  abbrev pub IsRecorded : (c : Candidate) → IsAnchor query corpus c → Substrings → Type 0
  IsRecorded c a m =
      (pre sl sr post : List Symbol)
      → a.string ≡ pre ++ (sl ++ a.string_symbol ∷ sr) ++ post
      → length pre + length sl ≡ c.string_position
      → x.value (costs.substitution a.query_symbol a.string_symbol)
          + dist (take c.query_position query) sl
          + dist (drop (suc c.query_position) query) sr
        < x.value bound
      → Has
          (IsAtMost x (
            x.value (costs.substitution a.query_symbol a.string_symbol)
            + dist (take c.query_position query) sl
            + dist (drop (suc c.query_position) query) sr))
          (c.string_id, length pre, c.string_position + length sr + 1) m

  abbrev pub KeepsAll : Substrings → Substrings → Type 0
  KeepsAll m m' = (v : ℕ) (key : Key) → Has (IsAtMost x v) key m → Has (IsAtMost x v) key m'

  too_dear : (d : ℕ) → admits bound d ≡ false → x.value bound ≤ x.value d
  unfolding admits
  too_dear d over = x.value-mono bound d (ltb→le d bound over)

  verify_candidate_lem :
      (c : Candidate) (a : IsAnchor query corpus c) (f : TrieForest) (m : Substrings)
      → IsVerified (f, m)
      → (f' : TrieForest) × (m' : Substrings) × (verify_candidate fl costs bound query corpus c
            (f, m)
          ≡ ok (f', m'))
        × IsVerified (f', m')
        × KeepsAll m m'
        × IsRecorded c a m'
  unfolding verify_candidate
  verify_candidate_lem c a f m v = elim (Bool-cases (admits bound anchor)) [
    | inl fits ↦
        let after = extend_anchor fl costs bound query a.string c anchor (f, m) in
        (
          after.0,
          after.1,
          rw (a.stored, a.at_query, a.at_string, fits),
          record {
            forest_valid =
                extend_anchor-IsValidForest x costs g query bound bound_good bound_small c a.string
                  a.query_symbol a.string_symbol a.at_query a.at_string fits f v.forest_valid m;
            measured =
                extend_anchor-AllEntries x costs g query bound bound_good bound_small c a.string
                  a.query_symbol a.string_symbol a.at_query a.at_string fits f v.forest_valid corpus
                  m a.stored v.measured;
            sorted =
                extend_anchor-keeps IsSorted record_distance-IsSorted fl costs bound query a.string
                  c anchor f m v.sorted;
          },
          λ n key.
              extend_anchor-keeps (Has (IsAtMost x n) key)
                (λ k d m. record_distance-Has (IsAtMost x n) (min-IsAtMost x n) key k d m) fl costs
                bound query a.string c anchor f m,
          λ pre sl sr post splits anchored cheap.
              extend_anchor-Has x costs g query bound bound_good bound_small c a.string
                a.query_symbol a.string_symbol a.at_query a.at_string fits f v.forest_valid pre sl
                sr post splits anchored cheap m,
        )
    | inr over ↦ (
      f,
      m,
      rw (a.stored, a.at_query, a.at_string, over),
      v,
      λ n key h. h,
      λ pre sl sr post splits anchored cheap. absurd (omega (arith, too_dear anchor over)),
    )
  ]
    where
      anchor : ℕ
      anchor = costs.substitution a.query_symbol a.string_symbol

  abbrev pub AllRecorded : (cs : List Candidate) → AllAnchors query corpus cs → Substrings → Type 0
  AllRecorded [] anchors m = Unit
  AllRecorded (c ∷ cs) anchors m = IsRecorded c anchors.0 m × AllRecorded cs anchors.1 m

  -- All candidates are processed, and what each records stays.
  pub verify_candidates_lem :
      (cs : List Candidate) (anchors : AllAnchors query corpus cs) (f : TrieForest) (m : Substrings)
      → IsVerified (f, m)
      → (f' : TrieForest) × (m' : Substrings) × (verify_candidates fl costs bound query corpus cs
            (f, m)
          ≡ ok (f', m'))
        × IsVerified (f', m')
        × KeepsAll m m'
        × AllRecorded cs anchors m'
  unfolding verify_candidates
  verify_candidates_lem [] anchors f m v = (f, m, refl, v, λ n key h. h, tt)
  verify_candidates_lem (c ∷ cs) anchors f m v =
      let (f1, m1, e1, v1, k1, r1) = verify_candidate_lem c anchors.0 f m v in
      let (f2, m2, e2, v2, k2, r2) = verify_candidates_lem cs anchors.1 f1 m1 v1 in
      (
        f2,
        m2,
        rw e1 e2,
        v2,
        λ n key h. k2 n key (k1 n key h),
        (
          λ pre sl sr post splits anchored cheap. k2 _ _ (r1 pre sl sr post splits anchored cheap),
          r2,
        ),
      )
