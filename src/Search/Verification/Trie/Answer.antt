-- ===== src/Search/Verification/Trie/Answer.antt =====
-- src/search/verification/bidirectional_trie.rs: the matches are the substrings within the bound, each
-- once and in order, with their distances, where the candidates leave no alignment out.
use mathlib.Core.List.{append_assoc}
use mathlib.Core.Path.{subst₂}
use native.Mathlib.Decide.{dec_lt}
use yurine.Map.{get}
use yurine.Prelude.{
  ℕ, suc, ◌+◌, ◌≤◌, ◌<◌, ◌≡◌, sym, ap, ◌∙◌, subst, true, some, List, [], ◌∷◌, ◌++◌, length,
  get_elem?, take, drop, inl, inr, arith, ltb→lt, ◌∈◌, map, take_of_length, drop_behind,
  get_elem?_of_length, length-append,
}
use yurine.Errors.{ok}
use yurine.Types.{Symbol}
use yurine.Float.{Float, infinity}
use yurine.Float.Laws.{IsExact}
use yurine.Costs.{EditCosts}
use yurine.Store.{CorpusStore}
use yurine.Store
use yurine.Search.Bound.{StrictBound, admits}
use yurine.Search.Matches.{Candidate, Match}
use yurine.Search.Verification.Alignment.{wed}
use yurine.Search.Verification.Distances.{HasGoodCosts, exact}
use yurine.Search.Verification.Trie.{Substrings, verify, empty_forest, validate_candidates}
use yurine.Search.Verification.Trie.Substrings.{Key, AllEntries, Has, IsSorted}
use yurine.Search.Verification.Trie.Anchors.{IsMeasured}
use yurine.Search.Verification.Trie.Complete.{IsAtMost}
use yurine.Search.Verification.Trie.Exactness.{
  IsAnchor, IsVerified, AllAnchors, AllRecorded, IsRecorded, verify_candidates_lem,
  validate_candidates-AllAnchors,
}
use yurine.Search.Verification.Trie.Sorted.{
  Has-unique, AllEntries-of, match_of, create_matches_lem, IsOrdered, IsSorted-IsOrdered, ∈-of-map,
  Has-∈, Has-map,
}

module _ {fl : Float} (x : IsExact fl) (costs : EditCosts Symbol) (g : HasGoodCosts x costs)
    (query : List Symbol) (bound : StrictBound) (corpus : CorpusStore) where
  abbrev dist : List Symbol → List Symbol → ℕ
  dist = wed (exact x costs)

  -- A match is a substring of a stored string, with the substring's distance, within the bound.
  pub record IsMatch (m : Match) : Type 0 where
    pub string : List Symbol
    pub pre : List Symbol
    pub segment : List Symbol
    pub post : List Symbol
    pub stored : Store.string corpus m.sequence_id ≡ ok (some string)
    pub splits : string ≡ pre ++ segment ++ post
    pub starts : length pre ≡ m.range_start
    pub ends : length pre + length segment ≡ m.range_end
    pub nonempty : 0 < length segment
    pub exact_distance : x.value m.distance ≡ dist query segment
    pub fits : m.distance < bound

  -- A substring within the bound.
  pub record IsWithin (id : ℕ) (pre segment post : List Symbol) : Type 0 where
    pub string : List Symbol
    pub stored : Store.string corpus id ≡ ok (some string)
    pub splits : string ≡ pre ++ segment ++ post
    pub nonempty : 0 < length segment
    pub close : dist query segment < x.value bound

  -- The matches are the substrings within the bound, each once, in order.
  pub record IsAnswer (matches : List Match) : Type 0 where
    pub sound : (m : Match) → m ∈ matches → IsMatch m
    pub complete :
        (id : ℕ) (pre segment post : List Symbol)
        → IsWithin id pre segment post
        → (d : ℕ) × (match_of ((id, length pre, length pre + length segment), d) ∈ matches)
    pub ordered : IsOrdered matches

  -- A candidate at which a best alignment of the substring substitutes.
  pub record IsCrossed (cs : List Candidate) (id : ℕ) (pre segment : List Symbol) : Type 0 where
    pub candidate : Candidate
    pub listed : candidate ∈ cs
    pub before : List Symbol
    pub after : List Symbol
    pub sl : List Symbol
    pub sr : List Symbol
    pub q : Symbol
    pub s : Symbol
    pub query_splits : query ≡ before ++ q ∷ after
    pub segment_splits : segment ≡ sl ++ s ∷ sr
    pub same_string : candidate.string_id ≡ id
    pub string_anchor : length pre + length sl ≡ candidate.string_position
    pub query_anchor : length before ≡ candidate.query_position
    pub best :
        x.value (costs.substitution q s) + dist before sl + dist after sr ≤ dist query segment

  abbrev pub IsCovering : List Candidate → Type 0
  IsCovering cs =
      (id : ℕ) (pre segment post : List Symbol)
      → IsWithin id pre segment post
      → IsCrossed cs id pre segment

  module _ (bound_good : x.IsGood bound) (bound_small : x.value bound ≤ x.limit) where
    AllRecorded-of :
        (cs : List Candidate) (anchors : AllAnchors query corpus cs) (m : Substrings)
        (c : Candidate)
        → AllRecorded x costs g query bound bound_good bound_small corpus cs anchors m
        → c ∈ cs
        → (a : IsAnchor query corpus c) × IsRecorded x costs g query bound bound_good bound_small
            corpus c a m
    AllRecorded-of [] anchors m c r i = absurd i
    AllRecorded-of (c' ∷ cs) anchors m c r (inl e) =
        subst
          (λ d.
            (a : IsAnchor query corpus d) × IsRecorded x costs g query bound bound_good bound_small
              corpus d a m)
          (sym e) (anchors.0, r.0)
    AllRecorded-of (c' ∷ cs) anchors m c r (inr i) = AllRecorded-of cs anchors.1 m c r.1 i

    crossed-Has :
        (cs : List Candidate) (anchors : AllAnchors query corpus cs) (m : Substrings)
        → AllRecorded x costs g query bound bound_good bound_small corpus cs anchors m
        → (id : ℕ) (pre segment post : List Symbol) → IsWithin id pre segment post
        → IsCrossed cs id pre segment
        → Has (IsAtMost x (dist query segment)) (id, length pre, length pre + length segment) m
    crossed-Has cs anchors m r id pre segment post w k =
        let (a, recorded) = AllRecorded-of cs anchors m k.candidate r k.listed in
        let string_same : a.string ≡ w.string = cc (a.stored, w.stored, k.same_string) in
        let splits : w.string ≡ pre ++ (k.sl ++ k.s ∷ k.sr) ++ post =
          w.splits ∙ ap (λ t. pre ++ t ++ post) k.segment_splits in
        let around : w.string ≡ (pre ++ k.sl) ++ k.s ∷ (k.sr ++ post) =
          splits ∙ simp (append_assoc) in
        let q_same : a.query_symbol ≡ k.q = cc (
          a.at_query,
          ap (λ t. get_elem? t k.candidate.query_position) k.query_splits,
          get_elem?_of_length k.before k.q k.after k.candidate.query_position k.query_anchor,
        ) in
        let s_same : a.string_symbol ≡ k.s = cc (
          a.at_string,
          ap (λ t. get_elem? t k.candidate.string_position) (string_same ∙ around),
          get_elem?_of_length (pre ++ k.sl) k.s (k.sr ++ post) k.candidate.string_position
              (length-append pre k.sl ∙ k.string_anchor),
        ) in
        let before_same : take k.candidate.query_position query ≡ k.before =
          ap (take k.candidate.query_position) k.query_splits
          ∙ take_of_length k.before (k.q ∷ k.after) k.candidate.query_position k.query_anchor in
        let after_same : drop (suc k.candidate.query_position) query ≡ k.after =
          ap (drop (suc k.candidate.query_position)) k.query_splits
          ∙ drop_behind k.before k.q k.after k.candidate.query_position k.query_anchor in
        let total : x.value (costs.substitution a.query_symbol a.string_symbol)
              + dist (take k.candidate.query_position query) k.sl
              + dist (drop (suc k.candidate.query_position) query) k.sr
            ≡ x.value (costs.substitution k.q k.s) + dist k.before k.sl + dist k.after k.sr =
          cc (q_same, s_same, before_same, after_same) in
        let found =
          recorded pre k.sl k.sr post
            (string_same
              ∙ subst (λ t. w.string ≡ pre ++ (k.sl ++ t ∷ k.sr) ++ post) (sym s_same) splits)
            k.string_anchor (omega (arith, total, k.best, w.close)) in
        let size : length segment ≡ length k.sl + length k.sr + 1 =
          ap length k.segment_splits ∙ omega (arith, length-append k.sl (k.s ∷ k.sr)) in
        subst₂ (λ i e. Has (IsAtMost x (dist query segment)) (i, length pre, e) m) k.same_string
          (omega (arith, size, k.string_anchor))
          (Has-map (IsAtMost x _) (IsAtMost x (dist query segment)) _ m
            (λ d h. omega (arith, total, k.best)) found)

    start : IsVerified x costs g query bound bound_good bound_small corpus (empty_forest, [])
    unfolding get
    start = record {
      forest_valid = record {
        backward_valid = λ p n e. cc;
        forward_valid = λ p n e. cc;
        strings_valid = λ p n e. cc;
      };
      measured = tt;
      sorted = tt;
    }

    measured-finite :
        (m : Substrings)
        → bound < infinity
        → AllEntries (IsMeasured x costs g query corpus bound) m
        → AllEntries (λ k d. d < infinity) m
    unfolding admits
    measured-finite [] h a = tt
    measured-finite ((k, d) ∷ m) h a =
        (omega (arith, ltb→lt d bound a.0.fits), measured-finite m h a.1)

    value_small : (d : ℕ) → admits bound d ≡ true → x.value d < x.value bound
    unfolding admits
    value_small d h = elim (dec_lt (x.value d) (x.value bound)) [
      | yes lt ↦ lt
      | no ge ↦ absurd (omega (arith, ltb→lt d bound h, x.value-reflects bound d (omega arith)))
    ]

    -- The distance of a measured substring is exact where some entry of its key is.
    measured-IsMatch :
        (k : Key) (d : ℕ) (w : IsMeasured x costs g query corpus bound k d)
        → x.value d ≤ dist query w.segment
        → IsMatch (match_of (k, d))
    unfolding admits
    measured-IsMatch k d w least = record {
      string = w.string;
      pre = w.pre;
      segment = w.segment;
      post = w.post;
      stored = w.stored;
      splits = w.splits;
      starts = w.starts;
      ends = w.ends;
      nonempty = w.nonempty;
      exact_distance = omega (arith, least, w.reached, w.cell.near, value_small d w.fits);
      fits = ltb→lt d bound w.fits;
    }

    measured-IsWithin :
        (k : Key) (d : ℕ) (w : IsMeasured x costs g query corpus bound k d)
        → IsWithin k.0 w.pre w.segment w.post
    measured-IsWithin k d w = record {
      string = w.string;
      stored = w.stored;
      splits = w.splits;
      nonempty = w.nonempty;
      close = omega (arith, w.reached, w.cell.near, value_small d w.fits);
    }

    match_sound :
        (m : Substrings)
        → AllEntries (IsMeasured x costs g query corpus bound) m
        → IsSorted m
        → ((id : ℕ) (pre segment post : List Symbol)
            → IsWithin id pre segment post
            → Has (IsAtMost x (dist query segment)) (id, length pre, length pre + length segment) m)
        → (a : Match) → a ∈ map match_of m
        → IsMatch a
    match_sound m measured sorted has a i =
        let (k, d, h, e) = ∈-of-map a m i in
        let w = AllEntries-of (IsMeasured x costs g query corpus bound) k d m measured h in
        let found = has k.0 w.pre w.segment w.post (measured-IsWithin k d w) in
        let found' : Has (IsAtMost x (dist query w.segment)) k m =
          subst₂ (λ b e. Has (IsAtMost x (dist query w.segment)) (k.0, b, e) m) w.starts w.ends
            found in
        subst IsMatch (sym e) (
          measured-IsMatch k d w
            (Has-unique (IsAtMost x (dist query w.segment)) k d m sorted h found'))

    -- Verification returns, with the exact answer, for candidates that pass their validation and
    -- leave no alignment out.
    pub verify-IsAnswer :
        (cs : List Candidate)
        → bound < infinity
        → validate_candidates query cs corpus ≡ ok tt
        → IsCovering cs
        → (matches : List Match) × (verify fl query cs corpus bound costs ≡ ok matches)
          × IsAnswer matches
    unfolding verify
    verify-IsAnswer cs finite validated covering =
        let anchors = validate_candidates-AllAnchors query corpus cs validated in
        let (f, m, e, v, k, r) =
          verify_candidates_lem x costs g query bound bound_good bound_small corpus cs anchors
            empty_forest [] start in
        let has : (id : ℕ) (pre segment post : List Symbol)
            → IsWithin id pre segment post
            → Has (IsAtMost x (dist query segment)) (id, length pre, length pre + length segment)
                m =
          λ id pre segment post w.
            crossed-Has cs anchors m r id pre segment post w (covering id pre segment post w) in
        (
          map match_of m,
          rw (validated, e, create_matches_lem m (measured-finite m finite v.measured)),
          record {
            sound = match_sound m v.measured v.sorted has;
            complete = λ id pre segment post w. Has-∈ _ _ m (has id pre segment post w);
            ordered = IsSorted-IsOrdered m v.sorted;
          },
        )
