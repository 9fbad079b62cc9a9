-- ===== src/Search/RangeSearch/Answer.antt =====
-- src/search/range_search.rs: a search that returns its matches returns the exact answer.
use mathlib.Core.List.{append_assoc}
use yurine.Prelude.{
  ℕ, suc, ◌+◌, ◌≤◌, ◌≡◌, refl, sym, ap, ◌∙◌, subst, some, List, [], ◌∷◌, ◌++◌, ◌∈◌, length,
  get_elem?, get_elem?_of_length, get_elem?-lt, length-append, All, arith, lt→leb,
}
use yurine.Errors.{ok}
use yurine.Types.{Symbol, Posting}
use yurine.Float.{Float}
use yurine.Float.Laws.{IsExact}
use yurine.Costs.{Cost, EditCosts}
use yurine.Postings.{PostingsIndex, posting_slice}
use yurine.Store.{CorpusStore}
use yurine.Store
use yurine.Search.Bound.{StrictBound}
use yurine.Search.Matches.{Candidate}
use yurine.Search.Filtering.Neighborhood.{SubstitutionNeighborhood}
use yurine.Search.Filtering.Selector.{SelectedPosition}
use yurine.Search.Filtering.Selector.Rounds.{IsSelection, IsEntry}
use yurine.Search.Filtering.Generation.{generate_candidates, candidate_of}
use yurine.Search.Filtering.Generation.Membership.{in-generate_candidates, generate_candidates-All}
use yurine.Search.Filtering.Pigeonhole.{IsMet, IsSelection-meets}
use yurine.Search.Verification.{validated_candidate_string}
use yurine.Search.Verification.Alignment.{wed_attained, price}
use yurine.Search.Verification.Distances.{HasGoodCosts, exact}
use yurine.Search.Verification.Trie.{validate_candidates}
use yurine.Search.Verification.Trie.Exactness.{IsAnchor}
use yurine.Search.Verification.Trie.Answer.{IsCovering}

-- The postings are those of the stored strings, and the alphabet has their symbols.
pub record IsIndexed (index : PostingsIndex) (corpus : CorpusStore) (n : SubstitutionNeighborhood)
    : Type 0 where
  pub slices : (s : Symbol) → (ps : List Posting) × (posting_slice index s ≡ ok ps)
  pub found :
      (id j : ℕ) (string : List Symbol) (s : Symbol)
      → Store.string corpus id ≡ ok (some string)
      → get_elem? string j ≡ some s
      → (ps : List Posting) × (posting_slice index s ≡ ok ps)
        × (record { string_id = id; position = j } ∈ ps)
  pub valid :
      (s : Symbol) (ps : List Posting) (p : Posting)
      → posting_slice index s ≡ ok ps
      → p ∈ ps
      → (string : List Symbol) × (Store.string corpus p.string_id ≡ ok (some string))
        × (get_elem? string p.position ≡ some s)
  pub alphabet :
      (id j : ℕ) (string : List Symbol) (s : Symbol)
      → Store.string corpus id ≡ ok (some string)
      → get_elem? string j ≡ some s
      → s ∈ n.alphabet

All-of_get :
    (P : Symbol → Type 0) (xs : List Symbol)
    → ((j : ℕ) (s : Symbol) → get_elem? xs j ≡ some s → P s)
    → All P xs
All-of_get P [] h = tt
All-of_get P (x ∷ xs) h = (h 0 x refl, All-of_get P xs (λ j s e. h (suc j) s e))

All-inner : (P : Symbol → Type 0) (xs ys zs : List Symbol) → All P (xs ++ ys ++ zs) → All P ys
All-inner P [] [] zs h = tt
All-inner P [] (y ∷ ys) zs h = (h.0, All-inner P [] ys zs h.1)
All-inner P (x ∷ xs) ys zs h = All-inner P xs ys zs h.1

validated_lem :
    (query : List Symbol) (corpus : CorpusStore) (c : Candidate)
    → IsAnchor query corpus c
    → (string : List Symbol) × (validated_candidate_string query c corpus ≡ ok string)
unfolding validated_candidate_string
validated_lem query corpus c a = (
  a.string,
  rw (
    a.stored,
    lt→leb (length a.string) c.string_position
        (get_elem?-lt a.string c.string_position _ a.at_string),
    lt→leb (length query) c.query_position (get_elem?-lt query c.query_position _ a.at_query),
  ),
)

validate_candidates_lem :
    (query : List Symbol) (corpus : CorpusStore) (cs : List Candidate)
    → All (IsAnchor query corpus) cs
    → validate_candidates query cs corpus ≡ ok tt
unfolding validate_candidates
validate_candidates_lem query corpus [] h = refl
validate_candidates_lem query corpus (c ∷ cs) h =
    rw (validated_lem query corpus c h.0).1 (validate_candidates_lem query corpus cs h.1)

module _ {fl : Float} (x : IsExact fl) (costs : EditCosts Symbol) (g : HasGoodCosts x costs)
    (query : List Symbol) (bound : StrictBound) (small : x.value bound ≤ x.limit)
    (index : PostingsIndex) (corpus : CorpusStore) (n : SubstitutionNeighborhood)
    (indexed : IsIndexed index corpus n) (radius : Cost) (selected : List SelectedPosition)
    (selection : IsSelection fl radius costs n query bound selected) (cs : List Candidate)
    (generated : generate_candidates index selected ≡ ok cs) where
  entry-HoldsAt :
      (v : SelectedPosition)
      → IsEntry fl radius costs n query v
      → (s : Symbol) (ps : List Posting) (p : Posting) → posting_slice index s ≡ ok ps
      → p ∈ ps
      → IsAnchor query corpus (candidate_of v.position p)
  entry-HoldsAt v entry s ps p e i =
      let (string, stored, at_string) = indexed.valid s ps p e i in
      record {
        string = string;
        query_symbol = entry.symbol;
        string_symbol = s;
        stored = stored;
        at_query = entry.at_query;
        at_string = at_string;
      }

  All-entries :
      (vs : List SelectedPosition)
      → All (IsEntry fl radius costs n query) vs
      → All
          (λ v.
            (s : Symbol) (ps : List Posting) (p : Posting)
            → posting_slice index s ≡ ok ps
            → p ∈ ps
            → IsAnchor query corpus (candidate_of v.position p))
          vs
  All-entries [] h = tt
  All-entries (v ∷ vs) h = (entry-HoldsAt v h.0, All-entries vs h.1)

  pub generated-validated : validate_candidates query cs corpus ≡ ok tt
  generated-validated = validate_candidates_lem query corpus cs (
      generate_candidates-All index (IsAnchor query corpus) selected cs
        (All-entries selected selection.entries) generated)

  -- The candidates of a selection leave no alignment within the bound out.
  pub selection-IsCovering : IsCovering x costs g query bound corpus cs
  selection-IsCovering id pre segment post w =
      let (a, priced) = wed_attained (exact x costs) query segment in
      let all =
        All-inner (λ s. s ∈ n.alphabet) pre segment post
          (subst (All (λ s. s ∈ n.alphabet)) w.splits (
            All-of_get (λ s. s ∈ n.alphabet) w.string
              (λ j s e. indexed.alphabet id j w.string s w.stored e))) in
      let m : IsMet x radius costs g n selected 0 query segment (price (exact x costs) a) =
        IsSelection-meets x radius costs g n query segment bound selected small selection all a
          (omega (arith, priced, w.close)) in
      let around : w.string ≡ (pre ++ m.sl) ++ m.s ∷ (m.sr ++ post) =
        w.splits ∙ ap (λ t. pre ++ t ++ post) m.segment_splits ∙ simp (append_assoc) in
      let position : ℕ = length pre + length m.sl in
      let at : get_elem? w.string position ≡ some m.s =
        ap (λ t. get_elem? t position) around
        ∙ get_elem?_of_length (pre ++ m.sl) m.s (m.sr ++ post) position (length-append pre m.sl) in
      let (ps, slice, here) = indexed.found id position w.string m.s w.stored at in
      let entry = m.selected_here.entry in
      record {
        candidate = candidate_of entry.position (record { string_id = id; position = position });
        listed =
            in-generate_candidates index selected cs entry m.s ps _ generated m.selected_here.listed
              (subst (λ t. m.s ∈ t) (sym m.selected_here.has_near) m.neighbor) slice here;
        before = m.before;
        after = m.after;
        sl = m.sl;
        sr = m.sr;
        q = m.q;
        s = m.s;
        query_splits = m.query_splits;
        segment_splits = m.segment_splits;
        same_string = refl;
        string_anchor = refl;
        query_anchor = omega (arith, m.selected_here.at_position);
        best = omega (arith, m.best, priced);
      }
