-- ===== src/Search/RangeSearch/EndToEnd.antt =====
-- src/search/range_search.rs: a search with its parameters, from the query's tokens to the matches in
-- the sequences of tokens.
use yurine.Prelude.{
  ℕ, suc, ◌+◌, ◌≤◌, ◌<◌, ◌≡◌, refl, ◌∙◌, ap, sym, subst, false, List, [], ◌∷◌, length, Eq, arith,
  some, All, true, inl, inr, Option-cases, get_elem?_of_lt, le→leb,
}
use yurine.Errors.{Result, ok, ok-injective, err≢ok}
use yurine.Types.{Symbol, u32_max, is_unknown}
use yurine.Float.{Float, f32_max}
use yurine.Float.Laws.{IsExact}
use yurine.Costs.{Cost, EditCosts, next_up}
use yurine.Costs.Laws.{cost_new_of_lt}
use yurine.Search.Bound.{from_inclusive}
use yurine.Search.Engine.{SearchEngine}
use yurine.Search.Matches.{Match}
use yurine.Search.Encoding.{EncodedQuery, symbol_token}
use yurine.Search.Encoding
use yurine.Search.Encoding.RoundTrip.{
  IsFaithful, Decodes, Decodes-length, new-Decodes, symbol_token-known,
}
use yurine.Search.Builder.{SearchEngineBuilder, build}
use yurine.Search.Builder.Correct.{build-IsBuilt}
use yurine.Search.Builder.Tokens.{KeepsTokens, build-KeepsTokens}
use yurine.Vocabulary.{Vocabulary, token, len}
use yurine.Search.Verification.Alignment.{wed}
use yurine.Search.Verification.Distances.{HasGoodCosts, exact}
use yurine.Search.RangeSearch.{
  RangeSearchParams, RangeSearchMetrics, automatic_eta, encoded_costs, have_tokens, symbol_costs,
  search_with_metrics,
}
use yurine.Search.RangeSearch.Outcome.{IsSearchable, IsOutcome}
use yurine.Search.RangeSearch.Ending.{search_query_string-IsOutcome}
use yurine.Search.RangeSearch.Tokens.{
  Stand, Decodes-Stand, wed-encoded, IsTokenAnswer, IsAnswer-IsTokenAnswer,
}

-- The costs of a policy are good patterns.
pub record HasGoodTokenCosts {ℓ} {fl : Float} (x : IsExact fl) {T : Type ℓ} (costs : EditCosts T)
    : Type ℓ where
  pub substitution_good : (a b : T) → x.IsGood (costs.substitution a b)
  pub deletion_good : (a : T) → x.IsGood (costs.deletion a)
  pub insertion_good : (a : T) → x.IsGood (costs.insertion a)

from_inclusive-of-lt : (t : Cost) → t < f32_max → from_inclusive t ≡ ok (suc t)
unfolding from_inclusive next_up
from_inclusive-of-lt t h = ground arith

known-token {ℓ} :
    {T : Type ℓ} (v : Vocabulary T) (s : Symbol)
    → s < len v
    → len v ≤ u32_max
    → (t : T) × (token v s ≡ some t)
unfolding token len is_unknown
known-token v s h few =
    let (t, at) = get_elem?_of_lt v.tokens s h in
    let known : is_unknown s ≡ false = below s (length v.tokens) h few in (t, rw known at)
  where
    below : (s count : ℕ) → s < count → count ≤ u32_max → is_unknown s ≡ false
    below s count h few = ground (arith, h, few)

module _ {ℓ} {T : Type ℓ} ⦃eq : Eq T⦄ (v : Vocabulary T) (us : List T) where
  Stand-have_tokens :
      (ss : List Symbol) (ts : List T) → Stand v us ss ts → have_tokens v us ss ≡ true
  unfolding have_tokens
  Stand-have_tokens [] [] h = refl
  Stand-have_tokens [] (t ∷ ts) h = absurd h.1
  Stand-have_tokens (s ∷ ss) [] h = absurd h.1
  Stand-have_tokens (s ∷ ss) (t ∷ ts) (here, h) = rw (have_tokens, here) (Stand-have_tokens ss ts h)

  known-have_tokens :
      (ss : List Symbol) → len v ≤ u32_max → All (λ s. s < len v) ss → have_tokens v us ss ≡ true
  unfolding have_tokens
  known-have_tokens [] few all = refl
  known-have_tokens (s ∷ ss) few (low, all) =
      let (t, at) = known-token v s low few in
      rw (have_tokens, symbol_token-known v us s t at) (known-have_tokens ss few all)

module _ {ℓ} {T : Type ℓ} ⦃eq : Eq T⦄ {fl : Float} (x : IsExact fl) (costs : EditCosts T)
    (good : HasGoodTokenCosts x costs) where
  pub encoded_costs-HasGoodCosts :
      (v : Vocabulary T) (us : List T) → HasGoodCosts x (encoded_costs v us costs)
  unfolding encoded_costs
  encoded_costs-HasGoodCosts v us = record {
    substitution_good = λ q s. elim (Option-cases (symbol_token v us q)) [
      | inl e ↦ rw (encoded_costs, e) x.zero-IsGood
      | inr (a, e) ↦ elim (Option-cases (symbol_token v us s)) [
        | inl f ↦ rw (encoded_costs, e, f) x.zero-IsGood
        | inr (b, f) ↦ rw (encoded_costs, e, f) (good.substitution_good a b)
      ]
    ];
    deletion_good = λ q. elim (Option-cases (symbol_token v us q)) [
      | inl e ↦ rw (encoded_costs, e) x.zero-IsGood
      | inr (a, e) ↦ rw (encoded_costs, e) (good.deletion_good a)
    ];
    insertion_good = λ s. elim (Option-cases (symbol_token v us s)) [
      | inl e ↦ rw (encoded_costs, e) x.zero-IsGood
      | inr (a, e) ↦ rw (encoded_costs, e) (good.insertion_good a)
    ];
  }

  -- How a search for a query of tokens ends: the query encodes to symbols that stand for its tokens; the
  -- search for these ends in one of its three ways; deleting the symbols costs what deleting the tokens
  -- does; and matches that are returned are the exact answer in tokens.
  pub record IsSearched (engine : SearchEngine T) (sequences : List (List T)) (query : List T)
      (params : RangeSearchParams) (eta : Cost) (r : Result (List Match × RangeSearchMetrics))
      : Type ℓ where
    pub encoded : EncodedQuery T
    pub encodes : Encoding.new engine.vocabulary query ≡ ok encoded
    pub decodes : Decodes engine.vocabulary encoded.unknown_tokens encoded.string query
    pub outcome :
        IsOutcome x engine encoded.string
          (suc params.threshold)
          (encoded_costs engine.vocabulary encoded.unknown_tokens costs)
          (encoded_costs-HasGoodCosts engine.vocabulary encoded.unknown_tokens)
          params.max_candidates
          eta
          r
    pub deletes :
        wed
          (exact x (encoded_costs engine.vocabulary encoded.unknown_tokens costs))
          encoded.string
          []
        ≡ wed (exact x costs) query []
    pub exactly :
        (matches : List Match) (metrics : RangeSearchMetrics)
        → r ≡ ok (matches, metrics)
        → IsTokenAnswer x costs query params.threshold sequences matches

  module _ (engine : SearchEngine T) (sequences : List (List T))
      (keeps : KeepsTokens sequences engine) where
    symbol_costs-ok :
        (encoded : EncodedQuery T) (query : List T)
        → Stand engine.vocabulary encoded.unknown_tokens encoded.string query
        → symbol_costs fl engine costs encoded
          ≡ ok (encoded_costs engine.vocabulary encoded.unknown_tokens costs)
    unfolding symbol_costs
    symbol_costs-ok encoded query stands =
        let v = engine.vocabulary in
        let us = encoded.unknown_tokens in
        rw
          (
            Stand-have_tokens v us encoded.string query stands,
            known-have_tokens v us engine.neighborhood.alphabet keeps.few keeps.known,
            le→leb engine.store.symbol_count (len v) (omega (arith, keeps.counted)),
          )
          refl

    answered-exactly :
        (query : List T) (params : RangeSearchParams) (eta : Cost) (encoded : EncodedQuery T)
        (r : Result (List Match × RangeSearchMetrics))
        → Stand engine.vocabulary encoded.unknown_tokens encoded.string query
        → IsOutcome x engine encoded.string
            (suc params.threshold)
            (encoded_costs engine.vocabulary encoded.unknown_tokens costs)
            (encoded_costs-HasGoodCosts engine.vocabulary encoded.unknown_tokens)
            params.max_candidates
            eta
            r
        → (matches : List Match) (metrics : RangeSearchMetrics) → r ≡ ok (matches, metrics)
        → IsTokenAnswer x costs query params.threshold sequences matches
    answered-exactly query params eta encoded r stands outcome matches metrics e = elim outcome [
      | inr unavailable ↦ absurd (err≢ok (sym unavailable.returned ∙ e))
      | inl (dear, ended) ↦ elim ended [
        | inr expensive ↦ absurd (err≢ok (sym expensive.returned ∙ e))
        | inl answered ↦
            subst (IsTokenAnswer x costs query params.threshold sequences)
              (ap (λ t. t.0) (ok-injective (sym answered.returned ∙ e)))
              (IsAnswer-IsTokenAnswer x costs query params.threshold sequences engine keeps
                encoded.unknown_tokens encoded.string stands
                (encoded_costs-HasGoodCosts engine.vocabulary encoded.unknown_tokens)
                answered.matches answered.answer)
      ]
    ]

    -- A search with a threshold below the largest finite cost, for a query for which symbols are left.
    pub search_with_metrics-IsSearched :
        (query : List T) (params : RangeSearchParams) (eta : Cost)
        → IsSearchable engine
        → IsFaithful engine.vocabulary
        → len engine.vocabulary + length query ≤ u32_max
        → params.threshold < f32_max
        → x.IsGood (suc params.threshold)
        → x.value (suc params.threshold) ≤ x.limit
        → automatic_eta fl params.threshold (length query) ≡ ok eta
        → IsSearched engine sequences query params eta
            (search_with_metrics fl engine costs query params)
    unfolding search_with_metrics
    search_with_metrics-IsSearched query params eta searchable faithful small lt bound_good
          bound_small e =
        let v = engine.vocabulary in
        let (encoded, encodes, decodes) = new-Decodes v faithful query small in
        let us = encoded.unknown_tokens in
        let same = Decodes-length v us encoded.string query decodes in
        let stands = Decodes-Stand v us encoded.string query decodes in
        let outcome =
          search_query_string-IsOutcome x engine encoded.string (suc params.threshold)
            (encoded_costs v us costs) (encoded_costs-HasGoodCosts v us) params.max_candidates
            searchable (omega (arith, same, small)) bound_good bound_small (omega (arith, lt))
            eta in
        rw
          (
            cost_new_of_lt params.threshold (omega (arith, lt)),
            from_inclusive-of-lt params.threshold lt,
            encodes,
            ap (automatic_eta fl params.threshold) same ∙ e,
            symbol_costs-ok encoded query stands,
          )
          (record {
            encoded = encoded;
            encodes = encodes;
            decodes = decodes;
            outcome = outcome;
            deletes = wed-encoded v us x costs encoded.string [] query [] stands tt;
            exactly = answered-exactly query params eta encoded _ stands outcome;
          })

  -- A search on an engine that was built, for a query of no more tokens than there are symbols left,
  -- with a threshold below the largest finite cost and costs whose sums are exact. The query encodes to
  -- symbols that stand for its tokens, each symbol of the search has its token, and it ends in one of
  -- three ways. Where deleting the whole query costs at least the strict bound, the next cost above the
  -- threshold, it ends with the exact answer: the parts of the builder's sequences within the threshold,
  -- each with its weighted edit distance by the costs of the tokens, each once and in order, and no more
  -- candidates than a limit below the largest usize; or with SearchTooExpensive, when the candidates of
  -- its selection are more than the limit, and with their number, saturated. It ends with
  -- ThresholdSubsequenceUnavailable only where deleting the whole query costs less than that bound or
  -- the postings of the alphabet cannot be counted.
  pub search-IsSearched :
      (builder : SearchEngineBuilder T) (engine : SearchEngine T) (query : List T)
      (params : RangeSearchParams) (eta : Cost)
      → build builder ≡ ok engine
      → len engine.vocabulary + length query ≤ u32_max
      → params.threshold < f32_max
      → x.IsGood (suc params.threshold)
      → x.value (suc params.threshold) ≤ x.limit
      → automatic_eta fl params.threshold (length query) ≡ ok eta
      → IsSearched engine builder.sequences query params eta
          (search_with_metrics fl engine costs query params)
  search-IsSearched builder engine query params eta built small lt bound_good bound_small e =
      let whole = build-IsBuilt builder engine built in
      search_with_metrics-IsSearched engine builder.sequences
        (build-KeepsTokens builder engine built) query params eta whole.searchable whole.faithful
        small lt bound_good bound_small e
