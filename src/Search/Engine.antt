-- ===== src/Search/Engine.antt =====
-- src/search.rs: candidates, matches, and the engine with its parts.
use yurine.Errors.{Result, ok, ◌>>=◌, ◌>>◌}
use yurine.Vocabulary.{Vocabulary}
use yurine.Postings.{PostingsIndex, alphabet}
use yurine.Postings
use yurine.Store.{CorpusStore}
use yurine.Store
use yurine.Search.Filtering.Neighborhood.{SubstitutionNeighborhood}
use yurine.Search.Filtering.Neighborhood

pub record SearchEngine {ℓ} (T : Type ℓ) : Type ℓ where
  pub vocabulary : Vocabulary T
  pub index : PostingsIndex
  pub store : CorpusStore
  pub neighborhood : SubstitutionNeighborhood

module _ {ℓ} {T : Type ℓ} where
  unfoldable pub from_unverified_parts :
      Vocabulary T → PostingsIndex → CorpusStore → Result (SearchEngine T)
  unfolding alphabet Neighborhood.new
  from_unverified_parts vocabulary index store = do
    symbols ← alphabet index
    neighborhood ← Neighborhood.new symbols
    ok (record {
      vocabulary = vocabulary;
      index = index;
      store = store;
      neighborhood = neighborhood;
    })

  unfoldable pub from_parts : Vocabulary T → PostingsIndex → CorpusStore → Result (SearchEngine T)
  unfolding from_unverified_parts Store.verify
  from_parts vocabulary index store =
      Store.verify store >> from_unverified_parts vocabulary index store

  unfoldable pub verify : SearchEngine T → Result (Unit {0})
  unfolding Store.verify Postings.verify
  verify engine = Store.verify engine.store >> Postings.verify engine.index engine.store
