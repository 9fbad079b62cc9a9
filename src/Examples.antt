-- ===== src/Examples.antt =====
-- A small engine, a query for it and a policy of exact costs, at which the theorems are tried, and
-- the README's example with the processor's arithmetic.
pub mod Readme
pub mod Parts
pub mod Searches
pub mod Files
pub mod Reopened
use yurine.Prelude.{
  ℕ, ◌≡◌, refl, List, [], ◌∷◌, none, some, nat_eq, ==_iff, ◌==◌, if◌then◌else◌, arith, ◌≤◌,
}
use yurine.Errors.{Result, ok}
use yurine.Types.{Symbol}
use yurine.Float.{fixed_point, infinity}
use yurine.Float.Laws.{IsExact, fixed_point-IsExact}
use yurine.Costs.{EditCosts, Cost}
use yurine.Storage.{owned}
use yurine.Vocabulary.{Vocabulary}
use yurine.Search.Engine.{SearchEngine}
use yurine.Search.Builder.{SearchEngineBuilder, build}
use yurine.Search.Verification.Distances.{HasGoodCosts}
use yurine.Search.RangeSearch.EndToEnd.{HasGoodTokenCosts}

abbrev pub sequences : List (List ℕ)
sequences = (5 ∷ 7 ∷ 9 ∷ []) ∷ (7 ∷ 7 ∷ []) ∷ []

abbrev pub builder : SearchEngineBuilder ℕ
builder = record { sequences = sequences }

-- The token 7 is the most frequent, so it has the first symbol.
abbrev pub vocabulary : Vocabulary ℕ
vocabulary = record { tokens = 7 ∷ 5 ∷ 9 ∷ []; symbols = (7, 0) ∷ (5, 1) ∷ (9, 2) ∷ [] }

abbrev pub engine : SearchEngine ℕ
engine = record {
  vocabulary = vocabulary;
  index = record {
    postings = owned (
        record { string_id = 0; position = 1 }
        ∷ record { string_id = 1; position = 0 }
        ∷ record { string_id = 1; position = 1 }
        ∷ record { string_id = 0; position = 0 }
        ∷ record { string_id = 0; position = 2 }
        ∷ []);
    posting_offsets = owned (0 ∷ 3 ∷ 4 ∷ 5 ∷ []);
  };
  store = record {
    symbols = owned (1 ∷ 0 ∷ 2 ∷ 0 ∷ 0 ∷ []);
    string_offsets = owned (0 ∷ 3 ∷ 5 ∷ []);
    symbol_count = 3;
  };
  neighborhood = record { alphabet = 0 ∷ 1 ∷ 2 ∷ [] };
}

pub engine-built : build builder ≡ ok engine
unfolding build
engine-built = refl

-- An equal token is kept for nothing; every other edit costs four.
abbrev pub costs : EditCosts ℕ
costs = record {
  substitution = λ from to. if from == to then 0 else 4;
  deletion = λ token. 4;
  insertion = λ token. 4;
}

four-good : (a b : ℕ) → (if a == b then 0 else 4) ≤ infinity
four-good a b = ground arith

pub costs-HasGoodCosts : HasGoodCosts fixed_point-IsExact costs
unfolding fixed_point-IsExact
costs-HasGoodCosts = record {
  substitution_good = four-good;
  deletion_good = λ q. omega arith;
  insertion_good = λ s. omega arith;
}

pub costs-HasGoodTokenCosts : HasGoodTokenCosts fixed_point-IsExact costs
unfolding fixed_point-IsExact
costs-HasGoodTokenCosts = record {
  substitution_good = four-good;
  deletion_good = λ a. omega arith;
  insertion_good = λ a. omega arith;
}

-- The tokens 5 and 9 around 8, which no sequence has, and their symbols.
abbrev pub query : List ℕ
query = 5 ∷ 8 ∷ 9 ∷ []

abbrev pub query_symbols : List Symbol
query_symbols = 1 ∷ 3 ∷ 2 ∷ []

-- Matches of distance up to 4, as a strict bound.
abbrev pub bound : ℕ
bound = 5
