-- ===== src/Examples/Readme.antt =====
-- README.md: the example, with the processor's arithmetic.
use yurine.Prelude.{ℕ, ◌≡◌, refl, List, [], ◌∷◌, none, nat_eq}
use yurine.Errors.{Result, ok, ◌>>=◌}
use yurine.Float.{ieee}
use yurine.Costs.Custom.{default, set_substitution, edit_costs}
use yurine.Search.Matches.{Match}
use yurine.Search.RangeSearch.{search}
use yurine.Search.Builder

-- "Jinbocho is a book town known for curry"; the query is "book district known for curry".
abbrev corpus : List ℕ
corpus = 1 ∷ 2 ∷ 3 ∷ 4 ∷ 5 ∷ 6 ∷ 7 ∷ 8 ∷ []

abbrev query : List ℕ
query = 4 ∷ 9 ∷ 6 ∷ 7 ∷ 8 ∷ []

abbrev quarter : ℕ
quarter = 0x3e80_0000

run : Result (List Match)
unfolding default set_substitution edit_costs search Builder.build
run = do
  engine ← Builder.build (record { sequences = corpus ∷ [] })
  search ieee engine (edit_costs (set_substitution default 9 5 quarter)) query
      (record { threshold = quarter; max_candidates = none })

run_result :
    run ≡ ok (record { sequence_id = 0; range_start = 3; range_end = 8; distance = quarter } ∷ [])
unfolding run ieee
run_result = refl
