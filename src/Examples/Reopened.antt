-- ===== src/Examples/Reopened.antt =====
-- The theorems on engines that are built, saved and opened again, at the small engine.
use yurine.Prelude.{ℕ, ◌≡◌, List, nat_eq, arith}
use yurine.Errors.{ok}
use yurine.Float.{fixed_point}
use yurine.Float.Laws.{fixed_point-IsExact}
use yurine.Search.Engine.{verify}
use yurine.Search.RangeSearch.{search_with_metrics}
use yurine.Search.RangeSearch.EndToEnd.{IsSearched}
use yurine.Persistence.Codec.{char_codec}
use yurine.Search.Persistence.{save_with, open_with}
use yurine.Search.Persistence.Savable.{mapped_engine}
use yurine.Search.Builder.Verified.{build-verify, open_with-build}
use yurine.Search.Builder.Reopened.{open_with-IsSearched}
use yurine.Examples.{engine, builder, engine-built, query, costs, costs-HasGoodTokenCosts}
use yurine.Examples.Searches.{params, eta_is, one_is_good, bound_fits, query-room}
use yurine.Examples.Files.{
  token_offsets, token_blob, char_codec-IsCodec, tokens-encoded, engine-room,
}

build-verify_example : verify engine ≡ ok tt
build-verify_example = build-verify builder engine engine-built

open_with-build_example :
    (file : List ℕ) × (save_with char_codec engine ≡ ok file)
    × (open_with char_codec file ≡ ok (mapped_engine engine))
open_with-build_example =
    open_with-build builder engine char_codec token_offsets token_blob engine-built
      char_codec-IsCodec tokens-encoded engine-room

saved_engine :
    (file : List ℕ) × (save_with char_codec engine ≡ ok file)
    × (open_with char_codec file ≡ ok (mapped_engine engine))
saved_engine =
    open_with-build builder engine char_codec token_offsets token_blob engine-built
      char_codec-IsCodec tokens-encoded engine-room

open_with-IsSearched_example :
    IsSearched fixed_point-IsExact costs costs-HasGoodTokenCosts
      (mapped_engine engine)
      builder.sequences
      query
      params
      1
      (search_with_metrics fixed_point (mapped_engine engine) costs query params)
open_with-IsSearched_example =
    open_with-IsSearched fixed_point-IsExact builder engine (mapped_engine engine) char_codec
      token_offsets token_blob saved_engine.0 costs costs-HasGoodTokenCosts query params 1
      engine-built char_codec-IsCodec tokens-encoded engine-room saved_engine.1 saved_engine.2
      query-room (omega arith) one_is_good bound_fits eta_is
