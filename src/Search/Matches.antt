-- ===== src/Search/Matches.antt =====
-- src/search.rs: candidate anchors, and the segments that a search returns.
use yurine.Prelude.{ℕ}
use yurine.Types.{SequenceId, Position}

pub record Candidate : Type 0 where
  pub string_id : SequenceId
  pub string_position : Position
  pub query_position : Position

-- The token range is `range_start..range_end`; the distance is a pattern.
pub record Match : Type 0 where
  pub sequence_id : ℕ
  pub range_start : ℕ
  pub range_end : ℕ
  pub distance : ℕ
