-- ===== src/Types.antt =====
-- src/types.rs: identifiers of 32 bits. A sequence identifier, a position and a symbol are the
-- numbers that they wrap; `from_usize` is the checked way in.
use yurine.Prelude.{ℕ, ◌≡◌, ◌<◌, Bool, ltb, ◌==◌, if◌then◌else◌, arith}
use yurine.Errors.{Result, ok, err}
use yurine.Errors

abbrev pub u32_max : ℕ
u32_max = 0xffff_ffff

-- 2^64, the first number that a `usize` does not hold.
abbrev pub usize_limit : ℕ
usize_limit = 0x1_0000_0000_0000_0000

abbrev pub SequenceId : Type 0
SequenceId = ℕ

abbrev pub Position : Type 0
Position = ℕ

abbrev pub Symbol : Type 0
Symbol = ℕ

pub record Posting : Type 0 where
  pub string_id : SequenceId
  pub position : Position

-- `Symbol::UNKNOWN`
abbrev pub unknown : Symbol
unknown = u32_max

unfoldable pub sequence_id_from_usize : ℕ → Result SequenceId
sequence_id_from_usize value =
    if ltb u32_max value then err Errors.Error.sequence_id_overflow else ok value

unfoldable pub position_from_usize : ℕ → Result Position
position_from_usize value =
    if ltb u32_max value then err Errors.Error.position_overflow else ok value

unfoldable pub is_unknown : Symbol → Bool
is_unknown symbol = symbol == unknown

unfoldable pub symbol_from_usize : ℕ → Result Symbol
symbol_from_usize value =
    if ltb u32_max value
    then err Errors.Error.symbol_overflow
    else if value == unknown
    then err Errors.Error.symbol_overflow
    else ok value

pub symbol_from_usize-of-lt : (n : ℕ) → n < u32_max → symbol_from_usize n ≡ ok n
unfolding symbol_from_usize
symbol_from_usize-of-lt n h = ground arith

pub position_from_usize-of-lt : (n : ℕ) → n < u32_max → position_from_usize n ≡ ok n
unfolding position_from_usize
position_from_usize-of-lt n h = ground arith
