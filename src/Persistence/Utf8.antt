-- ===== src/Persistence/Utf8.antt =====
-- What the persistence modules use of the standard library: whether bytes are UTF-8.
use yurine.Prelude.{ℕ, zero, suc, List, [], ◌∷◌, Bool, false, ltb, leb, ◌==◌, ◌&&◌, if◌then◌else◌}

-- The continuation bytes that are still expected, and the range of the next one.
pub data State : Type 0 where
  rejected : State
  expecting : ℕ → ℕ → ℕ → State

unfoldable pub first_byte : ℕ → State
first_byte b =
    if ltb b 0x80
    then State.expecting 0 0x80 0xbf
    else if ltb b 0xc2
    then State.rejected
    else if ltb b 0xe0
    then State.expecting 1 0x80 0xbf
    else if b == 0xe0
    then State.expecting 2 0xa0 0xbf
    else if b == 0xed
    then State.expecting 2 0x80 0x9f
    else if ltb b 0xf0
    then State.expecting 2 0x80 0xbf
    else if b == 0xf0
    then State.expecting 3 0x90 0xbf
    else if ltb b 0xf4
    then State.expecting 3 0x80 0xbf
    else if b == 0xf4
    then State.expecting 3 0x80 0x8f
    else State.rejected

unfoldable pub next_state : State → ℕ → State
unfolding first_byte
next_state State.rejected b = State.rejected
next_state (State.expecting zero low high) b = first_byte b
next_state (State.expecting (suc more) low high) b =
    if leb low b && leb b high then State.expecting more 0x80 0xbf else State.rejected

unfoldable pub accepts : State → List ℕ → Bool
unfolding next_state
accepts State.rejected [] = false
accepts (State.expecting more low high) [] = more == 0
accepts state (b ∷ bytes) = accepts (next_state state b) bytes

-- `std::str::from_utf8` succeeds.
unfoldable pub is_utf8 : List ℕ → Bool
unfolding accepts
is_utf8 bytes = accepts (State.expecting 0 0x80 0xbf) bytes
