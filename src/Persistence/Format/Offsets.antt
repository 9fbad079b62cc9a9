-- ===== src/Persistence/Format/Offsets.antt =====
-- The check of an offset array: every slice between neighboring offsets lies in the payload.
use yurine.Prelude.{ℕ, zero, suc, ◌≤◌, ◌≡◌, List, [], ◌∷◌, arith, false, some, get_elem?}
use yurine.Errors.{ok}
use yurine.Persistence.Format.Ranges.{last_of, has_descent, validate_offsets}

le-last_of :
    (offset : ℕ) (offsets : List ℕ)
    → has_descent offset offsets ≡ false
    → offset ≤ last_of offset offsets
unfolding has_descent last_of
le-last_of offset [] h = omega arith
le-last_of offset (next ∷ offsets) h = ground (arith, le-last_of next offsets)

neighbors_ordered :
    (offset : ℕ) (offsets : List ℕ) (i a b : ℕ)
    → has_descent offset offsets ≡ false
    → get_elem? (offset ∷ offsets) i ≡ some a
    → get_elem? (offset ∷ offsets) (suc i) ≡ some b
    → (a ≤ b) × (b ≤ last_of offset offsets)
unfolding has_descent last_of
neighbors_ordered offset [] i a b h p q = cc
neighbors_ordered offset (next ∷ offsets) zero a b h p q = ground (arith, le-last_of next offsets)
neighbors_ordered offset (next ∷ offsets) (suc i) a b h p q =
    ground (arith, neighbors_ordered next offsets i a b)

-- When an offset array passes the check against the length of its payload, two neighboring offsets
-- are in order and the second is not behind the payload, so that the slice between them is there.
pub validate_offsets-IsSliceable :
    (offsets : List ℕ) (payload_len i start end : ℕ)
    → validate_offsets offsets payload_len ≡ ok tt
    → get_elem? offsets i ≡ some start
    → get_elem? offsets (suc i) ≡ some end
    → (start ≤ end) × (end ≤ payload_len)
unfolding validate_offsets
validate_offsets-IsSliceable [] payload_len i start end h p q = cc
validate_offsets-IsSliceable (first ∷ offsets) payload_len i start end h p q =
    ground (arith, neighbors_ordered first offsets i start end)
