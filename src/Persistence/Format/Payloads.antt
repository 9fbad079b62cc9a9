-- ===== src/Persistence/Format/Payloads.antt =====
-- The lengths of what a section writes: the descriptor and the bytes agree.
use yurine.Prelude.{
  ℕ, zero, suc, ◌+◌, ◌-◌, ◌*◌, ◌%◌, ◌≤◌, ◌<◌, ◌≡◌, refl, sym, ap, ◌∙◌, List, [], ◌∷◌, ◌++◌, length,
  drop, arith, length-append, replicate, min, ◌==◌, false, length-take, length-drop,
}
use yurine.Errors.{Error, ok, ◌>>=◌, ok_or, slice, >>=-eq-ok, ok-injective}
use yurine.Types.{Posting, usize_limit}
use yurine.Persistence.Bytes.{le_bytes, length-le_bytes, checked_mul, u64_limit}
use yurine.Persistence.Format.{SectionData}
use yurine.Persistence.Format.Write.{
  write_numbers, write_postings, write_rows, write_to, data_byte_len, data_element_count,
  padding_chunks, write_padding,
}

pub length-write_numbers :
    (width : ℕ) (values : List ℕ) → length (write_numbers width values) ≡ length values * width
unfolding write_numbers
length-write_numbers width [] = omega arith
length-write_numbers width (value ∷ values) =
    rw (length-append, length-le_bytes, length-write_numbers width values) (omega arith)

length-write_postings : (values : List Posting) → length (write_postings values) ≡ 8 * length values
unfolding write_postings
length-write_postings [] = omega arith
length-write_postings (value ∷ values) = omega (
  arith,
  length-append (le_bytes 4 value.string_id) (le_bytes 4 value.position ++ write_postings values),
  length-append (le_bytes 4 value.position) (write_postings values),
  length-le_bytes 4 value.string_id,
  length-le_bytes 4 value.position,
  length-write_postings values,
)

length-slice :
    {A : Type 0} (xs ys : List A) (start len : ℕ)
    → start < usize_limit
    → len < usize_limit
    → slice xs start ((start + len) % usize_limit) ≡ ok ys
    → length ys ≡ len
unfolding slice
length-slice xs ys start len h k e =
    ground (
      arith,
      length-take ((start + len) % usize_limit - start) (drop start xs),
      length-drop start xs,
    )

length-write_rows :
    (values row_indices : List ℕ) (row_len : ℕ) (out : List ℕ)
    → row_len < usize_limit
    → write_rows values row_indices row_len ≡ ok out
    → length out ≡ length row_indices * row_len * 4
unfolding write_rows
length-write_rows values [] row_len out h e = let none : [] ≡ out = cc in rw (← none) (omega arith)
length-write_rows values (index ∷ row_indices) row_len out h e =
    let start = index * row_len % usize_limit in
    let (row, sliced, more) =
      >>=-eq-ok (slice values start ((start + row_len) % usize_limit)) _ e in
    let (rest, wrote, done) = >>=-eq-ok (write_rows values row_indices row_len) _ more in
    rw (← ok-injective done) (
      omega (
        arith,
        length-append (write_numbers 4 row) rest,
        length-write_numbers 4 row,
        length-slice values row start row_len (omega arith) h sliced,
        length-write_rows values row_indices row_len rest h wrote,
      ))

rows_byte_len :
    (count row_len len : ℕ)
    → (ok_or (checked_mul count row_len) (Error.invalid_file "section element count overflows")
        >>= λ n. ok_or (checked_mul n 4) (Error.invalid_file "section byte length overflows"))
      ≡ ok len
    → (len ≡ count * row_len * 4) × (count * row_len < u64_limit)
unfolding checked_mul
rows_byte_len count row_len len e = ground arith

-- A section's payload is as long as its descriptor says.
pub length-write_to :
    (contents : SectionData) (len : ℕ) (payload : List ℕ)
    → data_byte_len contents ≡ ok len
    → write_to contents ≡ ok payload
    → length payload ≡ len
unfolding data_byte_len data_element_count write_to
length-write_to (SectionData.bytes bytes count) len payload e w =
    ap length (ok-injective (sym w)) ∙ ok-injective e
length-write_to (SectionData.f32_rows values [] row_len) len payload e w =
    omega (arith, rows_byte_len 0 row_len len e, ap length (ok-injective w))
length-write_to (SectionData.f32_rows values (index ∷ row_indices) row_len) len payload e w =
    let (same, fits) = rows_byte_len (suc (length row_indices)) row_len len e in
    omega
      (arith, same, length-write_rows values (index ∷ row_indices) row_len payload (omega arith) w)
length-write_to (SectionData.u64s values) len payload e w =
    omega (arith, length-write_numbers 8 values, ap length (ok-injective w), ok-injective e)
length-write_to (SectionData.symbols values) len payload e w =
    omega (arith, length-write_numbers 4 values, ap length (ok-injective w), ok-injective e)
length-write_to (SectionData.posting_list values) len payload e w =
    omega (arith, length-write_postings values, ap length (ok-injective w), ok-injective e)

length-replicate : (n byte : ℕ) → length (replicate n byte) ≡ n
length-replicate zero byte = refl
length-replicate (suc n) byte = ap suc (length-replicate n byte)

padding_chunks_step :
    (fuel remaining : ℕ) (zeros : List ℕ)
    → padding_chunks fuel (suc remaining - min (suc remaining) 64) ≡ ok zeros
    → padding_chunks (suc fuel) (suc remaining) ≡ ok (replicate (min (suc remaining) 64) 0 ++ zeros)
unfolding padding_chunks
padding_chunks_step fuel remaining zeros e =
    let more : (suc remaining == 0) ≡ false = ground arith in rw (more, e) refl

-- Enough rounds write all of the padding.
padding_chunks_lem :
    (fuel remaining : ℕ)
    → remaining ≤ fuel
    → (zeros : List ℕ) × (padding_chunks fuel remaining ≡ ok zeros) × (length zeros ≡ remaining)
unfolding padding_chunks
padding_chunks_lem zero zero h = ([], refl, refl)
padding_chunks_lem zero (suc remaining) h = absurd (omega arith)
padding_chunks_lem (suc fuel) zero h = ([], refl, refl)
padding_chunks_lem (suc fuel) (suc remaining) h =
    let chunk = min (suc remaining) 64 in
    let (zeros, e, len) = padding_chunks_lem fuel (suc remaining - chunk) (omega arith) in
    (
      replicate chunk 0 ++ zeros,
      padding_chunks_step fuel remaining zeros e,
      omega (arith, length-append (replicate chunk 0) zeros, length-replicate chunk 0, len),
    )

pub write_padding_lem :
    (len : ℕ) → (zeros : List ℕ) × (write_padding len ≡ ok zeros) × (length zeros ≡ len)
unfolding write_padding
write_padding_lem len = padding_chunks_lem len len (omega arith)
