-- ===== src/Persistence/Format/Elements.antt =====
-- The typed views of a stored section show the values that were written.
use yurine.Prelude.{
  ℕ, ◌+◌, ◌-◌, ◌*◌, ◌%◌, ◌==◌, ◌<◌, ◌≤◌, ◌≡◌, refl, sym, ap, ◌∙◌, List, [], ◌∷◌, ◌++◌, arith, true,
  subst, some, All, length, take, drop, ltb, leb, All,
}
use yurine.Errors.{ok, ok-injective}
use yurine.Types.{Posting, Symbol, usize_limit}
use yurine.Map.{get}
use yurine.Persistence.Bytes.{
  checked_add, checked_mul, to_usize, get_range, le_bytes, u64_limit, le_field-le_bytes,
  drop-le_bytes,
}
use yurine.Persistence.Format.{
  SectionKind, SectionDescriptor, SectionData, PersistedFile, section_kind_eq,
}
use yurine.Persistence.Format.Write.{
  write_numbers, write_postings, write_to, data_byte_len, data_element_count, section_alignment,
}
use yurine.Persistence.Format.Parse.{
  DiskElement, u64_element, symbol_element, posting_element, read_elements, new, section,
  mapped_slice,
}
use yurine.Persistence.Format.Fields.{IsU32, IsU64}
use yurine.Persistence.Format.Layout.{IsPlaced}

abbrev pub PostingFits : Posting → Type 0
PostingFits p = IsU32 p.string_id × IsU32 p.position

read_elements-u64 :
    (values : List ℕ)
    → All IsU64 values
    → read_elements u64_element (length values) (write_numbers 8 values) ≡ values
unfolding read_elements write_numbers
read_elements-u64 [] fits = refl
read_elements-u64 (value ∷ values) (fit, fits) =
    let rest = write_numbers 8 values in
    rw (le_field-le_bytes 8 value rest (omega arith), drop-le_bytes 8 value rest)
      (ap (λ r. value ∷ r) (read_elements-u64 values fits))

read_elements-symbol :
    (values : List Symbol)
    → All IsU32 values
    → read_elements symbol_element (length values) (write_numbers 4 values) ≡ values
unfolding read_elements write_numbers
read_elements-symbol [] fits = refl
read_elements-symbol (value ∷ values) (fit, fits) =
    let rest = write_numbers 4 values in
    rw (le_field-le_bytes 4 value rest (omega arith), drop-le_bytes 4 value rest)
      (ap (λ r. value ∷ r) (read_elements-symbol values fits))

drop-eight : (a b : ℕ) (rest : List ℕ) → drop 8 (le_bytes 4 a ++ (le_bytes 4 b ++ rest)) ≡ rest
unfolding le_bytes
drop-eight a b rest = refl

read_elements-posting :
    (values : List Posting)
    → All PostingFits values
    → read_elements posting_element (length values) (write_postings values) ≡ values
unfolding read_elements write_postings
read_elements-posting [] fits = refl
read_elements-posting (value ∷ values) ((fit_id, fit_position), fits) =
    let rest = write_postings values in
    let after_id = le_bytes 4 value.position ++ rest in
    rw
      (
        le_field-le_bytes 4 value.string_id after_id (omega arith),
        drop-le_bytes 4 value.string_id after_id,
        le_field-le_bytes 4 value.position rest (omega arith),
        drop-eight value.string_id value.position rest,
      )
      (ap (λ r. value ∷ r) (read_elements-posting values fits))

-- A view of a range of the right length and alignment reads the range.
new-eq :
    {A : Type 0} (element : DiskElement A) (file : List ℕ) (offset byte_len count : ℕ)
    → byte_len ≡ count * element.size
    → offset + byte_len ≤ length file
    → length file < u64_limit
    → offset % element.alignment ≡ 0
    → new element file offset byte_len count
      ≡ ok (read_elements element count (take byte_len (drop offset file)))
unfolding new checked_add checked_mul to_usize get_range
new-eq element file offset byte_len count len inside fits aligned =
    let product : ltb (count * element.size) u64_limit ≡ true = ground arith in
    let same : (byte_len == count * element.size) ≡ true = ground arith in
    let start_fits : ltb offset usize_limit ≡ true = ground arith in
    let len_fits : ltb byte_len usize_limit ≡ true = ground arith in
    let end_fits : ltb (offset + byte_len) u64_limit ≡ true = ground arith in
    let ordered : leb offset (offset + byte_len) ≡ true = ground arith in
    let whole : leb (offset + byte_len) (length file) ≡ true = ground arith in
    let size : offset + byte_len - offset ≡ byte_len = omega arith in
    let even : (offset % element.alignment == 0) ≡ true = ground arith in
    rw (product, same, start_fits, len_fits, end_fits, ordered, whole, size, even) refl

module _ (result : PersistedFile) (fits : length result.mmap < u64_limit) (kind : SectionKind)
    (d : SectionDescriptor) (found : get result.sections kind ≡ some d) where
  view :
      {A : Type 0} (element : DiskElement A) (contents : SectionData) (count : ℕ) (payload : List ℕ)
      (values : List A)
      → IsPlaced result.mmap kind contents d
      → data_element_count contents ≡ ok count
      → data_byte_len contents ≡ ok (count * element.size)
      → write_to contents ≡ ok payload
      → section_alignment kind ≡ element.alignment
      → read_elements element count payload ≡ values
      → mapped_slice element result kind ≡ ok values
  unfolding mapped_slice section
  view element contents count payload values placed counted measured wrote alignment reads =
      let same_count : d.element_count ≡ count = ok-injective (sym placed.counted ∙ counted) in
      let same_len : d.byte_len ≡ count * element.size =
        ok-injective (sym placed.measured ∙ measured) in
      let same_payload : placed.payload ≡ payload = ok-injective (sym placed.written ∙ wrote) in
      let range =
        new-eq element result.mmap d.offset d.byte_len d.element_count
          (same_len ∙ ap (λ n. n * element.size) (sym same_count)) placed.inside fits
          (subst (λ a. d.offset % a ≡ 0) alignment placed.aligned) in
      rw (found, range, placed.found, same_count, same_payload, reads) refl

  pub mapped_slice-u64s :
      (values : List ℕ)
      → IsPlaced result.mmap kind (SectionData.u64s values) d
      → section_alignment kind ≡ 8
      → All IsU64 values
      → mapped_slice u64_element result kind ≡ ok values
  unfolding data_element_count data_byte_len write_to
  mapped_slice-u64s values placed alignment values_fit =
      view u64_element (SectionData.u64s values) (length values) (write_numbers 8 values) values
        placed refl (ap ok (omega arith)) refl alignment (read_elements-u64 values values_fit)

  pub mapped_slice-symbols :
      (values : List Symbol)
      → IsPlaced result.mmap kind (SectionData.symbols values) d
      → section_alignment kind ≡ 4
      → All IsU32 values
      → mapped_slice symbol_element result kind ≡ ok values
  unfolding data_element_count data_byte_len write_to
  mapped_slice-symbols values placed alignment values_fit =
      view symbol_element (SectionData.symbols values) (length values) (write_numbers 4 values)
        values placed refl (ap ok (omega arith)) refl alignment
        (read_elements-symbol values values_fit)

  pub mapped_slice-postings :
      (values : List Posting)
      → IsPlaced result.mmap kind (SectionData.posting_list values) d
      → section_alignment kind ≡ 4
      → All PostingFits values
      → mapped_slice posting_element result kind ≡ ok values
  unfolding data_element_count data_byte_len write_to
  mapped_slice-postings values placed alignment values_fit =
      view posting_element (SectionData.posting_list values) (length values) (write_postings values)
        values placed refl (ap ok (omega arith)) refl alignment
        (read_elements-posting values values_fit)
