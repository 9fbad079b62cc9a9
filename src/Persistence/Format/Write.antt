-- ===== src/Persistence/Format/Write.antt =====
-- src/persistence/format.rs: the bytes that `write_file` writes.
use yurine.Prelude.{
  ℕ, zero, suc, ◌+◌, ◌-◌, ◌*◌, ◌%◌, ◌==◌, List, [], ◌∷◌, ◌++◌, none, some, ltb, if◌then◌else◌,
  length, replicate, min,
}
use yurine.Errors.{Error, Result, panic, ok, err, ◌>>=◌, ok_or, slice}
use yurine.Types.{Posting, usize_limit}
use yurine.Persistence.Bytes.{le_bytes, checked_add, checked_mul, u64_limit, u32_limit}
use yurine.Persistence.Format.{
  FileKind, SectionKind, DiskHeader, DiskSectionEntry, SectionDescriptor, SectionData, magic_bytes,
  supported_version, max_codec_id_len, little_endian_marker, header_size, section_entry_len,
  file_kind_raw, section_kind_raw, element_layout,
}

-- `header.as_bytes()`: the fields in their order, without padding.
unfoldable pub header_as_bytes : DiskHeader → List ℕ
unfolding le_bytes
header_as_bytes h =
    h.magic
    ++ (le_bytes 4 h.format_version
        ++ (le_bytes 4 h.endian_marker
            ++ (le_bytes 4 h.file_kind
                ++ (le_bytes 4 h.header_len
                    ++ (le_bytes 4 h.codec_version
                        ++ (le_bytes 4 h.section_count
                            ++ (le_bytes 8 h.codec_offset
                                ++ (le_bytes 8 h.codec_len
                                    ++ (le_bytes 8 h.section_table_offset
                                        ++ le_bytes 8 h.file_len)))))))))

-- `entry.as_bytes()`
unfoldable pub entry_as_bytes : DiskSectionEntry → List ℕ
unfolding le_bytes
entry_as_bytes e =
    le_bytes 4 e.kind
    ++ (le_bytes 4 e.flags
        ++ (le_bytes 8 e.offset ++ (le_bytes 8 e.byte_len ++ le_bytes 8 e.element_count)))

unfoldable pub data_element_count : SectionData → Result ℕ
unfolding checked_mul
data_element_count (SectionData.bytes bytes element_count) = ok element_count
data_element_count (SectionData.f32_rows values row_indices row_len) =
    ok_or (checked_mul (length row_indices) row_len)
      (Error.invalid_file "section element count overflows")
data_element_count (SectionData.u64s values) = ok (length values)
data_element_count (SectionData.symbols values) = ok (length values)
data_element_count (SectionData.posting_list values) = ok (length values)

unfoldable pub data_byte_len : SectionData → Result ℕ
unfolding checked_mul data_element_count
data_byte_len (SectionData.bytes bytes element_count) = ok (length bytes)
data_byte_len (SectionData.f32_rows values row_indices row_len) = do
  count ← data_element_count (SectionData.f32_rows values row_indices row_len)
  ok_or (checked_mul count 4) (Error.invalid_file "section byte length overflows")
data_byte_len (SectionData.u64s values) = ok (8 * length values)
data_byte_len (SectionData.symbols values) = ok (4 * length values)
data_byte_len (SectionData.posting_list values) = ok (8 * length values)

unfoldable pub write_numbers : ℕ → List ℕ → List ℕ
unfolding le_bytes
write_numbers width [] = []
write_numbers width (value ∷ values) = le_bytes width value ++ write_numbers width values

unfoldable pub write_postings : List Posting → List ℕ
unfolding le_bytes
write_postings [] = []
write_postings (value ∷ values) =
    le_bytes 4 value.string_id ++ (le_bytes 4 value.position ++ write_postings values)

-- The selected rows, one after the other.
unfoldable pub write_rows : List ℕ → List ℕ → ℕ → Result (List ℕ)
unfolding write_numbers slice
write_rows values [] row_len = ok []
write_rows values (index ∷ row_indices) row_len = do
  let start = index * row_len % usize_limit
  row ← slice values start ((start + row_len) % usize_limit)
  rest ← write_rows values row_indices row_len
  ok (write_numbers 4 row ++ rest)

unfoldable pub write_to : SectionData → Result (List ℕ)
unfolding write_numbers write_postings write_rows
write_to (SectionData.bytes bytes element_count) = ok bytes
write_to (SectionData.f32_rows values row_indices row_len) = write_rows values row_indices row_len
write_to (SectionData.u64s values) = ok (write_numbers 8 values)
write_to (SectionData.symbols values) = ok (write_numbers 4 values)
write_to (SectionData.posting_list values) = ok (write_postings values)

unfoldable pub align_up : ℕ → ℕ → Result ℕ
unfolding checked_add
align_up value alignment =
    let remainder = value % alignment in
    ok_or (checked_add value ((alignment - remainder) % alignment))
      (Error.invalid_file "file alignment overflows")

-- A chunk of at most 64 zeros in each round.
unfoldable pub padding_chunks : ℕ → ℕ → Result (List ℕ)
padding_chunks zero remaining = if remaining == 0 then ok [] else panic
padding_chunks (suc fuel) remaining =
    let chunk_len = min remaining 64 in
    let rest = padding_chunks fuel (remaining - chunk_len) in
    if remaining == 0 then ok [] else (rest >>= λ zeros. ok (replicate chunk_len 0 ++ zeros))

unfoldable pub write_padding : ℕ → Result (List ℕ)
unfolding padding_chunks
write_padding len = padding_chunks len len

unfoldable pub validate_codec_id_len : List ℕ → Result (Unit {0})
validate_codec_id_len codec_id =
    if ltb max_codec_id_len (length codec_id)
    then err (Error.codec_id_too_long (length codec_id) max_codec_id_len)
    else ok tt

unfoldable pub section_alignment : SectionKind → ℕ
unfolding element_layout
section_alignment kind = elim (element_layout kind) [
  | none ↦ 1
  | some (size, alignment) ↦ alignment
]

-- The descriptors of the sections from a cursor on, and the cursor behind them.
unfoldable pub lay_out : ℕ → List (SectionKind × SectionData) → Result (List SectionDescriptor × ℕ)
unfolding section_alignment align_up data_byte_len data_element_count checked_add
lay_out cursor [] = ok ([], cursor)
lay_out cursor ((kind, contents) ∷ sections) = do
  start ← align_up cursor (section_alignment kind)
  byte_len ← data_byte_len contents
  element_count ← data_element_count contents
  next ← ok_or (checked_add start byte_len) (Error.invalid_file "file length overflows")
  (descriptors, end) ← lay_out next sections
  ok (
    record { kind = kind; offset = start; byte_len = byte_len; element_count = element_count }
        ∷ descriptors,
    end,
  )

abbrev pub disk_entry : SectionDescriptor → DiskSectionEntry
disk_entry descriptor = record {
  kind = section_kind_raw descriptor.kind;
  flags = 0;
  offset = descriptor.offset;
  byte_len = descriptor.byte_len;
  element_count = descriptor.element_count;
}

unfoldable pub write_entries : List SectionDescriptor → List ℕ
unfolding entry_as_bytes
write_entries [] = []
write_entries (descriptor ∷ descriptors) =
    entry_as_bytes (disk_entry descriptor) ++ write_entries descriptors

-- The payloads, each behind its padding.
unfoldable pub write_payloads :
    ℕ → List (SectionKind × SectionData) → List SectionDescriptor → Result (List ℕ)
unfolding write_padding write_to
write_payloads written [] descriptors = ok []
write_payloads written (section ∷ sections) [] = ok []
write_payloads written ((kind, contents) ∷ sections) (descriptor ∷ descriptors) = do
  padding ← write_padding (descriptor.offset - written)
  payload ← write_to contents
  rest ← write_payloads (descriptor.offset + descriptor.byte_len) sections descriptors
  ok (padding ++ (payload ++ rest))

abbrev pub header_of : FileKind → List ℕ → ℕ → ℕ → ℕ → ℕ → DiskHeader
header_of kind codec_id codec_version section_count section_table_offset cursor = record {
  magic = magic_bytes;
  format_version = supported_version;
  endian_marker = little_endian_marker;
  file_kind = file_kind_raw kind;
  header_len = header_size;
  codec_version = codec_version;
  section_count = section_count % u32_limit;
  codec_offset = header_size;
  codec_len = length codec_id;
  section_table_offset = section_table_offset;
  file_len = cursor;
}

unfoldable pub write_file :
    FileKind → List ℕ → ℕ → List (SectionKind × SectionData) → Result (List ℕ)
unfolding validate_codec_id_len align_up checked_mul lay_out header_as_bytes write_padding
    write_entries write_payloads
write_file kind codec_id codec_version sections = do
  checked ← validate_codec_id_len codec_id
  section_table_offset ← align_up (header_size + length codec_id) 8
  table_len ←
      ok_or (checked_mul (length sections) section_entry_len)
        (Error.invalid_file "section table length overflows")
  let table_end = (section_table_offset + table_len) % u64_limit
  (descriptors, cursor) ← lay_out table_end sections
  let header = header_of kind codec_id codec_version (length sections) section_table_offset cursor
  padding ← write_padding (section_table_offset - header_size - length codec_id)
  payloads ← write_payloads table_end sections descriptors
  ok (header_as_bytes header ++ (codec_id ++ (padding ++ (write_entries descriptors ++ payloads))))
