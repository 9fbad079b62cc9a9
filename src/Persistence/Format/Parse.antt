-- ===== src/Persistence/Format/Parse.antt =====
-- src/persistence/format.rs, src/persistence/storage.rs: `PersistedFile`, from the bytes of a file to
-- its sections. A mapping starts at a page, so that an offset in it has the alignment of its address.
use Prim.Native.String.{String}
use yurine.Prelude.{
  ℕ, zero, suc, ◌%◌, ◌==◌, List, [], ◌∷◌, Option, none, some, ltb, if◌then◌else◌, not, length, Bool,
  true, false, ◌||◌, drop, take,
}
use yurine.Errors.{Error, Result, ok, err, ◌>>=◌, ok_or}
use yurine.Types.{Symbol, Posting}
use yurine.Map.{get, put}
use yurine.Persistence.Bytes.{checked_add, checked_mul, to_usize, get_range, le_field, bytes_eq}
use yurine.Persistence.Format.{
  FileKind, SectionKind, DiskHeader, DiskSectionEntry, SectionDescriptor, PersistedFile,
  magic_bytes, supported_version, little_endian_marker, header_size, section_entry_len,
  file_kind_from_raw, section_kind_from_raw, same_file_kind, section_kind_eq,
}
use yurine.Persistence.Format.Ranges.{checked_range, validate_section, validate_offsets}

-- The fields of a header, one after the other: `DiskHeader::ref_from_prefix`.
unfoldable pub header_fields : List ℕ → DiskHeader
unfolding le_field
header_fields bytes =
    let at_version = drop 8 bytes in
    let at_marker = drop 4 at_version in
    let at_kind = drop 4 at_marker in
    let at_header_len = drop 4 at_kind in
    let at_codec_version = drop 4 at_header_len in
    let at_section_count = drop 4 at_codec_version in
    let at_codec_offset = drop 4 at_section_count in
    let at_codec_len = drop 8 at_codec_offset in
    let at_table_offset = drop 8 at_codec_len in
    let at_file_len = drop 8 at_table_offset in
    record {
      magic = take 8 bytes;
      format_version = le_field 4 at_version;
      endian_marker = le_field 4 at_marker;
      file_kind = le_field 4 at_kind;
      header_len = le_field 4 at_header_len;
      codec_version = le_field 4 at_codec_version;
      section_count = le_field 4 at_section_count;
      codec_offset = le_field 8 at_codec_offset;
      codec_len = le_field 8 at_codec_len;
      section_table_offset = le_field 8 at_table_offset;
      file_len = le_field 8 at_file_len;
    }

unfoldable pub header_from_prefix : List ℕ → Option DiskHeader
unfolding header_fields
header_from_prefix bytes =
    if ltb (length bytes) header_size then none else some (header_fields bytes)

unfoldable pub entry_fields : List ℕ → DiskSectionEntry
unfolding le_field
entry_fields bytes =
    let at_flags = drop 4 bytes in
    let at_offset = drop 4 at_flags in
    let at_byte_len = drop 8 at_offset in
    let at_element_count = drop 8 at_byte_len in
    record {
      kind = le_field 4 bytes;
      flags = le_field 4 at_flags;
      offset = le_field 8 at_offset;
      byte_len = le_field 8 at_byte_len;
      element_count = le_field 8 at_element_count;
    }

-- `<[DiskSectionEntry]>::ref_from_bytes`, of a table with so many entries.
unfoldable pub entries_from : ℕ → List ℕ → List DiskSectionEntry
unfolding entry_fields
entries_from zero table = []
entries_from (suc count) table =
    entry_fields table ∷ entries_from count (drop section_entry_len table)

unfoldable pub validate_header : DiskHeader → FileKind → Result FileKind
unfolding file_kind_from_raw
validate_header header expected_kind =
    if not (bytes_eq header.magic magic_bytes)
    then err (Error.invalid_file "magic does not match")
    else if not (header.format_version == supported_version)
    then err (Error.unsupported_format_version header.format_version)
    else if not (header.endian_marker == little_endian_marker)
    then err Error.endianness_mismatch
    else do
      kind ← file_kind_from_raw header.file_kind
      if not (same_file_kind kind expected_kind)
          then err (Error.invalid_file "file kind does not match")
          else if not (header.header_len == header_size)
          then err (Error.invalid_file "header size does not match")
          else ok kind

unfoldable pub descriptor_of : DiskSectionEntry → SectionKind → SectionDescriptor
descriptor_of entry kind = record {
  kind = kind;
  offset = entry.offset;
  byte_len = entry.byte_len;
  element_count = entry.element_count;
}

-- The loop over the entries, with the sections that are already there.
unfoldable pub read_sections :
    List ℕ
    → List DiskSectionEntry
    → List (SectionKind × SectionDescriptor)
    → Result (List (SectionKind × SectionDescriptor))
unfolding section_kind_from_raw descriptor_of validate_section get put
read_sections bytes [] sections = ok sections
read_sections bytes (entry ∷ entries) sections = do
  kind ← section_kind_from_raw entry.kind
  let descriptor = descriptor_of entry kind
  let rest = read_sections bytes entries (put sections kind descriptor)
  if not (entry.flags == 0) then err (Error.invalid_file "section flags are not zero") else do
    valid ← validate_section bytes descriptor
    elim (get sections kind) [
      | none ↦ rest
      | some old ↦ err (Error.invalid_file "section kind is duplicated")
    ]

-- What `MappedSlice` reads: the size and alignment of an element, and its value.
pub record DiskElement (A : Type 0) : Type 0 where
  pub size : ℕ
  pub alignment : ℕ
  pub read : List ℕ → A

abbrev pub u64_element : DiskElement ℕ
u64_element = record { size = 8; alignment = 8; read = le_field 8 }

abbrev pub f32_element : DiskElement ℕ
f32_element = record { size = 4; alignment = 4; read = le_field 4 }

-- `DiskSymbol`
abbrev pub symbol_element : DiskElement Symbol
symbol_element = record { size = 4; alignment = 4; read = le_field 4 }

-- `DiskPosting`
abbrev pub posting_element : DiskElement Posting
posting_element = record {
  size = 8;
  alignment = 4;
  read = λ bytes. record { string_id = le_field 4 bytes; position = le_field 4 (drop 4 bytes) };
}

module _ {A : Type 0} (element : DiskElement A) where
  unfoldable pub read_elements : ℕ → List ℕ → List A
  read_elements zero bytes = []
  read_elements (suc count) bytes =
      element.read bytes ∷ read_elements count (drop element.size bytes)

  -- `MappedSlice::new`, as the elements that it shows.
  unfoldable pub new : List ℕ → ℕ → ℕ → ℕ → Result (List A)
  unfolding checked_add checked_mul to_usize get_range read_elements
  new mmap offset byte_len element_count = do
    expected_len ←
        ok_or (checked_mul element_count element.size)
          (Error.invalid_file "section byte length overflows")
    if not (byte_len == expected_len)
        then err (Error.invalid_file "section byte length does not match element count")
        else do
          start ← ok_or (to_usize offset) Error.platform_size_overflow
          len ← ok_or (to_usize byte_len) Error.platform_size_overflow
          end ← ok_or (checked_add start len) (Error.invalid_file "section range overflows")
          bytes ←
              ok_or (get_range mmap start end) (Error.invalid_file "section lies outside the file")
          if not (offset % element.alignment == 0)
              then err (Error.invalid_file "section has invalid length or alignment")
              else ok (read_elements element_count bytes)

unfoldable pub section : PersistedFile → SectionKind → Result SectionDescriptor
unfolding get
section file kind =
    ok_or (get file.sections kind) (Error.invalid_file "required section is missing")

unfoldable pub mapped_slice :
    {A : Type 0} → DiskElement A → PersistedFile → SectionKind → Result (List A)
unfolding section new
mapped_slice element file kind = do
  descriptor ← section file kind
  new element file.mmap descriptor.offset descriptor.byte_len descriptor.element_count

unfoldable pub bytes : PersistedFile → SectionKind → Result (List ℕ)
unfolding section checked_range
bytes file kind = do
  descriptor ← section file kind
  checked_range file.mmap descriptor.offset descriptor.byte_len

unfoldable pub contains_all : PersistedFile → List SectionKind → Bool
unfolding get
contains_all file [] = true
contains_all file (kind ∷ kinds) = elim (get file.sections kind) [
  | none ↦ false
  | some descriptor ↦ contains_all file kinds
]

unfoldable pub require_exact_sections : PersistedFile → List SectionKind → Result (Unit {0})
unfolding contains_all
require_exact_sections file expected =
    if not (length file.sections == length expected) || not (contains_all file expected)
    then err (Error.invalid_file "sections do not match the selected file kind")
    else ok tt

unfoldable pub check_count : List ℕ → ℕ → String → Result (Unit {0})
check_count offsets expected problem =
    if not (length offsets == expected) then err (Error.invalid_file problem) else ok tt

abbrev pub engine_sections : List SectionKind
engine_sections =
    SectionKind.vocabulary_token_offsets ∷ SectionKind.vocabulary_token_blob
    ∷ SectionKind.sequence_offsets ∷ SectionKind.corpus_symbols ∷ SectionKind.posting_offsets
    ∷ SectionKind.postings ∷ []

abbrev pub embedding_sections : List SectionKind
embedding_sections =
    SectionKind.embedding_token_offsets ∷ SectionKind.embedding_token_blob ∷ SectionKind.embeddings
    ∷ SectionKind.cost_metadata ∷ []

unfoldable pub validate_engine : PersistedFile → Result (Unit {0})
unfolding require_exact_sections mapped_slice section validate_offsets checked_add check_count
validate_engine file = do
  exact ← require_exact_sections file engine_sections
  vocabulary_offsets ← mapped_slice u64_element file SectionKind.vocabulary_token_offsets
  vocabulary_blob ← section file SectionKind.vocabulary_token_blob
  sequence_offsets ← mapped_slice u64_element file SectionKind.sequence_offsets
  corpus ← section file SectionKind.corpus_symbols
  posting_offsets ← mapped_slice u64_element file SectionKind.posting_offsets
  postings ← section file SectionKind.postings
  in_blob ← validate_offsets vocabulary_offsets vocabulary_blob.byte_len
  in_corpus ← validate_offsets sequence_offsets corpus.element_count
  in_postings ← validate_offsets posting_offsets postings.element_count
  expected ←
      ok_or (checked_add vocabulary_blob.element_count 1)
        (Error.invalid_file "vocabulary offset count overflows")
  counted ←
      check_count vocabulary_offsets expected "vocabulary offset count does not match token count"
  check_count posting_offsets expected "posting offset count does not match vocabulary"

unfoldable pub validate_embeddings : PersistedFile → Result (Unit {0})
unfolding require_exact_sections mapped_slice section validate_offsets checked_add check_count
validate_embeddings file = do
  exact ← require_exact_sections file embedding_sections
  offsets ← mapped_slice u64_element file SectionKind.embedding_token_offsets
  blob ← section file SectionKind.embedding_token_blob
  embeddings ← section file SectionKind.embeddings
  metadata ← section file SectionKind.cost_metadata
  in_blob ← validate_offsets offsets blob.byte_len
  expected ←
      ok_or (checked_add blob.element_count 1)
        (Error.invalid_file "embedding token offset count overflows")
  check_count offsets expected "embedding token offset count does not match token count"

unfoldable pub validate_structure : PersistedFile → Result (Unit {0})
unfolding validate_engine validate_embeddings require_exact_sections
validate_structure file = elim file.kind [
  | FileKind.search_engine ↦ validate_engine file
  | FileKind.embedding_store ↦ validate_embeddings file
  | FileKind.levenshtein_costs ↦ require_exact_sections file []
  | FileKind.custom_costs ↦ require_exact_sections file (SectionKind.cost_metadata ∷ [])
  | FileKind.cosine_embedding_costs ↦ require_exact_sections file (SectionKind.cost_metadata ∷ [])
]
