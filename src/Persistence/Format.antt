-- ===== src/Persistence/Format.antt =====
-- src/persistence/format.rs: the data of the file format, of version 1. Bytes are numbers, and a file
-- is the list of its bytes.
pub mod Write
pub mod Ranges
pub mod Parse
pub mod Open
pub mod Disjoint
pub mod Offsets
pub mod Fields
pub mod Layout
pub mod Placed
pub mod Accepted
pub mod Table
pub mod Entries
pub mod Parts
pub mod Written
pub mod RoundTrip
pub mod Room
pub mod Elements
pub mod Sections
pub mod Sound
pub mod Payloads
use yurine.Prelude.{
  ℕ, ◌+◌, ◌*◌, ◌==◌, ==_iff, ◌≡◌, refl, List, [], ◌∷◌, ◌++◌, Option, none, some, Bool, true, Eq,
  length, drop, take, ltb, if◌then◌else◌, arith, ap, ◌↔◌,
}
use yurine.Errors.{Error, Result, ok, err}
use yurine.Types.{Symbol, Posting}
use yurine.Persistence.Bytes.{le_bytes, le_field}

-- `b"YURINE\0\0"`
abbrev pub magic_bytes : List ℕ
magic_bytes = 89 ∷ 85 ∷ 82 ∷ 73 ∷ 78 ∷ 69 ∷ 0 ∷ 0 ∷ []

abbrev pub supported_version : ℕ
supported_version = 1

abbrev pub max_codec_id_len : ℕ
max_codec_id_len = 255

abbrev pub little_endian_marker : ℕ
little_endian_marker = 0x0102_0304

abbrev pub header_size : ℕ
header_size = 64

abbrev pub section_entry_len : ℕ
section_entry_len = 32

pub data FileKind : Type 0 where
  search_engine embedding_store levenshtein_costs custom_costs cosine_embedding_costs : FileKind

unfoldable pub file_kind_raw : FileKind → ℕ
file_kind_raw FileKind.search_engine = 1
file_kind_raw FileKind.embedding_store = 2
file_kind_raw FileKind.levenshtein_costs = 3
file_kind_raw FileKind.custom_costs = 4
file_kind_raw FileKind.cosine_embedding_costs = 5

unfoldable pub file_kind_from_raw : ℕ → Result FileKind
file_kind_from_raw raw =
    if raw == 1
    then ok FileKind.search_engine
    else if raw == 2
    then ok FileKind.embedding_store
    else if raw == 3
    then ok FileKind.levenshtein_costs
    else if raw == 4
    then ok FileKind.custom_costs
    else if raw == 5
    then ok FileKind.cosine_embedding_costs
    else err (Error.invalid_file "unknown file kind")

pub data SectionKind : Type 0 where
  vocabulary_token_offsets vocabulary_token_blob sequence_offsets corpus_symbols : SectionKind
  posting_offsets postings embedding_token_offsets embedding_token_blob : SectionKind
  embeddings cost_metadata : SectionKind

unfoldable pub section_kind_raw : SectionKind → ℕ
section_kind_raw SectionKind.vocabulary_token_offsets = 1
section_kind_raw SectionKind.vocabulary_token_blob = 2
section_kind_raw SectionKind.sequence_offsets = 3
section_kind_raw SectionKind.corpus_symbols = 4
section_kind_raw SectionKind.posting_offsets = 5
section_kind_raw SectionKind.postings = 6
section_kind_raw SectionKind.embedding_token_offsets = 7
section_kind_raw SectionKind.embedding_token_blob = 8
section_kind_raw SectionKind.embeddings = 9
section_kind_raw SectionKind.cost_metadata = 10

unfoldable pub section_kind_from_raw : ℕ → Result SectionKind
section_kind_from_raw raw =
    if raw == 1
    then ok SectionKind.vocabulary_token_offsets
    else if raw == 2
    then ok SectionKind.vocabulary_token_blob
    else if raw == 3
    then ok SectionKind.sequence_offsets
    else if raw == 4
    then ok SectionKind.corpus_symbols
    else if raw == 5
    then ok SectionKind.posting_offsets
    else if raw == 6
    then ok SectionKind.postings
    else if raw == 7
    then ok SectionKind.embedding_token_offsets
    else if raw == 8
    then ok SectionKind.embedding_token_blob
    else if raw == 9
    then ok SectionKind.embeddings
    else if raw == 10
    then ok SectionKind.cost_metadata
    else err (Error.invalid_file "unknown section kind")

-- The size and the alignment of an element.
unfoldable pub element_layout : SectionKind → Option (ℕ × ℕ)
element_layout SectionKind.vocabulary_token_blob = none
element_layout SectionKind.embedding_token_blob = none
element_layout SectionKind.cost_metadata = none
element_layout SectionKind.vocabulary_token_offsets = some (8, 8)
element_layout SectionKind.embedding_token_offsets = some (8, 8)
element_layout SectionKind.sequence_offsets = some (8, 8)
element_layout SectionKind.posting_offsets = some (8, 8)
element_layout SectionKind.corpus_symbols = some (4, 4)
element_layout SectionKind.postings = some (8, 4)
element_layout SectionKind.embeddings = some (4, 4)

pub file_kind_round_trip : (kind : FileKind) → file_kind_from_raw (file_kind_raw kind) ≡ ok kind
unfolding file_kind_raw file_kind_from_raw
file_kind_round_trip FileKind.search_engine = refl
file_kind_round_trip FileKind.embedding_store = refl
file_kind_round_trip FileKind.levenshtein_costs = refl
file_kind_round_trip FileKind.custom_costs = refl
file_kind_round_trip FileKind.cosine_embedding_costs = refl

pub section_kind_round_trip :
    (kind : SectionKind) → section_kind_from_raw (section_kind_raw kind) ≡ ok kind
unfolding section_kind_raw section_kind_from_raw
section_kind_round_trip SectionKind.vocabulary_token_offsets = refl
section_kind_round_trip SectionKind.vocabulary_token_blob = refl
section_kind_round_trip SectionKind.sequence_offsets = refl
section_kind_round_trip SectionKind.corpus_symbols = refl
section_kind_round_trip SectionKind.posting_offsets = refl
section_kind_round_trip SectionKind.postings = refl
section_kind_round_trip SectionKind.embedding_token_offsets = refl
section_kind_round_trip SectionKind.embedding_token_blob = refl
section_kind_round_trip SectionKind.embeddings = refl
section_kind_round_trip SectionKind.cost_metadata = refl

-- The derived equality of the kinds compares their numbers.
abbrev pub same_file_kind : FileKind → FileKind → Bool
same_file_kind a b = file_kind_raw a == file_kind_raw b

pub same_file_kind_iff : (a b : FileKind) → (same_file_kind a b ≡ true) ↔ (a ≡ b)
same_file_kind_iff a b = ground (arith, file_kind_round_trip a, file_kind_round_trip b)

abbrev pub same_section_kind : SectionKind → SectionKind → Bool
same_section_kind a b = section_kind_raw a == section_kind_raw b

pub same_section_kind_iff : (a b : SectionKind) → (same_section_kind a b ≡ true) ↔ (a ≡ b)
same_section_kind_iff a b = ground (arith, section_kind_round_trip a, section_kind_round_trip b)

instance abbrev pub section_kind_eq : Eq SectionKind
section_kind_eq = record { beq = same_section_kind; beq_iff = same_section_kind_iff }

pub record DiskHeader : Type 0 where
  pub magic : List ℕ
  pub format_version : ℕ
  pub endian_marker : ℕ
  pub file_kind : ℕ
  pub header_len : ℕ
  pub codec_version : ℕ
  pub section_count : ℕ
  pub codec_offset : ℕ
  pub codec_len : ℕ
  pub section_table_offset : ℕ
  pub file_len : ℕ

pub record DiskSectionEntry : Type 0 where
  pub kind : ℕ
  pub flags : ℕ
  pub offset : ℕ
  pub byte_len : ℕ
  pub element_count : ℕ

pub record SectionDescriptor : Type 0 where
  pub kind : SectionKind
  pub offset : ℕ
  pub byte_len : ℕ
  pub element_count : ℕ

-- `ValidatedHeader`: the header's values after its checks.
pub record ValidatedHeader : Type 0 where
  pub kind : FileKind
  pub codec_version : ℕ
  pub section_count : ℕ
  pub codec_offset : ℕ
  pub codec_len : ℕ
  pub section_table_offset : ℕ
  pub file_len : ℕ

unfoldable pub from_disk : DiskHeader → FileKind → ValidatedHeader
from_disk header kind = record {
  kind = kind;
  codec_version = header.codec_version;
  section_count = header.section_count;
  codec_offset = header.codec_offset;
  codec_len = header.codec_len;
  section_table_offset = header.section_table_offset;
  file_len = header.file_len;
}

-- `SectionData`: the payload of a section. A row's `f32` is its bit pattern.
pub data SectionData : Type 0 where
  bytes : List ℕ → ℕ → SectionData
  f32_rows : List ℕ → List ℕ → ℕ → SectionData
  u64s : List ℕ → SectionData
  symbols : List Symbol → SectionData
  posting_list : List Posting → SectionData

pub record PersistedFile : Type 0 where
  pub mmap : List ℕ
  pub kind : FileKind
  pub sections : List (SectionKind × SectionDescriptor)
