-- ===== src/Persistence/Format/Fields.antt =====
-- A header and a section entry are read back from their bytes.
use yurine.Prelude.{
  ℕ, ◌<◌, ◌≡◌, List, ◌++◌, length, arith, take_of_length, drop_of_length, length-append,
}
use mathlib.Core.List.{append_assoc}
use yurine.Persistence.Bytes.{le_bytes, le_field, u32_limit, u64_limit, le_field-le_bytes}
use yurine.Persistence.Format.{DiskHeader, DiskSectionEntry}
use yurine.Persistence.Format.Write.{header_as_bytes, entry_as_bytes}
use yurine.Persistence.Format.Parse.{header_fields, entry_fields}

abbrev pub IsU32 : ℕ → Type 0
IsU32 value = value < u32_limit

abbrev pub IsU64 : ℕ → Type 0
IsU64 value = value < u64_limit

-- The fields of a header have their widths.
unfoldable pub HeaderFits : DiskHeader → Type 0
HeaderFits h =
    (length h.magic ≡ 8)
    × IsU32 h.format_version
    × IsU32 h.endian_marker
    × IsU32 h.file_kind
    × IsU32 h.header_len
    × IsU32 h.codec_version
    × IsU32 h.section_count
    × IsU64 h.codec_offset
    × IsU64 h.codec_len
    × IsU64 h.section_table_offset
    × IsU64 h.file_len

unfoldable pub EntryFits : DiskSectionEntry → Type 0
EntryFits e =
    IsU32 e.kind × IsU32 e.flags × IsU64 e.offset × IsU64 e.byte_len × IsU64 e.element_count

u32_field :
    (value : ℕ) (rest : List ℕ) → IsU32 value → le_field 4 (le_bytes 4 value ++ rest) ≡ value
u32_field value rest h = le_field-le_bytes 4 value rest (omega arith)

u64_field :
    (value : ℕ) (rest : List ℕ) → IsU64 value → le_field 8 (le_bytes 8 value ++ rest) ≡ value
u64_field value rest h = le_field-le_bytes 8 value rest (omega arith)

-- A section entry is read back from its 32 bytes, whatever follows them.
pub entry_fields-entry_as_bytes :
    (e : DiskSectionEntry) (rest : List ℕ)
    → EntryFits e
    → entry_fields (entry_as_bytes e ++ rest) ≡ e
unfolding entry_fields entry_as_bytes EntryFits
entry_fields-entry_as_bytes e rest (h0, h1, h2, h3, h4) = simp (
  u32_field e.kind _ h0,
  u32_field e.flags _ h1,
  u64_field e.offset _ h2,
  u64_field e.byte_len _ h3,
  u64_field e.element_count _ h4,
)

pub length-entry_as_bytes : (e : DiskSectionEntry) → length (entry_as_bytes e) ≡ 32
unfolding entry_as_bytes
length-entry_as_bytes e = simp length-append

-- A header is read back from its 64 bytes, whatever follows them.
pub header_fields-header_as_bytes :
    (h : DiskHeader) (rest : List ℕ) → HeaderFits h → header_fields (header_as_bytes h ++ rest) ≡ h
unfolding header_fields header_as_bytes HeaderFits
header_fields-header_as_bytes h rest (h0, h1, h2, h3, h4, h5, h6, h7, h8, h9, h10) = simp (
  append_assoc,
  take_of_length h.magic _ 8 h0,
  drop_of_length h.magic _ 8 h0,
  u32_field h.format_version _ h1,
  u32_field h.endian_marker _ h2,
  u32_field h.file_kind _ h3,
  u32_field h.header_len _ h4,
  u32_field h.codec_version _ h5,
  u32_field h.section_count _ h6,
  u64_field h.codec_offset _ h7,
  u64_field h.codec_len _ h8,
  u64_field h.section_table_offset _ h9,
  u64_field h.file_len _ h10,
)

pub length-header_as_bytes : (h : DiskHeader) → length h.magic ≡ 8 → length (header_as_bytes h) ≡ 64
unfolding header_as_bytes
length-header_as_bytes h magic = simp (length-append, magic)
