-- ===== src/Persistence/Format/Open.antt =====
-- src/persistence/format.rs: `PersistedFile::open` and `parse`. What `open` reads of the file system
-- is the list of the file's bytes.
use yurine.Prelude.{ℕ, ◌==◌, List, [], ◌∷◌, ltb, if◌then◌else◌, map, not, length}
use yurine.Errors.{Error, Result, ok, err, ◌>>=◌, ok_or}
use yurine.Persistence.Bytes.{checked_mul, bytes_eq}
use yurine.Persistence.Utf8.{is_utf8}
use yurine.Persistence.Format.{
  FileKind, SectionKind, SectionDescriptor, ValidatedHeader, PersistedFile, max_codec_id_len,
  section_entry_len, header_size, from_disk,
}
use yurine.Persistence.Format.Write.{validate_codec_id_len}
use yurine.Persistence.Format.Ranges.{checked_range, validate_non_overlapping}
use yurine.Persistence.Format.Parse.{
  header_from_prefix, header_fields, entries_from, validate_header, read_sections,
  validate_structure,
}

-- The sections of a `BTreeMap`, in any order: their regions are sorted next.
abbrev pub descriptors : List (SectionKind × SectionDescriptor) → List SectionDescriptor
descriptors sections = map (λ (entry : SectionKind × SectionDescriptor). entry.1) sections

unfoldable pub check_codec : List ℕ → ValidatedHeader → List ℕ → ℕ → Result (Unit {0})
unfolding checked_range is_utf8
check_codec mmap header expected_codec expected_version =
    if ltb max_codec_id_len header.codec_len
    then err (Error.invalid_file "codec identifier is too long")
    else do
      actual ← checked_range mmap header.codec_offset header.codec_len
      if not (is_utf8 actual)
          then err (Error.invalid_file "codec identifier is not UTF-8")
          else if not (bytes_eq actual expected_codec)
          then err (Error.codec_mismatch expected_codec actual)
          else if not (header.codec_version == expected_version)
          then err (Error.codec_version_mismatch expected_version header.codec_version)
          else ok tt

unfoldable pub read_table :
    List ℕ → ValidatedHeader → Result (List (SectionKind × SectionDescriptor))
unfolding checked_range checked_mul entries_from read_sections validate_non_overlapping
read_table mmap header = do
  table_len ←
      ok_or (checked_mul header.section_count section_entry_len)
        (Error.invalid_file "section table length overflows")
  table ← checked_range mmap header.section_table_offset table_len
  sections ← read_sections mmap (entries_from header.section_count table) []
  disjoint ←
      validate_non_overlapping header.codec_offset header.codec_len header.section_table_offset
        table_len (descriptors sections)
  ok sections

unfoldable pub parse_contents : List ℕ → ValidatedHeader → List ℕ → ℕ → Result PersistedFile
unfolding check_codec read_table validate_structure
parse_contents mmap header expected_codec expected_version = do
  same_codec ← check_codec mmap header expected_codec expected_version
  sections ← read_table mmap header
  let file : PersistedFile = record { mmap = mmap; kind = header.kind; sections = sections }
  valid ← validate_structure file
  ok file

unfoldable pub parse : List ℕ → FileKind → List ℕ → ℕ → Result PersistedFile
unfolding validate_codec_id_len header_from_prefix validate_header from_disk parse_contents
parse mmap expected_kind expected_codec expected_version = do
  short_id ← validate_codec_id_len expected_codec
  header ← ok_or (header_from_prefix mmap) (Error.invalid_file "header is truncated")
  kind ← validate_header header expected_kind
  if not (header.file_len == length mmap)
      then err (Error.invalid_file "recorded file length does not match")
      else parse_contents mmap (from_disk header kind) expected_codec expected_version

-- `map_file`
unfoldable pub map_file : List ℕ → Result (List ℕ)
map_file [] = err (Error.invalid_file "file is empty")
map_file (byte ∷ file) = ok (byte ∷ file)

unfoldable pub open_file : List ℕ → FileKind → List ℕ → ℕ → Result PersistedFile
unfolding validate_codec_id_len header_fields validate_header from_disk parse_contents map_file
open_file file expected_kind codec_id codec_version = do
  short_id ← validate_codec_id_len codec_id
  if ltb (length file) header_size then err (Error.invalid_file "header is truncated") else do
    let disk_header = header_fields file
    kind ← validate_header disk_header expected_kind
    let header = from_disk disk_header kind
    if not (header.file_len == length file)
        then err (Error.invalid_file "recorded file length does not match")
        else do mmap ← map_file file; parse_contents mmap header codec_id codec_version
