-- ===== src/Persistence/Format/RoundTrip.antt =====
-- A file that `write_file` writes is accepted, and its sections are read back.
use yurine.Prelude.{
  ℕ, ◌+◌, ◌*◌, ◌%◌, ◌==◌, ◌<◌, ◌≤◌, ◌≡◌, refl, sym, ap, ◌∙◌, List, [], ◌∷◌, ◌++◌, arith, map, true,
  false, some, none, All, length, length-append, take, drop, ltb, ==_iff, le→ltb,
}
use yurine.Errors.{ok, ◌>>=◌}
use yurine.Map.{get}
use yurine.Persistence.Bytes.{checked_mul, u32_limit, u64_limit, bytes_eq, bytes_eq_iff}
use yurine.Persistence.Format.{
  FileKind, SectionKind, SectionDescriptor, SectionData, DiskHeader, PersistedFile, ValidatedHeader,
  file_kind_round_trip, same_file_kind, same_file_kind_iff, section_entry_len, section_kind_eq,
  from_disk, max_codec_id_len,
}
use yurine.Persistence.Format.Write.{
  write_file, header_of, header_as_bytes, write_entries, write_to, disk_entry,
  validate_codec_id_len,
}
use yurine.Persistence.Format.Ranges.{checked_range, validate_non_overlapping}
use yurine.Persistence.Format.Parse.{
  validate_header, entries_from, read_sections, validate_structure, section, bytes,
}
use yurine.Persistence.Format.Open.{parse, parse_contents, check_codec, read_table, descriptors}
use yurine.Persistence.Format.Layout.{AllPlaced, take-drop-middle}
use yurine.Persistence.Format.Placed.{lay_out-Follows}
use yurine.Persistence.Format.Accepted.{checked_range-eq, validate_non_overlapping-Follows}
use yurine.Persistence.Format.Table.{
  length-AllPlaced, AllPlaced-Fits, AllPlaced-valid, entries_from-write_entries,
}
use yurine.Persistence.Format.Entries.{
  under_kind, Finds, AllPlaced-Finds, AllPlaced-Distinct, read_sections-Distinct,
}
use yurine.Persistence.Format.Parts.{Sections, Parts, write_file-Parts}
use yurine.Persistence.Format.Written.{
  IsStorable, header, before_table, length-header, length-before_table, with_table, length-entries,
  all_placed, file_fits, header_read,
}

header_accepted :
    (kind : FileKind) (codec_id : List ℕ) (version count table_offset cursor : ℕ)
    → validate_header (header_of kind codec_id version count table_offset cursor) kind ≡ ok kind
unfolding validate_header
header_accepted kind codec_id version count table_offset cursor =
    let same : same_file_kind kind kind ≡ true = (same_file_kind_iff kind kind).1 refl in
    rw (file_kind_round_trip kind, same) refl

small_product : (n : ℕ) → n < u32_limit → checked_mul n section_entry_len ≡ some (n * 32)
unfolding checked_mul
small_product n h = ground arith

descriptors_lem : (ds : List SectionDescriptor) → descriptors (map under_kind ds) ≡ ds
descriptors_lem [] = refl
descriptors_lem (d ∷ ds) = ap (λ r. d ∷ r) (descriptors_lem ds)

none_used :
    (ds : List SectionDescriptor)
    → All (λ (d : SectionDescriptor). get {V = SectionDescriptor} [] d.kind ≡ none) ds
unfolding get
none_used [] = tt
none_used (d ∷ ds) = (refl, none_used ds)

module _ (kind : FileKind) (codec_id : List ℕ) (version : ℕ) (sections : Sections) (file : List ℕ)
    (storable : IsStorable codec_id version sections)
    (parts : Parts kind codec_id version sections file) where
  abbrev written : DiskHeader
  written = header kind codec_id version sections file storable parts

  abbrev checked_header : ValidatedHeader
  checked_header = from_disk written kind

  codec_range : checked_range file 64 (length codec_id) ≡ ok codec_id
  codec_range =
      let rest = parts.padding ++ (write_entries parts.descriptors ++ parts.payloads) in
      let front = header_as_bytes written in
      let len = length-header kind codec_id version sections file storable parts in
      let inside : 64 + length codec_id ≤ length file = omega (
        arith,
        ap length parts.joined,
        length-append front (codec_id ++ rest),
        length-append codec_id rest,
        len,
      ) in
      checked_range-eq file 64 (length codec_id) inside
        (file_fits kind codec_id version sections file storable parts)
      ∙ ap ok (
          ap (λ f. take (length codec_id) (drop 64 f)) parts.joined
          ∙ take-drop-middle front codec_id rest 64 (length codec_id) len refl)

  table_range :
      checked_range file parts.table_offset (length sections * 32)
      ≡ ok (write_entries parts.descriptors)
  table_range =
      let front = before_table kind codec_id version sections file storable parts in
      let at = length-before_table kind codec_id version sections file storable parts in
      let len = length-entries kind codec_id version sections file storable parts in
      let whole = with_table kind codec_id version sections file storable parts in
      let entries = write_entries parts.descriptors in
      let inside : parts.table_offset + length sections * 32 ≤ length file = omega (
        arith,
        ap length whole,
        length-append front (entries ++ parts.payloads),
        length-append entries parts.payloads,
        at,
        len,
      ) in
      checked_range-eq file parts.table_offset (length sections * 32) inside
        (file_fits kind codec_id version sections file storable parts)
      ∙ ap ok (
          ap (λ f. take (length sections * 32) (drop parts.table_offset f)) whole
          ∙ take-drop-middle front entries parts.payloads parts.table_offset (length sections * 32)
              at len)

  codec_accepted : check_codec file checked_header codec_id version ≡ ok tt
  unfolding check_codec from_disk
  codec_accepted =
      let short : ltb max_codec_id_len (length codec_id) ≡ false =
        le→ltb max_codec_id_len (length codec_id) parts.short_id in
      let same : bytes_eq codec_id codec_id ≡ true = (bytes_eq_iff codec_id codec_id).1 refl in
      let same_version : (version == version) ≡ true = (==_iff version version).1 refl in
      rw (short, codec_range, storable.utf8, same, same_version) refl

  table_disjoint :
      validate_non_overlapping 64
        (length codec_id)
        parts.table_offset
        (length sections * 32)
        parts.descriptors
      ≡ ok tt
  table_disjoint =
      let (ends, placed) = all_placed kind codec_id version sections file storable parts in
      let fits = file_fits kind codec_id version sections file storable parts in
      let start = parts.table_offset + length sections * 32 in
      validate_non_overlapping-Follows (length codec_id) parts.table_offset (length sections * 32)
        parts.cursor parts.descriptors parts.behind_id
        (lay_out-Follows start parts.cursor sections parts.descriptors parts.laid_out)
        (omega (arith, ends, fits))

  table_accepted : read_table file checked_header ≡ ok (map under_kind parts.descriptors)
  unfolding read_table from_disk
  table_accepted =
      let (ends, placed) = all_placed kind codec_id version sections file storable parts in
      let fits = file_fits kind codec_id version sections file storable parts in
      let ds = parts.descriptors in
      let count : length sections % u32_limit ≡ length sections =
        let few = storable.few in omega arith in
      let product : checked_mul (length sections) section_entry_len ≡ some (length sections * 32) =
        small_product (length sections) storable.few in
      let decoded : entries_from (length sections) (write_entries ds) ≡ map disk_entry ds =
        rw (length-AllPlaced file sections ds placed) (
          entries_from-write_entries ds
            (AllPlaced-Fits file sections ds fits storable.fits placed)) in
      let read : read_sections file (map disk_entry ds) [] ≡ ok (map under_kind ds) =
        read_sections-Distinct file ds []
          (AllPlaced-valid file sections ds fits storable.typed placed) (none_used ds)
          (AllPlaced-Distinct file sections ds placed storable.distinct) in
      rw (count, product, table_range, decoded, read, descriptors_lem ds, table_disjoint) refl

  abbrev read_back : PersistedFile
  read_back = record { mmap = file; kind = kind; sections = map under_kind parts.descriptors }

  parse-read_back :
      parse file kind codec_id version ≡ (validate_structure read_back >>= λ valid. ok read_back)
  unfolding parse parse_contents from_disk validate_codec_id_len
  parse-read_back =
      let short : ltb max_codec_id_len (length codec_id) ≡ false =
        le→ltb max_codec_id_len (length codec_id) parts.short_id in
      let header_at = header_read kind codec_id version sections file storable parts in
      let accepted =
        header_accepted kind codec_id version (length sections) parts.table_offset parts.cursor in
      let (ends, placed) = all_placed kind codec_id version sections file storable parts in
      let whole : (parts.cursor == length file) ≡ true =
        (==_iff parts.cursor (length file)).1 ends in
      rw (short, header_at, accepted, whole, codec_accepted, table_accepted) refl

  -- The sections, with the bytes that their payloads write.
  stored :
      (sections' : Sections) (ds : List SectionDescriptor)
      → AllPlaced file sections' ds
      → Finds read_back.sections sections' ds
      → All
          (λ (entry : SectionKind × SectionData). bytes read_back entry.0 ≡ write_to entry.1)
          sections'
  unfolding bytes section
  stored [] ds placed finds = tt
  stored (entry ∷ sections') [] placed finds = absurd placed
  stored ((section_kind, contents) ∷ sections') (d ∷ ds) (placed, others) (found, finds) =
      let fits = file_fits kind codec_id version sections file storable parts in
      let range = checked_range-eq file d.offset d.byte_len placed.inside fits in
      (rw (found, range, placed.found) (sym placed.written), stored sections' ds others finds)

-- A file that is parsed to its structure checks, and whose sections are those that were written.
pub record IsStored (file : List ℕ) (kind : FileKind) (codec_id : List ℕ) (version : ℕ)
    (sections : Sections) (result : PersistedFile) : Type 0 where
  pub parsed : parse file kind codec_id version ≡ (validate_structure result >>= λ valid. ok result)
  pub same_file : result.mmap ≡ file
  pub same_kind : result.kind ≡ kind
  pub fits : length file < u64_limit
  pub entries : List SectionDescriptor
  pub table : result.sections ≡ map under_kind entries
  pub placed : AllPlaced file sections entries
  pub finds : Finds result.sections sections entries
  pub contents :
      All (λ (entry : SectionKind × SectionData). bytes result entry.0 ≡ write_to entry.1) sections

pub write_file-IsStored :
    (kind : FileKind) (codec_id : List ℕ) (version : ℕ) (sections : Sections) (file : List ℕ)
    → IsStorable codec_id version sections
    → write_file kind codec_id version sections ≡ ok file
    → (result : PersistedFile) × IsStored file kind codec_id version sections result
write_file-IsStored kind codec_id version sections file storable e =
    let parts = write_file-Parts kind codec_id version sections file storable.few e in
    let (ends, placed) = all_placed kind codec_id version sections file storable parts in
    let finds = AllPlaced-Finds file sections parts.descriptors placed storable.distinct in
    (
      read_back kind codec_id version sections file storable parts,
      record {
        parsed = parse-read_back kind codec_id version sections file storable parts;
        same_file = refl;
        same_kind = refl;
        fits = file_fits kind codec_id version sections file storable parts;
        entries = parts.descriptors;
        table = refl;
        placed = placed;
        finds = finds;
        contents =
            stored kind codec_id version sections file storable parts sections parts.descriptors
              placed finds;
      },
    )
