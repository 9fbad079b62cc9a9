-- ===== src/Persistence/Format/Written.antt =====
-- Facts of a file that `write_file` writes: its parts have their places, and its header is read back.
use yurine.Prelude.{
  ℕ, ◌+◌, ◌*◌, ◌<◌, ◌≤◌, ◌≡◌, refl, sym, ap, ◌∙◌, List, ◌++◌, arith, true, false, subst, some, All,
  length, length-append, ltb, le→ltb,
}
use mathlib.Core.List.{append_assoc}
use yurine.Persistence.Bytes.{u32_limit, u64_limit}
use yurine.Persistence.Utf8.{is_utf8}
use yurine.Persistence.Format.{
  FileKind, SectionKind, SectionData, DiskHeader, file_kind_raw, header_size, section_kind_eq,
}
use yurine.Persistence.Format.Write.{header_of, header_as_bytes, write_entries}
use yurine.Persistence.Format.Parse.{header_from_prefix, header_fields}
use yurine.Persistence.Format.Fields.{
  HeaderFits, header_fields-header_as_bytes, length-header_as_bytes,
}
use yurine.Persistence.Format.Layout.{AllPlaced}
use yurine.Persistence.Format.Placed.{lay_out-lt, length-lay_out, write_payloads-AllPlaced}
use yurine.Persistence.Format.Table.{length-write_entries, ContentsFit, IsTyped}
use yurine.Persistence.Format.Entries.{Distinct}
use yurine.Persistence.Format.Parts.{Sections, Parts}

-- What a caller keeps: typed payloads under different kinds, and numbers of their widths.
pub record IsStorable (codec_id : List ℕ) (version : ℕ) (sections : Sections) : Type 0 where
  pub utf8 : is_utf8 codec_id ≡ true
  pub version_fits : version < u32_limit
  pub few : length sections < u32_limit
  pub typed : All (λ (section : SectionKind × SectionData). IsTyped section.0 section.1) sections
  pub fits : All (λ (section : SectionKind × SectionData). ContentsFit section.1) sections
  pub distinct : Distinct sections

file_kind_raw-le : (kind : FileKind) → file_kind_raw kind ≤ 5
unfolding file_kind_raw
file_kind_raw-le FileKind.search_engine = omega arith
file_kind_raw-le FileKind.embedding_store = omega arith
file_kind_raw-le FileKind.levenshtein_costs = omega arith
file_kind_raw-le FileKind.custom_costs = omega arith
file_kind_raw-le FileKind.cosine_embedding_costs = omega arith

module _ (kind : FileKind) (codec_id : List ℕ) (version : ℕ) (sections : Sections) (file : List ℕ)
    (storable : IsStorable codec_id version sections)
    (parts : Parts kind codec_id version sections file) where
  abbrev pub header : DiskHeader
  header = header_of kind codec_id version (length sections) parts.table_offset parts.cursor

  abbrev pub table_end : ℕ
  table_end = parts.table_offset + length sections * 32

  abbrev pub before_table : List ℕ
  before_table = header_as_bytes header ++ (codec_id ++ parts.padding)

  pub length-header : length (header_as_bytes header) ≡ 64
  length-header = length-header_as_bytes header refl

  pub length-before_table : length before_table ≡ parts.table_offset
  length-before_table = omega (
    arith,
    length-append (header_as_bytes header) (codec_id ++ parts.padding),
    length-append codec_id parts.padding,
    length-header,
    parts.padded,
    parts.behind_id,
  )

  pub with_table : file ≡ before_table ++ (write_entries parts.descriptors ++ parts.payloads)
  with_table =
      parts.joined
      ∙ rw
          (
            append_assoc (header_as_bytes header) (codec_id ++ parts.padding)
                (write_entries parts.descriptors ++ parts.payloads),
            append_assoc codec_id parts.padding (write_entries parts.descriptors ++ parts.payloads),
          )
          refl

  pub length-entries : length (write_entries parts.descriptors) ≡ length sections * 32
  length-entries = omega (
    arith,
    length-write_entries parts.descriptors,
    length-lay_out table_end parts.cursor sections parts.descriptors parts.laid_out,
  )

  -- The whole file: its length and its sections.
  pub all_placed : (parts.cursor ≡ length file) × AllPlaced file sections parts.descriptors
  all_placed =
      let before = before_table ++ write_entries parts.descriptors in
      let at : length before ≡ table_end = omega (
        arith,
        length-append before_table (write_entries parts.descriptors),
        length-before_table,
        length-entries,
      ) in
      let (ends, placed) =
        write_payloads-AllPlaced table_end parts.cursor sections parts.descriptors before
          parts.payloads parts.laid_out parts.paid at in
      let whole : before ++ parts.payloads ≡ file =
        append_assoc before_table (write_entries parts.descriptors) parts.payloads
        ∙ sym with_table in
      (
        omega (arith, ends, at, length-append before parts.payloads, ap length whole),
        subst (λ f. AllPlaced f sections parts.descriptors) whole placed,
      )

  pub file_fits : length file < u64_limit
  file_fits =
      let few = storable.few in
      omega (
        arith,
        all_placed.0,
        parts.short_id,
        parts.close,
        lay_out-lt table_end parts.cursor sections parts.descriptors
            (omega (arith, parts.short_id, parts.close, few)) parts.laid_out,
      )

  header_fits : HeaderFits header
  unfolding HeaderFits file_kind_raw
  header_fits = (
    refl,
    omega arith,
    omega arith,
    omega (arith, file_kind_raw-le kind),
    omega arith,
    storable.version_fits,
    omega arith,
    omega arith,
    omega (arith, parts.short_id),
    omega (arith, parts.close, parts.short_id),
    omega (arith, all_placed.0, file_fits),
  )

  pub header_read : header_from_prefix file ≡ some header
  unfolding header_from_prefix
  header_read =
      let rest =
        codec_id ++ (parts.padding ++ (write_entries parts.descriptors ++ parts.payloads)) in
      let long : ltb (length file) header_size ≡ false = le→ltb (length file) header_size (
        omega (
          arith,
          ap length parts.joined,
          length-append (header_as_bytes header) rest,
          length-header,
        )) in
      let fields : header_fields file ≡ header =
        rw parts.joined (header_fields-header_as_bytes header rest header_fits) in
      rw (header_from_prefix, long, fields) refl
