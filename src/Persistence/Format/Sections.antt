-- ===== src/Persistence/Format/Sections.antt =====
-- The sections that the reader keeps are sound: the loop over the section table.
use yurine.Prelude.{
  ℕ, ◌+◌, ◌*◌, ◌%◌, ◌==◌, ◌≤◌, ◌≡◌, refl, List, [], ◌∷◌, arith, if◌then◌else◌, not, true, false,
  subst, some, none, Option, length, Bool-cases, inl, inr, Bool, none≢some,
}
use mathlib.Core.Path.{subst₂}
use mathlib.Core.Option.{some-injective}
use yurine.Errors.{
  Error, Result, ok, err, panic, ◌>>=◌, ok_or, ok-injective, >>=-eq-ok, err≢ok, panic≢ok,
}
use yurine.Map.{get, put, get-put}
use yurine.Persistence.Bytes.{checked_mul}
use yurine.Persistence.Format.{
  SectionKind, SectionDescriptor, DiskSectionEntry, ValidatedHeader, section_kind_eq,
  same_section_kind, same_section_kind_iff, element_layout, section_entry_len,
  section_kind_from_raw,
}
use yurine.Persistence.Format.Ranges.{
  checked_range, validate_layout, validate_section, all_regions, validate_non_overlapping,
}
use yurine.Persistence.Format.Parse.{read_sections, descriptor_of, entries_from}
use yurine.Persistence.Format.Open.{read_table, descriptors}
use yurine.Persistence.Format.Disjoint.{holders, validate_non_overlapping-IsDisjoint}
use yurine.Persistence.Format.Accepted.{checked_range-ok}

-- A section lies in the file, under its own kind; where its elements have a width, its length is that
-- of its elements and its offset has their alignment.
pub record IsSoundSection (file : List ℕ) (kind : SectionKind) (d : SectionDescriptor)
    : Type 0 where
  pub same_kind : d.kind ≡ kind
  pub inside : d.offset + d.byte_len ≤ length file
  pub layout :
      (size alignment : ℕ)
      → element_layout kind ≡ some (size, alignment)
      → (d.byte_len ≡ d.element_count * size) × (d.offset % alignment ≡ 0)

checked_layout :
    (count size len offset alignment : ℕ)
    → (ok_or (checked_mul count size) (Error.invalid_file "section byte length overflows")
        >>= λ expected.
            if not (len == expected)
            then err (Error.invalid_file "section byte length does not match element count")
            else if not (offset % alignment == 0)
            then err (Error.invalid_file "section offset is not aligned")
            else ok (tt {0}))
      ≡ ok (tt {0})
    → (len ≡ count * size) × (offset % alignment ≡ 0)
unfolding checked_mul
checked_layout count size len offset alignment e = ground arith

layout_lem :
    (d : SectionDescriptor) (size alignment : ℕ)
    → element_layout d.kind ≡ some (size, alignment)
    → validate_layout d ≡ ok tt
    → (d.byte_len ≡ d.element_count * size) × (d.offset % alignment ≡ 0)
unfolding validate_layout checked_mul
layout_lem d size alignment layout valid =
    checked_layout d.element_count size d.byte_len d.offset alignment
      (rw (validate_layout, layout) at valid)

validate_section-IsSound :
    (file : List ℕ) (d : SectionDescriptor)
    → validate_section file d ≡ ok tt
    → IsSoundSection file d.kind d
unfolding validate_section
validate_section-IsSound file d valid =
    let (range, in_file, valid_layout) =
      >>=-eq-ok (checked_range file d.offset d.byte_len) _ valid in
    record {
      same_kind = refl;
      inside = (checked_range-ok file d.offset d.byte_len range in_file).0;
      layout = λ size alignment e. layout_lem d size alignment e valid_layout;
    }

abbrev pub Table : Type 0
Table = List (SectionKind × SectionDescriptor)

abbrev pub AllSound : List ℕ → Table → Type 0
AllSound file table =
    (kind : SectionKind) (d : SectionDescriptor)
    → get table kind ≡ some d
    → IsSoundSection file kind d

put-AllSound :
    (file : List ℕ) (table : Table) (kind : SectionKind) (d : SectionDescriptor)
    → IsSoundSection file kind d
    → AllSound file table
    → AllSound file (put table kind d)
put-AllSound file table kind d sound all other found e =
    elim (Bool-cases (same_section_kind kind other)) [
      | inl same ↦
          let here : some d ≡ some found = rw (get-put table kind d other, same) at e in
          subst₂ (IsSoundSection file) ((same_section_kind_iff kind other).0 same)
            (some-injective d found here) sound
      | inr differs ↦ all other found (rw (get-put table kind d other, differs) at e)
    ]

entry_checks :
    (no_flags : Bool) (valid : Result (Unit {0})) (old : Option SectionDescriptor)
    (rest : Result Table) (result : Table)
    → (if not no_flags
        then err (Error.invalid_file "section flags are not zero")
        else (valid >>= λ checked. elim old [
          | none ↦ rest
          | some d ↦ err (Error.invalid_file "section kind is duplicated")
        ]))
      ≡ ok result
    → (valid ≡ ok tt) × (rest ≡ ok result)
entry_checks false valid old rest result e = absurd (err≢ok e)
entry_checks true panic old rest result e = absurd (panic≢ok e)
entry_checks true (err problem) old rest result e = absurd (err≢ok e)
entry_checks true (ok checked) none rest result e = (refl, e)
entry_checks true (ok checked) (some d) rest result e = absurd (err≢ok e)

sound_under :
    (file : List ℕ) (entry : DiskSectionEntry) (kind : SectionKind)
    → IsSoundSection file (descriptor_of entry kind).kind (descriptor_of entry kind)
    → IsSoundSection file kind (descriptor_of entry kind)
unfolding descriptor_of
sound_under file entry kind sound = sound

nothing : (file : List ℕ) → AllSound file []
unfolding get
nothing file kind d e = absurd (none≢some e)

product_lem :
    (count len : ℕ)
    → ok_or
        (checked_mul count section_entry_len)
        (Error.invalid_file "section table length overflows")
      ≡ ok len
    → len ≡ count * 32
unfolding checked_mul
product_lem count len e = ground arith

-- One round of the loop over the table.
read_sections-step :
    (file : List ℕ) (entry : DiskSectionEntry) (entries : List DiskSectionEntry)
    (table result : Table)
    → read_sections file (entry ∷ entries) table ≡ ok result
    → (kind : SectionKind) × (validate_section file (descriptor_of entry kind) ≡ ok tt)
      × (read_sections file entries (put table kind (descriptor_of entry kind)) ≡ ok result)
unfolding read_sections
read_sections-step file entry entries table result e =
    let (kind, raw, e1) = >>=-eq-ok (section_kind_from_raw entry.kind) _ e in
    let (valid, rest) =
      entry_checks (entry.flags == 0) (validate_section file (descriptor_of entry kind))
        (get table kind) _ result e1 in
    (kind, valid, rest)

read_sections-AllSound :
    (file : List ℕ) (entries : List DiskSectionEntry) (table result : Table)
    → AllSound file table
    → read_sections file entries table ≡ ok result
    → AllSound file result
unfolding read_sections
read_sections-AllSound file [] table result all e = subst (AllSound file) (ok-injective e) all
read_sections-AllSound file (entry ∷ entries) table result all e =
    let (kind, valid, rest) = read_sections-step file entry entries table result e in
    read_sections-AllSound file entries (put table kind (descriptor_of entry kind)) result
      (put-AllSound file table kind (descriptor_of entry kind)
        (sound_under file entry kind
          (validate_section-IsSound file (descriptor_of entry kind) valid))
        all)
      rest

-- The table is read to sound sections that do not overlap.
pub read_table-AllSound :
    (file : List ℕ) (header : ValidatedHeader) (table : Table)
    → read_table file header ≡ ok table
    → AllSound file table
      × ((bytes : List ℕ) × (checked_range file header.section_table_offset
              (header.section_count * 32)
            ≡ ok bytes))
      × ((position : ℕ)
          → holders position (
              all_regions header.codec_offset header.codec_len header.section_table_offset
                (header.section_count * 32)
                (descriptors table))
            ≤ 1)
unfolding read_table
read_table-AllSound file header table e =
    let (len, product, e1) =
      >>=-eq-ok (ok_or (checked_mul header.section_count section_entry_len) _) _ e in
    let (bytes, range, e2) = >>=-eq-ok (checked_range file header.section_table_offset len) _ e1 in
    let entries = entries_from header.section_count bytes in
    let (sections, read, e3) = >>=-eq-ok (read_sections file entries []) _ e2 in
    let (apart, disjoint, e4) =
      >>=-eq-ok
        (validate_non_overlapping header.codec_offset header.codec_len header.section_table_offset
          len (descriptors sections))
        _ e3 in
    let same = ok-injective e4 in
    let same_len : len ≡ header.section_count * 32 = product_lem header.section_count len product in
    (
      subst (AllSound file) same
          (read_sections-AllSound file entries [] sections (nothing file) read),
      (
        bytes,
        subst (λ n. checked_range file header.section_table_offset n ≡ ok bytes) same_len range,
      ),
      subst₂
          (λ n t.
            (position : ℕ)
            → holders position (
                all_regions header.codec_offset header.codec_len header.section_table_offset n
                  (descriptors t))
              ≤ 1)
          same_len same
          (validate_non_overlapping-IsDisjoint header.codec_offset header.codec_len
            header.section_table_offset len (descriptors sections) disjoint),
    )
