-- ===== src/Persistence/Format/Table.antt =====
-- The section table is read back from what the writer writes.
use yurine.Prelude.{
  ℕ, suc, ◌*◌, ◌%◌, ◌≤◌, ◌<◌, ◌≡◌, refl, ap, ◌∙◌, List, [], ◌∷◌, length, arith, ltb, ◌==◌, map,
  true, subst, some, none, ◌⊎◌, inl, inr, Option, drop_of_length, All, length-append,
}
use mathlib.Core.Option.{some-injective}
use yurine.Errors.{Error, ok, ◌>>=◌, ok_or, ok-injective}
use yurine.Persistence.Bytes.{checked_mul, u64_limit}
use yurine.Persistence.Format.{
  SectionKind, SectionDescriptor, SectionData, element_layout, section_kind_raw, section_kind_eq,
}
use yurine.Persistence.Format.Write.{
  disk_entry, write_entries, entry_as_bytes, data_byte_len, data_element_count, section_alignment,
}
use yurine.Persistence.Format.Ranges.{validate_layout, validate_section}
use yurine.Persistence.Format.Parse.{entries_from}
use yurine.Persistence.Format.Fields.{
  IsU64, EntryFits, entry_fields-entry_as_bytes, length-entry_as_bytes,
}
use yurine.Persistence.Format.Layout.{IsPlaced, AllPlaced}
use yurine.Persistence.Format.Accepted.{checked_range-eq}

section_kind_raw-le : (kind : SectionKind) → section_kind_raw kind ≤ 10
unfolding section_kind_raw
section_kind_raw-le SectionKind.vocabulary_token_offsets = omega arith
section_kind_raw-le SectionKind.vocabulary_token_blob = omega arith
section_kind_raw-le SectionKind.sequence_offsets = omega arith
section_kind_raw-le SectionKind.corpus_symbols = omega arith
section_kind_raw-le SectionKind.posting_offsets = omega arith
section_kind_raw-le SectionKind.postings = omega arith
section_kind_raw-le SectionKind.embedding_token_offsets = omega arith
section_kind_raw-le SectionKind.embedding_token_blob = omega arith
section_kind_raw-le SectionKind.embeddings = omega arith
section_kind_raw-le SectionKind.cost_metadata = omega arith

abbrev pub DescriptorFits : SectionDescriptor → Type 0
DescriptorFits d = IsU64 d.offset × IsU64 d.byte_len × IsU64 d.element_count

disk_entry-Fits : (d : SectionDescriptor) → DescriptorFits d → EntryFits (disk_entry d)
unfolding EntryFits
disk_entry-Fits d (h0, h1, h2) =
    (omega (arith, section_kind_raw-le d.kind), omega arith, h0, h1, h2)

pub entries_from-write_entries :
    (descriptors : List SectionDescriptor)
    → All DescriptorFits descriptors
    → entries_from (length descriptors) (write_entries descriptors) ≡ map disk_entry descriptors
unfolding entries_from write_entries
entries_from-write_entries [] fits = refl
entries_from-write_entries (d ∷ descriptors) (fit, fits) =
    let rest = write_entries descriptors in
    rw
      (
        entry_fields-entry_as_bytes (disk_entry d) rest (disk_entry-Fits d fit),
        drop_of_length (entry_as_bytes (disk_entry d)) rest 32
            (length-entry_as_bytes (disk_entry d)),
      )
      (ap (λ r. disk_entry d ∷ r) (entries_from-write_entries descriptors fits))

pub length-write_entries :
    (descriptors : List SectionDescriptor)
    → length (write_entries descriptors) ≡ length descriptors * 32
unfolding write_entries
length-write_entries [] = omega arith
length-write_entries (d ∷ descriptors) = omega (
  arith,
  length-append (entry_as_bytes (disk_entry d)) (write_entries descriptors),
  length-entry_as_bytes (disk_entry d),
  length-write_entries descriptors,
)

-- The width of the elements that a payload has.
abbrev pub element_width : SectionData → Option ℕ
element_width (SectionData.bytes bytes count) = none
element_width (SectionData.f32_rows values row_indices row_len) = some 4
element_width (SectionData.u64s values) = some 8
element_width (SectionData.symbols values) = some 4
element_width (SectionData.posting_list values) = some 8

-- A section of a fixed element width has a payload of elements of that width.
abbrev pub IsTyped : SectionKind → SectionData → Type 0
IsTyped kind contents =
    (element_layout kind ≡ none)
    ⊎ ((size : ℕ) × (alignment : ℕ) × (element_layout kind ≡ some (size, alignment))
        × (element_width contents ≡ some size))

rows_bytes :
    (a b count len : ℕ)
    → ok_or (checked_mul a b) (Error.invalid_file "section element count overflows") ≡ ok count
    → (ok_or (checked_mul a b) (Error.invalid_file "section element count overflows") >>= λ n.
        ok_or (checked_mul n 4) (Error.invalid_file "section byte length overflows"))
      ≡ ok len
    → (len ≡ count * 4) × (len < u64_limit)
unfolding checked_mul
rows_bytes a b count len e f = ground arith

byte_len_of_width :
    (contents : SectionData) (size count len : ℕ)
    → element_width contents ≡ some size
    → data_element_count contents ≡ ok count
    → data_byte_len contents ≡ ok len
    → len ≡ count * size
unfolding data_element_count data_byte_len
byte_len_of_width (SectionData.bytes bytes n) size count len w c e = cc
byte_len_of_width (SectionData.f32_rows values row_indices row_len) size count len w c e =
    let four : 4 ≡ size = some-injective 4 size w in
    rw (← four) (rows_bytes (length row_indices) row_len count len c e).0
byte_len_of_width (SectionData.u64s values) size count len w c e =
    let eight : 8 ≡ size = some-injective 8 size w in
    rw (← eight, ← ok-injective c, ← ok-injective e) (omega arith)
byte_len_of_width (SectionData.symbols values) size count len w c e =
    let four : 4 ≡ size = some-injective 4 size w in
    rw (← four, ← ok-injective c, ← ok-injective e) (omega arith)
byte_len_of_width (SectionData.posting_list values) size count len w c e =
    let eight : 8 ≡ size = some-injective 8 size w in
    rw (← eight, ← ok-injective c, ← ok-injective e) (omega arith)

-- The number of records of a blob is one of 64 bits.
abbrev pub ContentsFit : SectionData → Type 0
ContentsFit (SectionData.bytes bytes count) = IsU64 count
ContentsFit (SectionData.f32_rows values row_indices row_len) = Unit
ContentsFit (SectionData.u64s values) = Unit
ContentsFit (SectionData.symbols values) = Unit
ContentsFit (SectionData.posting_list values) = Unit

count-IsU64 :
    (contents : SectionData) (count len : ℕ)
    → ContentsFit contents
    → data_element_count contents ≡ ok count
    → data_byte_len contents ≡ ok len
    → len < u64_limit
    → IsU64 count
unfolding data_element_count
count-IsU64 (SectionData.bytes bytes n) count len fits c e h = subst IsU64 (ok-injective c) fits
count-IsU64 (SectionData.f32_rows values row_indices row_len) count len fits c e h = omega (
  arith,
  byte_len_of_width (SectionData.f32_rows values row_indices row_len) 4 count len refl c e,
)
count-IsU64 (SectionData.u64s values) count len fits c e h =
    omega (arith, byte_len_of_width (SectionData.u64s values) 8 count len refl c e)
count-IsU64 (SectionData.symbols values) count len fits c e h =
    omega (arith, byte_len_of_width (SectionData.symbols values) 4 count len refl c e)
count-IsU64 (SectionData.posting_list values) count len fits c e h =
    omega (arith, byte_len_of_width (SectionData.posting_list values) 8 count len refl c e)

pub AllPlaced-Fits :
    (file : List ℕ) (sections : List (SectionKind × SectionData))
    (descriptors : List SectionDescriptor)
    → length file < u64_limit
    → All (λ (section : SectionKind × SectionData). ContentsFit section.1) sections
    → AllPlaced file sections descriptors
    → All DescriptorFits descriptors
AllPlaced-Fits file [] [] h fits placed = tt
AllPlaced-Fits file [] (d ∷ descriptors) h fits placed = absurd placed
AllPlaced-Fits file (section ∷ sections) [] h fits placed = absurd placed
AllPlaced-Fits file ((kind, contents) ∷ sections) (d ∷ descriptors) h (fit, fits) (placed, others) =
    let offset : IsU64 d.offset = omega (arith, placed.inside) in
    let len : IsU64 d.byte_len = omega (arith, placed.inside) in
    let count : IsU64 d.element_count =
      count-IsU64 contents d.element_count d.byte_len fit placed.counted placed.measured len in
    ((offset, len, count), AllPlaced-Fits file sections descriptors h fits others)

pub length-AllPlaced :
    (file : List ℕ) (sections : List (SectionKind × SectionData))
    (descriptors : List SectionDescriptor)
    → AllPlaced file sections descriptors
    → length sections ≡ length descriptors
length-AllPlaced file [] [] placed = refl
length-AllPlaced file [] (d ∷ descriptors) placed = absurd placed
length-AllPlaced file (section ∷ sections) [] placed = absurd placed
length-AllPlaced file (section ∷ sections) (d ∷ descriptors) (placed, others) =
    ap suc (length-AllPlaced file sections descriptors others)

validate_layout-typed :
    (d : SectionDescriptor) (size alignment : ℕ)
    → element_layout d.kind ≡ some (size, alignment)
    → d.byte_len ≡ d.element_count * size
    → d.byte_len < u64_limit
    → d.offset % alignment ≡ 0
    → validate_layout d ≡ ok tt
unfolding validate_layout checked_mul
validate_layout-typed d size alignment layout len fits aligned =
    let product : ltb (d.element_count * size) u64_limit ≡ true = ground arith in
    let same : (d.byte_len == d.element_count * size) ≡ true = ground arith in
    let even : (d.offset % alignment == 0) ≡ true = ground arith in
    rw (validate_layout, layout, product, same, even) refl

section_alignment-typed :
    (kind : SectionKind) (size alignment : ℕ)
    → element_layout kind ≡ some (size, alignment)
    → section_alignment kind ≡ alignment
unfolding section_alignment
section_alignment-typed kind size alignment e = rw (section_alignment, e) refl

validate_layout-blob :
    (d : SectionDescriptor) → element_layout d.kind ≡ none → validate_layout d ≡ ok tt
unfolding validate_layout
validate_layout-blob d layout = rw (validate_layout, layout) refl

-- A placed section of the right type passes the checks of its entry.
pub validate_section-IsPlaced :
    (file : List ℕ) (kind : SectionKind) (contents : SectionData) (d : SectionDescriptor)
    → length file < u64_limit
    → IsTyped kind contents
    → IsPlaced file kind contents d
    → validate_section file d ≡ ok tt
unfolding validate_section
validate_section-IsPlaced file kind contents d fits typed placed =
    let range = checked_range-eq file d.offset d.byte_len placed.inside fits in
    rw range (elim typed [
      | inl blob ↦ validate_layout-blob d (ap element_layout placed.same_kind ∙ blob)
      | inr (size, alignment, layout, width) ↦
          validate_layout-typed d size alignment (ap element_layout placed.same_kind ∙ layout)
            (byte_len_of_width contents size d.element_count d.byte_len width placed.counted
              placed.measured)
            (omega (arith, placed.inside))
            (subst (λ a. d.offset % a ≡ 0) (section_alignment-typed kind size alignment layout)
              placed.aligned)
    ])

pub AllPlaced-valid :
    (file : List ℕ) (sections : List (SectionKind × SectionData))
    (descriptors : List SectionDescriptor)
    → length file < u64_limit
    → All (λ (section : SectionKind × SectionData). IsTyped section.0 section.1) sections
    → AllPlaced file sections descriptors
    → All (λ (d : SectionDescriptor). validate_section file d ≡ ok tt) descriptors
AllPlaced-valid file [] [] h typed placed = tt
AllPlaced-valid file [] (d ∷ descriptors) h typed placed = absurd placed
AllPlaced-valid file (section ∷ sections) [] h typed placed = absurd placed
AllPlaced-valid file ((kind, contents) ∷ sections) (d ∷ descriptors) h (first, typed)
      (placed, others) =
    (
      validate_section-IsPlaced file kind contents d h first placed,
      AllPlaced-valid file sections descriptors h typed others,
    )
