-- ===== src/Persistence/Format/Ranges.antt =====
-- src/persistence/format.rs: the checks of ranges and offsets.
use yurine.Prelude.{
  ℕ, ◌%◌, ◌==◌, List, [], ◌∷◌, none, some, ltb, leb, if◌then◌else◌, map, not, Bool, true, false,
}
use yurine.Errors.{Error, Result, ok, err, ◌>>=◌, ok_or}
use yurine.Persistence.Bytes.{checked_add, checked_mul, to_usize, get_range}
use yurine.Persistence.Format.{SectionDescriptor, header_size, element_layout}

unfoldable pub checked_range : List ℕ → ℕ → ℕ → Result (List ℕ)
unfolding checked_add to_usize get_range
checked_range bytes offset len = do
  sum ← ok_or (checked_add offset len) (Error.invalid_file "file range overflows")
  start ← ok_or (to_usize offset) Error.platform_size_overflow
  end ← ok_or (to_usize sum) Error.platform_size_overflow
  ok_or (get_range bytes start end) (Error.invalid_file "file range is truncated")

-- The typed interpretation of a section that is not a blob.
unfoldable pub validate_layout : SectionDescriptor → Result (Unit {0})
unfolding element_layout checked_mul
validate_layout section = elim (element_layout section.kind) [
  | none ↦ ok tt
  | some (element_size, alignment) ↦ do
    expected_len ←
        ok_or (checked_mul section.element_count element_size)
          (Error.invalid_file "section byte length overflows")
    if not (section.byte_len == expected_len)
        then err (Error.invalid_file "section byte length does not match element count")
        else if not (section.offset % alignment == 0)
        then err (Error.invalid_file "section offset is not aligned")
        else ok tt
]

unfoldable pub validate_section : List ℕ → SectionDescriptor → Result (Unit {0})
unfolding checked_range validate_layout
validate_section bytes section = do
  range ← checked_range bytes section.offset section.byte_len
  validate_layout section

-- A region of the file: its offset and its length.
abbrev pub Region : Type 0
Region = ℕ × ℕ

unfoldable pub drop_empty : List Region → List Region
drop_empty [] = []
drop_empty ((offset, len) ∷ regions) =
    if len == 0 then drop_empty regions else (offset, len) ∷ drop_empty regions

unfoldable pub insert_region : Region → List Region → List Region
insert_region (offset, len) [] = (offset, len) ∷ []
insert_region (offset, len) ((other, other_len) ∷ regions) =
    if leb offset other
    then (offset, len) ∷ (other, other_len) ∷ regions
    else (other, other_len) ∷ insert_region (offset, len) regions

-- `sort_unstable_by_key` by the offset
unfoldable pub sort_regions : List Region → List Region
unfolding insert_region
sort_regions [] = []
sort_regions (region ∷ regions) = insert_region region (sort_regions regions)

-- The windows of two, from a region on.
unfoldable pub check_windows : Region → List Region → Result (Unit {0})
unfolding checked_add
check_windows (offset, len) [] = ok tt
check_windows (offset, len) ((next, next_len) ∷ regions) = do
  previous_end ← ok_or (checked_add offset len) (Error.invalid_file "file range overflows")
  let rest = check_windows (next, next_len) regions
  if ltb next previous_end then err (Error.invalid_file "file regions overlap") else rest

unfoldable pub check_regions : List Region → Result (Unit {0})
unfolding check_windows
check_regions [] = ok tt
check_regions (region ∷ regions) = check_windows region regions

abbrev pub all_regions : ℕ → ℕ → ℕ → ℕ → List SectionDescriptor → List Region
all_regions codec_offset codec_len table_offset table_len sections =
    (0, header_size)
    ∷ (codec_offset, codec_len)
    ∷ (table_offset, table_len)
    ∷ map (λ (section : SectionDescriptor). (section.offset, section.byte_len)) sections

unfoldable pub validate_non_overlapping : ℕ → ℕ → ℕ → ℕ → List SectionDescriptor → Result (Unit {0})
unfolding drop_empty sort_regions check_regions
validate_non_overlapping codec_offset codec_len table_offset table_len sections =
    check_regions (
      sort_regions
        (drop_empty (all_regions codec_offset codec_len table_offset table_len sections)))

-- `offsets.last()`, of an array that starts with the first argument.
unfoldable pub last_of : ℕ → List ℕ → ℕ
last_of offset [] = offset
last_of offset (next ∷ offsets) = last_of next offsets

unfoldable pub has_descent : ℕ → List ℕ → Bool
has_descent offset [] = false
has_descent offset (next ∷ offsets) = if ltb next offset then true else has_descent next offsets

unfoldable pub validate_offsets : List ℕ → ℕ → Result (Unit {0})
unfolding last_of has_descent
validate_offsets [] payload_len = err (Error.invalid_file "offset endpoints do not match payload")
validate_offsets (first ∷ offsets) payload_len =
    if not (first == 0)
    then err (Error.invalid_file "offset endpoints do not match payload")
    else if not (last_of first offsets == payload_len)
    then err (Error.invalid_file "offset endpoints do not match payload")
    else if has_descent first offsets
    then err (Error.invalid_file "offsets are not monotonic")
    else ok tt
