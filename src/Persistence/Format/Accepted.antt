-- ===== src/Persistence/Format/Accepted.antt =====
-- The checks of ranges accept what the writer lays out.
use yurine.Prelude.{
  ℕ, zero, suc, ◌+◌, ◌-◌, ◌≤◌, ◌<◌, ◌≡◌, refl, ap, List, [], ◌∷◌, length, arith, drop, take, ltb,
  leb, ◌==◌, map, true, false,
}
use yurine.Errors.{ok}
use yurine.Types.{usize_limit}
use yurine.Persistence.Bytes.{checked_add, to_usize, get_range, u64_limit}
use yurine.Persistence.Format.{SectionDescriptor}
use yurine.Persistence.Format.Ranges.{
  Region, checked_range, drop_empty, insert_region, sort_regions, check_windows, check_regions,
  all_regions, validate_non_overlapping,
}
use yurine.Persistence.Format.Layout.{Follows}

-- A range of the file is there when it ends in the file.
pub checked_range-eq :
    (bytes : List ℕ) (offset len : ℕ)
    → offset + len ≤ length bytes
    → length bytes < u64_limit
    → checked_range bytes offset len ≡ ok (take len (drop offset bytes))
unfolding checked_range checked_add to_usize get_range
checked_range-eq bytes offset len inside fits =
    let sum : ltb (offset + len) u64_limit ≡ true = ground arith in
    let start : ltb offset usize_limit ≡ true = ground arith in
    let end : ltb (offset + len) usize_limit ≡ true = ground arith in
    let ordered : leb offset (offset + len) ≡ true = ground arith in
    let whole : leb (offset + len) (length bytes) ≡ true = ground arith in
    let size : offset + len - offset ≡ len = omega arith in
    rw (sum, start, end, ordered, whole, size) refl

-- What a range that is there is.
pub checked_range-ok :
    (bytes : List ℕ) (offset len : ℕ) (range : List ℕ)
    → checked_range bytes offset len ≡ ok range
    → (offset + len ≤ length bytes)
      × (offset + len < u64_limit)
      × (range ≡ take len (drop offset bytes))
unfolding checked_range checked_add to_usize get_range
checked_range-ok bytes offset len range e =
    let size : offset + len - offset ≡ len = omega arith in
    ground (arith, ap (λ n. take n (drop offset bytes)) size)

-- Regions that follow each other, from a position on.
abbrev Chain : ℕ → List Region → Type 0
Chain lower [] = Unit
Chain lower ((offset, len) ∷ regions) =
    (lower ≤ offset) × (offset + len < u64_limit) × Chain (offset + len) regions

Chain-lower :
    (lower upper : ℕ) (regions : List Region)
    → lower ≤ upper
    → Chain upper regions
    → Chain lower regions
Chain-lower lower upper [] h chain = tt
Chain-lower lower upper ((offset, len) ∷ regions) h (above, fits, chain) =
    (omega arith, fits, chain)

drop_empty-Chain :
    (lower : ℕ) (regions : List Region) → Chain lower regions → Chain lower (drop_empty regions)
unfolding drop_empty
drop_empty-Chain lower [] chain = tt
drop_empty-Chain lower ((offset, zero) ∷ regions) (above, fits, chain) =
    drop_empty-Chain lower regions (Chain-lower lower (offset + 0) regions (omega arith) chain)
drop_empty-Chain lower ((offset, suc len) ∷ regions) (above, fits, chain) =
    let some_bytes : (suc len == 0) ≡ false = ground arith in
    rw some_bytes (above, fits, drop_empty-Chain (offset + suc len) regions chain)

insert_region-Chain :
    (offset len : ℕ) (regions : List Region)
    → Chain (offset + len) regions
    → insert_region (offset, len) regions ≡ (offset, len) ∷ regions
unfolding insert_region
insert_region-Chain offset len [] chain = refl
insert_region-Chain offset len ((next, next_len) ∷ regions) (above, fits, chain) =
    let first : leb offset next ≡ true = ground arith in rw first refl

sort_regions-Chain :
    (lower : ℕ) (regions : List Region) → Chain lower regions → sort_regions regions ≡ regions
unfolding sort_regions
sort_regions-Chain lower [] chain = refl
sort_regions-Chain lower ((offset, len) ∷ regions) (above, fits, chain) =
    rw (sort_regions-Chain (offset + len) regions chain)
      (insert_region-Chain offset len regions chain)

check_windows-Chain :
    (offset len : ℕ) (regions : List Region)
    → offset + len < u64_limit
    → Chain (offset + len) regions
    → check_windows (offset, len) regions ≡ ok tt
unfolding check_windows checked_add
check_windows-Chain offset len [] fits chain = refl
check_windows-Chain offset len ((next, next_len) ∷ regions) fits (above, next_fits, chain) =
    let rest = check_windows-Chain next next_len regions next_fits chain in
    let sum : ltb (offset + len) u64_limit ≡ true = ground arith in
    let apart : ltb next (offset + len) ≡ false = ground arith in rw (sum, rest, apart) refl

check_regions-Chain :
    (lower : ℕ) (regions : List Region) → Chain lower regions → check_regions regions ≡ ok tt
unfolding check_regions
check_regions-Chain lower [] chain = refl
check_regions-Chain lower ((offset, len) ∷ regions) (above, fits, chain) =
    check_windows-Chain offset len regions fits chain

Follows-Chain :
    (cursor end : ℕ) (sections : List SectionDescriptor)
    → Follows cursor sections end
    → end < u64_limit
    → (cursor ≤ end)
      × Chain cursor
          (map (λ (section : SectionDescriptor). (section.offset, section.byte_len)) sections)
Follows-Chain cursor end [] follows fits = (follows, tt)
Follows-Chain cursor end (section ∷ sections) (above, follows) fits =
    let (inside, chain) =
      Follows-Chain (section.offset + section.byte_len) end sections follows fits in
    (omega arith, (above, omega arith, chain))

-- Sections that follow each other behind the table do not overlap with anything.
pub validate_non_overlapping-Follows :
    (codec_len table_offset table_len end : ℕ) (sections : List SectionDescriptor)
    → 64 + codec_len ≤ table_offset
    → Follows (table_offset + table_len) sections end
    → end < u64_limit
    → validate_non_overlapping 64 codec_len table_offset table_len sections ≡ ok tt
unfolding validate_non_overlapping
validate_non_overlapping-Follows codec_len table_offset table_len end sections h follows fits =
    let (inside, chain) = Follows-Chain (table_offset + table_len) end sections follows fits in
    let regions = all_regions 64 codec_len table_offset table_len sections in
    let whole : Chain 0 regions =
      (omega arith, omega arith, (omega arith, omega arith, (h, omega arith, chain))) in
    let kept = drop_empty-Chain 0 regions whole in
    rw (sort_regions-Chain 0 (drop_empty regions) kept)
      (check_regions-Chain 0 (drop_empty regions) kept)
