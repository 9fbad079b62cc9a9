-- ===== src/Persistence/Format/Disjoint.antt =====
-- The check that the regions of a file do not overlap: no byte has two meanings.
use yurine.Prelude.{
  ℕ, suc, ◌+◌, ◌≤◌, ◌<◌, ◌≡◌, refl, ◌∙◌, List, [], ◌∷◌, ltb, leb, if◌then◌else◌, ◌&&◌, arith,
}
use yurine.Errors.{ok}
use yurine.Persistence.Bytes.{checked_add}
use yurine.Persistence.Format.{SectionDescriptor}
use yurine.Persistence.Format.Ranges.{
  Region, drop_empty, insert_region, sort_regions, check_windows, check_regions, all_regions,
  validate_non_overlapping,
}

-- How many of the regions hold the byte at a position.
unfoldable pub holders : ℕ → List Region → ℕ
holders position [] = 0
holders position ((offset, len) ∷ regions) =
    let rest = holders position regions in
    if leb offset position && ltb position (offset + len) then suc rest else rest

drop_empty-holders :
    (position : ℕ) (regions : List Region)
    → holders position (drop_empty regions) ≡ holders position regions
unfolding holders drop_empty
drop_empty-holders position [] = refl
drop_empty-holders position ((offset, len) ∷ regions) =
    ground (arith, drop_empty-holders position regions)

insert_region-holders :
    (position offset len : ℕ) (regions : List Region)
    → holders position (insert_region (offset, len) regions)
      ≡ holders position ((offset, len) ∷ regions)
unfolding holders insert_region
insert_region-holders position offset len [] = refl
insert_region-holders position offset len ((other, other_len) ∷ regions) =
    ground (arith, insert_region-holders position offset len regions)

sort_regions-holders :
    (position : ℕ) (regions : List Region)
    → holders position (sort_regions regions) ≡ holders position regions
unfolding holders sort_regions
sort_regions-holders position [] = refl
sort_regions-holders position ((offset, len) ∷ regions) =
    insert_region-holders position offset len (sort_regions regions)
    ∙ ground (arith, sort_regions-holders position regions)

-- Behind a region that the windows start from there is nothing before its end.
check_windows_lem :
    (position offset len : ℕ) (regions : List Region)
    → check_windows (offset, len) regions ≡ ok tt
    → (holders position ((offset, len) ∷ regions) ≤ 1)
      × (position < offset + len → holders position regions ≡ 0)
unfolding holders check_windows checked_add
check_windows_lem position offset len [] h = ground arith
check_windows_lem position offset len ((next, next_len) ∷ regions) h =
    ground (arith, check_windows_lem position next next_len regions)

check_regions_lem :
    (position : ℕ) (regions : List Region)
    → check_regions regions ≡ ok tt
    → holders position regions ≤ 1
unfolding holders check_regions
check_regions_lem position [] h = omega arith
check_regions_lem position ((offset, len) ∷ regions) h =
    (check_windows_lem position offset len regions h).0

-- When the regions pass the check, every byte of the file lies in at most one of the header, the
-- codec identifier, the section table and the sections.
pub validate_non_overlapping-IsDisjoint :
    (codec_offset codec_len table_offset table_len : ℕ) (sections : List SectionDescriptor)
    → validate_non_overlapping codec_offset codec_len table_offset table_len sections ≡ ok tt
    → (position : ℕ)
    → holders position (all_regions codec_offset codec_len table_offset table_len sections) ≤ 1
unfolding validate_non_overlapping
validate_non_overlapping-IsDisjoint codec_offset codec_len table_offset table_len sections h
      position =
    let regions = all_regions codec_offset codec_len table_offset table_len sections in
    rw (← drop_empty-holders position regions, ← sort_regions-holders position (drop_empty regions))
      (check_regions_lem position _ h)
