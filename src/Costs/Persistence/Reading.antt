-- ===== src/Costs/Persistence/Reading.antt =====
-- The reader takes back what was pushed: at the position of a field it reads the field and stands
-- behind it.
use yurine.Prelude.{
  ℕ, ◌+◌, ◌-◌, ◌<◌, ◌≡◌, ◌==◌, ==_iff, refl, sym, ap, subst, List, [], ◌++◌, length, leb, ltb, true,
  arith, length-append,
}
use mathlib.Core.List.{append_assoc}
use yurine.Errors.{ok}
use yurine.Types.{usize_limit}
use yurine.Persistence.Bytes.{
  le_bytes, le_value-le_bytes, checked_add, to_usize, get_range, u32_limit, u64_limit,
}
use yurine.Persistence.Format.Layout.{take-drop-middle}
use yurine.Costs.Persistence.{
  MetadataReader, new, array, read_u32, read_u64, read_f32, read_bytes, finish, push_bytes,
}

abbrev at_reader : List ℕ → ℕ → MetadataReader
at_reader bytes position = record { bytes = bytes; position = position }

array-at :
    (before field behind : List ℕ) (position : ℕ)
    → length before ≡ position
    → length (before ++ (field ++ behind)) < u64_limit
    → array (length field) (at_reader (before ++ (field ++ behind)) position)
      ≡ ok (field, at_reader (before ++ (field ++ behind)) (position + length field))
unfolding array checked_add get_range
array-at before field behind position at small =
    let size = length-append before (field ++ behind) in
    let tail = length-append field behind in
    let sum : ltb (position + length field) u64_limit ≡ true = ground arith in
    let ordered : leb position (position + length field) ≡ true = ground arith in
    let inside : leb (position + length field) (length (before ++ (field ++ behind))) ≡ true =
      ground arith in
    let len : position + length field - position ≡ length field = omega arith in
    rw
      (
        sum,
        ordered,
        inside,
        len,
        take-drop-middle before field behind position (length field) at refl,
      )
      refl

-- The bytes that a reader has still to read.
pub record Stands (reader : MetadataReader) (rest : List ℕ) : Type 0 where
  pub before : List ℕ
  pub at : length before ≡ reader.position
  pub whole : reader.bytes ≡ before ++ rest
  pub small : length (before ++ rest) < u64_limit

pub new-Stands : (bytes : List ℕ) → length bytes < u64_limit → Stands (new bytes) bytes
unfolding new
new-Stands bytes small = record { before = []; at = refl; whole = refl; small = small }

array-Stands :
    (reader : MetadataReader) (field rest : List ℕ)
    → Stands reader (field ++ rest)
    → (after : MetadataReader) × (array (length field) reader ≡ ok (field, after))
      × Stands after rest
array-Stands reader field rest stands =
    let bytes = stands.before ++ (field ++ rest) in
    let same : at_reader bytes reader.position ≡ reader =
      ap (λ b. at_reader b reader.position) (sym stands.whole) in
    let joined = append_assoc stands.before field rest in
    (
      at_reader bytes (reader.position + length field),
      subst
          (λ r.
            array (length field) r ≡ ok (field, at_reader bytes (reader.position + length field)))
          same (array-at stands.before field rest reader.position stands.at stands.small),
      record {
        before = stands.before ++ field;
        at = omega (arith, length-append stands.before field, stands.at);
        whole = sym joined;
        small = subst (λ b. length b < u64_limit) (sym joined) stands.small;
      },
    )

module _ (reader : MetadataReader) (value : ℕ) (rest : List ℕ) where
  pub read_u32-Stands :
      value < u32_limit
      → Stands reader (le_bytes 4 value ++ rest)
      → (after : MetadataReader) × (read_u32 reader ≡ ok (value, after)) × Stands after rest
  unfolding read_u32 le_bytes
  read_u32-Stands h stands =
      let (after, e, behind) = array-Stands reader (le_bytes 4 value) rest stands in
      let same = le_value-le_bytes 4 value (omega arith) in (after, rw (e, same) refl, behind)

  pub read_f32-Stands :
      value < u32_limit
      → Stands reader (le_bytes 4 value ++ rest)
      → (after : MetadataReader) × (read_f32 reader ≡ ok (value, after)) × Stands after rest
  unfolding read_f32 le_bytes
  read_f32-Stands h stands =
      let (after, e, behind) = array-Stands reader (le_bytes 4 value) rest stands in
      let same = le_value-le_bytes 4 value (omega arith) in (after, rw (e, same) refl, behind)

  pub read_u64-Stands :
      value < u64_limit
      → Stands reader (le_bytes 8 value ++ rest)
      → (after : MetadataReader) × (read_u64 reader ≡ ok (value, after)) × Stands after rest
  unfolding read_u64 le_bytes
  read_u64-Stands h stands =
      let (after, e, behind) = array-Stands reader (le_bytes 8 value) rest stands in
      let same = le_value-le_bytes 8 value (omega arith) in (after, rw (e, same) refl, behind)

-- Where a counted run of bytes that was pushed is next, it is read back, and the reader stands behind
-- it.
pub read_bytes-Stands :
    (reader : MetadataReader) (bytes rest : List ℕ)
    → Stands reader (push_bytes [] bytes ++ rest)
    → (after : MetadataReader) × (read_bytes reader ≡ ok (bytes, after)) × Stands after rest
unfolding read_bytes push_bytes to_usize
read_bytes-Stands reader bytes rest stands =
    let split = append_assoc (le_bytes 8 (length bytes)) bytes rest in
    let size : length bytes < u64_limit = omega (
      arith,
      stands.small,
      length-append stands.before (le_bytes 8 (length bytes) ++ bytes ++ rest),
      length-append (le_bytes 8 (length bytes) ++ bytes) rest,
      length-append (le_bytes 8 (length bytes)) bytes,
    ) in
    let (after, counted, behind) =
      read_u64-Stands reader (length bytes) (bytes ++ rest) size
        (subst (Stands reader) split stands) in
    let (last, e, end) = array-Stands after bytes rest behind in
    let fits : ltb (length bytes) usize_limit ≡ true = ground arith in
    (last, rw (counted, fits, e) refl, end)

pub finish-Stands : (reader : MetadataReader) → Stands reader [] → finish reader ≡ ok tt
unfolding finish
finish-Stands reader stands =
    let all : (reader.position == length reader.bytes) ≡ true =
      (==_iff reader.position (length reader.bytes)).1
        (omega (arith, stands.at, ap length stands.whole, length-append stands.before [])) in
    rw all refl
