-- ===== src/Persistence/Bytes.antt =====
-- What the persistence modules use of the standard library: little-endian numbers of a fixed width,
-- and arithmetic of u64 and usize that is checked.
use yurine.Prelude.{
  ℕ, zero, suc, ◌+◌, ◌-◌, ◌*◌, ◌/◌, ◌%◌, ◌^◌, ◌<◌, ◌≡◌, refl, ap, arith, Option, none, some, List,
  [], ◌∷◌, ◌++◌, Bool, true, false, ◌&&◌, ltb, leb, ◌==◌, ==_iff, if◌then◌else◌, length, take, drop,
  All, take_of_length, drop_of_length, ◌↔◌,
}
use yurine.Types.{usize_limit}

-- The bytes of a number, the lowest first: `to_le_bytes`.
unfoldable pub le_bytes : ℕ → ℕ → List ℕ
le_bytes zero value = []
le_bytes (suc width) value = value % 256 ∷ le_bytes width (value / 256)

-- `from_le_bytes`
unfoldable pub le_value : List ℕ → ℕ
le_value [] = 0
le_value (byte ∷ bytes) = byte + 256 * le_value bytes

abbrev pub u64_limit : ℕ
u64_limit = 0x1_0000_0000_0000_0000

abbrev pub u32_limit : ℕ
u32_limit = 0x1_0000_0000

unfoldable pub checked_add : ℕ → ℕ → Option ℕ
checked_add a b = if ltb (a + b) u64_limit then some (a + b) else none

unfoldable pub checked_mul : ℕ → ℕ → Option ℕ
checked_mul a b = if ltb (a * b) u64_limit then some (a * b) else none

-- `usize::try_from`
unfoldable pub to_usize : ℕ → Option ℕ
to_usize value = if ltb value usize_limit then some value else none

-- `&bytes[start..end]` by `get`
unfoldable pub get_range {ℓ} : {A : Type ℓ} → List A → ℕ → ℕ → Option (List A)
get_range bytes start end =
    if leb start end && leb end (length bytes)
    then some (take (end - start) (drop start bytes))
    else none

abbrev pub bytes_eq : List ℕ → List ℕ → Bool
bytes_eq [] [] = true
bytes_eq [] (b ∷ bs) = false
bytes_eq (a ∷ as') [] = false
bytes_eq (a ∷ as') (b ∷ bs) = a == b && bytes_eq as' bs

pub bytes_eq_iff : (a b : List ℕ) → (bytes_eq a b ≡ true) ↔ (a ≡ b)
bytes_eq_iff [] [] = ground arith
bytes_eq_iff [] (b ∷ bs) = (λ e. cc, λ e. cc)
bytes_eq_iff (a ∷ as') [] = (λ e. cc, λ e. cc)
bytes_eq_iff (a ∷ as') (b ∷ bs) = ground (arith, bytes_eq_iff as' bs, ==_iff a b)

abbrev pub IsByte : ℕ → Type 0
IsByte b = b < 256

pub length-le_bytes : (width value : ℕ) → length (le_bytes width value) ≡ width
unfolding le_bytes
length-le_bytes zero value = refl
length-le_bytes (suc width) value = ap suc (length-le_bytes width (value / 256))

pub le_bytes-IsByte : (width value : ℕ) → All IsByte (le_bytes width value)
unfolding le_bytes
le_bytes-IsByte zero value = ground arith
le_bytes-IsByte (suc width) value = (omega arith, le_bytes-IsByte width (value / 256))

-- A number below 256 ^ width is read back from its bytes.
pub le_value-le_bytes :
    (width value : ℕ) → value < 256 ^ width → le_value (le_bytes width value) ≡ value
unfolding le_bytes le_value
le_value-le_bytes zero value h = omega arith
le_value-le_bytes (suc width) value h =
    omega (arith, le_value-le_bytes width (value / 256) (omega arith))

pub take-le_bytes :
    (width value : ℕ) (rest : List ℕ)
    → take width (le_bytes width value ++ rest) ≡ le_bytes width value
take-le_bytes width value rest = take_of_length _ rest width (length-le_bytes width value)

pub drop-le_bytes :
    (width value : ℕ) (rest : List ℕ) → drop width (le_bytes width value ++ rest) ≡ rest
drop-le_bytes width value rest = drop_of_length _ rest width (length-le_bytes width value)

-- A field at the head of what is read.
unfoldable pub le_field : ℕ → List ℕ → ℕ
le_field width bytes = le_value (take width bytes)

pub le_field-le_bytes :
    (width value : ℕ) (rest : List ℕ)
    → value < 256 ^ width
    → le_field width (le_bytes width value ++ rest) ≡ value
unfolding le_field
le_field-le_bytes width value rest h =
    rw (take-le_bytes width value rest) (le_value-le_bytes width value h)
