-- ===== src/Costs/Persistence.antt =====
-- src/costs/persistence.rs, src/costs/levenshtein/persistence.rs: what the saved costs share, and the
-- unit costs' file.
pub mod Reading
pub mod MetadataFile
pub mod Cosine
use yurine.Prelude.{ℕ, ◌+◌, ◌-◌, List, [], ◌∷◌, ◌++◌, length, ◌==◌, if◌then◌else◌, Eq}
use yurine.Errors.{Error, Result, ok, err, ◌>>=◌, ok_or}
use yurine.Costs.{EditCosts}
use yurine.Costs.Levenshtein.{levenshtein_costs}
use yurine.Persistence.Bytes.{le_bytes, le_value, checked_add, to_usize, get_range}
use yurine.Persistence.Codec.{TokenCodec}
use yurine.Persistence.Format.{FileKind, SectionKind, SectionData}
use yurine.Persistence.Format.Write.{write_file}
use yurine.Persistence.Format.Open.{open_file}

-- "yurine:none"
abbrev pub no_token_id : List ℕ
no_token_id = 121 ∷ 117 ∷ 114 ∷ 105 ∷ 110 ∷ 101 ∷ 58 ∷ 110 ∷ 111 ∷ 110 ∷ 101 ∷ []

-- `NoTokenCodec`
abbrev pub no_token_codec : TokenCodec (Unit {0})
no_token_codec = record {
  id = no_token_id;
  version = 1;
  encode =
      λ token output. err (Error.invalid_token_encoding "this file kind does not contain tokens");
  decode = λ bytes. err (Error.invalid_token_encoding "this file kind does not contain tokens");
}

pub record MetadataReader : Type 0 where
  pub bytes : List ℕ
  pub position : ℕ

unfoldable pub new : List ℕ → MetadataReader
new bytes = record { bytes = bytes; position = 0 }

-- The next bytes, so many.
unfoldable pub array : ℕ → MetadataReader → Result (List ℕ × MetadataReader)
unfolding checked_add get_range
array len reader = do
  end ← ok_or (checked_add reader.position len) (Error.invalid_file "metadata range overflows")
  value ←
      ok_or (get_range reader.bytes reader.position end)
        (Error.invalid_file "cost metadata is truncated")
  ok (value, record reader { position = end })

unfoldable pub read_u32 : MetadataReader → Result (ℕ × MetadataReader)
unfolding array le_value
read_u32 reader = array 4 reader >>= λ (value, after). ok (le_value value, after)

unfoldable pub read_u64 : MetadataReader → Result (ℕ × MetadataReader)
unfolding array le_value
read_u64 reader = array 8 reader >>= λ (value, after). ok (le_value value, after)

-- The bit pattern of the value.
unfoldable pub read_f32 : MetadataReader → Result (ℕ × MetadataReader)
unfolding array le_value
read_f32 reader = array 4 reader >>= λ (value, after). ok (le_value value, after)

unfoldable pub read_bytes : MetadataReader → Result (List ℕ × MetadataReader)
unfolding read_u64 to_usize array
read_bytes reader = do
  (raw, after) ← read_u64 reader
  len ← ok_or (to_usize raw) Error.platform_size_overflow
  array len after

unfoldable pub remaining : MetadataReader → ℕ
remaining reader = length reader.bytes - reader.position

unfoldable pub finish : MetadataReader → Result (Unit {0})
finish reader =
    if reader.position == length reader.bytes
    then ok tt
    else err (Error.invalid_file "cost metadata has trailing bytes")

unfoldable pub push_bytes : List ℕ → List ℕ → List ℕ
unfolding le_bytes
push_bytes output bytes = output ++ (le_bytes 8 (length bytes) ++ bytes)

-- `LevenshteinCosts::save`
unfoldable pub save : Result (List ℕ)
unfolding write_file
save = write_file FileKind.levenshtein_costs no_token_id 1 []

-- `LevenshteinCosts::open`
unfoldable pub open_costs {ℓ} : {T : Type ℓ} → ⦃eq : Eq T⦄ → List ℕ → Result (EditCosts T)
unfolding open_file levenshtein_costs
open_costs path =
    open_file path FileKind.levenshtein_costs no_token_id 1 >>= λ file. ok levenshtein_costs

-- The one section of the files that have only metadata.
abbrev pub metadata_sections : List ℕ → List (SectionKind × SectionData)
metadata_sections metadata = (SectionKind.cost_metadata, SectionData.bytes metadata 1) ∷ []
