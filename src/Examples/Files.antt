-- ===== src/Examples/Files.antt =====
-- The theorems on saved files, at a file of custom costs with three bytes of metadata and at the
-- small engine with the codec of characters.
use mathlib.Core.List.{foldr}
use mathlib.Core.Option.{some-injective}
use yurine.Prelude.{
  zero, suc, ◌-◌, ◌*◌, ◌/◌, min, some, ltb, ◌==◌, Bool, Option, none, subst, get_elem?, ℕ, ◌+◌, ◌≡◌,
  ◌≤◌, ◌<◌, ◌↔◌, refl, List, [], ◌∷◌, ◌++◌, nat_eq, arith, inl, true, sym,
}
use yurine.Errors.{ok, ok-injective}
use yurine.Storage.{as_slice}
use yurine.Search.Engine.{verify}
use yurine.Persistence.Bytes.{u64_limit, le_value}
use yurine.Persistence.Utf8.{is_utf8}
use yurine.Persistence.Codec.{char_codec, char_decode, is_scalar, char_decode_iff}
use yurine.Persistence.Format.{
  FileKind, SectionKind, SectionDescriptor, SectionData, DiskHeader, PersistedFile, element_layout,
  section_kind_raw, file_kind_raw,
}
use yurine.Persistence.Format.Write.{
  header_of, header_as_bytes, write_file, data_byte_len, data_element_count, write_to,
}
use yurine.Persistence.Format.Ranges.{all_regions, validate_non_overlapping, validate_offsets}
use yurine.Persistence.Format.Parse.{header_fields}
use yurine.Persistence.Format.Open.{parse, open_file}
use yurine.Persistence.Format.Fields.{HeaderFits, header_fields-header_as_bytes}
use yurine.Persistence.Format.Disjoint.{holders, validate_non_overlapping-IsDisjoint}
use yurine.Persistence.Format.Offsets.{validate_offsets-IsSliceable}
use yurine.Persistence.Format.Written.{IsStorable}
use yurine.Persistence.Format.RoundTrip.{IsStored}
use yurine.Persistence.Format.Room.{HasRoom, write_file-stores}
use yurine.Persistence.Format.Sound.{open_file-parse, IsSound, parse-IsSound}
use yurine.Search.Persistence.{save_with, open_with, encode_tokens}
use yurine.Search.Persistence.Savable.{IsCodec, IsSavable, mapped_engine, payload_room}
use yurine.Search.Persistence.Reopen.{open_with-save_with}
use yurine.Storage.{mapped}
use yurine.Costs.Embedding.{Vectors, EmbeddingStore, CosineEmbeddingCosts, lookup}
use yurine.Costs.Embedding.Cache.{IsCached, plain_lookup, lookup-IsCached}
use yurine.Costs.Persistence.Cosine.{save, open_costs, open_costs-save}
use yurine.Costs.Persistence.{MetadataReader, push_bytes, read_bytes}
use yurine.Costs.Persistence.Reading.{Stands, read_bytes-Stands}
use yurine.Search.Builder.Saving.{build-IsSavable}
use yurine.Examples.{engine, builder, engine-built}

abbrev short_id : List ℕ
short_id = 105 ∷ 100 ∷ []

abbrev cost_file : List ℕ
cost_file =
    89 ∷ 85 ∷ 82 ∷ 73 ∷ 78 ∷ 69 ∷ 0 ∷ 0 ∷ 1 ∷ 0 ∷ 0 ∷ 0 ∷ 4 ∷ 3 ∷ 2 ∷ 1 ∷ 4 ∷ 0 ∷ 0 ∷ 0 ∷ 64 ∷ 0 ∷ 0
    ∷ 0 ∷ 1 ∷ 0 ∷ 0 ∷ 0 ∷ 1 ∷ 0 ∷ 0 ∷ 0 ∷ 64 ∷ 0 ∷ 0 ∷ 0 ∷ 0 ∷ 0 ∷ 0 ∷ 0 ∷ 2 ∷ 0 ∷ 0 ∷ 0 ∷ 0 ∷ 0 ∷ 0
    ∷ 0 ∷ 72 ∷ 0 ∷ 0 ∷ 0 ∷ 0 ∷ 0 ∷ 0 ∷ 0 ∷ 107 ∷ 0 ∷ 0 ∷ 0 ∷ 0 ∷ 0 ∷ 0 ∷ 0 ∷ 105 ∷ 100 ∷ 0 ∷ 0 ∷ 0
    ∷ 0 ∷ 0 ∷ 0 ∷ 10 ∷ 0 ∷ 0 ∷ 0 ∷ 0 ∷ 0 ∷ 0 ∷ 0 ∷ 104 ∷ 0 ∷ 0 ∷ 0 ∷ 0 ∷ 0 ∷ 0 ∷ 0 ∷ 3 ∷ 0 ∷ 0 ∷ 0
    ∷ 0 ∷ 0 ∷ 0 ∷ 0 ∷ 1 ∷ 0 ∷ 0 ∷ 0 ∷ 0 ∷ 0 ∷ 0 ∷ 0 ∷ 7 ∷ 8 ∷ 9 ∷ []

abbrev cost_sections : List (SectionKind × SectionData)
cost_sections = (SectionKind.cost_metadata, SectionData.bytes (7 ∷ 8 ∷ 9 ∷ []) 1) ∷ []

abbrev metadata : SectionDescriptor
metadata = record {
  kind = SectionKind.cost_metadata;
  offset = 104;
  byte_len = 3;
  element_count = 1;
}

abbrev opened : PersistedFile
opened = record {
  mmap = cost_file;
  kind = FileKind.custom_costs;
  sections = (SectionKind.cost_metadata, metadata) ∷ [];
}

cost_file-written : write_file FileKind.custom_costs short_id 1 cost_sections ≡ ok cost_file
unfolding write_file file_kind_raw section_kind_raw
cost_file-written = refl

cost_file-parsed : parse cost_file FileKind.custom_costs short_id 1 ≡ ok opened
unfolding parse le_value file_kind_raw section_kind_raw
cost_file-parsed = refl

parse-IsSound_example : IsSound cost_file FileKind.custom_costs short_id 1 opened
parse-IsSound_example =
    parse-IsSound cost_file FileKind.custom_costs short_id 1 opened cost_file-parsed

open_file-parse_example :
    open_file cost_file FileKind.search_engine short_id 1
    ≡ parse cost_file FileKind.search_engine short_id 1
open_file-parse_example = open_file-parse cost_file FileKind.search_engine short_id 1

cost_sections-IsStorable : IsStorable short_id 1 cost_sections
unfolding is_utf8 element_layout
cost_sections-IsStorable = record {
  utf8 = refl;
  version_fits = omega arith;
  few = omega arith;
  typed = (inl refl, tt);
  fits = (omega arith, tt);
  distinct = (tt, tt);
}

cost_sections-HasRoom : HasRoom cost_sections 11
unfolding data_byte_len data_element_count write_to
cost_sections-HasRoom = (3, 1, 7 ∷ 8 ∷ 9 ∷ [], refl, refl, refl, omega arith, tt)

write_file-stores_example :
    (file : List ℕ) × (write_file FileKind.custom_costs short_id 1 cost_sections ≡ ok file)
    × ((result : PersistedFile) × IsStored file FileKind.custom_costs short_id 1 cost_sections
          result)
write_file-stores_example =
    write_file-stores FileKind.custom_costs short_id 1 11 cost_sections cost_sections-IsStorable
      (omega arith) (omega arith) cost_sections-HasRoom

regions-checked : validate_non_overlapping 64 2 72 32 (metadata ∷ []) ≡ ok tt
unfolding validate_non_overlapping
regions-checked = refl

validate_non_overlapping-IsDisjoint_example :
    holders 105 (all_regions 64 2 72 32 (metadata ∷ [])) ≤ 1
validate_non_overlapping-IsDisjoint_example =
    validate_non_overlapping-IsDisjoint 64 2 72 32 (metadata ∷ []) regions-checked 105

offsets-checked : validate_offsets (0 ∷ 3 ∷ 4 ∷ 5 ∷ []) 5 ≡ ok tt
unfolding validate_offsets
offsets-checked = refl

validate_offsets-IsSliceable_example : (3 ≤ 4) × (4 ≤ 5)
validate_offsets-IsSliceable_example =
    validate_offsets-IsSliceable (0 ∷ 3 ∷ 4 ∷ 5 ∷ []) 5 1 3 4 offsets-checked refl refl

char_decode_iff_example :
    (char_decode (0x71 ∷ 0x67 ∷ 0 ∷ 0 ∷ []) ≡ ok 0x6771)
    ↔ ((is_scalar 0x6771 ≡ true) × (char_codec.encode 0x6771 [] ≡ ok (0x71 ∷ 0x67 ∷ 0 ∷ 0 ∷ [])))
char_decode_iff_example =
    char_decode_iff (0x71 ∷ 0x67 ∷ 0 ∷ 0 ∷ []) 0x6771
      (omega arith, (omega arith, (omega arith, (omega arith, tt))))

abbrev cost_header : DiskHeader
cost_header = header_of FileKind.custom_costs short_id 1 1 72 107

cost_header-Fits : HeaderFits cost_header
unfolding HeaderFits file_kind_raw
cost_header-Fits = (
  refl,
  omega arith,
  omega arith,
  omega arith,
  omega arith,
  omega arith,
  omega arith,
  omega arith,
  omega arith,
  omega arith,
  omega arith,
)

header_fields-header_as_bytes_example :
    header_fields (header_as_bytes cost_header ++ short_id) ≡ cost_header
header_fields-header_as_bytes_example =
    header_fields-header_as_bytes cost_header short_id cost_header-Fits

abbrev pub token_offsets : List ℕ
token_offsets = 0 ∷ 4 ∷ 8 ∷ 12 ∷ []

abbrev pub token_blob : List ℕ
token_blob = 7 ∷ 0 ∷ 0 ∷ 0 ∷ 5 ∷ 0 ∷ 0 ∷ 0 ∷ 9 ∷ 0 ∷ 0 ∷ 0 ∷ []

pub char_codec-IsCodec : IsCodec char_codec
unfolding char_codec is_utf8
char_codec-IsCodec = record {
  utf8 = refl;
  short_id = omega arith;
  version_fits = omega arith;
  appends = λ token output result e. (_, ok-injective (sym e));
}

engine-verified : verify engine ≡ ok tt
unfolding verify
engine-verified = refl

pub tokens-encoded :
    encode_tokens char_codec (7 ∷ 5 ∷ 9 ∷ []) (0 ∷ []) [] ≡ ok (token_offsets, token_blob)
unfolding encode_tokens char_codec
tokens-encoded = refl

pub engine-room : 704 + payload_room engine token_offsets token_blob < u64_limit
unfolding payload_room as_slice
engine-room = omega arith

open_with-save_with_example :
    (file : List ℕ) × (save_with char_codec engine ≡ ok file)
    × (open_with char_codec file ≡ ok (mapped_engine engine))
open_with-save_with_example =
    open_with-save_with char_codec engine token_offsets token_blob char_codec-IsCodec
      (build-IsSavable builder engine engine-built) engine-verified tokens-encoded engine-room

-- Integers in place of floating-point numbers: of norm one are the rows of one 1 and zeros.
abbrev integers : Vectors
integers = record {
  F64 = ℕ;
  of_f32 = λ n. n;
  to_f32 = λ n. n;
  square = λ n. n * n;
  sqrt = λ n. n;
  abs = λ n. n;
  total = foldr (λ a b. a + b) 0;
  quotient = λ a b. a / b;
  difference = λ a b. a - b;
  gt = λ a b. ltb b a;
  is_zero = λ n. n == 0;
  unit_norm = 1;
  tolerance = 0;
  add = λ a b. a + b;
  sub = λ a b. a - b;
  mul = λ a b. a * b;
  sum = foldr (λ a b. a + b) 0;
  clamp = λ n. min n 1;
}

abbrev store : EmbeddingStore ℕ
store = record {
  dimension = 2;
  embedding_indices = (7, 0) ∷ [];
  embeddings = mapped (0 ∷ 1 ∷ []);
  validated_rows = some (none ∷ []);
}

unknown_cell :
    (rows : List (Option Bool)) (index : ℕ) (known : Bool)
    → none ∷ [] ≡ rows
    → get_elem? rows index ≡ some (some known)
    → ⊥
unknown_cell rows index known e cell =
    let here : get_elem? (none ∷ []) index ≡ some (some known) =
      subst (λ r. get_elem? r index ≡ some (some known)) (sym e) cell in
    no_cell index known here
  where
    no_cell : (i : ℕ) (b : Bool) → get_elem? {A = Option Bool} (none ∷ []) i ≡ some (some b) → ⊥
    no_cell zero b h = cc
    no_cell (suc i) b h = cc

store-IsCached : IsCached integers store
unfolding IsCached
store-IsCached rows index known row e cell at =
    absurd (unknown_cell rows index known (some-injective _ _ e) cell)

lookup-IsCached_example :
    ((lookup integers store 7).0 ≡ plain_lookup integers store 7)
    × IsCached integers (lookup integers store 7).1
lookup-IsCached_example = lookup-IsCached integers store 7 store-IsCached

abbrev cosine : CosineEmbeddingCosts ℕ
cosine = record { embeddings = store; deletion = 3; insertion = 4; missing_substitution = 5 }

open_costs-save_example :
    (file : List ℕ) × (save cosine ≡ ok file) × (open_costs file cosine.embeddings ≡ ok cosine)
open_costs-save_example = open_costs-save cosine (omega arith) (omega arith) (omega arith)

abbrev counted_bytes : List ℕ
counted_bytes = 2 ∷ 0 ∷ 0 ∷ 0 ∷ 0 ∷ 0 ∷ 0 ∷ 0 ∷ 105 ∷ 100 ∷ 9 ∷ []

reader-Stands :
    Stands (record { bytes = counted_bytes; position = 0 }) (push_bytes [] short_id ++ 9 ∷ [])
unfolding push_bytes
reader-Stands = record { before = []; at = refl; whole = refl; small = omega arith }

read_bytes-Stands_example :
    (after : MetadataReader) × (read_bytes (record { bytes = counted_bytes; position = 0 })
      ≡ ok (short_id, after))
    × Stands after (9 ∷ [])
read_bytes-Stands_example =
    read_bytes-Stands (record { bytes = counted_bytes; position = 0 }) short_id (9 ∷ [])
      reader-Stands

build-IsSavable_example : IsSavable engine
build-IsSavable_example = build-IsSavable builder engine engine-built
