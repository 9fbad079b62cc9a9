-- ===== src/Search/Persistence/Structure.antt =====
-- The six sections of a saved engine, their typed views, and the check of their structure.
use Prim.Native.String.{String}
use yurine.Prelude.{
  ℕ, ◌+◌, ◌<◌, ◌≡◌, ==_iff, refl, sym, ap, List, [], ◌∷◌, some, true, length, ltb, arith, All, map,
}
use yurine.Errors.{ok, ok-injective}
use yurine.Types.{Posting, Symbol}
use yurine.Map.{get}
use yurine.Persistence.Bytes.{checked_add, u64_limit}
use yurine.Persistence.Format.{
  FileKind, SectionKind, SectionDescriptor, SectionData, PersistedFile, section_kind_eq,
  element_layout,
}
use yurine.Persistence.Format.Write.{data_element_count, data_byte_len, section_alignment}
use yurine.Persistence.Format.Ranges.{validate_offsets}
use yurine.Persistence.Format.Parse.{
  mapped_slice, section, u64_element, symbol_element, posting_element, contains_all,
  require_exact_sections, check_count, validate_engine, validate_structure, engine_sections,
}
use yurine.Persistence.Format.Fields.{IsU32, IsU64}
use yurine.Persistence.Format.Layout.{IsPlaced, AllPlaced}
use yurine.Persistence.Format.Entries.{Finds, under_kind}
use yurine.Persistence.Format.Elements.{
  PostingFits, mapped_slice-u64s, mapped_slice-symbols, mapped_slice-postings,
}

-- A section that is found and placed.
pub record Has (result : PersistedFile) (kind : SectionKind) (contents : SectionData) : Type 0 where
  pub descriptor : SectionDescriptor
  pub found : get result.sections kind ≡ some descriptor
  pub placed : IsPlaced result.mmap kind contents descriptor

-- The sections of a saved engine.
pub record HasEngine (result : PersistedFile) (token_offsets token_blob : List ℕ) (tokens : ℕ)
    (string_offsets : List ℕ) (symbols : List Symbol) (posting_offsets : List ℕ)
    (postings : List Posting) : Type 0 where
  pub six : length result.sections ≡ 6
  pub vocabulary : Has result SectionKind.vocabulary_token_offsets (SectionData.u64s token_offsets)
  pub blob : Has result SectionKind.vocabulary_token_blob (SectionData.bytes token_blob tokens)
  pub sequences : Has result SectionKind.sequence_offsets (SectionData.u64s string_offsets)
  pub corpus : Has result SectionKind.corpus_symbols (SectionData.symbols symbols)
  pub offsets : Has result SectionKind.posting_offsets (SectionData.u64s posting_offsets)
  pub entries : Has result SectionKind.postings (SectionData.posting_list postings)

-- What the file has under a list of sections that all are placed and found.
pub AllPlaced-HasEngine :
    (result : PersistedFile) (token_offsets token_blob : List ℕ) (tokens : ℕ)
    (string_offsets : List ℕ) (symbols : List Symbol) (posting_offsets : List ℕ)
    (postings : List Posting) (ds : List SectionDescriptor)
    → let sections : List (SectionKind × SectionData) =
        (SectionKind.vocabulary_token_offsets, SectionData.u64s token_offsets)
        ∷ (SectionKind.vocabulary_token_blob, SectionData.bytes token_blob tokens)
        ∷ (SectionKind.sequence_offsets, SectionData.u64s string_offsets)
        ∷ (SectionKind.corpus_symbols, SectionData.symbols symbols)
        ∷ (SectionKind.posting_offsets, SectionData.u64s posting_offsets)
        ∷ (SectionKind.postings, SectionData.posting_list postings)
        ∷ [] in
      result.sections ≡ map under_kind ds
      → AllPlaced result.mmap sections ds
      → Finds result.sections sections ds
      → HasEngine result token_offsets token_blob tokens string_offsets symbols posting_offsets
          postings
AllPlaced-HasEngine result to tb n so sy po ps [] same placed finds = absurd placed
AllPlaced-HasEngine result to tb n so sy po ps (a ∷ []) same placed finds = absurd placed.1
AllPlaced-HasEngine result to tb n so sy po ps (a ∷ b ∷ []) same placed finds = absurd placed.1.1
AllPlaced-HasEngine result to tb n so sy po ps (a ∷ b ∷ c ∷ []) same placed finds =
    absurd placed.1.1.1
AllPlaced-HasEngine result to tb n so sy po ps (a ∷ b ∷ c ∷ d ∷ []) same placed finds =
    absurd placed.1.1.1.1
AllPlaced-HasEngine result to tb n so sy po ps (a ∷ b ∷ c ∷ d ∷ e ∷ []) same placed finds =
    absurd placed.1.1.1.1.1
AllPlaced-HasEngine result to tb n so sy po ps (a ∷ b ∷ c ∷ d ∷ e ∷ f ∷ []) same placed finds =
    let (pa, (pb, (pc, (pd, (pe, (pf, none_left)))))) = placed in
    let (fa, (fb, (fc, (fd, (fe, (ff, all_found)))))) = finds in
    record {
      six = ap length same;
      vocabulary = record { descriptor = a; found = fa; placed = pa };
      blob = record { descriptor = b; found = fb; placed = pb };
      sequences = record { descriptor = c; found = fc; placed = pc };
      corpus = record { descriptor = d; found = fd; placed = pd };
      offsets = record { descriptor = e; found = fe; placed = pe };
      entries = record { descriptor = f; found = ff; placed = pf };
    }
AllPlaced-HasEngine result to tb n so sy po ps (a ∷ b ∷ c ∷ d ∷ e ∷ f ∷ g ∷ ds) same placed finds =
    absurd placed.1.1.1.1.1.1

-- What the values of an engine must be to be read back.
pub record EngineFits (token_offsets token_blob : List ℕ) (tokens : ℕ) (string_offsets : List ℕ)
    (symbols : List Symbol) (posting_offsets : List ℕ) (postings : List Posting) : Type 0 where
  pub token_widths : All IsU64 token_offsets
  pub string_widths : All IsU64 string_offsets
  pub symbol_widths : All IsU32 symbols
  pub offset_widths : All IsU64 posting_offsets
  pub posting_widths : All PostingFits postings
  pub in_blob : validate_offsets token_offsets (length token_blob) ≡ ok tt
  pub in_corpus : validate_offsets string_offsets (length symbols) ≡ ok tt
  pub in_postings : validate_offsets posting_offsets (length postings) ≡ ok tt
  pub few_tokens : tokens + 1 < u64_limit
  pub token_count : length token_offsets ≡ tokens + 1
  pub posting_count : length posting_offsets ≡ tokens + 1

counted :
    (offsets : List ℕ) (expected : ℕ) (problem : String)
    → length offsets ≡ expected
    → check_count offsets expected problem ≡ ok tt
unfolding check_count
counted offsets expected problem e =
    let same = (==_iff (length offsets) expected).1 e in rw same refl

module _ (result : PersistedFile) (is_engine : result.kind ≡ FileKind.search_engine)
    (small : length result.mmap < u64_limit) (token_offsets token_blob : List ℕ) (tokens : ℕ)
    (string_offsets : List ℕ) (symbols : List Symbol) (posting_offsets : List ℕ)
    (postings : List Posting)
    (has : HasEngine result token_offsets token_blob tokens string_offsets symbols posting_offsets
      postings)
    (fits : EngineFits token_offsets token_blob tokens string_offsets symbols posting_offsets
      postings) where
  pub token_view :
      mapped_slice u64_element result SectionKind.vocabulary_token_offsets ≡ ok token_offsets
  unfolding section_alignment element_layout
  token_view =
      mapped_slice-u64s result small SectionKind.vocabulary_token_offsets has.vocabulary.descriptor
        has.vocabulary.found token_offsets has.vocabulary.placed refl fits.token_widths

  pub sequence_view :
      mapped_slice u64_element result SectionKind.sequence_offsets ≡ ok string_offsets
  unfolding section_alignment element_layout
  sequence_view =
      mapped_slice-u64s result small SectionKind.sequence_offsets has.sequences.descriptor
        has.sequences.found string_offsets has.sequences.placed refl fits.string_widths

  pub offset_view : mapped_slice u64_element result SectionKind.posting_offsets ≡ ok posting_offsets
  unfolding section_alignment element_layout
  offset_view =
      mapped_slice-u64s result small SectionKind.posting_offsets has.offsets.descriptor
        has.offsets.found posting_offsets has.offsets.placed refl fits.offset_widths

  pub corpus_view : mapped_slice symbol_element result SectionKind.corpus_symbols ≡ ok symbols
  unfolding section_alignment element_layout
  corpus_view =
      mapped_slice-symbols result small SectionKind.corpus_symbols has.corpus.descriptor
        has.corpus.found symbols has.corpus.placed refl fits.symbol_widths

  pub posting_view : mapped_slice posting_element result SectionKind.postings ≡ ok postings
  unfolding section_alignment element_layout
  posting_view =
      mapped_slice-postings result small SectionKind.postings has.entries.descriptor
        has.entries.found postings has.entries.placed refl fits.posting_widths

  found_section :
      (kind : SectionKind) (contents : SectionData) (h : Has result kind contents)
      → section result kind ≡ ok h.descriptor
  unfolding section
  found_section kind contents h = rw h.found refl

  all_there : contains_all result engine_sections ≡ true
  unfolding contains_all
  all_there =
      rw
        (
          contains_all, has.vocabulary.found, has.blob.found, has.sequences.found, has.corpus.found,
          has.offsets.found, has.entries.found,
        )
        refl

  exact : require_exact_sections result engine_sections ≡ ok tt
  unfolding require_exact_sections
  exact = rw (has.six, all_there) refl

  blob_len : has.blob.descriptor.byte_len ≡ length token_blob
  unfolding data_byte_len
  blob_len = ok-injective (sym has.blob.placed.measured)

  blob_count : has.blob.descriptor.element_count ≡ tokens
  unfolding data_element_count
  blob_count = ok-injective (sym has.blob.placed.counted)

  corpus_count : has.corpus.descriptor.element_count ≡ length symbols
  unfolding data_element_count
  corpus_count = ok-injective (sym has.corpus.placed.counted)

  posting_count : has.entries.descriptor.element_count ≡ length postings
  unfolding data_element_count
  posting_count = ok-injective (sym has.entries.placed.counted)

  validate_engine-ok : validate_engine result ≡ ok tt
  unfolding validate_engine checked_add
  validate_engine-ok =
      let room : ltb (tokens + 1) u64_limit ≡ true = let few = fits.few_tokens in ground arith in
      let blob_found = found_section _ _ has.blob in
      let corpus_found = found_section _ _ has.corpus in
      let postings_found = found_section _ _ has.entries in
      rw
        (
          exact,
          token_view,
          blob_found,
          sequence_view,
          corpus_found,
          offset_view,
          postings_found,
          blob_len,
          corpus_count,
          posting_count,
          blob_count,
          fits.in_blob,
          fits.in_corpus,
          fits.in_postings,
          room,
          counted token_offsets (tokens + 1) "vocabulary offset count does not match token count"
              fits.token_count,
          counted posting_offsets (tokens + 1) "posting offset count does not match vocabulary"
              fits.posting_count,
        )
        refl

  pub validate_structure-engine : validate_structure result ≡ ok tt
  unfolding validate_structure
  validate_structure-engine = simp (validate_structure, is_engine, validate_engine-ok)
