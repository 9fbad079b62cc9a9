-- ===== src/Costs/Persistence/Cosine.antt =====
-- src/costs/embedding/costs_persistence.rs: the constants of cosine costs in a file.
use yurine.Prelude.{
  ℕ, ◌<◌, ◌≡◌, refl, sym, ◌∙◌, subst, List, [], ◌∷◌, ◌++◌, length, arith, not, ◌==◌, if◌then◌else◌,
  true,
}
use mathlib.Core.List.{append-nil}
use yurine.Errors.{Error, Result, ok, err, ◌>>=◌}
use yurine.Float.{infinity}
use yurine.Costs.{cost_new}
use yurine.Costs.Laws.{cost_new_of_lt}
use yurine.Costs.Embedding.{EmbeddingStore, CosineEmbeddingCosts}
use yurine.Persistence.Bytes.{le_bytes, u64_limit}
use yurine.Persistence.Utf8.{is_utf8}
use yurine.Persistence.Format.{FileKind, SectionKind, PersistedFile}
use yurine.Persistence.Format.Write.{write_file}
use yurine.Persistence.Format.Parse.{bytes, validate_structure, require_exact_sections}
use yurine.Persistence.Format.Open.{open_file}
use yurine.Costs.Persistence.{
  MetadataReader, no_token_id, new, read_u32, read_f32, finish, metadata_sections,
}
use yurine.Costs.Persistence.Reading.{
  Stands, new-Stands, read_u32-Stands, read_f32-Stands, finish-Stands,
}
use yurine.Costs.Persistence.MetadataFile.{metadata_file}

abbrev pub metadata_version : ℕ
metadata_version = 1

cosine_structure :
    (file : PersistedFile)
    → file.kind ≡ FileKind.cosine_embedding_costs
    → validate_structure file ≡ require_exact_sections file (SectionKind.cost_metadata ∷ [])
unfolding validate_structure
cosine_structure file e = simp (validate_structure, e)

no_token_utf8 : is_utf8 no_token_id ≡ true
unfolding is_utf8
no_token_utf8 = refl

module _ {ℓ} {T : Type ℓ} where
  unfoldable pub cosine_metadata : CosineEmbeddingCosts T → List ℕ
  unfolding le_bytes
  cosine_metadata c =
      le_bytes 4 metadata_version
      ++ (le_bytes 4 c.deletion ++ (le_bytes 4 c.insertion ++ le_bytes 4 c.missing_substitution))

  unfoldable pub save : CosineEmbeddingCosts T → Result (List ℕ)
  unfolding write_file cosine_metadata
  save c =
      write_file FileKind.cosine_embedding_costs no_token_id 1
        (metadata_sections (cosine_metadata c))

  unfoldable pub read_constants :
      MetadataReader → EmbeddingStore T → Result (CosineEmbeddingCosts T)
  unfolding read_u32 read_f32 finish cost_new
  read_constants reader embeddings = do
    (version, at_deletion) ← read_u32 reader
    if not (version == metadata_version)
        then err (Error.invalid_file "unsupported cosine-cost metadata version")
        else do
          (deletion_bits, at_insertion) ← read_f32 at_deletion
          deletion ← cost_new deletion_bits
          (insertion_bits, at_missing) ← read_f32 at_insertion
          insertion ← cost_new insertion_bits
          (missing_bits, at_end) ← read_f32 at_missing
          missing_substitution ← cost_new missing_bits
          finished ← finish at_end
          ok (record {
            embeddings = embeddings;
            deletion = deletion;
            insertion = insertion;
            missing_substitution = missing_substitution;
          })

  unfoldable pub open_costs : List ℕ → EmbeddingStore T → Result (CosineEmbeddingCosts T)
  unfolding open_file bytes new read_constants
  open_costs path embeddings = do
    file ← open_file path FileKind.cosine_embedding_costs no_token_id 1
    metadata ← bytes file SectionKind.cost_metadata
    read_constants (new metadata) embeddings

  read_constants-eq :
      (c : CosineEmbeddingCosts T) (r0 r1 r2 r3 r4 : MetadataReader)
      → read_u32 r0 ≡ ok (1, r1)
      → read_f32 r1 ≡ ok (c.deletion, r2)
      → read_f32 r2 ≡ ok (c.insertion, r3)
      → read_f32 r3 ≡ ok (c.missing_substitution, r4)
      → finish r4 ≡ ok tt
      → cost_new c.deletion ≡ ok c.deletion
      → cost_new c.insertion ≡ ok c.insertion
      → cost_new c.missing_substitution ≡ ok c.missing_substitution
      → read_constants r0 c.embeddings ≡ ok c
  unfolding read_constants
  read_constants-eq c r0 r1 r2 r3 r4 e1 e2 e3 e4 e5 nd ni nm =
      rw (e1, e2, nd, e3, ni, e4, nm, e5) refl

  open_costs-at :
      (path metadata : List ℕ) (embeddings : EmbeddingStore T) (file : PersistedFile)
      → open_file path FileKind.cosine_embedding_costs no_token_id 1 ≡ ok file
      → bytes file SectionKind.cost_metadata ≡ ok metadata
      → open_costs path embeddings ≡ read_constants (new metadata) embeddings
  unfolding open_costs
  open_costs-at path metadata embeddings file opened found = rw (opened, found) refl

  length-cosine_metadata : (c : CosineEmbeddingCosts T) → length (cosine_metadata c) ≡ 16
  unfolding cosine_metadata
  length-cosine_metadata c = refl

  -- Saving returns, and opening the file with the same store gives the same costs, where each constant
  -- is a finite cost.
  pub open_costs-save :
      (c : CosineEmbeddingCosts T)
      → c.deletion < infinity
      → c.insertion < infinity
      → c.missing_substitution < infinity
      → (file : List ℕ) × (save c ≡ ok file) × (open_costs file c.embeddings ≡ ok c)
  unfolding save cosine_metadata
  open_costs-save c hd hi hm =
      let small : length (cosine_metadata c) < u64_limit =
        omega (arith, length-cosine_metadata c) in
      let (file, written, (result, opened, found)) =
        metadata_file FileKind.cosine_embedding_costs no_token_id 1 (cosine_metadata c)
          cosine_structure no_token_utf8 (omega arith) (omega arith)
          (omega (arith, length-cosine_metadata c)) in
      let last = le_bytes 4 c.missing_substitution in
      let reader = new (cosine_metadata c) in
      let (r1, e1, s1) =
        read_u32-Stands reader metadata_version
          (le_bytes 4 c.deletion ++ (le_bytes 4 c.insertion ++ last)) (omega arith)
          (new-Stands (cosine_metadata c) small) in
      let (r2, e2, s2) =
        read_f32-Stands r1 c.deletion (le_bytes 4 c.insertion ++ last) (omega arith) s1 in
      let (r3, e3, s3) = read_f32-Stands r2 c.insertion last (omega arith) s2 in
      let (r4, e4, s4) =
        read_f32-Stands r3 c.missing_substitution [] (omega arith)
          (subst (Stands r3) (sym (append-nil last)) s3) in
      let new_deletion = cost_new_of_lt c.deletion hd in
      let new_insertion = cost_new_of_lt c.insertion hi in
      let new_missing = cost_new_of_lt c.missing_substitution hm in
      (
        file,
        written,
        open_costs-at file (cosine_metadata c) c.embeddings result opened found
            ∙ read_constants-eq c reader r1 r2 r3 r4 e1 e2 e3 e4 (finish-Stands r4 s4) new_deletion
                new_insertion new_missing,
      )
