-- ===== src/Costs/Persistence/MetadataFile.antt =====
-- A file with one section of metadata is written, accepted and read back.
use yurine.Prelude.{
  ℕ, ◌+◌, ◌≤◌, ◌<◌, ◌≡◌, refl, ap, ◌∙◌, List, [], ◌∷◌, length, arith, inl, true, map,
}
use yurine.Errors.{ok, ◌>>=◌}
use yurine.Persistence.Bytes.{u32_limit, u64_limit}
use yurine.Persistence.Utf8.{is_utf8}
use yurine.Persistence.Format.{
  FileKind, SectionKind, SectionDescriptor, PersistedFile, element_layout, section_kind_eq,
}
use yurine.Persistence.Format.Write.{write_file, write_to, data_byte_len, data_element_count}
use yurine.Persistence.Format.Parse.{
  bytes, require_exact_sections, contains_all, validate_structure,
}
use yurine.Persistence.Format.Open.{open_file}
use yurine.Persistence.Format.Layout.{AllPlaced}
use yurine.Persistence.Format.Entries.{Finds, under_kind}
use yurine.Persistence.Format.Written.{IsStorable}
use yurine.Persistence.Format.Room.{HasRoom, write_file-stores}
use yurine.Persistence.Format.Sound.{open_file-parse}
use yurine.Costs.Persistence.{metadata_sections}

exact :
    (file : List ℕ) (result : PersistedFile) (metadata : List ℕ) (ds : List SectionDescriptor)
    → result.sections ≡ map under_kind ds
    → AllPlaced file (metadata_sections metadata) ds
    → Finds result.sections (metadata_sections metadata) ds
    → require_exact_sections result (SectionKind.cost_metadata ∷ []) ≡ ok tt
unfolding require_exact_sections contains_all
exact file result metadata [] table placed finds = absurd placed
exact file result metadata (d ∷ []) table placed (found, finds) =
    let one : length result.sections ≡ 1 = ap length table in rw (one, contains_all, found) refl
exact file result metadata (d ∷ e ∷ ds) table placed finds = absurd placed.1

module _ (kind : FileKind) (codec_id : List ℕ) (version : ℕ) (metadata : List ℕ)
    (structure : (file : PersistedFile)
      → file.kind ≡ kind
      → validate_structure file ≡ require_exact_sections file (SectionKind.cost_metadata ∷ []))
    (utf8 : is_utf8 codec_id ≡ true) (short : length codec_id ≤ 255)
    (version_fits : version < u32_limit) (room : 1024 + length metadata < u64_limit) where
  storable : IsStorable codec_id version (metadata_sections metadata)
  unfolding element_layout
  storable = record {
    utf8 = utf8;
    version_fits = version_fits;
    few = omega arith;
    typed = (inl refl, tt);
    fits = (omega arith, tt);
    distinct = (tt, tt);
  }

  has_room : HasRoom (metadata_sections metadata) (length metadata + 8)
  unfolding data_byte_len data_element_count write_to
  has_room = (length metadata, 1, metadata, refl, refl, refl, omega arith, tt)

  pub metadata_file :
      (file : List ℕ) × (write_file kind codec_id version (metadata_sections metadata) ≡ ok file)
      × ((result : PersistedFile) × (open_file file kind codec_id version ≡ ok result)
          × (bytes result SectionKind.cost_metadata ≡ ok metadata))
  unfolding write_to
  metadata_file =
      let (file, written, (result, stored)) =
        write_file-stores kind codec_id version (length metadata + 8) (metadata_sections metadata)
          storable short (omega arith) has_room in
      let valid =
        structure result stored.same_kind
        ∙ exact file result metadata stored.entries stored.table stored.placed stored.finds in
      (
        file,
        written,
        (
          result,
          open_file-parse file kind codec_id version
              ∙ (stored.parsed ∙ ap (λ r. r >>= λ v. ok result) valid),
          stored.contents.0,
        ),
      )
