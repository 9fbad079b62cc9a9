-- ===== src/Persistence/Format/Layout.antt =====
-- Where `write_file` puts the payloads: a specification of the layout, which the writer meets.
use yurine.Prelude.{
  ℕ, ◌+◌, ◌%◌, ◌≤◌, ◌<◌, ◌≡◌, refl, List, [], ◌∷◌, ◌++◌, length, arith, drop, take, ◌⊎◌, inl, inr,
  take_of_length, drop_of_length, none, some,
}
use yurine.Errors.{ok}
use yurine.Persistence.Bytes.{checked_add}
use yurine.Persistence.Format.{SectionKind, SectionDescriptor, SectionData, element_layout}
use yurine.Persistence.Format.Write.{
  align_up, section_alignment, data_byte_len, data_element_count, write_to,
}

element_layout-cases :
    (kind : SectionKind)
    → (element_layout kind ≡ none)
      ⊎ ((element_layout kind ≡ some (8, 8))
          ⊎ ((element_layout kind ≡ some (4, 4)) ⊎ (element_layout kind ≡ some (8, 4))))
unfolding element_layout
element_layout-cases SectionKind.vocabulary_token_blob = inl refl
element_layout-cases SectionKind.embedding_token_blob = inl refl
element_layout-cases SectionKind.cost_metadata = inl refl
element_layout-cases SectionKind.vocabulary_token_offsets = inr (inl refl)
element_layout-cases SectionKind.embedding_token_offsets = inr (inl refl)
element_layout-cases SectionKind.sequence_offsets = inr (inl refl)
element_layout-cases SectionKind.posting_offsets = inr (inl refl)
element_layout-cases SectionKind.corpus_symbols = inr (inr (inl refl))
element_layout-cases SectionKind.embeddings = inr (inr (inl refl))
element_layout-cases SectionKind.postings = inr (inr (inr refl))

pub section_alignment-cases :
    (kind : SectionKind)
    → (section_alignment kind ≡ 1) ⊎ ((section_alignment kind ≡ 4) ⊎ (section_alignment kind ≡ 8))
unfolding section_alignment
section_alignment-cases kind = elim (element_layout-cases kind) [
  | inl e ↦ inl (rw (section_alignment, e) refl)
  | inr (inl e) ↦ inr (inr (rw (section_alignment, e) refl))
  | inr (inr (inl e)) ↦ inr (inl (rw (section_alignment, e) refl))
  | inr (inr (inr e)) ↦ inr (inl (rw (section_alignment, e) refl))
]

abbrev pub IsAligned : ℕ → ℕ → ℕ → Type 0
IsAligned value alignment start =
    (value ≤ start) × (start < value + alignment) × (start % alignment ≡ 0)

align_up_one : (value start : ℕ) → align_up value 1 ≡ ok start → IsAligned value 1 start
unfolding align_up checked_add
align_up_one value start e = ground arith

align_up_four : (value start : ℕ) → align_up value 4 ≡ ok start → IsAligned value 4 start
unfolding align_up checked_add
align_up_four value start e = ground arith

pub align_up_eight : (value start : ℕ) → align_up value 8 ≡ ok start → IsAligned value 8 start
unfolding align_up checked_add
align_up_eight value start e = ground arith

-- The cursor moves to the first multiple of the section's alignment.
pub align_up-section_alignment :
    (value start : ℕ) (kind : SectionKind)
    → align_up value (section_alignment kind) ≡ ok start
    → (value ≤ start)
      × (start < value + section_alignment kind)
      × (start % section_alignment kind ≡ 0)
align_up-section_alignment value start kind e = elim (section_alignment-cases kind) [
  | inl one ↦ rw one (align_up_one value start (rw one at e))
  | inr (inl four) ↦ rw four (align_up_four value start (rw four at e))
  | inr (inr eight) ↦ rw eight (align_up_eight value start (rw eight at e))
]

pub take-drop-middle :
    {A : Type 0} (before middle behind : List A) (offset len : ℕ)
    → length before ≡ offset
    → length middle ≡ len
    → take len (drop offset (before ++ (middle ++ behind))) ≡ middle
take-drop-middle before middle behind offset len h k =
    rw (drop_of_length before (middle ++ behind) offset h) (take_of_length middle behind len k)

-- What a descriptor says of its section, and that the payload stands at its place in the file.
pub record IsPlaced (file : List ℕ) (kind : SectionKind) (contents : SectionData)
    (descriptor : SectionDescriptor) : Type 0 where
  pub payload : List ℕ
  pub same_kind : descriptor.kind ≡ kind
  pub written : write_to contents ≡ ok payload
  pub counted : data_element_count contents ≡ ok descriptor.element_count
  pub measured : data_byte_len contents ≡ ok descriptor.byte_len
  pub aligned : descriptor.offset % section_alignment kind ≡ 0
  pub inside : descriptor.offset + descriptor.byte_len ≤ length file
  pub found : take descriptor.byte_len (drop descriptor.offset file) ≡ payload

abbrev pub AllPlaced : List ℕ → List (SectionKind × SectionData) → List SectionDescriptor → Type 0
AllPlaced file [] [] = Unit
AllPlaced file [] (descriptor ∷ descriptors) = ⊥
AllPlaced file (section ∷ sections) [] = ⊥
AllPlaced file ((kind, contents) ∷ sections) (descriptor ∷ descriptors) =
    IsPlaced file kind contents descriptor × AllPlaced file sections descriptors

-- The descriptors follow each other from a cursor to an end.
abbrev pub Follows : ℕ → List SectionDescriptor → ℕ → Type 0
Follows cursor [] end = cursor ≤ end
Follows cursor (descriptor ∷ descriptors) end =
    (cursor ≤ descriptor.offset) × Follows (descriptor.offset + descriptor.byte_len) descriptors end
