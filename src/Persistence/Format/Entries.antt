-- ===== src/Persistence/Format/Entries.antt =====
-- The loop over the section table keeps every section once, under its kind.
use yurine.Prelude.{
  ℕ, ◌≡◌, refl, sym, ap, ◌∙◌, List, [], ◌∷◌, ◌++◌, map, false, subst, some, none, All, Bool-cases,
  inl, inr, some≢none,
}
use mathlib.Core.List.{append_assoc, append-nil}
use yurine.Errors.{ok}
use yurine.Map.{get, put, get-put}
use yurine.Persistence.Format.{
  SectionKind, SectionDescriptor, DiskSectionEntry, SectionData, section_kind_round_trip,
  section_kind_eq, same_section_kind, same_section_kind_iff,
}
use yurine.Persistence.Format.Write.{disk_entry}
use yurine.Persistence.Format.Ranges.{validate_section}
use yurine.Persistence.Format.Parse.{read_sections, descriptor_of}
use yurine.Persistence.Format.Layout.{AllPlaced}

-- No kind comes twice.
abbrev pub Distinct : {A : Type 0} → List (SectionKind × A) → Type 0
Distinct [] = Unit
Distinct ((kind, a) ∷ entries) =
    All (λ (entry : SectionKind × _). same_section_kind kind entry.0 ≡ false) entries
    × Distinct entries

abbrev pub under_kind : SectionDescriptor → SectionKind × SectionDescriptor
under_kind d = (d.kind, d)

put-unused :
    (sections : List (SectionKind × SectionDescriptor)) (d : SectionDescriptor)
    → get sections d.kind ≡ none
    → put sections d.kind d ≡ sections ++ (d.kind, d) ∷ []
unfolding get put
put-unused [] d h = refl
put-unused ((kind, other) ∷ sections) d h = elim (Bool-cases (same_section_kind kind d.kind)) [
  | inl same ↦ absurd (some≢none (rw (get, same) at h))
  | inr differs ↦
      rw (put, differs)
        (ap (λ r. (kind, other) ∷ r) (put-unused sections d (rw (get, differs) at h)))
]

abbrev Table : Type 0
Table = List (SectionKind × SectionDescriptor)

unused_rest :
    (sections : Table) (d : SectionDescriptor) (descriptors : List SectionDescriptor)
    → All
        (λ (entry : SectionKind × SectionDescriptor). same_section_kind d.kind entry.0 ≡ false)
        (map under_kind descriptors)
    → All (λ (other : SectionDescriptor). get sections other.kind ≡ none) descriptors
    → All (λ (other : SectionDescriptor). get (put sections d.kind d) other.kind ≡ none) descriptors
unused_rest sections d [] apart unused = tt
unused_rest sections d (other ∷ descriptors) (differs, apart) (first, unused) = (
  get-put sections d.kind d other.kind ∙ rw differs first,
  unused_rest sections d descriptors apart unused,
)

read_sections-round :
    (file : List ℕ) (d : SectionDescriptor) (entries : List DiskSectionEntry)
    (sections result : Table)
    → validate_section file d ≡ ok tt
    → get sections d.kind ≡ none
    → read_sections file entries (put sections d.kind d) ≡ ok result
    → read_sections file (disk_entry d ∷ entries) sections ≡ ok result
unfolding read_sections descriptor_of
read_sections-round file d entries sections result valid unused rest =
    let same : descriptor_of (disk_entry d) d.kind ≡ d = refl in
    rw (section_kind_round_trip d.kind, same, valid, unused) rest

-- Entries that are valid and of different kinds are all kept.
pub read_sections-Distinct :
    (file : List ℕ) (descriptors : List SectionDescriptor) (sections : Table)
    → All (λ (d : SectionDescriptor). validate_section file d ≡ ok tt) descriptors
    → All (λ (d : SectionDescriptor). get sections d.kind ≡ none) descriptors
    → Distinct (map under_kind descriptors)
    → read_sections file (map disk_entry descriptors) sections
      ≡ ok (sections ++ map under_kind descriptors)
unfolding read_sections
read_sections-Distinct file [] sections valid unused distinct = ap ok (sym (append-nil sections))
read_sections-Distinct file (d ∷ descriptors) sections (valid, valids) (unused, unuseds)
      (apart, distinct) =
    let rest =
      read_sections-Distinct file descriptors (put sections d.kind d) valids
        (unused_rest sections d descriptors apart unuseds) distinct in
    let grown : put sections d.kind d ++ map under_kind descriptors
        ≡ sections ++ map under_kind (d ∷ descriptors) =
      rw (put-unused sections d unused)
        (append_assoc sections ((d.kind, d) ∷ []) (map under_kind descriptors)) in
    read_sections-round file d (map disk_entry descriptors) sections _ valid unused
      (rest ∙ ap ok grown)

get-tail :
    (kind other : SectionKind) (d : SectionDescriptor) (entries : Table)
    → same_section_kind other kind ≡ false
    → get ((other, d) ∷ entries) kind ≡ get entries kind
unfolding get
get-tail kind other d entries differs = rw differs refl

get-head :
    (kind : SectionKind) (d : SectionDescriptor) (entries : Table)
    → get ((kind, d) ∷ entries) kind ≡ some d
unfolding get
get-head kind d entries = rw ((same_section_kind_iff kind kind).1 refl) refl

-- A table finds the section of each kind.
abbrev pub Finds : Table → List (SectionKind × SectionData) → List SectionDescriptor → Type 0
Finds table [] descriptors = Unit
Finds table (section ∷ sections) [] = Unit
Finds table ((kind, contents) ∷ sections) (d ∷ descriptors) =
    (get table kind ≡ some d) × Finds table sections descriptors

Finds-behind :
    (kind : SectionKind) (first : SectionDescriptor) (table : Table)
    (sections : List (SectionKind × SectionData)) (descriptors : List SectionDescriptor)
    → All (λ (entry : SectionKind × SectionData). same_section_kind kind entry.0 ≡ false) sections
    → Finds table sections descriptors
    → Finds ((kind, first) ∷ table) sections descriptors
Finds-behind kind first table [] descriptors apart finds = tt
Finds-behind kind first table (section ∷ sections) [] apart finds = tt
Finds-behind kind first table ((other, contents) ∷ sections) (d ∷ descriptors) (differs, apart)
      (found, finds) =
    (
      get-tail other kind first table differs ∙ found,
      Finds-behind kind first table sections descriptors apart finds,
    )

pub AllPlaced-Finds :
    (file : List ℕ) (sections : List (SectionKind × SectionData))
    (descriptors : List SectionDescriptor)
    → AllPlaced file sections descriptors
    → Distinct sections
    → Finds (map under_kind descriptors) sections descriptors
AllPlaced-Finds file [] descriptors placed distinct = tt
AllPlaced-Finds file (section ∷ sections) [] placed distinct = tt
AllPlaced-Finds file ((kind, contents) ∷ sections) (d ∷ descriptors) (placed, others)
      (apart, distinct) =
    let table = map under_kind descriptors in
    subst (λ k. Finds ((k, d) ∷ table) ((kind, contents) ∷ sections) (d ∷ descriptors))
      (sym placed.same_kind)
      (
        get-head kind d table,
        Finds-behind kind d table sections descriptors apart
            (AllPlaced-Finds file sections descriptors others distinct),
      )

-- The kinds of placed sections are those of their descriptors.
apart_placed :
    (file : List ℕ) (kind : SectionKind) (sections : List (SectionKind × SectionData))
    (descriptors : List SectionDescriptor)
    → AllPlaced file sections descriptors
    → All (λ (entry : SectionKind × SectionData). same_section_kind kind entry.0 ≡ false) sections
    → All
        (λ (entry : SectionKind × SectionDescriptor). same_section_kind kind entry.0 ≡ false)
        (map under_kind descriptors)
apart_placed file kind [] [] placed apart = tt
apart_placed file kind [] (d ∷ descriptors) placed apart = absurd placed
apart_placed file kind (section ∷ sections) [] placed apart = absurd placed
apart_placed file kind ((other, contents) ∷ sections) (d ∷ descriptors) (placed, others)
      (differs, apart) =
    (
      subst (λ k. same_section_kind kind k ≡ false) (sym placed.same_kind) differs,
      apart_placed file kind sections descriptors others apart,
    )

pub AllPlaced-Distinct :
    (file : List ℕ) (sections : List (SectionKind × SectionData))
    (descriptors : List SectionDescriptor)
    → AllPlaced file sections descriptors
    → Distinct sections
    → Distinct (map under_kind descriptors)
AllPlaced-Distinct file [] [] placed distinct = tt
AllPlaced-Distinct file [] (d ∷ descriptors) placed distinct = absurd placed
AllPlaced-Distinct file (section ∷ sections) [] placed distinct = absurd placed
AllPlaced-Distinct file ((kind, contents) ∷ sections) (d ∷ descriptors) (placed, others)
      (apart, distinct) =
    subst (λ k. Distinct ((k, d) ∷ map under_kind descriptors)) (sym placed.same_kind)
      (
        apart_placed file kind sections descriptors others apart,
        AllPlaced-Distinct file sections descriptors others distinct,
      )
