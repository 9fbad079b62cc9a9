-- ===== src/Persistence/Format/Sound.antt =====
-- What is true of every file that is accepted.
use yurine.Prelude.{
  ℕ, ◌*◌, ◌==◌, ◌≤◌, ◌≡◌, refl, ap, ◌∙◌, List, [], ◌∷◌, arith, ltb, ltb→le, if◌then◌else◌, not,
  true, false, subst, length, Bool-cases, inl, inr, Bool, Option, some, none, sym, ==→eq,
}
use mathlib.Core.Option.{some-injective}
use yurine.Errors.{Error, Result, ok, err, ok_or, ok-injective, >>=-eq-ok, err≢ok}
use yurine.Persistence.Bytes.{bytes_eq_iff}
use yurine.Persistence.Utf8.{is_utf8}
use yurine.Persistence.Format.{
  FileKind, DiskHeader, PersistedFile, ValidatedHeader, section_kind_eq, same_file_kind_iff,
  max_codec_id_len, header_size, from_disk,
}
use yurine.Persistence.Format.Write.{validate_codec_id_len}
use yurine.Persistence.Format.Ranges.{checked_range, all_regions}
use yurine.Persistence.Format.Parse.{
  header_fields, header_from_prefix, validate_header, validate_structure,
}
use yurine.Persistence.Format.Open.{
  parse, parse_contents, check_codec, read_table, open_file, map_file, descriptors,
}
use yurine.Persistence.Format.Disjoint.{holders}
use yurine.Persistence.Format.Sections.{AllSound, read_table-AllSound}

-- Opening a file and parsing its mapping are the same.
map_file-long : (file : List ℕ) → ltb (length file) header_size ≡ false → map_file file ≡ ok file
unfolding map_file
map_file-long [] h = absurd (omega (arith, ltb→le 0 64 h))
map_file-long (byte ∷ file) h = refl

-- `open` reads the header before it maps the file, and `parse` from the mapping: on every file both
-- end alike, with the same sections or with the same error.
pub open_file-parse :
    (file : List ℕ) (kind : FileKind) (codec_id : List ℕ) (version : ℕ)
    → open_file file kind codec_id version ≡ parse file kind codec_id version
unfolding open_file parse header_from_prefix
open_file-parse file kind codec_id version = elim (Bool-cases (ltb (length file) header_size)) [
  | inl short ↦ rw short refl
  | inr long ↦ rw (long, map_file-long file long) refl
]

-- The sections of an accepted file are sound, and no byte has two meanings.
pub record IsSound (file : List ℕ) (kind : FileKind) (codec_id : List ℕ) (version : ℕ)
    (result : PersistedFile) : Type 0 where
  pub same_file : result.mmap ≡ file
  pub same_kind : result.kind ≡ kind
  pub whole : (header_fields file).file_len ≡ length file
  pub codec_found :
      checked_range file (header_fields file).codec_offset (header_fields file).codec_len
      ≡ ok codec_id
  pub table_found :
      (table : List ℕ) × (checked_range file
          (header_fields file).section_table_offset
          ((header_fields file).section_count * 32)
        ≡ ok table)
  pub sections : AllSound file result.sections
  pub disjoint :
      (position : ℕ)
      → holders position (
          all_regions
            (header_fields file).codec_offset
            (header_fields file).codec_len
            (header_fields file).section_table_offset
            ((header_fields file).section_count * 32)
            (descriptors result.sections))
        ≤ 1
  pub structured : validate_structure result ≡ ok tt

-- What the checks of the codec leave.
codec_checks :
    (utf8 same same_version : Bool) (actual expected : List ℕ) (found version : ℕ)
    → (if not utf8
        then err (Error.invalid_file "codec identifier is not UTF-8")
        else if not same
        then err (Error.codec_mismatch expected actual)
        else if not same_version
        then err (Error.codec_version_mismatch version found)
        else ok (tt {0}))
      ≡ ok (tt {0})
    → same ≡ true
codec_checks false same same_version actual expected found version e = absurd (err≢ok e)
codec_checks true false same_version actual expected found version e = absurd (err≢ok e)
codec_checks true true same_version actual expected found version e = refl

check_codec-found :
    (file : List ℕ) (header : ValidatedHeader) (codec_id : List ℕ) (version : ℕ)
    → check_codec file header codec_id version ≡ ok tt
    → checked_range file header.codec_offset header.codec_len ≡ ok codec_id
unfolding check_codec
check_codec-found file header codec_id version e =
    elim (Bool-cases (ltb max_codec_id_len header.codec_len)) [
      | inl long ↦ absurd (err≢ok (rw long at e))
      | inr short ↦
          let (actual, range, e1) =
            >>=-eq-ok (checked_range file header.codec_offset header.codec_len) _ (rw short at e) in
          let same : actual ≡ codec_id =
            (bytes_eq_iff actual codec_id).0 (codec_checks (is_utf8 actual) _ _ _ _ _ _ e1) in
          range ∙ ap ok same
    ]

parse_contents-IsSound :
    (file : List ℕ) (kind : FileKind) (codec_id : List ℕ) (version : ℕ) (result : PersistedFile)
    → (header_fields file).file_len ≡ length file
    → parse_contents file (from_disk (header_fields file) kind) codec_id version ≡ ok result
    → IsSound file kind codec_id version result
unfolding parse_contents from_disk
parse_contents-IsSound file kind codec_id version result whole e =
    let header = from_disk (header_fields file) kind in
    let (checked, codec, e1) = >>=-eq-ok (check_codec file header codec_id version) _ e in
    let (table, read, e2) = >>=-eq-ok (read_table file header) _ e1 in
    let opened : PersistedFile = record { mmap = file; kind = kind; sections = table } in
    let (valid, structured, e3) = >>=-eq-ok (validate_structure opened) _ e2 in
    let (all, found, disjoint) = read_table-AllSound file header table read in
    subst (IsSound file kind codec_id version) (ok-injective e3) (record {
      same_file = refl;
      same_kind = refl;
      whole = whole;
      codec_found = check_codec-found file header codec_id version codec;
      table_found = found;
      sections = all;
      disjoint = disjoint;
      structured = structured;
    })

header_checks :
    (header : DiskHeader) (kind found : FileKind)
    → validate_header header kind ≡ ok found
    → found ≡ kind
unfolding validate_header
header_checks header kind found e = ground (arith, same_file_kind_iff found kind)

unless :
    {A : Type 0} (test : Bool) (problem : Error) (rest : Result A) (result : A)
    → (if not test then err problem else rest) ≡ ok result
    → (test ≡ true) × (rest ≡ ok result)
unless true problem rest result e = (refl, e)
unless false problem rest result e = absurd (err≢ok e)

header_from_prefix-fields :
    (file : List ℕ) (header : DiskHeader)
    → header_from_prefix file ≡ some header
    → header ≡ header_fields file
unfolding header_from_prefix
header_from_prefix-fields file header e = elim (Bool-cases (ltb (length file) header_size)) [
  | inl short ↦ cc (rw short at e)
  | inr long ↦ some-injective header (header_fields file) (sym (rw long at e))
]

ok_or-some :
    {A : Type 0} (found : Option A) (problem : Error) (a : A)
    → ok_or found problem ≡ ok a
    → found ≡ some a
ok_or-some none problem a e = absurd (err≢ok e)
ok_or-some (some b) problem a e = ap some (ok-injective e)

-- What is accepted is sound: the file has the length that its header says, the sections of the result
-- lie in it and have the length and the alignment of their elements, the codec identifier at the
-- header's range is the expected one, the section table of the header's count lies in the file, no byte
-- belongs to two of the header, the codec identifier, that table and the sections, and the structure of
-- the kind was checked.
pub parse-IsSound :
    (file : List ℕ) (kind : FileKind) (codec_id : List ℕ) (version : ℕ) (result : PersistedFile)
    → parse file kind codec_id version ≡ ok result
    → IsSound file kind codec_id version result
unfolding parse from_disk
parse-IsSound file kind codec_id version result e =
    let (checked, short, e1) = >>=-eq-ok (validate_codec_id_len codec_id) _ e in
    let (header, prefix, e2) = >>=-eq-ok (ok_or (header_from_prefix file) _) _ e1 in
    let same : header ≡ header_fields file =
      header_from_prefix-fields file header
        (ok_or-some (header_from_prefix file) _ header prefix) in
    let (found, valid, e3) = >>=-eq-ok (validate_header header kind) _ e2 in
    let (whole, contents) =
      unless (header.file_len == length file) _
        (parse_contents file (from_disk header found) codec_id version) result e3 in
    subst (λ k. IsSound file k codec_id version result) (header_checks header kind found valid)
      (parse_contents-IsSound file found codec_id version result
        (subst (λ h. h.file_len ≡ length file) same (==→eq header.file_len (length file) whole))
        (subst (λ h. parse_contents file (from_disk h found) codec_id version ≡ ok result) same
          contents))
